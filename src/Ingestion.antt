-- ===== src/Ingestion.antt =====
-- packages/core/src/ingestion.ts: the chain as it was observed, and the marking of what a reorganisation
-- orphans. Heights are numbers from 0, as they are on both chains.
mod Reorg
mod Orphans
mod Examples
use capital_os.Shared.{
  ℕ, Text, codes, text_eq, ltb, ℤ, Bool, true, false, not, Option, none, some, List, [], ◌∷◌, ◌++◌,
  map, find, if◌then◌else◌,
}
use capital_os.Errors.{Result, ok, err, error}
use capital_os.Ids.{AssetId}
use capital_os.Network.{StacksNetwork, Chain}

pub record ChainBlock : Type 0 where
  pub chain : Chain
  pub network : StacksNetwork
  pub height : ℕ
  pub hash : Text
  pub parent_hash : Text
  pub canonical : Bool
  pub observed_at : Text
  pub source : Text

pub record RawEvent : Type 0 where
  pub id : Text
  pub chain : Chain
  pub network : StacksNetwork
  pub block_hash : Text
  pub payload : Text
  pub canonical : Bool
  pub observed_at : Text
  pub source : Text

pub record IngestionCheckpoint : Type 0 where
  pub chain : Chain
  pub network : StacksNetwork
  pub height : ℕ
  pub hash : Text

pub data DecodedField : Type 0 where
  integer : ℤ → DecodedField
  string : Text → DecodedField
  principal : Text → DecodedField
  buffer : Text → DecodedField
  other : Text → DecodedField

-- `fields` is the map from names, as its entries.
pub record DecodedEvent : Type 0 where
  pub id : Text
  pub block_hash : Text
  pub contract_id : Text
  pub fields : List (Text × DecodedField)

pub data Direction : Type 0 where
  inward outward : Direction

pub record ActivityEffect : Type 0 where
  pub direction : Direction
  pub asset : AssetId
  pub quantity : ℤ

pub record CanonicalActivity : Type 0 where
  pub id : Text
  pub workflow_id : Option Text
  pub kind : Text
  pub block_hash : Text
  pub canonical : Bool
  pub owner : Option Text
  pub reference : Option Text
  pub effects : List ActivityEffect

unfoldable pub field_named : List (Text × DecodedField) → Text → Option DecodedField
field_named [] name = none
field_named ((key, field) ∷ fields) name = elim (text_eq key name) [
  | true ↦ some field
  | false ↦ field_named fields name
]

abbrev as_integer : Option DecodedField → Option ℤ
as_integer (some (integer z)) = some z
as_integer _ = none

abbrev as_principal : Option DecodedField → Option Text
as_principal (some (principal p)) = some p
as_principal _ = none

abbrev as_string : Option DecodedField → Option Text
as_string (some (string s)) = some s
as_string _ = none

unfoldable pub integer_field : DecodedEvent → Text → Option ℤ
unfolding field_named
integer_field event name = as_integer (field_named event.fields name)

unfoldable pub principal_field : DecodedEvent → Text → Option Text
unfolding field_named
principal_field event name = as_principal (field_named event.fields name)

unfoldable pub string_field : DecodedEvent → Text → Option Text
unfolding field_named
string_field event name = as_string (field_named event.fields name)

pub record IngestionState : Type 0 where
  pub blocks : List ChainBlock
  pub events : List RawEvent
  pub checkpoint : Option IngestionCheckpoint
  pub activities : List CanonicalActivity

abbrev pub empty_ingestion : IngestionState
empty_ingestion = record { blocks = []; events = []; checkpoint = none; activities = [] }

abbrev pub checkpoint_at : ChainBlock → IngestionCheckpoint
checkpoint_at block = record {
  chain = block.chain;
  network = block.network;
  height = block.height;
  hash = block.hash;
}

abbrev pub mark_block : Bool → ChainBlock → ChainBlock
mark_block canonical b = record {
  chain = b.chain;
  network = b.network;
  height = b.height;
  hash = b.hash;
  parent_hash = b.parent_hash;
  canonical = canonical;
  observed_at = b.observed_at;
  source = b.source;
}

abbrev pub mark_event : Bool → RawEvent → RawEvent
mark_event canonical e = record {
  id = e.id;
  chain = e.chain;
  network = e.network;
  block_hash = e.block_hash;
  payload = e.payload;
  canonical = canonical;
  observed_at = e.observed_at;
  source = e.source;
}

abbrev pub mark_activity : Bool → CanonicalActivity → CanonicalActivity
mark_activity canonical a = record {
  id = a.id;
  workflow_id = a.workflow_id;
  kind = a.kind;
  block_hash = a.block_hash;
  canonical = canonical;
  owner = a.owner;
  reference = a.reference;
  effects = a.effects;
}

abbrev pub breaks : Option IngestionCheckpoint → ChainBlock → Bool
breaks none block = false
breaks (some c) block = not (text_eq block.parent_hash c.hash)

abbrev checkpoint_hash : Option IngestionCheckpoint → Text
checkpoint_hash none = []
checkpoint_hash (some c) = c.hash

unfoldable pub apply_block : IngestionState → ChainBlock → List RawEvent → Result IngestionState
apply_block state block events =
    if breaks state.checkpoint block
    then err (
        error (
          codes "Block "
          ++ block.hash
          ++ codes " does not continue checkpoint "
          ++ checkpoint_hash state.checkpoint))
    else ok (record {
      blocks = state.blocks ++ mark_block true block ∷ [];
      events = state.events ++ map (mark_event true) events;
      checkpoint = some (checkpoint_at block);
      activities = state.activities;
    })

abbrev pub block_of : List ChainBlock → Text → Option ChainBlock
block_of blocks hash = find (λ (b : ChainBlock). text_eq b.hash hash) blocks

abbrev pub is_above : ℕ → Option ChainBlock → Bool
is_above height none = false
is_above height (some b) = ltb height b.height

abbrev pub orphan_block : ℕ → ChainBlock → ChainBlock
orphan_block height b = if ltb height b.height then mark_block false b else b

abbrev pub orphan_event : ℕ → List ChainBlock → RawEvent → RawEvent
orphan_event height blocks e =
    if is_above height (block_of blocks e.block_hash) then mark_event false e else e

abbrev pub block_of_event : List ChainBlock → Option RawEvent → Option ChainBlock
block_of_event blocks none = none
block_of_event blocks (some e) = block_of blocks e.block_hash

abbrev pub orphan_activity :
    ℕ → List ChainBlock → List RawEvent → CanonicalActivity → CanonicalActivity
orphan_activity height blocks events a =
    if is_above height (block_of_event blocks (find (λ (e : RawEvent). text_eq e.id a.id) events))
    then mark_activity false a
    else a

abbrev pub rewound : IngestionState → ChainBlock → IngestionState
rewound state ancestor = record {
  blocks = map (orphan_block ancestor.height) state.blocks;
  events = map (orphan_event ancestor.height state.blocks) state.events;
  checkpoint = some (checkpoint_at ancestor);
  activities = map (orphan_activity ancestor.height state.blocks state.events) state.activities;
}

unfoldable pub apply_reorg : IngestionState → Text → Result IngestionState
apply_reorg state common_ancestor_hash = elim (block_of state.blocks common_ancestor_hash) [
  | none ↦ err (error (codes "Unknown ancestor " ++ common_ancestor_hash))
  | some ancestor ↦ ok (rewound state ancestor)
]
