-- ===== src/Ingestion/Orphans.antt =====
-- packages/core/src/ingestion.ts: a reorganisation marks what it orphans, and marking again changes nothing.
use capital_os.Shared.{
  ℕ, Text, text_eq, Bool, true, false, Option, none, some, List, [], ◌∷◌, map, find, All, ◌≡◌, refl,
  sym, ap, ◌∙◌, arith,
}
use capital_os.Errors.{ok}
use capital_os.Ingestion.{
  ChainBlock, RawEvent, CanonicalActivity, IngestionState, apply_reorg, rewound, block_of,
  orphan_block, orphan_event, orphan_activity, is_above, block_of_event, checkpoint_at,
}
use capital_os.Ingestion.Reorg.{reorg_result}

orphan_option : ℕ → Option ChainBlock → Option ChainBlock
orphan_option top none = none
orphan_option top (some b) = some (orphan_block top b)

hash-orphan_block : (top : ℕ) (b : ChainBlock) → (orphan_block top b).hash ≡ b.hash
hash-orphan_block top b = ground arith

block_of-orphans :
    (top : ℕ) (blocks : List ChainBlock) (hash : Text)
    → block_of (map (orphan_block top) blocks) hash ≡ orphan_option top (block_of blocks hash)
unfolding orphan_option
block_of-orphans top [] hash = refl
block_of-orphans top (b ∷ blocks) hash =
    ground (arith, hash-orphan_block top b, block_of-orphans top blocks hash)

is_above-orphan :
    (top : ℕ) (o : Option ChainBlock) → is_above top (orphan_option top o) ≡ is_above top o
unfolding orphan_option
is_above-orphan top none = refl
is_above-orphan top (some b) = ground arith

above-orphans :
    (top : ℕ) (blocks : List ChainBlock) (hash : Text)
    → is_above top (block_of (map (orphan_block top) blocks) hash)
      ≡ is_above top (block_of blocks hash)
above-orphans top blocks hash =
    rw (block_of-orphans top blocks hash) (is_above-orphan top (block_of blocks hash))

orphan_block-twice :
    (top : ℕ) (b : ChainBlock) → orphan_block top (orphan_block top b) ≡ orphan_block top b
orphan_block-twice top b = ground arith

orphan_event-twice :
    (top : ℕ) (blocks : List ChainBlock) (e : RawEvent)
    → orphan_event top (map (orphan_block top) blocks) (orphan_event top blocks e)
      ≡ orphan_event top blocks e
orphan_event-twice top blocks e = ground (arith, above-orphans top blocks e.block_hash)

map-twice :
    {A : Type 0} (f g : A → A)
    → ((x : A) → g (f x) ≡ f x)
    → (xs : List A) → map g (map f xs) ≡ map f xs
map-twice f g same [] = refl
map-twice f g same (x ∷ xs) = λ i. same x i ∷ map-twice f g same xs i

event_block :
    (top : ℕ) (blocks others : List ChainBlock) (id : Text) (events : List RawEvent)
    → block_of_event others
        (find (λ (e : RawEvent). text_eq e.id id) (map (orphan_event top blocks) events))
      ≡ block_of_event others (find (λ (e : RawEvent). text_eq e.id id) events)
event_block top blocks others id [] = refl
event_block top blocks others id (e ∷ events) =
    ground (arith, event_block top blocks others id events)

above_event :
    (top : ℕ) (blocks : List ChainBlock) (o : Option RawEvent)
    → is_above top (block_of_event (map (orphan_block top) blocks) o)
      ≡ is_above top (block_of_event blocks o)
above_event top blocks none = refl
above_event top blocks (some e) = above-orphans top blocks e.block_hash

above_activity :
    (top : ℕ) (blocks : List ChainBlock) (events : List RawEvent) (id : Text)
    → is_above top (
        block_of_event
          (map (orphan_block top) blocks)
          (find (λ (e : RawEvent). text_eq e.id id) (map (orphan_event top blocks) events)))
      ≡ is_above top (block_of_event blocks (find (λ (e : RawEvent). text_eq e.id id) events))
above_activity top blocks events id =
    rw (event_block top blocks (map (orphan_block top) blocks) id events)
      (above_event top blocks (find (λ (e : RawEvent). text_eq e.id id) events))

orphan_activity-twice :
    (top : ℕ) (blocks : List ChainBlock) (events : List RawEvent) (a : CanonicalActivity)
    → orphan_activity top
        (map (orphan_block top) blocks)
        (map (orphan_event top blocks) events)
        (orphan_activity top blocks events a)
      ≡ orphan_activity top blocks events a
orphan_activity-twice top blocks events a = ground (arith, above_activity top blocks events a.id)

rewound-twice : (s : IngestionState) (a : ChainBlock) → rewound (rewound s a) a ≡ rewound s a
rewound-twice s a = λ i. record {
  blocks =
      map-twice (orphan_block a.height) (orphan_block a.height) (orphan_block-twice a.height)
        s.blocks i;
  events =
      map-twice (orphan_event a.height s.blocks)
        (orphan_event a.height (map (orphan_block a.height) s.blocks))
        (orphan_event-twice a.height s.blocks) s.events i;
  checkpoint = some (checkpoint_at a);
  activities =
      map-twice (orphan_activity a.height s.blocks s.events)
        (orphan_activity a.height (map (orphan_block a.height) s.blocks)
          (map (orphan_event a.height s.blocks) s.events))
        (orphan_activity-twice a.height s.blocks s.events) s.activities i;
}

reorg_at :
    (s : IngestionState) (a : ChainBlock) (hash : Text)
    → block_of s.blocks hash ≡ some a
    → apply_reorg s hash ≡ ok (rewound s a)
unfolding apply_reorg
reorg_at s a hash found = ground arith

ancestor_stays :
    (s : IngestionState) (a : ChainBlock) (hash : Text)
    → block_of s.blocks hash ≡ some a
    → block_of (rewound s a).blocks hash ≡ some a
unfolding orphan_option
ancestor_stays s a hash found = rw (block_of-orphans a.height s.blocks hash, found) (ground arith)

-- A reorganisation that is applied a second time changes nothing more.
pub apply_reorg-twice :
    (s s' : IngestionState) (hash : Text) → apply_reorg s hash ≡ ok s' → apply_reorg s' hash ≡ ok s'
apply_reorg-twice s s' hash h =
    let (a, found, same) = reorg_result s s' hash h in
    rw (sym same)
      (reorg_at (rewound s a) a hash (ancestor_stays s a hash found) ∙ ap ok (rewound-twice s a))

-- Is the block of this hash above the checkpoint?
abbrev pub is_orphaned : IngestionState → Option ChainBlock → Bool
is_orphaned s o = elim s.checkpoint as (λ c. Bool) [ none ↦ false | some c ↦ is_above c.height o ]

-- Whatever belongs to an orphaned block is not canonical.
pub record OrphansMarked (s : IngestionState) : Type 0 where
  pub blocks :
      All (λ (b : ChainBlock). is_orphaned s (some b) ≡ true → b.canonical ≡ false) s.blocks
  pub events :
      All
        (λ (e : RawEvent).
          is_orphaned s (block_of s.blocks e.block_hash) ≡ true → e.canonical ≡ false)
        s.events
  pub activities :
      All
        (λ (a : CanonicalActivity).
          is_orphaned s
              (block_of_event s.blocks (find (λ (e : RawEvent). text_eq e.id a.id) s.events))
            ≡ true
          → a.canonical ≡ false)
        s.activities

All-map :
    {A : Type 0} (P : A → Type 0) (f : A → A)
    → ((x : A) → P (f x))
    → (xs : List A) → All P (map f xs)
All-map P f each [] = tt
All-map P f each (x ∷ xs) = (each x, All-map P f each xs)

orphaned_event :
    (top : ℕ) (blocks : List ChainBlock) (e : RawEvent)
    → is_above top (block_of (map (orphan_block top) blocks) (orphan_event top blocks e).block_hash)
      ≡ true
    → (orphan_event top blocks e).canonical ≡ false
orphaned_event top blocks e h = ground (arith, above-orphans top blocks e.block_hash)

orphaned_activity :
    (top : ℕ) (blocks : List ChainBlock) (events : List RawEvent) (a : CanonicalActivity)
    → is_above top (
        block_of_event (map (orphan_block top) blocks) (
          find
            (λ (e : RawEvent). text_eq e.id (orphan_activity top blocks events a).id)
            (map (orphan_event top blocks) events)))
      ≡ true
    → (orphan_activity top blocks events a).canonical ≡ false
orphaned_activity top blocks events a h = ground (arith, above_activity top blocks events a.id)

-- After a reorganisation every block above the new checkpoint, every event of such a block and every activity
-- of such an event is marked as not canonical.
pub apply_reorg-OrphansMarked :
    (s s' : IngestionState) (hash : Text) → apply_reorg s hash ≡ ok s' → OrphansMarked s'
apply_reorg-OrphansMarked s s' hash h =
    let (a, found, same) = reorg_result s s' hash h in
    rw (sym same) (record {
      blocks = All-map _ (orphan_block a.height) (λ b up. ground arith) s.blocks;
      events =
          All-map _ (orphan_event a.height s.blocks) (orphaned_event a.height s.blocks) s.events;
      activities =
          All-map _ (orphan_activity a.height s.blocks s.events)
            (orphaned_activity a.height s.blocks s.events) s.activities;
    })
