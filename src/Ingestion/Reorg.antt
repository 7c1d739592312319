-- ===== src/Ingestion/Reorg.antt =====
-- packages/core/src/ingestion.ts: what a reorganisation leaves canonical.
use capital_os.Shared.{
  ℕ, Text, true, Option, none, some, List, [], ◌∷◌, ◌++◌, map, All, All-append, ◌≡◌, refl, sym,
  arith, ◌≤◌, Option-cases, inl, inr,
}
use capital_os.Errors.{ok}
use capital_os.Ingestion.{
  ChainBlock, RawEvent, IngestionCheckpoint, IngestionState, apply_block, apply_reorg, rewound,
  block_of, orphan_block, mark_block, checkpoint_at, empty_ingestion,
}

abbrev pub Under : ℕ → ChainBlock → Type 0
Under top b = b.canonical ≡ true → b.height ≤ top

abbrev pub AtMost : Option IngestionCheckpoint → List ChainBlock → Type 0
AtMost none blocks = blocks ≡ []
AtMost (some c) blocks = All (Under c.height) blocks

-- No canonical block is above the checkpoint; without a checkpoint there is no block.
abbrev pub TopIsCheckpoint : IngestionState → Type 0
TopIsCheckpoint s = AtMost s.checkpoint s.blocks

orphans-Under :
    (top : ℕ) (blocks : List ChainBlock) → All (Under top) (map (orphan_block top) blocks)
orphans-Under top [] = tt
orphans-Under top (b ∷ blocks) = ((λ h. ground arith), orphans-Under top blocks)

pub reorg_result :
    (s s' : IngestionState) (hash : Text)
    → apply_reorg s hash ≡ ok s'
    → (a : ChainBlock) × (block_of s.blocks hash ≡ some a) × (rewound s a ≡ s')
unfolding apply_reorg
reorg_result s s' hash h = elim (Option-cases (block_of s.blocks hash)) [
  | inl n ↦ absurd (ground arith)
  | inr (a, found) ↦ (a, found, ground arith)
]

pub apply_reorg-TopIsCheckpoint :
    (s s' : IngestionState) (hash : Text) → apply_reorg s hash ≡ ok s' → TopIsCheckpoint s'
apply_reorg-TopIsCheckpoint s s' hash h =
    let (a, found, same) = reorg_result s s' hash h in
    rw (sym same) (orphans-Under a.height s.blocks)

-- A block at the height of the checkpoint or above it.
abbrev pub Climbs : Option IngestionCheckpoint → ChainBlock → Type 0
Climbs none b = Unit
Climbs (some c) b = c.height ≤ b.height

Under-mono :
    (m n : ℕ) (blocks : List ChainBlock) → m ≤ n → All (Under m) blocks → All (Under n) blocks
Under-mono m n [] h p = tt
Under-mono m n (b ∷ blocks) h (pb, p) =
    ((λ c. let low : b.height ≤ m = pb c in omega arith), Under-mono m n blocks h p)

block_result :
    (s s' : IngestionState) (b : ChainBlock) (es : List RawEvent)
    → apply_block s b es ≡ ok s'
    → (s'.blocks ≡ s.blocks ++ mark_block true b ∷ []) × (s'.checkpoint ≡ some (checkpoint_at b))
unfolding apply_block
block_result s s' b es h = (ground arith, ground arith)

climb-Under :
    (c : Option IngestionCheckpoint) (blocks : List ChainBlock) (b : ChainBlock)
    → Climbs c b
    → AtMost c blocks
    → All (Under b.height) blocks
climb-Under none blocks b up h = rw h tt
climb-Under (some c) blocks b up h = Under-mono c.height b.height blocks up h

apply_block-TopIsCheckpoint :
    (s s' : IngestionState) (b : ChainBlock) (es : List RawEvent)
    → Climbs s.checkpoint b
    → TopIsCheckpoint s
    → apply_block s b es ≡ ok s'
    → TopIsCheckpoint s'
apply_block-TopIsCheckpoint s s' b es up top h =
    let (blocks, checkpoint) = block_result s s' b es h in
    rw (blocks, checkpoint)
      (All-append (Under b.height) s.blocks (mark_block true b ∷ [])
        (climb-Under s.checkpoint s.blocks b up top) ((λ c. omega arith), tt))

-- The states that blocks and reorganisations lead to, from nothing.
pub data Reached : IngestionState → Type 0 where
  start : Reached empty_ingestion
  block :
      (s s' : IngestionState) (b : ChainBlock) (es : List RawEvent)
      → Reached s
      → Climbs s.checkpoint b
      → apply_block s b es ≡ ok s'
      → Reached s'
  reorg :
      (s s' : IngestionState) (hash : Text) → Reached s → apply_reorg s hash ≡ ok s' → Reached s'

-- In every state that blocks, each at the checkpoint's height or above it, and reorganisations lead to, no
-- canonical block is above the checkpoint.
pub reached-TopIsCheckpoint : (s : IngestionState) → Reached s → TopIsCheckpoint s
reached-TopIsCheckpoint _ start = refl
reached-TopIsCheckpoint _ (block s s' b es r up h) =
    apply_block-TopIsCheckpoint s s' b es up (reached-TopIsCheckpoint s r) h
reached-TopIsCheckpoint _ (reorg s s' hash r h) = apply_reorg-TopIsCheckpoint s s' hash h
