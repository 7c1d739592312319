-- ===== src/Ingestion/Examples.antt =====
-- Two blocks and a reorganisation of packages/core/src/ingestion.ts.
use capital_os.Shared.{ℕ, Text, text_eq, true, false, some, [], ◌∷◌, ◌≡◌, refl, arith}
use capital_os.Errors.{ok}
use capital_os.Network.{testnet, stacks}
use capital_os.Ingestion.{
  ChainBlock, RawEvent, IngestionState, empty_ingestion, apply_block, apply_reorg, checkpoint_at,
  mark_block, mark_event,
}
use capital_os.Ingestion.Reorg.{
  Reached, start, block, reorg, TopIsCheckpoint, reached-TopIsCheckpoint,
}
use capital_os.Ingestion.Orphans.{OrphansMarked, apply_reorg-OrphansMarked, apply_reorg-twice}

abbrev block_at : ℕ → Text → Text → ChainBlock
block_at height hash parent = record {
  chain = stacks;
  network = testnet;
  height = height;
  hash = hash;
  parent_hash = parent;
  canonical = true;
  observed_at = [];
  source = [];
}

abbrev first_block : ChainBlock
first_block = block_at 7 (b'a' ∷ []) (b'z' ∷ [])

abbrev second_block : ChainBlock
second_block = block_at 8 (b'b' ∷ []) (b'a' ∷ [])

abbrev event : RawEvent
event = record {
  id = b'e' ∷ [];
  chain = stacks;
  network = testnet;
  block_hash = b'b' ∷ [];
  payload = [];
  canonical = true;
  observed_at = [];
  source = [];
}

abbrev one_block : IngestionState
one_block = record {
  blocks = first_block ∷ [];
  events = [];
  checkpoint = some (checkpoint_at first_block);
  activities = [];
}

abbrev two_blocks : IngestionState
two_blocks = record {
  blocks = first_block ∷ second_block ∷ [];
  events = event ∷ [];
  checkpoint = some (checkpoint_at second_block);
  activities = [];
}

abbrev after_reorg : IngestionState
after_reorg = record {
  blocks = first_block ∷ mark_block false second_block ∷ [];
  events = mark_event false event ∷ [];
  checkpoint = some (checkpoint_at first_block);
  activities = [];
}

first_applied : apply_block empty_ingestion first_block [] ≡ ok one_block
unfolding apply_block
first_applied = refl

second_applied : apply_block one_block second_block (event ∷ []) ≡ ok two_blocks
unfolding apply_block text_eq
second_applied = refl

rewound_once : apply_reorg two_blocks (b'a' ∷ []) ≡ ok after_reorg
unfolding apply_reorg text_eq
rewound_once = refl

abbrev reached : Reached after_reorg
reached =
    reorg two_blocks after_reorg (b'a' ∷ [])
      (block one_block two_blocks second_block (event ∷ [])
        (block empty_ingestion one_block first_block [] start tt first_applied) (omega arith)
        second_applied)
      rewound_once

reached-TopIsCheckpoint_example : TopIsCheckpoint after_reorg
reached-TopIsCheckpoint_example = reached-TopIsCheckpoint after_reorg reached

apply_reorg-OrphansMarked_example : OrphansMarked after_reorg
apply_reorg-OrphansMarked_example =
    apply_reorg-OrphansMarked two_blocks after_reorg (b'a' ∷ []) rewound_once

apply_reorg-twice_example : apply_reorg after_reorg (b'a' ∷ []) ≡ ok after_reorg
apply_reorg-twice_example = apply_reorg-twice two_blocks after_reorg (b'a' ∷ []) rewound_once
