-- ===== src/Worker/Writes.antt =====
-- packages/database/src/execution.ts: how the decisions of the worker are stored. The tables of
-- workflows and of their transitions are a list of workflows, each with its transitions in the order
-- of their sequence numbers, which count from 1; the time of the last change is left out.
use capital_os.Shared.{
  none, ℕ, ◌==◌, Text, codes, text_eq, Bool, true, false, ◌&&◌, List, [], ◌∷◌, ◌++◌, length,
  if◌then◌else◌,
}
use capital_os.Network.{StacksNetwork}
use capital_os.Workflow.States.{WorkflowState, Transition, Workflow, wait}

-- The row that the update claims: of this workflow, with as many transitions as were expected.
abbrev pub is_claimed : Workflow → Text → ℕ → Bool
is_claimed row id expected = text_eq row.id id && length row.transitions == expected

-- The claimed row after the update and the inserts.
abbrev pub written : Workflow → Workflow → List Transition → Workflow
written row workflow moves = record row {
  state = workflow.state;
  next_action = workflow.next_action;
  transitions = row.transitions ++ moves;
}

unfoldable pub write_claimed : List Workflow → Workflow → List Transition → ℕ → List Workflow × Bool
write_claimed [] workflow moves expected = ([], false)
write_claimed (row ∷ rows) workflow moves expected =
    let (rest, found) = write_claimed rows workflow moves expected in
    if is_claimed row workflow.id expected
    then (written row workflow moves ∷ rows, true)
    else (row ∷ rest, found)

unfoldable pub advance_workflow_from_chain :
    List Workflow → Workflow → List Transition → ℕ → List Workflow × Bool
advance_workflow_from_chain store workflow [] expected = (store, false)
advance_workflow_from_chain store workflow (move ∷ moves) expected =
    write_claimed store workflow (move ∷ moves) expected

-- The network of a stored name: `name === "mainnet" ? "mainnet" : "testnet"`.
abbrev pub network_of : Text → StacksNetwork
network_of name =
    if text_eq name (codes "mainnet") then StacksNetwork.mainnet else StacksNetwork.testnet

-- `before`, the workflow that the worker's loops build from a row.
abbrev pub rebuilt : Text → Text → WorkflowState → Workflow
rebuilt id network state = record {
  id = id;
  network = network_of network;
  quote_id = none;
  plan_id = none;
  step_id = none;
  state = state;
  next_action = wait;
  transitions = [];
  idempotency_key = id;
}
