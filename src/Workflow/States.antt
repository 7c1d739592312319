-- ===== src/Workflow/States.antt =====
-- packages/core/src/workflow.ts: states, the table `ALLOWED`, the next action, and the record.
use capital_os.Shared.{
  ℕ, ◌==◌, Text, codes, starts_with, Bool, true, false, Option, none, some, List, [], ◌∷◌,
  if◌then◌else◌, any,
}
use capital_os.Errors.{CapitalError, capital_error, ErrorCode}
use capital_os.Network.{StacksNetwork}

pub data WorkflowState : Type 0 where
  draft quoted awaiting_signature broadcast_unknown submitted confirming : WorkflowState
  step_confirmed reconciling action_required reorged manual_review : WorkflowState
  completed expired user_rejected failed : WorkflowState

pub data NextAction : Type 0 where
  sign requote wait retry_read reclaim follow_up contact_support complete start_new : NextAction

pub record Transition : Type 0 where
  pub from : WorkflowState
  pub to : WorkflowState
  pub reason : Text
  pub actor : Text
  pub evidence : Text
  pub at : Text

pub record Workflow : Type 0 where
  pub id : Text
  pub network : StacksNetwork
  pub quote_id : Option Text
  pub plan_id : Option Text
  pub step_id : Option Text
  pub state : WorkflowState
  pub next_action : NextAction
  pub transitions : List Transition
  pub idempotency_key : Text

-- The position of a state in the union, by which two states are compared.
abbrev rank : WorkflowState → ℕ
rank draft = 0
rank quoted = 1
rank awaiting_signature = 2
rank broadcast_unknown = 3
rank submitted = 4
rank confirming = 5
rank step_confirmed = 6
rank reconciling = 7
rank action_required = 8
rank reorged = 9
rank manual_review = 10
rank completed = 11
rank expired = 12
rank user_rejected = 13
rank failed = 14

abbrev pub state_eq : WorkflowState → WorkflowState → Bool
state_eq s t = rank s == rank t

-- `list.includes(state)`
abbrev pub is_in : List WorkflowState → WorkflowState → Bool
is_in states s = any (state_eq s) states

-- `ALLOWED`
abbrev pub allowed : WorkflowState → List WorkflowState
allowed draft = quoted ∷ expired ∷ failed ∷ []
allowed quoted = awaiting_signature ∷ expired ∷ failed ∷ []
allowed awaiting_signature =
    submitted ∷ broadcast_unknown ∷ user_rejected ∷ expired ∷ failed ∷ action_required ∷ []
allowed broadcast_unknown = submitted ∷ confirming ∷ broadcast_unknown ∷ manual_review ∷ failed ∷ []
allowed submitted =
    confirming ∷ broadcast_unknown ∷ submitted ∷ reorged ∷ failed ∷ action_required ∷ []
allowed confirming =
    step_confirmed ∷ reorged ∷ broadcast_unknown ∷ confirming ∷ action_required ∷ failed ∷ []
allowed step_confirmed = reconciling ∷ awaiting_signature ∷ reorged ∷ action_required ∷ []
allowed reconciling =
    completed ∷ step_confirmed ∷ reorged ∷ action_required ∷ reconciling ∷ failed ∷ []
allowed action_required =
    confirming ∷ awaiting_signature ∷ reconciling ∷ manual_review ∷ failed ∷ []
allowed reorged = reconciling ∷ confirming ∷ manual_review ∷ failed ∷ []
allowed manual_review = reconciling ∷ failed ∷ []
allowed completed = reorged ∷ []
allowed expired = []
allowed user_rejected = []
allowed failed = []

-- `evidence?.startsWith(prefix)`, where an absent text gives `undefined`, which is no.
abbrev evidence_starts : Option Text → Text → Bool
evidence_starts none p = false
evidence_starts (some e) p = starts_with e p

unfoldable pub waiting_action : Option Text → NextAction
waiting_action e = if evidence_starts e (codes "outage:") then retry_read else wait

unfoldable pub required_action : Option Text → NextAction
required_action e =
    if evidence_starts e (codes "partial:")
    then follow_up
    else if evidence_starts e (codes "outage:")
    then retry_read
    else if evidence_starts e (codes "mismatch:")
    then contact_support
    else reclaim

unfoldable pub next_action_for : WorkflowState → Option Text → NextAction
next_action_for draft e = requote
next_action_for quoted e = sign
next_action_for awaiting_signature e = sign
next_action_for broadcast_unknown e = retry_read
next_action_for submitted e = waiting_action e
next_action_for confirming e = waiting_action e
next_action_for step_confirmed e = waiting_action e
next_action_for reconciling e = waiting_action e
next_action_for action_required e = required_action e
next_action_for reorged e = contact_support
next_action_for manual_review e = contact_support
next_action_for completed e = complete
next_action_for expired e = requote
next_action_for user_rejected e = start_new
next_action_for failed e = start_new

-- The state as the code spells it, in messages.
unfoldable pub state_text : WorkflowState → Text
state_text draft = codes "DRAFT"
state_text quoted = codes "QUOTED"
state_text awaiting_signature = codes "AWAITING_SIGNATURE"
state_text broadcast_unknown = codes "BROADCAST_UNKNOWN"
state_text submitted = codes "SUBMITTED"
state_text confirming = codes "CONFIRMING"
state_text step_confirmed = codes "STEP_CONFIRMED"
state_text reconciling = codes "RECONCILING"
state_text action_required = codes "ACTION_REQUIRED"
state_text reorged = codes "REORGED"
state_text manual_review = codes "MANUAL_REVIEW"
state_text completed = codes "COMPLETED"
state_text expired = codes "EXPIRED"
state_text user_rejected = codes "USER_REJECTED"
state_text failed = codes "FAILED"

unfoldable pub can_submit_write : WorkflowState → Bool
can_submit_write s = state_eq s awaiting_signature

-- `RESUMABLE.has(state)`
unfoldable pub is_resumable_state : WorkflowState → Bool
is_resumable_state = is_in (
    quoted ∷ awaiting_signature ∷ broadcast_unknown ∷ submitted ∷ confirming ∷ step_confirmed
    ∷ reconciling ∷ action_required ∷ reorged ∷ manual_review ∷ [])

-- `TERMINAL.has(state)`
unfoldable pub is_terminal_state : WorkflowState → Bool
is_terminal_state = is_in (completed ∷ expired ∷ user_rejected ∷ failed ∷ [])

pub record ResumeHint : Type 0 where
  pub state : WorkflowState
  pub next_action : NextAction
  pub resumable : Bool
  pub can_sign : Bool
  pub can_retry_read : Bool
  pub awaiting_confirmation : Bool
  pub awaiting_reconciliation : Bool
  pub terminal : Bool

abbrev is_retry_read : NextAction → Bool
is_retry_read retry_read = true
is_retry_read _ = false

unfoldable pub resume_hint : Workflow → ResumeHint
unfolding is_resumable_state can_submit_write is_terminal_state
resume_hint w = record {
  state = w.state;
  next_action = w.next_action;
  resumable = is_resumable_state w.state;
  can_sign = can_submit_write w.state;
  can_retry_read = is_retry_read w.next_action;
  awaiting_confirmation = is_in (submitted ∷ confirming ∷ []) w.state;
  awaiting_reconciliation = is_in (reconciling ∷ step_confirmed ∷ []) w.state;
  terminal = is_terminal_state w.state;
}

-- `codes[state]` of `errorFromState`
abbrev state_code : WorkflowState → Option ErrorCode
state_code broadcast_unknown = some ErrorCode.broadcast_unknown
state_code user_rejected = some ErrorCode.user_rejected
state_code reorged = some ErrorCode.reorg_detected
state_code expired = some ErrorCode.quote_expired
state_code _ = none

unfoldable pub error_from_state : WorkflowState → Option CapitalError
unfolding state_text capital_error
error_from_state s = elim (state_code s) [
  | none ↦ none
  | some c ↦ some (capital_error c (state_text s))
]
