-- ===== src/Project/State.antt =====
-- internal/project/state.go: the state, its snapshot, and the helpers that every policy shares.
use duo.Prelude.{ℕ, Bool, true, false, Option, none, some, [], if◌then◌else◌}
use duo.Text.{Text, codes, trim_space}
use duo.Project.Agent.{AgentId, put}
use duo.Project.Mode.{Mode, Phase, no_phase, normalize, initial_phase}
use duo.Project.Verification.{Time, Verification, no_verification}
use duo.Project.Steps.{Step, Steps, step_at, update_step, effective_policy}
use duo.Project.LoopState.{LoopState, fresh_loop}

pub record State : Type 0 where
  pub mode : Mode
  pub loop : LoopState
  pub phase : Phase
  pub plan : Text
  pub plan_version : ℕ
  pub step : ℕ
  pub steps : Steps
  pub ready : AgentId → Bool
  pub notes : AgentId → Text
  pub evidence : AgentId → Text
  pub verification : Verification
  pub started : Bool
  pub last_mutation : Time
  pub on_change : Bool  -- whether a persistence callback is installed

-- The sentinel errors, and one constructor for each error that wraps none of them.
pub data Error : Type 0 where
  wrong_phase missing_plan missing_issue mode_mismatch project_done already_goal : Error
  unknown_agent empty_plan ticked_step unknown_result unknown_mode : Error
  invalid_phase invalid_version unknown_event past_deadline consultation_pending : Error
  completion_registered not_the_owner not_an_answer already_answered human_pending : Error

pub data Result {ℓ} (A : Type ℓ) : Type ℓ where
  ok : A → Result A
  err : Error → Result A

pub record Transition : Type 0 where
  pub advanced : Bool
  pub previous : Phase
  pub next : Phase
  pub ready_for_delivery : Bool

-- `Transition{}`, `Transition{Next: p}` and `Transition{ReadyForDelivery: b}`.
abbrev pub no_transition : Transition
no_transition = record {
  advanced = false;
  previous = no_phase;
  next = no_phase;
  ready_for_delivery = false;
}

abbrev pub move_to : Phase → Transition
move_to p = record no_transition { next = p }

abbrev pub delivery : Bool → Transition
delivery b = record no_transition { ready_for_delivery = b }

-- `NewStateFor`.
unfoldable pub new_state_for : Time → Mode → State
unfolding normalize initial_phase
new_state_for now mode = record {
  mode = normalize mode;
  loop = fresh_loop 0;
  phase = initial_phase (normalize mode);
  plan = codes "";
  plan_version = 0;
  step = 0;
  steps = [];
  ready = λ a. false;
  notes = λ a. codes "";
  evidence = λ a. codes "";
  verification = no_verification;
  started = false;
  last_mutation = now;
  on_change = false;
}

-- `resetApprovalsLocked`.
unfoldable pub reset_approvals : State → State
reset_approvals s = record s {
  ready = put (put s.ready AgentId.austin false) AgentId.tony false;
  notes = put (put s.notes AgentId.austin (codes "")) AgentId.tony (codes "");
  evidence = put (put s.evidence AgentId.austin (codes "")) AgentId.tony (codes "");
}

-- The three map writes with which every policy records one agent's signature.
unfoldable pub record_signature : State → AgentId → Bool → Text → Text → State
unfolding trim_space
record_signature s agent ready note evidence = record s {
  ready = put s.ready agent ready;
  notes = put s.notes agent (trim_space note);
  evidence = put s.evidence agent (if ready then trim_space evidence else codes "");
}

-- `s.started = true; s.lastMutation = time.Now()`.
abbrev pub touch : Time → State → State
touch now s = record s { started = true; last_mutation = now }

abbrev pub both_ready : State → Bool
both_ready s = if s.ready AgentId.austin then s.ready AgentId.tony else false

unfoldable pub current_step : State → Option Step
unfolding step_at
current_step s = step_at s.steps s.step

policy_or_fast : Option Step → Mode
unfolding effective_policy
policy_or_fast none = Mode.fast
policy_or_fast (some st) = effective_policy st

-- `currentStepPolicyLocked`.
unfoldable pub current_policy : State → Mode
unfolding policy_or_fast current_step
current_policy s = policy_or_fast (current_step s)

-- A write through the pointer to the current step, when there is one.
unfoldable pub update_current : State → (Step → Step) → State
unfolding current_step update_step
update_current s f = elim (current_step s) [
  | none ↦ s
  | some st ↦ record s { steps = update_step s.steps s.step f }
]

-- `setStepHeadLocked`.
unfoldable pub set_step_head : State → Text → State
unfolding update_current
set_step_head s head =
    update_current s (λ st. record st { head = head; verification = no_verification })

-- `clearStepVerdictLocked`.
unfoldable pub clear_step_verdict : State → State
unfolding update_current
clear_step_verdict s = update_current s (λ st. record st { verification = no_verification })
