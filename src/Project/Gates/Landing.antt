-- ===== src/Project/Gates/Landing.antt =====
-- What has been reviewed before a FAST step lands: internal/project, stepWorkflow.
use duo.Prelude.{
  Option-cases, ℕ, ◌-◌, ◌<◌, ◌≡◌, ◌≢◌, ◌⊎◌, inl, inr, Bool, Option, none, some, ◌++◌, arith, length,
  length-append, length-modify, get_elem?-modify_self, get_elem?-append,
}
use duo.Text.{Text, trim_space}
use duo.Project.Agent.{AgentId}
use duo.Project.Mode.{Mode, Phase}
use duo.Project.Verification.{Time, VerificationResult}
use duo.Project.Steps.{Step, Steps, effective_policy, step_at, update_step, first_open_step}
use duo.Project.State.{State, current_step, current_policy}
use duo.Project.Valid.Defs.{after, after_state}
use duo.Project.Workflow.Step

-- Tony passed the step at the head that was submitted for it, or the step needs no verdict of his.
abbrev pub IsReviewed : Step → Type 0
IsReviewed st =
    (effective_policy st ≡ Mode.goal)
    ⊎ ((st.verification.status ≡ VerificationResult.passed) × (st.verification.head ≡ st.head))

abbrev ReviewedCurrent : Option Step → Type 0
ReviewedCurrent none = Unit
ReviewedCurrent (some st) = IsReviewed st

-- In INTEGRATE of a Step session the step under the cursor is reviewed.
abbrev pub GateHolds : State → Type 0
GateHolds s = s.mode ≡ Mode.step → s.phase ≡ Phase.integrate → ReviewedCurrent (current_step s)

pub step_at-update_self :
    (q : Steps) (n : ℕ) (f : Step → Step) (st : Step)
    → step_at q n ≡ some st
    → step_at (update_step q n f) n ≡ some (f st)
unfolding step_at update_step
step_at-update_self q n f st e =
    ground (arith, length-modify q (n - 1) f, get_elem?-modify_self q (n - 1) f st)

step_at-append :
    (q new : Steps) (n : ℕ) (st : Step) → step_at q n ≡ some st → step_at (q ++ new) n ≡ some st
unfolding step_at
step_at-append q new n st e = ground (arith, length-append q new, get_elem?-append q new (n - 1) st)

step_at_beyond : (q : Steps) (n : ℕ) → length q < n → step_at q n ≡ none
unfolding step_at
step_at_beyond q n h = ground arith

module _ (now : Time) (s : State) (m : s.mode ≡ Mode.step) where
  pub sign_gate :
      (p : Phase) (agent : AgentId) (ready : Bool) (note evidence : Text)
      → s.phase ≡ p
      → GateHolds s
      → GateHolds (after s (Step.set_ready_at p now s agent ready note evidence))
  unfolding Step.set_ready_at current_step current_policy
  sign_gate Phase.plan agent ready note evidence e g = ground arith
  sign_gate Phase.execute agent ready note evidence e g = ground arith
  sign_gate Phase.review agent ready note evidence e g = ground arith
  sign_gate Phase.integrate agent ready note evidence e g = ground arith
  sign_gate _ agent ready note evidence e g = g

  pub verdict_gate :
      (agent : AgentId) (result : VerificationResult) (note head : Text)
      → GateHolds s
      → GateHolds (after s (Step.set_verification now s agent result note head))
  unfolding Step.set_verification current_step
  verdict_gate agent result note head g = elim (Option-cases (step_at s.steps s.step)) [
    | inl e ↦ ground arith
    | inr (st, e) ↦ ground (
      arith,
      step_at-update_self s.steps s.step
          (Step.judged now VerificationResult.passed (trim_space note)) st e,
    )
  ]

  pub land_gate :
      (at head : Text) → GateHolds s → GateHolds (after s (Step.land_step now at s head))
  unfolding Step.land_step current_step
  land_gate at head g =
      let steps = update_step s.steps s.step (Step.landed head at) in
      ground (arith, step_at_beyond steps (first_open_step steps))

  pub queue_gate :
      (steps : Steps) (append : Bool)
      → (s.phase ≡ Phase.integrate → current_step s ≢ none)
      → GateHolds s
      → GateHolds (after_state s (Step.set_steps now s steps append))
  unfolding Step.set_steps current_step
  queue_gate steps append busy g = elim (Option-cases (step_at s.steps s.step)) [
    | inl e ↦ ground arith
    | inr (st, e) ↦ ground (arith, step_at-append s.steps steps s.step st e)
  ]

  pub plan_gate : (plan : Text) → GateHolds s → GateHolds (after_state s (Step.set_plan now s plan))
  unfolding Step.set_plan current_step
  plan_gate plan g = ground arith

  pub complete_gate : GateHolds s → GateHolds (after_state s (Step.complete now s))
  unfolding Step.complete current_step
  complete_gate g = ground arith

  pub reopen_gate : GateHolds s → GateHolds (after_state s (Step.reopen now s))
  unfolding Step.reopen current_step
  reopen_gate g = ground arith

  pub revoke_gate :
      (reason : Text) → GateHolds s → GateHolds (after s (Step.revoke_step now s reason))
  unfolding Step.revoke_step current_step
  revoke_gate reason g = ground arith
