-- ===== src/Project/Valid/Policies.antt =====
-- The methods of the policies keep the invariant.
use duo.Prelude.{◌≡◌, Bool, arith}
use duo.Text.{Text}
use duo.Project.Agent.{AgentId}
use duo.Project.Mode.{Mode, valid_phase, next}
use duo.Project.Verification.{Time, VerificationResult}
use duo.Project.Steps.{Steps}
use duo.Project.Steps.Laws.{first_open-append}
use duo.Project.State.{State}
use duo.Project.Valid.Defs.{IsValid, after, after_state}
use duo.Project.Workflow.Goal
use duo.Project.Workflow.Fast
use duo.Project.Workflow.Step

module _ (now : Time) (s : State) (v : IsValid s) where
  module _ (m : s.mode ≡ Mode.goal) where
    pub goal-set_plan-IsValid : (plan : Text) → IsValid (after_state s (Goal.set_plan now s plan))
    unfolding Goal.set_plan
    goal-set_plan-IsValid plan = ground arith

    pub goal-set_ready-IsValid :
        (agent : AgentId) (ready : Bool) (note evidence : Text)
        → IsValid (after s (Goal.set_ready now s agent ready note evidence))
    unfolding Goal.set_ready valid_phase next
    goal-set_ready-IsValid agent ready note evidence = ground arith

    pub goal-complete-IsValid : IsValid (after_state s (Goal.complete now s))
    unfolding Goal.complete valid_phase
    goal-complete-IsValid = ground arith

    pub goal-reopen-IsValid : IsValid (after_state s (Goal.reopen now s))
    unfolding Goal.reopen valid_phase
    goal-reopen-IsValid = ground arith

  module _ (m : s.mode ≡ Mode.fast) where
    pub fast-set_ready-IsValid :
        (agent : AgentId) (ready : Bool) (note evidence : Text)
        → IsValid (after s (Fast.set_ready now s agent ready note evidence))
    unfolding Fast.set_ready valid_phase
    fast-set_ready-IsValid agent ready note evidence = ground arith

    pub fast-set_verification-IsValid :
        (agent : AgentId) (result : VerificationResult) (note head : Text)
        → IsValid (after s (Fast.set_verification now s agent result note head))
    unfolding Fast.set_verification valid_phase
    fast-set_verification-IsValid agent result note head = ground arith

    pub fast-complete-IsValid : IsValid (after_state s (Fast.complete now s))
    unfolding Fast.complete valid_phase
    fast-complete-IsValid = ground arith

    pub fast-reopen-IsValid : IsValid (after_state s (Fast.reopen now s))
    unfolding Fast.reopen valid_phase
    fast-reopen-IsValid = ground arith

  module _ (m : s.mode ≡ Mode.step) where
    pub step-set_plan-IsValid : (plan : Text) → IsValid (after_state s (Step.set_plan now s plan))
    unfolding Step.set_plan
    step-set_plan-IsValid plan = ground arith

    pub step-set_steps-IsValid :
        (steps : Steps) (append_only : Bool)
        → IsValid (after_state s (Step.set_steps now s steps append_only))
    unfolding Step.set_steps
    step-set_steps-IsValid steps append_only = ground (arith, first_open-append s.steps steps)

    pub step-complete-IsValid : IsValid (after_state s (Step.complete now s))
    unfolding Step.complete valid_phase
    step-complete-IsValid = ground arith

    pub step-reopen-IsValid : IsValid (after_state s (Step.reopen now s))
    unfolding Step.reopen valid_phase
    step-reopen-IsValid = ground arith
