-- ===== src/Project/Valid/StepPolicy.antt =====
-- The methods of the Step policy that write to the queue keep the invariant.
use duo.Prelude.{◌-◌, ◌≡◌, refl, Bool, arith, is_empty}
use duo.Text.{Text, trim_space}
use duo.Project.Agent.{AgentId}
use duo.Project.Mode.{Mode, Phase, valid_phase}
use duo.Project.Verification.{Time, VerificationResult, no_verification}
use duo.Project.Steps.{Step, first_open_step, update_step}
use duo.Project.Steps.Laws.{first_open-update, is_empty-modify}
use duo.Project.State.{State}
use duo.Project.Valid.Defs.{IsValid, after}
use duo.Project.Workflow.Step

module _ (s : State) (f : Step → Step) (same : (st : Step) → (f st).done ≡ st.done) where
  -- A write to the current step that keeps its tick.
  keeps_cursor :
      (first_open_step (update_step s.steps s.step f) ≡ first_open_step s.steps)
      × (is_empty (update_step s.steps s.step f) ≡ is_empty s.steps)
  unfolding update_step
  keeps_cursor = (first_open-update s.steps s.step f same, is_empty-modify s.steps (s.step - 1) f)

-- The four writes of this kind.
abbrev submitted : Text → Step → Step
submitted head st = record st { head = head; verification = no_verification }

abbrev cleared : Step → Step
cleared st = record st { verification = no_verification }

module _ (now : Time) (s : State) (v : IsValid s) (m : s.mode ≡ Mode.step) where
  pub step-set_ready-IsValid :
      (p : Phase)
      → s.phase ≡ p
      → (agent : AgentId) (ready : Bool) (note evidence : Text)
      → IsValid (after s (Step.set_ready_at p now s agent ready note evidence))
  unfolding Step.set_ready_at valid_phase
  step-set_ready-IsValid Phase.plan e agent ready note evidence = ground arith
  step-set_ready-IsValid Phase.execute e agent ready note evidence =
      ground (arith, keeps_cursor s (submitted (trim_space evidence)) (λ st. refl))
  step-set_ready-IsValid Phase.review e agent ready note evidence =
      ground (arith, keeps_cursor s cleared (λ st. refl))
  step-set_ready-IsValid Phase.integrate e agent ready note evidence = ground arith
  step-set_ready-IsValid _ e agent ready note evidence = v

  pub step-set_verification-IsValid :
      (agent : AgentId) (result : VerificationResult) (note head : Text)
      → IsValid (after s (Step.set_verification now s agent result note head))
  unfolding Step.set_verification valid_phase
  step-set_verification-IsValid agent result note head = ground (
    arith,
    keeps_cursor s (Step.judged now VerificationResult.passed (trim_space note)) (λ st. refl),
    keeps_cursor s (Step.judged now VerificationResult.issue_found (trim_space note)) (λ st. refl),
  )

  pub step-land_step-IsValid : (at head : Text) → IsValid (after s (Step.land_step now at s head))
  unfolding Step.land_step valid_phase
  step-land_step-IsValid at head = ground arith

  pub step-revoke_step-IsValid : (reason : Text) → IsValid (after s (Step.revoke_step now s reason))
  unfolding Step.revoke_step valid_phase
  step-revoke_step-IsValid reason = ground (arith, keeps_cursor s Step.withdrawn (λ st. refl))
