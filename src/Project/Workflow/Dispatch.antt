-- ===== src/Project/Workflow/Dispatch.antt =====
-- internal/project/workflow.go: the dispatch of `State.workflow`, and the methods that a mode refuses.
use duo.Prelude.{Bool}
use duo.Text.{Text}
use duo.Project.Agent.{AgentId}
use duo.Project.Mode.{Mode}
use duo.Project.Verification.{Time, VerificationResult}
use duo.Project.Steps.{Steps}
use duo.Project.State.{State, Error, Result, err, Transition}
use duo.Project.Workflow.Goal
use duo.Project.Workflow.Fast
use duo.Project.Workflow.Step

pub data Workflow : Type 0 where
  fast goal step loop : Workflow

-- `State.workflow`: a mode that is not known runs the Goal policy.
unfoldable pub workflow : Mode → Workflow
workflow Mode.fast = Workflow.fast
workflow Mode.step = Workflow.step
workflow Mode.loop = Workflow.loop
workflow _ = Workflow.goal

unfoldable pub run_set_plan : Workflow → Time → State → Text → Result State
run_set_plan Workflow.fast now s plan = err Error.mode_mismatch
run_set_plan Workflow.loop now s plan = err Error.mode_mismatch
run_set_plan Workflow.goal now s plan = Goal.set_plan now s plan
run_set_plan Workflow.step now s plan = Step.set_plan now s plan

unfoldable pub run_set_ready :
    Workflow → Time → State → AgentId → Bool → Text → Text → Result (State × Transition)
run_set_ready Workflow.fast now s agent ready note evidence =
    Fast.set_ready now s agent ready note evidence
run_set_ready Workflow.loop now s agent ready note evidence = err Error.mode_mismatch
run_set_ready Workflow.goal now s agent ready note evidence =
    Goal.set_ready now s agent ready note evidence
run_set_ready Workflow.step now s agent ready note evidence =
    Step.set_ready now s agent ready note evidence

unfoldable pub run_set_verification :
    Workflow
    → Time
    → State
    → AgentId
    → VerificationResult
    → Text
    → Text
    → Result (State × Transition)
run_set_verification Workflow.fast now s agent result note head =
    Fast.set_verification now s agent result note head
run_set_verification Workflow.loop now s agent result note head = err Error.mode_mismatch
run_set_verification Workflow.goal now s agent result note head = err Error.mode_mismatch
run_set_verification Workflow.step now s agent result note head =
    Step.set_verification now s agent result note head

unfoldable pub run_complete : Workflow → Time → State → Result State
run_complete Workflow.fast now s = Fast.complete now s
run_complete Workflow.loop now s = err Error.mode_mismatch
run_complete Workflow.goal now s = Goal.complete now s
run_complete Workflow.step now s = Step.complete now s

unfoldable pub run_set_steps : Workflow → Time → State → Steps → Bool → Result State
run_set_steps Workflow.step now s steps append_only = Step.set_steps now s steps append_only
run_set_steps _ now s steps append_only = err Error.mode_mismatch

unfoldable pub run_land_step : Workflow → Time → Text → State → Text → Result (State × Transition)
run_land_step Workflow.step now at s head = Step.land_step now at s head
run_land_step _ now at s head = err Error.mode_mismatch

unfoldable pub run_revoke_step : Workflow → Time → State → Text → Result (State × Transition)
run_revoke_step Workflow.step now s reason = Step.revoke_step now s reason
run_revoke_step _ now s reason = err Error.mode_mismatch

unfoldable pub run_reopen : Workflow → Time → State → Result State
run_reopen Workflow.fast now s = Fast.reopen now s
run_reopen Workflow.loop now s = err Error.mode_mismatch
run_reopen Workflow.goal now s = Goal.reopen now s
run_reopen Workflow.step now s = Step.reopen now s
