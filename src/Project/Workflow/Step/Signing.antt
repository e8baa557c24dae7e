-- ===== src/Project/Workflow/Step/Signing.antt =====
-- internal/project/workflow.go, stepWorkflow.setReady: a signature in each phase of Step.
use duo.Prelude.{Bool, ◌&&◌, not, ltb, if◌then◌else◌, is_empty, length}
use duo.Text.{Text, trim_space, is_blank}
use duo.Project.Agent.{AgentId, agent_eq, put}
use duo.Project.Mode.{Mode, mode_eq, Phase}
use duo.Project.Verification.{Time}
use duo.Project.Steps.{first_open_step}
use duo.Project.State.{
  State, Error, Result, ok, err, Transition, no_transition, move_to, delivery, reset_approvals,
  record_signature, touch, both_ready, current_policy, set_step_head, clear_step_verdict,
}

-- Both signatures move the session to the phase `to`; `signed` has recorded one of them.
advance_to : Time → State → Phase → State × Transition
unfolding reset_approvals
advance_to now signed to =
    if both_ready signed
    then (record (reset_approvals signed) { phase = to; last_mutation = now }, move_to to)
    else (signed, no_transition)

leave_plan : Time → State → State × Transition
unfolding reset_approvals first_open_step
leave_plan now signed =
    if both_ready signed
    then (
      record (reset_approvals signed) {
        phase = Phase.execute;
        step = first_open_step signed.steps;
        last_mutation = now;
      },
      move_to Phase.execute,
    )
    else (signed, no_transition)

-- Austin submits a committed head of a FAST step.
submit : Time → State → Text → Text → Result (State × Transition)
unfolding trim_space set_step_head
submit now s note evidence =
    let head = trim_space evidence in
    if is_empty head
    then err Error.wrong_phase
    else ok (
      touch now (record (set_step_head s head) {
        phase = Phase.review;
        notes = put s.notes AgentId.austin (trim_space note);
      }),
      move_to Phase.review,
    )

-- The signature in INTEGRATE, whose transition asks for delivery once both have signed.
sign_final : Time → State → AgentId → Bool → Text → Text → State × Transition
unfolding record_signature
sign_final now s agent ready note evidence =
    let signed = record (record_signature s agent ready note evidence) { last_mutation = now } in
    (signed, delivery (both_ready signed))

sign_plan : Time → State → AgentId → Bool → Text → Text → Result (State × Transition)
unfolding leave_plan record_signature is_blank
sign_plan now s agent ready note evidence =
    if ready && is_blank s.plan
    then err Error.missing_plan
    else if ready && is_empty s.steps
    then err Error.missing_plan
    else ok (leave_plan now (touch now (record_signature s agent ready note evidence)))

sign_execute : Time → State → AgentId → Bool → Text → Text → Result (State × Transition)
unfolding advance_to submit record_signature current_policy
sign_execute now s agent ready note evidence =
    if mode_eq (current_policy s) Mode.goal
    then ok (advance_to now (touch now (record_signature s agent ready note evidence)) Phase.review)
    else if not (agent_eq agent AgentId.austin)
    then err Error.mode_mismatch
    else if not ready
    then ok (s, no_transition)
    else submit now s note evidence

sign_review : Time → State → AgentId → Bool → Text → Text → Result (State × Transition)
unfolding advance_to record_signature current_policy clear_step_verdict
sign_review now s agent ready note evidence =
    if mode_eq (current_policy s) Mode.goal
    then ok
        (advance_to now (touch now (record_signature s agent ready note evidence)) Phase.integrate)
    else if not (agent_eq agent AgentId.austin)
    then ok (s, no_transition)
    else if ready
    then ok (s, no_transition)
    else ok (
      record (clear_step_verdict s) { phase = Phase.execute; last_mutation = now },
      move_to Phase.execute,
    )

sign_integrate : Time → State → AgentId → Bool → Text → Text → Result (State × Transition)
unfolding sign_final current_policy
sign_integrate now s agent ready note evidence =
    if mode_eq (current_policy s) Mode.goal
    then ok (sign_final now s agent ready note evidence)
    else if ltb s.step (length s.steps)
    then err Error.wrong_phase
    else ok (sign_final now s agent ready note evidence)

-- The switch of `setReady` on the phase.
unfoldable pub set_ready_at :
    Phase → Time → State → AgentId → Bool → Text → Text → Result (State × Transition)
unfolding sign_plan sign_execute sign_review sign_integrate
set_ready_at Phase.plan now s agent ready note evidence = sign_plan now s agent ready note evidence
set_ready_at Phase.execute now s agent ready note evidence =
    sign_execute now s agent ready note evidence
set_ready_at Phase.review now s agent ready note evidence =
    sign_review now s agent ready note evidence
set_ready_at Phase.integrate now s agent ready note evidence =
    sign_integrate now s agent ready note evidence
set_ready_at Phase.done now s agent ready note evidence = err Error.project_done
set_ready_at _ now s agent ready note evidence = err Error.wrong_phase

unfoldable pub set_ready : Time → State → AgentId → Bool → Text → Text → Result (State × Transition)
unfolding set_ready_at
set_ready now s agent ready note evidence = set_ready_at s.phase now s agent ready note evidence
