-- ===== src/Project/Workflow/Goal.antt =====
-- internal/project/workflow.go, goalWorkflow: PLAN → EXECUTE → REVIEW → INTEGRATE → DONE.
use duo.Prelude.{Bool, ◌&&◌, ◌||◌, not, ◌+◌, if◌then◌else◌}
use duo.Text.{Text, codes, is_blank}
use duo.Project.Agent.{AgentId}
use duo.Project.Mode.{Phase, phase_eq, next}
use duo.Project.Verification.{Time}
use duo.Project.State.{
  State, Error, Result, ok, err, Transition, no_transition, move_to, delivery, reset_approvals,
  record_signature, touch, both_ready,
}

unfoldable pub set_plan : Time → State → Text → Result State
unfolding reset_approvals
set_plan now s plan =
    if phase_eq s.phase Phase.plan
    then ok
        (touch now (record (reset_approvals s) { plan = plan; plan_version = s.plan_version + 1 }))
    else err Error.wrong_phase

-- What a second signature causes: an edge in INTEGRATE, the next phase elsewhere.
unfoldable pub advance : Time → State → Bool → Bool → State × Transition
unfolding reset_approvals next
advance now s was_ready ready =
    let (p, more) = next s.mode s.phase in
    if phase_eq s.phase Phase.integrate
    then (s, delivery (not was_ready && ready))
    else if more
    then (record (reset_approvals s) { phase = p; last_mutation = now }, move_to p)
    else (s, no_transition)

unfoldable pub set_ready : Time → State → AgentId → Bool → Text → Text → Result (State × Transition)
unfolding advance record_signature is_blank
set_ready now s agent ready note evidence =
    let signed = touch now (record_signature s agent ready note evidence) in
    if phase_eq s.phase Phase.done
    then err Error.project_done
    else if phase_eq s.phase Phase.plan && (ready && is_blank s.plan)
    then err Error.missing_plan
    else ok (
        if both_ready signed
        then advance now signed (s.ready agent) ready
        else (signed, no_transition))

unfoldable pub complete : Time → State → Result State
unfolding is_blank
complete now s =
    if not (phase_eq s.phase Phase.integrate)
    then err Error.wrong_phase
    else if not (s.ready AgentId.austin) || not (s.ready AgentId.tony)
    then err Error.wrong_phase
    else if is_blank (s.evidence AgentId.austin) || is_blank (s.evidence AgentId.tony)
    then err Error.wrong_phase
    else ok (record s { phase = Phase.done; last_mutation = now })

unfoldable pub reopen : Time → State → Result State
unfolding reset_approvals
reopen now s =
    if not (phase_eq s.phase Phase.done)
    then err Error.wrong_phase
    else ok (touch now (record (reset_approvals s) { phase = Phase.plan; plan = codes "" }))
