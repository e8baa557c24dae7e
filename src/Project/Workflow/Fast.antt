-- ===== src/Project/Workflow/Fast.antt =====
-- internal/project/workflow.go, fastWorkflow: RUNNING → VERIFY → DONE.
use duo.Prelude.{Bool, true, ◌&&◌, not, some, none, if◌then◌else◌, is_empty}
use duo.Text.{Text, trim_space}
use duo.Project.Agent.{AgentId, agent_eq, put}
use duo.Project.Mode.{Phase, phase_eq}
use duo.Project.Verification.{
  Time, VerificationResult, Verification, no_verification, targets, is_passed,
}
use duo.Project.State.{
  State, Error, Result, ok, err, Transition, no_transition, delivery, reset_approvals, touch,
}

-- Austin asks for verification of a committed head.
request : Time → State → Text → Text → Result (State × Transition)
unfolding trim_space
request now s note evidence =
    let head = trim_space evidence in
    if is_empty head
    then err Error.wrong_phase
    else ok (
      touch now (record s {
        phase = Phase.verify;
        verification = record {
          status = VerificationResult.no_verdict;
          head = head;
          note = trim_space note;
          at = none;
        };
        notes = put s.notes AgentId.austin (trim_space note);
      }),
      no_transition,
    )

-- The switch of `setReady` on the phase.
set_ready_at : Phase → Time → State → Bool → Text → Text → Result (State × Transition)
unfolding request
set_ready_at Phase.running now s ready note evidence =
    if not ready then ok (s, no_transition) else request now s note evidence
set_ready_at Phase.verify now s ready note evidence = ok (
  if ready
      then s
      else record s { phase = Phase.running; verification = no_verification; last_mutation = now },
  no_transition,
)
set_ready_at _ now s ready note evidence = err Error.wrong_phase

unfoldable pub set_ready : Time → State → AgentId → Bool → Text → Text → Result (State × Transition)
unfolding set_ready_at
set_ready now s agent ready note evidence =
    if phase_eq s.phase Phase.done
    then err Error.project_done
    else if not (agent_eq agent AgentId.austin)
    then err Error.mode_mismatch
    else set_ready_at s.phase now s ready note evidence

-- The record of a verdict: it keeps the head that was submitted.
abbrev pub verdict : Time → VerificationResult → Verification → Text → Verification
verdict now result v note = record { status = result; head = v.head; note = note; at = some now }

-- The switch of `setVerification` on the result; `note` is trimmed.
judge : VerificationResult → Time → State → Text → Text → Result (State × Transition)
unfolding targets
judge VerificationResult.passed now s note head =
    if not (is_empty head) && not (targets s.verification head)
    then err Error.wrong_phase
    else ok (
      record s {
        verification = verdict now VerificationResult.passed s.verification note;
        last_mutation = now;
      },
      delivery true,
    )
judge VerificationResult.issue_found now s note head =
    if is_empty note
    then err Error.missing_issue
    else ok (
      record s {
        verification = verdict now VerificationResult.issue_found s.verification note;
        phase = Phase.running;
        last_mutation = now;
      },
      no_transition,
    )
judge _ now s note head = err Error.unknown_result

unfoldable pub set_verification :
    Time → State → AgentId → VerificationResult → Text → Text → Result (State × Transition)
unfolding judge trim_space
set_verification now s agent result note head =
    if phase_eq s.phase Phase.done
    then err Error.project_done
    else if not (agent_eq agent AgentId.tony)
    then err Error.mode_mismatch
    else if not (phase_eq s.phase Phase.verify)
    then err Error.wrong_phase
    else judge result now s (trim_space note) head

unfoldable pub complete : Time → State → Result State
complete now s =
    if not (phase_eq s.phase Phase.verify)
    then err Error.wrong_phase
    else if not (is_passed s.verification.status)
    then err Error.wrong_phase
    else ok (record s { phase = Phase.done; last_mutation = now })

unfoldable pub reopen : Time → State → Result State
unfolding reset_approvals
reopen now s =
    if not (phase_eq s.phase Phase.done)
    then err Error.wrong_phase
    else ok (
        touch now
          (record (reset_approvals s) { phase = Phase.running; verification = no_verification }))
