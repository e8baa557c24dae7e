-- ===== src/Project/Workflow/Step.antt =====
-- internal/project/workflow.go, stepWorkflow: Goal's phases with a gate for each step.
mod Signing
use duo.Prelude.{
  ◌+◌, Bool, true, false, ◌&&◌, ◌||◌, not, none, some, [], ◌∷◌, ◌++◌, ltb, if◌then◌else◌, is_empty,
  length,
}
use duo.Text.{Text, codes, text_eq, trim_space, is_blank}
use duo.Project.Agent.{AgentId, agent_eq, put}
use duo.Project.Mode.{Mode, mode_eq, Phase, phase_eq}
use duo.Project.Verification.{Time, VerificationResult, no_verification, targets}
use duo.Project.Steps.{Step, Steps, first_open_step, queue_finished, has_ticked, update_step}
use duo.Project.State.{
  State, Error, Result, ok, err, Transition, no_transition, move_to, delivery, reset_approvals,
  record_signature, touch, both_ready, current_step, current_policy, set_step_head,
  clear_step_verdict,
}
unfoldable pub use Signing.{set_ready_at, set_ready}

unfoldable pub set_plan : Time → State → Text → Result State
unfolding reset_approvals
set_plan now s plan =
    if not (phase_eq s.phase Phase.plan)
    then err Error.wrong_phase
    else ok
        (touch now (record (reset_approvals s) { plan = plan; plan_version = s.plan_version + 1 }))

unfoldable pub set_steps : Time → State → Steps → Bool → Result State
unfolding has_ticked first_open_step reset_approvals
set_steps now s steps append_only =
    if phase_eq s.phase Phase.done
    then err Error.project_done
    else if is_empty steps
    then err Error.missing_plan
    else if has_ticked steps
    then err Error.ticked_step
    else if phase_eq s.phase Phase.plan
    then ok (touch now (record (reset_approvals s) { steps = steps; step = first_open_step steps }))
    else if append_only
    then ok (record s { steps = s.steps ++ steps; last_mutation = now })
    else err Error.wrong_phase

-- A verdict on the current step, which keeps the head that was submitted for it.
abbrev pub judged : Time → VerificationResult → Text → Step → Step
judged now result note st = record st {
  verification = record { status = result; head = st.head; note = note; at = some now };
}

-- The switch of `setVerification` on the result, at the current step; `note` is trimmed.
judge : VerificationResult → Time → State → Step → Text → Text → Result (State × Transition)
unfolding targets text_eq update_step
judge VerificationResult.passed now s current note head =
    if not (is_empty head)
      && (not (targets current.verification head) && not (text_eq current.head head))
    then err Error.wrong_phase
    else ok (
      record s {
        steps = update_step s.steps s.step (judged now VerificationResult.passed note);
        phase = Phase.integrate;
        last_mutation = now;
      },
      move_to Phase.integrate,
    )
judge VerificationResult.issue_found now s current note head =
    if is_empty note
    then err Error.missing_issue
    else ok (
      record s {
        steps = update_step s.steps s.step (judged now VerificationResult.issue_found note);
        phase = Phase.execute;
        last_mutation = now;
      },
      move_to Phase.execute,
    )
judge _ now s current note head = err Error.unknown_result

unfoldable pub set_verification :
    Time → State → AgentId → VerificationResult → Text → Text → Result (State × Transition)
unfolding judge trim_space current_step current_policy
set_verification now s agent result note head =
    if phase_eq s.phase Phase.done
    then err Error.project_done
    else if not (mode_eq (current_policy s) Mode.fast)
    then err Error.mode_mismatch
    else if not (agent_eq agent AgentId.tony)
    then err Error.mode_mismatch
    else if not (phase_eq s.phase Phase.review)
    then err Error.wrong_phase
    else elim (current_step s) [
      | none ↦ err Error.wrong_phase
      | some current ↦ judge result now s current (trim_space note) head
    ]

unfoldable pub complete : Time → State → Result State
unfolding queue_finished
complete now s =
    if not (phase_eq s.phase Phase.integrate)
    then err Error.wrong_phase
    else if not (queue_finished s.steps)
    then err Error.wrong_phase
    else if not (s.ready AgentId.austin) || not (s.ready AgentId.tony)
    then err Error.wrong_phase
    else ok (record s { phase = Phase.done; last_mutation = now })

-- Whether a step has landed at this head: the loop of `landStep`.
unfoldable pub has_landed : Steps → Text → Bool
unfolding text_eq
has_landed [] head = false
has_landed (st ∷ rest) head =
    (not (is_empty st.delivery_head) && text_eq st.delivery_head head) || has_landed rest head

-- What `landStep` writes to the current step; `at` is the formatted time.
abbrev pub landed : Text → Text → Step → Step
landed head at st = record st { done = true; delivery_head = head; delivered_at = at }

-- The end of `landStep`: the cursor moves, and work that is left goes on in EXECUTE.
land : Time → Text → State → Text → State × Transition
unfolding first_open_step reset_approvals update_step
land now at s head =
    let steps = update_step s.steps s.step (landed head at) in
    let step = first_open_step steps in
    let moved = record s { steps = steps; step = step; last_mutation = now } in
    if ltb (length steps) step
    then (moved, no_transition)
    else (record (reset_approvals moved) { phase = Phase.execute }, move_to Phase.execute)

unfoldable pub land_step : Time → Text → State → Text → Result (State × Transition)
unfolding land current_step has_landed text_eq
land_step now at s head =
    if not (phase_eq s.phase Phase.integrate)
    then err Error.wrong_phase
    else elim (current_step s) [
      | none ↦ err Error.wrong_phase
      | some current ↦
          if has_landed s.steps head
          then err Error.wrong_phase
          else if not (is_empty current.delivery_head) && not (text_eq current.delivery_head head)
          then err Error.wrong_phase
          else ok (land now at s head)
    ]

unfoldable pub reopen : Time → State → Result State
unfolding reset_approvals
reopen now s =
    if not (phase_eq s.phase Phase.done)
    then err Error.wrong_phase
    else ok (
        touch now (record (reset_approvals s) {
          phase = Phase.plan;
          plan = codes "";
          steps = [];
          step = 0;
        }))

-- What `revokeStep` writes to the current step.
abbrev pub withdrawn : Step → Step
withdrawn st = record st { head = codes ""; verification = no_verification }

withdraw : Time → State → Text → State
unfolding current_policy reset_approvals trim_space update_step
withdraw now s reason =
    let cleared = record s { steps = update_step s.steps s.step withdrawn } in
    let unsigned =
      if mode_eq (current_policy s) Mode.goal then reset_approvals cleared else cleared in
    record unsigned {
      notes = put unsigned.notes AgentId.austin (trim_space reason);
      phase = Phase.execute;
      last_mutation = now;
    }

unfoldable pub revoke_step : Time → State → Text → Result (State × Transition)
unfolding withdraw current_step
revoke_step now s reason = elim (current_step s) [
  | none ↦ err Error.wrong_phase
  | some current ↦
      if not (phase_eq s.phase Phase.review) && not (phase_eq s.phase Phase.integrate)
      then err Error.wrong_phase
      else ok (withdraw now s reason, record (move_to Phase.execute) { previous = s.phase })
]
