-- ===== src/Project/Session.antt =====
-- internal/project/state.go: the operations that every mode has, behind the mutex. Each is one
-- atomic step; the argument `now` is the clock reading that it takes.
use duo.Prelude.{Bool, true, false, ◌&&◌, not, none, if◌then◌else◌}
use duo.Text.{Text, codes, trim_space, is_blank}
use duo.Project.Agent.{AgentId, put, is_peer}
use duo.Project.Mode.{Mode, mode_eq, Phase, phase_eq}
use duo.Project.Verification.{Time, VerificationResult, no_verification}
use duo.Project.Steps.Parse.{parse_steps}
use duo.Project.LoopState.{fresh_loop}
use duo.Project.State.{State, Error, ok, Transition, no_transition, new_state_for}
use duo.Project.Snapshot.{
  Snapshot, snapshot, empty_snapshot, Reply, commit, refuse, settle, settle_state,
}
use duo.Project.Workflow.Dispatch.{
  workflow, run_set_plan, run_set_ready, run_set_verification, run_complete, run_set_steps,
  run_land_step, run_revoke_step, run_reopen,
}

-- `NewState`.
unfoldable pub new_state : Time → State
unfolding new_state_for
new_state now = new_state_for now Mode.goal

unfoldable pub mark_started : State → Reply Snapshot
mark_started s = let s' = record s { started = true } in commit s' (snapshot s')

unfoldable pub set_plan : Time → AgentId → Text → State → Reply Snapshot
unfolding settle_state run_set_plan workflow
set_plan now agent plan s =
    if not (is_peer agent)
    then refuse s empty_snapshot Error.unknown_agent
    else if is_blank plan
    then refuse s empty_snapshot Error.empty_plan
    else settle_state s (run_set_plan (workflow s.mode) now s (trim_space plan))

unfoldable pub set_steps : Time → AgentId → Text → Bool → State → Reply Snapshot
unfolding settle_state run_set_steps workflow
set_steps now agent list append_only s =
    if not (is_peer agent)
    then refuse s empty_snapshot Error.unknown_agent
    else settle_state s (run_set_steps (workflow s.mode) now s (parse_steps list) append_only)

-- `at` is the clock reading in the format of RFC 3339.
unfoldable pub land_step : Time → Text → Text → State → Reply (Snapshot × Transition)
unfolding settle run_land_step workflow
land_step now at head s = settle s (run_land_step (workflow s.mode) now at s (trim_space head))

unfoldable pub revoke_step_submission : Time → Text → State → Reply (Snapshot × Transition)
unfolding settle run_revoke_step workflow
revoke_step_submission now reason s = settle s (run_revoke_step (workflow s.mode) now s reason)

unfoldable pub set_ready :
    Time → AgentId → Bool → Text → Text → State → Reply (Snapshot × Transition)
unfolding settle run_set_ready workflow
set_ready now agent ready note evidence s =
    if not (is_peer agent)
    then refuse s (empty_snapshot, no_transition) Error.unknown_agent
    else settle s (run_set_ready (workflow s.mode) now s agent ready note evidence)

unfoldable pub set_verification :
    Time → AgentId → VerificationResult → Text → Text → State → Reply (Snapshot × Transition)
unfolding settle run_set_verification workflow
set_verification now agent result note head s =
    if not (is_peer agent)
    then refuse s (empty_snapshot, no_transition) Error.unknown_agent
    else settle s (run_set_verification (workflow s.mode) now s agent result note head)

-- LOOP's own edge INTEGRATE → DONE.
abbrev pub finish_loop : State → State
finish_loop s = record s {
  phase = Phase.done;
  loop = record (s.loop) { finishing = false; waiting = λ a. none };
}

unfoldable pub complete : Time → State → Reply Snapshot
unfolding settle_state run_complete workflow
complete now s =
    if mode_eq s.mode Mode.loop && (phase_eq s.phase Phase.integrate && s.loop.finishing)
    then settle_state s (ok (finish_loop s))
    else settle_state s (run_complete (workflow s.mode) now s)

-- LOOP's own round clears the inbox and keeps the counter of its ids.
abbrev pub reopened_loop : State → State
reopened_loop s = record s {
  phase = Phase.running;
  loop = fresh_loop s.loop.next_id;
  started = false;
}

unfoldable pub reopen : Time → State → Reply Snapshot
unfolding settle_state run_reopen workflow
reopen now s =
    if mode_eq s.mode Mode.loop && phase_eq s.phase Phase.done
    then settle_state s (ok (reopened_loop s))
    else settle_state s (run_reopen (workflow s.mode) now s)

revoked : AgentId → Text → State → State
revoked agent note s =
    if mode_eq s.mode Mode.fast
    then if phase_eq s.phase Phase.verify
      then record s {
        phase = Phase.running;
        verification = record no_verification { note = trim_space note };
      }
      else s
    else record s {
      ready = put s.ready agent false;
      notes = put s.notes agent (trim_space note);
      evidence = put s.evidence agent (codes "");
    }

unfoldable pub revoke_ready : Time → AgentId → Text → State → Reply Snapshot
unfolding settle_state revoked
revoke_ready now agent note s =
    if is_peer agent
    then settle_state s (ok (record (revoked agent note s) { last_mutation = now }))
    else settle_state s (ok s)

-- `SetPersistence` with a callback, or with nil.
unfoldable pub set_persistence : Bool → State → State
set_persistence installed s = record s { on_change = installed }
