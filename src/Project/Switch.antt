-- ===== src/Project/Switch.antt =====
-- internal/project/state.go: escalation to Goal and the switch of modes.
use duo.Prelude.{◌+◌, Bool, true, false, ◌&&◌, not, [], ◌++◌, if◌then◌else◌}
use duo.Text.{Text, codes, trim_space, is_blank}
use duo.Project.Agent.{AgentId}
use duo.Project.Mode.{Mode, mode_eq, Phase, phase_eq}
use duo.Project.Verification.{Time, no_verification}
use duo.Project.LoopState.{fresh_loop}
use duo.Project.State.{State, Error, ok, reset_approvals, touch}
use duo.Project.Snapshot.{Snapshot, snapshot, empty_snapshot, Reply, refuse, silent, settle_state}

heading : Text → Text → Text
unfolding trim_space is_blank
heading title note = if is_blank note then codes "" else title ++ (trim_space note ++ codes "\n\n")

-- The plan that an escalation writes where there was none.
pub escalated_plan : Text → Text → Text → Text
unfolding heading
escalated_plan reason austin_note verification_note =
    codes "# Escalated Goal Plan\n\n"
    ++ (heading (codes "## Escalation Reason\n") reason
        ++ (heading (codes "## Prior Austin Note\n") austin_note
            ++ (heading (codes "## Prior Verification Note\n") verification_note
                ++ codes
                    "## Next Steps\n- [ ] Austin and Tony align on architecture and finalize plan\n- [ ] Approve plan via duo_set_status\n- [ ] Execute implementation\n- [ ] Review and integrate\n")))

pub escalation_prefix : Text → Text → Text
unfolding trim_space is_blank
escalation_prefix reason plan =
    if is_blank reason
    then plan
    else codes "## Escalation Reason: " ++ (trim_space reason ++ (codes "\n\n" ++ plan))

-- `escalateToGoalLocked`.
unfoldable pub escalate_locked : Time → Text → State → State
unfolding reset_approvals is_blank
escalate_locked now reason s =
    let seeded =
      if is_blank s.plan
      then record s {
        plan = escalated_plan reason (s.notes AgentId.austin) s.verification.note;
        plan_version = 1;
      }
      else record s { plan = escalation_prefix reason s.plan; plan_version = s.plan_version + 1 } in
    touch now (record (reset_approvals seeded) {
      mode = Mode.goal;
      phase = Phase.plan;
      verification = no_verification;
    })

unfoldable pub escalate_to_goal : Time → Text → State → Reply Snapshot
unfolding settle_state
escalate_to_goal now reason s =
    if phase_eq s.phase Phase.done
    then refuse s (snapshot s) Error.project_done
    else if mode_eq s.mode Mode.goal
    then refuse s (snapshot s) Error.already_goal
    else settle_state s (ok (escalate_locked now reason s))

pub switch_prefix : Text → Text → Text
unfolding trim_space is_blank
switch_prefix reason plan =
    if is_blank reason
    then plan
    else codes "## Mode Switch Reason: " ++ (trim_space reason ++ (codes "\n\n" ++ plan))

pub goal_plan : Text
goal_plan =
    codes "# Goal Plan\n\nAustin and Tony agree on the design before either implements it.\n"

pub step_plan : Text
step_plan =
    codes "# Step Plan\n\nAustin and Tony agree on the queue. Tag each item [fast] or [goal].\n"

-- The switch of `switchModeLocked` on the target.
start_round : Mode → Text → State → State
start_round Mode.loop reason s = record s {
  plan = codes "";
  plan_version = 0;
  phase = Phase.running;
}
start_round Mode.fast reason s = record s {
  plan = codes "";
  plan_version = 0;
  phase = Phase.running;
}
start_round Mode.goal reason s = record s {
  phase = Phase.plan;
  plan = switch_prefix reason goal_plan;
  plan_version = 1;
}
start_round Mode.step reason s = record s {
  phase = Phase.plan;
  plan = switch_prefix reason step_plan;
  plan_version = 1;
}
start_round (Mode.other t) reason s = s

-- `switchModeLocked`.
unfoldable pub switch_locked : Time → Mode → Text → State → State
unfolding reset_approvals start_round
switch_locked now target reason s =
    let cleared = touch now (record (reset_approvals s) {
      mode = target;
      verification = no_verification;
      steps = [];
      step = 0;
      loop = fresh_loop s.loop.next_id;
    }) in
    if phase_eq s.phase Phase.done
    then record cleared { plan = codes ""; plan_version = 0 }
    else start_round target reason cleared

abbrev pub is_known_mode : Mode → Bool
is_known_mode (Mode.other t) = false
is_known_mode _ = true

unfoldable pub switch_mode : Time → Mode → Text → State → Reply Snapshot
unfolding settle_state
switch_mode now target reason s =
    if not (is_known_mode target)
    then refuse s empty_snapshot Error.unknown_mode
    else if mode_eq s.mode target
    then silent s (snapshot s)
    else if mode_eq s.mode Mode.fast
        && (mode_eq target Mode.goal && not (phase_eq s.phase Phase.done))
    then settle_state s (ok (escalate_locked now reason s))
    else settle_state s (ok (switch_locked now target reason s))
