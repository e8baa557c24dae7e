-- ===== src/Coordinator/Pause.antt =====
-- internal/coordinator/coordinator.go: the operations on the pause of a session.
use duo.Prelude.{Bool, true, false, ◌&&◌, ◌||◌, not, Option, some, List, [], ◌∷◌, if◌then◌else◌}
use duo.Project.Agent.{AgentId, Activity, put}
use duo.Project.Mode.{Phase, phase_eq}
use duo.Coordinator.State.{
  Coordinator, Link, PauseState, is_running, is_pausing, is_paused, HeldMessage, PauseSnapshot,
  is_busy, is_idle, all_paused, emit_pause,
}
use duo.Coordinator.Send.{Done, done, send_to_agent}

-- Both flags at once.
abbrev pub with_flags : (AgentId → Bool) → Coordinator → Coordinator
with_flags f c = record c {
  paused = put (put c.paused AgentId.austin (f AgentId.austin)) AgentId.tony (f AgentId.tony);
}

-- A pause that both agents have reached.
unfoldable pub settle_pause : Coordinator → Coordinator
unfolding all_paused
settle_pause c =
    if is_pausing c.pause_state && all_paused c
    then record c { pause_state = PauseState.paused }
    else c

-- What `RestorePause` sets, for one of the two states that it takes.
unfoldable pub restored_pause : Link → PauseSnapshot → Coordinator → Coordinator
unfolding settle_pause is_idle
restored_pause l snap c =
    let c' = record c { pause_state = snap.state } in
    settle_pause
      (if is_paused snap.state then with_flags snap.paused c' else with_flags (is_idle l c') c')

-- `RestorePause`.
unfoldable pub restore_pause : Link → PauseSnapshot → Coordinator → Coordinator
unfolding restored_pause emit_pause
restore_pause l snap c =
    let c' = if is_pausing snap.state || is_paused snap.state then restored_pause l snap c else c in
    if is_running c'.pause_state then c' else emit_pause c'

-- `SetPause`.
unfoldable pub set_pause : Link → Coordinator → Done
unfolding settle_pause is_idle emit_pause
set_pause l c =
    if not (is_running c.pause_state)
    then done c false
    else done
        (emit_pause
          (settle_pause (with_flags (is_idle l c) (record c { pause_state = PauseState.pausing }))))
        true

-- Sends what was held, in its order; errors are ignored.
unfoldable pub send_held : Link → List HeldMessage → Coordinator → Coordinator
unfolding send_to_agent
send_held l [] c = c
send_held l (item ∷ rest) c = send_held l rest (send_to_agent l item.agent item.message c).state

-- Running again, with nothing held.
abbrev pub released : Coordinator → Coordinator
released c = record (with_flags (λ a. false) c) { pause_state = PauseState.running; held = [] }

-- `CancelPause`.
unfoldable pub cancel_pause : Link → Coordinator → Done
unfolding send_held emit_pause
cancel_pause l c =
    if not (is_pausing c.pause_state)
    then done c false
    else done (send_held l c.held (emit_pause (released c))) true

-- What an activity says of the end of a turn; `none` is any other event.
unfoldable pub note_settled : Option Activity → AgentId → Coordinator → Coordinator
unfolding is_busy
note_settled (some Activity.agent_start) agent c = record c { settled = put c.settled agent false }
note_settled (some Activity.agent_settled) agent c = record c { settled = put c.settled agent true }
note_settled _ agent c =
    if is_busy c agent then record c { settled = put c.settled agent false } else c

-- Whether a refresh moves the state, and where.
unfoldable pub moved_pause : AgentId → Coordinator → PauseState
unfolding all_paused
moved_pause agent c =
    if c.paused agent && (is_pausing c.pause_state && all_paused c)
    then PauseState.paused
    else if not (c.paused agent) && is_paused c.pause_state
    then PauseState.pausing
    else c.pause_state

abbrev pub differs : Bool → Bool → Bool
differs a b = if a then not b else b

-- A pause that follows one agent.
unfoldable pub follow : Link → AgentId → Coordinator → Coordinator
unfolding is_idle moved_pause emit_pause
follow l agent c =
    let idle = is_idle l c agent in
    let c' = record c { paused = put c.paused agent idle } in
    let to = moved_pause agent c' in
    let c'' = record c' { pause_state = to } in
    if differs (c.paused agent) idle
      || (differs (is_paused c.pause_state) (is_paused to)
          || differs (is_pausing c.pause_state) (is_pausing to))
    then emit_pause c''
    else c''

-- `refreshPause`; `RefreshPause` is the one without an activity.
unfoldable pub refresh_pause : Link → AgentId → Option Activity → Coordinator → Coordinator
unfolding note_settled follow
refresh_pause l agent activity c =
    let c' = note_settled activity agent c in
    if is_running c'.pause_state then c' else follow l agent c'

-- `BeginDriverSwitch`, less the lock that it hands out.
unfoldable pub begin_driver_switch : AgentId → Coordinator → Bool
unfolding is_busy
begin_driver_switch agent c =
    (is_paused c.pause_state || (not c.project.started || phase_eq c.project.phase Phase.done))
    && not (is_busy c agent)

-- `holdHarness`, `releaseHarness`, `HoldResume` and `clearResumePending`.
unfoldable pub hold_harness : Coordinator → Coordinator
hold_harness c = record c { harness_off = true }

unfoldable pub release_harness : Coordinator → Coordinator
release_harness c = record c { harness_off = false }

unfoldable pub hold_resume : Coordinator → Coordinator
hold_resume c = record c { resume_pending = true; harness_off = true }

unfoldable pub clear_resume_pending : Coordinator → Coordinator
clear_resume_pending c = record c {
  resume_pending = false;
  resume_work_in_flight = false;
  harness_off = false;
}
