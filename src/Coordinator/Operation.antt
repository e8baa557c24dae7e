-- ===== src/Coordinator/Operation.antt =====
-- The operations of internal/coordinator on a pause as one type, so that a history is a list of them.
-- An operation is one step; between two steps the rest of Duo may change the session and the tracker.
use duo.Prelude.{List, [], ◌∷◌, Option}
use duo.Project.Agent.{AgentId, Activity}
use duo.Project.Verification.{Time}
use duo.Project.State.{State}
use duo.Harness.Tracker.{Tracker}
use duo.Coordinator.Message.{Message}
use duo.Coordinator.State.{Coordinator, Link, PauseSnapshot}
use duo.Coordinator.Send.{send_to_agent}
use duo.Coordinator.Pause.{
  set_pause, cancel_pause, restore_pause, refresh_pause, hold_harness, release_harness, hold_resume,
}
use duo.Coordinator.Wake.{continue_pause, request_resume_work, deliver_resume_work}

-- Each step has the paths to the agents as they are while it runs.
pub data Op : Type 0 where
  pause cancel continue : Link → Op
  restore : Link → PauseSnapshot → Op
  refresh : Link → AgentId → Option Activity → Op
  send : Link → AgentId → Message → Op
  request_resume : Link → Time → Op
  connect : Link → Time → AgentId → Op
  hold_work release_work hold_resumed : Op
  change_project : State → Op
  change_tracker : Option Tracker → Op

unfoldable pub apply : Op → Coordinator → Coordinator
unfolding set_pause cancel_pause continue_pause restore_pause refresh_pause send_to_agent
    request_resume_work deliver_resume_work hold_harness release_harness hold_resume
apply (Op.pause l) c = (set_pause l c).state
apply (Op.cancel l) c = (cancel_pause l c).state
apply (Op.continue l) c = (continue_pause l c).state
apply (Op.restore l snap) c = restore_pause l snap c
apply (Op.refresh l agent activity) c = refresh_pause l agent activity c
apply (Op.send l agent m) c = (send_to_agent l agent m c).state
apply (Op.request_resume l now) c = (request_resume_work l now c).state
apply (Op.connect l now agent) c = (deliver_resume_work l now agent c).state
apply Op.hold_work c = hold_harness c
apply Op.release_work c = release_harness c
apply Op.hold_resumed c = hold_resume c
apply (Op.change_project s) c = record c { project = s }
apply (Op.change_tracker t) c = record c { tracker = t }

unfoldable pub run : List Op → Coordinator → Coordinator
unfolding apply
run [] c = c
run (op ∷ ops) c = run ops (apply op c)
