-- ===== src/Tests/Pauses.antt =====
-- The theorems on the pause of a session at concrete ones.
use duo.Prelude.{◌≡◌, refl, true, false, some, none, List, [], ◌∷◌, map}
use duo.Text.{codes}
use duo.Project.Agent.{AgentId, agent_eq}
use duo.Project.Mode.{Mode, Phase}
use duo.Harness.Tracker.{new_tracker}
use duo.Coordinator.Message.{MessageType, treatment_of}
use duo.Coordinator.State.{
  Coordinator, Link, PauseState, HeldMessage, new_coordinator, is_paused, is_idle, all_paused,
}
use duo.Coordinator.Send.{prepared}
use duo.Coordinator.Pause.{cancel_pause, send_held, refresh_pause}
use duo.Coordinator.Operation.{Op, run}
use duo.Coordinator.Invisible.{prepared_item, cancelled_pause_is_invisible}
use duo.Coordinator.Silent.{IsQuiet}
use duo.Coordinator.Quiet.{paused_is_quiet}
use duo.Coordinator.Begun.{IsConsistent}
use duo.Coordinator.Consistent.{run-IsConsistent}
use duo.Coordinator.Reached.{pause_completes}
use duo.Tests.Sessions.{session}

-- Both agents are on the bridge.
abbrev link : Link
link = record {
  has_server = true;
  is_connected = λ a. true;
  is_driven = λ a. false;
  live_steering = λ a. true;
  pty_fallback = λ a. false;
  server_send = λ a m. true;
  write = λ a t. true;
  available = λ a t. t;
  resume_prompt = λ a s. codes "go on";
  transcripts = λ a. codes "";
}

abbrev idle : Coordinator
idle = new_coordinator (session Mode.goal Phase.execute) (some (new_tracker 0))

-- Austin has not settled since the pause was asked for.
abbrev pausing : Coordinator
pausing = record idle {
  pause_state = PauseState.pausing;
  paused = λ a. agent_eq a AgentId.tony;
  settled = λ a. agent_eq a AgentId.tony;
}

abbrev human_says : HeldMessage
human_says = record {
  agent = AgentId.austin;
  message = record {
    kind = MessageType.human_prompt;
    sender = AgentId.other (codes "human");
    recipient = AgentId.austin;
    mode = codes "";
    text = codes "stop";
  };
}

cancelled_pause_is_invisible_example :
    (cancel_pause link (send_held link (human_says ∷ []) pausing)).state
    ≡ send_held link (map (prepared_item link) (human_says ∷ [])) (cancel_pause link pausing).state
unfolding prepared treatment_of
cancelled_pause_is_invisible_example =
    cancelled_pause_is_invisible link link (human_says ∷ []) pausing refl (refl, tt)

abbrev busy_hours : List Op
busy_hours =
    Op.send link AgentId.austin human_says.message
    ∷ Op.refresh link AgentId.austin none
    ∷ Op.request_resume link 3
    ∷ []

paused_is_quiet_example : IsQuiet pausing (run busy_hours pausing)
paused_is_quiet_example = paused_is_quiet busy_hours pausing refl refl

idle-IsConsistent : IsConsistent idle
unfolding all_paused
idle-IsConsistent = record {
  known = refl;
  empty = λ r. refl;
  austin = λ r. refl;
  tony = λ r. refl;
  pending = λ r. cc;
  reached = λ r. cc;
}

run-IsConsistent_example : IsConsistent (run (Op.pause link ∷ busy_hours) idle)
run-IsConsistent_example = run-IsConsistent (Op.pause link ∷ busy_hours) idle refl idle-IsConsistent

-- Austin has settled, and no refresh has told the coordinator.
abbrev settled : Coordinator
settled = record pausing { settled = λ a. true }

settled-IsConsistent : IsConsistent settled
unfolding all_paused
settled-IsConsistent = record {
  known = refl;
  empty = λ r. cc;
  austin = λ r. cc;
  tony = λ r. cc;
  pending = λ r. refl;
  reached = λ r. cc;
}

pause_completes_example :
    is_paused
      (refresh_pause link AgentId.tony none
        (refresh_pause link AgentId.austin none settled)).pause_state
    ≡ true
unfolding is_idle new_tracker
pause_completes_example = pause_completes link settled refl settled-IsConsistent refl refl
