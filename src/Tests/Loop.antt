-- ===== src/Tests/Loop.antt =====
-- The theorems about LOOP at concrete sessions.
use duo.Prelude.{◌≡◌, refl, some, List, [], ◌∷◌}
use duo.Text.{codes, is_space, is_blank}
use duo.Project.Agent.{AgentId, Activity}
use duo.Project.Mode.{Mode, Phase}
use duo.Project.State.{State, Error}
use duo.Project.Session
use duo.Project.Operation.{Op, run}
use duo.Project.Loop.Inbox
use duo.Project.Loop.Consult.{loop_can_act, loop_finish, has_human}
use duo.Project.Loop.Turn.{loop_activity}
use duo.Project.Loop.Blocked.{consultation_is_not_bypassed}
use duo.Project.Loop.Finish.{finish_waits_for_the_turn}
use duo.Tests.Sessions.{session, asking}

abbrev chatter : List Op
chatter =
    Op.loop_human 7 (codes "go on")
    ∷ Op.loop_send 8 AgentId.tony (codes "advice")
    ∷ Op.loop_activity AgentId.austin Activity.agent_settled (codes "")
    ∷ Op.complete 9
    ∷ []

consultation_is_not_bypassed_example :
    loop_can_act AgentId.austin (run chatter asking) ≡ some Error.consultation_pending
consultation_is_not_bypassed_example =
    (consultation_is_not_bypassed chatter 10 (codes "done") asking
      (record { mode = refl; phase = refl; waiting = refl; unfinished = refl })
      (refl, (refl, (refl, (refl, tt))))).0

finish_waits_for_the_turn_example :
    (Session.complete 9
      (loop_activity AgentId.austin Activity.agent_settled
        (codes "")
        (loop_finish AgentId.austin
          (codes "all done")
          []
          []
          (session Mode.loop Phase.running)).state).state).state.phase
    ≡ Phase.done
unfolding is_blank is_space has_human
finish_waits_for_the_turn_example =
    (finish_waits_for_the_turn 8 9 (codes "all done") (codes "") (session Mode.loop Phase.running)
      refl refl refl refl refl).3

abbrev told : State
told = (Inbox.loop_send 5 AgentId.tony (codes "hello") asking).state
