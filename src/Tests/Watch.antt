-- ===== src/Tests/Watch.antt =====
-- The theorems on the watchdog at concrete sessions.
use duo.Prelude.{◌≡◌, refl, true, false, ℕ, List, [], ◌∷◌, arith}
use duo.Text.{codes}
use duo.Project.Agent.{AgentId, Activity}
use duo.Project.Mode.{Mode, Phase, no_phase}
use duo.Project.Snapshot.{snapshot}
use duo.Project.Session
use duo.Harness.Tracker.{Tracker, new_tracker}
use duo.Harness.Tracker as Tracking
use duo.Harness.Monitor.{Config, Monitor, Surroundings, new_episode}
use duo.Harness.Wake.{wake}
use duo.Harness.Fast.{wake_fast}
use duo.Harness.Due.{IsQuiet, nudge-IsDue}
use duo.Harness.Sound.{IsSound}
use duo.Harness.Watched.{Event, run, run-IsSound}
use duo.Harness.Diagnosis.{
  asks_diagnosis, IsDriving, IsSilent, IsDiagnosed, HasFailed, one_diagnosis_per_episode,
}
use duo.Tests.Sessions.{session}

abbrev config : Config
config = record { idle_threshold = 10; stall_threshold = 100; cooldown = 5; recovery_grace = 0 }

abbrev at : ℕ → Surroundings
at now = record { now = now; held = false; connected = λ a. true }

abbrev rested : Monitor
rested = record {
  started_at = 1;
  last_wake = 0;
  loop_stalls = λ a. 0;
  fast = new_episode no_phase 0;
}

-- Austin has failed once since he started, and nothing has happened since.
abbrev failed : Tracker
failed = Tracking.record_failure 1 AgentId.austin (new_tracker 1)

nudge-IsDue_example :
    IsQuiet config (at 20) (snapshot (session Mode.goal Phase.plan)) failed AgentId.austin
unfolding wake new_tracker Tracking.record_failure Tracking.snapshot snapshot Tracking.ensure
nudge-IsDue_example =
    (nudge-IsDue config (at 20) (snapshot (session Mode.goal Phase.plan)) rested failed
      AgentId.austin refl).3

abbrev busy_turn : List Event
busy_turn =
    Event.handle 2 AgentId.austin Activity.agent_start
    ∷ Event.handle 3 AgentId.austin Activity.tool_start
    ∷ Event.note 3 AgentId.austin Activity.tool_start (codes "bash") (codes "ls")
    ∷ []

run-IsSound_example : IsSound (Tracking.snapshot AgentId.austin (run busy_turn (new_tracker 1)))
run-IsSound_example = run-IsSound 1 busy_turn AgentId.austin

-- The monitor has nudged Tony in VERIFY and has seen Austin at 1.
abbrev after_verify : Monitor
after_verify = record rested { fast = new_episode Phase.verify 1 }

abbrev after_diagnosis : Monitor
after_diagnosis = record rested {
  fast = record (new_episode Phase.running 1) { diagnosis_sent = true };
}

driving : (now : ℕ) → IsDriving (at now) (snapshot (session Mode.fast Phase.running)) failed
unfolding snapshot new_tracker Tracking.record_failure Tracking.snapshot Tracking.ensure
driving now = record {
  running = refl;
  phase = refl;
  unverified = refl;
  connected = refl;
  alone = refl;
  idle = refl;
}

silent : IsSilent after_verify failed
unfolding new_tracker Tracking.record_failure Tracking.snapshot Tracking.ensure
silent = (λ e. omega arith, omega arith)

has_failed :
    (now : ℕ) → HasFailed config (at now) (snapshot (session Mode.fast Phase.running)) failed
unfolding new_tracker Tracking.record_failure Tracking.snapshot Tracking.ensure
has_failed now = (refl, refl)

one_diagnosis_per_episode_example :
    let tick =
      wake_fast config
        (at 20)
        (snapshot (session Mode.fast Phase.running))
        after_diagnosis
        failed in
    (asks_diagnosis tick.sent ≡ false)
    × IsDiagnosed tick.monitor
    × IsSilent tick.monitor tick.tracker
one_diagnosis_per_episode_example =
    one_diagnosis_per_episode config (at 20) (snapshot (session Mode.fast Phase.running)) failed
      after_diagnosis (driving 20) silent (refl, refl)
