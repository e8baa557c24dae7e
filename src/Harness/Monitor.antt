-- ===== src/Harness/Monitor.antt =====
-- internal/harness/harness.go: Monitor, its bookkeeping, and the checks that all modes share. What a
-- tick reads of the clock is one time.
use duo.Prelude.{
  ℕ, ◌+◌, Bool, true, false, not, ◌&&◌, ◌||◌, Option, none, some, List, [], ◌==◌, leb, ltb,
  if◌then◌else◌,
}
use duo.Project.Agent.{AgentId}
use duo.Project.Mode.{Phase, no_phase, phase_eq}
use duo.Project.Verification.{Time}
use duo.Project.Snapshot.{Snapshot}
use duo.Harness.Runtime.{AgentRuntime}
use duo.Harness.Tracker.{Tracker}

-- `Config`; a duration is a number of nanoseconds, which is not negative.
pub record Config : Type 0 where
  pub idle_threshold : ℕ
  pub stall_threshold : ℕ
  pub cooldown : ℕ
  pub recovery_grace : ℕ

-- `fastStuckEpisode`.
pub record Episode : Type 0 where
  pub phase : Phase
  pub nudges : ℕ
  pub diagnosis_sent : Bool
  pub last_austin : Time

abbrev pub new_episode : Phase → Time → Episode
new_episode p last = record { phase = p; nudges = 0; diagnosis_sent = false; last_austin = last }

pub record Monitor : Type 0 where
  pub started_at : Time
  pub last_wake : Time
  pub loop_stalls : AgentId → Time
  pub fast : Episode

-- What one tick sees of its surroundings: the clock, `HarnessHeld`, and `IsAgentConnected`.
pub record Surroundings : Type 0 where
  pub now : Time
  pub held : Bool
  pub connected : AgentId → Bool

-- What a tick sends: a prompt that asks an agent to go on, a request to Tony for a diagnosis, or the
-- event that a LOOP agent seems to be stalled.
pub data Sent : Type 0 where
  nudge : AgentId → Sent
  diagnosis : Sent
  stalled : AgentId → Sent

pub record Tick : Type 0 where
  pub monitor : Monitor
  pub tracker : Tracker
  pub sent : List Sent

abbrev pub nothing : Monitor → Tracker → Tick
nothing m t = record { monitor = m; tracker = t; sent = [] }

-- `b` if it is after `a`.
abbrev pub later : Time → Time → Time
later a b = if ltb a b then b else a

-- `quietFor >= threshold`, since `last`.
abbrev pub quiet : Time → Time → ℕ → Bool
quiet now last threshold = leb (last + threshold) now

abbrev pub is_active : AgentRuntime → Bool
is_active rt = rt.busy || (rt.provider_active || ltb 0 rt.tool_depth)

-- The last wake is less than the cooldown ago.
abbrev pub cools : Config → Time → Monitor → Bool
cools cfg now m = not (m.last_wake == 0) && ltb now (m.last_wake + cfg.cooldown)

abbrev pub is_running : Snapshot → Bool
is_running snap = snap.started && not (phase_eq snap.phase Phase.done)

-- `observeAustinActivity`.
unfoldable pub observe_austin : Phase → Time → Monitor → Monitor × Bool
observe_austin p last m =
    if m.fast.last_austin == 0
    then (record m { fast = record (m.fast) { last_austin = last; phase = p } }, false)
    else if ltb m.fast.last_austin last
    then (record m { fast = new_episode p last }, true)
    else (m, false)

-- The start of `beginFastNudge`, whose flag `reset` no caller sets.
abbrev pub in_phase : Phase → Monitor → Monitor
in_phase p m =
    if phase_eq m.fast.phase p then m else record m { fast = new_episode p m.fast.last_austin }

-- `beginFastNudge`; `none` is a nudge that is not allowed.
unfoldable pub begin_nudge : Config → Time → Phase → Monitor → Monitor × Option ℕ
begin_nudge cfg now p m =
    let n = in_phase p m in
    if cools cfg now n then (n, none) else (
      record n { last_wake = now; fast = record (n.fast) { nudges = n.fast.nudges + 1 } },
      some (n.fast.nudges + 1),
    )

-- `resetFastEpisode`.
abbrev pub reset_episode : Monitor → Monitor
reset_episode m = record m { fast = new_episode no_phase 0 }

-- `claimFastDiagnosis`.
unfoldable pub claim_diagnosis : Monitor → Monitor × Bool
claim_diagnosis m =
    if m.fast.diagnosis_sent
    then (m, false)
    else (record m { fast = record (m.fast) { diagnosis_sent = true } }, true)
