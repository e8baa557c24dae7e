-- ===== src/Harness/Wake.antt =====
-- internal/harness/harness.go and step.go: maybeWake, its Goal and Step branches, and diagnoseLoop.
use duo.Prelude.{
  ◌+◌, Bool, not, ◌&&◌, ◌||◌, List, [], ◌∷◌, ◌++◌, ◌==◌, ltb, if◌then◌else◌, is_empty,
}
use duo.Project.Agent.{AgentId, put}
use duo.Project.Mode.{Mode, Phase, phase_eq}
use duo.Project.Verification.{Time}
use duo.Project.Snapshot.{Snapshot, effective_mode}
use duo.Harness.Runtime.{AgentRuntime}
use duo.Harness.Tracker.{Tracker, snapshot, touch}
use duo.Harness.Targets.{step_nudge_targets, has_prompt}
use duo.Harness.Monitor.{
  Config, Monitor, Surroundings, Sent, Tick, nothing, later, quiet, cools, is_active, is_running,
}
use duo.Harness.Fast.{wake_fast}

abbrev is_signed_off : Snapshot → Bool
is_signed_off snap =
    phase_eq snap.phase Phase.integrate && (snap.ready AgentId.austin && snap.ready AgentId.tony)

-- What neither agent nor the session has done since.
abbrev latest : Snapshot → AgentRuntime → AgentRuntime → Time
latest snap austin tony = later (later austin.last_activity tony.last_activity) snap.last_mutation

-- Whether a Goal session is idle or stalled.
abbrev is_stuck : Config → Time → Snapshot → AgentRuntime → AgentRuntime → Bool
is_stuck cfg now snap austin tony =
    (not (is_active austin || is_active tony)
      && quiet now (latest snap austin tony) cfg.idle_threshold)
    || quiet now (latest snap austin tony) cfg.stall_threshold

-- The Goal branch of `maybeWake`.
unfoldable pub wake_goal : Config → Surroundings → Snapshot → Monitor → Tracker → Tick
unfolding snapshot touch
wake_goal cfg env snap m t =
    let austin = snapshot AgentId.austin t in
    let tony = snapshot AgentId.tony t in
    if not (env.connected AgentId.austin) || not (env.connected AgentId.tony)
    then nothing m t
    else if not (is_running snap) || is_signed_off snap
    then nothing m t
    else if austin.human_attached || tony.human_attached
    then nothing m t
    else if not (is_stuck cfg env.now snap austin tony) || cools cfg env.now m
    then nothing m t
    else record {
      monitor = record m { last_wake = env.now };
      tracker = touch env.now AgentId.austin t;
      sent = Sent.nudge AgentId.austin ∷ [];
    }

-- Whether a target of a Step session is idle or stalled.
unfoldable pub is_idle : Config → Surroundings → Snapshot → Tracker → AgentId → Bool
unfolding snapshot
is_idle cfg env snap t agent =
    let rt = snapshot agent t in
    let last = later rt.last_activity snap.last_mutation in
    env.connected agent
    && (not rt.human_attached
        && (quiet env.now last cfg.stall_threshold
            || (not (is_active rt) && quiet env.now last cfg.idle_threshold)))

unfoldable pub idle_agents :
    Config → Surroundings → Snapshot → Tracker → List AgentId → List AgentId
unfolding is_idle
idle_agents cfg env snap t [] = []
idle_agents cfg env snap t (agent ∷ agents) =
    let rest = idle_agents cfg env snap t agents in
    if is_idle cfg env snap t agent then agent ∷ rest else rest

-- The last loop of `maybeWakeStep`.
unfoldable pub prompt_all : Time → Snapshot → List AgentId → Tracker → Tracker × List Sent
unfolding touch has_prompt
prompt_all now snap [] t = (t, [])
prompt_all now snap (agent ∷ agents) t =
    let here = if has_prompt snap.phase snap then touch now agent t else t in
    let (t', sent) = prompt_all now snap agents here in
    (t', if has_prompt snap.phase snap then Sent.nudge agent ∷ sent else sent)

-- `maybeWakeStep`.
unfoldable pub wake_step : Config → Surroundings → Snapshot → Monitor → Tracker → Tick
unfolding step_nudge_targets idle_agents prompt_all
wake_step cfg env snap m t =
    let idle = idle_agents cfg env snap t (step_nudge_targets snap) in
    if not (is_running snap) || is_empty idle
    then nothing m t
    else if cools cfg env.now m
    then nothing m t
    else (let (t', sent) = prompt_all env.now snap idle t in
        record { monitor = record m { last_wake = env.now }; tracker = t'; sent = sent })

-- Whether a LOOP agent is busy without activity, of which nothing was said yet.
abbrev is_stalled : Config → Surroundings → Monitor → AgentId → AgentRuntime → Bool
is_stalled cfg env m agent rt =
    env.connected agent
    && (not rt.human_attached
        && (rt.busy
            && (not (rt.last_activity == 0)
                && (quiet env.now rt.last_activity cfg.stall_threshold
                    && (not (m.loop_stalls agent == rt.last_activity)
                        && not (cools cfg env.now m))))))

-- One round of the loop of `diagnoseLoop`.
unfoldable pub diagnose_agent :
    Config → Surroundings → AgentId → Monitor → Tracker → Monitor × List Sent
unfolding snapshot
diagnose_agent cfg env agent m t =
    let rt = snapshot agent t in
    if is_stalled cfg env m agent rt
    then (
      record m { loop_stalls = put m.loop_stalls agent rt.last_activity; last_wake = env.now },
      Sent.stalled agent ∷ [],
    )
    else (m, [])

-- `diagnoseLoop`.
unfoldable pub wake_loop : Config → Surroundings → Snapshot → Monitor → Tracker → Tick
unfolding diagnose_agent
wake_loop cfg env snap m t =
    if not (is_running snap) || (cfg.stall_threshold == 0)
    then nothing m t
    else (let (n, austin) = diagnose_agent cfg env AgentId.austin m t in
        let (o, tony) = diagnose_agent cfg env AgentId.tony n t in
        record { monitor = o; tracker = t; sent = austin ++ tony })

-- The dispatch of `maybeWake` on the mode.
unfoldable pub wake_mode : Mode → Config → Surroundings → Snapshot → Monitor → Tracker → Tick
unfolding wake_goal wake_fast wake_step wake_loop
wake_mode Mode.loop cfg env snap m t = wake_loop cfg env snap m t
wake_mode Mode.fast cfg env snap m t = wake_fast cfg env snap m t
wake_mode Mode.step cfg env snap m t = wake_step cfg env snap m t
wake_mode _ cfg env snap m t = wake_goal cfg env snap m t

-- The grace period after a resume.
abbrev pub in_grace : Config → Surroundings → Monitor → Bool
in_grace cfg env m = ltb 0 cfg.recovery_grace && ltb env.now (m.started_at + cfg.recovery_grace)

-- `maybeWake`: one tick of the monitor.
unfoldable pub wake : Config → Surroundings → Snapshot → Monitor → Tracker → Tick
unfolding wake_mode effective_mode
wake cfg env snap m t =
    if env.held || in_grace cfg env m
    then nothing m t
    else wake_mode (effective_mode snap) cfg env snap m t
