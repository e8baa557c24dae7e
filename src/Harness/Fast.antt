-- ===== src/Harness/Fast.antt =====
-- internal/harness/harness.go: maybeWakeFast and the two nudges of a Fast session.
use duo.Prelude.{Bool, not, ◌&&◌, ◌||◌, none, some, List, [], ◌∷◌, ◌++◌, leb, ltb, if◌then◌else◌}
use duo.Project.Agent.{AgentId}
use duo.Project.Mode.{Phase, phase_eq}
use duo.Project.Verification.{is_passed}
use duo.Project.Snapshot.{Snapshot}
use duo.Harness.Runtime.{AgentRuntime}
use duo.Harness.Tracker.{Tracker, snapshot}
use duo.Harness.Monitor.{
  Config, Monitor, Surroundings, Sent, Tick, nothing, later, quiet, is_active, is_running,
  observe_austin, begin_nudge, reset_episode, claim_diagnosis,
}

-- `sendFastDiagnosis`.
abbrev pub send_diagnosis : Surroundings → List Sent
send_diagnosis env = if env.connected AgentId.tony then Sent.diagnosis ∷ [] else []

-- `if condition && m.claimFastDiagnosis() { m.sendFastDiagnosis(...) }`.
unfoldable pub diagnose : Surroundings → Bool → Monitor → Monitor × List Sent
unfolding claim_diagnosis
diagnose env condition m =
    if condition
    then (let (m', claimed) = claim_diagnosis m in (m', if claimed then send_diagnosis env else []))
    else (m, [])

-- The end of `fastNudgeAustin`, from the nudge on; `sent` is what was sent before.
unfoldable pub prompt_austin : Config → Surroundings → Monitor → Tracker → List Sent → Tick
unfolding begin_nudge diagnose
prompt_austin cfg env m t sent =
    let (n, allowed) = begin_nudge cfg env.now Phase.running m in
    elim allowed [
      | none ↦ record { monitor = n; tracker = t; sent = sent }
      | some nudges ↦
          let (o, asked) = diagnose env (leb 2 nudges) n in
          record {
            monitor = o;
            tracker = t;
            sent = sent ++ (asked ++ Sent.nudge AgentId.austin ∷ []);
          }
    ]

-- `fastNudgeAustin`, when Austin has done nothing new.
unfoldable pub press_austin :
    Config → Surroundings → Snapshot → Monitor → Tracker → AgentRuntime → Tick
unfolding prompt_austin diagnose
press_austin cfg env snap m t austin =
    let last = later austin.last_activity snap.last_mutation in
    let hard_stalled = quiet env.now last cfg.stall_threshold in
    if is_active austin && not hard_stalled
    then nothing (reset_episode m) t
    else (let (n, sent) = diagnose env (ltb 0 austin.failures) m in
        if not (quiet env.now last cfg.idle_threshold) && not hard_stalled
        then record { monitor = n; tracker = t; sent = sent }
        else prompt_austin cfg env n t sent)

-- `fastNudgeAustin`.
unfoldable pub nudge_austin : Config → Surroundings → Snapshot → Monitor → Tracker → Tick
unfolding press_austin observe_austin snapshot
nudge_austin cfg env snap m t =
    let austin = snapshot AgentId.austin t in
    if not (env.connected AgentId.austin)
    then nothing m t
    else if austin.human_attached
    then nothing m t
    else (let (n, fresh) = observe_austin Phase.running austin.last_activity m in
        if fresh then nothing n t else press_austin cfg env snap n t austin)

-- `fastNudgeTony`.
unfoldable pub nudge_tony : Config → Surroundings → Snapshot → Monitor → Tracker → Tick
unfolding begin_nudge snapshot
nudge_tony cfg env snap m t =
    let tony = snapshot AgentId.tony t in
    let last = later tony.last_activity snap.last_mutation in
    if not (env.connected AgentId.tony)
    then nothing m t
    else if tony.human_attached
    then nothing m t
    else if not (quiet env.now last cfg.stall_threshold)
        && (is_active tony || not (quiet env.now last cfg.idle_threshold))
    then nothing m t
    else (let (n, allowed) = begin_nudge cfg env.now Phase.verify m in
        elim allowed [
          | none ↦ nothing n t
          | some nudges ↦ record { monitor = n; tracker = t; sent = Sent.nudge AgentId.tony ∷ [] }
        ])

-- `maybeWakeFast`.
unfoldable pub wake_fast : Config → Surroundings → Snapshot → Monitor → Tracker → Tick
unfolding nudge_austin nudge_tony
wake_fast cfg env snap m t =
    if not (is_running snap)
    then nothing m t
    else if is_passed snap.verification.status
    then nothing m t
    else if phase_eq snap.phase Phase.running
    then nudge_austin cfg env snap m t
    else if phase_eq snap.phase Phase.verify
    then nudge_tony cfg env snap m t
    else nothing m t
