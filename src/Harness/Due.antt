-- ===== src/Harness/Due.antt =====
-- When an agent is nudged: internal/harness/harness.go and step.go.
use duo.Prelude.{
  leb, ltb, refl, Option-cases, Bool-cases, subst, sym, ap, inl, inr, ◌≡◌, ◌⊎◌, ℕ, Bool, true,
  false, ◌||◌, some, List, [], ◌∷◌, ◌++◌, arith,
}
use duo.Text.Laws.{text_eq→eq}
use duo.Project.Agent.{AgentId, agent_eq}
use duo.Project.Mode.{Mode, Phase}
use duo.Project.Verification.{Time}
use duo.Project.Snapshot.{Snapshot, effective_mode}
use duo.Harness.Tracker.{Tracker, snapshot, touch}
use duo.Harness.Targets.{step_nudge_targets, has_prompt}
use duo.Harness.Monitor.{
  Config, Monitor, Surroundings, Sent, Tick, quiet, cools, is_running, begin_nudge, observe_austin,
  claim_diagnosis,
}
use duo.Harness.Fast.{wake_fast, nudge_austin, nudge_tony, press_austin, prompt_austin, diagnose}
use duo.Harness.Wake.{
  wake, wake_mode, wake_goal, wake_step, wake_loop, idle_agents, prompt_all, is_idle,
  diagnose_agent, in_grace,
}

agent_eq→eq : (a b : AgentId) → agent_eq a b ≡ true → a ≡ b
agent_eq→eq (AgentId.other x) (AgentId.other y) h = ap AgentId.other (text_eq→eq x y h)
agent_eq→eq a b h = ground arith

-- Whether an agent is among those that are nudged.
abbrev pub is_nudged : AgentId → List Sent → Bool
is_nudged a [] = false
is_nudged a (Sent.nudge b ∷ sent) = agent_eq a b || is_nudged a sent
is_nudged a (_ ∷ sent) = is_nudged a sent

is_nudged-append :
    (a : AgentId) (xs ys : List Sent) → is_nudged a (xs ++ ys) ≡ (is_nudged a xs || is_nudged a ys)
is_nudged-append a [] ys = refl
is_nudged-append a (Sent.nudge b ∷ xs) ys = ground (arith, is_nudged-append a xs ys)
is_nudged-append a (Sent.diagnosis ∷ xs) ys = is_nudged-append a xs ys
is_nudged-append a (Sent.stalled b ∷ xs) ys = is_nudged-append a xs ys

module _ (cfg : Config) (env : Surroundings) (snap : Snapshot) (t : Tracker) where
  -- The agent is connected, no human is attached to it, and it was quiet for one of the thresholds.
  abbrev pub IsQuiet : AgentId → Type 0
  IsQuiet a =
      (env.connected a ≡ true)
      × ((snapshot a t).human_attached ≡ false)
      × ((quiet env.now (snapshot a t).last_activity cfg.idle_threshold ≡ true)
          ⊎ (quiet env.now (snapshot a t).last_activity cfg.stall_threshold ≡ true))

  -- The session is live, and the cooldown since the last wake is over.
  abbrev pub IsDue : Monitor → Monitor → Type 0
  IsDue m m' = (is_running snap ≡ true) × (cools cfg env.now m ≡ false) × (m'.last_wake ≡ env.now)

  -- What a tick of one mode guarantees for a nudged agent.
  abbrev Nudged : Monitor → Tick → AgentId → Type 0
  Nudged m tick a = IsDue m tick.monitor × IsQuiet a

  goal_lem :
      (m : Monitor) (a : AgentId)
      → is_nudged a (wake_goal cfg env snap m t).sent ≡ true
      → Nudged m (wake_goal cfg env snap m t) a
  unfolding wake_goal
  goal_lem m a h = ground arith

  idle_lem : (a : AgentId) → is_idle cfg env snap t a ≡ true → IsQuiet a
  unfolding is_idle
  idle_lem a h = ground arith

  prompt_cons :
      (a b : AgentId) (agents : List AgentId) (u : Tracker)
      → is_nudged a (prompt_all env.now snap (b ∷ agents) u).1 ≡ true
      → (a ≡ b) ⊎ ((v : Tracker) × (is_nudged a (prompt_all env.now snap agents v).1 ≡ true))
  unfolding prompt_all
  prompt_cons a b agents u h = elim (Bool-cases (has_prompt snap.phase snap)) [
    | inl text ↦ elim (Bool-cases (agent_eq a b)) [
      | inl same ↦ inl (agent_eq→eq a b same)
      | inr other ↦ inr (touch env.now b u, ground arith)
    ]
    | inr silent ↦ inr (u, ground arith)
  ]

  idle_first :
      (b : AgentId) (agents : List AgentId)
      → is_idle cfg env snap t b ≡ true
      → idle_agents cfg env snap t (b ∷ agents) ≡ b ∷ idle_agents cfg env snap t agents
  unfolding idle_agents
  idle_first b agents h = ground arith

  idle_skip :
      (b : AgentId) (agents : List AgentId)
      → is_idle cfg env snap t b ≡ false
      → idle_agents cfg env snap t (b ∷ agents) ≡ idle_agents cfg env snap t agents
  unfolding idle_agents
  idle_skip b agents h = ground arith

  -- The prompts of a list of agents, as they follow from a tracker, name this agent.
  abbrev Prompts : AgentId → Tracker → List AgentId → Type 0
  Prompts a u agents = is_nudged a (prompt_all env.now snap agents u).1 ≡ true

  prompted :
      (a : AgentId) (agents : List AgentId) (u : Tracker)
      → is_nudged a (prompt_all env.now snap (idle_agents cfg env snap t agents) u).1 ≡ true
      → IsQuiet a
  unfolding prompt_all idle_agents
  prompted a [] u h = ground arith
  prompted a (b ∷ agents) u h = elim (Bool-cases (is_idle cfg env snap t b)) [
    | inl idle ↦
        elim (prompt_cons a b (idle_agents cfg env snap t agents) u
          (subst (Prompts a u) (idle_first b agents idle) h)) [
            | inl same ↦ subst IsQuiet (sym same) (idle_lem b idle)
            | inr (v, k) ↦ prompted a agents v k
          ]
    | inr busy ↦ prompted a agents u (subst (Prompts a u) (idle_skip b agents busy) h)
  ]

  step_lem :
      (m : Monitor) (a : AgentId)
      → is_nudged a (wake_step cfg env snap m t).sent ≡ true
      → Nudged m (wake_step cfg env snap m t) a
  unfolding wake_step
  step_lem m a h = ground (arith, prompted a (step_nudge_targets snap) t)

  tony_lem :
      (m : Monitor) (a : AgentId)
      → is_running snap ≡ true
      → is_nudged a (nudge_tony cfg env snap m t).sent ≡ true
      → Nudged m (nudge_tony cfg env snap m t) a
  unfolding nudge_tony begin_nudge
  tony_lem m a r h = ground arith

  begin_lem :
      (p : Phase) (m : Monitor) (n : ℕ)
      → (begin_nudge cfg env.now p m).1 ≡ some n
      → (cools cfg env.now m ≡ false) × ((begin_nudge cfg env.now p m).0.last_wake ≡ env.now)
  unfolding begin_nudge
  begin_lem p m n h = ground arith

  diagnose_lem :
      (c : Bool) (m : Monitor) (a : AgentId)
      → (is_nudged a (diagnose env c m).1 ≡ false) × ((diagnose env c m).0.last_wake ≡ m.last_wake)
  unfolding diagnose claim_diagnosis
  diagnose_lem c m a = ground arith

  prompt_lem :
      (m : Monitor) (sent : List Sent) (a : AgentId)
      → is_nudged a (prompt_austin cfg env m t sent).sent ≡ true
      → is_nudged a sent ≡ false
      → (agent_eq a AgentId.austin ≡ true)
        × (cools cfg env.now m ≡ false)
        × ((prompt_austin cfg env m t sent).monitor.last_wake ≡ env.now)
  unfolding prompt_austin
  prompt_lem m sent a h n =
      let (o, allowed) = begin_nudge cfg env.now Phase.running m in
      elim (Option-cases (begin_nudge cfg env.now Phase.running m).1) [
        | inl e ↦ ground arith
        | inr (k, e) ↦
            let asked = (diagnose env (leb 2 k) (begin_nudge cfg env.now Phase.running m).0).1 in
            ground (
              arith,
              begin_lem Phase.running m k e,
              diagnose_lem (leb 2 k) (begin_nudge cfg env.now Phase.running m).0 a,
              is_nudged-append a sent (asked ++ Sent.nudge AgentId.austin ∷ []),
              is_nudged-append a asked (Sent.nudge AgentId.austin ∷ []),
            )
      ]

  press_lem :
      (m : Monitor) (a : AgentId)
      → is_running snap ≡ true
      → env.connected AgentId.austin ≡ true
      → (snapshot AgentId.austin t).human_attached ≡ false
      → is_nudged a (press_austin cfg env snap m t (snapshot AgentId.austin t)).sent ≡ true
      → Nudged m (press_austin cfg env snap m t (snapshot AgentId.austin t)) AgentId.austin
        × (agent_eq a AgentId.austin ≡ true)
  unfolding press_austin
  press_lem m a r c at h =
      let failed = ltb 0 (snapshot AgentId.austin t).failures in
      let (n, sent) = diagnose env failed m in
      ground (arith, prompt_lem n sent a, diagnose_lem failed m a)

  loop_lem : (m : Monitor) (a : AgentId) → is_nudged a (wake_loop cfg env snap m t).sent ≡ false
  unfolding wake_loop diagnose_agent
  loop_lem m a = ground arith

  observe_lem :
      (p : Phase) (last : Time) (m : Monitor) → (observe_austin p last m).0.last_wake ≡ m.last_wake
  unfolding observe_austin
  observe_lem p last m = ground arith

  austin_lem :
      (m : Monitor) (a : AgentId)
      → is_running snap ≡ true
      → is_nudged a (nudge_austin cfg env snap m t).sent ≡ true
      → Nudged m (nudge_austin cfg env snap m t) a
  unfolding nudge_austin
  austin_lem m a r h =
      let last = (snapshot AgentId.austin t).last_activity in
      let n = (observe_austin Phase.running last m).0 in
      ground (arith, press_lem n a, observe_lem Phase.running last m, agent_eq→eq a AgentId.austin)

  fast_lem :
      (m : Monitor) (a : AgentId)
      → is_nudged a (wake_fast cfg env snap m t).sent ≡ true
      → Nudged m (wake_fast cfg env snap m t) a
  unfolding wake_fast
  fast_lem m a h = ground (arith, austin_lem m a, tony_lem m a)

  mode_lem :
      (mode : Mode) (m : Monitor) (a : AgentId)
      → is_nudged a (wake_mode mode cfg env snap m t).sent ≡ true
      → Nudged m (wake_mode mode cfg env snap m t) a
  unfolding wake_mode
  mode_lem Mode.loop m a h = ground (arith, loop_lem m a)
  mode_lem Mode.fast m a h = fast_lem m a h
  mode_lem Mode.step m a h = step_lem m a h
  mode_lem Mode.goal m a h = goal_lem m a h
  mode_lem (Mode.other x) m a h = goal_lem m a h

-- A tick nudges an agent only if the watchdog is not held and the grace period after a resume is
-- over, the session was started and is not DONE, the cooldown since the last wake is over and starts
-- anew, and the agent is connected, has no human attached, and was quiet for the idle or the stall
-- threshold.
pub nudge-IsDue :
    (cfg : Config) (env : Surroundings) (snap : Snapshot) (m : Monitor) (t : Tracker) (a : AgentId)
    → let tick = wake cfg env snap m t in
      is_nudged a tick.sent ≡ true
      → (env.held ≡ false)
        × (in_grace cfg env m ≡ false)
        × IsDue cfg env snap t m tick.monitor
        × IsQuiet cfg env snap t a
unfolding wake
nudge-IsDue cfg env snap m t a h = ground (arith, mode_lem cfg env snap t (effective_mode snap) m a)
