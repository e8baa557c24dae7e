-- ===== src/Harness/Diagnosis.antt =====
-- How often Tony is asked for a diagnosis: internal/harness/harness.go, the Fast episode.
use duo.Prelude.{
  subst, sym, ◌≡◌, ◌⊎◌, ◌≢◌, ◌≤◌, Bool, true, false, ◌||◌, none, some, Option-cases, inl, inr, refl,
  List, [], ◌∷◌, ◌++◌, arith, ltb, leb,
}
use duo.Project.Agent.{AgentId}
use duo.Project.Mode.{Phase}
use duo.Project.Verification.{is_passed}
use duo.Project.Snapshot.{Snapshot}
use duo.Harness.Tracker.{Tracker, snapshot}
use duo.Harness.Monitor.{
  Config, Monitor, Surroundings, Sent, quiet, later, is_active, is_running, begin_nudge,
  observe_austin, claim_diagnosis,
}
use duo.Harness.Fast.{wake_fast, nudge_austin, press_austin, prompt_austin, diagnose}

abbrev pub asks_diagnosis : List Sent → Bool
asks_diagnosis [] = false
asks_diagnosis (Sent.diagnosis ∷ sent) = true
asks_diagnosis (_ ∷ sent) = asks_diagnosis sent

asks-append :
    (xs ys : List Sent) → asks_diagnosis (xs ++ ys) ≡ (asks_diagnosis xs || asks_diagnosis ys)
asks-append [] ys = refl
asks-append (Sent.nudge b ∷ xs) ys = asks-append xs ys
asks-append (Sent.diagnosis ∷ xs) ys = refl
asks-append (Sent.stalled b ∷ xs) ys = asks-append xs ys

-- A Fast session in RUNNING with Austin connected and no human attached to him.
pub record IsDriving (env : Surroundings) (snap : Snapshot) (t : Tracker) : Type 0 where
  pub running : is_running snap ≡ true
  pub phase : snap.phase ≡ Phase.running
  pub unverified : is_passed snap.verification.status ≡ false
  pub connected : env.connected AgentId.austin ≡ true
  pub alone : (snapshot AgentId.austin t).human_attached ≡ false
  pub idle : is_active (snapshot AgentId.austin t) ≡ false

-- Austin has done nothing since the monitor looked at him last.
abbrev pub IsSilent : Monitor → Tracker → Type 0
IsSilent m t =
    (m.fast.last_austin ≢ 0) × ((snapshot AgentId.austin t).last_activity ≤ m.fast.last_austin)

-- The episode of RUNNING has had its diagnosis.
abbrev pub IsDiagnosed : Monitor → Type 0
IsDiagnosed m = (m.fast.phase ≡ Phase.running) × (m.fast.diagnosis_sent ≡ true)

module _ (cfg : Config) (env : Surroundings) (snap : Snapshot) (t : Tracker) where
  diagnose_kept :
      (c : Bool) (m : Monitor)
      → IsDiagnosed m
      → (asks_diagnosis (diagnose env c m).1 ≡ false) × ((diagnose env c m).0 ≡ m)
  unfolding diagnose claim_diagnosis
  diagnose_kept c m h = ground arith

  begin_kept :
      (m : Monitor)
      → IsDiagnosed m
      → IsDiagnosed (begin_nudge cfg env.now Phase.running m).0
        × ((begin_nudge cfg env.now Phase.running m).0.fast.last_austin ≡ m.fast.last_austin)
  unfolding begin_nudge
  begin_kept m h = ground arith

  prompt_kept :
      (m : Monitor) (sent : List Sent)
      → IsDiagnosed m
      → asks_diagnosis sent ≡ false
      → let tick = prompt_austin cfg env m t sent in
        (asks_diagnosis tick.sent ≡ false)
        × IsDiagnosed tick.monitor
        × (tick.monitor.fast.last_austin ≡ m.fast.last_austin)
        × (tick.tracker ≡ t)
  unfolding prompt_austin
  prompt_kept m sent h n = elim (Option-cases (begin_nudge cfg env.now Phase.running m).1) [
    | inl e ↦ ground (arith, begin_kept m h)
    | inr (k, e) ↦
        let o = (begin_nudge cfg env.now Phase.running m).0 in
        let asked = (diagnose env (leb 2 k) o).1 in
        ground (
          arith,
          begin_kept m h,
          diagnose_kept (leb 2 k) o,
          asks-append sent (asked ++ Sent.nudge AgentId.austin ∷ []),
          asks-append asked (Sent.nudge AgentId.austin ∷ []),
        )
  ]

  press_kept :
      (m : Monitor)
      → IsDriving env snap t
      → IsDiagnosed m
      → let tick = press_austin cfg env snap m t (snapshot AgentId.austin t) in
        (asks_diagnosis tick.sent ≡ false)
        × IsDiagnosed tick.monitor
        × (tick.monitor.fast.last_austin ≡ m.fast.last_austin)
        × (tick.tracker ≡ t)
  unfolding press_austin
  press_kept m d h =
      let failed = ltb 0 (snapshot AgentId.austin t).failures in
      let (n, sent) = diagnose env failed m in
      ground (arith, prompt_kept n sent, diagnose_kept failed m h)

  -- Once an episode in RUNNING has had its diagnosis, no tick asks for another one and the episode
  -- goes on, for as long as Austin is silent and not busy.
  pub one_diagnosis_per_episode :
      (m : Monitor)
      → IsDriving env snap t
      → IsSilent m t
      → IsDiagnosed m
      → let tick = wake_fast cfg env snap m t in
        (asks_diagnosis tick.sent ≡ false)
        × IsDiagnosed tick.monitor
        × IsSilent tick.monitor tick.tracker
  unfolding wake_fast nudge_austin observe_austin
  one_diagnosis_per_episode m d s h = ground (arith, press_kept m d h)

  diagnose_first :
      (m : Monitor)
      → env.connected AgentId.tony ≡ true
      → m.fast.diagnosis_sent ≡ false
      → (asks_diagnosis (diagnose env true m).1 ≡ true)
        × ((diagnose env true m).0.fast.phase ≡ m.fast.phase)
        × ((diagnose env true m).0.fast.last_austin ≡ m.fast.last_austin)
        × ((diagnose env true m).0.last_wake ≡ m.last_wake)
  unfolding diagnose claim_diagnosis
  diagnose_first m c h = ground arith

  begin_fresh :
      (m : Monitor)
      → m.fast.phase ≡ Phase.verify
      → let (n, allowed) = begin_nudge cfg env.now Phase.running m in
        (n.fast.diagnosis_sent ≡ false)
        × (n.fast.last_austin ≡ m.fast.last_austin)
        × ((allowed ≡ none) ⊎ (allowed ≡ some 1))
  unfolding begin_nudge
  begin_fresh m v = ground arith

  prompt_fresh :
      (m : Monitor) (sent : List Sent)
      → m.fast.phase ≡ Phase.verify
      → asks_diagnosis sent ≡ true
      → let tick = prompt_austin cfg env m t sent in
        (asks_diagnosis tick.sent ≡ true)
        × (tick.monitor.fast.diagnosis_sent ≡ false)
        × (tick.monitor.fast.last_austin ≡ m.fast.last_austin)
        × (tick.tracker ≡ t)
  unfolding prompt_austin diagnose
  prompt_fresh m sent v n =
      ground (arith, begin_fresh m v, asks-append sent (Sent.nudge AgentId.austin ∷ []))

  prompt_asks :
      (m : Monitor) (sent : List Sent)
      → asks_diagnosis sent ≡ true
      → asks_diagnosis (prompt_austin cfg env m t sent).sent ≡ true
  unfolding prompt_austin
  prompt_asks m sent n = elim (Option-cases (begin_nudge cfg env.now Phase.running m).1) [
    | inl e ↦ ground arith
    | inr (k, e) ↦
        let o = (begin_nudge cfg env.now Phase.running m).0 in
        let asked = (diagnose env (leb 2 k) o).1 in
        ground (arith, asks-append sent (asked ++ Sent.nudge AgentId.austin ∷ []))
  ]

  -- Austin has reported a failure, and Tony can be asked about it.
  abbrev pub HasFailed : Type 0
  HasFailed =
      (env.connected AgentId.tony ≡ true) × (ltb 0 (snapshot AgentId.austin t).failures ≡ true)

  -- A silent Austin is pressed.
  wake_presses :
      (m : Monitor)
      → IsDriving env snap t
      → IsSilent m t
      → wake_fast cfg env snap m t ≡ press_austin cfg env snap m t (snapshot AgentId.austin t)
  unfolding wake_fast nudge_austin observe_austin
  wake_presses m d s = ground arith

  press_asks :
      (m : Monitor)
      → IsDriving env snap t
      → HasFailed
      → m.fast.diagnosis_sent ≡ false
      → asks_diagnosis (press_austin cfg env snap m t (snapshot AgentId.austin t)).sent ≡ true
  unfolding press_austin
  press_asks m d f h =
      let (n, sent) = diagnose env true m in
      ground (arith, diagnose_first m f.0 h, prompt_asks n sent)

  press_resets :
      (m : Monitor)
      → IsDriving env snap t
      → HasFailed
      → m.fast.diagnosis_sent ≡ false
      → m.fast.phase ≡ Phase.verify
      → quiet env.now
          (later (snapshot AgentId.austin t).last_activity snap.last_mutation)
          cfg.idle_threshold
        ≡ true
      → let tick = press_austin cfg env snap m t (snapshot AgentId.austin t) in
        (tick.monitor.fast.diagnosis_sent ≡ false)
        × (tick.monitor.fast.last_austin ≡ m.fast.last_austin)
        × (tick.tracker ≡ t)
  unfolding press_austin
  press_resets m d f h v q =
      let (n, sent) = diagnose env true m in
      ground (arith, diagnose_first m f.0 h, prompt_fresh n sent)

  failure_asks :
      (m : Monitor) (u : Tracker)
      → IsDriving env snap t
      → HasFailed
      → IsSilent m t
      → m.fast.diagnosis_sent ≡ false
      → u ≡ t
      → asks_diagnosis (wake_fast cfg env snap m u).sent ≡ true
  failure_asks m u d f s h e =
      subst (λ v. asks_diagnosis (wake_fast cfg env snap m v).sent ≡ true) (sym e)
        (subst (λ k. asks_diagnosis k.sent ≡ true) (sym (wake_presses m d s)) (press_asks m d f h))

  silent_lem :
      (m n : Monitor) → n.fast.last_austin ≡ m.fast.last_austin → IsSilent m t → IsSilent n t
  silent_lem m n e s = ground arith

-- A failed Austin who stays silent has Tony asked twice: if Tony was nudged in VERIFY before, then the
-- first tick that finds the Fast session in RUNNING again asks for a diagnosis and forgets that it
-- did, and the next one asks again.
pub diagnosis_repeats :
    (cfg : Config) (env next : Surroundings) (snap : Snapshot) (m : Monitor) (t : Tracker)
    → IsDriving env snap t
    → IsDriving next snap t
    → HasFailed cfg env snap t
    → HasFailed cfg next snap t
    → IsSilent m t
    → m.fast.phase ≡ Phase.verify
    → m.fast.diagnosis_sent ≡ false
    → quiet env.now
        (later (snapshot AgentId.austin t).last_activity snap.last_mutation)
        cfg.idle_threshold
      ≡ true
    → let tick = wake_fast cfg env snap m t in
      (asks_diagnosis tick.sent ≡ true)
      × (asks_diagnosis (wake_fast cfg next snap tick.monitor tick.tracker).sent ≡ true)
diagnosis_repeats cfg env next snap m t d d' f f' s v h q =
    let tick = press_austin cfg env snap m t (snapshot AgentId.austin t) in
    let (fresh, last, same) = press_resets cfg env snap t m d f h v q in
    let next_tick =
      failure_asks cfg next snap t tick.monitor tick.tracker d' f'
        (silent_lem cfg next snap t m tick.monitor last s) fresh same in
    let pressed = sym (wake_presses cfg env snap t m d s) in
    (
      subst (λ k. asks_diagnosis k.sent ≡ true) pressed (press_asks cfg env snap t m d f h),
      subst (λ k. asks_diagnosis (wake_fast cfg next snap k.monitor k.tracker).sent ≡ true) pressed
          next_tick,
    )
