-- ===== src/Service/Retried.antt =====
-- A delivery that was applied before: internal/session/delivery.go, DeliverAndPersistTo.
use duo.Prelude.{
  ◌≡◌, ◌≢◌, ◌⊎◌, inl, inr, refl, arith, true, none, some, Option-cases, Bool-cases, ◌∷◌, subst, sym,
  ap, ◌∙◌,
}
use duo.Text.{trim_space}
use duo.Project.Mode.{Mode}
use duo.Store.Record.{StoredSnapshot, stored_mode, is_applied}
use duo.Service.World.{Env, World, Ended, DeliveryOptions, DeliveryOutcome, stored_in}
use duo.Service.Head.{current_step_landed, delivered_head}
use duo.Delivery.Push.{check_push}
use duo.Service.Settle.{complete_snapshot, awaits_landing}
use duo.Service.Transact.{or_else}
use duo.Service.Persist.{retry, report, delivered_before, push_delivered}
use duo.Service.Settled.{complete_snapshot_lem}

-- An artifact that was applied before, and of which no landing is missing.
abbrev pub IsApplied : StoredSnapshot → Type 0
IsApplied snap =
    (is_applied snap.delivery.status ≡ true)
    × ((stored_mode snap ≢ Mode.step) ⊎ (current_step_landed snap ≡ true))

module _ {W : Type 0} (env : Env W) where
  -- The outcome of a delivery that was applied before: its checkpoint is on disk, or is the given one.
  record IsReport (w : World W) (snap : StoredSnapshot) (e : Ended W) : Type 0 where
    saved : e.failure ≡ none → e.world.saved ≡ w.saved
    snapshot : e.failure ≡ none → e.outcome.snapshot ≡ snap
    applied : e.failure ≡ none → e.outcome.applied ≡ true

  push_delivered-IsReport :
      (w : World W) (snap : StoredSnapshot) (o : DeliveryOutcome)
      → o.snapshot ≡ snap
      → o.applied ≡ true
      → IsReport w snap (push_delivered env w snap o)
  unfolding push_delivered
  push_delivered-IsReport w snap o h a =
      let branch = or_else (trim_space snap.delivery.target_branch) (trim_space snap.base_branch) in
      let repository = trim_space snap.delivery.target_repo in
      elim (Option-cases (check_push env.git w.repo repository branch (delivered_head snap))) [
        | inl e ↦ ground arith
        | inr (c, e) ↦ ground arith
      ]

  report-IsReport :
      (w : World W) (snap : StoredSnapshot) (opts : DeliveryOptions)
      → IsReport w snap (report env w snap opts)
  unfolding report delivered_before
  report-IsReport w snap opts =
      ground (arith, push_delivered-IsReport w snap (delivered_before env w.repo snap))

  -- The outcome is applied, with nothing left to deliver, and its checkpoint is on disk or the given
  -- one.
  pub record IsRetried (w : World W) (snap : StoredSnapshot) (e : Ended W) : Type 0 where
    pub kept :
        e.failure ≡ none
        → (e.world.saved ≡ e.outcome.snapshot ∷ w.saved)
          ⊎ ((e.world.saved ≡ w.saved) × (e.outcome.snapshot ≡ snap))
    pub flag : e.failure ≡ none → (e.outcome.applied ≡ true)
    pub recorded : e.failure ≡ none → IsApplied e.outcome.snapshot

  done-IsApplied :
      (snap done : StoredSnapshot)
      → complete_snapshot env.now snap ≡ some done
      → IsApplied snap
      → IsApplied done
  unfolding stored_mode current_step_landed
  done-IsApplied snap done e (a, l) = ground (arith, complete_snapshot_lem env.now snap done e)

  -- The two ways that a delivery is reported again, and its errors.
  pub data Retries (w : World W) (snap : StoredSnapshot) (opts : DeliveryOptions) (e : Ended W)
      : Type 0 where
    failed : e.failure ≢ none → Retries w snap opts e
    reported : e ≡ report env w snap opts → Retries w snap opts e
    completed :
        (done : StoredSnapshot)
        → complete_snapshot env.now snap ≡ some done
        → e ≡ report env (stored_in env w done) done opts
        → Retries w snap opts e

  pub retry-Retries :
      (w : World W) (snap : StoredSnapshot) (opts : DeliveryOptions)
      → Retries w snap opts (retry env w snap opts)
  unfolding retry
  retry-Retries w snap opts = elim (Bool-cases (awaits_landing snap.phase)) [
    | inr p ↦ Retries.reported (ground arith)
    | inl p ↦ elim (Option-cases (complete_snapshot env.now snap)) [
      | inl e ↦ Retries.failed (λ h. ground arith)
      | inr (done, e) ↦ elim (Bool-cases (env.can_save w.saved done)) [
        | inl c ↦ Retries.completed done e (rw (p, e, c, retry) refl)
        | inr c ↦ Retries.failed (rw (p, e, c, retry) (λ h. cc))
      ]
    ]
  ]

  pub Retries-IsRetried :
      (w : World W) (snap : StoredSnapshot) (opts : DeliveryOptions) (e : Ended W)
      → IsApplied snap
      → Retries w snap opts e
      → IsRetried w snap e
  Retries-IsRetried w snap opts e a (Retries.failed n) = record {
    kept = λ h. absurd (n h);
    flag = λ h. absurd (n h);
    recorded = λ h. absurd (n h);
  }
  Retries-IsRetried w snap opts e a (Retries.reported at) =
      let r = report-IsReport w snap opts in
      subst (IsRetried w snap) (sym at) (record {
        kept = λ h. inr (r.saved h, r.snapshot h);
        flag = r.applied;
        recorded = λ h. subst IsApplied (sym (r.snapshot h)) a;
      })
  Retries-IsRetried w snap opts e a (Retries.completed done at same) =
      let r = report-IsReport (stored_in env w done) done opts in
      subst (IsRetried w snap) (sym same) (record {
        kept = λ h. inl (r.saved h ∙ ap (λ (d : StoredSnapshot). d ∷ w.saved) (sym (r.snapshot h)));
        flag = r.applied;
        recorded = λ h. subst IsApplied (sym (r.snapshot h)) (done-IsApplied snap done at a);
      })
