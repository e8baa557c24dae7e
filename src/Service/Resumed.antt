-- ===== src/Service/Resumed.antt =====
-- Every outcome of a delivery, and a resume that goes on: internal/session/delivery.go,
-- DeliverAndPersistTo and ReconcileDelivery.
use duo.Prelude.{
  ◌≡◌, ◌⊎◌, inl, inr, arith, true, false, none, Option-cases, Bool-cases, List, ◌∷◌, subst, sym,
  ◌∙◌, ◌&&◌, not,
}
use duo.Project.Mode.{Mode, mode_eq}
use duo.Store.Record.{StoredSnapshot, stored_mode, is_applied}
use duo.Store.Needs.{needs_delivery}
use duo.Service.World.{Env, World, Ended, DeliveryOptions, no_options}
use duo.Service.Head.{current_step_landed}
use duo.Service.Settle.{land_step_snapshot, complete_snapshot, awaits_landing}
use duo.Service.Transact.{renewed}
use duo.Service.Persist.{transact, retry, deliver_and_persist_to, deliver_and_persist}
use duo.Service.Reconcile.{
  Reconciled, dropped, is_interrupted, holds_landing, finish_step, finish_session, judge_delivery,
  deliver_now, resume_after, reconcile_session, reconcile_delivery,
}
use duo.Service.Settled.{IsQuiet, land_step_snapshot_lem}
use duo.Service.Kept.{IsSettled}
use duo.Service.Outcome.{transact-IsSettled, landed-IsQuiet}
use duo.Service.Retried.{IsApplied, IsRetried, retry-Retries, Retries-IsRetried}

module _ {W : Type 0} (env : Env W) where
  -- The outcome is on disk, or nothing was written and it is the given checkpoint; it is applied as
  -- its record says, and then nothing is left to deliver.
  pub record IsDurable (w : World W) (snap : StoredSnapshot) (e : Ended W) : Type 0 where
    pub stored :
        ((before : List StoredSnapshot) × (e.world.saved ≡ e.outcome.snapshot ∷ before))
        ⊎ ((e.world.saved ≡ w.saved) × (e.outcome.snapshot ≡ snap))
    pub flag : e.outcome.applied ≡ is_applied e.outcome.snapshot.delivery.status
    pub quiet : e.outcome.applied ≡ true → IsQuiet e.outcome.snapshot

  settled-IsDurable :
      (w : World W) (snap : StoredSnapshot) (e : Ended W)
      → IsSettled env e
      → e.failure ≡ none
      → IsDurable w snap e
  settled-IsDurable w snap e s h = record {
    stored = inl (s.stored h);
    flag = s.flag h;
    quiet = s.quiet h;
  }

  retried-IsDurable :
      (w : World W) (snap : StoredSnapshot) (e : Ended W)
      → IsRetried env w snap e
      → e.failure ≡ none
      → IsDurable w snap e
  retried-IsDurable w snap e r h =
      let (a, l) = r.recorded h in
      record {
        stored = elim (r.kept h) [ inl k ↦ inl (w.saved, k) | inr k ↦ inr k ];
        flag = r.flag h ∙ sym a;
        quiet = λ f. landed-IsQuiet env e.outcome.snapshot a l;
      }

  persist-cases :
      (w : World W) (snap : StoredSnapshot) (opts : DeliveryOptions)
      → ((s : StoredSnapshot) × (deliver_and_persist_to env w snap opts ≡ transact env w s opts))
        ⊎ (IsApplied snap × (deliver_and_persist_to env w snap opts ≡ retry env w snap opts))
  unfolding deliver_and_persist_to
  persist-cases w snap opts = elim (Bool-cases (is_applied snap.delivery.status)) [
    | inr a ↦ inl (snap, ground arith)
    | inl a ↦
        elim (Bool-cases (mode_eq (stored_mode snap) Mode.step && not (current_step_landed snap))) [
          | inl p ↦ inl (renewed snap, ground arith)
          | inr p ↦ inr ((a, ground arith), ground arith)
        ]
  ]

  -- A delivery, with any options, that returns no error reports a checkpoint that is the last on disk,
  -- or wrote none and reports the given one; it reports the artifact as applied exactly if the record
  -- in that checkpoint does; and where it does, no delivery is needed any more, or the session is not
  -- in Step, or its queue is finished.
  pub outcome-IsDurable :
      (w : World W) (snap : StoredSnapshot) (opts : DeliveryOptions)
      → (deliver_and_persist_to env w snap opts).failure ≡ none
      → IsDurable w snap (deliver_and_persist_to env w snap opts)
  outcome-IsDurable w snap opts h = elim (persist-cases w snap opts) [
    | inl (s, e) ↦
        settled-IsDurable w snap (deliver_and_persist_to env w snap opts)
          (subst (IsSettled env) (sym e) (transact-IsSettled env w s opts)) h
    | inr (a, e) ↦
        retried-IsDurable w snap (deliver_and_persist_to env w snap opts)
          (subst (IsRetried env w snap) (sym e) (
            Retries-IsRetried env w snap opts (retry env w snap opts) a
              (retry-Retries env w snap opts)))
          h
  ]

  -- The resume stops, or fails, or has nothing to deliver.
  IsResumable : Reconciled W → Type 0
  IsResumable r =
      r.ended.failure ≡ none → r.stop ≡ false → needs_delivery r.ended.outcome.snapshot ≡ false

  after-IsResumable :
      (w : World W) (snap : StoredSnapshot) (e : Ended W)
      → (e.failure ≡ none → IsDurable w snap e)
      → IsResumable (resume_after env e)
  unfolding resume_after judge_delivery IsResumable
  after-IsResumable w snap e d = elim (Option-cases e.failure) [
    | inr (f, h) ↦ ground arith
    | inl h ↦ elim (Bool-cases e.outcome.applied) [
      | inr a ↦ ground arith
      | inl a ↦ λ k s. ground (arith, (d h).quiet a)
    ]
  ]

  finished-IsResumable :
      (w : World W) (snap : StoredSnapshot) → IsResumable (finish_session env w snap)
  unfolding finish_session IsResumable
  finished-IsResumable w snap = elim (Option-cases (complete_snapshot env.now snap)) [
    | inl e ↦ λ k s. ground arith
    | inr (done, e) ↦ elim (Bool-cases (env.can_save w.saved done)) [
      | inl c ↦ λ k s. ground arith
      | inr c ↦ λ k s. ground arith
    ]
  ]

  session-IsResumable :
      (w : World W) (snap : StoredSnapshot) → IsResumable (reconcile_session env w snap)
  unfolding reconcile_session deliver_now deliver_and_persist finish_session IsResumable
  session-IsResumable w snap =
      elim (Bool-cases (awaits_landing snap.phase && is_applied snap.delivery.status)) [
        | inl a ↦ rw (a, reconcile_session) (finished-IsResumable w snap)
        | inr a ↦ elim (Bool-cases (needs_delivery snap)) [
          | inr n ↦ rw (a, n, reconcile_session) (λ k s. n)
          | inl n ↦
              rw (a, n, reconcile_session)
                (after-IsResumable w snap (deliver_and_persist_to env w snap no_options)
                  (outcome-IsDurable w snap no_options))
        ]
      ]

  interrupted-IsResumable :
      (w : World W) (snap : StoredSnapshot)
      → holds_landing snap ≡ true
      → IsResumable (finish_step env w snap)
  unfolding finish_step IsResumable needs_delivery
  interrupted-IsResumable w snap l =
      elim (Option-cases (land_step_snapshot env.now env.stamp snap snap.delivery.final_head)) [
        | inl e ↦ λ k s. ground arith
        | inr (landed, e) ↦
            let (same, mode, moved) =
              land_step_snapshot_lem env.now env.stamp snap.delivery.final_head snap landed
                (ground arith) e in
            elim (Bool-cases (env.can_save w.saved landed)) [
              | inl c ↦ λ k s. ground (arith, same, mode, moved)
              | inr c ↦ λ k s. ground arith
            ]
      ]

  recorded_lem :
      (w : World W) (snap : StoredSnapshot)
      → holds_landing snap ≡ true
      → current_step_landed snap ≡ true
      → needs_delivery snap ≡ false
  unfolding needs_delivery current_step_landed
  recorded_lem w snap l c = ground arith

  -- Where a resume goes on and starts the agents, without an error, no artifact is left to deliver.
  pub resumed_needs_no_delivery :
      (w : World W) (snap : StoredSnapshot)
      → let r = reconcile_delivery env w snap in
        r.ended.failure ≡ none → r.stop ≡ false → needs_delivery r.ended.outcome.snapshot ≡ false
  unfolding reconcile_delivery IsResumable
  resumed_needs_no_delivery w snap = elim (Bool-cases (holds_landing snap)) [
    | inr l ↦ rw (l, reconcile_delivery) (session-IsResumable w snap)
    | inl l ↦ elim (Bool-cases (current_step_landed snap)) [
      | inl c ↦ rw (l, c, reconcile_delivery) (λ k s. recorded_lem w snap l c)
      | inr c ↦ elim (Bool-cases (is_interrupted snap)) [
        | inl i ↦ rw (l, c, i, reconcile_delivery) (interrupted-IsResumable w snap l)
        | inr i ↦ rw (l, c, i, reconcile_delivery) (session-IsResumable w (dropped snap))
      ]
    ]
  ]
