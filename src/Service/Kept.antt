-- ===== src/Service/Kept.antt =====
-- What is left to deliver after a landing: internal/session/delivery.go, DeliverAndPersistTo.
use duo.Prelude.{
  ◌≡◌, ◌≢◌, ◌⊎◌, inl, inr, arith, true, false, Option, none, some, Option-cases, Bool-cases, List,
  ◌∷◌, subst,
}
use duo.Text.{Text}
use duo.Project.Mode.{Mode, mode_eq}
use duo.Project.Steps.{queue_finished}
use duo.Store.Record.{StoredSnapshot, stored_mode, is_applied}
use duo.Delivery.Push.{PushCheck}
use duo.Delivery.Deliver.{Delivered}
use duo.Service.World.{Env, World, Ended}
use duo.Service.Settle.{land_step_snapshot, complete_snapshot, awaits_landing}
use duo.Service.Transact.{
  finish_delivery, conclude, complete_landed, settle_queue, settle_step, settle_landing,
}
use duo.Service.Settled.{
  IsQuiet, complete_snapshot_lem, HasMoved, land_step_snapshot_lem, moved-IsQuiet,
}

module _ {W : Type 0} (env : Env W) where
  -- Without an error, the checkpoint of the outcome is the last on disk, its record says whether the
  -- artifact was applied, and then nothing is left to deliver.
  pub record IsSettled (e : Ended W) : Type 0 where
    pub stored :
        e.failure ≡ none
        → (before : List StoredSnapshot) × (e.world.saved ≡ e.outcome.snapshot ∷ before)
    pub flag : e.failure ≡ none → e.outcome.applied ≡ is_applied e.outcome.snapshot.delivery.status
    pub quiet : e.failure ≡ none → e.outcome.applied ≡ true → IsQuiet e.outcome.snapshot

  conclude-IsSettled :
      (w : World W) (snap : StoredSnapshot) (d : Delivered) (c : Option PushCheck)
      → is_applied snap.delivery.status ≡ true
      → IsQuiet snap
      → IsSettled (conclude env w snap d c)
  unfolding finish_delivery
  conclude-IsSettled w snap d none a q = record {
    stored = λ e. (w.saved, ground arith);
    flag = λ e. ground arith;
    quiet = λ e f. ground arith;
  }
  conclude-IsSettled w snap d (some c) a q = record {
    stored = λ e. (w.saved, ground arith);
    flag = λ e. ground arith;
    quiet = λ e f. ground arith;
  }

  pub failed-IsSettled : (e : Ended W) → e.failure ≢ none → IsSettled e
  failed-IsSettled e n = record {
    stored = λ h. absurd (n h);
    flag = λ h. absurd (n h);
    quiet = λ h a. absurd (n h);
  }

  -- A session out of Step, or at the end of its queue.
  IsLast : StoredSnapshot → Type 0
  IsLast snap = (stored_mode snap ≢ Mode.step) ⊎ (queue_finished snap.steps ≡ true)

  done-IsQuiet :
      (snap done : StoredSnapshot)
      → complete_snapshot env.now snap ≡ some done
      → IsLast snap
      → IsQuiet done
  unfolding IsLast stored_mode
  done-IsQuiet snap done e l =
      let (a, m, s, i) = complete_snapshot_lem env.now snap done e in
      elim l [
        | inl n ↦ inr (inl (λ h. n (ground (arith, m))))
        | inr f ↦ inr (inr (ground (arith, s)))
      ]

  complete_landed-IsSettled :
      (w : World W) (snap : StoredSnapshot) (d : Delivered) (c : Option PushCheck)
      → is_applied snap.delivery.status ≡ true
      → IsLast snap
      → IsSettled (complete_landed env w snap d c)
  unfolding complete_landed
  complete_landed-IsSettled w snap d c a l = elim (Option-cases (complete_snapshot env.now snap)) [
    | inl e ↦ failed-IsSettled (complete_landed env w snap d c) (λ h. ground arith)
    | inr (done, e) ↦
        rw (e, complete_landed)
          (conclude-IsSettled w done d c (ground (arith, complete_snapshot_lem env.now snap done e))
            (done-IsQuiet snap done e l))
  ]

  settle_queue-IsSettled :
      (w : World W) (snap : StoredSnapshot) (d : Delivered) (c : Option PushCheck)
      → is_applied snap.delivery.status ≡ true
      → HasMoved snap
      → IsSettled (settle_queue env w snap d c)
  unfolding settle_queue IsLast
  settle_queue-IsSettled w snap d c a h = elim (Bool-cases (queue_finished snap.steps)) [
    | inl f ↦ rw f (complete_landed-IsSettled w snap d c a (inr f))
    | inr f ↦ rw f (conclude-IsSettled w snap d c a (moved-IsQuiet snap a h))
  ]

  step-IsSettled :
      (w : World W) (snap : StoredSnapshot) (head : Text) (d : Delivered) (c : Option PushCheck)
      → is_applied snap.delivery.status ≡ true
      → stored_mode snap ≡ Mode.step
      → queue_finished snap.steps ≡ false
      → IsSettled (settle_step env w snap head d c)
  unfolding settle_step
  step-IsSettled w snap head d c a m f =
      elim (Option-cases (land_step_snapshot env.now env.stamp snap head)) [
        | inl e ↦ failed-IsSettled (settle_step env w snap head d c) (λ h. ground arith)
        | inr (landed, e) ↦
            let (same, k, moved) = land_step_snapshot_lem env.now env.stamp head snap landed m e in
            subst IsSettled (ground arith)
              (settle_queue-IsSettled w landed d c (ground (arith, same)) moved)
      ]

  finished-IsSettled :
      (w : World W) (snap : StoredSnapshot) (head : Text) (d : Delivered) (c : Option PushCheck)
      → is_applied snap.delivery.status ≡ true
      → queue_finished snap.steps ≡ true
      → IsSettled (settle_step env w snap head d c)
  unfolding settle_step settle_queue IsLast
  finished-IsSettled w snap head d c a f =
      subst IsSettled (ground arith) (complete_landed-IsSettled w snap d c a (inr f))

  pub settle_landing-IsSettled :
      (w : World W) (snap : StoredSnapshot) (head : Text) (d : Delivered) (c : Option PushCheck)
      → is_applied snap.delivery.status ≡ true
      → IsSettled (settle_landing env w snap head d c)
  unfolding settle_landing IsLast
  settle_landing-IsSettled w snap head d c a =
      elim (Bool-cases (mode_eq (stored_mode snap) Mode.step)) [
        | inl m ↦ elim (Bool-cases (queue_finished snap.steps)) [
          | inl f ↦ rw (m, settle_landing) (finished-IsSettled w snap head d c a f)
          | inr f ↦ rw (m, settle_landing) (step-IsSettled w snap head d c a (ground arith) f)
        ]
        | inr m ↦
            let n : stored_mode snap ≢ Mode.step = λ e. ground arith in
            elim (Bool-cases (awaits_landing snap.phase)) [
              | inl p ↦ rw (m, p, settle_landing) (complete_landed-IsSettled w snap d c a (inl n))
              | inr p ↦ rw (m, p, settle_landing) (conclude-IsSettled w snap d c a (inr (inl n)))
            ]
      ]
