-- ===== src/Service/Landing.antt =====
-- What a transaction leaves on disk and in the repositories: internal/session/delivery.go,
-- DeliverAndPersistTo.
use duo.Prelude.{
  ◌≡◌, ◌≢◌, ◌⊎◌, inl, inr, refl, arith, false, Option, none, some, Option-cases, Bool-cases, ◌∷◌,
}
use duo.Text.{Text}
use duo.Project.Steps.{queue_finished}
use duo.Store.Record.{StoredSnapshot}
use duo.Service.Settle.{land_step_snapshot}
use duo.Delivery.Check.{Manager}
use duo.Delivery.Deliver.{Delivered, deliver}
use duo.Service.World.{Env, World, Ended, DeliveryOptions, stored_in}
use duo.Service.Transact.{
  complete_landed, settle_queue, settle_step, settle_landing, postpone, land, after_delivery,
  write_ahead, check_target, pending_checkpoint, manager_to, applied_record,
}

module _ {W : Type 0} (env : Env W) where
  -- Nothing but one more checkpoint, that of the outcome, and that one unless there is an error.
  pub record IsRecorded (w : World W) (e : Ended W) : Type 0 where
    pub repo : e.world.repo ≡ w.repo
    pub on_disk :
        ((e.failure ≢ none) × (e.world.saved ≡ w.saved))
        ⊎ ((e.failure ≡ none) × (e.world.saved ≡ e.outcome.snapshot ∷ w.saved))

  complete_landed-IsRecorded :
      (w : World W) (snap : StoredSnapshot) (d : Delivered)
      → IsRecorded w (complete_landed env w snap d none)
  unfolding complete_landed
  complete_landed-IsRecorded w snap d = ground arith

  settle_queue-IsRecorded :
      (w : World W) (snap : StoredSnapshot) (d : Delivered)
      → IsRecorded w (settle_queue env w snap d none)
  unfolding settle_queue
  settle_queue-IsRecorded w snap d = elim (Bool-cases (queue_finished snap.steps)) [
    | inl e ↦ rw e (complete_landed-IsRecorded w snap d)
    | inr e ↦ ground arith
  ]

  settle_step-IsRecorded :
      (w : World W) (snap : StoredSnapshot) (head : Text) (d : Delivered)
      → IsRecorded w (settle_step env w snap head d none)
  unfolding settle_step
  settle_step-IsRecorded w snap head d = elim (Bool-cases (queue_finished snap.steps)) [
    | inl e ↦ rw e (complete_landed-IsRecorded w snap d)
    | inr e ↦ elim (Option-cases (land_step_snapshot env.now env.stamp snap head)) [
      | inl f ↦ ground arith
      | inr (landed, f) ↦ rw (e, f) (settle_queue-IsRecorded w landed d)
    ]
  ]

  settle_landing-IsRecorded :
      (w : World W) (snap : StoredSnapshot) (head : Text) (d : Delivered)
      → IsRecorded w (settle_landing env w snap head d none)
  unfolding settle_landing
  settle_landing-IsRecorded w snap head d =
      ground (arith, settle_step-IsRecorded w snap head d, complete_landed-IsRecorded w snap d)

  postpone-IsRecorded :
      (w : World W) (snap : StoredSnapshot) (d : Option Delivered) (reason : Text)
      → IsRecorded w (postpone env w snap d reason)
  unfolding postpone
  postpone-IsRecorded w snap none reason = ground arith
  postpone-IsRecorded w snap (some d) reason = ground arith

  after_delivery-IsRecorded :
      (w : World W) (snap : StoredSnapshot) (head : Text) (out : Option Delivered)
      → IsRecorded w (after_delivery env w snap head none out)
  unfolding after_delivery
  after_delivery-IsRecorded w snap head none = postpone-IsRecorded w snap none env.error_text
  after_delivery-IsRecorded w snap head (some d) = ground (
    arith,
    settle_landing-IsRecorded w (applied_record env snap d) head d,
    postpone-IsRecorded w snap (some d) (env.refusal_text d.check),
  )

  -- The repository after a landing, and the checkpoint after it.
  land-IsRecorded :
      (w : World W) (snap : StoredSnapshot) (m : Manager)
      → IsRecorded (record w { repo = (deliver env.git w.repo m).0 }) (land env w snap m none)
  unfolding land
  land-IsRecorded w snap m =
      after_delivery-IsRecorded (record w { repo = (deliver env.git w.repo m).0 }) snap m.final_head
        (deliver env.git w.repo m).1

  -- The transaction stopped before it wrote anything but, maybe, the checkpoint of its outcome; or it
  -- wrote the pending checkpoint, delivered, and wrote at most one more.
  pub data Writes (w : World W) (snap : StoredSnapshot) (opts : DeliveryOptions) (head : Text)
      (e : Ended W) : Type 0 where
    stopped : e.world.repo ≡ w.repo → Writes w snap opts head e
    delivered :
        IsRecorded
          (record w {
            repo = (deliver env.git w.repo (manager_to env snap opts head)).0;
            saved = pending_checkpoint env snap opts head ∷ w.saved;
          })
          e
        → Writes w snap opts head e

  pub check_target-Writes :
      (w : World W) (snap : StoredSnapshot) (opts : DeliveryOptions) (head : Text)
      → opts.push ≡ false
      → Writes w snap opts head (check_target env w snap opts head)
  unfolding check_target write_ahead
  check_target-Writes w snap opts head h =
      let p = pending_checkpoint env snap opts head in
      elim (Bool-cases (env.can_save w.saved p)) [
        | inl e ↦
            rw (h, e)
              (Writes.delivered
                (land-IsRecorded (stored_in env w p) p (manager_to env snap opts head)))
        | inr e ↦ rw (h, e) (Writes.stopped refl)
      ]
