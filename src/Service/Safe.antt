-- ===== src/Service/Safe.antt =====
-- When DeliverAndPersistTo of internal/session/delivery.go writes to the user's repository.
use duo.Prelude.{
  ◌≡◌, ◌≢◌, ◌⊎◌, inl, inr, arith, false, Option-cases, Bool-cases, ◌∷◌, is_empty, subst, sym,
  if◌then◌else◌,
}
use duo.Text.{Text}
use duo.Store.Record.{StoredSnapshot, stored_mode, verification_result, is_applied}
use duo.Delivery.Deliver.{deliver}
use duo.Service.World.{Env, World, Ended, DeliveryOptions}
use duo.Service.Transact.{pending_checkpoint, manager_to, renewed}
use duo.Service.Persist.{transact, retry, report, deliver_and_persist_to}
use duo.Service.Settle.{complete_snapshot}
use duo.Service.Landing.{IsRecorded, Writes}
use duo.Service.Trimmed.{IsTrimmed}
use duo.Service.Approved.{IsApproved, HasCursor}
use duo.Service.Attempts.{Attempts, transact-Attempts}

-- The checkpoint that a transaction works on: the record of an earlier landing is dropped.
abbrev pub to_deliver : StoredSnapshot → StoredSnapshot
to_deliver snap = if is_applied snap.delivery.status then renewed snap else snap

module _ {W : Type 0} (env : Env W) (w : World W) (opts : DeliveryOptions) where
  retry_lem :
      (snap : StoredSnapshot) → opts.push ≡ false → (retry env w snap opts).world.repo ≡ w.repo
  unfolding retry report
  retry_lem snap h = elim (Option-cases (complete_snapshot env.now snap)) [
    | inl e ↦ ground arith
    | inr (done, e) ↦ ground arith
  ]

  renewed-IsApproved :
      (snap : StoredSnapshot) (head : Text)
      → IsApproved env w.repo (renewed snap) head
      → IsApproved env w.repo snap head
  unfolding renewed stored_mode verification_result
  renewed-IsApproved snap head (IsApproved.verified m v) = IsApproved.verified m v
  renewed-IsApproved snap head (IsApproved.step_verified m st e p v) =
      IsApproved.step_verified m st e p v
  renewed-IsApproved snap head (IsApproved.signed m p a x y) = IsApproved.signed m p a x y
  renewed-IsApproved snap head (IsApproved.settled m p f st e d h) =
      IsApproved.settled m p f st e d h

  -- An approved head, delivered after the pending checkpoint for it was on disk; and at most one more
  -- checkpoint, the one of the outcome, after that.
  pub record IsGatedDelivery (snap : StoredSnapshot) (head : Text) (e : Ended W) : Type 0 where
    pub named : is_empty head ≡ false
    pub trimmed : IsTrimmed head
    pub approved : IsApproved env w.repo snap head
    pub written :
        IsRecorded env
          (record w {
            repo = (deliver env.git w.repo (manager_to env (to_deliver snap) opts head)).0;
            saved = pending_checkpoint env (to_deliver snap) opts head ∷ w.saved;
          })
          e

  landing_of :
      (snap : StoredSnapshot) (e : Ended W)
      → Attempts env w opts (to_deliver snap) e
      → ((head : Text)
          → IsApproved env w.repo (to_deliver snap) head
          → IsApproved env w.repo snap head)
      → e.world.repo ≢ w.repo
      → (head : Text) × IsGatedDelivery snap head e
  landing_of snap e (inl same) back n = absurd (n same)
  landing_of snap e (inr (head, named, trim, ok, Writes.stopped same)) back n = absurd (n same)
  landing_of snap e (inr (head, named, trim, ok, Writes.delivered wrote)) back n =
      (head, record { named = named; trimmed = trim; approved = back head ok; written = wrote })

  persist_lem :
      (snap : StoredSnapshot)
      → (deliver_and_persist_to env w snap opts ≡ transact env w (to_deliver snap) opts)
        ⊎ (deliver_and_persist_to env w snap opts ≡ retry env w snap opts)
  unfolding deliver_and_persist_to
  persist_lem snap = ground arith

  to_deliver-HasCursor : (snap : StoredSnapshot) → HasCursor snap → HasCursor (to_deliver snap)
  unfolding renewed
  to_deliver-HasCursor snap c = ground arith

  to_deliver-IsApproved :
      (snap : StoredSnapshot) (head : Text)
      → IsApproved env w.repo (to_deliver snap) head
      → IsApproved env w.repo snap head
  to_deliver-IsApproved snap head = elim (Bool-cases (is_applied snap.delivery.status)) [
    | inl a ↦ rw a (renewed-IsApproved snap head)
    | inr a ↦ rw a (λ h. h)
  ]

  -- Without a push, and with the cursor at the first open step, a transaction changes the user's
  -- repository only by delivering a head that is not empty and that is approved: verified by Tony,
  -- signed by both, or settled by the LOOP owner at a clean worktree; the pending checkpoint that
  -- names this head is written before, and after it at most the checkpoint of the outcome.
  pub landing_is_approved :
      (snap : StoredSnapshot)
      → opts.push ≡ false
      → HasCursor snap
      → let e = deliver_and_persist_to env w snap opts in
        e.world.repo ≢ w.repo → (head : Text) × IsGatedDelivery snap head e
  landing_is_approved snap h c n = elim (persist_lem snap) [
    | inl e ↦
        landing_of snap (deliver_and_persist_to env w snap opts)
          (subst (Attempts env w opts (to_deliver snap)) (sym e)
            (transact-Attempts env w opts (to_deliver snap) h (to_deliver-HasCursor snap c)))
          (to_deliver-IsApproved snap) n
    | inr e ↦ absurd (n (ground (arith, e, retry_lem snap h)))
  ]
