-- ===== src/Service/Outcome.antt =====
-- What every transaction without an error leaves on disk: internal/session/delivery.go,
-- DeliverAndPersistTo.
use duo.Prelude.{
  ◌≡◌, ◌≢◌, ◌⊎◌, inl, inr, refl, arith, true, Option, none, some, Option-cases, Bool-cases, ◌∷◌,
  subst, sym, is_empty, ◌&&◌,
}
use duo.Text.{Text}
use duo.Project.Mode.{Mode, mode_eq, Phase, phase_eq}
use duo.Store.Record.{StoredSnapshot, stored_mode, is_applied}
use duo.Store.Needs.{needs_delivery}
use duo.Delivery.Push.{PushCheck, check_push}
use duo.Delivery.Deliver.{Delivered, deliver}
use duo.Service.World.{Env, World, DeliveryOptions, Status, austin_status}
use duo.Service.Head.{current_step_landed, resolve_final_head}
use duo.Service.Settle.{failed_delivery}
use duo.Service.Gates.{gate}
use duo.Service.Transact.{
  postpone, land, after_delivery, write_ahead, check_target, refuse_push, pending_checkpoint,
  pending_record, manager_to, applied_record, or_else,
}
use duo.Service.Persist.{attempt, attempt_loop, moved, dirty_text, moved_text, block, transact}
use duo.Service.Settled.{IsQuiet}
use duo.Service.Kept.{IsSettled, failed-IsSettled, settle_landing-IsSettled}
use duo.Service.Attempts.{attempt_loop_lem}

module _ {W : Type 0} (env : Env W) where
  postpone-IsSettled :
      (w : World W) (snap : StoredSnapshot) (d : Option Delivered) (reason : Text)
      → IsSettled env (postpone env w snap d reason)
  unfolding postpone failed_delivery
  postpone-IsSettled w snap none reason = record {
    stored = λ e. (w.saved, ground arith);
    flag = λ e. ground arith;
    quiet = λ e f. ground arith;
  }
  postpone-IsSettled w snap (some d) reason = record {
    stored = λ e. (w.saved, ground arith);
    flag = λ e. ground arith;
    quiet = λ e f. ground arith;
  }

  block-IsSettled :
      (w : World W) (snap : StoredSnapshot) (reason : Text)
      → IsSettled env (block env w snap reason)
  unfolding block failed_delivery
  block-IsSettled w snap reason = record {
    stored = λ e. (w.saved, ground arith);
    flag = λ e. ground arith;
    quiet = λ e f. ground arith;
  }

  refuse_push-IsSettled :
      (w : World W) (snap : StoredSnapshot) (opts : DeliveryOptions) (head : Text) (c : PushCheck)
      → IsSettled env (refuse_push env w snap opts head c)
  unfolding refuse_push pending_record
  refuse_push-IsSettled w snap opts head c = record {
    stored = λ e. (w.saved, ground arith);
    flag = λ e. ground arith;
    quiet = λ e f. ground arith;
  }

  after_delivery-IsSettled :
      (w : World W) (snap : StoredSnapshot) (head : Text) (c : Option PushCheck)
      (out : Option Delivered)
      → IsSettled env (after_delivery env w snap head c out)
  unfolding after_delivery applied_record
  after_delivery-IsSettled w snap head c none = postpone-IsSettled w snap none env.error_text
  after_delivery-IsSettled w snap head c (some d) = elim (Bool-cases d.applied) [
    | inl a ↦
        subst (IsSettled env) (ground arith)
          (settle_landing-IsSettled env w (applied_record env snap d) head d c refl)
    | inr a ↦
        subst (IsSettled env) (ground arith)
          (postpone-IsSettled w snap (some d) (env.refusal_text d.check))
  ]

  write_ahead-IsSettled :
      (w : World W) (snap : StoredSnapshot) (opts : DeliveryOptions) (head : Text)
      (c : Option PushCheck)
      → IsSettled env (write_ahead env w snap opts head c)
  unfolding write_ahead land
  write_ahead-IsSettled w snap opts head c =
      let p = pending_checkpoint env snap opts head in
      elim (Bool-cases (env.can_save w.saved p)) [
        | inl e ↦ rw e (
            after_delivery-IsSettled
              (record w {
                repo = (deliver env.git w.repo (manager_to env snap opts head)).0;
                saved = p ∷ w.saved;
              })
              p head c (deliver env.git w.repo (manager_to env snap opts head)).1)
        | inr e ↦ failed-IsSettled env (write_ahead env w snap opts head c) (λ h. ground arith)
      ]

  checked-IsSettled :
      (w : World W) (snap : StoredSnapshot) (opts : DeliveryOptions) (head : Text)
      → opts.push ≡ true
      → IsSettled env (check_target env w snap opts head)
  unfolding check_target
  checked-IsSettled w snap opts head h =
      let p = pending_record snap env.set.austin.branch opts head in
      elim (Option-cases (check_push env.git w.repo p.target_repo p.target_branch head)) [
        | inl e ↦ failed-IsSettled env (check_target env w snap opts head) (λ f. ground arith)
        | inr (c, e) ↦ elim (Bool-cases c.can_push) [
          | inl can ↦
              subst (IsSettled env) (ground arith) (write_ahead-IsSettled w snap opts head (some c))
          | inr can ↦
              subst (IsSettled env) (ground arith) (refuse_push-IsSettled w snap opts head c)
        ]
      ]

  target-IsSettled :
      (w : World W) (snap : StoredSnapshot) (opts : DeliveryOptions) (head : Text)
      → IsSettled env (check_target env w snap opts head)
  unfolding check_target
  target-IsSettled w snap opts head = elim (Bool-cases opts.push) [
    | inl h ↦ checked-IsSettled w snap opts head h
    | inr h ↦ subst (IsSettled env) (ground arith) (write_ahead-IsSettled w snap opts head none)
  ]

  attempt-IsSettled :
      (w : World W) (snap : StoredSnapshot) (opts : DeliveryOptions) (head : Text)
      → IsSettled env (attempt env w snap opts head)
  unfolding attempt
  attempt-IsSettled w snap opts head = elim (Bool-cases (is_empty head)) [
    | inl e ↦ failed-IsSettled env (attempt env w snap opts head) (λ f. ground arith)
    | inr e ↦ elim (Option-cases (gate env w.repo snap head)) [
      | inr (f, g) ↦ failed-IsSettled env (attempt env w snap opts head) (λ f. ground arith)
      | inl g ↦ rw (e, g, attempt) (target-IsSettled w snap opts head)
    ]
  ]

  attempt_loop-IsSettled :
      (w : World W) (snap : StoredSnapshot) (opts : DeliveryOptions) (st : Status)
      → IsSettled env (attempt_loop env w snap opts st)
  unfolding attempt_loop
  attempt_loop-IsSettled w snap opts st = elim (Bool-cases st.dirty) [
    | inl d ↦ subst (IsSettled env) (ground arith) (block-IsSettled w snap dirty_text)
    | inr d ↦ elim (Bool-cases (moved snap st)) [
      | inl c ↦ subst (IsSettled env) (ground arith) (block-IsSettled w snap moved_text)
      | inr c ↦
          subst (IsSettled env) (sym (attempt_loop_lem env w opts snap st d c))
            (attempt-IsSettled w snap opts (or_else st.head (resolve_final_head env w.repo snap)))
    ]
  ]

  pub transact-IsSettled :
      (w : World W) (snap : StoredSnapshot) (opts : DeliveryOptions)
      → IsSettled env (transact env w snap opts)
  unfolding transact
  transact-IsSettled w snap opts = elim (Bool-cases (mode_eq (stored_mode snap) Mode.loop)) [
    | inr m ↦ rw (m, transact) (attempt-IsSettled w snap opts (resolve_final_head env w.repo snap))
    | inl m ↦ elim (Bool-cases (phase_eq snap.phase Phase.integrate && snap.loop.finishing)) [
      | inr p ↦ failed-IsSettled env (transact env w snap opts) (λ f. ground arith)
      | inl p ↦ elim (Option-cases (austin_status env w.repo)) [
        | inl e ↦ failed-IsSettled env (transact env w snap opts) (λ f. ground arith)
        | inr (st, e) ↦ subst (IsSettled env) (ground arith) (attempt_loop-IsSettled w snap opts st)
      ]
    ]
  ]

  pub landed-IsQuiet :
      (snap : StoredSnapshot)
      → is_applied snap.delivery.status ≡ true
      → (stored_mode snap ≢ Mode.step) ⊎ (current_step_landed snap ≡ true)
      → IsQuiet snap
  unfolding needs_delivery current_step_landed
  landed-IsQuiet snap a (inl n) = inr (inl n)
  landed-IsQuiet snap a (inr l) = inl (ground arith)
