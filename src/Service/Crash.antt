-- ===== src/Service/Crash.antt =====
-- A transaction that is run again on its pending checkpoint, after a crash between the delivery and the
-- checkpoint that records it: internal/session/delivery.go.
use duo.Prelude.{
  ◌≡◌, ◌∙◌, ◌⊎◌, inl, inr, sym, subst, ap, arith, true, false, some, Bool-cases, ◌∷◌, is_empty,
}
use duo.Text.{Text}
use duo.Text.Laws.{text_eq→eq}
use duo.Project.Mode.{Mode, mode_eq}
use duo.Store.Record.{StoredSnapshot, stored_mode}
use duo.Delivery.Deliver.{Delivered, deliver}
use duo.Delivery.Again.{IsGit, deliver_again}
use duo.Service.World.{Env, World, Ended, DeliveryOptions, Status}
use duo.Service.Head.{resolve_final_head, manager_for}
use duo.Service.Transact.{pending_checkpoint, pending_record, manager_to, or_else}
use duo.Service.Persist.{attempt, attempt_loop, moved, transact, deliver_and_persist_to}
use duo.Service.Landing.{Writes}
use duo.Service.Trimmed.{IsTrimmed}
use duo.Service.Attempts.{attempt-Passed, attempt_loop_lem, blocked_lem, unsettled_lem, other_lem}

module _ {W : Type 0} (env : Env W) (opts : DeliveryOptions) (snap : StoredSnapshot) (head : Text)
    (local : opts.push ≡ false) (named : is_empty head ≡ false) (trimmed : IsTrimmed head) where
  pending : StoredSnapshot
  pending = pending_checkpoint env snap opts head

  -- The recorded head is the one that is chosen again.
  resolve_again : (r : W) → resolve_final_head env r pending ≡ head
  unfolding pending pending_checkpoint pending_record resolve_final_head
  resolve_again r = ground (arith, named, trimmed)

  chosen_again :
      (r : W) (st : Status)
      → moved pending st ≡ false
      → or_else st.head (resolve_final_head env r pending) ≡ head
  unfolding moved pending pending_checkpoint pending_record
  chosen_again r st h = ground (arith, named, trimmed, resolve_again r, text_eq→eq head st.head)

  -- What is delivered again, if anything is.
  abbrev Repeats : World W → Ended W → Type 0
  Repeats w e =
      (e.world.repo ≡ w.repo)
      ⊎ (e.world.repo ≡ (deliver env.git w.repo (manager_to env snap opts head)).0)

  writes_again :
      (w : World W) (h : Text) (e : Ended W)
      → h ≡ head
      → Writes env w pending opts h e
      → Repeats w e
  unfolding pending pending_checkpoint manager_for
  writes_again w h e at (Writes.stopped same) = inl same
  writes_again w h e at (Writes.delivered wrote) =
      inr
        (wrote.repo ∙ ap (λ (t : Text). (deliver env.git w.repo (manager_to env snap opts t)).0) at)

  attempt_again : (w : World W) (h : Text) → h ≡ head → Repeats w (attempt env w pending opts h)
  attempt_again w h at = elim (attempt-Passed env w opts pending h local) [
    | inl same ↦ inl same
    | inr (n, g, wrote) ↦ writes_again w h (attempt env w pending opts h) at wrote
  ]

  loop_again : (w : World W) (st : Status) → Repeats w (attempt_loop env w pending opts st)
  loop_again w st = elim (Bool-cases st.dirty) [
    | inl d ↦ inl (blocked_lem env w opts pending st (inl d))
    | inr d ↦ elim (Bool-cases (moved pending st)) [
      | inl c ↦ inl (blocked_lem env w opts pending st (inr c))
      | inr c ↦ subst (Repeats w) (sym (attempt_loop_lem env w opts pending st d c)) (
          attempt_again w (or_else st.head (resolve_final_head env w.repo pending))
            (chosen_again w.repo st c))
    ]
  ]

  transact_again : (w : World W) → Repeats w (transact env w pending opts)
  transact_again w = elim (Bool-cases (mode_eq (stored_mode pending) Mode.loop)) [
    | inl m ↦ elim (unsettled_lem env w opts pending (ground arith)) [
      | inl same ↦ inl same
      | inr (st, p, f, e, at) ↦ subst (Repeats w) (sym at) (loop_again w st)
    ]
    | inr m ↦
        subst (Repeats w) (sym (other_lem env w opts pending (λ e. ground arith)))
          (attempt_again w (resolve_final_head env w.repo pending) (resolve_again w.repo))
  ]

  persist_again : (w : World W) → Repeats w (deliver_and_persist_to env w pending opts)
  unfolding deliver_and_persist_to pending pending_checkpoint pending_record
  persist_again w = transact_again w

  -- A transaction without a push, for a head that is not empty and is trimmed, that is cut off after
  -- its delivery succeeded, so that the pending checkpoint is the last one on disk, and that is run
  -- again on it, leaves the user's repository as the delivery left it; of Git it is asked what
  -- `deliver_again` asks.
  pub crash_is_reconciled :
      (w : World W) (d : Delivered)
      → let p = pending_checkpoint env snap opts head in
        let out = deliver env.git w.repo (manager_to env snap opts head) in
        out.1 ≡ some d
        → d.applied ≡ true
        → IsGit env.git out.0
        → (deliver_and_persist_to env
            (record w { repo = out.0; saved = p ∷ w.saved })
            p
            opts).world.repo
          ≡ out.0
  unfolding pending
  crash_is_reconciled w d h a g =
      let m = manager_to env snap opts head in
      let out = deliver env.git w.repo m in
      elim (persist_again (record w { repo = out.0; saved = pending ∷ w.saved })) [
        | inl same ↦ same
        | inr wrote ↦ wrote ∙ deliver_again env.git w.repo m d h a g
      ]
