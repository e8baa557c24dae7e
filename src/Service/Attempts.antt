-- ===== src/Service/Attempts.antt =====
-- What DeliverAndPersistTo of internal/session/delivery.go has checked when it comes to the writes.
use duo.Prelude.{
  ◌≡◌, ◌≢◌, ◌⊎◌, inl, inr, arith, true, false, none, some, Option-cases, Bool-cases, is_empty,
  subst, sym, ◌&&◌,
}
use duo.Text.{Text}
use duo.Project.Mode.{Mode, Phase, phase_eq, normalize}
use duo.Store.Record.{StoredSnapshot, stored_mode}
use duo.Service.World.{Env, World, Ended, DeliveryOptions, Status, austin_status}
use duo.Service.Head.{resolve_final_head}
use duo.Service.Gates.{gate}
use duo.Service.Transact.{or_else}
use duo.Service.Persist.{attempt, attempt_loop, moved, block, transact}
use duo.Service.Landing.{Writes, check_target-Writes}
use duo.Service.Trimmed.{IsTrimmed, resolve_final_head-IsTrimmed, status-IsTrimmed}
use duo.Service.Approved.{IsApproved, HasCursor, fast-IsApproved, goal-IsApproved, step-IsApproved}

normalize-cases :
    (m : Mode)
    → (normalize m ≡ Mode.fast)
      ⊎ (normalize m ≡ Mode.goal)
      ⊎ (normalize m ≡ Mode.step)
      ⊎ (normalize m ≡ Mode.loop)
unfolding normalize
normalize-cases m = ground arith

stored_mode-cases :
    (snap : StoredSnapshot)
    → (stored_mode snap ≡ Mode.fast)
      ⊎ (stored_mode snap ≡ Mode.goal)
      ⊎ (stored_mode snap ≡ Mode.step)
      ⊎ (stored_mode snap ≡ Mode.loop)
unfolding stored_mode
stored_mode-cases snap = normalize-cases snap.mode

module _ {W : Type 0} (env : Env W) (w : World W) (opts : DeliveryOptions) where
  pub attempt-Passed :
      (snap : StoredSnapshot) (head : Text)
      → opts.push ≡ false
      → ((attempt env w snap opts head).world.repo ≡ w.repo)
        ⊎ ((is_empty head ≡ false)
            × (gate env w.repo snap head ≡ none)
            × Writes env w snap opts head (attempt env w snap opts head))
  unfolding attempt
  attempt-Passed snap head h = elim (Bool-cases (is_empty head)) [
    | inl e ↦ inl (ground arith)
    | inr e ↦ elim (Option-cases (gate env w.repo snap head)) [
      | inl g ↦ inr (e, g, rw (e, g) (check_target-Writes env w snap opts head h))
      | inr (f, g) ↦ inl (ground arith)
    ]
  ]

  mode-cases :
      (snap : StoredSnapshot)
      → (stored_mode snap ≡ Mode.loop)
        ⊎ ((stored_mode snap ≢ Mode.loop)
            × ((head : Text)
                → HasCursor snap
                → gate env w.repo snap head ≡ none
                → IsApproved env w.repo snap head))
  mode-cases snap = elim (stored_mode-cases snap) [
    | inl m ↦ inr ((λ l. ground arith), λ head c. fast-IsApproved env w.repo snap head m)
    | inr (inl m) ↦ inr ((λ l. ground arith), λ head c. goal-IsApproved env w.repo snap head m)
    | inr (inr (inl m)) ↦
        inr ((λ l. ground arith), λ head c. step-IsApproved env w.repo snap head m c)
    | inr (inr (inr m)) ↦ inl m
  ]

  -- An approved head, and what the transaction wrote for it.
  abbrev pub Attempts : StoredSnapshot → Ended W → Type 0
  Attempts snap e =
      (e.world.repo ≡ w.repo)
      ⊎ ((head : Text) × (is_empty head ≡ false)
          × IsTrimmed head
          × IsApproved env w.repo snap head
          × Writes env w snap opts head e)

  attempt-Attempts :
      (snap : StoredSnapshot) (head : Text)
      → opts.push ≡ false
      → IsTrimmed head
      → (gate env w.repo snap head ≡ none → IsApproved env w.repo snap head)
      → Attempts snap (attempt env w snap opts head)
  attempt-Attempts snap head h t approve = elim (attempt-Passed snap head h) [
    | inl same ↦ inl same
    | inr (n, g, wrote) ↦ inr (head, n, t, approve g, wrote)
  ]

  pub attempt_loop_lem :
      (snap : StoredSnapshot) (st : Status)
      → st.dirty ≡ false
      → moved snap st ≡ false
      → attempt_loop env w snap opts st
        ≡ attempt env w snap opts (or_else st.head (resolve_final_head env w.repo snap))
  unfolding attempt_loop
  attempt_loop_lem snap st d c = ground arith

  pub blocked_lem :
      (snap : StoredSnapshot) (st : Status)
      → (st.dirty ≡ true) ⊎ (moved snap st ≡ true)
      → (attempt_loop env w snap opts st).world.repo ≡ w.repo
  unfolding attempt_loop block
  blocked_lem snap st h = ground arith

  chosen-IsTrimmed :
      (snap : StoredSnapshot) (st : Status)
      → austin_status env w.repo ≡ some st
      → IsTrimmed (or_else st.head (resolve_final_head env w.repo snap))
  chosen-IsTrimmed snap st e =
      ground (arith, resolve_final_head-IsTrimmed env w.repo snap, status-IsTrimmed env w.repo st e)

  loop-Attempts :
      (snap : StoredSnapshot) (st : Status)
      → opts.push ≡ false
      → stored_mode snap ≡ Mode.loop
      → snap.phase ≡ Phase.integrate
      → snap.loop.finishing ≡ true
      → austin_status env w.repo ≡ some st
      → Attempts snap (attempt_loop env w snap opts st)
  loop-Attempts snap st h m p f e = elim (Bool-cases st.dirty) [
    | inl d ↦ inl (blocked_lem snap st (inl d))
    | inr d ↦ elim (Bool-cases (moved snap st)) [
      | inl c ↦ inl (blocked_lem snap st (inr c))
      | inr c ↦ subst (Attempts snap) (sym (attempt_loop_lem snap st d c)) (
          attempt-Attempts snap (or_else st.head (resolve_final_head env w.repo snap)) h
            (chosen-IsTrimmed snap st e) (λ g. IsApproved.settled m p f st e d (ground arith)))
    ]
  ]

  pub unsettled_lem :
      (snap : StoredSnapshot)
      → stored_mode snap ≡ Mode.loop
      → ((transact env w snap opts).world.repo ≡ w.repo)
        ⊎ ((st : Status) × (snap.phase ≡ Phase.integrate)
            × (snap.loop.finishing ≡ true)
            × (austin_status env w.repo ≡ some st)
            × (transact env w snap opts ≡ attempt_loop env w snap opts st))
  unfolding transact
  unsettled_lem snap m = elim (Option-cases (austin_status env w.repo)) [
    | inl e ↦ inl (ground arith)
    | inr (st, e) ↦ elim (Bool-cases (phase_eq snap.phase Phase.integrate && snap.loop.finishing)) [
      | inl b ↦ inr (st, ground arith, ground arith, e, ground arith)
      | inr b ↦ inl (ground arith)
    ]
  ]

  pub other_lem :
      (snap : StoredSnapshot)
      → stored_mode snap ≢ Mode.loop
      → transact env w snap opts ≡ attempt env w snap opts (resolve_final_head env w.repo snap)
  unfolding transact
  other_lem snap m = ground arith

  pub transact-Attempts :
      (snap : StoredSnapshot)
      → opts.push ≡ false
      → HasCursor snap
      → Attempts snap (transact env w snap opts)
  transact-Attempts snap h c = elim (mode-cases snap) [
    | inl m ↦ elim (unsettled_lem snap m) [
      | inl same ↦ inl same
      | inr (st, p, f, e, at) ↦ subst (Attempts snap) (sym at) (loop-Attempts snap st h m p f e)
    ]
    | inr (n, approve) ↦ subst (Attempts snap) (sym (other_lem snap n)) (
        attempt-Attempts snap (resolve_final_head env w.repo snap) h
          (resolve_final_head-IsTrimmed env w.repo snap)
          (approve (resolve_final_head env w.repo snap) c))
  ]
