-- ===== src/Delivery/Pushed.antt =====
-- What a push may write, and what it reports: internal/delivery/delivery.go, CheckPush and Push.
use duo.Prelude.{
  ◌≡◌, ◌⊎◌, inl, inr, refl, true, false, Option, none, some, Option-cases, >>=-eq-some, [], arith,
}
use duo.Text.{Text, trim_space}
use duo.Text.Laws.{text_eq→eq}
use duo.Delivery.Git.{Git, is_ancestor, ls_remote, object_present, push_ref}
use duo.Delivery.Push.{
  PushCheck, new_push, upstream, check_push, resolve_push, judge_push, compare_remote,
  compare_known, push,
}

module _ {W : Type 0} (git : Git W) (w : W) where
  -- The remote branch has no head, is at the pushed one, or is at an ancestor of it that this
  -- repository has.
  abbrev pub KeepsRemote : PushCheck → Type 0
  KeepsRemote c =
      (c.remote_head ≡ [])
      ⊎ (c.remote_head ≡ c.head)
      ⊎ ((object_present git w c.repository c.remote_head ≡ some true)
          × (is_ancestor git w c.repository c.remote_head c.head ≡ some true))

  -- The remote's own answer about the branch that the push goes to.
  abbrev pub IsRead : PushCheck → Type 0
  IsRead c = ls_remote git w c.repository c.remote c.remote_ref ≡ some c.remote_head

  -- A push that is allowed.
  abbrev pub IsAllowed : PushCheck → Type 0
  IsAllowed c = KeepsRemote c × IsRead c × ((c.already_pushed ≡ false) ⊎ (c.remote_head ≡ c.head))

  -- The two checks push the same commit of the same repository.
  abbrev SamePush : PushCheck → PushCheck → Type 0
  SamePush c c' = (c'.repository ≡ c.repository) × (c'.head ≡ c.head)

  -- What a part of the check leaves, from a check that has decided nothing.
  abbrev Judged : PushCheck → PushCheck → Type 0
  Judged c c' = SamePush c c' × ((c'.can_push ≡ false) ⊎ IsAllowed c')

  known_lem :
      (c c' : PushCheck)
      → compare_known git w c ≡ some c'
      → c.can_push ≡ false
      → c.already_pushed ≡ false
      → object_present git w c.repository c.remote_head ≡ some true
      → IsRead c
      → Judged c c'
  unfolding compare_known
  known_lem c c' h f a p read =
      let (contained, e, h1) =
        >>=-eq-some (is_ancestor git w c.repository c.remote_head c.head) _ h in
      ground arith

  compare_remote_lem :
      (c c' : PushCheck)
      → compare_remote git w c ≡ some c'
      → c.can_push ≡ false
      → c.already_pushed ≡ false
      → IsRead c
      → Judged c c'
  unfolding compare_remote
  compare_remote_lem c c' h f a read =
      let (present, e, h1) = >>=-eq-some (object_present git w c.repository c.remote_head) _ h in
      ground (arith, known_lem c c')

  judge_lem :
      (c c' : PushCheck)
      → judge_push git w c ≡ some c'
      → c.can_push ≡ false
      → c.already_pushed ≡ false
      → IsRead c
      → Judged c c'
  unfolding judge_push
  judge_lem c c' h f a read =
      ground (arith, compare_remote_lem c c', text_eq→eq c.remote_head c.head)

  resolve_lem :
      (c c' : PushCheck) (target : Option (Text × Text))
      → resolve_push git w c target ≡ some c'
      → c.can_push ≡ false
      → c.already_pushed ≡ false
      → Judged c c'
  unfolding resolve_push
  resolve_lem c c' none h f a = ground arith
  resolve_lem c c' (some (remote, ref)) h f a =
      let (remote_head, e, h1) = >>=-eq-some (ls_remote git w c.repository remote ref) _ h in
      let d = record c { remote = remote; remote_ref = ref; remote_head = remote_head } in
      judge_lem d c' h1 f a e

  check_push_lem :
      (repository branch head : Text) (c : PushCheck)
      → check_push git w repository branch head ≡ some c
      → Judged (new_push repository branch head) c
  unfolding check_push new_push
  check_push_lem repository branch head c h =
      let n = new_push repository branch head in
      let (target, e, h1) =
        >>=-eq-some (upstream git w n.repository n.branch) (resolve_push git w n) {b = c}
          (ground arith) in
      resolve_lem n c target h1 refl refl

  pushes :
      (c : PushCheck)
      → let w' = (push git w c).0 in
        (w' ≡ w)
        ⊎ ((c.can_push ≡ true)
            × (w' ≡ (push_ref git w c.repository c.remote c.head c.remote_ref).0))
  unfolding push
  pushes c = ground arith

  kept : (c : PushCheck) → c.already_pushed ≡ true → (push git w c).0 ≡ w
  unfolding push
  kept c a = ground arith

  confirmed :
      (c : PushCheck)
      → c.can_push ≡ true
      → c.already_pushed ≡ false
      → (push git w c).1 ≡ true
      → ls_remote git (push git w c).0 c.repository c.remote c.remote_ref ≡ some c.head
  unfolding push
  confirmed c p a ok =
      let w' = (push_ref git w c.repository c.remote c.head c.remote_ref).0 in
      elim (Option-cases (ls_remote git w' c.repository c.remote c.remote_ref)) [
        | inl e ↦ ground arith
        | inr (head, e) ↦ ground (arith, text_eq→eq head c.head)
      ]

  -- A checked push writes at most once, to the branch that was checked, at the head that was asked
  -- for, and it discards nothing: the remote, as it was read, has no such branch, has it at that head,
  -- or has it at an ancestor of that head which this repository has.
  pub push-KeepsRemote :
      (repository branch head : Text) (c : PushCheck)
      → check_push git w repository branch head ≡ some c
      → let w' = (push git w c).0 in
        (w' ≡ w)
        ⊎ (KeepsRemote c
            × IsRead c
            × (c.repository ≡ trim_space repository)
            × (c.head ≡ trim_space head)
            × (w' ≡ (push_ref git w c.repository c.remote c.head c.remote_ref).0))
  unfolding new_push
  push-KeepsRemote repository branch head c h =
      let (same, judged) = check_push_lem repository branch head c h in ground (arith, pushes c)

  -- A checked push that is allowed and reports success is one: the remote answers with the pushed
  -- head.
  pub pushed_is_read :
      (repository branch head : Text) (c : PushCheck)
      → check_push git w repository branch head ≡ some c
      → c.can_push ≡ true
      → (push git w c).1 ≡ true
      → ls_remote git (push git w c).0 c.repository c.remote c.remote_ref ≡ some c.head
  pushed_is_read repository branch head c h can ok =
      let (same, judged) = check_push_lem repository branch head c h in
      ground (arith, confirmed c, kept c)
