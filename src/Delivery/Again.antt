-- ===== src/Delivery/Again.antt =====
-- What a delivery reports, and a delivery that is run again: internal/delivery/delivery.go, Deliver.
use duo.Prelude.{
  ◌≡◌, subst, sym, ◌≢◌, ◌⊎◌, inl, inr, true, false, none, some, Option-cases, Bool-cases,
  >>=-eq-some, [], arith, is_empty,
}
use duo.Text.{Text, codes, trim_space}
use duo.Text.Laws.{text_eq→eq}
use duo.Delivery.Git.{Git, rev_parse, is_ancestor, ref_exists, fast_forward, create_branch}
use duo.Delivery.Checked.{check_lem}
use duo.Delivery.Applied.{check-HasFinal}
use duo.Delivery.Safety.{FastForwards, Creates, deliver_writes_safely}
use duo.Delivery.Check.{Manager, Check, new_check, check}
use duo.Delivery.Deliver.{
  Delivered, deliver, deliver_to_base, deliver_to_new_branch, deliver_to_branch, advance, confirm,
  keep, place, place_derived, create, heads,
}

module _ {W : Type 0} (git : Git W) where
  -- HEAD is at the final head, or has it in its history.
  abbrev pub AtBase : W → Check → Type 0
  AtBase w n =
      (head : Text) × (rev_parse git w n.repository (codes "HEAD") ≡ some head)
      × ((head ≡ n.final_head) ⊎ (is_ancestor git w n.repository n.final_head head ≡ some true))

  confirm_lem :
      (w : W) (m : Manager) (c : Check) (r : Delivered)
      → confirm git w m c ≡ some r
      → rev_parse git w c.repository (codes "HEAD") ≡ some c.final_head
  unfolding confirm
  confirm_lem w m c r h =
      let (head, e, h1) = >>=-eq-some (rev_parse git w c.repository (codes "HEAD")) _ {b = r} h in
      ground (arith, text_eq→eq head c.final_head)

  base_lem :
      (w : W) (m : Manager) (c : Check) (r : Delivered)
      → check git w m ≡ some c
      → (deliver_to_base git w m).1 ≡ some r
      → r.applied ≡ true
      → let w' = (deliver_to_base git w m).0 in
        ((w' ≡ w) × (c.already_applied ≡ true))
        ⊎ (rev_parse git w' c.repository (codes "HEAD") ≡ some c.final_head)
  unfolding deliver_to_base advance
  base_lem w m c r e h a =
      ground (arith, confirm_lem (fast_forward git w c.repository c.final_head).0 m c r)

  unchecked : (w : W) (m : Manager) → check git w m ≡ none → (deliver_to_base git w m).1 ≡ none
  unfolding deliver_to_base
  unchecked w m e = ground arith

  base-AtBase :
      (w : W) (m : Manager) (r : Delivered)
      → (deliver_to_base git w m).1 ≡ some r
      → r.applied ≡ true
      → AtBase (deliver_to_base git w m).0 (new_check m)
  base-AtBase w m r h a = elim (Option-cases (check git w m)) [
    | inl e ↦ ground (arith, unchecked w m e)
    | inr (c, e) ↦ elim (base_lem w m c r e h a) [
      | inl (same, found) ↦
          let (head, at, within) = check-HasFinal git w m c e found in
          subst (λ v. AtBase v (new_check m)) (sym same) (head, at, inr within)
      | inr at ↦
          let ((dir, final), checked) = check_lem git w m c e in
          let v = (deliver_to_base git w m).0 in
          (
            c.final_head,
            subst (λ d. rev_parse git v d (codes "HEAD") ≡ some c.final_head) dir at,
            inl final,
          )
    ]
  ]

  -- The branch is at the final head, as it was resolved.
  abbrev pub AtBranch : W → Check → Text → Text → Type 0
  AtBranch w n branch final = rev_parse git w n.repository (heads branch) ≡ some final

  keep_lem :
      (w : W) (m : Manager) (branch : Text) (c : Check) (r : Delivered)
      → keep git w m branch c ≡ some r
      → r.applied ≡ true
      → AtBranch w c branch c.final_head
  unfolding keep
  keep_lem w m branch c r h a =
      let (head, e, h1) = >>=-eq-some (rev_parse git w c.repository (heads branch)) _ {b = r} h in
      ground (arith, text_eq→eq head c.final_head)

  create_lem :
      (w : W) (m : Manager) (branch : Text) (c : Check) (r : Delivered)
      → (create git w m branch c).1 ≡ some r
      → AtBranch (create git w m branch c).0 c branch c.final_head
  unfolding create
  create_lem w m branch c r h =
      let w' = (create_branch git w c.repository branch c.final_head).0 in
      elim (Option-cases (rev_parse git w' c.repository (heads branch))) [
        | inl e ↦ ground arith
        | inr (head, e) ↦ ground (arith, text_eq→eq head c.final_head)
      ]

  place_lem :
      (w : W) (m : Manager) (branch : Text) (c : Check) (r : Delivered)
      → (place_derived git w m branch c).1 ≡ some r
      → r.applied ≡ true
      → AtBranch (place_derived git w m branch c).0 c branch c.final_head
  unfolding place_derived place
  place_lem w m branch c r h a = ground (arith, keep_lem w m branch c r, create_lem w m branch c r)

  -- The branch is at the final head, as it was resolved before the delivery.
  abbrev pub Branched : W → W → Check → Text → Type 0
  Branched w w' n branch =
      (final : Text) × (rev_parse git w n.repository n.final_head ≡ some final)
      × AtBranch w' n branch final

  placed :
      (w : W) (m : Manager) (branch final : Text) (c : Check) (r : Delivered)
      → rev_parse git w c.repository c.final_head ≡ some final
      → (deliver_to_branch git w m branch c).1 ≡ some r
      → r.applied ≡ true
      → AtBranch (deliver_to_branch git w m branch c).0 c branch final
  unfolding deliver_to_branch
  placed w m branch final c r e h a =
      ground (arith, place_lem w m branch (record c { final_head = final }) r)

  unresolved :
      (w : W) (m : Manager) (branch : Text) (c : Check) (r : Delivered)
      → rev_parse git w c.repository c.final_head ≡ none
      → (deliver_to_branch git w m branch c).1 ≡ some r
      → r.applied ≡ false
  unfolding deliver_to_branch
  unresolved w m branch c r e h = ground arith

  branch-Branched :
      (w : W) (m : Manager) (branch : Text) (c : Check) (r : Delivered)
      → (deliver_to_branch git w m branch c).1 ≡ some r
      → r.applied ≡ true
      → Branched w (deliver_to_branch git w m branch c).0 c branch
  branch-Branched w m branch c r h a =
      elim (Option-cases (rev_parse git w c.repository c.final_head)) [
        | inl e ↦ ground (arith, unresolved w m branch c r e h)
        | inr (final, e) ↦ (final, e, placed w m branch final c r e h a)
      ]

  -- A delivery that reports success is one: without a branch name, HEAD of the repository is at the
  -- final head or has it in its history afterwards; with one, the branch is at the commit that the
  -- final head stood for.
  pub applied_is_delivered :
      (w : W) (m : Manager) (r : Delivered)
      → (deliver git w m).1 ≡ some r
      → r.applied ≡ true
      → let n = new_check m in
        let w' = (deliver git w m).0 in
        ((trim_space m.branch ≡ []) × AtBase w' n)
        ⊎ ((trim_space m.branch ≢ []) × Branched w w' n (trim_space m.branch))
  unfolding deliver deliver_to_new_branch
  applied_is_delivered w m r h a = elim (Bool-cases (is_empty (trim_space m.branch))) [
    | inl blank ↦ ground (arith, base-AtBase w m r)
    | inr named ↦ ground (arith, branch-Branched w m (trim_space m.branch) (new_check m) r)
  ]

  -- What Git documents of its answers in one state of the repository: a commit is its own ancestor,
  -- and a ref that does not exist is not resolved to a commit.
  pub record IsGit (w : W) : Type 0 where
    pub reflexive : (dir head : Text) → is_ancestor git w dir head head ≢ some false
    pub resolves :
        (dir ref : Text) → ref_exists git w dir ref ≡ some false → rev_parse git w dir ref ≡ none

  base_again : (w w' : W) (n : Check) → AtBase w n → IsGit w → FastForwards git w n w' → w' ≡ w
  base_again w w' n at g (safe, wrote) =
      let (head, found, forward, short) = safe.behind in
      ground (arith, at, g.reflexive n.repository n.final_head)

  branch_again :
      (w w' : W) (n : Check) (branch final : Text)
      → AtBranch w n branch final
      → IsGit w
      → Creates git w n branch w'
      → w' ≡ w
  branch_again w w' n branch final at g (f, new, wrote) =
      ground (arith, g.resolves n.repository (heads branch) new.absent)

  -- A delivery that reported success and is run again writes nothing, as after a crash before its
  -- success was recorded; of Git it is only asked that a commit is its own ancestor and that a ref
  -- which does not exist does not resolve.
  pub deliver_again :
      (w : W) (m : Manager) (r : Delivered)
      → (deliver git w m).1 ≡ some r
      → r.applied ≡ true
      → IsGit (deliver git w m).0
      → (deliver git (deliver git w m).0 m).0 ≡ (deliver git w m).0
  deliver_again w m r h a g =
      let n = new_check m in
      let w' = (deliver git w m).0 in
      let w'' = (deliver git w' m).0 in
      elim (applied_is_delivered w m r h a) [
        | inl (blank, at) ↦ elim (deliver_writes_safely git w' m) [
          | inl same ↦ same
          | inr (inl (_, forward)) ↦ base_again w' w'' n at g forward
          | inr (inr (named, _)) ↦ absurd (named blank)
        ]
        | inr (named, (final, _, at)) ↦ elim (deliver_writes_safely git w' m) [
          | inl same ↦ same
          | inr (inl (blank, _)) ↦ absurd (named blank)
          | inr (inr (_, creates)) ↦ branch_again w' w'' n (trim_space m.branch) final at g creates
        ]
      ]
