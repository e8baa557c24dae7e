-- ===== src/Delivery/Safety.antt =====
-- What a delivery may write: internal/delivery/delivery.go, Deliver.
use duo.Prelude.{
  ◌≡◌, ◌∙◌, ◌≢◌, ◌⊎◌, inl, inr, true, false, none, some, Option-cases, Bool-cases, [], arith,
  is_empty,
}
use duo.Text.{Text, text_eq, trim_space}
use duo.Text.Laws.{text_eq_refl}
use duo.Delivery.Git.{Git, rev_parse, ref_exists, fast_forward, create_branch}
use duo.Delivery.Check.{Manager, Check, new_check, check, from_base}
use duo.Delivery.Deliver.{
  deliver, deliver_to_base, deliver_to_new_branch, deliver_to_branch, advance, place, place_derived,
  create, heads, valid_branch_name,
}
use duo.Delivery.Checked.{IsDerived, IsFastForward, from_base-IsDerived, check_lem}

module _ {W : Type 0} (git : Git W) (w : W) where
  -- The one way a delivery to the original branch may write.
  abbrev pub FastForwards : Check → W → Type 0
  FastForwards n w' =
      IsFastForward git w n.repository n.base_branch n.base_commit n.final_head
      × (w' ≡ (fast_forward git w n.repository n.final_head).0)

  base_writes :
      (m : Manager)
      → let w' = (deliver_to_base git w m).0 in (w' ≡ w) ⊎ FastForwards (new_check m) w'
  unfolding deliver_to_base advance
  base_writes m = elim (Option-cases (check git w m)) [
    | inl e ↦ ground arith
    | inr (c, e) ↦ ground (arith, check_lem git w m c e)
  ]

  -- The branch has a valid name that is not the original branch's, it does not exist, and the final
  -- commit that it is created at derives from the base commit.
  pub record IsNewBranch (dir branch own base recorded final : Text) : Type 0 where
    pub other : branch ≢ own
    pub valid : valid_branch_name git w dir branch ≡ true
    pub absent : ref_exists git w dir (heads branch) ≡ some false
    pub resolved : rev_parse git w dir recorded ≡ some final
    pub derived : IsDerived git w dir base final

  -- The one way a delivery to a new branch may write.
  abbrev pub Creates : Check → Text → W → Type 0
  Creates n branch w' =
      (final : Text) × IsNewBranch n.repository branch n.base_branch n.base_commit n.final_head
        final
      × (w' ≡ (create_branch git w n.repository branch final).0)

  place_writes :
      (m : Manager) (branch : Text) (c : Check)
      → let w' = (place_derived git w m branch c).0 in
        (w' ≡ w)
        ⊎ ((ref_exists git w c.repository (heads branch) ≡ some false)
            × IsDerived git w c.repository c.base_commit c.final_head
            × (w' ≡ (create_branch git w c.repository branch c.final_head).0))
  unfolding place_derived place create
  place_writes m branch c =
      elim (Option-cases (from_base git w c.repository c.base_commit c.final_head)) [
        | inl e ↦ ground arith
        | inr (derived, e) ↦
            ground (arith, from_base-IsDerived git w c.repository c.base_commit c.final_head)
      ]

  unresolved :
      (m : Manager) (branch : Text) (c : Check)
      → rev_parse git w c.repository c.final_head ≡ none
      → (deliver_to_branch git w m branch c).0 ≡ w
  unfolding deliver_to_branch
  unresolved m branch c e = ground arith

  branch_guards :
      (m : Manager) (branch final : Text) (c : Check)
      → rev_parse git w c.repository c.final_head ≡ some final
      → let w' = (deliver_to_branch git w m branch c).0 in
        (w' ≡ w)
        ⊎ ((text_eq branch c.base_branch ≡ false)
            × (valid_branch_name git w c.repository branch ≡ true)
            × (w' ≡ (place_derived git w m branch (record c { final_head = final })).0))
  unfolding deliver_to_branch
  branch_guards m branch final c e = ground arith

  branch_writes :
      (m : Manager) (branch : Text) (c : Check)
      → let w' = (deliver_to_branch git w m branch c).0 in (w' ≡ w) ⊎ Creates c branch w'
  branch_writes m branch c = elim (Option-cases (rev_parse git w c.repository c.final_head)) [
    | inl e ↦ inl (unresolved m branch c e)
    | inr (final, e) ↦ elim (branch_guards m branch final c e) [
      | inl same ↦ inl same
      | inr (other, valid, at) ↦ elim (place_writes m branch (record c { final_head = final })) [
        | inl same ↦ inl (at ∙ same)
        | inr (absent, derived, wrote) ↦ inr (
          final,
          record {
            other = λ p. ground (arith, text_eq_refl branch);
            valid = valid;
            absent = absent;
            resolved = e;
            derived = derived;
          },
          at ∙ wrote,
        )
      ]
    ]
  ]

  -- A delivery writes at most once: it fast-forwards the checkout where that is safe, or it creates
  -- a branch that was not there.
  pub deliver_writes_safely :
      (m : Manager)
      → let n = new_check m in
        let w' = (deliver git w m).0 in
        (w' ≡ w)
        ⊎ ((trim_space m.branch ≡ []) × FastForwards n w')
        ⊎ ((trim_space m.branch ≢ []) × Creates n (trim_space m.branch) w')
  unfolding deliver deliver_to_new_branch
  deliver_writes_safely m = elim (Bool-cases (is_empty (trim_space m.branch))) [
    | inl blank ↦ ground (arith, base_writes m)
    | inr named ↦ ground (arith, branch_writes m (trim_space m.branch) (new_check m))
  ]
