-- ===== src/Delivery/Deliver.antt =====
-- internal/delivery/delivery.go: Deliver and deliverToNewBranch.
use duo.Prelude.{
  Bool, true, false, not, Option, none, some, List, [], ◌∷◌, ◌++◌, ◌>>=◌, if◌then◌else◌, is_empty,
}
use duo.Text.{Text, codes, text_eq, trim_space}
use duo.Text.Split.{has_prefix}
use duo.Delivery.Git.{Git, git_output, rev_parse, ref_exists, fast_forward, create_branch}
use duo.Delivery.Check.{Manager, Check, Refusal, new_check, check, from_base}
use duo.Delivery.Changes.{Change, changed_paths, or_no_changes}

-- `Result`; the error that may come with it is the `none` around it.
pub record Delivered : Type 0 where
  pub check : Check
  pub applied : Bool
  pub changes : List Change

-- A delivery that is refused for a reason.
abbrev pub refused : Check → Delivered
refused c = record { check = c; applied = false; changes = [] }

abbrev pub refuse : Refusal → Check → Delivered
refuse r c = refused (record c { reason = some r })

abbrev pub heads : Text → Text
heads branch = codes "refs/heads/" ++ branch

module _ {W : Type 0} (git : Git W) where
  abbrev pub done : W → Manager → Check → Delivered
  unfolding changed_paths
  done w m c = record { check = c; applied = true; changes = or_no_changes (changed_paths git w m) }

  -- The check of HEAD after the fast-forward.
  unfoldable pub confirm : W → Manager → Check → Option Delivered
  unfolding done text_eq
  confirm w m c = do
    head ← rev_parse git w c.repository (codes "HEAD")
    if text_eq head c.final_head then some (done w m (record c { current_head = head })) else none

  -- The fast-forward, and what is read of it.
  unfoldable pub advance : W → Manager → Check → W × Option Delivered
  unfolding confirm
  advance w m c =
      let (w', out) = fast_forward git w c.repository c.final_head in
      (w', elim out [ none ↦ none | some _ ↦ confirm w' m c ])

  -- `Deliver` without a branch name.
  unfoldable pub deliver_to_base : W → Manager → W × Option Delivered
  unfolding advance done
  deliver_to_base w m = elim (check git w m) [
    | none ↦ (w, none)
    | some c ↦
        if c.already_applied
        then (w, some (done w m c))
        else if not c.can_fast_forward
        then (w, some (refused c))
        else advance w m c
  ]

  -- `validBranchName`.
  unfoldable pub valid_branch_name : W → Text → Text → Bool
  unfolding git_output has_prefix
  valid_branch_name w dir branch =
      if is_empty branch
      then false
      else if has_prefix branch (codes "-")
      then false
      else elim (git_output (git.read w dir (codes "check-ref-format" ∷ heads branch ∷ []))) [
        | none ↦ false
        | some _ ↦ true
      ]

  -- The end of a delivery to a branch that is at the final head.
  abbrev pub land : W → Manager → Check → Delivered
  unfolding done
  land w m c = done w m (record c { current_head = c.final_head })

  -- The branch does not exist: it is created and read back.
  unfoldable pub create : W → Manager → Text → Check → W × Option Delivered
  unfolding land text_eq
  create w m branch c =
      let (w', out) = create_branch git w c.repository branch c.final_head in
      (
        w',
        elim out [
          | none ↦ none
          | some _ ↦ do
            head ← rev_parse git w' c.repository (heads branch)
            if text_eq head c.final_head then some (land w' m c) else none
        ],
      )

  -- The branch exists: it is at the final head already, or it is refused.
  unfoldable pub keep : W → Manager → Text → Check → Option Delivered
  unfolding land text_eq
  keep w m branch c = do
    head ← rev_parse git w c.repository (heads branch)
    if text_eq head c.final_head
        then some (land w m (record c { already_applied = true }))
        else some (refuse Refusal.branch_exists c)

  -- From the final head, resolved, to the branch.
  unfoldable pub place : W → Manager → Text → Check → W × Option Delivered
  unfolding keep create
  place w m branch c = elim (ref_exists git w c.repository (heads branch)) [
    | none ↦ (w, none)
    | some exists ↦ if exists then (w, keep w m branch c) else create w m branch c
  ]

  -- The base commit is checked before the branch is looked at.
  unfoldable pub place_derived : W → Manager → Text → Check → W × Option Delivered
  unfolding place from_base
  place_derived w m branch c = elim (from_base git w c.repository c.base_commit c.final_head) [
    | none ↦ (w, none)
    | some derived ↦
        if not derived then (w, some (refuse Refusal.not_derived c)) else place w m branch c
  ]

  -- The body of `deliverToNewBranch`, from its first check on.
  unfoldable pub deliver_to_branch : W → Manager → Text → Check → W × Option Delivered
  unfolding place_derived text_eq valid_branch_name
  deliver_to_branch w m branch c =
      if is_empty c.repository
      then (w, none)
      else if is_empty c.final_head
      then (w, none)
      else if text_eq branch c.base_branch
      then (w, some (refuse Refusal.names_base_branch c))
      else if not (valid_branch_name w c.repository branch)
      then (w, some (refuse Refusal.invalid_branch c))
      else elim (rev_parse git w c.repository c.final_head) [
        | none ↦ (w, none)
        | some final ↦ place_derived w m branch (record c { final_head = final })
      ]

  unfoldable pub deliver_to_new_branch : W → Manager → Text → W × Option Delivered
  unfolding deliver_to_branch new_check
  deliver_to_new_branch w m branch = deliver_to_branch w m branch (new_check m)

  -- `Deliver`; `none` is an error. What was written stays written.
  unfoldable pub deliver : W → Manager → W × Option Delivered
  unfolding deliver_to_base deliver_to_new_branch trim_space
  deliver w m =
      let branch = trim_space m.branch in
      if is_empty branch then deliver_to_base w m else deliver_to_new_branch w m branch
