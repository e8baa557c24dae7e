-- ===== src/Delivery/Check.antt =====
-- internal/delivery/delivery.go: Manager, Check and the checks before a delivery.
use duo.Prelude.{Bool, true, false, not, Option, none, some, [], ◌>>=◌, if◌then◌else◌, is_empty}
use duo.Text.{Text, codes, text_eq, trim_space, is_blank}
use duo.Delivery.Git.{Git, rev_parse, current_branch, status, is_ancestor}

pub record Manager : Type 0 where
  pub repository : Text
  pub base_branch : Text
  pub base_commit : Text
  pub final_branch : Text
  pub final_head : Text
  pub branch : Text

-- Why a delivery is refused, one constructor for each text.
pub data Refusal : Type 0 where
  diverged not_derived detached_head unknown_base_branch other_branch uncommitted_changes : Refusal
  names_base_branch invalid_branch branch_exists : Refusal

pub record Check : Type 0 where
  pub repository : Text
  pub current_branch : Text
  pub current_head : Text
  pub base_branch : Text
  pub base_commit : Text
  pub final_head : Text
  pub clean : Bool
  pub detached : Bool
  pub already_applied : Bool
  pub can_fast_forward : Bool
  pub reason : Option Refusal

-- What both ways of delivery start from: the manager's fields, trimmed.
unfoldable pub new_check : Manager → Check
unfolding trim_space
new_check m = record {
  repository = trim_space m.repository;
  current_branch = [];
  current_head = [];
  base_branch = trim_space m.base_branch;
  base_commit = trim_space m.base_commit;
  final_head = trim_space m.final_head;
  clean = false;
  detached = false;
  already_applied = false;
  can_fast_forward = false;
  reason = none;
}

-- The final switch of `Manager.Check`; `none` allows the fast-forward.
unfoldable pub refusal : Check → Bool → Bool → Option Refusal
unfolding text_eq
refusal c ancestor base_ancestor =
    if not ancestor
    then some Refusal.diverged
    else if not base_ancestor
    then some Refusal.not_derived
    else if c.detached
    then some Refusal.detached_head
    else if is_empty c.base_branch
    then some Refusal.unknown_base_branch
    else if not (text_eq c.current_branch c.base_branch)
    then some Refusal.other_branch
    else if not c.clean
    then some Refusal.uncommitted_changes
    else none

-- The check as the switch leaves it.
abbrev pub decide : Check → Bool → Bool → Check
unfolding refusal
decide c ancestor base_ancestor = elim (refusal c ancestor base_ancestor) [
  | none ↦ record c { can_fast_forward = true }
  | some r ↦ record c { reason = some r }
]

module _ {W : Type 0} (git : Git W) (w : W) where
  -- Without a base commit any final head is derived from it.
  unfoldable pub from_base : Text → Text → Text → Option Bool
  from_base dir base final = if is_empty base then some true else is_ancestor git w dir base final

  -- What is read of the checkout.
  unfoldable pub inspect : Check → Option Check
  unfolding is_blank
  inspect c = do
    head ← rev_parse git w c.repository (codes "HEAD")
    branch ← current_branch git w c.repository
    porcelain ← status git w c.repository
    some (record c {
      current_head = head;
      detached = is_empty branch;
      current_branch = if is_empty branch then codes "(detached)" else branch;
      clean = is_blank porcelain;
    })

  -- The final head is not part of the current history.
  unfoldable pub relate : Check → Option Check
  unfolding decide from_base
  relate c = do
    ancestor ← is_ancestor git w c.repository c.current_head c.final_head
    base_ancestor ← from_base c.repository c.base_commit c.final_head
    some (decide c ancestor base_ancestor)

  -- What is read of the history.
  unfoldable pub compare : Check → Option Check
  unfolding relate
  compare c = do
    applied ← is_ancestor git w c.repository c.final_head c.current_head
    if applied then some (record c { already_applied = true }) else relate c

  -- `Manager.Check`; `none` is an error, whose partial check no caller reads.
  unfoldable pub check : Manager → Option Check
  unfolding new_check inspect compare
  check m =
      let c = new_check m in
      if is_empty c.repository
      then none
      else if is_empty c.final_head
      then none
      else (inspect c >>= compare)
