-- ===== src/Delivery/Push.antt =====
-- internal/delivery/delivery.go: CheckPush and Push.
use duo.Prelude.{
  Bool, true, false, ◌||◌, not, Option, none, some, [], ◌++◌, ◌>>=◌, if◌then◌else◌, is_empty,
}
use duo.Text.{Text, codes, text_eq, trim_space}
use duo.Text.Split.{trim_prefix}
use duo.Delivery.Git.{
  Git, git_config, remote_exists, ls_remote, object_present, is_ancestor, push_ref, rev_parse,
}

-- Why a push is refused, one constructor for each text.
pub data PushRefusal : Type 0 where
  no_upstream unknown_commits moved : PushRefusal

pub record PushCheck : Type 0 where
  pub repository : Text
  pub branch : Text
  pub remote : Text
  pub remote_ref : Text
  pub head : Text
  pub remote_head : Text
  pub can_push : Bool
  pub already_pushed : Bool
  pub reason : Option PushRefusal

unfoldable pub new_push : Text → Text → Text → PushCheck
unfolding trim_space
new_push repository branch head = record {
  repository = trim_space repository;
  branch = trim_space branch;
  remote = [];
  remote_ref = [];
  head = trim_space head;
  remote_head = [];
  can_push = false;
  already_pushed = false;
  reason = none;
}

-- `remoteRefName`.
unfoldable pub remote_ref_name : Text → Text → Text
unfolding trim_prefix trim_space
remote_ref_name remote ref =
    remote ++ codes "/" ++ trim_prefix (trim_space ref) (codes "refs/heads/")

module _ {W : Type 0} (git : Git W) (w : W) where
  -- The upstream of the branch, or origin under the branch's own name; `none` inside is neither.
  unfoldable pub upstream : Text → Text → Option (Option (Text × Text))
  upstream dir branch = do
    remote ← git_config git w dir (codes "branch." ++ branch ++ codes ".remote")
    ref ← git_config git w dir (codes "branch." ++ branch ++ codes ".merge")
    if is_empty remote || is_empty ref
        then (do
          origin ← remote_exists git w dir (codes "origin")
          some (if origin then some (codes "origin", codes "refs/heads/" ++ branch) else none))
        else some (some (remote, ref))

  -- This repository has the head of the remote branch.
  unfoldable pub compare_known : PushCheck → Option PushCheck
  compare_known c = do
    contained ← is_ancestor git w c.repository c.remote_head c.head
    some (
        if contained
        then record c { can_push = true }
        else record c { reason = some PushRefusal.moved })

  -- The remote branch has a head that is not the pushed one.
  unfoldable pub compare_remote : PushCheck → Option PushCheck
  unfolding compare_known
  compare_remote c = do
    present ← object_present git w c.repository c.remote_head
    if present
        then compare_known c
        else some (record c { reason = some PushRefusal.unknown_commits })

  -- The switch on the head of the remote branch.
  unfoldable pub judge_push : PushCheck → Option PushCheck
  unfolding compare_remote text_eq
  judge_push c =
      if is_empty c.remote_head
      then some (record c { can_push = true })
      else if text_eq c.remote_head c.head
      then some (record c { can_push = true; already_pushed = true })
      else compare_remote c

  unfoldable pub resolve_push : PushCheck → Option (Text × Text) → Option PushCheck
  unfolding judge_push
  resolve_push c none = some (record c { reason = some PushRefusal.no_upstream })
  resolve_push c (some (remote, ref)) = do
    remote_head ← ls_remote git w c.repository remote ref
    judge_push (record c { remote = remote; remote_ref = ref; remote_head = remote_head })

  -- `CheckPush`; `none` is an error.
  unfoldable pub check_push : Text → Text → Text → Option PushCheck
  unfolding new_push upstream resolve_push
  check_push repository branch head =
      let c = new_push repository branch head in
      if is_empty c.repository
      then none
      else if is_empty c.branch
      then none
      else if is_empty c.head
      then none
      else (upstream c.repository c.branch >>= resolve_push c)

  -- `Push`: the state it leaves, and whether it returns without an error.
  unfoldable pub push : PushCheck → W × Bool
  unfolding text_eq
  push c =
      if not c.can_push || c.already_pushed
      then (w, true)
      else (let (w', out) = push_ref git w c.repository c.remote c.head c.remote_ref in
          (
            w',
            elim out [
              | none ↦ false
              | some _ ↦ elim (ls_remote git w' c.repository c.remote c.remote_ref) [
                | none ↦ false
                | some remote_head ↦ text_eq remote_head c.head
              ]
            ],
          ))

  -- `BranchHead`.
  unfoldable pub branch_head : Text → Text → Option Text
  unfolding trim_space
  branch_head dir branch =
      if is_empty (trim_space branch)
      then none
      else rev_parse git w dir (codes "refs/heads/" ++ trim_space branch)
