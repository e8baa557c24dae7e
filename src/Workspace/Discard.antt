-- ===== src/Workspace/Discard.antt =====
-- internal/workspace/discard.go, and discardUnstarted of internal/session/service.go. What git answers
-- is a parameter; what a teardown does to the disk is a list of actions.
use duo.Prelude.{Bool, not, ◌||◌, Option, none, some, List, [], ◌∷◌, ◌++◌, if◌then◌else◌, is_empty}
use duo.Text.{Text, codes, text_eq, trim_space, is_blank}
use duo.Project.Snapshot.{Snapshot}
use duo.Store.Record.{Worktree}
use duo.Workspace.Paths.{FilePath, dir, parent, worktrees_base, safe_worktree_subdir}

-- `Set`, less what its removal does not read.
pub record Set : Type 0 where
  pub repository : Text
  pub base_commit : Text
  pub session : Text
  pub austin : Worktree
  pub tony : Worktree

-- `gitOutput`: the output of `git -C dir args`, or `none` for an error.
abbrev pub Git : Type 0
Git = Text → List Text → Option Text

-- The results of `CarriesWork`: (false, nil), (true, nil), and (true, err).
pub data Work : Type 0 where
  nothing carried unreadable : Work

-- Commits on top of the base.
unfoldable pub commits_at : Git → Text → Text → Work
unfolding text_eq trim_space is_blank
commits_at git base path = elim (git path (codes "rev-parse" ∷ codes "HEAD" ∷ [])) [
  | none ↦ Work.unreadable
  | some head ↦
      if is_blank head
      then Work.carried
      else if text_eq (trim_space head) base
      then Work.nothing
      else elim (git path (codes "rev-list" ∷ codes "--count" ∷ (base ++ codes "..HEAD") ∷ [])) [
        | none ↦ Work.unreadable
        | some ahead ↦ if text_eq (trim_space ahead) (codes "0") then Work.nothing else Work.carried
      ]
]

unfoldable pub work_at : Git → Text → Worktree → Work
unfolding commits_at is_blank
work_at git base wt =
    if is_blank wt.path
    then Work.nothing
    else elim (git wt.path (codes "status" ∷ codes "--porcelain" ∷ [])) [
      | none ↦ Work.unreadable
      | some dirty ↦
          if not (is_blank dirty)
          then Work.carried
          else if is_empty base
          then Work.nothing
          else commits_at git base wt.path
    ]

unfoldable pub carries_work : Git → Set → Work
unfolding work_at trim_space
carries_work git s = elim (work_at git (trim_space s.base_commit) s.austin) [
  | Work.nothing ↦ work_at git (trim_space s.base_commit) s.tony
  | w ↦ w
]

-- What the end of a session does on disk.
pub data Action : Type 0 where
  write_recall_note remove_transcripts prune_worktrees remove_record : Action
  remove_worktree delete_branch : Text → Action
  remove_tree remove_directory : FilePath → Action

unfoldable pub removed_worktree : Worktree → List Action
removed_worktree wt = if is_empty wt.path then [] else Action.remove_worktree wt.path ∷ []

unfoldable pub deleted_branch : Worktree → List Action
unfolding is_blank
deleted_branch wt = if is_blank wt.branch then [] else Action.delete_branch wt.branch ∷ []

-- What git is asked for, if there is a repository.
unfoldable pub git_actions : Set → List Action
unfolding removed_worktree deleted_branch is_blank
git_actions s =
    if is_blank s.repository
    then []
    else removed_worktree s.austin
      ++ (removed_worktree s.tony
          ++ Action.prune_worktrees ∷ (deleted_branch s.austin ++ deleted_branch s.tony))

-- The directory that holds the worktrees of the session.
unfoldable pub session_dir : Set → Option FilePath
unfolding dir
session_dir s =
    if not (is_empty s.austin.path)
    then some (dir s.austin.path)
    else if not (is_empty s.tony.path)
    then some (dir s.tony.path)
    else none

unfoldable pub removed_dirs : FilePath → FilePath → List Action
unfolding safe_worktree_subdir parent
removed_dirs base d =
    if not (safe_worktree_subdir d base)
    then []
    else Action.remove_tree d
      ∷ (if safe_worktree_subdir (parent d) base
          then Action.remove_directory (parent d) ∷ []
          else [])

abbrev pub dir_actions : FilePath → Option FilePath → List Action
dir_actions base none = []
dir_actions base (some d) = removed_dirs base d

-- `Discard`; no action's failure stops it.
unfoldable pub discard : Text → Set → List Action
unfolding git_actions session_dir worktrees_base
discard home s = git_actions s ++ dir_actions (worktrees_base home) (session_dir s)

-- The session's record is removed last, if there is a store.
unfoldable pub removed_record : Bool → List Action
removed_record has_store = if has_store then Action.remove_record ∷ [] else []

abbrev pub teardown : Text → Bool → Set → Work → List Action
teardown home has_store s Work.nothing =
    Action.remove_transcripts ∷ (discard home s ++ removed_record has_store)
teardown home has_store s _ = []

-- `discardUnstarted`; the actions, none if the session is kept. A record that could not be removed is
-- logged.
unfoldable pub discard_unstarted : Git → Text → Bool → Option Snapshot → Set → List Action
unfolding carries_work
discard_unstarted git home has_store none s = []
discard_unstarted git home has_store (some snap) s =
    if is_empty s.session || snap.started
    then []
    else teardown home has_store s (carries_work git s)
