-- ===== src/Workspace/Inside.antt =====
-- What the end of a session reaches: closeLocked of internal/session/service.go, with Discard and
-- safeWorktreeSubdir of internal/workspace/discard.go.
use duo.Prelude.{◌≡◌, ◌⊎◌, false, List, [], ◌∷◌, ◌++◌, is_empty}
use duo.Text.{Text, is_blank}
use duo.Project.Snapshot.{Snapshot}
use duo.Workspace.Paths.{FilePath, is_up}
use duo.Workspace.Discard.{Set, Action}

-- The path extends the base by at least one element, the first of which does not lead up again.
abbrev pub IsInside : FilePath → FilePath → Type 0
IsInside base p =
    (p.rooted ≡ base.rooted)
    × ((x : Text) × (rest : List Text) × (p.parts ≡ base.parts ++ x ∷ rest) × (is_up x ≡ false))

-- What an action of the session's end may reach: a tree or a directory that Duo deletes itself is inside
-- the base, git is asked to remove only a worktree or a branch that the session has on record, and the
-- recall note, the session's transcripts and its record have places of their own.
abbrev pub IsAllowed : FilePath → Set → Action → Type 0
IsAllowed base s (Action.remove_tree p) = IsInside base p
IsAllowed base s (Action.remove_directory p) = IsInside base p
IsAllowed base s (Action.remove_worktree path) =
    (is_empty path ≡ false) × ((path ≡ s.austin.path) ⊎ (path ≡ s.tony.path))
IsAllowed base s (Action.delete_branch branch) =
    (is_blank branch ≡ false) × ((branch ≡ s.austin.branch) ⊎ (branch ≡ s.tony.branch))
IsAllowed base s _ = Unit

abbrev pub AreAllowed : FilePath → Set → List Action → Type 0
AreAllowed base s [] = Unit
AreAllowed base s (a ∷ actions) = IsAllowed base s a × AreAllowed base s actions

-- The path is below the base.
abbrev Extends : List Text → List Text → Type 0
Extends bs ts = (x : Text) × (rest : List Text) × (ts ≡ bs ++ x ∷ rest) × (is_up x ≡ false)
