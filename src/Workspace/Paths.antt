-- ===== src/Workspace/Paths.antt =====
-- Go's `path/filepath` on Unix, as internal/workspace/discard.go uses it: Clean, Dir, Join and Rel, and
-- the test that a path is strictly inside another.
use duo.Prelude.{
  Bool, true, false, not, ◌&&◌, ◌||◌, Option, none, some, List, [], ◌∷◌, ◌++◌, if◌then◌else◌,
  is_empty,
}
use duo.Text.{Text, codes, text_eq}
use duo.Text.Split.{split, has_prefix}

-- A cleaned path: whether it starts at the root, and its elements. No element is empty, a dot, or holds
-- a slash, so the path's text and this record say the same.
pub record FilePath : Type 0 where
  pub rooted : Bool
  pub parts : List Text

abbrev same_parts : List Text → List Text → Bool
same_parts [] [] = true
same_parts (p ∷ ps) (q ∷ qs) = text_eq p q && same_parts ps qs
same_parts _ _ = false

abbrev pub same_path : FilePath → FilePath → Bool
same_path p q = (if p.rooted then q.rooted else not q.rooted) && same_parts p.parts q.parts

abbrev pub is_up : Text → Bool
is_up part = text_eq part (codes "..")

-- One element further; the elements so far are listed from the last one on.
abbrev enter : Bool → List Text → Text → List Text
enter rooted [] part =
    if is_empty part || text_eq part (codes ".")
    then []
    else if is_up part && rooted
    then []
    else part ∷ []
enter rooted (q ∷ qs) part =
    if is_empty part || text_eq part (codes ".")
    then q ∷ qs
    else if not (is_up part) || is_up q
    then part ∷ q ∷ qs
    else qs

abbrev onto : List Text → List Text → List Text
onto [] acc = acc
onto (p ∷ ps) acc = onto ps (p ∷ acc)

abbrev walk : Bool → List Text → List Text → List Text
walk rooted acc [] = onto acc []
walk rooted acc (part ∷ parts) = walk rooted (enter rooted acc part) parts

abbrev drop_last : List Text → List Text
drop_last [] = []
drop_last (p ∷ []) = []
drop_last (p ∷ q ∷ qs) = p ∷ drop_last (q ∷ qs)

-- `filepath.Clean`.
unfoldable pub clean : Text → FilePath
unfolding text_eq split has_prefix
clean path =
    let rooted = has_prefix (codes "/") path in
    record { rooted = rooted; parts = walk rooted [] (split 47 path) }

-- `filepath.Dir`.
unfoldable pub dir : Text → FilePath
unfolding text_eq split has_prefix
dir path =
    let rooted = has_prefix (codes "/") path in
    record { rooted = rooted; parts = walk rooted [] (drop_last (split 47 path)) }

-- `filepath.Dir` of a cleaned path.
unfoldable pub parent : FilePath → FilePath
parent p = record p { parts = drop_last p.parts }

-- `filepath.Join(home, ".duo", "worktrees")`.
unfoldable pub worktrees_base : Text → FilePath
unfolding clean
worktrees_base home =
    if is_empty home
    then clean (codes ".duo/worktrees")
    else clean (home ++ codes "/.duo/worktrees")

-- `filepath.Rel`: the way up from what is left of the base, and down what is left of the target.
abbrev pub climb : List Text → List Text → Option (List Text)
climb [] ts = some ts
climb (b ∷ bs) ts =
    if is_up b
    then none
    else elim (climb bs ts) [ some way ↦ some (codes ".." ∷ way) | none ↦ none ]

unfoldable pub relative : List Text → List Text → Option (List Text)
unfolding text_eq
relative [] ts = some ts
relative (b ∷ bs) [] = climb (b ∷ bs) []
relative (b ∷ bs) (t ∷ ts) =
    let rest = relative bs ts in if text_eq b t then rest else climb (b ∷ bs) (t ∷ ts)

unfoldable pub rel : FilePath → FilePath → Option (List Text)
unfolding relative
rel base target =
    if (if base.rooted then target.rooted else not target.rooted)
    then relative base.parts target.parts
    else none

abbrev pub goes_down : Option (List Text) → Bool
goes_down none = false
goes_down (some []) = false
goes_down (some (p ∷ ps)) = not (is_up p)

-- `safeWorktreeSubdir`, of cleaned paths: neither text is empty.
unfoldable pub safe_worktree_subdir : FilePath → FilePath → Bool
unfolding text_eq rel
safe_worktree_subdir path base = not (same_path path base) && goes_down (rel base path)
