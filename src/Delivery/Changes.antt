-- ===== src/Delivery/Changes.antt =====
-- internal/delivery/delivery.go: ChangedPaths and Summary.
use duo.Prelude.{
  ℕ, ◌+◌, ◌||◌, Option, none, some, List, [], ◌∷◌, ◌++◌, ◌==◌, ◌>>=◌, if◌then◌else◌, is_empty,
  length,
}
use duo.Text.{Text, codes, text_eq, trim_space}
use duo.Text.Split.{split, trim_end}
use duo.Text.Decimal.{format_uint}
use duo.Delivery.Git.{Git, git_output}
use duo.Delivery.Check.{Manager}

pub record Change : Type 0 where
  pub status : Text
  pub path : Text

-- `Change.String`.
unfoldable pub change_string : Change → Text
change_string c = c.status ++ 9 ∷ c.path

-- A line of `git diff --name-status`.
unfoldable pub change_of : List Text → Option Change
unfolding trim_space
change_of (status ∷ path ∷ []) = some (record { status = trim_space status; path = path })
change_of (status ∷ from ∷ to ∷ more) =
    some (record { status = trim_space status; path = from ++ codes " -> " ++ to })
change_of _ = none

unfoldable pub changes_of : List Text → List Change
unfolding change_of split trim_end
changes_of [] = []
changes_of (line ∷ lines) =
    let rest = changes_of lines in
    elim (change_of (split 9 (trim_end 13 line))) [ none ↦ rest | some change ↦ change ∷ rest ]

-- `ChangedPaths`; `none` is an error.
unfoldable pub changed_paths : {W : Type 0} → Git W → W → Manager → Option (List Change)
unfolding git_output changes_of split trim_space text_eq
changed_paths git w m =
    let base = trim_space m.base_commit in
    let final = trim_space m.final_head in
    if is_empty base || (is_empty final || text_eq base final) then some [] else (do
      out ← git_output (
          git.read w (trim_space m.repository)
            (codes "diff" ∷ codes "--name-status" ∷ base ∷ final ∷ []))
      some (changes_of (split 10 out)))

-- `result.Changes, _ = m.ChangedPaths(ctx)`.
abbrev pub or_no_changes : Option (List Change) → List Change
or_no_changes none = []
or_no_changes (some changes) = changes

-- The lines of `Summary` from index `i` on, with the last for what is left out after 20.
unfoldable pub summary_lines : ℕ → List Change → List Text
unfolding change_string format_uint
summary_lines i [] = []
summary_lines i (change ∷ rest) =
    let later = summary_lines (i + 1) rest in
    if i == 20
    then (codes "  … and " ++ format_uint (length (change ∷ rest)) ++ codes " more") ∷ []
    else (codes "  " ++ change_string change) ∷ later

join_lines : List Text → Text
join_lines [] = []
join_lines (line ∷ lines) = line ++ 10 ∷ join_lines lines

unfoldable pub summary : List Change → Text
unfolding summary_lines join_lines trim_end
summary [] = codes "  (no file changes relative to the recorded base commit)"
summary (change ∷ rest) = trim_end 10 (join_lines (summary_lines 0 (change ∷ rest)))
