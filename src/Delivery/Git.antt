-- ===== src/Delivery/Git.antt =====
-- internal/delivery/git.go: what a run of git is read as. The command itself is a parameter.
use duo.Prelude.{
  ℕ, Bool, true, false, ◌||◌, Option, none, some, List, [], ◌∷◌, ◌++◌, ◌==◌, ◌>>=◌, if◌then◌else◌,
}
use duo.Text.{Text, codes, text_eq, trim_space, is_blank}
use duo.Text.Split.{split, fields}

-- How a run of the command ended: `unstarted` is a command that could not be run.
pub data Exit : Type 0 where
  success unstarted : Exit
  code : ℕ → Exit

pub record Outcome : Type 0 where
  pub exit : Exit
  pub stdout : Text
  pub stderr : Text

-- The command `git -C dir args`, over the state of the repositories. `read` stands for the commands
-- that only read; `write` for `merge --ff-only`, `branch` and `push`, which leave a new state.
pub record Git (W : Type 0) : Type 0 where
  pub read : W → Text → List Text → Outcome
  pub write : W → Text → List Text → W × Outcome

-- `gitOutput`; `none` is an error.
unfoldable pub git_output : Outcome → Option Text
git_output o = elim o.exit [ Exit.success ↦ some o.stdout | _ ↦ none ]

-- An exit code 1 says no, and any other failure is an error.
yes_or_no : Exit → Option Bool
yes_or_no Exit.success = some true
yes_or_no Exit.unstarted = none
yes_or_no (Exit.code n) = if n == 1 then some false else none

branch_of : Outcome → Option Text
unfolding trim_space is_blank
branch_of o = elim o.exit [
  | Exit.success ↦ some (trim_space o.stdout)
  | _ ↦ if is_blank o.stderr then some [] else none
]

config_of : Outcome → Option Text
unfolding trim_space
config_of o = elim o.exit [
  | Exit.success ↦ some (trim_space o.stdout)
  | Exit.unstarted ↦ none
  | Exit.code n ↦ if n == 1 then some [] else none
]

presence : Exit → Option Bool
presence Exit.success = some true
presence Exit.unstarted = none
presence (Exit.code n) = if (n == 1) || (n == 128) then some false else none

has_line : Text → List Text → Bool
unfolding trim_space text_eq
has_line name [] = false
has_line name (line ∷ lines) = text_eq (trim_space line) name || has_line name lines

-- The head in a line of `ls-remote`, if the line is about this ref.
abbrev head_in : Text → List Text → Option Text
head_in ref (head ∷ name ∷ more) =
    if text_eq (trim_space name) (trim_space ref) then some (trim_space head) else none
head_in ref _ = none

-- The first line about this ref; an empty head is none.
unfoldable pub listed_head : Text → List Text → Text
unfolding text_eq trim_space fields
listed_head ref [] = []
listed_head ref (line ∷ lines) =
    let rest = listed_head ref lines in
    elim (head_in ref (fields line)) [ some head ↦ head | none ↦ rest ]

-- The operations on one repository; `none` is an error throughout.
module _ {W : Type 0} (git : Git W) (w : W) (dir : Text) where
  unfoldable pub rev_parse : Text → Option Text
  unfolding git_output trim_space
  rev_parse ref = do
    out ←
        git_output
          (git.read w dir (codes "rev-parse" ∷ codes "--verify" ∷ (ref ++ codes "^{commit}") ∷ []))
    some (trim_space out)

  -- `currentBranch`: empty for a detached HEAD.
  unfoldable pub current_branch : Option Text
  unfolding branch_of
  current_branch =
      branch_of
        (git.read w dir (codes "symbolic-ref" ∷ codes "--short" ∷ codes "-q" ∷ codes "HEAD" ∷ []))

  -- `git status --porcelain`.
  unfoldable pub status : Option Text
  unfolding git_output
  status = git_output (git.read w dir (codes "status" ∷ codes "--porcelain" ∷ []))

  unfoldable pub is_ancestor : Text → Text → Option Bool
  unfolding yes_or_no
  is_ancestor ancestor descendant =
      yes_or_no
        (git.read w dir
          (codes "merge-base" ∷ codes "--is-ancestor" ∷ ancestor ∷ descendant ∷ [])).exit

  unfoldable pub ref_exists : Text → Option Bool
  unfolding yes_or_no
  ref_exists ref =
      yes_or_no
        (git.read w dir (codes "rev-parse" ∷ codes "--verify" ∷ codes "--quiet" ∷ ref ∷ [])).exit

  unfoldable pub git_config : Text → Option Text
  unfolding config_of
  git_config key = config_of (git.read w dir (codes "config" ∷ codes "--get" ∷ key ∷ []))

  unfoldable pub remote_exists : Text → Option Bool
  unfolding git_output has_line split
  remote_exists remote = do
    out ← git_output (git.read w dir (codes "remote" ∷ []))
    some (has_line remote (split 10 out))

  unfoldable pub ls_remote : Text → Text → Option Text
  unfolding git_output listed_head split
  ls_remote remote ref = do
    out ← git_output (git.read w dir (codes "ls-remote" ∷ codes "--heads" ∷ remote ∷ ref ∷ []))
    some (listed_head ref (split 10 out))

  unfoldable pub object_present : Text → Option Bool
  unfolding presence
  object_present sha =
      presence
        (git.read w dir (codes "cat-file" ∷ codes "-e" ∷ (sha ++ codes "^{commit}") ∷ [])).exit

  -- A command that writes: the state it leaves, and whether it succeeded.
  run : List Text → W × Option Text
  unfolding git_output
  run args = let (w', o) = git.write w dir args in (w', git_output o)

  unfoldable pub fast_forward : Text → W × Option Text
  unfolding run
  fast_forward target = run (codes "merge" ∷ codes "--ff-only" ∷ target ∷ [])

  -- `git branch name head`.
  unfoldable pub create_branch : Text → Text → W × Option Text
  unfolding run
  create_branch name head = run (codes "branch" ∷ name ∷ head ∷ [])

  -- `git push remote head:ref`.
  unfoldable pub push_ref : Text → Text → Text → W × Option Text
  unfolding run
  push_ref remote head ref = run (codes "push" ∷ remote ∷ (head ++ codes ":" ++ ref) ∷ [])
