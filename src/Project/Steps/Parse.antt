-- ===== src/Project/Steps/Parse.antt =====
-- internal/project/steps.go, ParseSteps: a Markdown checkbox list read into a queue. The two regular
-- expressions are written out as matchers.
use duo.Prelude.{
  ℕ, ◌+◌, Bool, ◌&&◌, ◌||◌, Option, none, some, List, [], ◌∷◌, ◌==◌, if◌then◌else◌, is_empty,
}
use duo.Text.{Text, codes, trim_space, to_lower}
use duo.Text.Split.{split}
use duo.Project.Mode.{Mode, mode_of}
use duo.Project.Verification.{no_verification}
use duo.Project.Steps.{Step, Steps}

-- `strings.Split(list, "\n")`.
unfoldable pub split_lines : Text → List Text
unfolding split
split_lines list = split 10 list

-- `checkboxLine` on a trimmed line: the mark between the brackets, and the title.
unfoldable pub match_checkbox : Text → Option (ℕ × Text)
match_checkbox (bullet ∷ s ∷ o ∷ mark ∷ c ∷ s' ∷ title) =
    if ((bullet == b'-') || ((bullet == b'*') || (bullet == b'+')))
      && ((s == b' ')
          && ((o == b'[')
              && ((c == b']')
                  && ((s' == b' ') && ((mark == b' ') || ((mark == b'x') || (mark == b'X')))))))
    then some (mark, title)
    else none
match_checkbox _ = none

-- A letter under `(?i)`; the only other folding of a letter of the keywords is the long s.
fold_eq : ℕ → ℕ → Bool
fold_eq k c = (c == k) || ((c + 32 == k) || ((k == b's') && (c == 0x17f)))

take_word : Text → Text → Option (Text × Text)
unfolding fold_eq
take_word [] t = some ([], t)
take_word (k ∷ ks) [] = none
take_word (k ∷ ks) (c ∷ cs) =
    let rest = take_word ks cs in
    if fold_eq k c then elim rest [ none ↦ none | some (w, t) ↦ some (c ∷ w, t) ] else none

-- `(fast|goal)`.
take_policy : Text → Option (Text × Text)
unfolding take_word
take_policy t = elim (take_word (codes "fast") t) [
  | none ↦ take_word (codes "goal") t
  | some found ↦ some found
]

-- `\s` of the regular expressions, which is ASCII.
is_re_space : ℕ → Bool
is_re_space c = (c == 9) || ((c == 10) || ((c == 12) || ((c == 13) || (c == 32))))

skip_spaces : Text → Text
unfolding is_re_space
skip_spaces [] = []
skip_spaces (c ∷ cs) = if is_re_space c then skip_spaces cs else c ∷ cs

-- A tag that has been read, then the character `close` and `\s+`.
close_tag : ℕ → Text → Text → Option (Text × Text)
unfolding is_re_space skip_spaces
close_tag close tag (c ∷ s ∷ rest) =
    if (c == close) && is_re_space s then some (tag, skip_spaces rest) else none
close_tag close tag _ = none

-- `stepPolicyPrefix`: the tag, and what follows the match.
unfoldable pub match_policy : Text → Option (Text × Text)
unfolding take_policy close_tag skip_spaces
match_policy [] = none
match_policy (c ∷ cs) =
    if c == b'['
    then elim (take_policy cs) [ none ↦ none | some (tag, t) ↦ close_tag b']' tag t ]
    else if c == b'('
    then elim (take_policy cs) [ none ↦ none | some (tag, t) ↦ close_tag b')' tag t ]
    else elim (take_policy (c ∷ cs)) [
      | none ↦ none
      | some (tag, t) ↦ close_tag b':' tag (skip_spaces t)
    ]

-- `Step{Title: title, Policy: policy, Done: done}`.
abbrev pub new_step : Text → Mode → Bool → Step
new_step title policy done = record {
  title = title;
  done = done;
  policy = policy;
  head = codes "";
  verification = no_verification;
  delivery_head = codes "";
  delivered_at = codes "";
}

-- A title with its policy tag taken off, and the policy.
unfoldable pub split_policy : Text → Text × Mode
unfolding match_policy trim_space to_lower mode_of
split_policy title = elim (match_policy title) [
  | none ↦ (title, Mode.fast)
  | some (tag, rest) ↦ (trim_space rest, mode_of (to_lower tag))
]

-- One round of the loop: the step of a line, if it is one.
unfoldable pub parse_line : Text → Option Step
unfolding match_checkbox trim_space split_policy
parse_line line = elim (match_checkbox (trim_space line)) [
  | none ↦ none
  | some (mark, text) ↦
      let (title, policy) = split_policy (trim_space text) in
      if is_empty title
      then none
      else some (new_step title policy ((mark == b'x') || (mark == b'X')))
]

unfoldable pub parse_lines : List Text → Steps
unfolding parse_line
parse_lines [] = []
parse_lines (line ∷ lines) =
    let rest = parse_lines lines in elim (parse_line line) [ none ↦ rest | some st ↦ st ∷ rest ]

unfoldable pub parse_steps : Text → Steps
unfolding parse_lines split_lines
parse_steps list = parse_lines (split_lines list)
