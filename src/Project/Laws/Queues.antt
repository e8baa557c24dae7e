-- ===== src/Project/Laws/Queues.antt =====
-- Checkbox lists read into queues: internal/project/steps.go, ParseSteps.
use duo.Prelude.{◌≡◌, ◌≢◌, sym, ap, ◌∙◌, false, none, some, List, [], ◌∷◌, ◌++◌, map, arith}
use duo.Text.{Text, codes, is_space, trim_left, trim_right, trim_space}
use duo.Text.Split.{has_char, split-break}
use duo.Text.Laws.{trim_right_twice}
use duo.Project.Mode.{Mode}
use duo.Project.Steps.{Step}
use duo.Project.Steps.Parse.{
  new_step, split_lines, match_policy, split_policy, parse_line, parse_lines, parse_steps,
}

-- A title as it stands after a checkbox: trimmed, not empty, on one line, with no policy tag.
pub record IsTitle (t : Text) : Type 0 where
  pub trimmed : trim_space t ≡ t
  pub nonempty : t ≢ []
  pub one_line : has_char 10 t ≡ false
  pub untagged : match_policy t ≡ none

abbrev pub AllTitles : List Text → Type 0
AllTitles [] = Unit
AllTitles (t ∷ ts) = IsTitle t × AllTitles ts

-- A Markdown list with one unticked item for each title.
abbrev pub checklist : List Text → Text
checklist [] = []
checklist (t ∷ ts) = codes "- [ ] " ++ (t ++ 10 ∷ checklist ts)

split_lines-break :
    (t rest : Text) → has_char 10 t ≡ false → split_lines (t ++ 10 ∷ rest) ≡ t ∷ split_lines rest
unfolding split_lines
split_lines-break t rest h = split-break 10 t rest h

trim_right_lem : (t : Text) → trim_space t ≡ t → trim_right t ≡ t
unfolding trim_space
trim_right_lem t h = ap trim_right (sym h) ∙ trim_right_twice (trim_left t) ∙ h

split_policy_lem : (t : Text) → match_policy t ≡ none → split_policy t ≡ (t, Mode.fast)
unfolding split_policy
split_policy_lem t h = ground (arith, h)

parse_item :
    (t : Text) → IsTitle t → parse_line (codes "- [ ] " ++ t) ≡ some (new_step t Mode.fast false)
unfolding parse_line is_space trim_space
parse_item t h =
    ground (arith, trim_right_lem t h.trimmed, split_policy_lem t h.untagged, h.trimmed, h.nonempty)

parse_cons :
    (line : Text) (lines : List Text) (st : Step)
    → parse_line line ≡ some st
    → parse_lines (line ∷ lines) ≡ st ∷ parse_lines lines
unfolding parse_lines
parse_cons line lines st h = ground (arith, h)

-- A checkbox list of unticked items with untagged titles is read as the queue of open FAST steps with
-- these titles, in their order.
pub parse_steps-checklist :
    (ts : List Text)
    → AllTitles ts
    → parse_steps (checklist ts) ≡ map (λ t. new_step t Mode.fast false) ts
unfolding parse_steps
parse_steps-checklist [] h = ground arith
parse_steps-checklist (t ∷ ts) h =
    ap parse_lines (split_lines-break (codes "- [ ] " ++ t) (checklist ts) h.0.one_line)
    ∙ parse_cons (codes "- [ ] " ++ t) (split_lines (checklist ts)) (new_step t Mode.fast false)
        (parse_item t h.0)
    ∙ ap (λ q. new_step t Mode.fast false ∷ q) (parse_steps-checklist ts h.1)
