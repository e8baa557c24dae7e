-- ===== src/Delivery/Listing.antt =====
-- The listing of changed files, read and rendered: internal/delivery/delivery.go, ChangedPaths and
-- Summary.
use duo.Prelude.{
  ℕ, ◌+◌, ◌≤◌, ◌<◌, ◌≡◌, ◌∙◌, ap, ◌⊎◌, refl, false, some, List, [], ◌∷◌, ◌++◌, arith, length,
  is_empty,
}
use duo.Text.{Text, trim_space}
use duo.Text.Split.{split, trim_end, has_char, split-break, split-last}
use duo.Delivery.Changes.{Change, change_of, changes_of, change_string, summary_lines}

-- A status and a path that `git diff --name-status` prints on one line, without a rename.
pub record IsChange (c : Change) : Type 0 where
  pub trimmed : trim_space c.status ≡ c.status
  pub one_field : has_char 9 c.status ≡ false
  pub one_line : has_char 10 c.status ≡ false
  pub plain_path : has_char 9 c.path ≡ false
  pub path_line : has_char 10 c.path ≡ false
  pub no_return : trim_end 13 c.path ≡ c.path

abbrev pub AllChanges : List Change → Type 0
AllChanges [] = Unit
AllChanges (c ∷ cs) = IsChange c × AllChanges cs

-- The output of the command.
abbrev pub listing : List Change → Text
unfolding change_string
listing [] = []
listing (c ∷ cs) = change_string c ++ 10 ∷ listing cs

has_char-append :
    (sep : ℕ) (s t : Text)
    → has_char sep s ≡ false
    → has_char sep t ≡ false
    → has_char sep (s ++ t) ≡ false
has_char-append sep [] t h g = g
has_char-append sep (c ∷ s) t h g = ground (arith, has_char-append sep s t)

append_nonempty : (s t : Text) (c : ℕ) → is_empty (s ++ c ∷ t) ≡ false
append_nonempty [] t c = refl
append_nonempty (x ∷ s) t c = refl

trim_end-tab : (s t : Text) → trim_end 13 t ≡ t → trim_end 13 (s ++ 9 ∷ t) ≡ s ++ 9 ∷ t
unfolding trim_end
trim_end-tab [] t h = ground arith
trim_end-tab (c ∷ s) t h = ground (arith, trim_end-tab s t h, append_nonempty s t 9)

read_line : (c : Change) → IsChange c → change_of (split 9 (trim_end 13 (change_string c))) ≡ some c
unfolding change_of change_string
read_line c h =
    rw
      (
        trim_end-tab c.status c.path h.no_return,
        split-break 9 c.status c.path h.one_field,
        split-last 9 c.path h.plain_path,
        h.trimmed,
      )
      refl

string_line : (c : Change) → IsChange c → has_char 10 (change_string c) ≡ false
unfolding change_string
string_line c h = has_char-append 10 c.status (9 ∷ c.path) h.one_line h.path_line

changes_cons :
    (line : Text) (lines : List Text) (c : Change)
    → change_of (split 9 (trim_end 13 line)) ≡ some c
    → changes_of (line ∷ lines) ≡ c ∷ changes_of lines
unfolding changes_of
changes_cons line lines c h = ground arith

-- What git lists as the status and path of each changed file, with none renamed, is read back in
-- order.
pub changes_of-listing :
    (cs : List Change) → AllChanges cs → changes_of (split 10 (listing cs)) ≡ cs
unfolding changes_of split change_of trim_end listing
changes_of-listing [] h = refl
changes_of-listing (c ∷ cs) h =
    ap changes_of (split-break 10 (change_string c) (listing cs) (string_line c h.0))
    ∙ changes_cons (change_string c) (split 10 (listing cs)) c (read_line c h.0)
    ∙ ap (λ rest. c ∷ rest) (changes_of-listing cs h.1)

lines_from :
    (i : ℕ) (cs : List Change)
    → i ≤ 20
    → ((i + length cs ≤ 20) × (length (summary_lines i cs) ≡ length cs))
      ⊎ ((20 < i + length cs) × (i + length (summary_lines i cs) ≡ 21))
unfolding summary_lines
lines_from i [] h = ground arith
lines_from i (c ∷ cs) h = ground (arith, lines_from (i + 1) cs)

-- The summary lists every change of up to 20; of more it has 21 lines, the last for those left out.
pub summary_is_short :
    (cs : List Change)
    → ((length cs ≤ 20) × (length (summary_lines 0 cs) ≡ length cs))
      ⊎ ((20 < length cs) × (length (summary_lines 0 cs) ≡ 21))
summary_is_short cs = ground (arith, lines_from 0 cs)
