-- ===== src/Text/Split.antt =====
-- Go's `strings` on separators and affixes: Split, Fields, HasPrefix, TrimPrefix, and TrimRight of one
-- character.
use duo.Prelude.{
  ℕ, ◌≡◌, refl, arith, ◌++◌, Bool, true, false, ◌&&◌, ◌||◌, List, [], ◌∷◌, ◌==◌, if◌then◌else◌,
  is_empty,
}
use duo.Text.{Text, is_space}

abbrev pub cons_head : ℕ → List Text → List Text
cons_head c [] = (c ∷ []) ∷ []
cons_head c (line ∷ lines) = (c ∷ line) ∷ lines

-- `strings.Split(t, sep)` for a separator of one character.
unfoldable pub split : ℕ → Text → List Text
split sep [] = [] ∷ []
split sep (c ∷ cs) = let rest = split sep cs in if c == sep then [] ∷ rest else cons_head c rest

abbrev pub has_char : ℕ → Text → Bool
has_char sep [] = false
has_char sep (c ∷ cs) = (c == sep) || has_char sep cs

pub split-break :
    (sep : ℕ) (t rest : Text)
    → has_char sep t ≡ false
    → split sep (t ++ sep ∷ rest) ≡ t ∷ split sep rest
unfolding split
split-break sep [] rest h = ground arith
split-break sep (c ∷ cs) rest h = ground (arith, split-break sep cs rest)

pub split-last : (sep : ℕ) (t : Text) → has_char sep t ≡ false → split sep t ≡ t ∷ []
unfolding split
split-last sep [] h = refl
split-last sep (c ∷ cs) h = ground (arith, split-last sep cs)

-- The pieces between single spaces, some of them empty.
split_spaces : Text → List Text
split_spaces [] = [] ∷ []
split_spaces (c ∷ cs) =
    let rest = split_spaces cs in if is_space c then [] ∷ rest else cons_head c rest

drop_empty : List Text → List Text
drop_empty [] = []
drop_empty (t ∷ ts) = let rest = drop_empty ts in if is_empty t then rest else t ∷ rest

-- `strings.Fields`.
unfoldable pub fields : Text → List Text
unfolding split_spaces drop_empty
fields t = drop_empty (split_spaces t)

unfoldable pub has_prefix : Text → Text → Bool
has_prefix t [] = true
has_prefix [] (p ∷ ps) = false
has_prefix (c ∷ cs) (p ∷ ps) = (c == p) && has_prefix cs ps

abbrev drop_prefix : Text → Text → Text
drop_prefix t [] = t
drop_prefix [] (p ∷ ps) = []
drop_prefix (c ∷ cs) (p ∷ ps) = drop_prefix cs ps

unfoldable pub trim_prefix : Text → Text → Text
unfolding has_prefix
trim_prefix t prefix = if has_prefix t prefix then drop_prefix t prefix else t

-- `strings.TrimRight(t, c)`.
unfoldable pub trim_end : ℕ → Text → Text
trim_end c [] = []
trim_end c (d ∷ ds) = let rest = trim_end c ds in if (d == c) && is_empty rest then [] else d ∷ rest
