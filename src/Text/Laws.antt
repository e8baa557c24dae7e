-- ===== src/Text/Laws.antt =====
-- Laws of text equality and of trimming.
use duo.Prelude.{◌≡◌, refl, true, [], ◌∷◌, arith}
use duo.Text.{Text, text_eq, trim_left, trim_right, trim_space, is_blank}

pub text_eq→eq : (s t : Text) → text_eq s t ≡ true → s ≡ t
unfolding text_eq
text_eq→eq [] [] h = refl
text_eq→eq [] (d ∷ ds) h = cc
text_eq→eq (c ∷ cs) [] h = cc
text_eq→eq (c ∷ cs) (d ∷ ds) h = ground (arith, text_eq→eq cs ds)

pub text_eq_refl : (t : Text) → text_eq t t ≡ true
unfolding text_eq
text_eq_refl [] = refl
text_eq_refl (c ∷ cs) = ground (arith, text_eq_refl cs)

pub trim_right_twice : (t : Text) → trim_right (trim_right t) ≡ trim_right t
unfolding trim_right
trim_right_twice [] = refl
trim_right_twice (c ∷ cs) = ground (arith, trim_right_twice cs)

-- Trimming on the right keeps a text that begins with no space that way.
trim_left-trim_right : (t : Text) → trim_left (trim_right (trim_left t)) ≡ trim_right (trim_left t)
unfolding trim_left trim_right
trim_left-trim_right [] = refl
trim_left-trim_right (c ∷ cs) = ground (arith, trim_left-trim_right cs)

pub trim_space_twice : (t : Text) → trim_space (trim_space t) ≡ trim_space t
unfolding trim_space
trim_space_twice t = ground (arith, trim_left-trim_right t, trim_right_twice (trim_left t))

pub is_blank-trim_space : (t : Text) → is_blank (trim_space t) ≡ is_blank t
unfolding is_blank
is_blank-trim_space t = ground (arith, trim_left-trim_right t, trim_right_twice (trim_left t))
