-- ===== src/Text/Decimal.antt =====
-- `strconv.FormatUint(n, 10)`, with the reading that undoes it.
use native.Mathlib.Nat.{pow-suc}
use duo.Prelude.{
  ℕ, zero, suc, ◌+◌, ◌-◌, ◌*◌, ◌/◌, ◌%◌, ◌^◌, ◌<◌, ◌≡◌, refl, ap, sym, ◌∙◌, ◌≢◌, [], ◌∷◌, ◌++◌, ltb,
  if◌then◌else◌, arith,
}
use duo.Text.{Text}

append_nonempty : (xs : Text) (c : ℕ) → xs ++ c ∷ [] ≢ []
append_nonempty [] c e = cc
append_nonempty (x ∷ xs) c e = cc

digits : ℕ → ℕ → Text
digits zero n = []
digits (suc fuel) n =
    let rest = digits fuel (n / 10) in
    if ltb n 10 then (48 + n) ∷ [] else rest ++ (48 + n % 10) ∷ []

-- A number below 10 ^ 20 has at most 20 digits; a uint64 is below it.
unfoldable pub format_uint : ℕ → Text
unfolding digits
format_uint n = digits 20 n

read_from : ℕ → Text → ℕ
read_from acc [] = acc
read_from acc (c ∷ cs) = read_from (acc * 10 + (c - 48)) cs

read_from-snoc :
    (acc c : ℕ) (cs : Text) → read_from acc (cs ++ c ∷ []) ≡ read_from acc cs * 10 + (c - 48)
unfolding read_from
read_from-snoc acc c [] = refl
read_from-snoc acc c (d ∷ cs) = read_from-snoc (acc * 10 + (d - 48)) c cs

read_from-digits : (fuel n : ℕ) → n < 10 ^ fuel → read_from 0 (digits fuel n) ≡ n
unfolding digits read_from
read_from-digits zero n h = omega arith
read_from-digits (suc fuel) n h =
    let smaller : n / 10 < 10 ^ fuel = omega (arith, pow-suc 10 fuel) in
    ground (
      arith,
      read_from-digits fuel (n / 10) smaller,
      read_from-snoc 0 (48 + n % 10) (digits fuel (n / 10)),
    )

-- Below 2 ^ 64 different numbers have different texts.
pub format_uint_injective :
    (m n : ℕ) → m < 10 ^ 20 → n < 10 ^ 20 → format_uint m ≡ format_uint n → m ≡ n
unfolding format_uint
format_uint_injective m n hm hn e =
    sym (read_from-digits 20 m hm) ∙ ap (read_from 0) e ∙ read_from-digits 20 n hn

digits_nonempty : (fuel n : ℕ) → digits (suc fuel) n ≢ []
unfolding digits
digits_nonempty fuel n e = ground (arith, append_nonempty (digits fuel (n / 10)) (48 + n % 10))

pub format_uint_nonempty : (n : ℕ) → format_uint n ≢ []
unfolding format_uint
format_uint_nonempty n = digits_nonempty 19 n
