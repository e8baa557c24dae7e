-- ===== src/Project/Laws/Modes.antt =====
-- internal/project/mode.go: the words for the modes.
use duo.Prelude.{◌≡◌, refl, true, some, arith}
use duo.Text.{Text, is_space}
use duo.Project.Mode.{Mode, normalize, parse_mode, mode_string, mode_of}
use duo.Project.Switch.{is_known_mode}

known_words :
    (m : Mode)
    → is_known_mode m ≡ true
    → (parse_mode (mode_string m) ≡ some m) × (normalize m ≡ m) × (mode_of (mode_string m) ≡ m)
unfolding parse_mode mode_string normalize mode_of is_space
known_words Mode.fast h = (refl, refl, refl)
known_words Mode.goal h = (refl, refl, refl)
known_words Mode.step h = (refl, refl, refl)
known_words Mode.loop h = (refl, refl, refl)
known_words (Mode.other t) h = cc

parse_mode_known : (t : Text) (m : Mode) → parse_mode t ≡ some m → is_known_mode m ≡ true
unfolding parse_mode
parse_mode_known t m e = ground arith

-- A mode that `ParseMode` reads from any text is one of the four; its word is read back as the same
-- mode by `ParseMode` and by the conversion, and `Normalize` keeps it.
pub parse_mode-mode_string :
    (t : Text) (m : Mode)
    → parse_mode t ≡ some m
    → (is_known_mode m ≡ true)
      × (parse_mode (mode_string m) ≡ some m)
      × (normalize m ≡ m)
      × (mode_of (mode_string m) ≡ m)
parse_mode-mode_string t m e =
    let known = parse_mode_known t m e in
    let (parsed, kept, converted) = known_words m known in (known, parsed, kept, converted)
