-- ===== src/Command/Terminal.antt =====
-- Keys on a terminal.
use s3_pulse.Base.{ℕ, true, false, ◌≡◌, refl, [], ◌∷◌, ◌++◌, any, arith, ◌<◌, ◌/◌, ◌%◌}
use s3_pulse.Base.Text.{Text, is_control}
use s3_pulse.Command.{hex_digit, escape_default, terminal_text}

no_control-append :
    (s t : Text)
    → any is_control s ≡ false
    → any is_control t ≡ false
    → any is_control (s ++ t) ≡ false
no_control-append [] t h k = k
no_control-append (c ∷ s) t h k = ground (arith, no_control-append s t)

hex_digit-printable : (d : ℕ) → d < 16 → is_control (hex_digit d) ≡ false
hex_digit-printable d h = ground arith

escape_default-printable : (c : ℕ) → is_control c ≡ true → any is_control (escape_default c) ≡ false
escape_default-printable c h =
    ground
      (arith, hex_digit-printable c, hex_digit-printable (c / 16), hex_digit-printable (c % 16))

no_control-terminal_text : (s : Text) → any is_control (terminal_text s) ≡ false
unfolding terminal_text
no_control-terminal_text [] = refl
no_control-terminal_text (c ∷ s) = ground (
  arith,
  escape_default-printable c,
  no_control-append (escape_default c) (terminal_text s),
  no_control-terminal_text s,
)

terminal_text_same : (s : Text) → any is_control s ≡ false → terminal_text s ≡ s
unfolding terminal_text
terminal_text_same [] h = refl
terminal_text_same (c ∷ s) h = ground (arith, terminal_text_same s)

-- What is printed of a key has no control character, and a key without one is printed as it is.
pub terminal_text-printable :
    (s : Text)
    → (any is_control (terminal_text s) ≡ false) × (any is_control s ≡ false → terminal_text s ≡ s)
terminal_text-printable s = (no_control-terminal_text s, terminal_text_same s)
