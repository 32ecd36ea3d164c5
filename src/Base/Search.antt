-- ===== src/Base/Search.antt =====
-- `str::contains`, `to_ascii_lowercase` and `trim`, with what the error classifier relies on.
use Prim.Native.Nat.{ℕ, ◌+◌}
use mathlib.Core.Path.{◌≡◌, refl}
use mathlib.Core.Bool.{Bool, true, false, ◌&&◌}
use mathlib.Core.List.{[], ◌∷◌, ◌++◌, reverse, map}
use native.Mathlib.Omega.{arith}
use s3_pulse.Base.Tests.{leb, ◌==◌, if◌then◌else◌}
use s3_pulse.Base.Text.{Text, is_whitespace}

-- `str::starts_with`.
abbrev pub starts_with : Text → Text → Bool
starts_with [] s = true
starts_with (p ∷ ps) [] = false
starts_with (p ∷ ps) (c ∷ s) = if p == c then starts_with ps s else false

-- `haystack.contains(needle)`.
abbrev pub has_infix : Text → Text → Bool
has_infix needle [] = starts_with needle []
has_infix needle (c ∷ s) = if starts_with needle (c ∷ s) then true else has_infix needle s

-- `str::to_ascii_lowercase`.
abbrev pub lower_char : ℕ → ℕ
lower_char c = if leb b'A' c && leb c b'Z' then c + 32 else c

abbrev pub lower : Text → Text
lower = map lower_char

abbrev pub trim_start : Text → Text
trim_start [] = []
trim_start (c ∷ s) = if is_whitespace c then trim_start s else c ∷ s

abbrev pub trim : Text → Text
trim s = reverse (trim_start (reverse (trim_start s)))

pub starts_with-append : (p s t : Text) → starts_with p s ≡ true → starts_with p (s ++ t) ≡ true
starts_with-append [] s t h = refl
starts_with-append (p ∷ ps) [] t h = cc
starts_with-append (p ∷ ps) (c ∷ s) t h = ground (arith, starts_with-append ps s t)

pub starts_with_self : (p t : Text) → starts_with p (p ++ t) ≡ true
starts_with_self [] t = refl
starts_with_self (c ∷ p) t = ground (arith, starts_with_self p t)

starts_with-has_infix : (p s : Text) → starts_with p s ≡ true → has_infix p s ≡ true
starts_with-has_infix p [] h = h
starts_with-has_infix p (c ∷ s) h = rw h

pub has_infix-append_left : (p s t : Text) → has_infix p s ≡ true → has_infix p (s ++ t) ≡ true
has_infix-append_left p [] t h = starts_with-has_infix p t (starts_with-append p [] t h)
has_infix-append_left p (c ∷ s) t h =
    ground (arith, starts_with-append p (c ∷ s) t, has_infix-append_left p s t)

pub has_infix-append_right : (p s t : Text) → has_infix p t ≡ true → has_infix p (s ++ t) ≡ true
has_infix-append_right p [] t h = h
has_infix-append_right p (c ∷ s) t h = ground (arith, has_infix-append_right p s t h)

pub has_infix_self : (p t : Text) → has_infix p (p ++ t) ≡ true
has_infix_self p t = starts_with-has_infix p (p ++ t) (starts_with_self p t)
