-- ===== src/Base/Digits.antt =====
-- Decimal numerals: `to_string` of an unsigned number, and zero padding to a width.
use Prim.Native.Nat.{ℕ, zero, suc, ◌+◌, ◌-◌, ◌/◌, ◌%◌, ◌≤◌, ◌<◌, ◌^◌}
use mathlib.Core.Path.{◌≡◌, refl}
use mathlib.Core.Bool.{true, false, ◌&&◌, Bool}
use mathlib.Core.Option.{Option, none, some}
use mathlib.Core.List.{[], ◌∷◌, ◌++◌}
use native.Mathlib.Omega.{arith}
use s3_pulse.Base.Tests.{ltb, leb, if◌then◌else◌}
use s3_pulse.Base.Lists.{length, length-append, all}
use s3_pulse.Base.Text.{Text}
use s3_pulse.Base.Int.{ℤ, pos, negsuc}

-- One digit for each unit of fuel; `n + 1` units are enough for `n`.
abbrev pub emit : ℕ → ℕ → Text → Text
emit zero n out = out
emit (suc fuel) n out = elim (ltb n 10) [
  | true ↦ (b'0' + n) ∷ out
  | false ↦ emit fuel (n / 10) ((b'0' + n % 10) ∷ out)
]

abbrev pub decimal : ℕ → Text
decimal n = emit (suc n) n []

abbrev pub zeros : ℕ → Text
zeros zero = []
zeros (suc n) = b'0' ∷ zeros n

abbrev pub pad : ℕ → Text → Text
pad width text = zeros (width - length text) ++ text

-- `{:0width}` of a signed number: the sign counts.
abbrev pub pad_int : ℕ → ℤ → Text
pad_int width (pos n) = pad width (decimal n)
pad_int width (negsuc n) = b'-' ∷ pad (width - 1) (decimal (suc n))

-- `u8::is_ascii_digit`.
abbrev pub is_digit : ℕ → Bool
is_digit c = leb b'0' c && leb c b'9'

-- The rest behind `width` digits.
abbrev pub strip_digits : ℕ → Text → Option Text
strip_digits zero rest = some rest
strip_digits (suc width) [] = none
strip_digits (suc width) (c ∷ rest) = if is_digit c then strip_digits width rest else none

-- A text of digits only.
abbrev pub IsNumeral : Text → Type 0
IsNumeral s = all is_digit s ≡ true

pub strip_digits-append :
    (s rest : Text) → IsNumeral s → strip_digits (length s) (s ++ rest) ≡ some rest
strip_digits-append [] rest h = refl
strip_digits-append (c ∷ s) rest h = ground (arith, strip_digits-append s rest)

IsNumeral-append : (s t : Text) → IsNumeral s → IsNumeral t → IsNumeral (s ++ t)
IsNumeral-append [] t h k = k
IsNumeral-append (c ∷ s) t h k = ground (arith, IsNumeral-append s t)

emit-IsNumeral : (fuel n : ℕ) (out : Text) → n < fuel → IsNumeral out → IsNumeral (emit fuel n out)
emit-IsNumeral zero n out f h = absurd (omega arith)
emit-IsNumeral (suc fuel) n out f h =
    ground (arith, emit-IsNumeral fuel (n / 10) ((b'0' + n % 10) ∷ out))

-- As many digits as the bound has.
length-emit :
    (k fuel n : ℕ) (out : Text)
    → n < fuel
    → n < 10 ^ suc k
    → (length out < length (emit fuel n out)) × (length (emit fuel n out) ≤ suc k + length out)
length-emit k zero n out f b = absurd (omega arith)
length-emit zero (suc fuel) n out f b = ground arith
length-emit (suc k) (suc fuel) n out f b =
    ground (arith, length-emit k fuel (n / 10) ((b'0' + n % 10) ∷ out))

pub decimal-IsNumeral : (n : ℕ) → IsNumeral (decimal n)
decimal-IsNumeral n = emit-IsNumeral (suc n) n [] (omega arith) refl

pub length-decimal :
    (k n : ℕ) → n < 10 ^ suc k → (0 < length (decimal n)) × (length (decimal n) ≤ suc k)
length-decimal k n b =
    let (lo, hi) = length-emit k (suc n) n [] (omega arith) b in (omega arith, omega arith)

zeros-IsNumeral : (n : ℕ) → IsNumeral (zeros n)
zeros-IsNumeral zero = refl
zeros-IsNumeral (suc n) = zeros-IsNumeral n

length-zeros : (n : ℕ) → length (zeros n) ≡ n
length-zeros zero = refl
length-zeros (suc n) = omega (arith, length-zeros n)

pub pad-IsNumeral : (w : ℕ) (s : Text) → IsNumeral s → IsNumeral (pad w s)
pad-IsNumeral w s h = IsNumeral-append (zeros (w - length s)) s (zeros-IsNumeral (w - length s)) h

pub length-pad : (w : ℕ) (s : Text) → length s ≤ w → length (pad w s) ≡ w
length-pad w s h =
    omega (arith, length-append (zeros (w - length s)) s, length-zeros (w - length s))
