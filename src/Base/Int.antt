-- ===== src/Base/Int.antt =====
-- Signed machine integers, with the arithmetic that the program does on them.
use Prim.Native.Nat.{ℕ, ◌+◌, ◌-◌, ◌*◌, ◌/◌, ◌%◌, ◌^◌}
use s3_pulse.Base.Tests.{leb, ltb, if◌then◌else◌}

-- `negsuc n` is -(n + 1).
pub data ℤ : Type 0 where
  pos : ℕ → ℤ
  negsuc : ℕ → ℤ

abbrev pub add_nat : ℤ → ℕ → ℤ
add_nat (pos a) n = pos (a + n)
add_nat (negsuc a) n = if leb n a then negsuc (a - n) else pos (n - a - 1)

abbrev pub sub_nat : ℤ → ℕ → ℤ
sub_nat (pos a) n = if leb n a then pos (a - n) else negsuc (n - a - 1)
sub_nat (negsuc a) n = negsuc (a + n)

-- The product with `k + 1`.
abbrev pub mul_suc : ℤ → ℕ → ℤ
mul_suc (pos a) k = pos (a * (k + 1))
mul_suc (negsuc a) k = negsuc (a * (k + 1) + k)

-- `div_euclid` and `rem_euclid` for a positive divisor.
abbrev pub div_euclid : ℤ → ℕ → ℤ
div_euclid (pos a) k = pos (a / k)
div_euclid (negsuc a) k = negsuc (a / k)

abbrev pub rem_euclid : ℤ → ℕ → ℕ
rem_euclid (pos a) k = a % k
rem_euclid (negsuc a) k = k - 1 - a % k

-- A number as a signed 32-bit integer.
abbrev pub wrap_i32 : ℤ → ℤ
wrap_i32 z =
    let r = rem_euclid z (2 ^ 32) in if ltb r (2 ^ 31) then pos r else negsuc (2 ^ 32 - r - 1)
