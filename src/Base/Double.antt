-- ===== src/Base/Double.antt =====
-- What the code does with an `f64`, as a record of operations.
use s3_pulse.Base.Tests.{if◌then◌else◌}
use Prim.Native.Nat.{ℕ}
use mathlib.Core.Bool.{Bool}

pub record Double (F : Type 0) : Type 0 where
  pub of_nat : ℕ → F
  pub plus : F → F → F
  pub minus : F → F → F
  pub times : F → F → F
  pub over : F → F → F
  pub less : F → F → Bool

module _ {F : Type 0} (d : Double F) where
  -- `f64::clamp`, which keeps what no comparison moves.
  abbrev pub clamp : F → F → F → F
  clamp x low high =
      let above = if d.less x low then low else x in if d.less high above then high else above
