-- ===== src/Base/Distinct.antt =====
-- Lists in which no entry occurs twice.
use mathlib.Core.Path.{sym}
use mathlib.Core.Logic.{inl, inr}
use mathlib.Core.List.{List, [], ◌∷◌, ◌++◌}
use s3_pulse.Base.Members.{In, In-append_cases, In-append_left, In-append_right}

module _ {A : Type 0} where
  abbrev pub IsDistinct : List A → Type 0
  IsDistinct [] = Unit {0}
  IsDistinct (x ∷ xs) = ¬ In x xs × IsDistinct xs

  -- Taking an entry out of the middle.
  pub IsDistinct-without :
      (xs : List A) (x : A) (ys : List A)
      → IsDistinct (xs ++ x ∷ ys)
      → ¬ In x (xs ++ ys) × IsDistinct (xs ++ ys)
  IsDistinct-without [] x ys d = d
  IsDistinct-without (w ∷ xs) x ys (a, d) =
      let (b, e) = IsDistinct-without xs x ys d in
      (
        (λ m. elim m [ inl p ↦ a (In-append_right w xs (x ∷ ys) (inl (sym p))) | inr n ↦ b n ]),
        (
          (λ m. elim (In-append_cases w xs ys m) [
            | inl n ↦ a (In-append_left w xs (x ∷ ys) n)
            | inr n ↦ a (In-append_right w xs (x ∷ ys) (inr n))
          ]),
          e,
        ),
      )
