-- ===== src/Runtime/Batches.antt =====
-- The chunks of a list.
use s3_pulse.Base.{
  ℕ, zero, suc, ◌≤◌, ◌<◌, ◌≡◌, refl, sym, ◌∙◌, ap, List, [], ◌∷◌, ◌++◌, length, arith,
}
use mathlib.Core.List.{append_assoc}
use s3_pulse.Runtime.Polling.{fill, chunks}

module _ {A : Type 0} where
  abbrev pub flatten : List (List A) → List A
  flatten [] = []
  flatten (xs ∷ rest) = xs ++ flatten rest

  -- No chunk is empty, and none has more than `suc size` entries.
  abbrev pub AreBounded : ℕ → List (List A) → Type 0
  AreBounded size [] = Unit {0}
  AreBounded size (xs ∷ rest) = ((0 < length xs) × (length xs ≤ suc size)) × AreBounded size rest

  pub fill_lem :
      (size room : ℕ) (xs : List A)
      → ((fill size room xs).0 ++ flatten ((fill size room xs).1) ≡ xs)
        × (length ((fill size room xs).0) ≤ room)
        × AreBounded size ((fill size room xs).1)
  unfolding fill
  fill_lem size room [] = (refl, omega arith, tt)
  fill_lem size zero (x ∷ xs) =
      let (whole, few, bounded) = fill_lem size size xs in
      (ap (◌∷◌ x) whole, omega arith, ((omega arith, omega (arith, few)), bounded))
  fill_lem size (suc room) (x ∷ xs) =
      let (whole, few, bounded) = fill_lem size room xs in
      (ap (◌∷◌ x) whole, omega (arith, few), bounded)

  pub chunks_lem :
      (size : ℕ) (xs : List A) → (flatten (chunks size xs) ≡ xs) × AreBounded size (chunks size xs)
  unfolding chunks
  chunks_lem size [] = (refl, tt)
  chunks_lem size (x ∷ xs) =
      let (whole, few, bounded) = fill_lem size size xs in
      (ap (◌∷◌ x) whole, ((omega arith, omega (arith, few)), bounded))

  pub flatten-append : (xss yss : List (List A)) → flatten (xss ++ yss) ≡ flatten xss ++ flatten yss
  flatten-append [] yss = refl
  flatten-append (xs ∷ rest) yss =
      ap (◌++◌ xs) (flatten-append rest yss) ∙ sym (append_assoc xs (flatten rest) (flatten yss))

  pub append-AreBounded :
      (size : ℕ) (xss yss : List (List A))
      → AreBounded size xss
      → AreBounded size yss
      → AreBounded size (xss ++ yss)
  append-AreBounded size [] yss p q = q
  append-AreBounded size (xs ∷ rest) yss (b, p) q = (b, append-AreBounded size rest yss p q)
