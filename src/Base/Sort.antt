-- ===== src/Base/Sort.antt =====
-- `slice::sort_by`, a stable sort, as an insertion sort, and what the program relies on.
use Prim.Native.Nat.{suc, Ordering}
use mathlib.Core.Path.{◌≡◌, refl, sym}
use mathlib.Core.Logic.{inl, inr}
use mathlib.Core.Bool.{Bool, true, false}
use mathlib.Core.List.{List, [], ◌∷◌}
use native.Mathlib.Omega.{arith}
use s3_pulse.Base.Tests.{if◌then◌else◌, Bool-cases}
use s3_pulse.Base.Lists.{length, keep}
use s3_pulse.Base.Members.{In}

-- The test that a sort makes on two entries: `left` may stay before `right`.
abbrev pub is_le : Ordering → Bool
is_le Ordering.gt = false
is_le _ = true

module _ {ℓ} {A : Type ℓ} (c : A → A → Ordering) where
  unfoldable pub place : A → List A → List A
  place x [] = x ∷ []
  place x (y ∷ ys) = let rest = place x ys in if is_le (c x y) then x ∷ y ∷ ys else y ∷ rest

  unfoldable pub sort_by : List A → List A
  sort_by [] = []
  sort_by (x ∷ xs) = place x (sort_by xs)

  -- Total and transitive, as `sort_by` asks of its comparator.
  pub record IsComparator : Type ℓ where
    pub total : (a b : A) → is_le (c a b) ≡ false → is_le (c b a) ≡ true
    pub trans : (a b d : A) → is_le (c a b) ≡ true → is_le (c b d) ≡ true → is_le (c a d) ≡ true

  pub length-place : (x : A) (xs : List A) → length (place x xs) ≡ suc (length xs)
  unfolding place
  length-place x [] = refl
  length-place x (y ∷ ys) = ground (arith, length-place x ys)

  pub length-sort_by : (xs : List A) → length (sort_by xs) ≡ length xs
  unfolding sort_by
  length-sort_by [] = refl
  length-sort_by (x ∷ xs) = omega (arith, length-place x (sort_by xs), length-sort_by xs)

module _ {A : Type 0} (c : A → A → Ordering) where
  pub In-place : (a x : A) (ys : List A) → In a (place c x ys) → In a (x ∷ ys)
  unfolding place
  In-place a x [] h = h
  In-place a x (y ∷ ys) h = ground (arith, In-place a x ys)

  pub place-In : (a x : A) (ys : List A) → In a (x ∷ ys) → In a (place c x ys)
  unfolding place
  place-In a x [] h = h
  place-In a x (y ∷ ys) h = ground (arith, place-In a x ys)

  pub In-sort_by : (a : A) (xs : List A) → In a (sort_by c xs) → In a xs
  unfolding sort_by
  In-sort_by a [] h = h
  In-sort_by a (x ∷ xs) h = elim (In-place a x (sort_by c xs) h) [
    | inl e ↦ inl e
    | inr m ↦ inr (In-sort_by a xs m)
  ]

  pub sort_by-In : (a : A) (xs : List A) → In a xs → In a (sort_by c xs)
  unfolding sort_by
  sort_by-In a [] h = h
  sort_by-In a (x ∷ xs) (inl e) = place-In a x (sort_by c xs) (inl e)
  sort_by-In a (x ∷ xs) (inr m) = place-In a x (sort_by c xs) (inr (sort_by-In a xs m))

  -- `x` may stay before every entry.
  abbrev pub Before : A → List A → Type 0
  Before x ys = (y : A) → In y ys → is_le (c x y) ≡ true

  abbrev pub IsSorted : List A → Type 0
  IsSorted [] = Unit {0}
  IsSorted (x ∷ xs) = Before x xs × IsSorted xs

  -- Placing below everything is a cons.
  pub place-Before : (x : A) (ys : List A) → Before x ys → place c x ys ≡ x ∷ ys
  unfolding place
  place-Before x [] h = refl
  place-Before x (y ∷ ys) h = rw (h y (inl refl))

  module _ (k : IsComparator c) where
    pub place-IsSorted : (x : A) (ys : List A) → IsSorted ys → IsSorted (place c x ys)
    unfolding place
    place-IsSorted x [] h = ((λ y m. elim m [ ]), tt)
    place-IsSorted x (y ∷ ys) (b, s) = elim (Bool-cases (is_le (c x y))) [
      | inl e ↦ rw e ((λ z m. elim m [ inl p ↦ rw p e | inr q ↦ k.trans x y z e (b z q) ]), (b, s))
      | inr e ↦ rw e (
        (λ z m. elim (In-place z x ys m) [ inl p ↦ rw p (k.total x y e) | inr q ↦ b z q ]),
        place-IsSorted x ys s,
      )
    ]

    pub sort_by-IsSorted : (xs : List A) → IsSorted (sort_by c xs)
    unfolding sort_by
    sort_by-IsSorted [] = tt
    sort_by-IsSorted (x ∷ xs) = place-IsSorted x (sort_by c xs) (sort_by-IsSorted xs)

    keep-Before : (p : A → Bool) (x : A) (ys : List A) → Before x ys → Before x (keep p ys)
    keep-Before p x [] h = h
    keep-Before p x (y ∷ ys) h = elim (Bool-cases (p y)) [
      | inl e ↦ rw e (λ z m. elim m [
        | inl q ↦ h z (inl q)
        | inr q ↦ keep-Before p x ys (λ w n. h w (inr n)) z q
      ])
      | inr e ↦ rw e (keep-Before p x ys (λ w n. h w (inr n)))
    ]

    keep-place :
        (p : A → Bool) (x : A) (ys : List A)
        → IsSorted ys
        → keep p (place c x ys) ≡ (if p x then place c x (keep p ys) else keep p ys)
    unfolding place
    keep-place p x [] s = ground arith
    keep-place p x (y ∷ ys) (b, s) = elim (Bool-cases (is_le (c x y))) [
      | inl e ↦ elim (Bool-cases (p x)) [
        | inl t ↦
            rw (e, t) (sym (place-Before x (keep p (y ∷ ys)) (keep-Before p x (y ∷ ys) (below e))))
        | inr t ↦ rw (e, t)
      ]
      | inr e ↦ ground (arith, keep-place p x ys s)
    ]
      where
        below : is_le (c x y) ≡ true → Before x (y ∷ ys)
        below e z (inl q) = rw q e
        below e z (inr q) = k.trans x y z e (b z q)

    -- Sorting and dropping entries commute.
    pub keep-sort_by : (p : A → Bool) (xs : List A) → keep p (sort_by c xs) ≡ sort_by c (keep p xs)
    unfolding sort_by
    keep-sort_by p [] = refl
    keep-sort_by p (x ∷ xs) =
        rw (keep-place p x (sort_by c xs) (sort_by-IsSorted xs), keep-sort_by p xs) (ground arith)
