-- ===== src/Base/Order.antt =====
-- `Ord`: a three-way comparison and its laws, with the instances that the program's keys use.
use Prim.Native.Nat.{ℕ, compare, Ordering}
use Prim.Native.Nat.Ordering.{lt, eq, gt}
use mathlib.Core.Path.{◌≡◌, refl}
use mathlib.Core.List.{List, [], ◌∷◌}
use native.Mathlib.Omega.{arith}

-- `Ordering::reverse`.
abbrev pub flip : Ordering → Ordering
flip lt = gt
flip eq = eq
flip gt = lt

-- `Ordering::then_with`.
abbrev pub then_with : Ordering → Ordering → Ordering
then_with lt o = lt
then_with eq o = o
then_with gt o = gt

pub record Order {ℓ} (A : Type ℓ) : Type ℓ where
  pub cmp : A → A → Ordering
  pub cmp_refl : (a : A) → cmp a a ≡ eq
  pub cmp_eq : (a b : A) → cmp a b ≡ eq → a ≡ b
  pub cmp_flip : (a b : A) → cmp b a ≡ flip (cmp a b)
  pub cmp_trans : (a b c : A) → cmp a b ≡ lt → cmp b c ≡ lt → cmp a c ≡ lt

pub nat-cmp_trans : (a b c : ℕ) → compare a b ≡ lt → compare b c ≡ lt → compare a c ≡ lt
nat-cmp_trans a b c p q = ground arith

pub nat-cmp_flip : (a b : ℕ) → compare b a ≡ flip (compare a b)
nat-cmp_flip a b = ground arith

pub nat-cmp_eq : (a b : ℕ) → compare a b ≡ eq → a ≡ b
nat-cmp_eq a b h = ground arith

pub nat-cmp_refl : (a : ℕ) → compare a a ≡ eq
nat-cmp_refl a = ground arith

abbrev pub nat_order : Order ℕ
nat_order = record {
  cmp = compare;
  cmp_refl = nat-cmp_refl;
  cmp_eq = nat-cmp_eq;
  cmp_flip = nat-cmp_flip;
  cmp_trans = nat-cmp_trans;
}

module _ {ℓ} {A : Type ℓ} (o : Order A) where
  abbrev pub reverse_cmp : A → A → Ordering
  reverse_cmp a b = o.cmp b a

  pub reverse-cmp_eq : (a b : A) → reverse_cmp a b ≡ eq → a ≡ b
  reverse-cmp_eq a b h = ground (arith, o.cmp_flip a b, o.cmp_eq a b)

  -- `std::cmp::Reverse`.
  abbrev pub reverse_order : Order A
  reverse_order = record {
    cmp = reverse_cmp;
    cmp_refl = o.cmp_refl;
    cmp_eq = reverse-cmp_eq;
    cmp_flip = λ a b. o.cmp_flip b a;
    cmp_trans = λ a b c p q. o.cmp_trans c b a q p;
  }

module _ {ℓ κ} {A : Type ℓ} {B : Type κ} (o : Order A) (u : Order B) where
  abbrev pub pair_cmp : A × B → A × B → Ordering
  pair_cmp p q = then_with (o.cmp p.0 q.0) (u.cmp p.1 q.1)

  pub pair-cmp_eq : (p q : A × B) → pair_cmp p q ≡ eq → p ≡ q
  pair-cmp_eq p q h = ground (arith, o.cmp_eq p.0 q.0, u.cmp_eq p.1 q.1)

  pub pair-cmp_flip : (p q : A × B) → pair_cmp q p ≡ flip (pair_cmp p q)
  pair-cmp_flip p q = ground (arith, o.cmp_flip p.0 q.0, u.cmp_flip p.1 q.1)

  pub pair-cmp_trans : (p q r : A × B) → pair_cmp p q ≡ lt → pair_cmp q r ≡ lt → pair_cmp p r ≡ lt
  pair-cmp_trans p q r h k =
      ground (
        arith,
        o.cmp_eq p.0 q.0,
        o.cmp_eq q.0 r.0,
        o.cmp_trans p.0 q.0 r.0,
        u.cmp_trans p.1 q.1 r.1,
      )

  pub pair-cmp_refl : (p : A × B) → pair_cmp p p ≡ eq
  pair-cmp_refl p = rw (o.cmp_refl p.0) (u.cmp_refl p.1)

  -- Tuples compare field by field.
  abbrev pub pair_order : Order (A × B)
  pair_order = record {
    cmp = pair_cmp;
    cmp_refl = pair-cmp_refl;
    cmp_eq = pair-cmp_eq;
    cmp_flip = pair-cmp_flip;
    cmp_trans = pair-cmp_trans;
  }

-- Slices and strings compare entry by entry, a proper prefix first.
module _ {ℓ} {A : Type ℓ} (o : Order A) where
  abbrev pub list_cmp : List A → List A → Ordering
  list_cmp [] [] = eq
  list_cmp [] (y ∷ ys) = lt
  list_cmp (x ∷ xs) [] = gt
  list_cmp (x ∷ xs) (y ∷ ys) = then_with (o.cmp x y) (list_cmp xs ys)

  pub list-cmp_refl : (xs : List A) → list_cmp xs xs ≡ eq
  list-cmp_refl [] = refl
  list-cmp_refl (x ∷ xs) = rw (o.cmp_refl x) (list-cmp_refl xs)

  pub list-cmp_eq : (xs ys : List A) → list_cmp xs ys ≡ eq → xs ≡ ys
  list-cmp_eq [] [] h = refl
  list-cmp_eq [] (y ∷ ys) h = cc
  list-cmp_eq (x ∷ xs) [] h = cc
  list-cmp_eq (x ∷ xs) (y ∷ ys) h = ground (arith, o.cmp_eq x y, list-cmp_eq xs ys)

  pub list-cmp_flip : (xs ys : List A) → list_cmp ys xs ≡ flip (list_cmp xs ys)
  list-cmp_flip [] [] = refl
  list-cmp_flip [] (y ∷ ys) = refl
  list-cmp_flip (x ∷ xs) [] = refl
  list-cmp_flip (x ∷ xs) (y ∷ ys) = ground (arith, o.cmp_flip x y, list-cmp_flip xs ys)

  pub list-cmp_trans :
      (xs ys zs : List A) → list_cmp xs ys ≡ lt → list_cmp ys zs ≡ lt → list_cmp xs zs ≡ lt
  list-cmp_trans [] [] zs h k = cc
  list-cmp_trans [] (y ∷ ys) [] h k = cc
  list-cmp_trans [] (y ∷ ys) (z ∷ zs) h k = refl
  list-cmp_trans (x ∷ xs) [] zs h k = cc
  list-cmp_trans (x ∷ xs) (y ∷ ys) [] h k = cc
  list-cmp_trans (x ∷ xs) (y ∷ ys) (z ∷ zs) h k =
      ground (arith, o.cmp_eq x y, o.cmp_eq y z, o.cmp_trans x y z, list-cmp_trans xs ys zs)

  abbrev pub list_order : Order (List A)
  list_order = record {
    cmp = list_cmp;
    cmp_refl = list-cmp_refl;
    cmp_eq = list-cmp_eq;
    cmp_flip = list-cmp_flip;
    cmp_trans = list-cmp_trans;
  }
