-- ===== src/Base/Map.antt =====
-- `BTreeMap<K, V>` as its entries in ascending key order; its laws are in the children.
pub mod Filter
pub mod Extent
use Prim.Native.Nat.{ℕ, suc, ◌+◌, ◌≤◌, Ordering}
use Prim.Native.Nat.Ordering.{lt, eq, gt}
use mathlib.Core.Path.{◌≡◌, refl, sym, ap, ◌∙◌, ap₂}
use mathlib.Core.Logic.{◌≢◌, ◌⊎◌, inl, inr}
use mathlib.Core.Bool.{Bool, true, false}
use mathlib.Core.Option.{Option, none, some}
use mathlib.Core.List.{List, [], ◌∷◌, map}
use native.Mathlib.Omega.{arith}
use s3_pulse.Base.Tests.{if◌then◌else◌, Bool-cases, Ordering-cases}
use s3_pulse.Base.Lists.{length, keep}
use s3_pulse.Base.Members.{In}
use s3_pulse.Base.Outcome.{or_else}
use s3_pulse.Base.Order.{Order, flip}

abbrev pub Map {ℓ κ} : Type ℓ → Type κ → Type (ℓ ⊔ κ)
Map K V = List (K × V)

module _ {ℓ κ} {K : Type ℓ} {V : Type κ} where
  abbrev pub keys : Map K V → List K
  keys [] = []
  keys ((k, v) ∷ m) = k ∷ keys m

  -- `into_values`, `values`.
  abbrev pub values : Map K V → List V
  values [] = []
  values ((k, v) ∷ m) = v ∷ values m

pub gt_of_lt {ℓ} : {K : Type ℓ} (o : Order K) (a b : K) → o.cmp a b ≡ gt → o.cmp b a ≡ lt
gt_of_lt o a b h = ground (arith, o.cmp_flip a b)

module _ {ℓ κ} {K : Type ℓ} {V : Type κ} (o : Order K) where
  unfoldable pub insert : K → V → Map K V → Map K V
  insert k v [] = (k, v) ∷ []
  insert k v ((j, w) ∷ m) = elim (o.cmp k j) [
    | lt ↦ (k, v) ∷ (j, w) ∷ m
    | eq ↦ (k, v) ∷ m
    | gt ↦ (j, w) ∷ insert k v m
  ]

  unfoldable pub get : K → Map K V → Option V
  get k [] = none
  get k ((j, w) ∷ m) = elim (o.cmp k j) [ lt ↦ none | eq ↦ some w | gt ↦ get k m ]

  -- Every key of the map is above `k`.
  abbrev pub Above : K → Map K V → Type 0
  Above k [] = Unit {0}
  Above k ((j, w) ∷ m) = (o.cmp k j ≡ lt) × Above k m

  abbrev pub IsOrdered : Map K V → Type 0
  IsOrdered [] = Unit {0}
  IsOrdered ((k, v) ∷ m) = Above k m × IsOrdered m

  pub Above-mono : (j k : K) (m : Map K V) → o.cmp j k ≡ lt → Above k m → Above j m
  Above-mono j k [] h a = tt
  Above-mono j k ((i, w) ∷ m) h (p, a) = (o.cmp_trans j k i h p, Above-mono j k m h a)

  pub Above-insert :
      (j k : K) (v : V) (m : Map K V) → o.cmp j k ≡ lt → Above j m → Above j (insert k v m)
  unfolding insert
  Above-insert j k v [] h a = (h, tt)
  Above-insert j k v ((i, w) ∷ m) h a = ground (arith, Above-insert j k v m)

  pub insert-IsOrdered : (k : K) (v : V) (m : Map K V) → IsOrdered m → IsOrdered (insert k v m)
  unfolding insert
  insert-IsOrdered k v [] h = (tt, tt)
  insert-IsOrdered k v ((j, w) ∷ m) (a, h) = ground (
    arith,
    o.cmp_eq k j,
    gt_of_lt o k j,
    Above-mono k j m,
    Above-insert j k v m,
    insert-IsOrdered k v m h,
  )

  pub get-Above : (k : K) (m : Map K V) → Above k m → get k m ≡ none
  unfolding get
  get-Above k [] a = refl
  get-Above k ((j, w) ∷ m) (p, a) = rw (p, get)

  -- Reading after a write.
  pub get-insert :
      (k j : K) (v : V) (m : Map K V)
      → get j (insert k v m) ≡ elim (o.cmp j k) [ eq ↦ some v | _ ↦ get j m ]
  unfolding get insert
  get-insert k j v [] = ground arith
  get-insert k j v ((i, w) ∷ m) = ground (
    arith,
    get-insert k j v m,
    o.cmp_eq j k,
    o.cmp_eq k i,
    o.cmp_eq j i,
    o.cmp_flip j k,
    o.cmp_flip k i,
    o.cmp_refl k,
    o.cmp_refl j,
    o.cmp_trans j k i,
    o.cmp_trans k i j,
    o.cmp_trans i k j,
    o.cmp_flip i j,
  )
