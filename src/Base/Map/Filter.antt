-- ===== src/Base/Map/Filter.antt =====
-- Entries of an ordered map, and `BTreeMap::retain`.
use Prim.Native.Nat.Ordering.{lt}
use mathlib.Core.Path.{◌≡◌, ap}
use mathlib.Core.Logic.{inl, inr}
use mathlib.Core.Bool.{Bool}
use mathlib.Core.Option.{none, some}
use mathlib.Core.List.{[], ◌∷◌}
use native.Mathlib.Omega.{arith}
use s3_pulse.Base.Tests.{if◌then◌else◌}
use s3_pulse.Base.Members.{In}
use s3_pulse.Base.Order.{Order}
use s3_pulse.Base.Map.{Map, keys, values, get, Above, IsOrdered, get-Above}

module _ {ℓ κ} {K : Type ℓ} {V : Type κ} where
  -- `retain(|key, _| p(key))`.
  abbrev pub retain : (K → Bool) → Map K V → Map K V
  retain p [] = []
  retain p ((k, v) ∷ m) = let rest = retain p m in if p k then (k, v) ∷ rest else rest

module _ {ℓ κ} {K : Type ℓ} {V : Type κ} (o : Order K) where
  pub Above-retain : (k : K) (p : K → Bool) (m : Map K V) → Above o k m → Above o k (retain p m)
  Above-retain k p [] a = tt
  Above-retain k p ((j, w) ∷ m) (h, a) = ground (arith, Above-retain k p m a)

  pub retain-IsOrdered : (p : K → Bool) (m : Map K V) → IsOrdered o m → IsOrdered o (retain p m)
  retain-IsOrdered p [] h = tt
  retain-IsOrdered p ((k, v) ∷ m) (a, h) =
      ground (arith, Above-retain k p m a, retain-IsOrdered p m h)

  pub get-retain :
      (k : K) (p : K → Bool) (m : Map K V)
      → IsOrdered o m
      → get o k (retain p m) ≡ (if p k then get o k m else none)
  unfolding get
  get-retain k p [] h = ground arith
  get-retain k p ((j, w) ∷ m) (a, h) = ground (
    arith,
    get-retain k p m h,
    o.cmp_eq k j,
    o.cmp_refl j,
    o.cmp_trans k j,
    get-Above o j (retain p m) (Above-retain j p m a),
    get-Above o j m a,
    absent,
  )
    where
      absent : o.cmp k j ≡ lt → get o k (retain p m) ≡ none
      absent e = get-Above o k (retain p m) (below m a)
        where
          below : (n : Map K V) → Above o j n → Above o k (retain p n)
          below [] b = tt
          below ((i, u) ∷ n) (b, c) = ground (arith, below n c, o.cmp_trans k j i e b)

module _ {K V : Type 0} (o : Order K) where
  Above-In : (k : K) (m : Map K V) (e : K × V) → Above o k m → In e m → o.cmp k e.0 ≡ lt
  Above-In k [] e a h = elim h [ ]
  Above-In k ((j, w) ∷ m) e (p, a) (inl q) = rw q p
  Above-In k ((j, w) ∷ m) e (p, a) (inr h) = Above-In k m e a h

  -- An entry is what `get` reads at its key.
  pub get-In : (k : K) (v : V) (m : Map K V) → IsOrdered o m → In (k, v) m → get o k m ≡ some v
  unfolding get
  get-In k v [] h n = elim n [ ]
  get-In k v ((j, w) ∷ m) (a, h) (inl q) =
      ground (arith, o.cmp_refl j, ap (λ (t : K × V). t.0) q, ap (λ (t : K × V). t.1) q)
  get-In k v ((j, w) ∷ m) (a, h) (inr n) =
      ground (arith, get-In k v m h n, Above-In j m (k, v) a n, o.cmp_flip j k)

  pub In-get : (k : K) (v : V) (m : Map K V) → get o k m ≡ some v → In (k, v) m
  unfolding get
  In-get k v [] h = cc
  In-get k v ((j, w) ∷ m) h = ground (arith, In-get k v m, o.cmp_eq k j)

module _ {K V : Type 0} where
  pub values-In : (v : V) (m : Map K V) → In v (values m) → (k : K) × In (k, v) m
  values-In v [] h = elim h [ ]
  values-In v ((j, w) ∷ m) (inl e) = (j, inl (ap (λ (t : V). (j, t)) e))
  values-In v ((j, w) ∷ m) (inr h) = let (k, n) = values-In v m h in (k, inr n)

  pub In-values : (k : K) (v : V) (m : Map K V) → In (k, v) m → In v (values m)
  In-values k v [] h = h
  In-values k v ((j, w) ∷ m) (inl e) = inl (ap (λ (t : K × V). t.1) e)
  In-values k v ((j, w) ∷ m) (inr h) = inr (In-values k v m h)

  pub keys-In : (k : K) (m : Map K V) → In k (keys m) → (v : V) × In (k, v) m
  keys-In k [] h = elim h [ ]
  keys-In k ((j, w) ∷ m) (inl e) = (w, inl (ap (λ (t : K). (t, w)) e))
  keys-In k ((j, w) ∷ m) (inr h) = let (v, n) = keys-In k m h in (v, inr n)

  pub In-keys : (k : K) (v : V) (m : Map K V) → In (k, v) m → In k (keys m)
  In-keys k v [] h = h
  In-keys k v ((j, w) ∷ m) (inl e) = inl (ap (λ (t : K × V). t.0) e)
  In-keys k v ((j, w) ∷ m) (inr h) = inr (In-keys k v m h)
