-- ===== src/Base/Map/Extent.antt =====
-- Ordered maps that read alike are equal; so writes at different keys commute.
use Prim.Native.Nat.Ordering.{lt}
use mathlib.Core.Path.{◌≡◌, refl}
use mathlib.Core.Logic.{◌≢◌, inl, inr}
use mathlib.Core.Option.{none, some}
use mathlib.Core.List.{[], ◌∷◌}
use native.Mathlib.Omega.{arith}
use s3_pulse.Base.Tests.{Ordering-cases}
use s3_pulse.Base.Order.{Order}
use s3_pulse.Base.Map.{
  Map, insert, get, IsOrdered, get-Above, get-insert, insert-IsOrdered, gt_of_lt, Above-mono,
}

abbrev nothing {ℓ κ} : {K : Type ℓ} {V : Type κ} → Map K V
nothing = []

module _ {ℓ κ} {K : Type ℓ} {V : Type κ} (o : Order K) where
  get_nil : (k : K) → get o k (nothing {K = K} {V = V}) ≡ none
  unfolding get
  get_nil k = refl

  get_head : (k : K) (v : V) (m : Map K V) → get o k ((k, v) ∷ m) ≡ some v
  unfolding get
  get_head k v m = rw (o.cmp_refl k, get)

  get_tail : (k j : K) (v : V) (m : Map K V) → o.cmp j k ≡ lt → get o k ((j, v) ∷ m) ≡ get o k m
  unfolding get
  get_tail k j v m h = ground (arith, o.cmp_flip j k)

  get_below : (k j : K) (v : V) (m : Map K V) → o.cmp k j ≡ lt → get o k ((j, v) ∷ m) ≡ none
  unfolding get
  get_below k j v m h = rw (h, get)

  abbrev pub SameReads : Map K V → Map K V → Type (ℓ ⊔ κ)
  SameReads m n = (k : K) → get o k m ≡ get o k n

  pub ext_of_reads : (m n : Map K V) → IsOrdered o m → IsOrdered o n → SameReads m n → m ≡ n
  ext_of_reads [] [] h g e = refl
  ext_of_reads [] ((j, w) ∷ n) h g e = cc (e j, get_head j w n, get_nil j)
  ext_of_reads ((k, v) ∷ m) [] h g e = cc (e k, get_head k v m, get_nil k)
  ext_of_reads ((k, v) ∷ m) ((j, w) ∷ n) (a, h) (b, g) e = elim (Ordering-cases (o.cmp k j)) [
    | inl p ↦ cc (e k, get_head k v m, get_below k j w n p)
    | inr (inl p) ↦
        let same : k ≡ j = o.cmp_eq k j p in
        cc (e k, get_head k v m, get_head j w n, ext_of_reads m n h g (tails same), same)
    | inr (inr p) ↦ cc (e j, get_head j w n, get_below j k v m (gt_of_lt o k j p))
  ]
    where
      tails : k ≡ j → (i : K) → get o i m ≡ get o i n
      tails same i = elim (Ordering-cases (o.cmp k i)) [
        | inl p ↦ cc (e i, get_tail i k v m p, get_tail i j w n (rw (← same) p))
        | inr (inl p) ↦
            let at_k : k ≡ i = o.cmp_eq k i p in
            cc (get-Above o k m a, get-Above o j n b, at_k, same)
        | inr (inr p) ↦ cc (
          get-Above o i m (Above-mono o i k m (gt_of_lt o k i p) a),
          get-Above o i n (Above-mono o i j n (rw (← same) (gt_of_lt o k i p)) b),
        )
      ]

  -- The order of two writes at different keys does not matter.
  pub insert_comm :
      (k j : K) (v w : V) (m : Map K V)
      → IsOrdered o m
      → k ≢ j
      → insert o k v (insert o j w m) ≡ insert o j w (insert o k v m)
  insert_comm k j v w m h ne =
      ext_of_reads _ _ (insert-IsOrdered o k v _ (insert-IsOrdered o j w m h))
        (insert-IsOrdered o j w _ (insert-IsOrdered o k v m h)) reads
    where
      reads : SameReads (insert o k v (insert o j w m)) (insert o j w (insert o k v m))
      reads i = ground (
        arith,
        get-insert o k i v (insert o j w m),
        get-insert o j i w m,
        get-insert o j i w (insert o k v m),
        get-insert o k i v m,
        o.cmp_eq i k,
        o.cmp_eq i j,
      )
