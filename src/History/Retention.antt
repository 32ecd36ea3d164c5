-- ===== src/History/Retention.antt =====
-- What the history keeps: the newest objects of the merged map, up to the capacity.
use Prim.Native.Nat.Ordering.{lt}
use s3_pulse.Base.{
  ℕ, zero, suc, ◌≤◌, ◌<◌, ◌≡◌, refl, sym, ap, ◌∙◌, subst, Option, some, List, [], ◌∷◌, ◌++◌, map,
  arith, In, inl, inr, keep, or_else, Bool, true, false, Bool-cases, take, keep_none, drop, length,
  take-append-drop, length-take, In-append_cases, ok, In-append_right,
}
use s3_pulse.Base.Text.{Text, text_order, same_text, same_text→eq, same_text_refl}
use s3_pulse.Base.Sort.{
  is_le, sort_by, IsSorted, sort_by-IsSorted, keep-sort_by, length-sort_by, In-sort_by, sort_by-In,
}
use s3_pulse.Base.Map
use s3_pulse.Base.Map.{Map, get, IsOrdered, values, keys}
use s3_pulse.Base.Map.Filter.{retain, retain-IsOrdered, get-In, In-get, In-values, values-In}
use s3_pulse.Model.{S3Object}
use s3_pulse.History.{
  RollingHistory, collect, apply, newest_first, objects, retained_keys, contains, upsert_many,
  is_zero, with_expected_interval,
}
use s3_pulse.History
use s3_pulse.History.Ranking.{
  DistinctKeys, sort_by-DistinctKeys, keep_congr, newest_first-IsComparator, newest_first_strict,
}
use s3_pulse.History.Merge.{
  Objects, IsKeyed, latest, collect-IsOrdered, collect-IsKeyed, get-collect, apply-IsOrdered,
  apply-IsKeyed, get-apply, values-DistinctKeys, values-retain,
}

pub record IsValid (h : RollingHistory) : Type 0 where
  pub positive : 0 < h.capacity
  pub cadence : is_zero h.expected_interval_seconds ≡ false
  pub ordered : IsOrdered text_order h.by_key
  pub keyed : IsKeyed h.by_key
  pub bounded : length h.by_key ≤ h.capacity

-- The history's objects with the listing laid over them.
abbrev pub merged : RollingHistory → List S3Object → Objects
merged h listing = (apply (collect [] listing) h.by_key []).0

pub ranked : Objects → List S3Object
ranked m = sort_by newest_first (values m)

pub merged-IsOrdered :
    (h : RollingHistory) (xs : List S3Object) → IsValid h → IsOrdered text_order (merged h xs)
merged-IsOrdered h xs v = apply-IsOrdered _ h.by_key [] v.ordered

pub merged-IsKeyed : (h : RollingHistory) (xs : List S3Object) → IsValid h → IsKeyed (merged h xs)
merged-IsKeyed h xs v = apply-IsKeyed _ h.by_key [] (collect-IsKeyed xs [] tt) v.keyed

-- Laid over the history, a listing gives under each key its last object with that key, or what the
-- history has where it has none.
pub get-merged :
    (k : Text) (h : RollingHistory) (xs : List S3Object)
    → get text_order k (merged h xs) ≡ or_else (latest k xs) (History.get h k)
unfolding History.get get
get-merged k h xs = ground (
  arith,
  get-apply k (collect [] xs) h.by_key [] (collect-IsOrdered xs [] tt),
  get-collect k xs [],
)

names_below :
    (n : ℕ) (x : S3Object) (xs : List S3Object)
    → DistinctKeys (x ∷ xs)
    → (y : S3Object) → In y xs
    → contains (x.key ∷ map (λ z. z.key) (take n xs)) y.key
      ≡ contains (map (λ z. z.key) (take n xs)) y.key
names_below n x xs (f, d) y m = elim (Bool-cases (same_text y.key x.key)) [
  | inl e ↦ absurd (f y m (same_text→eq y.key x.key e))
  | inr e ↦ rw e refl
]

-- With distinct keys, filtering by the keys of the first entries leaves those entries.
keep-take :
    (n : ℕ) (xs : List S3Object)
    → DistinctKeys xs
    → keep (λ y. contains (map (λ z. z.key) (take n xs)) y.key) xs ≡ take n xs
keep-take zero xs d = keep_none _ xs (λ a m. refl)
keep-take (suc n) [] d = refl
keep-take (suc n) (x ∷ xs) (f, d) =
    rw (same_text_refl x.key)
      (ap (◌∷◌ x) (keep_congr _ _ xs (names_below n x xs (f, d)) ∙ keep-take n xs d))

length-values : (m : Objects) → length (values m) ≡ length m
length-values [] = refl
length-values ((k, x) ∷ m) = ap suc (length-values m)

-- After an update of a well-formed history it lists the newest `capacity` objects of the old history
-- with the listing laid over it, newest first, ties by key.
pub objects-upsert_many :
    (h : RollingHistory) (xs : List S3Object)
    → IsValid h
    → objects (upsert_many h xs).0 ≡ take h.capacity (sort_by newest_first (values (merged h xs)))
unfolding objects upsert_many retained_keys
objects-upsert_many h xs v =
    let m = merged h xs in
    ap (sort_by newest_first) (values-retain _ m (merged-IsKeyed h xs v))
    ∙ sym (keep-sort_by newest_first newest_first-IsComparator _ (values m))
    ∙ keep-take h.capacity (sort_by newest_first (values m)) (
        sort_by-DistinctKeys newest_first (values m)
          (values-DistinctKeys m (merged-IsOrdered h xs v) (merged-IsKeyed h xs v)))

retain-IsKeyed : (p : Text → Bool) (m : Objects) → IsKeyed m → IsKeyed (retain p m)
retain-IsKeyed p [] g = tt
retain-IsKeyed p ((k, x) ∷ m) (e, g) = ground (arith, retain-IsKeyed p m g)

length-objects : (h : RollingHistory) → length (objects h) ≡ length h.by_key
unfolding objects
length-objects h = length-sort_by newest_first (values h.by_key) ∙ length-values h.by_key

-- Every update of a well-formed history keeps it so: a positive capacity, an expected interval that
-- is not zero, ordered keys, each object under its own key, and no more objects than the capacity.
pub upsert_many-IsValid :
    (h : RollingHistory) (xs : List S3Object) → IsValid h → IsValid (upsert_many h xs).0
unfolding upsert_many
upsert_many-IsValid h xs v = record {
  positive = v.positive;
  cadence = v.cadence;
  ordered = retain-IsOrdered text_order _ (merged h xs) (merged-IsOrdered h xs v);
  keyed = retain-IsKeyed _ (merged h xs) (merged-IsKeyed h xs v);
  bounded = omega (
    arith,
    length-objects (upsert_many h xs).0,
    ap length (objects-upsert_many h xs v),
    length-take h.capacity (sort_by newest_first (values (merged h xs))),
  );
}

-- A history that the constructor makes is well formed.
pub with_expected_interval-IsValid :
    (capacity : ℕ) (expected : Option ℕ) (h : RollingHistory)
    → with_expected_interval capacity expected ≡ ok h
    → IsValid h
unfolding with_expected_interval
with_expected_interval-IsValid capacity expected h e = ground arith

IsSorted-append :
    (xs ys : List S3Object) (x y : S3Object)
    → IsSorted newest_first (xs ++ ys)
    → In x xs
    → In y ys
    → is_le (newest_first x y) ≡ true
IsSorted-append [] ys x y s m n = elim m [ ]
IsSorted-append (z ∷ xs) ys x y (b, s) (inl e) n = rw e (b y (In-append_right y xs ys n))
IsSorted-append (z ∷ xs) ys x y (b, s) (inr m) n = IsSorted-append xs ys x y s m n

pub keyed-In : (k : Text) (x : S3Object) (m : Objects) → IsKeyed m → In (k, x) m → k ≡ x.key
keyed-In k x [] g n = elim n [ ]
keyed-In k x ((j, y) ∷ m) (e, g) (inl q) =
    cc (ap (λ (t : Text × S3Object). t.0) q, ap (λ (t : Text × S3Object). t.1) q)
keyed-In k x ((j, y) ∷ m) (e, g) (inr n) = keyed-In k x m g n

-- What the history lists is what it finds under the key, and the other way round.
pub get_of_In-objects :
    (h : RollingHistory) (x : S3Object)
    → IsValid h
    → In x (objects h)
    → History.get h x.key ≡ some x
unfolding History.get objects
get_of_In-objects h x v m =
    let (k, n) = values-In x h.by_key (In-sort_by newest_first x (values h.by_key) m) in
    subst (λ t. Map.get text_order t h.by_key ≡ some x) (keyed-In k x h.by_key v.keyed n)
      (get-In text_order k x h.by_key v.ordered n)

pub In-objects_of_get :
    (h : RollingHistory) (k : Text) (x : S3Object) → History.get h k ≡ some x → In x (objects h)
unfolding History.get objects
In-objects_of_get h k x e =
    sort_by-In newest_first x (values h.by_key)
      (In-values k x h.by_key (In-get text_order k x h.by_key e))

contains_key_of_get :
    (h : RollingHistory) (k : Text) (x : S3Object)
    → History.get h k ≡ some x
    → History.contains_key h k ≡ true
unfolding History.contains_key
contains_key_of_get h k x e = rw (e, History.contains_key)

-- Where an update of a well-formed history keeps one object and leaves out the key of another one of
-- the merged objects, the kept one comes first in the order by time, newest first, and key.
pub upsert_many_newest :
    (h : RollingHistory) (xs : List S3Object) (x y : S3Object)
    → IsValid h
    → In x (objects (upsert_many h xs).0)
    → In y (values (merged h xs))
    → History.contains_key (upsert_many h xs).0 y.key ≡ false
    → newest_first x y ≡ lt
upsert_many_newest h xs x y v m n e =
    elim (In-append_cases y (take c r) (drop c r)
      (subst (In y) (sym (take-append-drop c r)) (sort_by-In newest_first y _ n))) [
        | inl p ↦ cc (
          contains_key_of_get h' y.key y
              (get_of_In-objects h' y w (subst (In y) (sym (objects-upsert_many h xs v)) p)),
          e,
        )
        | inr p ↦
            newest_first_strict x y
              (IsSorted-append (take c r) (drop c r) x y
                (subst (IsSorted newest_first) (sym (take-append-drop c r))
                  (sort_by-IsSorted newest_first newest_first-IsComparator _))
                (subst (In x) (objects-upsert_many h xs v) m) p)
              (λ q. cc (contains_key_of_get h' x.key x (get_of_In-objects h' x w m), q, e))
      ]
  where
    c : ℕ
    c = h.capacity

    r : List S3Object
    r = sort_by newest_first (values (merged h xs))

    h' : RollingHistory
    h' = (upsert_many h xs).0

    w : IsValid h'
    w = upsert_many-IsValid h xs v
