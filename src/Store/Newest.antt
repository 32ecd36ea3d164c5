-- ===== src/Store/Newest.antt =====
-- The bounded selection of a listing is the newest part of all that was listed.
use s3_pulse.Base.{
  ℕ, suc, ◌≤◌, ◌<◌, ltb, ◌≡◌, refl, sym, ap, ◌∙◌, subst, List, [], ◌∷◌, arith, inl, inr,
  if◌then◌else◌, Bool-cases, length, ltb→lt,
}
use s3_pulse.Base.Map.{insert, Above, IsOrdered, Above-mono, insert-IsOrdered}
use s3_pulse.Model.{S3Object}
use s3_pulse.Store.{Rank, rank_order, RankedObjects, pop_first, retain_newest}

-- The last `n` entries: the newest ones.
unfoldable pub newest_part : ℕ → RankedObjects → RankedObjects
newest_part n [] = []
newest_part n (e ∷ m) = let rest = newest_part n m in if ltb n (length (e ∷ m)) then rest else e ∷ m

abbrev pub file : RankedObjects → S3Object → RankedObjects
file m x = insert rank_order (x.last_modified, x.key) x m

-- All that was listed, with nothing dropped.
unfoldable pub file_all : RankedObjects → List S3Object → RankedObjects
file_all m [] = m
file_all m (x ∷ xs) = file_all (file m x) xs

-- The loop of `list_objects` over its entries.
unfoldable pub retain_all : ℕ → RankedObjects → List S3Object → RankedObjects
retain_all n m [] = m
retain_all n m (x ∷ xs) = retain_all n (retain_newest m x n) xs

length-newest_part : (n : ℕ) (m : RankedObjects) → length (newest_part n m) ≤ n
unfolding newest_part
length-newest_part n [] = omega arith
length-newest_part n (e ∷ m) = ground (arith, length-newest_part n m)

newest_part_all : (n : ℕ) (m : RankedObjects) → length m ≤ n → newest_part n m ≡ m
unfolding newest_part
newest_part_all n [] h = refl
newest_part_all n (e ∷ m) h = ground arith

length-insert-le :
    (k : Rank) (x : S3Object) (m : RankedObjects) → length m ≤ length (insert rank_order k x m)
unfolding insert
length-insert-le k x [] = omega arith
length-insert-le k x ((j, y) ∷ m) = ground (arith, length-insert-le k x m)

length-insert-le_suc :
    (k : Rank) (x : S3Object) (m : RankedObjects)
    → length (insert rank_order k x m) ≤ suc (length m)
unfolding insert
length-insert-le_suc k x [] = omega arith
length-insert-le_suc k x ((j, y) ∷ m) = ground (arith, length-insert-le_suc k x m)

-- Dropping the oldest entry of `n + 1` leaves the newest `n`.
newest_part_pop :
    (n : ℕ) (m : RankedObjects)
    → length m ≤ suc n
    → newest_part n m ≡ (if ltb n (length m) then pop_first m else m)
unfolding newest_part
newest_part_pop n [] h = ground arith
newest_part_pop n (e ∷ m) h = ground (arith, newest_part_all n m)

insert-Above :
    (k : Rank) (x : S3Object) (m : RankedObjects)
    → Above rank_order k m
    → insert rank_order k x m ≡ (k, x) ∷ m
unfolding insert
insert-Above k x [] a = refl
insert-Above k x ((j, y) ∷ m) (p, a) = rw (p, insert)

newest_part_drop :
    (n : ℕ) (j k : Rank) (x y : S3Object) (m : RankedObjects)
    → Above rank_order j m
    → n < suc (length m)
    → newest_part n (insert rank_order k x m) ≡ newest_part n (insert rank_order k x ((j, y) ∷ m))
unfolding newest_part insert
newest_part_drop n j k x y m a h = ground (
  arith,
  insert-Above k x m,
  Above-mono rank_order k j m,
  rank_order.cmp_eq k j,
  length-insert-le k x m,
)

-- Dropping the oldest entries before an insertion does not change the newest ones after it.
newest_part-insert :
    (n : ℕ) (k : Rank) (x : S3Object) (m : RankedObjects)
    → IsOrdered rank_order m
    → newest_part n (insert rank_order k x (newest_part n m))
      ≡ newest_part n (insert rank_order k x m)
unfolding newest_part
newest_part-insert n k x [] h = refl
newest_part-insert n k x ((j, y) ∷ m) (a, h) = elim (Bool-cases (ltb n (length ((j, y) ∷ m)))) [
  | inl e ↦ rw e (newest_part-insert n k x m h ∙ newest_part_drop n j k x y m a (ltb→lt _ _ e))
  | inr e ↦ rw e
]

retain_newest-newest_part :
    (n : ℕ) (m : RankedObjects) (x : S3Object)
    → IsOrdered rank_order m
    → retain_newest (newest_part n m) x n ≡ newest_part n (file m x)
unfolding retain_newest
retain_newest-newest_part n m x h =
    let k : Rank = (x.last_modified, x.key) in
    sym (
      newest_part_pop n (file (newest_part n m) x)
        (omega (arith, length-insert-le_suc k x (newest_part n m), length-newest_part n m)))
    ∙ newest_part-insert n k x m h

-- Dropping the oldest object whenever there are too many keeps the newest of all.
pub retain_all-newest_part :
    (n : ℕ) (m : RankedObjects) (xs : List S3Object)
    → IsOrdered rank_order m
    → retain_all n (newest_part n m) xs ≡ newest_part n (file_all m xs)
unfolding retain_all file_all
retain_all-newest_part n m [] h = refl
retain_all-newest_part n m (x ∷ xs) h =
    ap (λ t. retain_all n t xs) (retain_newest-newest_part n m x h)
    ∙ retain_all-newest_part n (file m x) xs (insert-IsOrdered rank_order _ x m h)

-- The listing never holds more than its limit.
pub length-retain_all : (n : ℕ) (xs : List S3Object) → length (retain_all n [] xs) ≤ n
unfolding newest_part
length-retain_all n xs =
    subst (λ t. length t ≤ n) (sym (retain_all-newest_part n [] xs tt))
      (length-newest_part n (file_all [] xs))
