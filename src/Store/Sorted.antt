-- ===== src/Store/Sorted.antt =====
-- What `finish_newest` makes of a bounded selection.
use Prim.Native.Nat.Ordering.{lt}
use s3_pulse.Base.{
  ℕ, zero, suc, ◌≤◌, ltb, ◌≡◌, refl, sym, ap, ◌∙◌, subst, List, [], ◌∷◌, ◌++◌, arith, In, inl, inr,
  false, Bool-cases, take, length, take_all, ltb→lt,
}
use mathlib.Core.Path.{subst₂}
use s3_pulse.Base.Text.{text_order}
use s3_pulse.Base.Sort.{is_le, sort_by, place, In-sort_by, length-sort_by}
use s3_pulse.Base.Map.{insert, values, Above, IsOrdered, insert-IsOrdered}
use s3_pulse.Model.{S3Object}
use s3_pulse.History.{newest_first}
use s3_pulse.Store.{Rank, rank_order, RankedObjects, finish_newest}
use s3_pulse.Store.Newest.{newest_part, file, file_all, retain_all, retain_all-newest_part}

place_last :
    (x : S3Object) (ys : List S3Object)
    → ((y : S3Object) → In y ys → is_le (newest_first x y) ≡ false)
    → place newest_first x ys ≡ ys ++ x ∷ []
unfolding place
place_last x [] f = refl
place_last x (y ∷ ys) f = rw (f y (inl refl)) (ap (◌∷◌ y) (place_last x ys (λ z n. f z (inr n))))

take-append_left : (n : ℕ) (xs ys : List S3Object) → n ≤ length xs → take n (xs ++ ys) ≡ take n xs
take-append_left zero xs ys h = refl
take-append_left (suc n) [] ys h = absurd (omega arith)
take-append_left (suc n) (x ∷ xs) ys h = ap (◌∷◌ x) (take-append_left n xs ys (omega arith))

-- Each object is filed under its own rank.
abbrev IsRanked : RankedObjects → Type 0
IsRanked [] = Unit {0}
IsRanked ((k, x) ∷ m) = (k ≡ (x.last_modified, x.key)) × IsRanked m

insert-IsRanked : (x : S3Object) (m : RankedObjects) → IsRanked m → IsRanked (file m x)
unfolding insert
insert-IsRanked x [] g = (refl, tt)
insert-IsRanked x ((j, y) ∷ m) (e, g) = ground (arith, insert-IsRanked x m g)

rank_older :
    (x y : S3Object)
    → rank_order.cmp (x.last_modified, x.key) (y.last_modified, y.key) ≡ lt
    → is_le (newest_first x y) ≡ false
rank_older x y h = ground (arith, text_order.cmp_flip y.key x.key)

older :
    (k : Rank) (x : S3Object) (m : RankedObjects) (y : S3Object)
    → k ≡ (x.last_modified, x.key)
    → Above rank_order k m
    → IsRanked m
    → In y (values m)
    → is_le (newest_first x y) ≡ false
older k x [] y q a g n = elim n [ ]
older k x ((j, z) ∷ m) y q (p, a) (e, g) (inl r) = rank_older x y (
    subst (λ (t : S3Object). rank_order.cmp (x.last_modified, x.key) (t.last_modified, t.key) ≡ lt)
      (sym r) (subst₂ (λ s t. rank_order.cmp s t ≡ lt) q e p))
older k x ((j, z) ∷ m) y q (p, a) (e, g) (inr n) = older k x m y q a g n

file_all-IsOrdered :
    (xs : List S3Object) (m : RankedObjects)
    → IsOrdered rank_order m
    → IsOrdered rank_order (file_all m xs)
unfolding file_all
file_all-IsOrdered [] m h = h
file_all-IsOrdered (x ∷ xs) m h = file_all-IsOrdered xs _ (insert-IsOrdered rank_order _ x m h)

file_all-IsRanked : (xs : List S3Object) (m : RankedObjects) → IsRanked m → IsRanked (file_all m xs)
unfolding file_all
file_all-IsRanked [] m g = g
file_all-IsRanked (x ∷ xs) m g = file_all-IsRanked xs _ (insert-IsRanked x m g)

length-ranked : (m : RankedObjects) → length (sort_by newest_first (values m)) ≡ length m
length-ranked m = length-sort_by newest_first (values m) ∙ go m
  where
    go : (n : RankedObjects) → length (values n) ≡ length n
    go [] = refl
    go (e ∷ n) = ap suc (go n)

-- Sorting the newest part is the front of sorting the whole.
sort_by-newest_part :
    (n : ℕ) (m : RankedObjects)
    → IsOrdered rank_order m
    → IsRanked m
    → finish_newest (newest_part n m) ≡ take n (finish_newest m)
unfolding finish_newest newest_part sort_by
sort_by-newest_part n [] h g = sym (take_all n [] (omega arith))
sort_by-newest_part n ((k, x) ∷ m) (a, h) (e, g) = elim (Bool-cases (ltb n (length ((k, x) ∷ m)))) [
  | inl t ↦ rw t (
      sort_by-newest_part n m h g
      ∙ sym (
          ap (take n) last
          ∙ take-append_left n _ (x ∷ []) (omega (arith, length-ranked m, ltb→lt _ _ t))))
  | inr t ↦ rw t (sym (take_all n _ (ground (arith, length-ranked ((k, x) ∷ m)))))
]
  where
    last : sort_by newest_first (values ((k, x) ∷ m)) ≡ sort_by newest_first (values m) ++ x ∷ []
    last =
        unfold sort_by in
        place_last x (sort_by newest_first (values m))
          (λ y n'. older k x m y e a g (In-sort_by newest_first y (values m) n'))

-- Listing with a bound and then sorting gives the first `n` of all that was listed, newest first
-- and ties by key.
pub finish_newest-retain_all :
    (n : ℕ) (xs : List S3Object)
    → finish_newest (retain_all n [] xs) ≡ take n (finish_newest (file_all [] xs))
unfolding newest_part
finish_newest-retain_all n xs =
    ap finish_newest (retain_all-newest_part n [] xs tt)
    ∙ sort_by-newest_part n (file_all [] xs) (file_all-IsOrdered xs [] tt)
        (file_all-IsRanked xs [] tt)
