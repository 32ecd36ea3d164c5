-- ===== src/History/Ranking.antt =====
-- `newest_first` ranks objects by time and key, and a stable sort by it.
use Prim.Native.Nat.Ordering.{lt}
use s3_pulse.Base.{
  ℕ, ◌≡◌, ◌≢◌, refl, sym, ap, ◌∙◌, Bool, true, false, List, [], ◌∷◌, arith, In, inl, inr, keep,
  Bool-cases, Ordering,
}
use s3_pulse.Base.Order.{Order, pair_order, reverse_order, nat_order}
use s3_pulse.Base.Text.{Text, text_order, same_text_refl}
use s3_pulse.Base.Sort.{is_le, IsComparator, sort_by, place, In-place, In-sort_by}
use s3_pulse.Model.{S3Object}
use s3_pulse.History.{newest_first, oldest_first, contains}

module _ {K : Type 0} (o : Order K) where
  le-total : (a b : K) → is_le (o.cmp a b) ≡ false → is_le (o.cmp b a) ≡ true
  le-total a b h = ground (arith, o.cmp_flip a b)

  le_trans :
      (a b c : K) → is_le (o.cmp a b) ≡ true → is_le (o.cmp b c) ≡ true → is_le (o.cmp a c) ≡ true
  le_trans a b c h k = ground (arith, o.cmp_eq a b, o.cmp_eq b c, o.cmp_trans a b c, o.cmp_refl a)

abbrev newest_order : Order (ℕ × Text)
newest_order = pair_order (reverse_order nat_order) text_order

abbrev rank : S3Object → ℕ × Text
rank x = (x.last_modified, x.key)

newest_first-rank : (x y : S3Object) → newest_first x y ≡ newest_order.cmp (rank x) (rank y)
newest_first-rank x y = refl

pub newest_first-IsComparator : IsComparator newest_first
newest_first-IsComparator = record {
  total = λ a b. le-total newest_order (rank a) (rank b);
  trans = λ a b c. le_trans newest_order (rank a) (rank b) (rank c);
}

abbrev oldest_order : Order (ℕ × Text)
oldest_order = pair_order nat_order text_order

pub oldest_first-IsComparator : IsComparator oldest_first
oldest_first-IsComparator = record {
  total = λ a b. le-total oldest_order (rank a) (rank b);
  trans = λ a b c. le_trans oldest_order (rank a) (rank b) (rank c);
}

-- Objects under different keys are never tied.
pub newest_first_strict :
    (x y : S3Object) → is_le (newest_first x y) ≡ true → x.key ≢ y.key → newest_first x y ≡ lt
newest_first_strict x y h ne = ground (arith, newest_order.cmp_eq (rank x) (rank y), key_eq)
  where
    key_eq : rank x ≡ rank y → x.key ≡ y.key
    key_eq e = ap (λ (t : ℕ × Text). t.1) e

abbrev pub DistinctKeys : List S3Object → Type 0
DistinctKeys [] = Unit {0}
DistinctKeys (x ∷ xs) = ((y : S3Object) → In y xs → y.key ≢ x.key) × DistinctKeys xs

place-DistinctKeys :
    (c : S3Object → S3Object → Ordering) (x : S3Object) (ys : List S3Object)
    → DistinctKeys (x ∷ ys)
    → DistinctKeys (place c x ys)
unfolding place
place-DistinctKeys c x [] d = d
place-DistinctKeys c x (y ∷ ys) (f, (g, d)) = elim (Bool-cases (is_le (c x y))) [
  | inl e ↦ rw e (f, (g, d))
  | inr e ↦ rw e (
    (λ z m. elim (In-place c z x ys m) [
      | inl p ↦ λ q. f y (inl refl) (sym q ∙ ap (λ (t : S3Object). t.key) p)
      | inr n ↦ g z n
    ]),
    place-DistinctKeys c x ys ((λ z m. f z (inr m)), d),
  )
]

pub sort_by-DistinctKeys :
    (c : S3Object → S3Object → Ordering) (xs : List S3Object)
    → DistinctKeys xs
    → DistinctKeys (sort_by c xs)
unfolding sort_by
sort_by-DistinctKeys c [] d = d
sort_by-DistinctKeys c (x ∷ xs) (f, d) =
    place-DistinctKeys c x (sort_by c xs)
      ((λ y m. f y (In-sort_by c y xs m)), sort_by-DistinctKeys c xs d)

pub keep_congr :
    {A : Type 0} (p q : A → Bool) (xs : List A)
    → ((a : A) → In a xs → p a ≡ q a)
    → keep p xs ≡ keep q xs
keep_congr p q [] h = refl
keep_congr p q (x ∷ xs) h = ground (arith, h x (inl refl), keep_congr p q xs (λ a m. h a (inr m)))

pub contains_name :
    (names : List Text) (x : S3Object) → In x.key names → contains names x.key ≡ true
contains_name [] x h = elim h [ ]
contains_name (n ∷ names) x (inl e) = rw e (ground (arith, same_text_refl n))
contains_name (n ∷ names) x (inr h) = ground (arith, contains_name names x h)
