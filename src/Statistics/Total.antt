-- ===== src/Statistics/Total.antt =====
-- The statistics are there for every history, and what they count.
use s3_pulse.Base.{
  ℕ, zero, suc, ◌-◌, ◌/◌, ◌%◌, ◌<◌, min, ◌≡◌, refl, ◌∙◌, ap, ◌==◌, Option, none, some, List, [],
  ◌∷◌, length, get_elem?, arith, inl, inr, Bool-cases,
}
use s3_pulse.Base.Text.{Text}
use s3_pulse.Base.Map.{Map, values}
use s3_pulse.Base.Sort.{length-sort_by}
use s3_pulse.Model.{Instant, S3Object}
use s3_pulse.History.{oldest_first}
use s3_pulse.Statistics.Values.{ArrivalStatistics, Floats}
use s3_pulse.Statistics.Sizes.{middle}
use s3_pulse.Statistics.{
  chronological_objects, windows, median, percentile_nearest_rank, interval_values, assemble,
  statistics_from, statistics_for, number,
}

get_elem?-some :
    {A : Type 0} (xs : List A) (i : ℕ) → i < length xs → (a : A) × (get_elem? xs i ≡ some a)
get_elem?-some [] i h = absurd (omega arith)
get_elem?-some (x ∷ xs) zero h = (x, refl)
get_elem?-some (x ∷ xs) (suc i) h = get_elem?-some xs i (omega arith)

length-windows :
    {A B : Type 0} (pair : A → A → B) (xs : List A) → length (windows pair xs) ≡ length xs - 1
length-windows pair [] = refl
length-windows pair (x ∷ []) = refl
length-windows pair (x ∷ y ∷ rest) = omega (arith, length-windows pair (y ∷ rest))

module _ {F : Type 0} (f : Floats F) where
  middle-some : (x : F) (xs : List F) → (v : F) × (middle f (x ∷ xs) ≡ some v)
  unfolding middle
  middle-some x xs =
      let n = length (x ∷ xs) in
      let (high, h) = get_elem?-some (x ∷ xs) (n / 2) (omega arith) in
      elim (Bool-cases (n % 2 == 1)) [
        | inl e ↦ (high, rw e h)
        | inr e ↦
            let (low, l) = get_elem?-some (x ∷ xs) (n / 2 - 1) (omega arith) in
            ((f.double).over ((f.double).plus low high) ((f.double).of_nat 2), rw (e, l, h) refl)
      ]

  median_total : (xs : List F) → (m : Option F) × (median f xs ≡ some m)
  unfolding median
  median_total [] = (none, refl)
  median_total (x ∷ xs) = let (v, e) = middle-some x xs in (some v, rw e refl)

  percentile_total :
      (xs : List F) (percentile : F)
      → (m : Option F) × (percentile_nearest_rank f xs percentile ≡ some m)
  unfolding percentile_nearest_rank
  percentile_total [] percentile = (none, refl)
  percentile_total (x ∷ xs) percentile =
      let rank = f.ceil_usize ((f.double).times percentile (number f (length (x ∷ xs)))) in
      let (v, e) = get_elem?-some (x ∷ xs) (min (rank - 1) (length (x ∷ xs) - 1)) (omega arith) in
      (some v, rw e refl)

  pub statistics_from_total :
      (objects : List S3Object) (intervals : List F) (as_of : Instant)
      (configured_expected : Option ℕ)
      → (m : Option F) × (p : Option F) × (statistics_from f objects intervals as_of
            configured_expected
          ≡ some (assemble f objects as_of configured_expected intervals m p))
  unfolding statistics_from
  statistics_from_total objects intervals as_of configured_expected =
      let (m, e) = median_total intervals in
      let (p, e') = percentile_total intervals (f.literal 95 2) in
      (m, p, rw (statistics_from, e, e') refl)

  length-interval_values :
      (objects : List S3Object) → length (interval_values f objects) ≡ length objects - 1
  unfolding interval_values
  length-interval_values objects = length-sort_by f.total_cmp _ ∙ length-windows _ objects

  length-chronological_objects :
      (by_key : Map Text S3Object) → length (chronological_objects by_key) ≡ length (values by_key)
  unfolding chronological_objects
  length-chronological_objects by_key = length-sort_by oldest_first (values by_key)

  -- No index of the statistics is out of range, whatever the operations of the numbers give: every
  -- history has statistics, with the number of its objects and one interval less.
  pub statistics_for-total :
      (by_key : Map Text S3Object) (as_of : Instant) (configured_expected : Option ℕ)
      → (statistics : ArrivalStatistics F) × (statistics_for f by_key as_of configured_expected
          ≡ some statistics)
        × (statistics.object_count ≡ length (values by_key))
        × (statistics.interval_count ≡ length (values by_key) - 1)
  unfolding statistics_for assemble
  statistics_for-total by_key as_of configured_expected =
      let objects = chronological_objects by_key in
      let intervals = interval_values f objects in
      let (m, p, e) = statistics_from_total objects intervals as_of configured_expected in
      let count = length-chronological_objects by_key in
      (
        assemble f objects as_of configured_expected intervals m p,
        e,
        count,
        length-interval_values objects ∙ ap (λ n. n - 1) count,
      )
