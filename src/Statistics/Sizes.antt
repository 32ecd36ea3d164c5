-- ===== src/Statistics/Sizes.antt =====
-- crates/s3pulse-core/src/history.rs: `classify_newest_size` and `median_of_sorted`.
use Prim.Native.Nat.Ordering.{eq}
use s3_pulse.Base.{
  ℕ, zero, suc, ◌-◌, ◌/◌, ◌%◌, ltb, leb, ◌==◌, if◌then◌else◌, ◌&&◌, ◌||◌, Option, none, some, List,
  [], ◌∷◌, map, length, get_elem?, keep, unwrap_or, Ordering,
}
use s3_pulse.Base.Sort.{sort_by}
use s3_pulse.Model.{S3Object}
use s3_pulse.Statistics.Values.{SizeStatus, unknown_size, normal, empty, small, large, Floats}

abbrev pub min_size_observations : ℕ
min_size_observations = 8

-- `max_by` on the time of the last modification: the last of the greatest.
unfoldable pub newest_from : S3Object → List S3Object → S3Object
newest_from best [] = best
newest_from best (object ∷ rest) =
    newest_from (if ltb object.last_modified best.last_modified then best else object) rest

module _ {F : Type 0} (f : Floats F) where
  -- `median` and `median_of_sorted`: an index out of range is `none` in both.
  unfoldable pub middle : List F → Option F
  middle [] = none
  middle (x ∷ xs) =
      let n = length (x ∷ xs) in
      if n % 2 == 1 then get_elem? (x ∷ xs) (n / 2) else elim (get_elem? (x ∷ xs) (n / 2 - 1)) [
        | none ↦ none
        | some low ↦ elim (get_elem? (x ∷ xs) (n / 2)) [
          | none ↦ none
          | some high ↦ some ((f.double).over ((f.double).plus low high) ((f.double).of_nat 2))
        ]
      ]

  -- `partial_cmp(..).unwrap_or(Ordering::Equal)`.
  abbrev pub by_value : F → F → Ordering
  by_value left right = unwrap_or (f.partial_cmp left right) eq

  abbrev pub nought : F
  nought = (f.double).of_nat 0

  -- The scale of the deviations on one side of the median.
  unfoldable pub scale_of : F → List F → F
  unfolding middle
  scale_of median deviations =
      f.greater
        ((f.double).times (unwrap_or (middle (sort_by by_value deviations)) nought)
          (f.literal 14826 4))
        ((f.double).times median (f.literal 1 1))

  unfoldable pub lower_scale : F → List F → F
  unfolding scale_of
  lower_scale median sizes =
      scale_of median (
        map (λ value. (f.double).minus median value) (keep (λ value. f.at_most value median) sizes))

  unfoldable pub upper_scale : F → List F → F
  unfolding scale_of
  upper_scale median sizes =
      scale_of median (
        map (λ value. (f.double).minus value median) (keep (λ value. f.at_most median value) sizes))

  -- The end of the classification, by the score of a size that is not zero.
  unfoldable pub classify_score : F → F → List F → SizeStatus
  unfolding lower_scale upper_scale
  classify_score size median sizes =
      let scale =
        if (f.double).less size median
        then lower_scale median sizes
        else upper_scale median sizes in
      if f.at_most scale nought
      then normal
      else let score = (f.double).over ((f.double).minus size median) scale in
        if f.at_most score (f.negate (f.literal 35 1))
        then small
        else if f.at_most (f.literal 35 1) score
        then large
        else normal

  unfoldable pub classify_size : ℕ → F → List F → SizeStatus
  unfolding classify_score
  classify_size zero median sizes =
      if (f.double).less nought median && leb 2 (length sizes) then empty else normal
  classify_size (suc n) median sizes =
      if ltb (length sizes) min_size_observations || f.at_most median nought
      then unknown_size
      else classify_score ((f.double).of_nat (suc n)) median sizes

  unfoldable pub classify_newest_size : List S3Object → SizeStatus
  unfolding newest_from middle classify_size
  classify_newest_size [] = unknown_size
  classify_newest_size (object ∷ rest) =
      let sizes = sort_by by_value (map (λ o. (f.double).of_nat o.size) (object ∷ rest)) in
      elim (middle sizes) [
        | none ↦ unknown_size
        | some median ↦ classify_size (newest_from object rest).size median sizes
      ]
