-- ===== src/Statistics/Tests.antt =====
-- The statistics of four arrivals, in whole numbers.
use Prim.Native.Nat.{compare}
use s3_pulse.Base.{
  ℕ, ◌+◌, ◌-◌, ◌*◌, ◌/◌, ◌^◌, ◌≡◌, refl, max, ltb, leb, Option, none, some, List, [], ◌∷◌, length,
}
use s3_pulse.Base.Int.{ℤ, pos}
use s3_pulse.Base.Text.{Text, codes}
use s3_pulse.Base.Map.{Map, values}
use s3_pulse.Base.Sort.{sort_by, place}
use s3_pulse.Model.{S3Object}
use s3_pulse.Statistics.Values.{ArrivalStatistics, HealthSeverity, Floats, critical}
use s3_pulse.Statistics.{statistics_for, statistics_from, assemble, median, percentile_nearest_rank}
use s3_pulse.Statistics.Total.{statistics_for-total}

abbrev total : List ℕ → ℕ
total [] = 0
total (x ∷ xs) = x + total xs

abbrev magnitude : ℕ → ℤ
magnitude n = pos n

abbrev whole : Floats ℕ
whole = record {
  double = record { of_nat = λ n. n; plus = ◌+◌; minus = ◌-◌; times = ◌*◌; over = ◌/◌; less = ltb };
  literal = λ n k. n / 10 ^ k;
  ceil_usize = λ n. n;
  as_i64 = magnitude;
  negate = λ n. 0;
  at_most = leb;
  greater = max;
  sum = total;
  total_cmp = compare;
  partial_cmp = λ a b. some (compare a b);
  add_millis = λ at millis. some at;
}

abbrev arrival : Text → ℕ → ℕ → Text × S3Object
arrival key seconds size = (
  key,
  record {
    key = key;
    last_modified = seconds * 1000000000;
    size = size;
    etag = none;
    storage_class = none;
  },
)

abbrev arrivals : Map Text S3Object
arrivals =
    arrival (codes "a") 10 5
    ∷ arrival (codes "b") 20 5
    ∷ arrival (codes "c") 40 5
    ∷ arrival (codes "d") 50 0
    ∷ []

abbrev now : ℕ
now = 90 * 1000000000

abbrev found : ArrivalStatistics ℕ
found = (statistics_for-total whole arrivals now none).0

statistics_for-total_example :
    (statistics : ArrivalStatistics ℕ) × (statistics_for whole arrivals now none ≡ some statistics)
    × (statistics.object_count ≡ length (values arrivals))
    × (statistics.interval_count ≡ length (values arrivals) - 1)
statistics_for-total_example = statistics_for-total whole arrivals now none

abbrev severity_in : Option (ArrivalStatistics ℕ) → Option HealthSeverity
severity_in none = none
severity_in (some statistics) = some (statistics.health).severity

empty_arrival : severity_in (statistics_for whole arrivals now none) ≡ some critical
unfolding statistics_for statistics_from assemble median percentile_nearest_rank sort_by place
empty_arrival = refl
