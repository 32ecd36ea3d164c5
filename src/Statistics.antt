-- ===== src/Statistics.antt =====
-- crates/s3pulse-core/src/history.rs: the arrival statistics of a history. An indexing that would
-- panic is `none`.
pub mod Values
pub mod Sizes
pub mod Total
pub mod Health
mod Tests
use s3_pulse.Base.{
  ℕ, suc, ◌-◌, ◌/◌, min, ltb, leb, if◌then◌else◌, Option, none, some, List, [], ◌∷◌, length, head?,
  last?, get_elem?, or_else, filter_some,
}
use s3_pulse.Base.Map.{Map, values}
use s3_pulse.Base.Sort.{sort_by}
use s3_pulse.Base.Text.{Text}
use s3_pulse.Model.{Instant, S3Object}
use s3_pulse.History.{RollingHistory, objects, oldest_first}
use s3_pulse.Statistics.Values.{
  ArrivalInterval, CadenceSource, configured, learned, FeedHealthStatus, unknown, healthy, late,
  SizeStatus, unknown_size, normal, empty, small, large, HealthSeverity, unknown_severity, fine,
  warning, critical, FeedHealth, ArrivalStatistics, HistorySnapshot, Floats,
}
use s3_pulse.Statistics.Sizes.{classify_newest_size, middle}

unfoldable pub chronological_objects : Map Text S3Object → List S3Object
chronological_objects by_key = sort_by oldest_first (values by_key)

abbrev pub arrival_of : Option S3Object → Option Instant
arrival_of none = none
arrival_of (some object) = some object.last_modified

abbrev pub first_arrival_of : List S3Object → Option Instant
first_arrival_of objects = arrival_of (head? objects)

abbrev pub last_arrival_of : List S3Object → Option Instant
last_arrival_of objects = arrival_of (last? objects)

-- `windows(2)`, with what is made of each pair.
abbrev pub windows {ℓ κ} : {A : Type ℓ} {B : Type κ} → (A → A → B) → List A → List B
windows pair [] = []
windows pair (x ∷ []) = []
windows pair (x ∷ y ∷ rest) = pair x y ∷ windows pair (y ∷ rest)

-- The derived order, worst last.
abbrev pub severity_rank : HealthSeverity → ℕ
severity_rank unknown_severity = 0
severity_rank fine = 1
severity_rank warning = 2
severity_rank critical = 3

-- `Ord::max`, which gives its argument on a tie.
abbrev pub worst : HealthSeverity → HealthSeverity → HealthSeverity
worst a b = if ltb (severity_rank b) (severity_rank a) then a else b

abbrev pub by_timing : FeedHealthStatus → HealthSeverity
by_timing unknown = unknown_severity
by_timing healthy = fine
by_timing late = warning

abbrev pub by_size : SizeStatus → HealthSeverity
by_size unknown_size = unknown_severity
by_size normal = fine
by_size large = warning
by_size small = warning
by_size empty = critical

unfoldable pub severity_of : FeedHealthStatus → SizeStatus → HealthSeverity
severity_of status size = worst (by_timing status) (by_size size)

module _ {F : Type 0} (f : Floats F) where
  abbrev pub number : ℕ → F
  number n = (f.double).of_nat n

  -- Milliseconds, of instants in nanoseconds: none before the earlier one.
  unfoldable pub seconds_between : Instant → Instant → F
  seconds_between earlier later =
      (f.double).over (number ((later - earlier) / 1000000)) (number 1000)

  unfoldable pub intervals_for : Map Text S3Object → List (ArrivalInterval F)
  unfolding chronological_objects seconds_between
  intervals_for by_key =
      windows
        (λ previous current. record {
          previous_key = previous.key;
          key = current.key;
          previous_arrival = previous.last_modified;
          arrival = current.last_modified;
          seconds = seconds_between previous.last_modified current.last_modified;
        })
        (chronological_objects by_key)

  -- Where an index is out of range, `none` twice over.
  abbrev pub indexed : Option F → Option (Option F)
  indexed none = none
  indexed (some v) = some (some v)

  unfoldable pub median : List F → Option (Option F)
  unfolding middle
  median [] = some none
  median (x ∷ xs) = indexed (middle f (x ∷ xs))

  unfoldable pub percentile_nearest_rank : List F → F → Option (Option F)
  percentile_nearest_rank [] percentile = some none
  percentile_nearest_rank (x ∷ xs) percentile =
      let rank = f.ceil_usize ((f.double).times percentile (number (length (x ∷ xs)))) in
      indexed (get_elem? (x ∷ xs) (min (rank - 1) (length (x ∷ xs) - 1)))

  unfoldable pub mean : List F → Option F
  mean [] = none
  mean (x ∷ xs) = some ((f.double).over (f.sum (x ∷ xs)) (number (length (x ∷ xs))))

  -- The expected interval, and where it is from.
  unfoldable pub expected_interval : Option ℕ → List F → Option F → Option F × Option CadenceSource
  expected_interval (some (suc n)) intervals median = (some (number (suc n)), some configured)
  expected_interval _ intervals median =
      let candidate = if leb 2 (length intervals) then median else none in
      elim (filter_some (λ seconds. (f.double).less (number 0) seconds) candidate) [
        | none ↦ (none, none)
        | some seconds ↦ (some seconds, some learned)
      ]

  unfoldable pub status_of_gap : Option F → Option F → FeedHealthStatus
  status_of_gap (some gap) (some threshold) =
      if (f.double).less threshold gap then late else healthy
  status_of_gap _ _ = unknown

  -- Since when the feed is late, and by how much.
  unfoldable pub lateness :
      FeedHealthStatus → Option Instant → Option F → Option F → Option Instant × Option F
  lateness late (some last) (some threshold) (some gap) = (
    f.add_millis last (f.as_i64 ((f.double).times threshold (number 1000))),
    some ((f.double).minus gap threshold),
  )
  lateness _ _ _ _ = (none, none)

  unfoldable pub gap_at : Instant → Option Instant → Option F
  unfolding seconds_between
  gap_at as_of none = none
  gap_at as_of (some last) = some (seconds_between (min last as_of) as_of)

  unfoldable pub span_of : Option Instant → Option Instant → F
  unfolding seconds_between
  span_of (some first) (some last) = seconds_between first last
  span_of _ _ = number 0

  abbrev pub map_some : (F → F) → Option F → Option F
  map_some change none = none
  map_some change (some v) = some (change v)

  -- Both axes of the health, from the median of the intervals and the gap to now.
  unfoldable pub health_for : List S3Object → Option ℕ → List F → Option F → Option F → FeedHealth F
  unfolding expected_interval status_of_gap lateness severity_of classify_newest_size
  health_for objects configured_expected intervals median_interval current_gap =
      let cadence = expected_interval configured_expected intervals median_interval in
      let late_after =
        map_some (λ seconds. (f.double).times seconds (f.literal 15 1)) (cadence.0) in
      let status = status_of_gap current_gap late_after in
      let overdue = lateness status (last_arrival_of objects) late_after current_gap in
      let size_status = classify_newest_size f objects in
      record {
        status = status;
        cadence_source = cadence.1;
        expected_interval_seconds = cadence.0;
        late_after_seconds = late_after;
        current_gap_seconds = current_gap;
        late_since = overdue.0;
        overdue_seconds = overdue.1;
        size_status = size_status;
        severity = severity_of status size_status;
      }

  -- The statistics, with the median and the percentile that they have.
  unfoldable pub assemble :
      List S3Object → Instant → Option ℕ → List F → Option F → Option F → ArrivalStatistics F
  unfolding mean gap_at span_of health_for
  assemble objects as_of configured_expected intervals median_interval p95 =
      let current_gap = gap_at as_of (last_arrival_of objects) in
      let observed_span = span_of (first_arrival_of objects) (last_arrival_of objects) in
      let files_per_hour =
        if (f.double).less (number 0) observed_span
        then some (
            (f.double).over ((f.double).times (number (length intervals)) (number 3600))
              observed_span)
        else none in
      record {
        as_of = as_of;
        object_count = length objects;
        interval_count = length intervals;
        first_arrival = first_arrival_of objects;
        last_arrival = last_arrival_of objects;
        mean_interval_seconds = mean intervals;
        median_interval_seconds = median_interval;
        p95_interval_seconds = p95;
        largest_gap_seconds = last? intervals;
        current_gap_seconds = current_gap;
        files_per_hour = files_per_hour;
        files_per_day = map_some (λ per_hour. (f.double).times per_hour (number 24)) files_per_hour;
        health = health_for objects configured_expected intervals median_interval current_gap;
      }

  -- The sorted intervals in seconds.
  unfoldable pub interval_values : List S3Object → List F
  unfolding seconds_between
  interval_values objects =
      sort_by f.total_cmp (windows (λ a b. seconds_between a.last_modified b.last_modified) objects)

  -- With the median and the percentile of the sorted intervals, where no index is out of range.
  unfoldable pub statistics_from :
      List S3Object → List F → Instant → Option ℕ → Option (ArrivalStatistics F)
  statistics_from objects intervals as_of configured_expected = elim (median intervals) [
    | none ↦ none
    | some median_interval ↦ elim (percentile_nearest_rank intervals (f.literal 95 2)) [
      | none ↦ none
      | some p95 ↦ some (assemble objects as_of configured_expected intervals median_interval p95)
    ]
  ]

  unfoldable pub statistics_for :
      Map Text S3Object → Instant → Option ℕ → Option (ArrivalStatistics F)
  unfolding chronological_objects interval_values statistics_from
  statistics_for by_key as_of configured_expected =
      let objects = chronological_objects by_key in
      statistics_from objects (interval_values objects) as_of configured_expected

  -- A snapshot at an instant, where the statistics are there.
  unfoldable pub statistics_at : RollingHistory → Instant → Option ℕ → Option (ArrivalStatistics F)
  unfolding statistics_for
  statistics_at history as_of expected =
      statistics_for history.by_key as_of (or_else expected history.expected_interval_seconds)

  unfoldable pub snapshot_at : RollingHistory → Instant → Option ℕ → Option (HistorySnapshot F)
  unfolding statistics_at intervals_for
  snapshot_at history as_of expected = elim (statistics_at history as_of expected) [
    | none ↦ none
    | some statistics ↦ some (record {
      objects = objects history;
      intervals = intervals_for history.by_key;
      statistics = statistics;
    })
  ]
