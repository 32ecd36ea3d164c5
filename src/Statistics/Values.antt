-- ===== src/Statistics/Values.antt =====
-- crates/s3pulse-core/src/model.rs: the intervals between arrivals, the health of a feed and the
-- statistics. F is the type of an `f64`.
use s3_pulse.Base.{ℕ, Bool, List, Option, Ordering}
use s3_pulse.Base.Int.{ℤ}
use s3_pulse.Base.Text.{Text}
use s3_pulse.Base.Double.{Double}
use s3_pulse.Model.{Instant, S3Object}

pub record ArrivalInterval (F : Type 0) : Type 0 where
  pub previous_key : Text
  pub key : Text
  pub previous_arrival : Instant
  pub arrival : Instant
  pub seconds : F

pub data CadenceSource : Type 0 where
  configured learned : CadenceSource

pub data FeedHealthStatus : Type 0 where
  unknown healthy late : FeedHealthStatus

pub data SizeStatus : Type 0 where
  unknown_size normal empty small large : SizeStatus

pub data HealthSeverity : Type 0 where
  unknown_severity fine warning critical : HealthSeverity

pub record FeedHealth (F : Type 0) : Type 0 where
  pub status : FeedHealthStatus
  pub cadence_source : Option CadenceSource
  pub expected_interval_seconds : Option F
  pub late_after_seconds : Option F
  pub current_gap_seconds : Option F
  pub late_since : Option Instant
  pub overdue_seconds : Option F
  pub size_status : SizeStatus
  pub severity : HealthSeverity

pub record ArrivalStatistics (F : Type 0) : Type 0 where
  pub as_of : Instant
  pub object_count : ℕ
  pub interval_count : ℕ
  pub first_arrival : Option Instant
  pub last_arrival : Option Instant
  pub mean_interval_seconds : Option F
  pub median_interval_seconds : Option F
  pub p95_interval_seconds : Option F
  pub largest_gap_seconds : Option F
  pub current_gap_seconds : Option F
  pub files_per_hour : Option F
  pub files_per_day : Option F
  pub health : FeedHealth F

pub record HistorySnapshot (F : Type 0) : Type 0 where
  pub objects : List S3Object
  pub intervals : List (ArrivalInterval F)
  pub statistics : ArrivalStatistics F

-- The rest of what the code does with an `f64`: a literal n / 10^k, the conversions `ceil() as usize`
-- and `as i64`, the comparison `<=`, `max`, the sum of an iterator, and the orders `total_cmp` and
-- `partial_cmp`. `add_millis` is
-- `DateTime::checked_add_signed` of a duration in milliseconds.
pub record Floats (F : Type 0) : Type 0 where
  pub double : Double F
  pub literal : ℕ → ℕ → F
  pub ceil_usize : F → ℕ
  pub as_i64 : F → ℤ
  pub negate : F → F
  pub at_most : F → F → Bool
  pub greater : F → F → F
  pub sum : List F → F
  pub total_cmp : F → F → Ordering
  pub partial_cmp : F → F → Option Ordering
  pub add_millis : Instant → ℤ → Option Instant
