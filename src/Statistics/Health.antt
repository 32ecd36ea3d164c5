-- ===== src/Statistics/Health.antt =====
-- What the two axes of a feed's health say.
use s3_pulse.Base.{max, ◌≡◌, true, false, Option, none, some, ◌⊎◌, ◌↔◌}
use s3_pulse.Base.Text.{Text}
use s3_pulse.Base.Map.{Map}
use s3_pulse.Model.{Instant}
use s3_pulse.Statistics.Values.{unknown, healthy, late, empty, critical, FeedHealth, Floats}
use s3_pulse.Statistics.{
  severity_rank, by_timing, by_size, status_of_gap, lateness, gap_at, map_some,
}

module _ {F : Type 0} (f : Floats F) where
  -- The threshold is one and a half expected intervals. With a gap and a threshold the feed is late,
  -- overdue by the difference, exactly if the gap is beyond the threshold, and else healthy; without
  -- one of them it is unknown. No lateness is given where the feed is not late.
  abbrev pub Timed : FeedHealth F → F → F → Type 0
  Timed health gap threshold =
      (((f.double).less threshold gap ≡ true)
        × (health.status ≡ late)
        × (health.overdue_seconds ≡ some ((f.double).minus gap threshold)))
      ⊎ (((f.double).less threshold gap ≡ false)
          × (health.status ≡ healthy)
          × (health.late_since ≡ none)
          × (health.overdue_seconds ≡ none))

  abbrev pub Untimed : FeedHealth F → Type 0
  Untimed health =
      ((health.current_gap_seconds ≡ none) ⊎ (health.late_after_seconds ≡ none))
      × (health.status ≡ unknown)
      × (health.late_since ≡ none)
      × (health.overdue_seconds ≡ none)

  abbrev pub Timing : FeedHealth F → Type 0
  Timing health =
      (health.late_after_seconds
        ≡ map_some f (λ seconds. (f.double).times seconds (f.literal 15 1))
            health.expected_interval_seconds)
      × (((gap : F) × (threshold : F) × (health.current_gap_seconds ≡ some gap)
            × (health.late_after_seconds ≡ some threshold)
            × Timed health gap threshold)
          ⊎ Untimed health)

  -- The worse of the two axes, and critical exactly when the size axis says empty.
  abbrev pub IsWorst : FeedHealth F → Type 0
  IsWorst health =
      (severity_rank health.severity
        ≡ max (severity_rank (by_timing health.status))
            (severity_rank (by_size health.size_status)))
      × ((health.severity ≡ critical) ↔ (health.size_status ≡ empty))

  -- The two axes' fields that depend on the gap since an arrival and on the threshold.
  abbrev aged : FeedHealth F → Instant → Option Instant → Option F → FeedHealth F
  aged health as_of last late_after =
      let gap = gap_at f as_of last in
      let status = status_of_gap f gap late_after in
      let overdue = lateness f status last late_after gap in
      record health {
        status = status;
        late_after_seconds = late_after;
        current_gap_seconds = gap;
        late_since = overdue.0;
        overdue_seconds = overdue.1;
      }
