-- ===== src/Template/Resolve.antt =====
-- crates/s3pulse-core/src/template.rs: rendering a template, stepping back by its granularity, and
-- the prefixes to watch. The calendar of chrono and the zones of chrono-tz are a parameter.
use s3_pulse.Base.{
  ℕ, zero, suc, ◌+◌, ◌-◌, ◌^◌, ◌%◌, min, ◌==◌, if◌then◌else◌, Bool, ◌&&◌, ◌||◌, not, Option, none,
  some, List, [], ◌∷◌, ◌++◌, unwrap_or, any,
}
use s3_pulse.Base.Int.{ℤ, add_nat, sub_nat, mul_suc, div_euclid, rem_euclid, wrap_i32}
use s3_pulse.Base.Digits.{decimal, pad, pad_int}
use s3_pulse.Base.Text.{Text, same_text}
use s3_pulse.Model.{Instant}
use s3_pulse.Template.{
  Field, year4, year2, month2, month1, day2, day1, hour2, hour1, Segment, literal, field,
  Granularity, hour, day, month, year, DateTemplate,
}

-- What the code uses of `NaiveDateTime` (`T`) and of `Tz` (`Z`). A subtraction of a duration is
-- `none` where the operator panics, and `date_time` is `none` where no such time of day exists.
pub record Calendar (T Z : Type 0) : Type 0 where
  pub year_of : T → ℤ
  pub month_of : T → ℕ
  pub day_of : T → ℕ
  pub hour_of : T → ℕ
  pub minute_of : T → ℕ
  pub second_of : T → ℕ
  pub sub_hours : T → ℕ → Option T
  pub sub_days : T → ℕ → Option T
  pub date_time : ℤ → ℕ → ℕ → ℕ → ℕ → ℕ → Option T
  pub naive_local : Z → Instant → T

abbrev pub is_leap : ℤ → Bool
is_leap y = ((rem_euclid y 4 == 0) && not (rem_euclid y 100 == 0)) || (rem_euclid y 400 == 0)

unfoldable pub days_in_month : ℤ → ℕ → ℕ
days_in_month y m =
    if m == 1 || m == 3 || m == 5 || m == 7 || m == 8 || m == 10 || m == 12
    then 31
    else if m == 4 || m == 6 || m == 9 || m == 11
    then 30
    else if m == 2
    then (if is_leap y then 29 else 28)
    else 31

-- The year and the month that are `steps` months back.
abbrev pub months_back : ℤ → ℕ → ℕ → ℤ × ℕ
months_back y m steps =
    let months = sub_nat (add_nat (mul_suc y 11) (m - 1)) steps in
    (div_euclid months 12, rem_euclid months 12 + 1)

-- `year - steps as i32`.
abbrev pub years_back : ℤ → ℕ → ℤ
years_back y steps = wrap_i32 (sub_nat y (steps % 2 ^ 32))

module _ {T Z : Type 0} (calendar : Calendar T Z) where
  unfoldable pub render_field : Field → T → Text
  render_field year4 at = pad_int 4 (calendar.year_of at)
  render_field year2 at = pad 2 (decimal (rem_euclid (calendar.year_of at) 100))
  render_field month2 at = pad 2 (decimal (calendar.month_of at))
  render_field month1 at = decimal (calendar.month_of at)
  render_field day2 at = pad 2 (decimal (calendar.day_of at))
  render_field day1 at = decimal (calendar.day_of at)
  render_field hour2 at = pad 2 (decimal (calendar.hour_of at))
  render_field hour1 at = decimal (calendar.hour_of at)

  -- The loop over the segments.
  unfoldable pub render_segments : List Segment → T → Text
  unfolding render_field
  render_segments [] at = []
  render_segments (literal text ∷ rest) at = text ++ render_segments rest at
  render_segments (field f ∷ rest) at = render_field f at ++ render_segments rest at

  unfoldable pub render : DateTemplate → T → Text
  unfolding render_segments
  render template at = render_segments template.segments at

  abbrev pub naive : ℤ → ℕ → ℕ → T → Option T
  naive y m d at =
      calendar.date_time y m d (calendar.hour_of at) (calendar.minute_of at) (calendar.second_of at)

  -- By at least one step; `none` is a panic.
  unfoldable pub step_by : Granularity → T → ℕ → Option T
  unfolding days_in_month
  step_by hour at steps = calendar.sub_hours at steps
  step_by day at steps = calendar.sub_days at steps
  step_by month at steps =
      let (y, m) = months_back (calendar.year_of at) (calendar.month_of at) steps in
      some (unwrap_or (naive y m (min (calendar.day_of at) (days_in_month y m)) at) at)
  step_by year at steps =
      let y = years_back (calendar.year_of at) steps in
      let m = calendar.month_of at in
      some (unwrap_or (naive y m (min (calendar.day_of at) (days_in_month y m)) at) at)

  unfoldable pub step_back : DateTemplate → T → ℕ → Option T
  unfolding step_by
  step_back template at steps =
      if steps == 0 then some at else step_by template.granularity at steps

  -- Rounds `step` and up of the loop, `count` of them.
  unfoldable pub resolve_from : DateTemplate → T → ℕ → ℕ → List Text → Option (List Text)
  unfolding step_back render
  resolve_from template local zero step prefixes = some prefixes
  resolve_from template local (suc count) step prefixes = elim (step_back template local step) [
    | none ↦ none
    | some moment ↦
        let rendered = render template moment in
        resolve_from template local count (suc step)
          (if any (same_text rendered) prefixes then prefixes else prefixes ++ rendered ∷ [])
  ]

  unfoldable pub resolve : DateTemplate → Instant → ℕ → Z → Option (List Text)
  unfolding resolve_from
  resolve template at lookback zone =
      resolve_from template (calendar.naive_local zone at) (suc lookback) 0 []
