-- ===== src/Template/Tests.antt =====
-- Runs of the templates on inputs of the unit tests of template.rs, and the theorems at a calendar.
use s3_pulse.Base.{
  zero, ℕ, suc, ◌-◌, ◌%◌, ◌≤◌, ◌<◌, min, ltb, leb, ◌≡◌, ◌↔◌, refl, none, some, Option, List, [],
  ◌∷◌, ◌++◌, true, ok, err, arith, Bool, ◌&&◌, if◌then◌else◌, In,
}
use s3_pulse.Base.Int.{ℤ, pos, negsuc, add_nat}
use s3_pulse.Template.Resolve.{
  Calendar, days_in_month, naive, render, render_segments, render_field, step_back, step_by,
  resolve, resolve_from,
}
use s3_pulse.Template.Matching.{IsRenderable, matches-render}
use s3_pulse.Template.Window.{InWindow, resolve_iff, resolve_total}
use s3_pulse.Base.Distinct.{IsDistinct}
use s3_pulse.Template.Notation.{Reads, write, parse-write, escape, parse-escape}
use s3_pulse.Template.Months.{IsCalendar, InRange, month_number, step_back_months}
use s3_pulse.Base.Text.{codes}
use s3_pulse.Template.{
  DateTemplate, Segment, literal, field, year4, month2, month1, day2, day, month, parse,
  parse_field, scan, matches, matches_segments, minutes_not_months, unmatched_brace,
  unclosed_placeholder,
}

abbrev adjacent : DateTemplate
adjacent = record {
  segments = literal (codes "a{") ∷ field month1 ∷ field day2 ∷ literal (codes "/") ∷ [];
  granularity = day;
}

parses : parse (codes "a{{{M}{dd}/") ≡ ok (some adjacent)
unfolding parse scan parse_field
parses = refl

minutes : parse (codes "{yyyy}/{mm}/") ≡ err minutes_not_months
unfolding parse scan parse_field
minutes = refl

unmatched : parse (codes "yyyy}/") ≡ err unmatched_brace
unfolding parse scan
unmatched = refl

unclosed : parse (codes "{yyyy/") ≡ err unclosed_placeholder
unfolding parse scan
unclosed = refl

short_month : matches adjacent (codes "a{901/x") ≡ true
unfolding matches matches_segments
short_month = refl

long_month : matches adjacent (codes "a{1201/x") ≡ true
unfolding matches matches_segments
long_month = refl

-- Local times of which every value has a date that exists: the day is cut to the month.
pub record Moment : Type 0 where
  pub at_year : ℤ
  pub at_month : ℕ
  pub at_day : ℕ
  pub at_hour : ℕ

abbrev in_range : ℤ → Bool
in_range (pos n) = leb n 262142
in_range (negsuc n) = leb n 262142

abbrev month_in : Moment → ℕ
month_in t = suc (t.at_month % 12)

abbrev date_time : ℤ → ℕ → ℕ → ℕ → ℕ → ℕ → Option Moment
date_time y m d h minute second =
    if in_range y && ltb 0 m && leb m 12 && ltb 0 d && leb d (days_in_month y m)
    then some (record { at_year = y; at_month = m - 1; at_day = d - 1; at_hour = h })
    else none

abbrev sub_days : Moment → ℕ → Option Moment
sub_days t n = if ltb n t.at_day then some (record t { at_day = t.at_day - n }) else none

abbrev sub_hours : Moment → ℕ → Option Moment
sub_hours t n = if leb n t.at_hour then some (record t { at_hour = t.at_hour - n }) else none

abbrev pub gregorian : Calendar Moment (Unit {0})
gregorian = record {
  year_of = λ t. t.at_year;
  month_of = month_in;
  day_of = λ t. min (suc t.at_day) (days_in_month t.at_year (month_in t));
  hour_of = λ t. t.at_hour % 24;
  minute_of = λ t. 0;
  second_of = λ t. 0;
  sub_hours = sub_hours;
  sub_days = sub_days;
  date_time = date_time;
  naive_local = λ zone at. record { at_year = pos 2026; at_month = 2; at_day = 30; at_hour = at };
}

abbrev pub end_of_march : Moment
end_of_march = record { at_year = pos 2026; at_month = 2; at_day = 30; at_hour = 9 }

days_positive : (y : ℤ) (m : ℕ) → 0 < days_in_month y m
unfolding days_in_month
days_positive y m = ground arith

in_range_of : (y : ℤ) → InRange y → in_range y ≡ true
in_range_of (pos n) h = ground arith
in_range_of (negsuc n) h = ground arith

made :
    (y : ℤ) (m d : ℕ) (t : Moment)
    → InRange y
    → 0 < m
    → m ≤ 12
    → 0 < d
    → d ≤ days_in_month y m
    → (x : Moment) × (naive gregorian y m d t ≡ some x)
      × (x.at_year ≡ y)
      × (month_in x ≡ m)
      × (min (suc x.at_day) (days_in_month x.at_year (month_in x)) ≡ d)
made y m d t r lo hi first last =
    let same : suc ((m - 1) % 12) ≡ m = omega arith in
    (
      record { at_year = y; at_month = m - 1; at_day = d - 1; at_hour = t.at_hour % 24 },
      ground (arith, in_range_of y r),
      refl,
      same,
      rw same (omega arith),
    )

gregorian-IsCalendar : IsCalendar gregorian
gregorian-IsCalendar = record {
  month_positive = λ t. omega arith;
  day_positive = λ t. omega (arith, days_positive t.at_year (month_in t));
  day_le = λ t. omega arith;
  exists = made;
}

abbrev pub monthly : DateTemplate
monthly = record {
  segments = field year4 ∷ literal (codes "/") ∷ field month2 ∷ literal (codes "/") ∷ [];
  granularity = month;
}

pub end_of_march-IsRenderable : IsRenderable gregorian end_of_march
end_of_march-IsRenderable = record {
  common_year = 2026;
  year_of = refl;
  year_lt = omega arith;
  month_lt = omega arith;
  day_lt = omega (arith, month_of_days);
  hour_lt = omega arith;
}
  where
    month_of_days : min 31 (days_in_month (pos 2026) 3) ≤ 31
    month_of_days = omega arith

matches-render_example :
    matches monthly (render gregorian monthly end_of_march ++ codes "trades.parquet") ≡ true
matches-render_example =
    matches-render gregorian monthly end_of_march (codes "trades.parquet") end_of_march-IsRenderable

rendered : render gregorian monthly end_of_march ≡ codes "2026/03/"
unfolding render render_segments render_field
rendered = refl

window : resolve gregorian monthly 9 1 tt ≡ some (codes "2026/03/" ∷ codes "2026/02/" ∷ [])
unfolding resolve resolve_from step_back step_by render render_segments render_field days_in_month
window = refl

resolve_iff_example :
    IsDistinct (codes "2026/03/" ∷ codes "2026/02/" ∷ [])
    × ((p : List ℕ)
        → In p (codes "2026/03/" ∷ codes "2026/02/" ∷ [])
          ↔ InWindow gregorian monthly end_of_march 0 2 p)
resolve_iff_example = resolve_iff gregorian monthly 9 1 tt _ window

abbrev dated : List Segment
dated = literal (codes "a{") ∷ field month1 ∷ field day2 ∷ literal (codes "/") ∷ []

parse-write_example : Reads dated (parse (write dated))
parse-write_example = parse-write dated (refl, refl, (refl, refl, tt))

parse-escape_example : parse (escape (codes "odd{name}/")) ≡ ok none
parse-escape_example = parse-escape (codes "odd{name}/")

step_back_months_example :
    (t : Moment) × (step_back gregorian monthly end_of_march 5 ≡ some t)
    × (add_nat (month_number t.at_year (month_in t)) 5 ≡ month_number (pos 2026) 3)
    × (min (suc t.at_day) (days_in_month t.at_year (month_in t))
        ≡ min (min 31 (days_in_month (pos 2026) 3)) (days_in_month t.at_year (month_in t)))
step_back_months_example =
    step_back_months gregorian monthly end_of_march 5 gregorian-IsCalendar refl (omega arith)

month_steps : (i : ℕ) → i < 2 → (t : Moment) × (step_back gregorian monthly end_of_march i ≡ some t)
unfolding step_back step_by
month_steps zero h = (end_of_march, refl)
month_steps (suc zero) h = (_, refl)
month_steps (suc (suc i)) h = absurd (omega arith)

resolve_total_example :
    (prefixes : List (List ℕ)) × (resolve gregorian monthly 9 1 tt ≡ some prefixes)
    × In (render gregorian monthly end_of_march) prefixes
resolve_total_example = resolve_total gregorian monthly 9 1 tt month_steps
