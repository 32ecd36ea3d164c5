-- ===== src/Template/Months.antt =====
-- Stepping back by months: calendar arithmetic, with the day kept inside the month.
use s3_pulse.Base.{
  ℕ, ◌-◌, ◌≤◌, ◌<◌, ◌≡◌, refl, ap, ◌∙◌, subst, min, some, arith, ◌==◌, Bool-cases, inl, inr, ==→eq,
  unwrap_or,
}
use s3_pulse.Base.Int.{ℤ, pos, negsuc, add_nat, sub_nat, mul_suc, div_euclid, rem_euclid}
use s3_pulse.Template.{DateTemplate, month}
use s3_pulse.Template.Resolve.{Calendar, days_in_month, months_back, naive, step_by, step_back}

add_nat-sub_nat : (z : ℤ) (n : ℕ) → add_nat (sub_nat z n) n ≡ z
add_nat-sub_nat (pos a) n = ground arith
add_nat-sub_nat (negsuc a) n = ground arith

add_nat_zero : (z : ℤ) → add_nat z 0 ≡ z
add_nat_zero (pos a) = ap pos (omega arith)
add_nat_zero (negsuc a) = ground arith

euclid_12 : (z : ℤ) → add_nat (mul_suc (div_euclid z 12) 11) (rem_euclid z 12) ≡ z
euclid_12 (pos a) = ap pos (omega arith)
euclid_12 (negsuc a) = ground arith

rem_euclid_lt : (z : ℤ) → rem_euclid z 12 < 12
rem_euclid_lt (pos a) = omega arith
rem_euclid_lt (negsuc a) = omega arith

-- Months since January of the year 0.
abbrev pub month_number : ℤ → ℕ → ℤ
month_number y m = add_nat (mul_suc y 11) (m - 1)

pub months_back_lem :
    (y : ℤ) (m steps : ℕ)
    → (0 < (months_back y m steps).1)
      × ((months_back y m steps).1 ≤ 12)
      × (add_nat (month_number (months_back y m steps).0 (months_back y m steps).1) steps
          ≡ month_number y m)
months_back_lem y m steps =
    let z = sub_nat (month_number y m) steps in
    (
      omega arith,
      omega (arith, rem_euclid_lt z),
      subst (λ k. add_nat (add_nat (mul_suc (div_euclid z 12) 11) k) steps ≡ month_number y m)
          (omega arith)
          (ap (λ t. add_nat t steps) (euclid_12 z) ∙ add_nat-sub_nat (month_number y m) steps),
    )

-- The years that chrono represents.
abbrev pub InRange : ℤ → Type 0
InRange (pos n) = n ≤ 262142
InRange (negsuc n) = n ≤ 262142

module _ {T Z : Type 0} (calendar : Calendar T Z) where
  -- What chrono documents of its accessors and of `from_ymd_opt` with `and_hms_opt`: local times have
  -- a date that exists, every such date in range makes a local time with a time of day that exists,
  -- and the parts are read back.
  pub record IsCalendar : Type 0 where
    pub month_positive : (t : T) → 0 < calendar.month_of t
    pub day_positive : (t : T) → 0 < calendar.day_of t
    pub day_le :
        (t : T) → calendar.day_of t ≤ days_in_month (calendar.year_of t) (calendar.month_of t)
    pub exists :
        (y : ℤ) (m d : ℕ) (t : T)
        → InRange y
        → 0 < m
        → m ≤ 12
        → 0 < d
        → d ≤ days_in_month y m
        → (t' : T) × (naive calendar y m d t ≡ some t')
          × (calendar.year_of t' ≡ y)
          × (calendar.month_of t' ≡ m)
          × (calendar.day_of t' ≡ d)

  days_positive : (y : ℤ) (m : ℕ) → 0 < days_in_month y m
  unfolding days_in_month
  days_positive y m = ground arith

  step_by_month :
      (at : T) (steps : ℕ)
      → step_by calendar month at steps
        ≡ some (
            unwrap_or
              (naive calendar
                (months_back (calendar.year_of at) (calendar.month_of at) steps).0
                (months_back (calendar.year_of at) (calendar.month_of at) steps).1
                (min (calendar.day_of at) (
                  days_in_month
                    (months_back (calendar.year_of at) (calendar.month_of at) steps).0
                    (months_back (calendar.year_of at) (calendar.month_of at) steps).1))
                at)
              at)
  unfolding step_by
  step_by_month at steps = refl

  -- For a calendar with the laws above, a monthly template steps back by whole months, also across
  -- years, and keeps the day or takes the last one of a shorter month, while the year that it reaches
  -- is one that chrono represents.
  pub step_back_months :
      (template : DateTemplate) (at : T) (steps : ℕ)
      → IsCalendar
      → template.granularity ≡ month
      → InRange (months_back (calendar.year_of at) (calendar.month_of at) steps).0
      → (t : T) × (step_back calendar template at steps ≡ some t)
        × (add_nat (month_number (calendar.year_of t) (calendar.month_of t)) steps
            ≡ month_number (calendar.year_of at) (calendar.month_of at))
        × (calendar.day_of t
            ≡ min (calendar.day_of at) (days_in_month (calendar.year_of t) (calendar.month_of t)))
  unfolding step_back
  step_back_months template at steps laws g r = elim (Bool-cases (steps == 0)) [
    | inl e ↦ (
      at,
      rw (step_back, e),
      rw (==→eq steps 0 e)
          (add_nat_zero (month_number (calendar.year_of at) (calendar.month_of at))),
      omega (arith, laws.day_le at),
    )
    | inr e ↦
        let y = (months_back (calendar.year_of at) (calendar.month_of at) steps).0 in
        let m = (months_back (calendar.year_of at) (calendar.month_of at) steps).1 in
        let d = min (calendar.day_of at) (days_in_month y m) in
        let (positive, bounded, back) =
          months_back_lem (calendar.year_of at) (calendar.month_of at) steps in
        let (t, found, year_of_t, month_of_t, day_of_t) =
          laws.exists y m d at r positive bounded
            (omega (arith, laws.day_positive at, days_positive y m)) (omega arith) in
        (
          t,
          rw (step_back, e, g) (step_by_month at steps ∙ ap (λ o. some (unwrap_or o at)) found),
          rw (year_of_t, month_of_t) back,
          rw (year_of_t, month_of_t) day_of_t,
        )
  ]
