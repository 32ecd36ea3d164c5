-- ===== src/Template/Matching.antt =====
-- The keys that a template recognises: all that lie under one of its renderings.
use s3_pulse.Base.{
  ℕ, suc, ◌≤◌, ◌<◌, ◌≡◌, refl, true, List, [], ◌∷◌, ◌++◌, arith, length, In, inl, In-any, ◌^◌,
}
use s3_pulse.Base.Int.{pos, rem_euclid}
use s3_pulse.Base.Digits.{
  decimal, pad, IsNumeral, strip_digits-append, decimal-IsNumeral, length-decimal, pad-IsNumeral,
  length-pad,
}
use s3_pulse.Base.Text.{Text, strip_prefix-append}
use s3_pulse.Template.{
  Field, year4, year2, month2, month1, day2, day1, hour2, hour1, Segment, literal, field,
  DateTemplate, widths, matches, matches_segments,
}
use s3_pulse.Template.Resolve.{Calendar, render, render_segments, render_field}
use mathlib.Core.List.{append_assoc}

padded :
    (k n : ℕ)
    → n < 10 ^ suc k
    → IsNumeral (pad (suc k) (decimal n)) × (length (pad (suc k) (decimal n)) ≡ suc k)
padded k n b = (
  pad-IsNumeral (suc k) (decimal n) (decimal-IsNumeral n),
  length-pad (suc k) (decimal n) (length-decimal k n b).1,
)

one_width :
    (k : ℕ) (s : Text) → IsNumeral s × (length s ≡ suc k) → IsNumeral s × In (length s) (suc k ∷ [])
one_width k s (d, e) = (d, inl e)

unpadded : (n : ℕ) → n < 100 → IsNumeral (decimal n) × In (length (decimal n)) (2 ∷ 1 ∷ [])
unpadded n b = (decimal-IsNumeral n, one_or_two (length (decimal n)) (length-decimal 1 n b))
  where
    one_or_two : (w : ℕ) → (0 < w) × (w ≤ 2) → In w (2 ∷ 1 ∷ [])
    one_or_two w (lo, hi) = ground arith

module _ {T Z : Type 0} (calendar : Calendar T Z) where
  -- A local time whose year has at most four digits, with a month, a day and an hour of at most two.
  pub record IsRenderable (at : T) : Type 0 where
    pub common_year : ℕ
    pub year_of : calendar.year_of at ≡ pos common_year
    pub year_lt : common_year < 10000
    pub month_lt : calendar.month_of at < 100
    pub day_lt : calendar.day_of at < 100
    pub hour_lt : calendar.hour_of at < 100

  render_field-IsNumeral :
      (f : Field) (at : T)
      → IsRenderable at
      → IsNumeral (render_field calendar f at) × In (length (render_field calendar f at)) (widths f)
  unfolding render_field
  render_field-IsNumeral year4 at r =
      rw r.year_of (one_width 3 _ (padded 3 r.common_year (omega (arith, r.year_lt))))
  render_field-IsNumeral year2 at r =
      one_width 1 _ (padded 1 (rem_euclid (calendar.year_of at) 100) (rw r.year_of (omega arith)))
  render_field-IsNumeral month2 at r = one_width 1 _ (padded 1 (calendar.month_of at) r.month_lt)
  render_field-IsNumeral month1 at r = unpadded (calendar.month_of at) r.month_lt
  render_field-IsNumeral day2 at r = one_width 1 _ (padded 1 (calendar.day_of at) r.day_lt)
  render_field-IsNumeral day1 at r = unpadded (calendar.day_of at) r.day_lt
  render_field-IsNumeral hour2 at r = one_width 1 _ (padded 1 (calendar.hour_of at) r.hour_lt)
  render_field-IsNumeral hour1 at r = unpadded (calendar.hour_of at) r.hour_lt

  render_segments-matches :
      (segments : List Segment) (at : T) (rest : Text)
      → IsRenderable at
      → matches_segments segments (render_segments calendar segments at ++ rest) ≡ true
  unfolding matches_segments render_segments
  render_segments-matches [] at rest r = refl
  render_segments-matches (literal text ∷ tail) at rest r =
      rw
        (
          append_assoc text (render_segments calendar tail at) rest,
          matches_segments,
          strip_prefix-append text (render_segments calendar tail at ++ rest),
        )
        (render_segments-matches tail at rest r)
  render_segments-matches (field f ∷ tail) at rest r =
      let s = render_field calendar f at in
      let behind = render_segments calendar tail at ++ rest in
      let (digits, width) = render_field-IsNumeral f at r in
      rw (append_assoc s (render_segments calendar tail at) rest) (
        In-any _ (length s) (widths f) width
          (rw (strip_digits-append s behind digits) (render_segments-matches tail at rest r)))

  -- A template recognises every key that lies under one of its renderings, whatever follows it, for a
  -- local time whose year has at most four digits.
  pub matches-render :
      (template : DateTemplate) (at : T) (rest : Text)
      → IsRenderable at
      → matches template (render calendar template at ++ rest) ≡ true
  unfolding matches render
  matches-render template at rest r = render_segments-matches template.segments at rest r
