-- ===== src/Template.antt =====
-- crates/s3pulse-core/src/template.rs: date placeholders in a key prefix.

pub mod Resolve
pub mod Matching
pub mod Window
pub mod Finest
pub mod Notation
pub mod Months
pub mod Tests
use s3_pulse.Base.{
  ℕ, ◌+◌, ltb, ◌==◌, if◌then◌else◌, Bool, true, false, ◌||◌, Option, none, some, List, [], ◌∷◌,
  ◌++◌, Result, ok, err, ◌>>=◌, any,
}
use s3_pulse.Base.Digits.{strip_digits}
use s3_pulse.Base.Text.{Text, codes, same_text, is_empty, strip_prefix}

pub data TemplateError : Type 0 where
  unknown_placeholder : Text → TemplateError
  minutes_not_months unclosed_placeholder unmatched_brace : TemplateError
  unknown_time_zone : Text → TemplateError

pub data Granularity : Type 0 where
  hour day month year : Granularity

pub data Field : Type 0 where
  year4 year2 month2 month1 day2 day1 hour2 hour1 : Field

unfoldable pub parse_field : Text → Option Field
parse_field name =
    if same_text name (codes "yyyy")
    then some year4
    else if same_text name (codes "yy")
    then some year2
    else if same_text name (codes "MM")
    then some month2
    else if same_text name (codes "M")
    then some month1
    else if same_text name (codes "dd")
    then some day2
    else if same_text name (codes "d")
    then some day1
    else if same_text name (codes "HH")
    then some hour2
    else if same_text name (codes "H")
    then some hour1
    else none

abbrev pub granularity_of : Field → Granularity
granularity_of year4 = year
granularity_of year2 = year
granularity_of month2 = month
granularity_of month1 = month
granularity_of day2 = day
granularity_of day1 = day
granularity_of hour2 = hour
granularity_of hour1 = hour

abbrev pub widths : Field → List ℕ
widths year4 = 4 ∷ []
widths year2 = 2 ∷ []
widths month2 = 2 ∷ []
widths day2 = 2 ∷ []
widths hour2 = 2 ∷ []
widths month1 = 2 ∷ 1 ∷ []
widths day1 = 2 ∷ 1 ∷ []
widths hour1 = 2 ∷ 1 ∷ []

pub data Segment : Type 0 where
  literal : Text → Segment
  field : Field → Segment

pub record DateTemplate : Type 0 where
  pub segments : List Segment
  pub granularity : Granularity

abbrev pub rank : Granularity → ℕ
rank year = 0
rank month = 1
rank day = 2
rank hour = 3

abbrev pub finer_of : Granularity → Granularity → Granularity
finer_of left right = if ltb (rank left) (rank right) then right else left

-- The `match finest` in the loop.
abbrev pub finest_with : Option Granularity → Field → Granularity
finest_with none f = granularity_of f
finest_with (some current) f = finer_of current (granularity_of f)

-- Pushes the literal text so far, if there is any.
abbrev pub flush : List Segment → Text → List Segment
flush segments text = if is_empty text then segments else segments ++ literal text ∷ []

-- The error for a name that is no field.
abbrev pub bad_name : Text → TemplateError
bad_name name =
    if same_text name (codes "mm") || same_text name (codes "m")
    then minutes_not_months
    else unknown_placeholder name

-- The loop over the characters. The first argument is the name of the placeholder that is being
-- read, if the inner loop is running.
unfoldable pub scan :
    Option Text
    → Text
    → Text
    → List Segment
    → Option Granularity
    → Result TemplateError (List Segment × Option Granularity)
scan (some name) [] text segments finest = err unclosed_placeholder
scan (some name) (c ∷ rest) text segments finest = elim (c == b'}') [
  | true ↦ elim (parse_field name) [
    | none ↦ err (bad_name name)
    | some f ↦ scan none rest [] (flush segments text ++ field f ∷ []) (some (finest_with finest f))
  ]
  | false ↦ scan (some (name ++ c ∷ [])) rest text segments finest
]
scan none [] text segments finest = ok (flush segments text, finest)
scan none (c ∷ []) text segments finest =
    if c == b'{'
    then err unclosed_placeholder
    else if c == b'}'
    then err unmatched_brace
    else ok (flush segments (text ++ c ∷ []), finest)
scan none (c ∷ d ∷ rest) text segments finest = elim (c == b'{') [
  | true ↦ elim (d == b'{') [
    | true ↦ scan none rest (text ++ b'{' ∷ []) segments finest
    | false ↦ scan (some []) (d ∷ rest) text segments finest
  ]
  | false ↦ elim (c == b'}') [
    | true ↦ elim (d == b'}') [
      | true ↦ scan none rest (text ++ b'}' ∷ []) segments finest
      | false ↦ err unmatched_brace
    ]
    | false ↦ scan none (d ∷ rest) (text ++ c ∷ []) segments finest
  ]
]

-- The final `match finest`.
abbrev pub template_of : List Segment × Option Granularity → Option DateTemplate
template_of (segments, none) = none
template_of (segments, some finest) = some (record { segments = segments; granularity = finest })

unfoldable pub parse : Text → Result TemplateError (Option DateTemplate)
unfolding scan
parse prefix = do read ← scan none prefix [] [] none; ok (template_of read)

unfoldable pub matches_segments : List Segment → Text → Bool
matches_segments [] rest = true
matches_segments (literal text ∷ tail) rest = elim (strip_prefix text rest) [
  | none ↦ false
  | some behind ↦ matches_segments tail behind
]
matches_segments (field f ∷ tail) rest =
    any
      (λ width. elim (strip_digits width rest) [
        | none ↦ false
        | some behind ↦ matches_segments tail behind
      ])
      (widths f)

unfoldable pub matches : DateTemplate → Text → Bool
unfolding matches_segments
matches template key = matches_segments template.segments key
