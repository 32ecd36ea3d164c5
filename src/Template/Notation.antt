-- ===== src/Template/Notation.antt =====
-- The notation of templates: every list of segments can be written, and is read back.
use s3_pulse.Base.{
  ℕ, ◌≡◌, ◌⊎◌, refl, ◌∙◌, In, Result, Bool, true, false, Option, none, some, List, [], ◌∷◌, ◌++◌,
  arith, ◌==◌, if◌then◌else◌, ok, inl, inr, Bool-cases, ==→eq,
}
use s3_pulse.Base.Text.{Text, codes, is_empty}
use s3_pulse.Template.{
  Field, year4, year2, month2, month1, day2, day1, hour2, hour1, Segment, literal, field,
  Granularity, DateTemplate, TemplateError, parse_field, finest_with, flush, scan, parse,
}
use s3_pulse.Template.Finest.{finest_of, IsFinest, granularity_cases}
use mathlib.Core.List.{append-nil, append_assoc}

-- Doubled braces, as the error messages advise.
abbrev pub escape : Text → Text
escape [] = []
escape (c ∷ s) =
    if c == b'{'
    then b'{' ∷ b'{' ∷ escape s
    else if c == b'}'
    then b'}' ∷ b'}' ∷ escape s
    else c ∷ escape s

abbrev pub name_of : Field → Text
name_of year4 = codes "yyyy"
name_of year2 = codes "yy"
name_of month2 = codes "MM"
name_of month1 = codes "M"
name_of day2 = codes "dd"
name_of day1 = codes "d"
name_of hour2 = codes "HH"
name_of hour1 = codes "H"

abbrev pub write : List Segment → Text
write [] = []
write (literal text ∷ rest) = escape text ++ write rest
write (field f ∷ rest) = b'{' ∷ (name_of f ++ b'}' ∷ write rest)

-- No literal is empty, and none follows another; the test says if a literal may come next.
abbrev pub IsNormal : Bool → List Segment → Type 0
IsNormal free [] = Unit {0}
IsNormal free (literal text ∷ rest) = (free ≡ true) × (is_empty text ≡ false) × IsNormal false rest
IsNormal free (field f ∷ rest) = IsNormal true rest

scan_plain :
    (c : ℕ) (rest text : Text) (segments : List Segment) (finest : Option Granularity)
    → (c == b'{') ≡ false
    → (c == b'}') ≡ false
    → scan none (c ∷ rest) text segments finest ≡ scan none rest (text ++ c ∷ []) segments finest
unfolding scan
scan_plain c [] text segments finest p q = rw (p, q)
scan_plain c (d ∷ rest) text segments finest p q = ground (arith, p, q)

scan_open :
    (rest text : Text) (segments : List Segment) (finest : Option Granularity)
    → scan none (b'{' ∷ b'{' ∷ rest) text segments finest
      ≡ scan none rest (text ++ b'{' ∷ []) segments finest
unfolding scan
scan_open rest text segments finest = refl

scan_close :
    (rest text : Text) (segments : List Segment) (finest : Option Granularity)
    → scan none (b'}' ∷ b'}' ∷ rest) text segments finest
      ≡ scan none rest (text ++ b'}' ∷ []) segments finest
unfolding scan
scan_close rest text segments finest = refl

scan-escape :
    (s rest text : Text) (segments : List Segment) (finest : Option Granularity)
    → scan none (escape s ++ rest) text segments finest ≡ scan none rest (text ++ s) segments finest
scan-escape [] rest text segments finest = rw (append-nil text)
scan-escape (c ∷ s) rest text segments finest = elim (Bool-cases (c == b'{')) [
  | inl e ↦ rw e (
      scan_open (escape s ++ rest) text segments finest
      ∙ scan-escape s rest (text ++ b'{' ∷ []) segments finest
      ∙ rw (append_assoc text (b'{' ∷ []) s, ==→eq c b'{' e))
  | inr e ↦ elim (Bool-cases (c == b'}')) [
    | inl e' ↦
        rw (e, e')
          (scan_close (escape s ++ rest) text segments finest
            ∙ scan-escape s rest (text ++ b'}' ∷ []) segments finest
            ∙ rw (append_assoc text (b'}' ∷ []) s, ==→eq c b'}' e'))
    | inr e' ↦
        rw (e, e')
          (scan_plain c (escape s ++ rest) text segments finest e e'
            ∙ scan-escape s rest (text ++ c ∷ []) segments finest
            ∙ rw (append_assoc text (c ∷ []) s))
  ]
]

scan_field :
    (f : Field) (rest text : Text) (segments : List Segment) (finest : Option Granularity)
    → scan none (b'{' ∷ (name_of f ++ b'}' ∷ rest)) text segments finest
      ≡ scan none rest [] (flush segments text ++ field f ∷ []) (some (finest_with finest f))
unfolding scan parse_field
scan_field year4 rest text segments finest = refl
scan_field year2 rest text segments finest = refl
scan_field month2 rest text segments finest = refl
scan_field month1 rest text segments finest = refl
scan_field day2 rest text segments finest = refl
scan_field day1 rest text segments finest = refl
scan_field hour2 rest text segments finest = refl
scan_field hour1 rest text segments finest = refl

scan_end :
    (text : Text) (segments : List Segment) (finest : Option Granularity)
    → scan none [] text segments finest ≡ ok (flush segments text, finest)
unfolding scan
scan_end text segments finest = refl

scan-write :
    (rest : List Segment) (text : Text) (segments : List Segment) (finest : Option Granularity)
    → IsNormal (is_empty text) rest
    → scan none (write rest) text segments finest
      ≡ ok (flush segments text ++ rest, finest_of finest rest)
scan-write [] text segments finest n =
    scan_end text segments finest ∙ rw (append-nil (flush segments text))
scan-write (literal [] ∷ rest) text segments finest (f, e, n) = cc
scan-write (literal (c ∷ s) ∷ rest) [] segments finest (f, e, n) =
    scan-escape (c ∷ s) (write rest) [] segments finest
    ∙ scan-write rest (c ∷ s) segments finest n
    ∙ rw (append_assoc segments (literal (c ∷ s) ∷ []) rest)
scan-write (literal (c ∷ s) ∷ rest) (d ∷ text) segments finest (f, e, n) = cc
scan-write (field g ∷ rest) text segments finest n =
    scan_field g (write rest) text segments finest
    ∙ scan-write rest [] (flush segments text ++ field g ∷ []) (some (finest_with finest g)) n
    ∙ rw (append_assoc (flush segments text) (field g ∷ []) rest)

-- What a text is read as: no template where the segments have no placeholder, and else the template
-- with these segments and the granularity of their finest placeholder.
abbrev pub Reads : List Segment → Result TemplateError (Option DateTemplate) → Type 0
Reads segments answer =
    ((answer ≡ ok none) × ((f : Field) → In (field f) segments → ⊥))
    ⊎ ((template : DateTemplate) × (answer ≡ ok (some template))
        × (template.segments ≡ segments)
        × IsFinest template.granularity segments)

-- Every list of segments without empty or adjacent literals can be written, with literal braces
-- doubled, and is parsed back: as the template with these segments and the granularity of their finest
-- placeholder if they have one, and as no template if they have none.
pub parse-write :
    (segments : List Segment) → IsNormal true segments → Reads segments (parse (write segments))
unfolding parse
parse-write segments n = elim (granularity_cases segments) [
  | inl (e, empty) ↦ rw (scan-write segments [] [] none n, e) (inl (refl, empty))
  | inr (g, e, h) ↦ rw (scan-write segments [] [] none n, e) (inr (_, refl, refl, h))
]

-- Any text with its braces doubled parses as no template.
pub parse-escape : (s : Text) → parse (escape s) ≡ ok none
unfolding parse
parse-escape s = rw (← append-nil (escape s), scan-escape s [] [] [] none)
