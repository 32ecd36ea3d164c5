-- ===== src/Transport/Lines.antt =====
-- Reading lines does not depend on how the input comes in.
use s3_pulse.Base.{
  ℕ, ◌<◌, ltb, ◌≡◌, refl, ap, ◌∙◌, if◌then◌else◌, Bool, true, false, none, some, [], ◌∷◌, ◌++◌,
  length, length-append, Result, ok, err, arith, Option-cases, Bool-cases, inl, inr,
}
use s3_pulse.Transport.{
  Bytes, ProtocolLine, eof, complete, too_large_line, Reader, cut, put_back, take_in, at_end,
  at_newline, read_line, read_protocol_line, max_line_bytes,
}
use mathlib.Core.List.{append_assoc, append-nil}

-- All bytes that a reader still gives.
abbrev pub flatten : {E : Type 0} → Reader E → Bytes
flatten [] = []
flatten (ok s ∷ reader) = s ++ flatten reader
flatten (err e ∷ reader) = flatten reader

-- No read fails, and a buffer is empty only at the end of the input.
abbrev pub IsSteady : {E : Type 0} → Reader E → Type 0
IsSteady [] = Unit {0}
IsSteady (err e ∷ reader) = ⊥
IsSteady (ok [] ∷ reader) = ⊥
IsSteady (ok (c ∷ s) ∷ reader) = IsSteady reader

-- The first line with its newline, if it has one, and the bytes behind it.
abbrev pub first_line : Bytes → Bytes × Bytes
first_line s = elim (cut s) [ none ↦ (s, []) | some parts ↦ parts ]

-- What is to be answered for a line, and the line that is kept of it.
abbrev pub verdict : ℕ → Bytes → ProtocolLine × Bytes
verdict max_line [] = (eof, [])
verdict max_line (c ∷ s) =
    if ltb max_line (length (c ∷ s)) then (too_large_line, []) else (complete, c ∷ s)

cut-append_none :
    (s t : Bytes)
    → cut s ≡ none
    → cut (s ++ t) ≡ elim (cut t) [ none ↦ none | some parts ↦ some (s ++ parts.0, parts.1) ]
unfolding cut
cut-append_none [] t h = elim (Option-cases (cut t)) [ inl e ↦ rw e | inr (parts, e) ↦ rw e ]
cut-append_none (c ∷ s) t h = ground (arith, cut-append_none s t)

cut-append_some : (s t p r : Bytes) → cut s ≡ some (p, r) → cut (s ++ t) ≡ some (p, r ++ t)
unfolding cut
cut-append_some [] t p r h = cc
cut-append_some (c ∷ s) t p r h = elim (Option-cases (cut s)) [
  | inl e ↦ ground (arith, e)
  | inr (parts, e) ↦ ground (arith, e, cut-append_some s t parts.0 parts.1)
]

-- The loop's state after the bytes that it has seen of the line.
abbrev seen : ℕ → Bytes → Bytes × Bool
seen max_line s = if ltb max_line (length s) then ([], true) else (s, false)

take_in-seen :
    (max_line : ℕ) (s part : Bytes)
    → take_in max_line (seen max_line s).0 (seen max_line s).1 part ≡ seen max_line (s ++ part)
unfolding take_in
take_in-seen max_line s part = ground (arith, length-append s part)

first_line-none : (s : Bytes) → cut s ≡ none → first_line s ≡ (s, [])
first_line-none s e = ap (λ o. elim o [ none ↦ (s, []) | some parts ↦ parts ]) e

first_line-some : (s : Bytes) (parts : Bytes × Bytes) → cut s ≡ some parts → first_line s ≡ parts
first_line-some s parts e = ap (λ o. elim o [ none ↦ (s, []) | some parts ↦ parts ]) e

first_line-append :
    (s t : Bytes) → cut s ≡ none → first_line (s ++ t) ≡ (s ++ (first_line t).0, (first_line t).1)
first_line-append s t h = elim (Option-cases (cut t)) [
  | inl e ↦ first_line-none (s ++ t) (cut-append_none s t h ∙ rw e) ∙ rw (first_line-none t e)
  | inr (parts, e) ↦
      first_line-some (s ++ t) (s ++ parts.0, parts.1) (cut-append_none s t h ∙ rw e)
      ∙ rw (first_line-some t parts e)
]

at_end-seen :
    (max_line : ℕ) (s : Bytes)
    → (at_end (seen max_line s).0 (seen max_line s).1, (seen max_line s).0) ≡ verdict max_line s
at_end-seen max_line [] = ground arith
at_end-seen max_line (c ∷ s) = elim (Bool-cases (ltb max_line (length (c ∷ s)))) [
  | inl e ↦ rw e
  | inr e ↦ rw e
]

cut_nil : cut [] ≡ none
unfolding cut
cut_nil = refl

cut_nonempty : (s p r : Bytes) → cut s ≡ some (p, r) → 0 < length p
unfolding cut
cut_nonempty [] p r h = cc
cut_nonempty (c ∷ s) p r h = elim (Option-cases (cut s)) [
  | inl e ↦ ground (arith, e)
  | inr (parts, e) ↦ ground (arith, e)
]

at_newline-seen :
    (max_line : ℕ) (s : Bytes)
    → 0 < length s
    → (at_newline (seen max_line s).1, (seen max_line s).0) ≡ verdict max_line s
at_newline-seen max_line [] h = absurd (omega arith)
at_newline-seen max_line (c ∷ s) h = elim (Bool-cases (ltb max_line (length (c ∷ s)))) [
  | inl e ↦ rw e
  | inr e ↦ rw e
]

flatten-put_back :
    {E : Type 0} (s : Bytes) (reader : Reader E) → flatten (put_back s reader) ≡ s ++ flatten reader
flatten-put_back [] reader = refl
flatten-put_back (c ∷ s) reader = refl

put_back-IsSteady :
    {E : Type 0} (s : Bytes) (reader : Reader E) → IsSteady reader → IsSteady (put_back s reader)
put_back-IsSteady [] reader h = h
put_back-IsSteady (c ∷ s) reader h = h

-- What a read with this answer leaves behind.
abbrev Leaves :
    {E : Type 0} → ℕ → Result E (ProtocolLine × Bytes × Reader E) → Bytes × Bytes → Type 0
Leaves {E} max_line answer (line, rest) =
    (reader : Reader E) × (answer
      ≡ ok ((verdict max_line line).0, (verdict max_line line).1, reader))
    × (flatten reader ≡ rest)
    × IsSteady reader

read_line_end :
    {E : Type 0} (max_line : ℕ) (line : Bytes) (too_large : Bool)
    → read_line {E = E} max_line [] line too_large ≡ ok (at_end line too_large, line, [])
unfolding read_line
read_line_end max_line line too_large = refl

read_line_on :
    {E : Type 0} (max_line c : ℕ) (b line : Bytes) (too_large : Bool) (reader : Reader E)
    → cut (c ∷ b) ≡ none
    → read_line max_line (ok (c ∷ b) ∷ reader) line too_large
      ≡ read_line max_line reader
          (take_in max_line line too_large (c ∷ b)).0
          (take_in max_line line too_large (c ∷ b)).1
unfolding read_line
read_line_on max_line c b line too_large reader e = rw (read_line, e)

read_line_stop :
    {E : Type 0} (max_line c : ℕ) (b line part behind : Bytes) (too_large : Bool)
    (reader : Reader E)
    → cut (c ∷ b) ≡ some (part, behind)
    → read_line max_line (ok (c ∷ b) ∷ reader) line too_large
      ≡ ok (
        at_newline (take_in max_line line too_large part).1,
        (take_in max_line line too_large part).0,
        put_back behind reader,
      )
unfolding read_line
read_line_stop max_line c b line part behind too_large reader e = rw (read_line, e)

read_line_lem :
    {E : Type 0} (max_line : ℕ) (reader : Reader E) (s : Bytes)
    → IsSteady reader
    → Leaves max_line
        (read_line max_line reader (seen max_line s).0 (seen max_line s).1)
        (s ++ (first_line (flatten reader)).0, (first_line (flatten reader)).1)
read_line_lem max_line [] s h =
    rw (first_line-none [] cut_nil, append-nil s)
      (
        [],
        read_line_end max_line (seen max_line s).0 (seen max_line s).1
            ∙ ap (λ v. ok (v.0, v.1, [])) (at_end-seen max_line s),
        refl,
        tt,
      )
read_line_lem max_line (err e ∷ reader) s h = absurd h
read_line_lem max_line (ok [] ∷ reader) s h = absurd h
read_line_lem max_line (ok (c ∷ b) ∷ reader) s h = elim (Option-cases (cut (c ∷ b))) [
  | inl e ↦
      let (rest, answer, left, steady) = read_line_lem max_line reader (s ++ c ∷ b) h in
      rw
        (
          first_line-append (c ∷ b) (flatten reader) e,
          ← append_assoc s (c ∷ b) (first_line (flatten reader)).0,
        )
        (
          rest,
          read_line_on max_line c b (seen max_line s).0 (seen max_line s).1 reader e
              ∙ ap (λ v. read_line max_line reader v.0 v.1) (take_in-seen max_line s (c ∷ b))
              ∙ answer,
          left,
          steady,
        )
  | inr ((part, behind), e) ↦
      rw
        (first_line-some (c ∷ b ++ flatten reader) (part, behind ++ flatten reader)
          (cut-append_some (c ∷ b) (flatten reader) part behind e))
        (
          put_back behind reader,
          read_line_stop max_line c b (seen max_line s).0 part behind (seen max_line s).1 reader e
              ∙ ap (λ v. ok (at_newline v.1, v.0, put_back behind reader))
                  (take_in-seen max_line s part)
              ∙ ap (λ v. ok (v.0, v.1, put_back behind reader))
                  (at_newline-seen max_line (s ++ part)
                    (omega (arith, length-append s part, cut_nonempty (c ∷ b) part behind e))),
          flatten-put_back behind reader,
          put_back-IsSteady behind reader h,
        )
]

-- Unless a read fails or gives an empty buffer before the end, the first line of the input is read, with its newline, however the input is
-- cut into buffers: an empty input is its end, a line above the limit is reported and nothing of it
-- is kept, any other line is given back whole; the reader is left behind the line in each case.
pub read_protocol_line_lem :
    {E : Type 0} (reader : Reader E)
    → IsSteady reader
    → (rest : Reader E) × (read_protocol_line reader
        ≡ ok (
          (verdict max_line_bytes (first_line (flatten reader)).0).0,
          (verdict max_line_bytes (first_line (flatten reader)).0).1,
          rest,
        ))
      × (flatten rest ≡ (first_line (flatten reader)).1)
      × IsSteady rest
unfolding read_protocol_line
read_protocol_line_lem reader h = read_line_lem max_line_bytes reader [] h
