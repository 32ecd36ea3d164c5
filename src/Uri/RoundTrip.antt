-- ===== src/Uri/RoundTrip.antt =====
-- Parsing after printing, and printing after parsing.
use mathlib.Core.List.{append-nil}
use s3_pulse.Base.{
  ◌==◌, ◌≡◌, ◌⊎◌, inl, inr, refl, sym, ap, ◌∙◌, subst, if◌then◌else◌, Bool, false, none, some, [],
  ◌∷◌, ◌++◌, Result, ok, err, any, arith, Bool-cases, Option-cases, ==→eq, Result-cases, ◌>>◌,
}
use s3_pulse.Base.Text.{Text, is_empty, is_control, strip_prefix, split_once, strip_prefix_sound}
use s3_pulse.Uri.{
  UriParseError, S3Uri, is_unsafe, bad_bucket, validate, new, split_remainder, scheme, parse,
  display,
}

-- What `new` accepts.
pub record IsValid (u : S3Uri) : Type 0 where
  pub named : is_empty u.bucket ≡ false
  pub safe : bad_bucket u.bucket ≡ false
  pub printable : any is_control u.prefix ≡ false

validate_sound : (u : S3Uri) → validate u ≡ ok tt → IsValid u
unfolding validate
validate_sound u h = record {
  named = elim (Bool-cases (is_empty u.bucket)) [ inl e ↦ cc (rw e at h) | inr e ↦ e ];
  safe = ground arith;
  printable = ground arith;
}

new_lem :
    (bucket prefix : Text)
    → new bucket prefix ≡ (
        validate (record { bucket = bucket; prefix = prefix })
        >> ok (record { bucket = bucket; prefix = prefix }))
unfolding new
new_lem bucket prefix = refl

no_value : {f : UriParseError} {u : S3Uri} → ◌≡◌ {A = Result UriParseError S3Uri} (err f) (ok u) → ⊥
no_value h = cc

-- Every URI that the constructor returns is valid and holds the parts that it was given.
pub new-IsValid :
    (bucket prefix : Text) (u : S3Uri)
    → new bucket prefix ≡ ok u
    → IsValid u × (u.bucket ≡ bucket) × (u.prefix ≡ prefix)
new-IsValid bucket prefix u h =
    let value : S3Uri = record { bucket = bucket; prefix = prefix } in
    elim (Result-cases (validate value)) [
      | inl (_, q) ↦
          let e : value ≡ u = cc (h, new_lem bucket prefix, q) in
          (
            subst IsValid e (validate_sound value q),
            ap (λ (t : S3Uri). t.bucket) (sym e),
            ap (λ (t : S3Uri). t.prefix) (sym e),
          )
      | inr (f, q) ↦ absurd (no_value (sym (rw q at (new_lem bucket prefix)) ∙ h))
    ]

new_of_IsValid : (u : S3Uri) → IsValid u → new u.bucket u.prefix ≡ ok u
unfolding new
new_of_IsValid u v = rw (v.named, v.safe, v.printable)

abbrev has_slash : Text → Bool
has_slash s = any (λ c. c == b'/') s

safe-has_slash : (s : Text) → any is_unsafe s ≡ false → has_slash s ≡ false
safe-has_slash [] h = refl
safe-has_slash (c ∷ s) h = ground (arith, safe-has_slash s)

split_once-append :
    (s t : Text) → has_slash s ≡ false → split_once b'/' (s ++ b'/' ∷ t) ≡ some (s, t)
split_once-append [] t h = refl
split_once-append (c ∷ s) t h = ground (arith, split_once-append s t)

split_once_absent : (s : Text) → has_slash s ≡ false → split_once b'/' s ≡ none
split_once_absent [] h = refl
split_once_absent (c ∷ s) h = ground (arith, split_once_absent s)

some_inj : {p q : Text × Text} → some p ≡ some q → p ≡ q
some_inj h = cc

split_once_sound : (s : Text) (p : Text × Text) → split_once b'/' s ≡ some p → s ≡ p.0 ++ b'/' ∷ p.1
split_once_sound [] p h = cc
split_once_sound (c ∷ s) p h = elim (Bool-cases (c == b'/')) [
  | inl e ↦
      let k : split_once b'/' (c ∷ s) ≡ some ([], s) = ground arith in
      subst (λ (t : Text × Text). c ∷ s ≡ t.0 ++ b'/' ∷ t.1) (some_inj (sym k ∙ h))
        (ap (λ x. x ∷ s) (==→eq c b'/' e))
  | inr e ↦ elim (Option-cases (split_once b'/' s)) [
    | inl q ↦ absurd (ground arith)
    | inr (r, q) ↦
        let k : split_once b'/' (c ∷ s) ≡ some (c ∷ r.0, r.1) = ground arith in
        subst (λ (t : Text × Text). c ∷ s ≡ t.0 ++ b'/' ∷ t.1) (some_inj (sym k ∙ h))
          (ap (◌∷◌ c) (split_once_sound s r q))
  ]
]

-- What `display` puts behind the bucket.
abbrev suffix : Text → Text
suffix p = if is_empty p then [] else b'/' ∷ p

split_remainder-suffix :
    (b p : Text) → has_slash b ≡ false → split_remainder (b ++ suffix p) ≡ (b, p)
split_remainder-suffix b [] h = rw (append-nil b) (ground (arith, split_once_absent b h))
split_remainder-suffix b (c ∷ p) h = ground (arith, split_once-append b (c ∷ p) h)

suffix_cases :
    (r b p : Text) → r ≡ b ++ b'/' ∷ p → (r ≡ b ++ suffix p) ⊎ ((p ≡ []) × (r ≡ b ++ b'/' ∷ []))
suffix_cases r b [] e = inr (refl, e)
suffix_cases r b (c ∷ p) e = inl e

abbrev Spells : Text → Text × Text → Type 0
Spells r t = (r ≡ t.0 ++ suffix t.1) ⊎ ((t.1 ≡ []) × (r ≡ t.0 ++ b'/' ∷ []))

split_remainder_sound : (r : Text) → Spells r (split_remainder r)
split_remainder_sound r = elim (Option-cases (split_once b'/' r)) [
  | inl e ↦
      let k : ◌≡◌ {A = Text × Text} (r, []) (split_remainder r) = ground arith in
      subst (Spells r) k (inl (sym (append-nil r)))
  | inr (p, e) ↦
      let k : p ≡ split_remainder r = ground arith in
      subst (Spells r) k (suffix_cases r p.0 p.1 (split_once_sound r p e))
]

bare_suffix : (b p : Text) → p ≡ [] → b ++ b'/' ∷ [] ≡ (b ++ suffix p) ++ b'/' ∷ []
bare_suffix b p e =
    subst (λ t. b ++ b'/' ∷ [] ≡ (b ++ suffix t) ++ b'/' ∷ []) (sym e)
      (ap (λ (t : Text). t ++ b'/' ∷ []) (sym (append-nil b)))

-- Every valid URI is read back from its print.
pub parse-display : (u : S3Uri) → IsValid u → parse (display u) ≡ ok u
unfolding parse display
parse-display u v =
    rw (split_remainder-suffix u.bucket u.prefix (safe-has_slash u.bucket (ground arith)))
      (new_of_IsValid u v)

-- A text that parses is the print of the result, or that print with one slash at its end for a
-- bucket root; and the result is valid.
pub parse_sound :
    (s : Text) (u : S3Uri)
    → parse s ≡ ok u
    → IsValid u × ((s ≡ display u) ⊎ ((u.prefix ≡ []) × (s ≡ display u ++ b'/' ∷ [])))
unfolding parse display
parse_sound s u h = elim (Option-cases (strip_prefix scheme s)) [
  | inl e ↦ absurd (ground arith)
  | inr (r, e) ↦
      let (v, bucket, prefix) =
        new-IsValid (split_remainder r).0 (split_remainder r).1 u (ground arith) in
      let spelt : Spells r (u.bucket, u.prefix) =
        subst (Spells r) (λ i. (sym bucket i, sym prefix i)) (split_remainder_sound r) in
      let whole : s ≡ scheme ++ r = strip_prefix_sound scheme s e in
      (
        v,
        elim spelt [
          | inl q ↦ inl (whole ∙ ap (◌++◌ scheme) q)
          | inr (p, q) ↦ inr (p, whole ∙ ap (◌++◌ scheme) (q ∙ bare_suffix u.bucket u.prefix p))
        ],
      )
]
