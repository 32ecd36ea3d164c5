-- ===== src/Error/Classify.antt =====
-- What the category of an AWS failure depends on.
use s3_pulse.Base.{
  ◌≡◌, ◌↔◌, ◌⊎◌, inl, inr, refl, sym, ap, ◌∙◌, subst, ◌==◌, ==→eq, Bool, true, false, Option, some,
  List, [], ◌∷◌, ◌++◌, In, arith, if◌then◌else◌, Bool-cases, unwrap_or,
}
use s3_pulse.Base.Text.{Text, codes}
use s3_pulse.Base.Search.{
  has_infix, lower, lower_char, has_infix-append_left, has_infix-append_right, has_infix_self,
  starts_with,
}
use s3_pulse.Error.{
  StoreErrorKind, authentication, access_denied, not_found, network, service_unavailable, other,
  extend_chain, link, contains_any, classify, aws, authentication_words, access_words,
  missing_words, network_words, server_words, normalize,
}
use mathlib.Core.Bool.{false≢true}
use mathlib.Core.List.{append_assoc, append-nil, map-append}

link-keeps : (t chain s : Text) → has_infix t chain ≡ true → has_infix t (link chain s) ≡ true
link-keeps t chain s h = elim (Bool-cases (has_infix s chain)) [
  | inl e ↦ rw e h
  | inr e ↦ rw e (has_infix-append_left t chain (codes ": " ++ s) h)
]

link-adds : (chain s : Text) → has_infix s (link chain s) ≡ true
link-adds chain s = elim (Bool-cases (has_infix s chain)) [
  | inl e ↦ rw e e
  | inr e ↦ rw e (
      has_infix-append_right s chain (codes ": " ++ s) (
        has_infix-append_right s (codes ": ") s
          (subst (λ t. has_infix s t ≡ true) (append-nil s) (has_infix_self s []))))
]

extend_chain-keeps :
    (t : Text) (sources : List Text) (chain : Text)
    → has_infix t chain ≡ true
    → has_infix t (extend_chain chain sources) ≡ true
unfolding extend_chain
extend_chain-keeps t [] chain h = h
extend_chain-keeps t (s ∷ sources) chain h =
    extend_chain-keeps t sources (link chain s) (link-keeps t chain s h)

-- No source message is lost: each stands in the chain that is classified.
pub extend_chain-In :
    (t : Text) (sources : List Text) (chain : Text)
    → In t sources
    → has_infix t (extend_chain chain sources) ≡ true
unfolding extend_chain
extend_chain-In t [] chain n = elim n [ ]
extend_chain-In t (s ∷ sources) chain (inl e) =
    extend_chain-keeps t sources (link chain s)
      (subst (λ u. has_infix u (link chain s) ≡ true) (sym e) (link-adds chain s))
extend_chain-In t (s ∷ sources) chain (inr n) = extend_chain-In t sources (link chain s) n

starts_with_split : (p s : Text) → starts_with p s ≡ true → (r : Text) × (s ≡ p ++ r)
starts_with_split [] s h = (s, refl)
starts_with_split (p ∷ ps) [] h = cc
starts_with_split (p ∷ ps) (c ∷ s) h = elim (Bool-cases (p == c)) [
  | inl e ↦ let (r, q) = starts_with_split ps s (rw e at h) in (r, ground (arith, ==→eq p c e, q))
  | inr e ↦ absurd (false≢true (rw e at h))
]

has_infix_split : (t s : Text) → has_infix t s ≡ true → (a b : Text) × (s ≡ a ++ (t ++ b))
has_infix_split t [] h = let (r, q) = starts_with_split t [] h in ([], r, q)
has_infix_split t (c ∷ s) h = elim (Bool-cases (starts_with t (c ∷ s))) [
  | inl e ↦ let (r, q) = starts_with_split t (c ∷ s) e in ([], r, q)
  | inr e ↦ let (a, b, q) = has_infix_split t s (rw e at h) in (c ∷ a, b, ap (◌∷◌ c) q)
]

contains_any-around :
    (a t b : Text) (words : List Text)
    → contains_any t words ≡ true
    → contains_any (a ++ (t ++ b)) words ≡ true
contains_any-around a t b [] h = h
contains_any-around a t b (w ∷ words) h = ground (
  arith,
  contains_any-around a t b words,
  has_infix-append_left w t b,
  has_infix-append_right w a (t ++ b),
)

-- What stands in the code or in a source message stands in the text that is classified.
normalize-In :
    (code t chain : Text) (words : List Text)
    → has_infix t chain ≡ true
    → contains_any (lower t) words ≡ true
    → contains_any (normalize code chain) words ≡ true
normalize-In code t chain words h w =
    let (a, b, q) = has_infix_split t chain h in
    subst (λ u. contains_any u words ≡ true)
      (spread a b ∙ ap (λ u. lower (code ++ (codes " " ++ u))) (sym q))
      (contains_any-around (lower (code ++ (codes " " ++ a))) (lower t) (lower b) words w)
  where
    spread :
        (a b : Text)
        → lower (code ++ (codes " " ++ a)) ++ (lower t ++ lower b)
          ≡ lower (code ++ (codes " " ++ (a ++ (t ++ b))))
    spread a b = simp (map-append, append_assoc)

normalize-code :
    (code chain : Text) (words : List Text)
    → contains_any (lower code) words ≡ true
    → contains_any (normalize code chain) words ≡ true
normalize-code code chain words w =
    subst (λ u. contains_any u words ≡ true) (sym (map-append lower_char code (codes " " ++ chain)))
      (contains_any-around [] (lower code) (lower (codes " " ++ chain)) words w)

-- The places that a word of a failure can stand in: its code, or the text of one of its sources.
abbrev pub Mentions : List Text → Text → List Text → Type 0
Mentions words code sources =
    (contains_any (lower code) words ≡ true)
    ⊎ ((t : Text) × In t sources × (contains_any (lower t) words ≡ true))

Mentions-normalize :
    (words : List Text) (code display : Text) (sources : List Text)
    → Mentions words code sources
    → contains_any (normalize code (extend_chain display sources)) words ≡ true
Mentions-normalize words code display sources (inl w) =
    normalize-code code (extend_chain display sources) words w
Mentions-normalize words code display sources (inr (t, n, w)) =
    normalize-In code t (extend_chain display sources) words (extend_chain-In t sources display n) w

-- A failure whose code or one of whose sources names a credential problem, in any case of letters,
-- is an authentication error that is not worth retrying, whatever else it says.
pub aws_authentication :
    (operation code : Text) (service_message : Option Text) (display : Text) (sources : List Text)
    → Mentions authentication_words code sources
    → ((aws operation (some code) service_message display sources).kind ≡ authentication)
      × ((aws operation (some code) service_message display sources).retryable ≡ false)
unfolding aws
aws_authentication operation code service_message display sources h =
    let e = Mentions-normalize authentication_words code display sources h in (rw e, rw e)

-- The ladder over the five tests.
abbrev ladder : Bool → Bool → Bool → Bool → Bool → StoreErrorKind × Bool
ladder a b c d e =
    if a
    then (authentication, false)
    else if b
    then (access_denied, false)
    else if c
    then (not_found, false)
    else if d
    then (network, true)
    else if e
    then (service_unavailable, true)
    else (other, true)

classify_ladder :
    (a b c d e : Bool)
    → ((ladder a b c d e).1 ≡ false) ↔ (
        ((ladder a b c d e).0 ≡ authentication)
        ⊎ ((ladder a b c d e).0 ≡ access_denied)
        ⊎ ((ladder a b c d e).0 ≡ not_found))
classify_ladder a b c d e = (ground arith, ground arith)

classify_iff :
    (text : Text)
    → ((classify text).1 ≡ false) ↔ (
        ((classify text).0 ≡ authentication)
        ⊎ ((classify text).0 ≡ access_denied)
        ⊎ ((classify text).0 ≡ not_found))
unfolding classify
classify_iff text =
    classify_ladder (contains_any text authentication_words) (contains_any text access_words)
      (contains_any text missing_words) (contains_any text network_words)
      (contains_any text server_words)

-- A failure of AWS is not retryable exactly if its kind is a failed authentication, a denied access or
-- a missing object or bucket.
pub aws_retryable_iff :
    (operation : Text) (code service_message : Option Text) (display : Text) (sources : List Text)
    → ((aws operation code service_message display sources).retryable ≡ false) ↔ (
        ((aws operation code service_message display sources).kind ≡ authentication)
        ⊎ ((aws operation code service_message display sources).kind ≡ access_denied)
        ⊎ ((aws operation code service_message display sources).kind ≡ not_found))
unfolding aws
aws_retryable_iff operation code service_message display sources =
    classify_iff (normalize (unwrap_or code []) (extend_chain display sources))
