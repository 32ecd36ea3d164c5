-- ===== src/Template/Window.antt =====
-- The prefixes that `resolve` gives for a window of periods.
use s3_pulse.Base.{
  refl, ℕ, zero, suc, ◌+◌, ◌≤◌, ◌<◌, ◌≡◌, ◌↔◌, ◌⊎◌, sym, subst, true, false, some, List, [], ◌∷◌,
  ◌++◌, arith, In, inl, inr, any, if◌then◌else◌, Bool-cases, Option-cases, any_iff-In, In-any,
  In-append_cases, In-append_left, In-append_right,
}
use s3_pulse.Base.Distinct.{IsDistinct}
use s3_pulse.Base.Text.{Text, same_text, same_text→eq, same_text_refl}
use s3_pulse.Model.{Instant}
use s3_pulse.Template.{DateTemplate}
use s3_pulse.Template.Resolve.{Calendar, render, step_back, resolve_from, resolve}

abbrev push_new : List Text → Text → List Text
push_new xs x = if any (same_text x) xs then xs else xs ++ x ∷ []

append-IsDistinct :
    (xs : List Text) (x : Text) → IsDistinct xs → ¬ In x xs → IsDistinct (xs ++ x ∷ [])
append-IsDistinct [] x d n = ((λ m. m), tt)
append-IsDistinct (y ∷ xs) x (a, d) n = (
  (λ m. elim (In-append_cases y xs (x ∷ []) m) [
    | inl p ↦ a p
    | inr (inl p) ↦ n (inl (sym p))
    | inr (inr p) ↦ p
  ]),
  append-IsDistinct xs x d (λ m. n (inr m)),
)

In-any_same : (x : Text) (xs : List Text) → any (same_text x) xs ≡ true → In x xs
In-any_same x xs h =
    let (y, m, e) = any_iff-In (same_text x) xs h in
    subst (λ t. In t xs) (sym (same_text→eq x y e)) m

not_In-any : (x : Text) (xs : List Text) → any (same_text x) xs ≡ false → ¬ In x xs
not_In-any x xs h m = cc (In-any (same_text x) x xs m (same_text_refl x), h)

push_new-IsDistinct : (xs : List Text) (x : Text) → IsDistinct xs → IsDistinct (push_new xs x)
push_new-IsDistinct xs x d = elim (Bool-cases (any (same_text x) xs)) [
  | inl e ↦ rw e d
  | inr e ↦ rw e (append-IsDistinct xs x d (not_In-any x xs e))
]

In-push_new_iff : (xs : List Text) (x p : Text) → In p (push_new xs x) ↔ (In p xs ⊎ (p ≡ x))
In-push_new_iff xs x p = elim (Bool-cases (any (same_text x) xs)) [
  | inl e ↦
      rw e
        (inl, λ m. elim m [ inl n ↦ n | inr q ↦ subst (λ t. In t xs) (sym q) (In-any_same x xs e) ])
  | inr e ↦ rw e (
    (λ m. elim (In-append_cases p xs (x ∷ []) m) [
      | inl n ↦ inl n
      | inr (inl q) ↦ inr q
      | inr (inr q) ↦ elim q [ ]
    ]),
    λ m. elim m [
      | inl n ↦ In-append_left p xs (x ∷ []) n
      | inr q ↦ In-append_right p xs (x ∷ []) (inl q)
    ],
  )
]

le_cases : (a b : ℕ) → a ≤ b → (a ≡ b) ⊎ (a < b)
le_cases a b h = ground arith

module _ {T Z : Type 0} (calendar : Calendar T Z) (template : DateTemplate) where
  -- `p` is rendered at one of the `count` steps from `step` on.
  abbrev pub Renders : T → ℕ → ℕ → Text → Type 0
  Renders local step zero p = ⊥
  Renders local step (suc count) p =
      ((t : T) × (step_back calendar template local step ≡ some t)
        × (p ≡ render calendar template t))
      ⊎ Renders local (suc step) count p

  resolve_from_lem :
      (count step : ℕ) (local : T) (prefixes result : List Text)
      → IsDistinct prefixes
      → resolve_from calendar template local count step prefixes ≡ some result
      → IsDistinct result
        × ((p : Text) → In p result ↔ (In p prefixes ⊎ Renders local step count p))
  unfolding resolve_from
  resolve_from_lem zero step local prefixes result d e =
      let q : prefixes ≡ result = ground arith in
      subst
        (λ r. IsDistinct r × ((p : Text) → In p r ↔ (In p prefixes ⊎ Renders local step zero p))) q
        (d, λ p. (inl, λ m. elim m [ inl n ↦ n | inr n ↦ absurd n ]))
  resolve_from_lem (suc count) step local prefixes result d e =
      elim (Option-cases (step_back calendar template local step)) [
        | inl q ↦ ground (arith, q)
        | inr (t, q) ↦
            let x = render calendar template t in
            let (distinct, member) =
              resolve_from_lem count (suc step) local (push_new prefixes x) result
                (push_new-IsDistinct prefixes x d) (rw (resolve_from, q) at e) in
            (
              distinct,
              λ p.
                  let (pushed, push) = In-push_new_iff prefixes x p in
                  let (inside, outside) = member p in
                  (
                    (λ m. elim (inside m) [
                      | inl n ↦ elim (pushed n) [ inl k ↦ inl k | inr k ↦ inr (inl (t, q, k)) ]
                      | inr n ↦ inr (inr n)
                    ]),
                    λ m. elim m [
                      | inl n ↦ outside (inl (push (inl n)))
                      | inr (inl (t', q', k)) ↦ outside (inl (push (inr (cc (k, q, q')))))
                      | inr (inr n) ↦ outside (inr n)
                    ],
                  ),
            )
      ]

  -- Being the rendering of one of the periods of a window.
  abbrev pub InWindow : T → ℕ → ℕ → Text → Type 0
  InWindow local first past p =
      (step : ℕ) × (first ≤ step)
      × (step < past)
      × (t : T) × (step_back calendar template local step ≡ some t)
      × (p ≡ render calendar template t)

  Renders-InWindow :
      (local : T) (count step past : ℕ) (p : Text)
      → step + count ≡ past
      → Renders local step count p
      → InWindow local step past p
  Renders-InWindow local zero step past p e r = elim r [ ]
  Renders-InWindow local (suc count) step past p e (inl (t, q, k)) =
      (step, omega arith, omega arith, t, q, k)
  Renders-InWindow local (suc count) step past p e (inr r) =
      let (i, lo, hi, t, q, k) = Renders-InWindow local count (suc step) past p (omega arith) r in
      (i, omega arith, hi, t, q, k)

  InWindow-Renders :
      (local : T) (count step past : ℕ) (p : Text)
      → step + count ≡ past
      → InWindow local step past p
      → Renders local step count p
  InWindow-Renders local zero step past p e (i, lo, hi, t, q, k) = absurd (omega arith)
  InWindow-Renders local (suc count) step past p e (i, lo, hi, t, q, k) =
      elim (le_cases step i lo) [
        | inl same ↦ inl (t, rw same q, k)
        | inr more ↦
            inr
              (InWindow-Renders local count (suc step) past p (omega arith) (i, more, hi, t, q, k))
      ]

  -- Where `resolve` gives prefixes, that is without a panic of the calendar, they are distinct, and they
  -- are exactly the renderings of the current period and of `lookback` earlier ones in the zone.
  pub resolve_iff :
      (at : Instant) (lookback : ℕ) (zone : Z) (prefixes : List Text)
      → resolve calendar template at lookback zone ≡ some prefixes
      → IsDistinct prefixes
        × ((p : Text) → In p prefixes ↔ InWindow (calendar.naive_local zone at) 0 (suc lookback) p)
  unfolding resolve
  resolve_iff at lookback zone prefixes e =
      let local = calendar.naive_local zone at in
      let (distinct, member) = resolve_from_lem (suc lookback) 0 local [] prefixes tt e in
      (
        distinct,
        λ p. (
          (λ m. elim ((member p).0 m) [
            | inl n ↦ absurd n
            | inr r ↦ Renders-InWindow local (suc lookback) 0 (suc lookback) p (omega arith) r
          ]),
          λ w.
              (member p).1
                (inr (InWindow-Renders local (suc lookback) 0 (suc lookback) p (omega arith) w)),
        ),
      )

  resolve_from_total :
      (count step past : ℕ) (local : T) (prefixes : List Text)
      → step + count ≡ past
      → ((i : ℕ) → i < past → (t : T) × (step_back calendar template local i ≡ some t))
      → (result : List Text) × (resolve_from calendar template local count step prefixes
          ≡ some result)
  unfolding resolve_from
  resolve_from_total zero step past local prefixes e h = (prefixes, refl)
  resolve_from_total (suc count) step past local prefixes e h =
      let (t, q) = h step (omega arith) in
      let x = render calendar template t in
      let (result, r) =
        resolve_from_total count (suc step) past local (push_new prefixes x) (omega arith) h in
      (result, rw (resolve_from, q) r)

  -- Where each of the steps back is possible, there are prefixes to watch, and one of them is the
  -- rendering of the current period.
  pub resolve_total :
      (at : Instant) (lookback : ℕ) (zone : Z)
      → ((i : ℕ)
          → i < suc lookback
          → (t : T) × (step_back calendar template (calendar.naive_local zone at) i ≡ some t))
      → (prefixes : List Text) × (resolve calendar template at lookback zone ≡ some prefixes)
        × In (render calendar template (calendar.naive_local zone at)) prefixes
  unfolding resolve step_back
  resolve_total at lookback zone h =
      let local = calendar.naive_local zone at in
      let (prefixes, e) =
        resolve_from_total (suc lookback) 0 (suc lookback) local [] (omega arith) h in
      (
        prefixes,
        e,
        ((resolve_iff at lookback zone prefixes e).1 (render calendar template local)).1
            (0, omega arith, omega arith, local, refl, refl),
      )
