-- ===== src/Runtime/Registry.antt =====
-- The registry of watchers under interleaved requests: its bound, its keys, and what a start and a
-- stop do to it.
use s3_pulse.Base.{
  ℕ, suc, ◌≤◌, ◌<◌, ◌≡◌, inl, inr, refl, sym, ◌∙◌, ap, subst, ◌==◌, if◌then◌else◌, Bool, true,
  false, not, none, List, [], ◌∷◌, map, Result, ok, err, is_some_and, length, keep, arith, In,
  Bool-cases, Option-cases,
}
use s3_pulse.Base.Distinct.{IsDistinct}
use s3_pulse.Base.Text.{Text, same_text, same_text_refl}
use s3_pulse.Transport.Serve.{ErrorObject}
use s3_pulse.Runtime.Values.{WatchSession}
use s3_pulse.Runtime.{Watchers, lookup, admit, insert_admitted, register, remove_same, update}

module _ {St : Type 0} where
  abbrev pub ids : Watchers St → List Text
  ids watchers = map (λ e. e.0) watchers

  -- Each session stands under its own identifier.
  abbrev pub IsFiled : Watchers St → Type 0
  IsFiled [] = Unit {0}
  IsFiled (e ∷ rest) = ((e.1).id ≡ e.0) × IsFiled rest

  -- At most 32 watchers, no two under one identifier, each under its own.
  abbrev pub IsRegistered : Watchers St → Type 0
  IsRegistered watchers = (length watchers ≤ 32) × IsDistinct (ids watchers) × IsFiled watchers

  pub lookup-none :
      (id : Text) (watchers : Watchers St) → lookup id watchers ≡ none → ¬ In id (ids watchers)
  unfolding lookup
  lookup-none id [] h = λ m. elim m [ ]
  lookup-none id ((other, session) ∷ rest) h = elim (Bool-cases (same_text id other)) [
    | inl e ↦ absurd (cc (e, h))
    | inr e ↦
        let h' : lookup id rest ≡ none = ground (arith, h) in
        λ m. elim m [
          | inl p ↦ absurd (cc (e, same_text_refl id, p))
          | inr q ↦ lookup-none id rest h' q
        ]
  ]

  abbrev pub others_than : Text → Text × WatchSession St → Bool
  others_than id e = not (same_text id e.0)

  length-others :
      (id : Text) (watchers : Watchers St)
      → length (keep (others_than id) watchers) ≤ length watchers
  length-others id [] = omega arith
  length-others id (e ∷ rest) = ground (arith, length-others id rest)

  In-others :
      (id x : Text) (watchers : Watchers St)
      → In x (ids (keep (others_than id) watchers))
      → In x (ids watchers)
  In-others id x [] h = h
  In-others id x ((other, session) ∷ rest) h = ground (arith, In-others id x rest)

  others-IsDistinct :
      (id : Text) (watchers : Watchers St)
      → IsDistinct (ids watchers)
      → IsDistinct (ids (keep (others_than id) watchers))
  others-IsDistinct id [] h = h
  others-IsDistinct id ((other, session) ∷ rest) (a, d) = elim (Bool-cases (same_text id other)) [
    | inl e ↦ rw e (others-IsDistinct id rest d)
    | inr e ↦ rw e ((λ m. a (In-others id other rest m)), others-IsDistinct id rest d)
  ]

  others-IsFiled :
      (id : Text) (watchers : Watchers St)
      → IsFiled watchers
      → IsFiled (keep (others_than id) watchers)
  others-IsFiled id [] h = h
  others-IsFiled id ((other, session) ∷ rest) (a, d) = ground (arith, others-IsFiled id rest d)

  pub lookup-others :
      (id : Text) (watchers : Watchers St) → lookup id (keep (others_than id) watchers) ≡ none
  unfolding lookup
  lookup-others id [] = refl
  lookup-others id ((other, session) ∷ rest) = ground (arith, lookup-others id rest)

  remaining-IsRegistered :
      (id : Text) (watchers : Watchers St)
      → IsRegistered watchers
      → IsRegistered (keep (others_than id) watchers)
  remaining-IsRegistered id watchers (n, d, f) = (
    omega (arith, length-others id watchers, n),
    others-IsDistinct id watchers d,
    others-IsFiled id watchers f,
  )

  either-IsRegistered :
      (w w' : Watchers St) (b : Bool)
      → IsRegistered w
      → IsRegistered w'
      → IsRegistered (if b then w else w')
  either-IsRegistered w w' true p q = p
  either-IsRegistered w w' false p q = q

  pub remove_same-IsRegistered :
      (session : WatchSession St) (watchers : Watchers St)
      → IsRegistered watchers
      → IsRegistered (remove_same session watchers)
  unfolding remove_same
  remove_same-IsRegistered session watchers h =
      either-IsRegistered (keep (others_than session.id) watchers) watchers
        (is_some_and (lookup session.id watchers) (λ current. current.serial == session.serial))
        (remaining-IsRegistered session.id watchers h) h

  module _ (serial : ℕ) (change : WatchSession St → WatchSession St)
      (same : (s : WatchSession St) → (change s).id ≡ s.id) where
    ids-update : (watchers : Watchers St) → ids (update serial change watchers) ≡ ids watchers
    unfolding update
    ids-update [] = refl
    ids-update ((other, session) ∷ rest) = ap (◌∷◌ other) (ids-update rest)

    length-update :
        (watchers : Watchers St) → length (update serial change watchers) ≡ length watchers
    unfolding update
    length-update [] = refl
    length-update (e ∷ rest) = ap suc (length-update rest)

    changed_id : (b : Bool) (s : WatchSession St) → (if b then change s else s).id ≡ s.id
    changed_id true s = same s
    changed_id false s = refl

    update-IsFiled :
        (watchers : Watchers St) → IsFiled watchers → IsFiled (update serial change watchers)
    unfolding update
    update-IsFiled [] f = tt
    update-IsFiled ((other, session) ∷ rest) (e, f) =
        (changed_id (session.serial == serial) session ∙ e, update-IsFiled rest f)

    pub update-IsRegistered :
        (watchers : Watchers St)
        → IsRegistered watchers
        → IsRegistered (update serial change watchers)
    update-IsRegistered watchers (n, d, f) = (
      omega (arith, length-update watchers, n),
      subst IsDistinct (sym (ids-update watchers)) d,
      update-IsFiled watchers f,
    )

  -- What the checks let through.
  pub admit_ok :
      {V : Type 0} (id : Text) (watchers : Watchers St)
      → admit {V = V} id watchers ≡ ok tt
      → (lookup id watchers ≡ none) × (length watchers < 32)
  unfolding admit
  admit_ok id watchers h = elim (Option-cases (lookup id watchers)) [
    | inl e ↦ (e, ground (arith, h, e))
    | inr (s, e) ↦ absurd (ground (arith, h, e))
  ]

  module _ (V : Type 0) (session : WatchSession St) where
    inserted-IsRegistered :
        (watchers : Watchers St) (r : Result (ErrorObject V) (Unit {0}))
        → admit session.id watchers ≡ r
        → IsRegistered watchers
        → IsRegistered ((insert_admitted r session watchers).1)
    inserted-IsRegistered watchers (ok u) e (n, d, f) =
        let (free, room) = admit_ok session.id watchers e in
        (omega (arith, room), (lookup-none session.id watchers free, d), (refl, f))
    inserted-IsRegistered watchers (err x) e h = h

    pub register-IsRegistered :
        (watchers : Watchers St)
        → IsRegistered watchers
        → IsRegistered ((register {V = V} session watchers).1)
    unfolding register
    register-IsRegistered watchers h =
        inserted-IsRegistered watchers (admit session.id watchers) refl h
