-- ===== src/Runtime/Starting.antt =====
-- One start and one stop: what they answer and what they make of the registry.
use s3_pulse.Base.{
  ◌≡◌, ◌≢◌, ◌<◌, ◌⊎◌, inl, inr, refl, sym, ◌∙◌, ap, subst, ◌==◌, ==→eq, if◌then◌else◌, Bool, true,
  false, Option, none, some, [], ◌∷◌, Result, ok, err, is_some_and, length, keep, keep_every, arith,
  Bool-cases, In, In-map,
}
use s3_pulse.Base.Text.{Text, same_text, same_text→eq, same_text_refl}
use s3_pulse.Transport.Serve.{ErrorObject, request_cancelled}
use s3_pulse.Service.Errors.{watcher_not_found}
use s3_pulse.Service.Params.{WatchDefinition, WatchStartResult, running, stopped}
use s3_pulse.Watcher.{WatcherError, Zones}
use s3_pulse.Runtime.Values.{WatchSession}
use s3_pulse.Runtime.{
  Watchers, StartContext, Defaults, lookup, found, admit, insert_admitted, register, remove_same,
  update, prepare, started, enrol, watch_start, stop_session, stop_found, watch_stop,
}
use s3_pulse.Runtime.Registry.{IsRegistered, IsFiled, ids, others_than, admit_ok, lookup-none}
use s3_pulse.Runtime.Interleaving.{remove_same-lookup}

module _ {St : Type 0} where
  keep-unregistered : (id : Text) (w : Watchers St) → ¬ In id (ids w) → keep (others_than id) w ≡ w
  keep-unregistered id w free = keep_every (others_than id) w λ e m.
      elim (Bool-cases (same_text id e.0)) [
        | inl same ↦ absurd (
            free (
              subst (λ t. In t (ids w)) (sym (same_text→eq id (e.0) same))
                (In-map (λ x. x.0) e w m)))
        | inr differs ↦ rw differs
      ]

  -- A session that was just registered is removed without a trace.
  remove_same-inserted :
      (session : WatchSession St) (w : Watchers St)
      → lookup session.id w ≡ none
      → remove_same session ((session.id, session) ∷ w) ≡ w
  unfolding remove_same lookup
  remove_same-inserted session w free =
      let here : same_text session.id session.id ≡ true = same_text_refl session.id in
      let same : (session.serial == session.serial) ≡ true = ground arith in
      rw (here, is_some_and, same) (keep-unregistered session.id w (lookup-none session.id w free))

  -- An entry that is kept is found as before.
  lookup-kept :
      (id k : Text) (w : Watchers St)
      → same_text id k ≡ false
      → lookup k (keep (others_than id) w) ≡ lookup k w
  unfolding lookup
  lookup-kept id k [] differs = refl
  lookup-kept id k ((other, s) ∷ rest) differs = elim (Bool-cases (same_text id other)) [
    | inl e ↦
        let apart : same_text k other ≡ false = elim (Bool-cases (same_text k other)) [
          | inr q ↦ q
          | inl q ↦
              absurd
                (cc (differs, same_text_refl id, same_text→eq id other e, same_text→eq k other q))
        ] in
        rw (e, apart) (lookup-kept id k rest differs)
    | inr e ↦
        rw e (ap (λ r. if same_text k other then some s else r) (lookup-kept id k rest differs))
  ]

  lookup-IsFiled :
      (id : Text) (w : Watchers St) (session : WatchSession St)
      → IsFiled w
      → lookup id w ≡ some session
      → session.id ≡ id
  unfolding lookup
  lookup-IsFiled id [] session f h = absurd (cc h)
  lookup-IsFiled id ((other, s) ∷ rest) session (e, f) h = elim (Bool-cases (same_text id other)) [
    | inl same ↦
        let named : s ≡ session = ground (arith, h, same) in
        ap (λ x. x.id) (sym named) ∙ e ∙ sym (same_text→eq id other same)
    | inr differs ↦ lookup-IsFiled id rest session f (ground (arith, h, differs))
  ]

  -- The registry as the stop finds it under its second lock: the session marked as stopped, and
  -- then what other requests did.
  abbrev pub meanwhile : (Watchers St → Watchers St) → Watchers St → WatchSession St → Watchers St
  meanwhile others w session = others (update session.serial stop_session w)

  -- Every session but the given one stays where it is.
  abbrev pub Spares : WatchSession St → Watchers St → Watchers St → Type 0
  Spares session before after =
      (k : Text) (s : WatchSession St)
      → lookup k before ≡ some s
      → s.serial ≢ session.serial
      → lookup k after ≡ some s

  abbrev pub Gone : Text → WatchSession St → Watchers St → Type 0
  Gone k session after =
      (lookup k after ≡ none)
      ⊎ ((s : WatchSession St) × (lookup k after ≡ some s) × (s.serial ≢ session.serial))

  spared : (session : WatchSession St) (v : Watchers St) → Spares session v (remove_same session v)
  unfolding remove_same
  spared session v k s e differs =
      elim (Bool-cases
        (is_some_and (lookup session.id v) (λ current. current.serial == session.serial))) [
          | inr c ↦ rw (remove_same, c) e
          | inl c ↦ elim (Bool-cases (same_text session.id k)) [
            | inr other ↦ rw (remove_same, c) (lookup-kept session.id k v other ∙ e)
            | inl same ↦
                let found_it : lookup session.id v ≡ some s =
                  ap (λ t. lookup t v) (same_text→eq session.id k same) ∙ e in
                absurd (
                  differs (
                    ==→eq s.serial session.serial (
                      subst
                        (λ o. is_some_and o (λ current. current.serial == session.serial) ≡ true)
                        found_it c)))
          ]
        ]

module _ {V Z St : Type 0} (detail : Text → V) (show : WatcherError → Text) (zones : Zones Z)
    (defaults : Defaults) (definition : WatchDefinition) (context : StartContext)
    (w : Watchers St) where
  -- A refusal that leaves the registry, or one new session under a free identifier.
  abbrev pub Starts : Result (ErrorObject V) WatchStartResult × Watchers St → Type 0
  Starts run =
      ((e : ErrorObject V) × (run ≡ (err e, w)))
      ⊎ ((session : WatchSession St) × (lookup session.id w ≡ none)
          × (length w < 32)
          × (run ≡ (
            ok (record { watcher_id = session.id; status = running }),
            (session.id, session) ∷ w,
          )))

  started-Starts :
      (session : WatchSession St) (b : Bool)
      → lookup session.id w ≡ none
      → length w < 32
      → Starts (
          if b then (err request_cancelled, remove_same session ((session.id, session) ∷ w)) else (
            ok (record { watcher_id = session.id; status = running }),
            (session.id, session) ∷ w,
          ))
  started-Starts session true free room = inl (
    request_cancelled,
    ap (λ w'. (err request_cancelled, w')) (remove_same-inserted session w free),
  )
  started-Starts session false free room = inr (session, free, room, refl)

  admitted-Starts :
      (session : WatchSession St) (r : Result (ErrorObject V) (Unit {0}))
      → admit session.id w ≡ r
      → Starts (started context (λ v. v) session (insert_admitted r session w))
  admitted-Starts session (err e) h = inl (e, refl)
  admitted-Starts session (ok u) h =
      let (free, room) = admit_ok session.id w h in
      started-Starts session context.cancelled_after_spawn free room

  enrol-Starts :
      (r : Result (ErrorObject V) (WatchSession St)) → Starts (enrol context (λ v. v) (λ v. v) r w)
  unfolding register
  enrol-Starts (err e) = inl (e, refl)
  enrol-Starts (ok session) = admitted-Starts session (admit session.id w) refl

  -- Without other requests in between, a start is refused and leaves the registry as it was, or it
  -- answers that a watcher runs and adds one session to at most 31 others, under an identifier that
  -- was free.
  pub watch_start-Starts :
      Starts (watch_start detail show zones defaults definition context (λ v. v) (λ v. v) w)
  unfolding watch_start
  watch_start-Starts = enrol-Starts (prepare detail show zones defaults definition context w)

module _ {V St : Type 0} (id : Text) (others : Watchers St → Watchers St) (w : Watchers St) where
  abbrev pub Stops : Result (ErrorObject V) WatchStartResult × Watchers St → Type 0
  Stops run =
      ((lookup id w ≡ none) × (run ≡ (err (watcher_not_found id), w)))
      ⊎ ((session : WatchSession St) × (lookup id w ≡ some session)
          × (run.0 ≡ ok (record { watcher_id = id; status = stopped }))
          × Gone id session (run.1)
          × Spares session (meanwhile others w session) (run.1))

  stop_found-Stops :
      IsRegistered w
      → (o : Option (WatchSession St)) → lookup id w ≡ o
      → Stops (stop_found id others (found id o) w)
  stop_found-Stops h none e = inl (e, refl)
  stop_found-Stops (n, d, f) (some session) e =
      let v = meanwhile others w session in
      let named : session.id ≡ id = lookup-IsFiled id w session f e in
      inr (
        session,
        e,
        refl,
        subst (λ t. Gone t session (remove_same session v)) named (remove_same-lookup session v),
        spared session v,
      )

  -- In a registry that keeps its invariant, a stop of a watcher that is not there fails and leaves
  -- the registry, and one of a watcher that is there answers that it is stopped. Whatever other
  -- requests do meanwhile, its session is then gone, so that the identifier is free or another
  -- session's, and every other session that the stop finds under its second lock, one that has taken
  -- the identifier included, is still found as it was.
  pub watch_stop-Stops : IsRegistered w → Stops (watch_stop id others w)
  unfolding watch_stop
  watch_stop-Stops h = stop_found-Stops h (lookup id w) refl
