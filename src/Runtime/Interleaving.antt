-- ===== src/Runtime/Interleaving.antt =====
-- The registry under any interleaving of the critical sections of starts, stops and polls.
use s3_pulse.Base.{
  ℕ, ◌≡◌, ◌≢◌, ◌⊎◌, inl, inr, refl, ◌==◌, none, some, Result, ok, err, is_some_and, arith,
  Bool-cases, Option-cases,
}
use s3_pulse.Base.Text.{Text}
use s3_pulse.Transport.Serve.{ErrorObject}
use s3_pulse.Service.Params.{WatchDefinition}
use s3_pulse.Watcher.{WatcherError, Zones}
use s3_pulse.Runtime.Values.{WatchSession}
use s3_pulse.Runtime.{
  Watchers, StartContext, Defaults, lookup, found, register, remove_same, update, prepare, started,
  enrol, watch_start, stop_session, stop_found, watch_stop,
}
use s3_pulse.Runtime.Registry.{
  IsRegistered, lookup-others, remove_same-IsRegistered, update-IsRegistered, register-IsRegistered,
}

module _ (V St : Type 0) where
  -- One critical section: a registration, a removal, or a write to a session that keeps its
  -- identifier, as the stops and the polls make.
  pub data Step : Watchers St → Watchers St → Type 0 where
    registers :
        (session : WatchSession St) (w : Watchers St) → Step w ((register {V = V} session w).1)
    removes : (session : WatchSession St) (w : Watchers St) → Step w (remove_same session w)
    writes :
        (serial : ℕ) (change : WatchSession St → WatchSession St) (w : Watchers St)
        → ((s : WatchSession St) → (change s).id ≡ s.id)
        → Step w (update serial change w)

  pub data Steps : Watchers St → Watchers St → Type 0 where
    done : (w : Watchers St) → Steps w w
    followed : (w w' w'' : Watchers St) → Steps w w' → Step w' w'' → Steps w w''

  Steps-trans : (w w' w'' : Watchers St) → Steps w w' → Steps w' w'' → Steps w w''
  Steps-trans w w' w'' p (done _) = p
  Steps-trans w w' w'' p (followed _ v _ q s) = followed w v w'' (Steps-trans w w' v p q) s

  Step-IsRegistered : (w w' : Watchers St) → Step w w' → IsRegistered w → IsRegistered w'
  Step-IsRegistered w w' (registers session _) h = register-IsRegistered V session w h
  Step-IsRegistered w w' (removes session _) h = remove_same-IsRegistered session w h
  Step-IsRegistered w w' (writes serial change _ same) h =
      update-IsRegistered serial change same w h

  pub Steps-IsRegistered : (w w' : Watchers St) → Steps w w' → IsRegistered w → IsRegistered w'
  Steps-IsRegistered w w' (done _) h = h
  Steps-IsRegistered w w' (followed _ v _ p s) h =
      Step-IsRegistered v w' s (Steps-IsRegistered w v p h)

module _ {V Z St : Type 0} (detail : Text → V) (show : WatcherError → Text) (zones : Zones Z)
    (defaults : Defaults) (definition : WatchDefinition) (context : StartContext)
    (before after : Watchers St → Watchers St)
    (before-Steps : (w : Watchers St) → Steps V St w (before w))
    (after-Steps : (w : Watchers St) → Steps V St w (after w)) where
  started-Steps :
      (session : WatchSession St) (r : Result (ErrorObject V) (Unit {0}) × Watchers St)
      → Steps V St (r.1) ((started context after session r).1)
  started-Steps session (err e, w) = done w
  started-Steps session (ok u, w) = elim (Bool-cases context.cancelled_after_spawn) [
    | inl e ↦ rw e (followed w (after w) _ (after-Steps w) (removes session (after w)))
    | inr e ↦ rw e (after-Steps w)
  ]

  enrol-Steps :
      (w : Watchers St) (r : Result (ErrorObject V) (WatchSession St))
      → Steps V St w ((enrol context before after r w).1)
  enrol-Steps w (err e) = before-Steps w
  enrol-Steps w (ok session) =
      let registered = register session (before w) in
      Steps-trans V St w (registered.1) _
        (followed w (before w) _ (before-Steps w) (registers session (before w)))
        (started-Steps session registered)

  watch_start-Steps :
      (w : Watchers St)
      → Steps V St w ((watch_start detail show zones defaults definition context before after w).1)
  unfolding watch_start
  watch_start-Steps w = enrol-Steps w (prepare detail show zones defaults definition context w)

stop_found-Steps :
    {V St : Type 0} (others : Watchers St → Watchers St)
    → ((w : Watchers St) → Steps V St w (others w))
    → (id : Text) (w : Watchers St) (r : Result (ErrorObject V) (WatchSession St))
    → Steps V St w ((stop_found id others r w).1)
stop_found-Steps others p id w (err e) = done w
stop_found-Steps {V} {St} others p id w (ok session) =
    let marked = update session.serial stop_session w in
    followed w (others marked) _
      (Steps-trans V St w marked (others marked)
        (followed w w marked (done w) (writes session.serial stop_session w (λ s. refl)))
        (p marked))
      (removes session (others marked))

-- Whatever other requests do before and behind its critical section, a start keeps the registry
-- within 32 watchers, under identifiers that are distinct and their own.
pub watch_start-IsRegistered :
    {V Z St : Type 0} (detail : Text → V) (show : WatcherError → Text) (zones : Zones Z)
    (defaults : Defaults) (definition : WatchDefinition) (context : StartContext)
    (before after : Watchers St → Watchers St)
    → ((w : Watchers St) → Steps V St w (before w))
    → ((w : Watchers St) → Steps V St w (after w))
    → (w : Watchers St) → IsRegistered w
    → IsRegistered ((watch_start detail show zones defaults definition context before after w).1)
watch_start-IsRegistered {V} {Z} {St} detail show zones defaults definition context before after p q
      w h =
    Steps-IsRegistered V St w _
      (watch_start-Steps detail show zones defaults definition context before after p q w) h

-- The same of a stop.
pub watch_stop-IsRegistered :
    {V St : Type 0} (id : Text) (others : Watchers St → Watchers St)
    → ((w : Watchers St) → Steps V St w (others w))
    → (w : Watchers St) → IsRegistered w
    → IsRegistered ((watch_stop {V = V} id others w).1)
unfolding watch_stop
watch_stop-IsRegistered {V} {St} id others p w h =
    Steps-IsRegistered V St w _ (stop_found-Steps others p id w (found id (lookup id w))) h

-- The session of a stop is gone: its identifier is free, or names a session that another request
-- has registered.
pub remove_same-lookup :
    {St : Type 0} (session : WatchSession St) (w : Watchers St)
    → (lookup session.id (remove_same session w) ≡ none)
      ⊎ ((s : WatchSession St) × (lookup session.id (remove_same session w) ≡ some s)
          × (s.serial ≢ session.serial))
unfolding remove_same
remove_same-lookup session w = elim (Option-cases (lookup session.id w)) [
  | inl e ↦ inl (rw (e, is_some_and) e)
  | inr (s, e) ↦ elim (Bool-cases (s.serial == session.serial)) [
    | inl same ↦ inl (rw (e, same) (lookup-others session.id w))
    | inr differs ↦ inr (s, rw (e, differs) e, λ p. absurd (ground (arith, differs, p)))
  ]
]
