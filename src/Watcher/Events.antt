-- ===== src/Watcher/Events.antt =====
-- The events of a run.
use s3_pulse.Base.{
  ℕ, zero, suc, ◌≡◌, refl, sym, ap, ◌∙◌, subst, Option, none, some, List, [], ◌∷◌, ◌++◌, Result, ok,
  err, inl, inr, Option-cases, ℕ-cases,
}
use s3_pulse.Base.Text.{Text}
use s3_pulse.Error.{StoreError}
use s3_pulse.Model.{Instant}
use s3_pulse.Template.Resolve.{Calendar}
use s3_pulse.History.Retention.{IsValid}
use s3_pulse.Watcher.{
  PollingWatcher, PollResult, WatcherEvent, started, poll_completed, poll_failed, stopped,
  poll_once,
}
use s3_pulse.Watcher.Run.{Turn, cancel, round, Outcome, ended, stop, run_loop, run, event_of, sent}
use s3_pulse.Watcher.Polling.{poll_once-IsValid}

-- Events of polls only.
abbrev pub IsPolls : List WatcherEvent → Type 0
IsPolls [] = Unit {0}
IsPolls (poll_completed id result ∷ events) = IsPolls events
IsPolls (poll_failed id at e ∷ events) = IsPolls events
IsPolls (started id at ∷ events) = ⊥
IsPolls (stopped id at ∷ events) = ⊥

-- What a loop sends that ends regularly.
abbrev pub IsEnding : List WatcherEvent → Type 0
IsEnding events =
    (polls : List WatcherEvent) × (id : List ℕ) × (at : Instant) × IsPolls polls
    × (events ≡ polls ++ stopped id at ∷ [])

module _ {T Z : Type 0} (calendar : Calendar T Z) where
  -- If the trace ends regularly, then its events end with the stop, and the history is valid.
  abbrev Ends : List WatcherEvent × Outcome × PollingWatcher Z → Type 0
  Ends (events, outcome, watcher) =
      (outcome ≡ ended (ok tt)) → IsEnding events × IsValid watcher.history

  stop-Ends :
      (sends : ℕ) (at : Instant) (watcher : PollingWatcher Z)
      → IsValid watcher.history
      → Ends (stop calendar sends at watcher)
  unfolding stop
  stop-Ends zero at watcher v = λ e. cc
  stop-Ends (suc sends) at watcher v = λ e. (([], watcher.config.id, at, tt, refl), v)

  sent-Ends :
      (id : Text) (failed_at : Instant) (result : Result StoreError PollResult)
      (t : List WatcherEvent × Outcome × PollingWatcher Z)
      → Ends t
      → Ends (sent calendar (event_of calendar id failed_at result) t)
  sent-Ends id failed_at (ok result) t h = λ e.
      let ((polls, name, at, p, q), v) = h e in
      ((poll_completed id result ∷ polls, name, at, p, ap (◌∷◌ (poll_completed id result)) q), v)
  sent-Ends id failed_at (err error) t h = λ e.
      let ((polls, name, at, p, q), v) = h e in
      (
        (
          poll_failed id failed_at error ∷ polls,
          name,
          at,
          p,
          ap (◌∷◌ (poll_failed id failed_at error)) q,
        ),
        v,
      )

  run_loop-Ends :
      (sends : ℕ) (turns : List Turn) (watcher : PollingWatcher Z)
      → IsValid watcher.history
      → Ends (run_loop calendar sends turns watcher)
  unfolding run_loop
  run_loop-Ends sends [] watcher v = λ e. cc
  run_loop-Ends sends (cancel at ∷ turns) watcher v = stop-Ends sends at watcher v
  run_loop-Ends sends (round list_objects start polled_at failed_at cancelled ∷ turns) watcher v =
      elim (Option-cases (poll_once calendar list_objects start polled_at watcher)) [
        | inl k ↦ rw (run_loop, k) (λ e. cc)
        | inr ((result, after), k) ↦
            let valid =
              poll_once-IsValid calendar list_objects start polled_at watcher after result v k in
            elim (ℕ-cases sends) [
              | inl z ↦ rw (run_loop, k, z) (λ e. cc)
              | inr (sends', z) ↦ elim (Option-cases cancelled) [
                | inl c ↦
                    rw (run_loop, k, z, c)
                      (sent-Ends watcher.config.id failed_at result
                        (run_loop calendar sends' turns after)
                        (run_loop-Ends sends' turns after valid))
                | inr (at, c) ↦
                    rw (run_loop, k, z, c)
                      (sent-Ends watcher.config.id failed_at result (stop calendar sends' at after)
                        (stop-Ends sends' at after valid))
              ]
            ]
      ]

  started-Ends :
      (first : WatcherEvent) (events : List WatcherEvent)
      (t : List WatcherEvent × Outcome × PollingWatcher Z) (after : PollingWatcher Z)
      → Ends t
      → sent calendar first t ≡ (events, ended (ok tt), after)
      → ((polls : List WatcherEvent) × (id : List ℕ) × (stopped_at : Instant) × IsPolls polls
          × (events ≡ first ∷ (polls ++ stopped id stopped_at ∷ [])))
        × IsValid after.history
  started-Ends first events (es, outcome, w) after h e =
      let same_events : first ∷ es ≡ events = cc e in
      let same_outcome : outcome ≡ ended (ok tt) = cc e in
      let same_watcher : w ≡ after = cc e in
      let ((polls, id, at, p, q), v) = h same_outcome in
      (
        (polls, id, at, p, sym same_events ∙ ap (◌∷◌ first) q),
        subst (λ (x : PollingWatcher Z). IsValid x.history) same_watcher v,
      )

  -- A run on a well-formed history that ends without an error sends the start, then only outcomes of
  -- polls, then the stop, and leaves a well-formed history, whatever polls failed on the way.
  pub run_events :
      (sends : ℕ) (at : Instant) (cancelled : Option Instant) (turns : List Turn)
      (watcher after : PollingWatcher Z) (events : List WatcherEvent)
      → IsValid watcher.history
      → run calendar sends at cancelled turns watcher ≡ (events, ended (ok tt), after)
      → ((polls : List WatcherEvent) × (id : List ℕ) × (stopped_at : Instant) × IsPolls polls
          × (events ≡ started watcher.config.id at ∷ (polls ++ stopped id stopped_at ∷ [])))
        × IsValid after.history
  unfolding run
  run_events zero at cancelled turns watcher after events v h = cc
  run_events (suc sends) at none turns watcher after events v h =
      started-Ends (started watcher.config.id at) events (run_loop calendar sends turns watcher)
        after (run_loop-Ends sends turns watcher v) h
  run_events (suc sends) at (some stopped_at) turns watcher after events v h =
      started-Ends (started watcher.config.id at) events (stop calendar sends stopped_at watcher)
        after (stop-Ends sends stopped_at watcher v) h
