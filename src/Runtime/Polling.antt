-- ===== src/Runtime/Polling.antt =====
-- crates/s3pulse-cli/src/rpc/runtime.rs: `run_watcher`, the task of a session, as the session that it
-- leaves and the notifications that it sends.
use s3_pulse.Base.{
  ℕ, zero, suc, Bool, true, false, if◌then◌else◌, none, some, List, [], ◌∷◌, ◌++◌, map, Result, ok,
  err,
}
use s3_pulse.Base.Text.{Text}
use s3_pulse.Model.{ObjectChange}
use s3_pulse.Error.{StoreError}
use s3_pulse.Service.Params.{WatchState, starting, running, stopping, stopped, error}
use s3_pulse.Runtime.Values.{
  WatchSession, Polled, Notification, status_changed, objects_added, statistics_updated,
  watch_error, Round, cancelled_poll, poll,
}

-- Less one, for the entry that a batch begins with.
abbrev pub notification_batch_rest : ℕ
notification_batch_rest = 249

-- `slice::chunks`: the rest of a chunk with room for some more, and the chunks behind it.
module _ {A : Type 0} where
  unfoldable pub fill : ℕ → ℕ → List A → List A × List (List A)
  fill size room [] = ([], [])
  fill size zero (x ∷ xs) = let r = fill size size xs in ([], (x ∷ r.0) ∷ r.1)
  fill size (suc room) (x ∷ xs) = let r = fill size room xs in (x ∷ r.0, r.1)

  -- Chunks of at most `suc size` entries.
  unfoldable pub chunks : ℕ → List A → List (List A)
  unfolding fill
  chunks size [] = []
  chunks size (x ∷ xs) = let r = fill size size xs in (x ∷ r.0) ∷ r.1

unfoldable pub is_error : WatchState → Bool
is_error starting = false
is_error running = false
is_error stopping = false
is_error stopped = false
is_error error = true

module _ {St : Type 0} where
  abbrev pub added : Text → List ObjectChange → Notification St
  added id batch = objects_added id (map (λ change. change.object) batch) batch

  -- The session and the notifications of a poll that succeeds.
  unfoldable pub poll_succeeded :
      Polled St → WatchSession St → WatchSession St × List (Notification St)
  unfolding chunks is_error
  poll_succeeded polled session =
      let result = polled.result in
      let recovered = is_error ((session.status).state) in
      let notes =
        map (added session.id) (chunks notification_batch_rest ((result.update).changes))
        ++ statistics_updated session.id polled.statistics polled.request_counts ∷ [] in
      (
        record session {
          snapshot =
              some (record { objects = result.snapshot_objects; statistics = polled.statistics });
          status = record { state = running; last_poll_at = some result.polled_at; error = none };
        },
        (if recovered then status_changed session.id running ∷ notes else notes),
      )

  unfoldable pub poll_failed :
      StoreError → WatchSession St → WatchSession St × List (Notification St)
  poll_failed failure session = (
    record session {
      status = record (session.status) { state = error; error = some failure.message };
    },
    watch_error session.id failure ∷ status_changed session.id error ∷ [],
  )

  abbrev pub after_poll :
      Result StoreError (Polled St) → WatchSession St → WatchSession St × List (Notification St)
  after_poll (ok polled) session = poll_succeeded polled session
  after_poll (err failure) session = poll_failed failure session

  -- The end of the task.
  abbrev pub set_stopped : WatchSession St → WatchSession St
  set_stopped session = record session { status = record (session.status) { state = stopped } }

  -- The loop, over the rounds that there are; without a further one the task goes on.
  unfoldable pub run_watcher :
      List (Round St) → WatchSession St → WatchSession St × List (Notification St)
  unfolding poll_succeeded poll_failed
  run_watcher [] session = (session, [])
  run_watcher (cancelled_poll ∷ rest) session = (set_stopped session, [])
  run_watcher (poll result true ∷ rest) session =
      let r = after_poll result session in (set_stopped r.0, r.1)
  run_watcher (poll result false ∷ rest) session =
      let r = after_poll result session in let r' = run_watcher rest r.0 in (r'.0, r.1 ++ r'.1)
