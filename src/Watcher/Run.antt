-- ===== src/Watcher/Run.antt =====
-- crates/s3pulse-core/src/watcher.rs: `PollingWatcher::run`. What `select!` picks, the times of the
-- clock and the answers of the store come as a list of turns.
use s3_pulse.Base.{ℕ, zero, suc, Option, none, some, List, [], ◌∷◌, Result, ok, err}
use s3_pulse.Base.Text.{Text}
use s3_pulse.Model.{Instant}
use s3_pulse.Template.Resolve.{Calendar}
use s3_pulse.Error.{StoreError}
use s3_pulse.Watcher.{
  PollingWatcher, PollResult, WatcherEvent, started, poll_completed, poll_failed, stopped,
  WatcherError, event_channel_closed, Lister, poll_once,
}

-- One turn of the loop: cancelled while it polls, or a poll and then a sleep, which a cancellation
-- may end.
pub data Turn : Type 0 where
  cancel : (at : Instant) → Turn
  round :
      (list_objects : Lister) (start polled_at failed_at : Instant) (cancelled : Option Instant)
      → Turn

pub data Outcome : Type 0 where
  ended : Result WatcherError (Unit {0}) → Outcome
  still_running panicked : Outcome

module _ {T Z : Type 0} (calendar : Calendar T Z) where
  -- What is sent, the outcome, and the watcher after it.
  abbrev pub Trace : Type 0
  Trace = List WatcherEvent × Outcome × PollingWatcher Z

  abbrev pub sent : WatcherEvent → Trace → Trace
  sent event (events, outcome, watcher) = (event ∷ events, outcome, watcher)

  abbrev pub event_of : Text → Instant → Result StoreError PollResult → WatcherEvent
  event_of id failed_at (ok result) = poll_completed id result
  event_of id failed_at (err e) = poll_failed id failed_at e

  -- The first argument is how many events the receiver takes before it is closed.
  unfoldable pub stop : ℕ → Instant → PollingWatcher Z → Trace
  stop zero at watcher = ([], ended (err event_channel_closed), watcher)
  stop (suc sends) at watcher = (stopped watcher.config.id at ∷ [], ended (ok tt), watcher)

  unfoldable pub run_loop : ℕ → List Turn → PollingWatcher Z → Trace
  unfolding stop poll_once
  run_loop sends [] watcher = ([], still_running, watcher)
  run_loop sends (cancel at ∷ turns) watcher = stop sends at watcher
  run_loop sends (round list_objects start polled_at failed_at cancelled ∷ turns) watcher =
      elim (poll_once calendar list_objects start polled_at watcher) [
        | none ↦ ([], panicked, watcher)
        | some (result, watcher') ↦ elim sends [
          | zero ↦ ([], ended (err event_channel_closed), watcher')
          | suc sends' ↦ sent (event_of watcher.config.id failed_at result) (elim cancelled [
            | none ↦ run_loop sends' turns watcher'
            | some at ↦ stop sends' at watcher'
          ])
        ]
      ]

  unfoldable pub run : ℕ → Instant → Option Instant → List Turn → PollingWatcher Z → Trace
  unfolding run_loop
  run zero at cancelled turns watcher = ([], ended (err event_channel_closed), watcher)
  run (suc sends) at cancelled turns watcher = sent (started watcher.config.id at) (elim cancelled [
    | some stopped_at ↦ stop sends stopped_at watcher
    | none ↦ run_loop sends turns watcher
  ])
