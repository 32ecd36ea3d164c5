-- ===== src/Runtime/Told.antt =====
-- What the task of a watcher tells its client: every change once, in order and in small batches, and
-- every change of its status.
use s3_pulse.Base.{
  ◌≡◌, ◌⊎◌, inl, inr, refl, ◌∙◌, ap, false, if◌then◌else◌, List, [], ◌∷◌, ◌++◌, map, Result, ok,
  err,
}
use s3_pulse.Base.Text.{Text}
use s3_pulse.Model.{ObjectChange}
use s3_pulse.Error.{StoreError}
use s3_pulse.Service.Params.{WatchState, running, error}
use s3_pulse.Runtime.Values.{
  WatchSession, Polled, Notification, status_changed, objects_added, statistics_updated,
  watch_error, Round, poll,
}
use s3_pulse.Runtime.Polling.{
  chunks, notification_batch_rest, is_error, added, poll_succeeded, poll_failed, after_poll,
  run_watcher,
}

-- The states of a watcher that polls.
abbrev pub IsActive : WatchState → Type 0
IsActive state = (state ≡ running) ⊎ (state ≡ error)

module _ {St : Type 0} where
  -- The changes that notifications carry, each with the objects beside them.
  abbrev pub changes_told : List (Notification St) → List (List ObjectChange)
  changes_told [] = []
  changes_told (status_changed id state ∷ rest) = changes_told rest
  changes_told (objects_added id objects changes ∷ rest) = changes ∷ changes_told rest
  changes_told (statistics_updated id statistics counts ∷ rest) = changes_told rest
  changes_told (watch_error id failure ∷ rest) = changes_told rest

  -- The changes of polls, in order.
  abbrev pub changes_of : List (Result StoreError (Polled St)) → List ObjectChange
  changes_of [] = []
  changes_of (ok polled ∷ rest) = ((polled.result).update).changes ++ changes_of rest
  changes_of (err failure ∷ rest) = changes_of rest

  -- The status that a client knows after notifications.
  abbrev pub status_told : WatchState → List (Notification St) → WatchState
  status_told state [] = state
  status_told state (status_changed id new ∷ rest) = status_told new rest
  status_told state (objects_added id objects changes ∷ rest) = status_told state rest
  status_told state (statistics_updated id statistics counts ∷ rest) = status_told state rest
  status_told state (watch_error id failure ∷ rest) = status_told state rest

  -- Rounds without a cancellation.
  abbrev pub rounds : List (Result StoreError (Polled St)) → List (Round St)
  rounds results = map (λ result. poll result false) results

  status_told-append :
      (state : WatchState) (ns ms : List (Notification St))
      → status_told state (ns ++ ms) ≡ status_told (status_told state ns) ms
  status_told-append state [] ms = refl
  status_told-append state (status_changed id new ∷ rest) ms = status_told-append new rest ms
  status_told-append state (objects_added id objects changes ∷ rest) ms =
      status_told-append state rest ms
  status_told-append state (statistics_updated id statistics counts ∷ rest) ms =
      status_told-append state rest ms
  status_told-append state (watch_error id failure ∷ rest) ms = status_told-append state rest ms

  status_told-added :
      (id : Text) (state : WatchState) (batches : List (List ObjectChange))
      (rest : List (Notification St))
      → status_told state (map (added id) batches ++ rest) ≡ status_told state rest
  status_told-added id state [] rest = refl
  status_told-added id state (batch ∷ batches) rest = status_told-added id state batches rest

  -- The statistics close the notifications of a poll that succeeds.
  abbrev notes_of : Text → Polled St → List (Notification St)
  notes_of id polled =
      map (added id) (chunks notification_batch_rest (((polled.result).update).changes))
      ++ statistics_updated id polled.statistics polled.request_counts ∷ []

  abbrev state_of : WatchSession St → WatchState
  state_of session = (session.status).state

  status_told-recovered :
      (id : Text) (state : WatchState) (notes : List (Notification St))
      → IsActive state
      → ((known : WatchState) → status_told known notes ≡ known)
      → status_told state (if is_error state then status_changed id running ∷ notes else notes)
        ≡ running
  unfolding is_error
  status_told-recovered id state notes (inl e) same = rw e (same running)
  status_told-recovered id state notes (inr e) same = rw e (same running)

  status_told-after_poll :
      (result : Result StoreError (Polled St)) (session : WatchSession St)
      → IsActive (state_of session)
      → (status_told (state_of session) ((after_poll result session).1)
          ≡ state_of ((after_poll result session).0))
        × IsActive (state_of ((after_poll result session).0))
  unfolding poll_succeeded poll_failed
  status_told-after_poll (err failure) session h = (refl, inr refl)
  status_told-after_poll (ok polled) session h = (
    status_told-recovered session.id (state_of session) (notes_of session.id polled) h λ known.
        status_told-added session.id known
          (chunks notification_batch_rest (((polled.result).update).changes))
          (statistics_updated session.id polled.statistics polled.request_counts ∷ []),
    inl refl,
  )

  -- A client that follows the notifications of a watcher that runs or has failed, and is not
  -- cancelled, knows its status after every poll.
  pub run_watcher-status :
      (results : List (Result StoreError (Polled St))) (session : WatchSession St)
      → IsActive ((session.status).state)
      → status_told ((session.status).state) ((run_watcher (rounds results) session).1)
        ≡ (((run_watcher (rounds results) session).0).status).state
  unfolding run_watcher
  run_watcher-status [] session h = refl
  run_watcher-status (result ∷ rest) session h =
      let r = after_poll result session in
      let (known, active) = status_told-after_poll result session h in
      status_told-append (state_of session) (r.1) ((run_watcher (rounds rest) (r.0)).1)
      ∙ ap (λ state. status_told state ((run_watcher (rounds rest) (r.0)).1)) known
      ∙ run_watcher-status rest (r.0) active
