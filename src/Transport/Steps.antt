-- ===== src/Transport/Steps.antt =====
-- crates/s3pulse-cli/src/rpc/transport.rs: what a spawned task does, and the steps of the loop and of
-- its tasks in any order.
use s3_pulse.Base.{suc, ◌≡◌, Option, none, some, List, ◌∷◌, ◌++◌, Result, ok, err, map, In}
use s3_pulse.Transport.{Bytes}
use s3_pulse.Transport.Serve.{
  RequestId, ErrorObject, Response, success, failure, running, finished, replied, Task, Server,
  Codec, request_cancelled, respond, without, receive, refuse_line,
}

module _ {V : Type 0} where
  -- What a cancelled task answers: its result within the grace period if that is a success.
  abbrev pub after_grace : Option (Result (ErrorObject V) V) → Result (ErrorObject V) V
  after_grace (some (ok value)) = ok value
  after_grace (some (err e)) = err request_cancelled
  after_grace none = err request_cancelled

  abbrev pub response_of : RequestId → Result (ErrorObject V) V → Response V
  response_of id (ok value) = success id value
  response_of id (err e) = failure id e

  -- The end of the handler of a task: its permit is dropped.
  abbrev pub finish :
      Server V → List (Task V) → Task V → List (Task V) → Result (ErrorObject V) V → Server V
  finish s before task after result = record s {
    permits = suc s.permits;
    tasks = before ++ record task { phase = finished result } ∷ after;
  }

  -- The response of a task.
  abbrev pub reply :
      Server V
      → List (Task V)
      → Task V
      → List (Task V)
      → RequestId
      → Result (ErrorObject V) V
      → Server V
  reply s before task after id result =
      respond (record s { tasks = before ++ record task { phase = replied } ∷ after })
        (response_of id result)

  -- The end of a task without an identifier, and of one with.
  abbrev pub end_silent : Server V → List (Task V) → List (Task V) → Server V
  end_silent s before after = record s { tasks = before ++ after }

  abbrev pub end_known : Server V → List (Task V) → List (Task V) → RequestId → Server V
  end_known s before after id = record s {
    in_flight = without id s.in_flight;
    tasks = before ++ after;
  }

  -- `connection_cancellation.cancel()`.
  abbrev pub cancel_all : Server V → Server V
  cancel_all s = record s { cancelled = map (λ t. t.ticket) s.tasks ++ s.cancelled }

  -- The steps of the loop and of its tasks, in any order.
  pub data Step (codec : Codec V) : Server V → Server V → Type 0 where
    line : (s : Server V) (bytes : Bytes) → Step codec s (receive codec s bytes)
    long_line : (s : Server V) → Step codec s (refuse_line s)
    hang_up : (s : Server V) → Step codec s (cancel_all s)
    done :
        (s : Server V) (before : List (Task V)) (task : Task V) (after : List (Task V))
        (result : Result (ErrorObject V) V)
        → s.tasks ≡ before ++ task ∷ after
        → task.phase ≡ running
        → Step codec s (finish s before task after result)
    stopped :
        (s : Server V) (before : List (Task V)) (task : Task V) (after : List (Task V))
        (result : Option (Result (ErrorObject V) V))
        → s.tasks ≡ before ++ task ∷ after
        → task.phase ≡ running
        → In task.ticket s.cancelled
        → Step codec s (finish s before task after (after_grace result))
    answer :
        (s : Server V) (before : List (Task V)) (task : Task V) (after : List (Task V))
        (id : RequestId) (result : Result (ErrorObject V) V)
        → s.tasks ≡ before ++ task ∷ after
        → task.phase ≡ finished result
        → task.id ≡ some id
        → Step codec s (reply s before task after id result)
    quiet :
        (s : Server V) (before : List (Task V)) (task : Task V) (after : List (Task V))
        (result : Result (ErrorObject V) V)
        → s.tasks ≡ before ++ task ∷ after
        → task.phase ≡ finished result
        → task.id ≡ none
        → Step codec s (end_silent s before after)
    leave :
        (s : Server V) (before : List (Task V)) (task : Task V) (after : List (Task V))
        (id : RequestId)
        → s.tasks ≡ before ++ task ∷ after
        → task.phase ≡ replied
        → task.id ≡ some id
        → Step codec s (end_known s before after id)
