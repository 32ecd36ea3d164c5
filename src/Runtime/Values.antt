-- ===== src/Runtime/Values.antt =====
-- crates/s3pulse-cli/src/rpc/runtime.rs: the sessions of the runtime and the notifications that it
-- sends. `St` is the type of the statistics of a snapshot, V that of a JSON value.
use s3_pulse.Base.{ℕ, Bool, Option, List, Result}
use s3_pulse.Base.Text.{Text}
use s3_pulse.Model.{Instant, S3Object, ObjectChange}
use s3_pulse.Error.{StoreError}
use s3_pulse.Uri.{S3Uri}
use s3_pulse.Template.{DateTemplate}
use s3_pulse.Watcher.{PollResult}
use s3_pulse.Service.Params.{WatchState, RequestCounts}

pub record StatusData : Type 0 where
  pub state : WatchState
  pub last_poll_at : Option Instant
  pub error : Option Text

-- The part of a `HistorySnapshot` that the runtime reads.
pub record Snapshot (St : Type 0) : Type 0 where
  pub objects : List S3Object
  pub statistics : St

-- `serial` stands for the identity of the `Arc`, and `cancelled` for the token.
pub record WatchSession (St : Type 0) : Type 0 where
  pub serial : ℕ
  pub id : Text
  pub name : Text
  pub target : S3Uri
  pub target_display : Text
  pub template : Option DateTemplate
  pub snapshot : Option (Snapshot St)
  pub cancelled : Bool
  pub status : StatusData

-- The result of a poll with the statistics of its snapshot, and the meter of the store after it.
pub record Polled (St : Type 0) : Type 0 where
  pub result : PollResult
  pub statistics : St
  pub request_counts : RequestCounts

pub data Notification (St : Type 0) : Type 0 where
  status_changed : Text → WatchState → Notification St
  objects_added : Text → List S3Object → List ObjectChange → Notification St
  statistics_updated : Text → St → RequestCounts → Notification St
  watch_error : Text → StoreError → Notification St

-- One round of the loop of `run_watcher`: the cancellation before the poll is done, or a poll and
-- whether the sleep after it is cancelled.
pub data Round (St : Type 0) : Type 0 where
  cancelled_poll : Round St
  poll : Result StoreError (Polled St) → Bool → Round St
