-- ===== src/Download/Monad.antt =====
-- The monad of the download in crates/s3pulse-core/src/store.rs: calls that read and change the
-- files, the meter of GET requests and the progress channel, and that may fail with a store error.
use s3_pulse.Base.{
  ℕ, suc, Bool, true, false, Option, none, some, List, ◌∷◌, Result, ok, err, map_err,
}
use s3_pulse.Base.Text.{Text}
use s3_pulse.Error.{StoreError, cancelled_error}
use s3_pulse.Error.Io.{io_error}
use s3_pulse.Download.Files.{Answer}
use s3_pulse.Download.Values.{DownloadProgress}

-- `point` counts the places that look at the cancellation; `sent` are the messages that the channel
-- took, the last one first.
pub record Machine (State F : Type 0) : Type 0 where
  pub files : State
  pub point : ℕ
  pub get_requests : ℕ
  pub sent : List (DownloadProgress F)

abbrev pub Io : Type 0 → Type 0 → Type 0
Io M A = M → Result StoreError A × M

module _ {M : Type 0} where
  abbrev pub pure : {A : Type 0} → A → Io M A
  pure a m = (ok a, m)

  abbrev pub throw : {A : Type 0} → StoreError → Io M A
  throw e m = (err e, m)

  -- `?` on a result that is there.
  abbrev pub lift : {A : Type 0} → Result StoreError A → Io M A
  lift r m = (r, m)

  abbrev pub continue :
      {A B : Type 0} → Result StoreError A × M → (A → Io M B) → Result StoreError B × M
  continue (ok a, m) next = next a m
  continue (err e, m) next = (err e, m)

  infixl 5 ◌>>=◌ ◌>>◌
  abbrev pub ◌>>=◌ : {A B : Type 0} → Io M A → (A → Io M B) → Io M B
  ◌>>=◌ run next m = continue (run m) next

  abbrev pub ◌>>◌ : {B : Type 0} → Io M (Unit {0}) → Io M B → Io M B
  run >> next = run >>= λ _. next

module _ {State F : Type 0} where
  abbrev pub answered :
      Text → Answer State → Machine State F → Result StoreError (Unit {0}) × Machine State F
  answered operation (r, files) m = (map_err (io_error operation) r, record m { files = files })

  -- A call on the files, with `map_err(|error| StoreError::io(operation, error))`.
  abbrev pub call : Text → (State → Answer State) → Io (Machine State F) (Unit {0})
  call operation run m = answered operation (run m.files) m

  -- `self.meter.get_requests.fetch_add(1, Ordering::Relaxed)`.
  abbrev pub count_get : Io (Machine State F) (Unit {0})
  count_get m = (ok tt, record m { get_requests = suc m.get_requests })

  -- What follows a look at the cancellation.
  abbrev pub unless :
      {A : Type 0} → Bool → (State → State) → Io (Machine State F) A → Io (Machine State F) A
  unless true dropped operation m =
      (err cancelled_error, record m { point = suc m.point; files = dropped m.files })
  unless false dropped operation m = operation (record m { point = suc m.point })

  module _ (cancelled : ℕ → Bool) where
    -- `tokio::select!` between the cancellation and an operation, which when the cancellation wins
    -- is dropped with the effect given.
    unfoldable pub select :
        {A : Type 0} → (State → State) → Io (Machine State F) A → Io (Machine State F) A
    select dropped operation m = unless (cancelled m.point) dropped operation m

    -- `if cancellation.is_cancelled()`.
    abbrev pub check_cancelled : Io (Machine State F) (Unit {0})
    check_cancelled m = unless (cancelled m.point) (λ s. s) (pure tt) m

  -- `try_send`, as whether the channel has room.
  abbrev pub try_send : Bool → DownloadProgress F → Io (Machine State F) (Unit {0})
  try_send true progress m = (ok tt, record m { sent = progress ∷ m.sent })
  try_send false progress m = (ok tt, m)

  -- The sender of the progress is given as whether its channel has room for one more.
  abbrev pub send_progress :
      Option (List (DownloadProgress F) → Bool)
      → DownloadProgress F
      → Io (Machine State F) (Unit {0})
  send_progress none progress m = (ok tt, m)
  send_progress (some room) progress m = try_send (room m.sent) progress m
