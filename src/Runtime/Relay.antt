-- ===== src/Runtime/Relay.antt =====
-- crates/s3pulse-cli/src/rpc/runtime.rs: `object_download`, which relays the progress of a download
-- to the client. What the store does is a parameter: for a request, the samples that `select!` picks
-- before the download ends, those that are still queued then, and its result.
use s3_pulse.Base.{ℕ, Bool, false, List, [], ◌∷◌, ◌++◌, Result, ok, err, unwrap_or, if◌then◌else◌}
use s3_pulse.Base.Text.{Text, codes}
use s3_pulse.Error.{StoreError}
use s3_pulse.Uri.{for_object}
use s3_pulse.Download.Values.{DownloadRequest, DownloadProgress, DownloadResult}
use s3_pulse.Transport.Serve.{ErrorObject}
use s3_pulse.Service.Errors.{invalid_params, store_failure}
use s3_pulse.Service.Params.{ObjectDownloadParams, Downloaded}
use s3_pulse.Runtime.{Watchers, lookup, found, key_within_target, uri_error_text}

-- The messages `download.progress`, with the watcher, the download and the key.
pub data Told (F : Type 0) : Type 0 where
  progressed : Text → Text → Text → DownloadProgress F → Told F
  succeeded : Text → Text → Text → ℕ → Told F
  failed : Text → Text → Text → ℕ → StoreError → Told F

pub record Transfer (F PathBuf : Type 0) : Type 0 where
  pub relayed : List (DownloadProgress F)
  pub queued : List (DownloadProgress F)
  pub result : Result StoreError (DownloadResult PathBuf)

-- The answer, the requests that the store was given, and the messages to the client.
pub record Relayed (V F PathBuf : Type 0) : Type 0 where
  pub reply : Result (ErrorObject V) (Downloaded PathBuf)
  pub requests : List (DownloadRequest PathBuf)
  pub told : List (Told F)

abbrev pub augment_progress : {F : Type 0} → DownloadProgress F → Text → Text → Text → Bool → Told F
augment_progress progress watcher_id download_id key done =
    progressed watcher_id download_id key (record progress { done = done })

-- `bytes_seen`, which each sample overwrites.
abbrev pub bytes_seen : {F : Type 0} → ℕ → List (DownloadProgress F) → ℕ
bytes_seen seen [] = seen
bytes_seen seen (progress ∷ rest) = bytes_seen progress.bytes_transferred rest

abbrev pub outside : Text → Text → Text
outside key target_display =
    codes "key \"" ++ key ++ codes "\" is outside the watcher's target " ++ target_display

-- The messages of the samples that are relayed.
abbrev pub told_of :
    {F PathBuf : Type 0}
    → ObjectDownloadParams PathBuf
    → Text
    → List (DownloadProgress F)
    → List (Told F)
told_of params download_id [] = []
told_of params download_id (progress ∷ rest) =
    augment_progress progress params.watcher_id download_id params.key false
    ∷ told_of params download_id rest

module _ {V F PathBuf : Type 0} (detail : Text → V) (json : StoreError → V) where
  abbrev pub refused : ErrorObject V → Relayed V F PathBuf
  refused error = record { reply = err error; requests = []; told = [] }

  -- What follows the loop and the drain, with the messages so far and the bytes seen.
  abbrev pub finish :
      ObjectDownloadParams PathBuf
      → Text
      → DownloadRequest PathBuf
      → List (Told F)
      → ℕ
      → Result StoreError (DownloadResult PathBuf)
      → Relayed V F PathBuf
  finish params download_id request told seen (err error) = record {
    reply = err (store_failure json error);
    requests = request ∷ [];
    told = told ++ failed params.watcher_id download_id params.key seen error ∷ [];
  }
  finish params download_id request told seen (ok result) = record {
    reply = ok (record {
      watcher_id = params.watcher_id;
      download_id = download_id;
      destination = params.destination;
      bytes = result.bytes_transferred;
    });
    requests = request ∷ [];
    told = told ++ succeeded params.watcher_id download_id params.key result.bytes_transferred ∷ [];
  }

  unfoldable pub relay :
      ObjectDownloadParams PathBuf
      → Text
      → DownloadRequest PathBuf
      → Transfer F PathBuf
      → Relayed V F PathBuf
  relay params download_id request transfer =
      finish params download_id request (told_of params download_id transfer.relayed)
        (bytes_seen 0 (transfer.relayed ++ transfer.queued)) transfer.result

  -- `uuid` is the identifier that is drawn where the client gives none.
  unfoldable pub object_download :
      {St : Type 0}
      → Text
      → (DownloadRequest PathBuf → Transfer F PathBuf)
      → ObjectDownloadParams PathBuf
      → Watchers St
      → Relayed V F PathBuf
  unfolding lookup
  object_download uuid download params watchers =
      elim (found {V = V} params.watcher_id (lookup params.watcher_id watchers)) [
        | err error ↦ refused error
        | ok session ↦
            if key_within_target session.target session.template params.key
            then elim (for_object session.target params.key) [
              | err error ↦ refused (invalid_params detail (uri_error_text error))
              | ok source ↦
                  let request : DownloadRequest PathBuf = record {
                    source = source;
                    destination = params.destination;
                    overwrite = params.overwrite;
                  } in
                  relay params (unwrap_or params.download_id uuid) request (download request)
            ]
            else refused (invalid_params detail (outside params.key session.target_display))
      ]
