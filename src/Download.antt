-- ===== src/Download.antt =====
-- crates/s3pulse-core/src/store.rs: the download of `AwsS3Store`. The SDK client, the file system
-- and the random part of a temporary name are parameters; `cancelled` says at which of the places
-- that look at it the cancellation has come.
pub mod Files
pub mod Values
pub mod Monad
pub mod Frame
pub mod Steps
pub mod Copying
pub mod Stream
pub mod Install
pub mod Outcome
pub mod Safe
pub mod Memory
mod Tests
use s3_pulse.Base.{
  ℕ, ◌+◌, min, ◌==◌, Bool, true, false, Option, none, some, List, [], ◌∷◌, ◌++◌, if◌then◌else◌,
  Result, ok, err, unwrap_or, map_err, length,
}
use s3_pulse.Base.Int.{ℤ, pos, negsuc}
use s3_pulse.Base.Text.{Text, codes, is_empty}
use s3_pulse.Base.Digits.{decimal}
use s3_pulse.Base.Double.{Double}
use s3_pulse.Error.{StoreError, StoreErrorKind, aws}
use s3_pulse.Error
use s3_pulse.Error.Io.{IoError, IoErrorKind, io_error}
use s3_pulse.Download.Files.{Bytes, Paths, FileSystem, Answer}
use s3_pulse.Download.Values.{DownloadRequest, DownloadProgress, DownloadResult, progress_at}
use s3_pulse.Download.Monad.{
  Machine, Io, pure, throw, lift, ◌>>=◌, ◌>>◌, call, count_get, check_cancelled, select,
  send_progress,
}

-- An `SdkError`: the metadata of the service, its Display text and those of its sources.
pub record SdkError : Type 0 where
  pub code : Option Text
  pub message : Option Text
  pub display : Text
  pub sources : List Text

-- The output of a GetObject request, with what each read of its body gives; a read of no bytes is
-- the end.
pub record GetOutput : Type 0 where
  pub content_length : Option ℤ
  pub e_tag : Option Text
  pub body : List (Result IoError Bytes)

abbrev pub u64_max : ℕ
u64_max = 18446744073709551615

-- `u64::saturating_add`.
abbrev pub saturating_add : ℕ → ℕ → ℕ
saturating_add a b = min (a + b) u64_max

-- `content_length().filter(|value| *value >= 0)`.
unfoldable pub declared : Option ℤ → Option ℕ
declared none = none
declared (some (pos n)) = some n
declared (some (negsuc n)) = none

unfoldable pub check_length : Option ℕ → ℕ → Result StoreError (Unit {0})
check_length none bytes = ok tt
check_length (some expected) bytes =
    if bytes == expected
    then ok tt
    else err (
        Error.new StoreErrorKind.invalid_response
          (codes "GetObject returned "
            ++ (decimal bytes ++ (codes " bytes but declared " ++ decimal expected)))
          true)

abbrev pub temporary_name : Option Text → Text → Text
temporary_name name uuid =
    codes "."
    ++ (unwrap_or name (codes "download") ++ (codes ".s3pulse-" ++ (uuid ++ codes ".part")))

unfoldable pub temporary_path : {PathBuf : Type 0} → Paths PathBuf → Text → PathBuf → PathBuf
temporary_path paths uuid destination =
    paths.with_file_name destination (temporary_name (paths.file_name destination) uuid)

-- The three arms of `path_exists`.
unfoldable pub existence : Result IoError (Unit {0}) → Result StoreError Bool
existence (ok u) = ok true
existence (err e) = elim e.kind [
  | IoErrorKind.not_found ↦ ok false
  | IoErrorKind.already_exists ↦ err (io_error (codes "inspect download destination") e)
  | IoErrorKind.permission_denied ↦ err (io_error (codes "inspect download destination") e)
  | IoErrorKind.other ↦ err (io_error (codes "inspect download destination") e)
]

abbrev pub Run : {PathBuf : Type 0} → FileSystem PathBuf → Type 0 → Type 0
Run fs F = Machine fs.State F

module _ {F PathBuf : Type 0} (fs : FileSystem PathBuf) where
  unfoldable pub path_exists : PathBuf → Io (Run fs F) Bool
  unfolding existence
  path_exists path m = (existence (fs.metadata m.files path), m)

  abbrev pub refuse_existing : Text → Bool → Io (Run fs F) (Unit {0})
  refuse_existing shown true = throw (
      Error.new StoreErrorKind.already_exists (codes "destination already exists: " ++ shown) false)
  refuse_existing shown false = pure tt

  -- The test before the transfer.
  abbrev pub check_destination : Paths PathBuf → Bool → PathBuf → Io (Run fs F) (Unit {0})
  check_destination paths true destination = pure tt
  check_destination paths false destination =
      path_exists destination >>= refuse_existing (paths.display destination)

  unfoldable pub install_without_overwrite : PathBuf → PathBuf → Io (Run fs F) (Unit {0})
  install_without_overwrite temporary destination = do
    call (codes "install completed download") (fs.hard_link temporary destination)
    call (codes "remove temporary download") (fs.remove_file temporary)

  -- The guard of the second arm of `replace_file`.
  unfoldable pub is_replaceable : IoErrorKind → PathBuf → Io (Run fs F) Bool
  unfolding path_exists
  is_replaceable IoErrorKind.not_found destination = pure false
  is_replaceable IoErrorKind.already_exists destination = path_exists destination
  is_replaceable IoErrorKind.permission_denied destination = path_exists destination
  is_replaceable IoErrorKind.other destination = pure false

  -- The second and the third arm.
  abbrev pub fall_back : PathBuf → PathBuf → IoError → Bool → Io (Run fs F) (Unit {0})
  fall_back temporary destination e true = do
    call (codes "replace existing download") (fs.remove_file destination)
    call (codes "install completed download") (fs.rename temporary destination)
  fall_back temporary destination e false = throw (io_error (codes "install completed download") e)

  -- What follows the first rename, in the state that it leaves.
  abbrev pub renamed : PathBuf → PathBuf → Answer fs.State → Io (Run fs F) (Unit {0})
  renamed temporary destination (ok u, files) m = (ok tt, record m { files = files })
  renamed temporary destination (err e, files) m =
      (is_replaceable e.kind destination >>= fall_back temporary destination e)
        (record m { files = files })

  unfoldable pub replace_file : PathBuf → PathBuf → Io (Run fs F) (Unit {0})
  unfolding is_replaceable
  replace_file temporary destination m =
      renamed temporary destination (fs.rename temporary destination m.files) m

  abbrev pub install : Bool → PathBuf → PathBuf → Io (Run fs F) (Unit {0})
  install true temporary destination = replace_file temporary destination
  install false temporary destination = install_without_overwrite temporary destination

  abbrev pub dropped :
      {A : Type 0} → PathBuf → Result StoreError A × Run fs F → Result StoreError A × Run fs F
  dropped path (r, m) = (r, record m { files = (fs.remove_file path m.files).1 })

  -- `Drop for TemporaryDownload`, at the end of the scope that holds the guard.
  unfoldable pub with_temporary : {A : Type 0} → PathBuf → Io (Run fs F) A → Io (Run fs F) A
  with_temporary path run m = dropped path (run m)

  module _ (d : Double F) (progress : Option (List (DownloadProgress F) → Bool))
      (cancelled : ℕ → Bool) where
    -- The loop over the reads of the body.
    unfoldable pub copy : PathBuf → Option ℕ → List (Result IoError Bytes) → ℕ → Io (Run fs F) ℕ
    unfolding select
    copy temporary total_bytes [] bytes_transferred = do
      select cancelled (fs.abandon temporary) (pure tt)
      pure bytes_transferred
    copy temporary total_bytes (answer ∷ rest) bytes_transferred = do
      chunk ←
          select cancelled (fs.abandon temporary)
            (lift (map_err (io_error (codes "read S3 response")) answer))
      elim chunk [
        | [] ↦ pure bytes_transferred
        | b ∷ bs ↦ do
          select cancelled (fs.abandon temporary)
              (call (codes "write download") (fs.write_all temporary (b ∷ bs)))
          let bytes = saturating_add bytes_transferred (length (b ∷ bs)) in
              do
                send_progress progress (progress_at d bytes total_bytes false)
                copy temporary total_bytes rest bytes
      ]

    -- The end of the stream: the file is flushed and the length checked.
    unfoldable pub close_file : GetOutput → PathBuf → ℕ → Io (Run fs F) (ℕ × Option Text)
    unfolding select
    close_file output temporary bytes_transferred = do
      select cancelled (fs.abandon temporary) (call (codes "flush download") (fs.flush temporary))
      select cancelled (fs.abandon temporary) (call (codes "sync download") (fs.sync_all temporary))
      lift (check_length (declared output.content_length) bytes_transferred)
      pure (bytes_transferred, output.e_tag)

    -- From the response on.
    unfoldable pub store_response : GetOutput → PathBuf → Io (Run fs F) (ℕ × Option Text)
    unfolding select copy close_file
    store_response output temporary = do
      select cancelled (fs.abandon temporary)
          (call (codes "create temporary download") (fs.create_new temporary))
      bytes_transferred ← copy temporary (declared output.content_length) output.body 0
      close_file output temporary bytes_transferred

    module _ (client : ℕ → Text → Text → Result SdkError GetOutput) where
      -- The request that the meter has counted last.
      unfoldable pub send : DownloadRequest PathBuf → Io (Run fs F) GetOutput
      send request m = (
        map_err (λ e. aws (codes "GetObject") e.code e.message e.display e.sources)
            (client m.get_requests request.source.bucket request.source.prefix),
        m,
      )

      unfoldable pub stream_download :
          DownloadRequest PathBuf → PathBuf → Io (Run fs F) (ℕ × Option Text)
      unfolding select send store_response
      stream_download request temporary = do
        check_cancelled cancelled
        count_get
        output ← select cancelled (λ s. s) (send request)
        store_response output temporary

      -- What the guard of the temporary file spans.
      unfoldable pub transfer :
          DownloadRequest PathBuf → PathBuf → Io (Run fs F) (DownloadResult PathBuf)
      unfolding stream_download replace_file install_without_overwrite
      transfer request temporary = do
        streamed ← stream_download request temporary
        install request.overwrite temporary request.destination
        send_progress progress (progress_at d (streamed.0) (some (streamed.0)) true)
        pure (record {
          source = request.source;
          destination = request.destination;
          bytes_transferred = streamed.0;
          etag = streamed.1;
        })

      unfoldable pub download_object :
          Paths PathBuf → Text → DownloadRequest PathBuf → Io (Run fs F) (DownloadResult PathBuf)
      unfolding path_exists transfer with_temporary temporary_path
      download_object paths uuid request =
          let temporary = temporary_path paths uuid request.destination in
          if is_empty request.source.prefix
          then throw (
              Error.new StoreErrorKind.not_found (codes "download requires a full S3 object URI")
                false)
          else check_destination paths request.overwrite request.destination
            >> with_temporary temporary (transfer request temporary)
