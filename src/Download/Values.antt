-- ===== src/Download/Values.antt =====
-- crates/s3pulse-core/src/model.rs: `DownloadRequest`, `DownloadProgress` and `DownloadResult`. A
-- percentage is of the type F, whose operations are a parameter.
use s3_pulse.Base.{ℕ, zero, suc, Bool, true, false, Option, none, some}
use s3_pulse.Base.Text.{Text}
use s3_pulse.Base.Double.{Double, clamp}
use s3_pulse.Uri.{S3Uri}

pub record DownloadRequest (PathBuf : Type 0) : Type 0 where
  pub source : S3Uri
  pub destination : PathBuf
  pub overwrite : Bool

pub record DownloadProgress (F : Type 0) : Type 0 where
  pub bytes_transferred : ℕ
  pub total_bytes : Option ℕ
  pub percent : Option F
  pub done : Bool

pub record DownloadResult (PathBuf : Type 0) : Type 0 where
  pub source : S3Uri
  pub destination : PathBuf
  pub bytes_transferred : ℕ
  pub etag : Option Text

-- `DownloadRequest::new`.
abbrev pub request_for : {PathBuf : Type 0} → S3Uri → PathBuf → DownloadRequest PathBuf
request_for source destination = record {
  source = source;
  destination = destination;
  overwrite = false;
}

module _ {F : Type 0} (d : Double F) where
  unfoldable pub percent_of : ℕ → Option ℕ → Bool → Option F
  percent_of bytes_transferred none done = none
  percent_of bytes_transferred (some zero) true = some (d.of_nat 100)
  percent_of bytes_transferred (some zero) false = none
  percent_of bytes_transferred (some (suc n)) done =
      let ratio = d.over (d.of_nat bytes_transferred) (d.of_nat (suc n)) in
      some (clamp d (d.times ratio (d.of_nat 100)) (d.of_nat 0) (d.of_nat 100))

  -- `DownloadProgress::new`.
  abbrev pub progress_at : ℕ → Option ℕ → Bool → DownloadProgress F
  progress_at bytes_transferred total_bytes done = record {
    bytes_transferred = bytes_transferred;
    total_bytes = total_bytes;
    percent = percent_of bytes_transferred total_bytes done;
    done = done;
  }
