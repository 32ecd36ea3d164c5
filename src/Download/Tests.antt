-- ===== src/Download/Tests.antt =====
-- Downloads of two reads into a directory in memory.
use s3_pulse.Base.{
  ℕ, ◌≡◌, refl, ltb, ◌+◌, ◌*◌, ◌/◌, ◌-◌, Bool, true, false, Option, none, some, List, [], ◌∷◌,
  Result, ok, err,
}
use s3_pulse.Base.Int.{pos}
use s3_pulse.Base.Text.{Text, codes}
use s3_pulse.Base.Double.{Double}
use s3_pulse.Error.{StoreError, cancelled_error}
use s3_pulse.Download.{
  SdkError, GetOutput, Run, temporary_path, download_object, check_length, declared,
}
use s3_pulse.Download.Values.{DownloadRequest, DownloadProgress, DownloadResult, percent_of}
use s3_pulse.Download.Monad.{Machine}
use s3_pulse.Download.Outcome.{Completed}
use s3_pulse.Download.Safe.{download_object-Completed}
use s3_pulse.Download.Memory.{memory, memory-IsLawful, names, names-IsNaming}

abbrev whole_numbers : Double ℕ
whole_numbers = record {
  of_nat = λ n. n;
  plus = ◌+◌;
  minus = ◌-◌;
  times = ◌*◌;
  over = ◌/◌;
  less = ltb;
}

abbrev answer : GetOutput
answer = record {
  content_length = some (pos 3);
  e_tag = none;
  body = ok (1 ∷ 2 ∷ []) ∷ ok (3 ∷ []) ∷ [];
}

abbrev client : ℕ → Text → Text → Result SdkError GetOutput
client number bucket key = ok answer

abbrev file : Text
file = codes "a.csv"

abbrev uuid : Text
uuid = codes "0f-3c"

abbrev request : DownloadRequest Text
request = record {
  source = record { bucket = codes "data"; prefix = codes "in/a.csv" };
  destination = file;
  overwrite = false;
}

abbrev roomy : Option (List (DownloadProgress ℕ) → Bool)
roomy = some (λ sent. true)

abbrev start : Run memory ℕ
start = record { files = λ p. none; point = 0; get_requests = 0; sent = [] }

abbrev never : ℕ → Bool
never n = false

abbrev at_fifth : ℕ → Bool
at_fifth n = ltb 4 n

abbrev done : Result StoreError (DownloadResult Text) × Run memory ℕ
done = download_object memory whole_numbers roomy never client names uuid request start

download_file : Machine.files (done.1) file ≡ some (1 ∷ 2 ∷ 3 ∷ [])
unfolding download_object check_length declared
download_file = refl

download_messages : Machine.sent (done.1) ≡ (
    record { bytes_transferred = 3; total_bytes = some 3; percent = some 100; done = true }
    ∷ record { bytes_transferred = 3; total_bytes = some 3; percent = some 100; done = false }
    ∷ record { bytes_transferred = 2; total_bytes = some 3; percent = some 0; done = false }
    ∷ [])
unfolding download_object check_length declared percent_of
download_messages = refl

abbrev stopped : Result StoreError (DownloadResult Text) × Run memory ℕ
stopped = download_object memory whole_numbers roomy at_fifth client names uuid request start

download_cancelled : stopped.0 ≡ err cancelled_error
unfolding download_object
download_cancelled = refl

download_object-Completed_example :
    Completed memory memory-IsLawful whole_numbers roomy never client request
      (temporary_path names uuid file)
      1
      start.files
      (download_object memory whole_numbers roomy never client names uuid request start)
download_object-Completed_example =
    download_object-Completed memory memory-IsLawful whole_numbers roomy never client request names
      names-IsNaming uuid refl start
