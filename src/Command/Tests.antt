-- ===== src/Command/Tests.antt =====
-- Names of files and keys on a terminal.
use s3_pulse.Base.{◌≡◌, refl, ok, err, []}
use s3_pulse.Base.Text.{codes}
use s3_pulse.Uri.{S3Uri}
use s3_pulse.Command.{
  default_destination, requires_object_uri, unsafe_name, terminal_text, last_segment,
  trim_end_slashes, is_portable_file_name, is_device,
}
use s3_pulse.Command.Names.{IsSafe, IsSegment, default_destination-IsSafe}

abbrev parquet : S3Uri
parquet = record { bucket = codes "bucket"; prefix = codes "feed/file.parquet" }

parquet_name : default_destination parquet ≡ ok (codes "file.parquet")
unfolding default_destination last_segment trim_end_slashes is_portable_file_name is_device
parquet_name = refl

no_object :
    default_destination (record { bucket = codes "bucket"; prefix = [] }) ≡ err requires_object_uri
unfolding default_destination last_segment trim_end_slashes
no_object = refl

console :
    default_destination (record { bucket = codes "bucket"; prefix = codes "feed/con.txt" })
    ≡ err unsafe_name
unfolding default_destination last_segment trim_end_slashes is_portable_file_name is_device
console = refl

port :
    default_destination (record { bucket = codes "bucket"; prefix = codes "feed/LPT7/" })
    ≡ err unsafe_name
unfolding default_destination last_segment trim_end_slashes is_portable_file_name is_device
port = refl

trailing :
    default_destination (record { bucket = codes "bucket"; prefix = codes "feed/trailing." })
    ≡ err unsafe_name
unfolding default_destination last_segment trim_end_slashes is_portable_file_name is_device
trailing = refl

default_destination-IsSafe_example :
    IsSafe (codes "file.parquet") × IsSegment parquet.prefix (codes "file.parquet")
default_destination-IsSafe_example =
    default_destination-IsSafe parquet (codes "file.parquet") parquet_name

escaped : terminal_text (codes "ok\n\u{1b}[31m") ≡ codes "ok\\n\\u{1b}[31m"
unfolding terminal_text
escaped = refl
