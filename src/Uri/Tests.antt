-- ===== src/Uri/Tests.antt =====
-- The inputs of the unit tests of uri.rs, and the theorems at concrete URIs.
use s3_pulse.Base.{◌≡◌, refl, ◌⊎◌, [], ◌∷◌, ◌++◌, ok, err}
use s3_pulse.Base.Text.{codes}
use s3_pulse.Uri.{
  S3Uri, parse, display, invalid_scheme, missing_bucket, invalid_bucket, invalid_key,
}
use s3_pulse.Uri.RoundTrip.{IsValid, parse-display, parse_sound}

abbrev feed : S3Uri
feed = record { bucket = codes "example-bucket"; prefix = codes "a folder/%20/data.parquet" }

abbrev root : S3Uri
root = record { bucket = codes "bucket"; prefix = [] }

parses : parse (codes "s3://example-bucket/a folder/%20/data.parquet") ≡ ok feed
unfolding parse
parses = refl

parses_root : parse (codes "s3://bucket/") ≡ ok root
unfolding parse
parses_root = refl

wrong_scheme : parse (codes "https://bucket/key") ≡ err invalid_scheme
unfolding parse
wrong_scheme = refl

no_bucket : parse (codes "s3:///key") ≡ err missing_bucket
unfolding parse
no_bucket = refl

bad_bucket_name : parse (codes "s3://bad bucket/key") ≡ err (invalid_bucket (codes "bad bucket"))
unfolding parse
bad_bucket_name = refl

control_key : parse (codes "s3://bucket/key\n") ≡ err invalid_key
unfolding parse
control_key = refl

feed-IsValid : IsValid feed
feed-IsValid = record { named = refl; safe = refl; printable = refl }

parse-display_example : parse (display feed) ≡ ok feed
parse-display_example = parse-display feed feed-IsValid

parse_sound_example :
    IsValid root
    × ((codes "s3://bucket/" ≡ display root)
        ⊎ ((root.prefix ≡ []) × (codes "s3://bucket/" ≡ display root ++ b'/' ∷ [])))
parse_sound_example = parse_sound (codes "s3://bucket/") root parses_root
