-- ===== src/Uri.antt =====
-- crates/s3pulse-core/src/uri.rs: `S3Uri`, its validation, its parser and its printer.
pub mod RoundTrip
mod Tests
use s3_pulse.Base.{
  ℕ, ltb, ◌==◌, if◌then◌else◌, Bool, ◌||◌, Option, none, some, [], ◌∷◌, ◌++◌, Result, ok, ◌>>=◌,
  ◌>>◌, fail_if, ok_or, any,
}
use s3_pulse.Base.Text.{
  Text, codes, same_text, is_empty, byte_len, is_control, is_whitespace, strip_prefix, split_once,
}

pub data UriParseError : Type 0 where
  invalid_scheme missing_bucket invalid_key : UriParseError
  invalid_bucket : Text → UriParseError

pub record S3Uri : Type 0 where
  pub bucket : Text
  pub prefix : Text

-- The characters that no bucket name may have.
abbrev pub is_unsafe : ℕ → Bool
is_unsafe c = is_whitespace c || is_control c || (c == b'/' || c == b'\\' || c == b'?' || c == b'#')

abbrev pub bad_bucket : Text → Bool
bad_bucket bucket =
    ltb 255 (byte_len bucket)
    || same_text bucket (codes ".")
    || same_text bucket (codes "..")
    || any is_unsafe bucket

unfoldable pub validate : S3Uri → Result UriParseError (Unit {0})
validate u = do
  fail_if (is_empty u.bucket) missing_bucket
  fail_if (bad_bucket u.bucket) (invalid_bucket u.bucket)
  fail_if (any is_control u.prefix) invalid_key
  ok tt

unfoldable pub new : Text → Text → Result UriParseError S3Uri
unfolding validate
new bucket prefix =
    let value : S3Uri = record { bucket = bucket; prefix = prefix } in validate value >> ok value

unfoldable pub is_bucket_root : S3Uri → Bool
is_bucket_root u = is_empty u.prefix

unfoldable pub object_key : S3Uri → Option Text
object_key u = if is_empty u.prefix then none else some u.prefix

unfoldable pub for_object : S3Uri → Text → Result UriParseError S3Uri
unfolding new
for_object u key = new u.bucket key

-- `split_once('/').map_or((remainder, ""), …)`.
abbrev pub split_remainder : Text → Text × Text
split_remainder remainder = elim (split_once b'/' remainder) [
  | none ↦ (remainder, [])
  | some parts ↦ parts
]

abbrev pub scheme : Text
scheme = codes "s3://"

unfoldable pub parse : Text → Result UriParseError S3Uri
unfolding new
parse value = do
  remainder ← ok_or (strip_prefix scheme value) invalid_scheme
  new (split_remainder remainder).0 (split_remainder remainder).1

unfoldable pub display : S3Uri → Text
display u = scheme ++ (u.bucket ++ (if is_empty u.prefix then [] else b'/' ∷ u.prefix))
