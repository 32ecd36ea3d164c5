-- ===== src/Store.antt =====
-- crates/s3pulse-core/src/store.rs: the listing half of `AwsS3Store`. The SDK client is a parameter
-- that answers each request; its `DateTime` and its conversion by chrono are parameters too.
pub mod Newest
pub mod Sorted
pub mod Pages
mod Tests
use s3_pulse.Base.{
  ℕ, zero, suc, ◌+◌, ltb, ◌==◌, if◌then◌else◌, Bool, true, false, Option, none, some, List, [], ◌∷◌,
  ◌++◌, Result, ok, err, ◌>>=◌, ok_or, unwrap_or, length,
}
use s3_pulse.Base.Int.{ℤ, pos, negsuc}
use s3_pulse.Base.Order.{Order, pair_order, reverse_order, nat_order}
use s3_pulse.Base.Text.{Text, codes, text_order}
use s3_pulse.Base.Sort.{sort_by}
use s3_pulse.Base.Map.{Map, insert, values}
use s3_pulse.Model.{Instant, S3Object}
use s3_pulse.Error.{StoreError, invalid_response, other}
use s3_pulse.Error
use s3_pulse.History.{newest_first}

-- `(DateTime<Utc>, Reverse<String>)`.
abbrev pub Rank : Type 0
Rank = Instant × Text

abbrev pub rank_order : Order Rank
rank_order = pair_order nat_order (reverse_order text_order)

abbrev pub RankedObjects : Type 0
RankedObjects = Map Rank S3Object

-- `BTreeMap::pop_first`, as the map that it leaves.
abbrev pub pop_first : RankedObjects → RankedObjects
pop_first [] = []
pop_first (e ∷ m) = m

unfoldable pub retain_newest : RankedObjects → S3Object → ℕ → RankedObjects
retain_newest newest object max_objects =
    let grown = insert rank_order (object.last_modified, object.key) object newest in
    if ltb max_objects (length grown) then pop_first grown else grown

unfoldable pub finish_newest : RankedObjects → List S3Object
finish_newest newest = sort_by newest_first (values newest)

-- `aws_sdk_s3::types::Object`, with the SDK's time left abstract.
pub record Entry (T : Type 0) : Type 0 where
  pub key : Option Text
  pub last_modified : Option T
  pub size : Option ℤ
  pub e_tag : Option Text
  pub storage_class : Option Text

-- The output of a ListObjectsV2 request.
pub record Page (T : Type 0) : Type 0 where
  pub contents : List (Entry T)
  pub is_truncated : Option Bool
  pub next_continuation_token : Option Text

unfoldable pub size_of : ℤ → Text → Result StoreError ℕ
size_of (pos n) key = ok n
size_of (negsuc n) key =
    err (
      Error.new invalid_response (codes "ListObjectsV2 returned a negative size for " ++ key) false)

-- `timestamp` stands for `Utc.timestamp_opt(secs, nanos).single()`.
module _ {T : Type 0} (timestamp : T → Option Instant) where
  unfoldable pub read_entry : Entry T → Result StoreError S3Object
  unfolding size_of
  read_entry entry = do
    key ←
        ok_or entry.key
          (Error.new invalid_response (codes "ListObjectsV2 returned an object without a key") true)
    modified ← ok_or entry.last_modified (
        Error.new invalid_response
          (codes "ListObjectsV2 returned " ++ (key ++ codes " without LastModified")) true)
    last_modified ←
        ok_or (timestamp modified)
          (Error.new invalid_response (codes "invalid LastModified for " ++ key) false)
    size ← size_of (unwrap_or entry.size (pos 0)) key
    ok (record {
      key = key;
      last_modified = last_modified;
      size = size;
      etag = entry.e_tag;
      storage_class = entry.storage_class;
    })

  -- The loop over `output.contents()`.
  unfoldable pub read_page : List (Entry T) → RankedObjects → ℕ → Result StoreError RankedObjects
  unfolding read_entry retain_newest
  read_page [] newest max_objects = ok newest
  read_page (entry ∷ rest) newest max_objects = do
    object ← read_entry entry
    read_page rest (retain_newest newest object max_objects) max_objects

  -- `client` answers the request with the given number, for a continuation token; the number is the
  -- meter of LIST requests, which goes up before each dispatch. Without fuel there is no answer.
  module _ (client : ℕ → Option Text → Result StoreError (Page T)) (max_objects : ℕ) where
    unfoldable pub list_pages :
        ℕ → RankedObjects → Option Text → ℕ → Option (Result StoreError (List S3Object) × ℕ)
    unfolding read_page finish_newest
    list_pages zero newest token list_requests = none
    list_pages (suc fuel) newest token list_requests = elim (client list_requests token) [
      | err e ↦ some (err e, suc list_requests)
      | ok page ↦ elim (read_page page.contents newest max_objects) [
        | err e ↦ some (err e, suc list_requests)
        | ok newest' ↦ elim (unwrap_or page.is_truncated false) [
          | false ↦ some (ok (finish_newest newest'), suc list_requests)
          | true ↦ elim page.next_continuation_token [
            | none ↦ some (
              err (
                  Error.new invalid_response
                    (codes "ListObjectsV2 was truncated but returned no continuation token") true),
              suc list_requests,
            )
            | some next ↦ list_pages fuel newest' (some next) (suc list_requests)
          ]
        ]
      ]
    ]

    unfoldable pub list_objects : ℕ → ℕ → Option (Result StoreError (List S3Object) × ℕ)
    unfolding list_pages
    list_objects fuel list_requests =
        if max_objects == 0
        then some (
          err (Error.new other (codes "object listing limit must be greater than zero") false),
          list_requests,
        )
        else list_pages fuel [] none list_requests
