-- ===== src/Model.antt =====
-- crates/s3pulse-core/src/model.rs: the values that the components exchange, and the error types of
-- crates/s3pulse-core/src/error.rs that they return.
pub mod Update
use native.Mathlib.Decide.{ℕ_discrete}
use s3_pulse.Base.{ℕ, ◌≡◌, Bool, true, false, Option, List, arith}
use s3_pulse.Base.Text.{Text}

-- A `DateTime<Utc>`, as the nanoseconds since the earliest instant that the type holds.
abbrev pub Instant : Type 0
Instant = ℕ

pub record S3Object : Type 0 where
  pub key : Text
  pub last_modified : Instant
  pub size : ℕ
  pub etag : Option Text
  pub storage_class : Option Text

pub data ObjectChangeKind : Type 0 where
  added updated : ObjectChangeKind

pub record ObjectChange : Type 0 where
  pub kind : ObjectChangeKind
  pub object : S3Object
  pub previous : Option S3Object

pub record HistoryUpdate : Type 0 where
  pub changes : List ObjectChange
  pub evicted : List S3Object

pub data ConfigError : Type 0 where
  empty_id empty_name zero_poll_interval zero_expected_interval zero_history_capacity : ConfigError

pub S3Object-discrete : Discrete S3Object
S3Object-discrete = hlevel ℕ_discrete

-- The derived `PartialEq`.
unfoldable pub same_object : S3Object → S3Object → Bool
unfolding S3Object-discrete ℕ_discrete
same_object a b = elim (S3Object-discrete a b) [ yes _ ↦ true | no _ ↦ false ]

pub same_object→eq : (a b : S3Object) → same_object a b ≡ true → a ≡ b
unfolding same_object
same_object→eq a b h = ground arith

pub same_object_refl : (a : S3Object) → same_object a a ≡ true
unfolding same_object
same_object_refl a = ground arith
