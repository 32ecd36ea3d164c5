-- ===== src/History.antt =====
-- crates/s3pulse-core/src/history.rs: `RollingHistory` and the operations that change or list it.
pub mod Ranking
pub mod Merge
pub mod Retention
pub mod Changes
pub mod Evictions
pub mod Repeat
pub mod InputOrder
mod Tests
use s3_pulse.Base.{
  ℕ, ◌==◌, if◌then◌else◌, Bool, true, false, not, ◌&&◌, Option, none, some, List, [], ◌∷◌, ◌++◌,
  map, Result, ok, fail_if, ◌>>=◌, ◌>>◌, is_some_and, Ordering, compare, keep, any, take, length,
}
use s3_pulse.Base.Order.{then_with}
use s3_pulse.Base.Text.{Text, text_order, same_text}
use s3_pulse.Base.Sort.{sort_by}
use s3_pulse.Base.Map.{Map, keys, values, insert}
use s3_pulse.Base.Map
use s3_pulse.Base.Map.Filter.{retain}
use s3_pulse.Model.{
  S3Object, added, updated, ObjectChange, HistoryUpdate, ConfigError, zero_expected_interval,
  zero_history_capacity, same_object,
}

pub record RollingHistory : Type 0 where
  pub capacity : ℕ
  pub expected_interval_seconds : Option ℕ
  pub by_key : Map Text S3Object

abbrev is_zero : Option ℕ → Bool
is_zero o = is_some_and o (λ n. n == 0)

unfoldable pub with_expected_interval : ℕ → Option ℕ → Result ConfigError RollingHistory
with_expected_interval capacity expected = do
  fail_if (capacity == 0) zero_history_capacity
  fail_if (is_zero expected) zero_expected_interval
  ok (record { capacity = capacity; expected_interval_seconds = expected; by_key = [] })

unfoldable pub new : ℕ → Result ConfigError RollingHistory
unfolding with_expected_interval
new capacity = with_expected_interval capacity none

unfoldable pub set_expected_interval_seconds :
    RollingHistory → Option ℕ → Result ConfigError RollingHistory
set_expected_interval_seconds h expected = do
  fail_if (is_zero expected) zero_expected_interval
  ok (record h { expected_interval_seconds = expected })

unfoldable pub len : RollingHistory → ℕ
len h = length h.by_key

unfoldable pub get : RollingHistory → Text → Option S3Object
get h key = Map.get text_order key h.by_key

unfoldable pub contains_key : RollingHistory → Text → Bool
unfolding get
contains_key h key = elim (get h key) [ none ↦ false | some _ ↦ true ]

abbrev pub newest_first : S3Object → S3Object → Ordering
newest_first left right =
    then_with (compare right.last_modified left.last_modified) (text_order.cmp left.key right.key)

abbrev pub oldest_first : S3Object → S3Object → Ordering
oldest_first left right =
    then_with (compare left.last_modified right.last_modified) (text_order.cmp left.key right.key)

-- Newest first, ties by key.
unfoldable pub objects : RollingHistory → List S3Object
objects h = sort_by newest_first (values h.by_key)

-- The loop that fills `incoming`: a later observation of a key replaces an earlier one.
unfoldable pub collect : Map Text S3Object → List S3Object → Map Text S3Object
collect incoming [] = incoming
collect incoming (object ∷ rest) = collect (insert text_order object.key object incoming) rest

-- The `match` on what the history holds under the key.
unfoldable pub change_for : Option S3Object → S3Object → List ObjectChange
change_for none object = record { kind = added; object = object; previous = none } ∷ []
change_for (some previous) object =
    if same_object previous object
    then []
    else record { kind = updated; object = object; previous = some previous } ∷ []

-- The loop over `incoming`.
unfoldable pub apply :
    Map Text S3Object
    → Map Text S3Object
    → List ObjectChange
    → Map Text S3Object × List ObjectChange
unfolding change_for
apply [] by_key changes = (by_key, changes)
apply ((key, object) ∷ rest) by_key changes =
    apply rest (insert text_order key object by_key)
      (changes ++ change_for (Map.get text_order key by_key) object)

-- `BTreeSet::contains`.
abbrev pub contains : List Text → Text → Bool
contains names key = any (same_text key) names

unfoldable pub retained_keys : ℕ → Map Text S3Object → List Text
retained_keys capacity by_key =
    map (λ object. object.key) (take capacity (sort_by newest_first (values by_key)))

abbrev pub newest_change_first : ObjectChange → ObjectChange → Ordering
newest_change_first left right = newest_first left.object right.object

unfoldable pub upsert_many : RollingHistory → List S3Object → RollingHistory × HistoryUpdate
upsert_many h listing =
    let old_keys = keys h.by_key in
    let (by_key, changes) = apply (collect [] listing) h.by_key [] in
    let retained = retained_keys h.capacity by_key in
    (
      record h { by_key = retain (contains retained) by_key },
      record {
        changes =
            sort_by newest_change_first
              (keep (λ change. contains retained change.object.key) changes);
        evicted = sort_by oldest_first (
            keep (λ object. not (contains retained object.key) && contains old_keys object.key)
              (values by_key));
      },
    )

unfoldable pub upsert : RollingHistory → S3Object → RollingHistory × HistoryUpdate
unfolding upsert_many
upsert h object = upsert_many h (object ∷ [])
