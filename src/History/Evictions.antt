-- ===== src/History/Evictions.antt =====
-- The evictions that an update reports.
use s3_pulse.Base.{
  ◌≡◌, ◌↔◌, refl, sym, ◌∙◌, subst, none, some, List, [], ◌∷◌, arith, In, keep, Bool, true, false,
  not, ◌&&◌, In-keep, keep-In,
}
use s3_pulse.Base.Text.{Text, text_order, same_text→eq, same_text_refl}
use s3_pulse.Base.Sort.{sort_by, In-sort_by, sort_by-In}
use s3_pulse.Base.Map.{get, IsOrdered, values, keys, Above-mono, get-Above}
use s3_pulse.Base.Map.Filter.{get-In, In-get, In-values, values-In}
use s3_pulse.Model.{S3Object}
use s3_pulse.History.{
  RollingHistory, collect, apply, change_for, newest_first, oldest_first, retained_keys, contains,
  upsert_many, newest_change_first,
}
use s3_pulse.History
use s3_pulse.History.Merge.{Objects}
use s3_pulse.History.Retention.{IsValid, merged, merged-IsOrdered, merged-IsKeyed, keyed-In}
use s3_pulse.History.Changes.{retained, retained-contains_key}

abbrev leaves : RollingHistory → List S3Object → S3Object → Bool
leaves h xs x = not (retained h xs x.key) && contains (keys h.by_key) x.key

evicted_lem :
    (h : RollingHistory) (xs : List S3Object)
    → (upsert_many h xs).1.evicted
      ≡ sort_by oldest_first (keep (leaves h xs) (values (merged h xs)))
unfolding upsert_many
evicted_lem h xs = refl

contains-keys :
    (k : Text) (m : Objects)
    → IsOrdered text_order m
    → contains (keys m) k ≡ elim (get text_order k m) [ none ↦ false | some _ ↦ true ]
unfolding get
contains-keys k [] h = refl
contains-keys k ((j, x) ∷ m) (a, h) = ground (
  arith,
  contains-keys k m h,
  same_text→eq k j,
  same_text_refl k,
  text_order.cmp_refl k,
  text_order.cmp_eq k j,
  Above-mono text_order k j m,
  get-Above text_order k m,
)

contains-old_keys :
    (h : RollingHistory) (k : Text)
    → IsValid h
    → contains (keys h.by_key) k ≡ History.contains_key h k
unfolding History.contains_key History.get
contains-old_keys h k v = contains-keys k h.by_key v.ordered ∙ ground arith

-- An update of a well-formed history reports an object as evicted exactly if the history held its key,
-- the merged objects have this object under it, and the new history no longer has the key.
pub In-evicted_iff :
    (h : RollingHistory) (xs : List S3Object) (x : S3Object)
    → IsValid h
    → In x (upsert_many h xs).1.evicted ↔ (
        (get text_order x.key (merged h xs) ≡ some x)
        × (History.contains_key h x.key ≡ true)
        × (History.contains_key (upsert_many h xs).0 x.key ≡ false))
In-evicted_iff h xs x v = (sound, complete)
  where
    m : Objects
    m = merged h xs

    sound :
        In x (upsert_many h xs).1.evicted
        → (get text_order x.key m ≡ some x)
          × (History.contains_key h x.key ≡ true)
          × (History.contains_key (upsert_many h xs).0 x.key ≡ false)
    sound n =
        let (p, t) =
          In-keep (leaves h xs) x (values m)
            (In-sort_by oldest_first x _ (subst (In x) (evicted_lem h xs) n)) in
        let (k, e) = values-In x m p in
        let found : get text_order x.key m ≡ some x =
          subst (λ i. get text_order i m ≡ some x) (keyed-In k x m (merged-IsKeyed h xs v) e)
            (get-In text_order k x m (merged-IsOrdered h xs v) e) in
        (
          found,
          ground (arith, contains-old_keys h x.key v),
          ground (arith, retained-contains_key h xs x.key x v found),
        )

    complete :
        (get text_order x.key m ≡ some x)
          × (History.contains_key h x.key ≡ true)
          × (History.contains_key (upsert_many h xs).0 x.key ≡ false)
        → In x (upsert_many h xs).1.evicted
    complete (found, old, gone) = subst (In x) (sym (evicted_lem h xs)) (
        sort_by-In oldest_first x _ (
          keep-In (leaves h xs) x (values m)
            (In-values x.key x m (In-get text_order x.key x m found))
            (ground
              (arith, contains-old_keys h x.key v, retained-contains_key h xs x.key x v found))))
