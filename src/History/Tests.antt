-- ===== src/History/Tests.antt =====
-- Runs of the history on inputs of the unit tests of history.rs, and the theorems at a full history.
use s3_pulse.Base.{
  or_else, ℕ, ◌≡◌, ◌↔◌, ◌≢◌, refl, ap, sym, ◌∙◌, subst, List, [], ◌∷◌, none, some, map, true, false,
  In, inl, inr, take, arith, Ordering,
}
use s3_pulse.Base.Text.{Text, codes, text_order, same_text, same_text_refl}
use s3_pulse.Base.Map.{insert, values}
use s3_pulse.Base.Map
use s3_pulse.Base.Sort.{sort_by, place}
use s3_pulse.Model.{S3Object, ObjectChange, updated, same_object}
use s3_pulse.History.{
  RollingHistory, upsert_many, objects, collect, apply, retained_keys, newest_first,
  with_expected_interval,
}
use s3_pulse.History
use s3_pulse.History.Ranking.{DistinctKeys}
use s3_pulse.History.Merge.{latest}
use s3_pulse.History.Retention.{
  get-merged, IsValid, merged, objects-upsert_many, upsert_many-IsValid, upsert_many_newest,
  with_expected_interval-IsValid,
}
use s3_pulse.History.Changes.{IsChange, In-changes_iff}
use s3_pulse.History.Evictions.{In-evicted_iff}
use s3_pulse.History.Repeat.{upsert_many_twice}
use s3_pulse.History.InputOrder.{upsert_many_order}

abbrev object : Text → ℕ → ℕ → S3Object
object key seconds size = record {
  key = key;
  last_modified = seconds;
  size = size;
  etag = none;
  storage_class = none;
}

abbrev z : S3Object
z = object (codes "z") 20 1

abbrev a : S3Object
a = object (codes "a") 20 1

abbrev middle : S3Object
middle = object (codes "middle") 15 1

abbrev old : S3Object
old = object (codes "old") 5 1

abbrev empty : RollingHistory
empty = record { capacity = 3; expected_interval_seconds = none; by_key = [] }

abbrev names : RollingHistory → List Text
names h = map (λ o. o.key) (objects h)

retention :
    names (upsert_many empty (z ∷ a ∷ middle ∷ old ∷ [])).0
    ≡ codes "a" ∷ codes "z" ∷ codes "middle" ∷ []
unfolding upsert_many objects collect apply retained_keys sort_by place insert Map.get same_object
retention = refl

evicts : (upsert_many (upsert_many empty (z ∷ middle ∷ old ∷ [])).0 (a ∷ [])).1.evicted ≡ old ∷ []
unfolding upsert_many objects collect apply retained_keys sort_by place insert Map.get same_object
evicts = refl

-- A full history, and the listing that a next poll brings: `a` arrives and `z` has grown.
abbrev full : RollingHistory
full = record {
  capacity = 3;
  expected_interval_seconds = some 10;
  by_key = (codes "middle", middle) ∷ (codes "old", old) ∷ (codes "z", z) ∷ [];
}

abbrev grown : S3Object
grown = object (codes "z") 20 2

abbrev listing : List S3Object
listing = grown ∷ middle ∷ old ∷ a ∷ []

full-IsValid : IsValid full
full-IsValid = record {
  positive = omega arith;
  cadence = refl;
  ordered = ((refl, (refl, tt)), ((refl, tt), (tt, tt)));
  keyed = (refl, (refl, (refl, tt)));
  bounded = omega arith;
}

objects-upsert_many_example :
    objects (upsert_many full listing).0
    ≡ take 3 (sort_by newest_first (values (merged full listing)))
objects-upsert_many_example = objects-upsert_many full listing full-IsValid

get-merged_example :
    Map.get text_order (codes "z") (merged full listing)
    ≡ or_else (latest (codes "z") listing) (History.get full (codes "z"))
get-merged_example = get-merged (codes "z") full listing

upsert_many-IsValid_example : IsValid (upsert_many full listing).0
upsert_many-IsValid_example = upsert_many-IsValid full listing full-IsValid

with_expected_interval-IsValid_example :
    IsValid (record { capacity = 3; expected_interval_seconds = some 10; by_key = [] })
unfolding with_expected_interval
with_expected_interval-IsValid_example = with_expected_interval-IsValid 3 (some 10) _ refl

after : objects (upsert_many full listing).0 ≡ a ∷ grown ∷ middle ∷ []
unfolding upsert_many objects collect apply retained_keys sort_by place insert Map.get same_object
after = refl

old-merged : In old (values (merged full listing))
unfolding collect apply insert Map.get same_object
old-merged = inr (inr (inl refl))

old_gone : History.contains_key (upsert_many full listing).0 old.key ≡ false
unfolding upsert_many objects collect apply retained_keys sort_by place insert Map.get same_object
    History.contains_key
old_gone = refl

upsert_many_newest_example : newest_first middle old ≡ Ordering.lt
upsert_many_newest_example =
    upsert_many_newest full listing middle old full-IsValid (rw after (inr (inr (inl refl))))
      old-merged old_gone

abbrev z_grew : ObjectChange
z_grew = record { kind = updated; object = grown; previous = some z }

In-changes_iff_example : In z_grew (upsert_many full listing).1.changes ↔ (
    IsChange full listing z_grew
    × (History.contains_key (upsert_many full listing).0 (codes "z") ≡ true))
In-changes_iff_example = In-changes_iff full listing z_grew full-IsValid

In-evicted_iff_example : In old (upsert_many full listing).1.evicted ↔ (
    (Map.get text_order (codes "old") (merged full listing) ≡ some old)
    × (History.contains_key full (codes "old") ≡ true)
    × (History.contains_key (upsert_many full listing).0 (codes "old") ≡ false))
In-evicted_iff_example = In-evicted_iff full listing old full-IsValid

upsert_many_twice_example :
    upsert_many (upsert_many full listing).0 listing
    ≡ ((upsert_many full listing).0, record { changes = []; evicted = [] })
upsert_many_twice_example = upsert_many_twice full listing full-IsValid

names_apart : (s t : Text) → same_text s t ≡ false → s ≢ t
names_apart s t h e = cc (subst (λ u. same_text s u ≡ true) e (same_text_refl s), h)

az-DistinctKeys : DistinctKeys (a ∷ z ∷ [])
az-DistinctKeys = (other, ((λ y m. absurd m), tt))
  where
    other : (y : S3Object) → In y (z ∷ []) → y.key ≢ a.key
    other y (inl e) q =
        names_apart (codes "z") (codes "a") refl (sym (ap (λ (t : S3Object). t.key) e) ∙ q)
    other y (inr n) q = elim n [ ]

za-DistinctKeys : DistinctKeys (z ∷ a ∷ [])
za-DistinctKeys = (other, ((λ y m. absurd m), tt))
  where
    other : (y : S3Object) → In y (a ∷ []) → y.key ≢ z.key
    other y (inl e) q =
        names_apart (codes "a") (codes "z") refl (sym (ap (λ (t : S3Object). t.key) e) ∙ q)
    other y (inr n) q = elim n [ ]

same_members : (x : S3Object) → In x (a ∷ z ∷ []) ↔ In x (z ∷ a ∷ [])
same_members x = (swap, swap)
  where
    swap : {y w : S3Object} → In x (y ∷ w ∷ []) → In x (w ∷ y ∷ [])
    swap (inl e) = inr (inl e)
    swap (inr (inl e)) = inl e
    swap (inr (inr n)) = elim n [ ]

upsert_many_order_example : upsert_many full (a ∷ z ∷ []) ≡ upsert_many full (z ∷ a ∷ [])
upsert_many_order_example =
    upsert_many_order full (a ∷ z ∷ []) (z ∷ a ∷ []) az-DistinctKeys za-DistinctKeys same_members
