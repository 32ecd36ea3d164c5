-- ===== src/History/Repeat.antt =====
-- Applying a listing a second time changes nothing and reports nothing.
use s3_pulse.Base.{
  ℕ, zero, suc, ◌≡◌, refl, sym, ap, ◌∙◌, subst, none, some, List, [], ◌∷◌, map, arith, In, inl, inr,
  keep, Bool, true, false, if◌then◌else◌, take, In-map,
}
use s3_pulse.Base.Text.{Text, text_order}
use s3_pulse.Base.Sort.{sort_by, keep-sort_by}
use s3_pulse.Base.Map.{get, values}
use s3_pulse.Base.Map.Filter.{retain, get-retain, retain-IsOrdered}
use s3_pulse.Base.Map.Extent.{ext_of_reads}
use s3_pulse.Model.{S3Object, ObjectChange}
use s3_pulse.History.{RollingHistory, newest_first, retained_keys, contains, upsert_many}
use s3_pulse.History
use s3_pulse.History.Ranking.{newest_first-IsComparator, contains_name}
use s3_pulse.History.Merge.{Objects, latest, values-retain}
use s3_pulse.History.Retention.{
  IsValid, merged, merged-IsOrdered, merged-IsKeyed, get-merged, upsert_many-IsValid,
}
use s3_pulse.History.Changes.{retained, merged-latest, In-changes_iff, IsChange}
use s3_pulse.History.Evictions.{In-evicted_iff}

-- Dropping entries behind the first `n` does not change the first `n`.
take-keep :
    (n : ℕ) (q : S3Object → Bool) (xs : List S3Object)
    → ((x : S3Object) → In x (take n xs) → q x ≡ true)
    → take n (keep q xs) ≡ take n xs
take-keep zero q xs h = refl
take-keep (suc n) q [] h = refl
take-keep (suc n) q (x ∷ xs) h =
    rw (h x (inl refl)) (ap (◌∷◌ x) (take-keep n q xs (λ y m. h y (inr m))))

nil_of_empty : {A : Type 0} (xs : List A) → ((x : A) → In x xs → ⊥) → xs ≡ []
nil_of_empty [] h = refl
nil_of_empty (x ∷ xs) h = absurd (h x (inl refl))

retain_known :
    (p q : Text → Bool) (m : Objects)
    → ((k : Text) → p k ≡ true → q k ≡ true)
    → retain p (retain q m) ≡ retain p m
retain_known p q [] f = refl
retain_known p q ((k, x) ∷ m) f = ground (arith, f k, retain_known p q m f)

module _ (h : RollingHistory) (xs : List S3Object) (v : IsValid h) where
  once : RollingHistory
  once = (upsert_many h xs).0

  -- The keys of the second merge: what was retained, and what is listed.
  known : Text → Bool
  known k = if retained h xs k then true else elim (latest k xs) [ none ↦ false | some _ ↦ true ]

  get-once :
      (k : Text)
      → History.get once k ≡ (if retained h xs k then get text_order k (merged h xs) else none)
  unfolding once History.get upsert_many
  get-once k = get-retain text_order k (retained h xs) (merged h xs) (merged-IsOrdered h xs v)

  once-IsValid : IsValid once
  unfolding once
  once-IsValid = upsert_many-IsValid h xs v

  merged_again : merged once xs ≡ retain known (merged h xs)
  merged_again =
      ext_of_reads text_order _ _ (merged-IsOrdered once xs once-IsValid)
        (retain-IsOrdered text_order known _ (merged-IsOrdered h xs v)) λ k. reads k
    where
      reads :
          (k : Text)
          → get text_order k (merged once xs) ≡ get text_order k (retain known (merged h xs))
      reads k =
          unfold known in
          ground (
            arith,
            get-merged k once xs,
            get-once k,
            get-merged k h xs,
            get-retain text_order k known (merged h xs) (merged-IsOrdered h xs v),
          )

  first_known :
      (x : S3Object)
      → In x (take h.capacity (sort_by newest_first (values (merged h xs))))
      → known x.key ≡ true
  unfolding known retained_keys
  first_known x n = let t = contains_name _ x (In-map (λ (y : S3Object). y.key) x _ n) in rw t

  same_names : retained_keys once.capacity (merged once xs) ≡ retained_keys h.capacity (merged h xs)
  unfolding once retained_keys upsert_many
  same_names =
      let m = merged h xs in
      let r = sort_by newest_first (values m) in
      let test : S3Object → Bool = λ x. known x.key in
      ap
        (λ (t : Objects).
          map (λ (x : S3Object). x.key) (take h.capacity (sort_by newest_first (values t))))
        merged_again
      ∙ ap (λ (t : List S3Object). map (λ (x : S3Object). x.key) (take h.capacity t))
          (ap (sort_by newest_first) (values-retain known m (merged-IsKeyed h xs v))
            ∙ sym (keep-sort_by newest_first newest_first-IsComparator test (values m)))
      ∙ ap (map (λ (x : S3Object). x.key)) (take-keep h.capacity test r first_known)

  same_map : (upsert_many once xs).0.by_key ≡ once.by_key
  unfolding upsert_many once
  same_map =
      ap (λ (t : List Text). retain (contains t) (merged once xs)) same_names
      ∙ ap (retain (retained h xs)) merged_again
      ∙ retain_known (retained h xs) known (merged h xs) (λ k e. unfold known in rw e)

  same_history : (upsert_many once xs).0 ≡ once
  unfolding upsert_many once
  same_history = λ i. record once { by_key = same_map i }

  no_change : (c : ObjectChange) → In c (upsert_many once xs).1.changes → ⊥
  no_change c n = p.0.differs (p.0.before ∙ held)
    where
      p : IsChange once xs c × (History.contains_key (upsert_many once xs).0 c.object.key ≡ true)
      p = (In-changes_iff once xs c once-IsValid).0 n

      in_once : History.contains_key once c.object.key ≡ true
      in_once = subst (λ t. History.contains_key t c.object.key ≡ true) same_history p.1

      held : History.get once c.object.key ≡ some c.object
      held =
          unfold History.contains_key in
          ground (
            arith,
            in_once,
            get-once c.object.key,
            merged-latest h xs c.object.key c.object p.0.observed,
          )

  no_eviction : (x : S3Object) → In x (upsert_many once xs).1.evicted → ⊥
  no_eviction x n =
      let (_, old, gone) = (In-evicted_iff once xs x once-IsValid).0 n in
      cc (old, subst (λ t. History.contains_key t x.key ≡ false) same_history gone)

-- Applying a listing twice to a well-formed history leaves it as the first application did, and the
-- second one reports no change and no eviction.
pub upsert_many_twice :
    (h : RollingHistory) (xs : List S3Object)
    → IsValid h
    → upsert_many (upsert_many h xs).0 xs
      ≡ ((upsert_many h xs).0, record { changes = []; evicted = [] })
unfolding once
upsert_many_twice h xs v = λ i. (
  same_history h xs v i,
  record {
    changes = nil_of_empty (upsert_many (once h xs v) xs).1.changes (no_change h xs v) i;
    evicted = nil_of_empty (upsert_many (once h xs v) xs).1.evicted (no_eviction h xs v) i;
  },
)
