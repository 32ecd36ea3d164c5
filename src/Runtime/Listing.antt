-- ===== src/Runtime/Listing.antt =====
-- The objects and samples that a client gets: the newest ones, in order, within the limit.
use s3_pulse.Base.{
  ℕ, zero, suc, ◌-◌, ◌≡◌, min, inl, inr, sym, ◌∙◌, ap, subst, true, some, List, [], ◌∷◌, Result, ok,
  map_err, length, length-take, length-drop, Ordering, take, drop, arith, In, In-take, In-drop,
  Result-cases, Option-cases,
}
use s3_pulse.Base.Text.{Text}
use s3_pulse.Base.Sort.{is_le, sort_by, IsSorted, sort_by-IsSorted, length-sort_by}
use s3_pulse.Model.{S3Object}
use s3_pulse.History.Ranking.{newest_first-IsComparator, oldest_first-IsComparator}
use s3_pulse.History.{newest_first, oldest_first}
use s3_pulse.Transport.Serve.{ErrorObject}
use s3_pulse.Service.Errors.{internal}
use s3_pulse.Service.Params.{ObjectsListResult}
use s3_pulse.Runtime.Values.{WatchSession}
use s3_pulse.Runtime.{Watchers, lookup}
use s3_pulse.Runtime.Queries.{objects_of, listed, collect_values, objects_list, newest_samples}

module _ {A : Type 0} (c : A → A → Ordering) where
  -- A sorted list cut in two: both parts are sorted, and all of the first is before all of the second.
  take-IsSorted : (n : ℕ) (xs : List A) → IsSorted c xs → IsSorted c (take n xs)
  take-IsSorted zero xs s = tt
  take-IsSorted (suc n) [] s = tt
  take-IsSorted (suc n) (x ∷ xs) (b, s) = ((λ y m. b y (In-take n y xs m)), take-IsSorted n xs s)

  drop-IsSorted : (n : ℕ) (xs : List A) → IsSorted c xs → IsSorted c (drop n xs)
  drop-IsSorted zero xs s = s
  drop-IsSorted (suc n) [] s = tt
  drop-IsSorted (suc n) (x ∷ xs) (b, s) = drop-IsSorted n xs s

  take-drop_order :
      (n : ℕ) (xs : List A) (x y : A)
      → IsSorted c xs
      → In x (take n xs)
      → In y (drop n xs)
      → is_le (c x y) ≡ true
  take-drop_order zero xs x y s m k = absurd m
  take-drop_order (suc n) [] x y s m k = absurd m
  take-drop_order (suc n) (z ∷ xs) x y (b, s) (inl e) k = rw e (b y (In-drop n y xs k))
  take-drop_order (suc n) (z ∷ xs) x y (b, s) (inr m) k = take-drop_order n xs x y s m k

-- A listing with a limit has the newest objects of the snapshot: as many as the limit and the
-- snapshot allow, newest first and ties by key, and none that is left out comes before any of them.
pub listed-newest :
    (limit : ℕ) (objects : List S3Object)
    → (length (listed (some limit) objects) ≡ min limit (length objects))
      × IsSorted newest_first (listed (some limit) objects)
      × ((x y : S3Object)
          → In x (listed (some limit) objects)
          → In y (drop limit (sort_by newest_first objects))
          → is_le (newest_first x y) ≡ true)
unfolding listed
listed-newest limit objects =
    let sorted = sort_by newest_first objects in
    let s = sort_by-IsSorted newest_first newest_first-IsComparator objects in
    (
      length-take limit sorted ∙ ap (min limit) (length-sort_by newest_first objects),
      take-IsSorted newest_first limit sorted s,
      λ x y m k. take-drop_order newest_first limit sorted x y s m k,
    )

-- The samples of a history with a limit are the newest objects of the snapshot: as many as the limit
-- and the snapshot allow, oldest first and ties by key, and none that is left out comes behind any of
-- them.
pub newest_samples-newest :
    (limit : ℕ) (objects : List S3Object)
    → (length (newest_samples (some limit) objects) ≡ min limit (length objects))
      × IsSorted oldest_first (newest_samples (some limit) objects)
      × ((x y : S3Object)
          → In x (take (length objects - limit) (sort_by oldest_first objects))
          → In y (newest_samples (some limit) objects)
          → is_le (oldest_first x y) ≡ true)
unfolding newest_samples
newest_samples-newest limit objects =
    let sorted = sort_by oldest_first objects in
    let s = sort_by-IsSorted oldest_first oldest_first-IsComparator objects in
    let same = length-sort_by oldest_first objects in
    (
      omega (arith, length-drop (length sorted - limit) sorted, same),
      drop-IsSorted oldest_first (length sorted - limit) sorted s,
      λ x y m k.
          take-drop_order oldest_first (length sorted - limit) sorted x y s
            (subst (λ n. In x (take (n - limit) sorted)) (sym same) m) k,
    )

length-collect_values :
    {V A : Type 0} (write : A → Result (ErrorObject V) V) (xs : List A) (vs : List V)
    → collect_values write xs ≡ ok vs
    → length vs ≡ length xs
length-collect_values write [] vs h = ground (arith, h)
length-collect_values write (x ∷ xs) vs h = elim (Result-cases (write x)) [
  | inl (v, e) ↦ elim (Result-cases (collect_values write xs)) [
    | inl (rest, e') ↦ ground (arith, h, e, e', length-collect_values write xs rest e')
    | inr (f, e') ↦ absurd (ground (arith, h, e, e'))
  ]
  | inr (f, e) ↦ absurd (ground (arith, h, e))
]

-- A listing that is answered has no more objects than its limit and than the session's snapshot.
pub objects_list-bounded :
    {V St : Type 0} (detail : Text → V) (write : S3Object → Result Text V) (id : Text) (limit : ℕ)
    (w : Watchers St) (answer : ObjectsListResult V)
    → objects_list detail write id (some limit) w ≡ ok answer
    → (session : WatchSession St) × (lookup id w ≡ some session)
      × (length answer.objects ≡ min limit (length (objects_of session.snapshot)))
unfolding objects_list
objects_list-bounded detail write id limit w answer h = elim (Option-cases (lookup id w)) [
  | inl e ↦ absurd (ground (arith, h, e))
  | inr (session, e) ↦
      let wanted = listed (some limit) (objects_of session.snapshot) in
      let encode = λ (object : S3Object). map_err (internal detail) (write object) in
      elim (Result-cases (collect_values encode wanted)) [
        | inl (vs, e') ↦
            let same : answer.objects ≡ vs = ground (arith, h, e, e') in
            (
              session,
              e,
              ap length same
                  ∙ length-collect_values encode wanted vs e'
                  ∙ (listed-newest limit (objects_of session.snapshot)).0,
            )
        | inr (f, e') ↦ absurd (ground (arith, h, e, e'))
      ]
]
