-- ===== src/Store/Pages.antt =====
-- The paginated listing, against a service that ends its pages.
use mathlib.Core.List.{append-nil}
use s3_pulse.Base.{
  ℕ, zero, suc, ◌+◌, ◌≤◌, ◌<◌, ◌≡◌, ◌≢◌, refl, ap, ◌∙◌, true, false, Option, none, some, List, [],
  ◌∷◌, ◌++◌, arith, Result, ok, ◌>>=◌, unwrap_or, length, take, inl, inr, Result-cases,
}
use s3_pulse.Base.Text.{Text}
use s3_pulse.Model.{Instant, S3Object}
use s3_pulse.Error.{StoreError}
use s3_pulse.Store.{
  Entry, Page, RankedObjects, retain_newest, finish_newest, read_entry, read_page, list_pages,
  list_objects,
}
use s3_pulse.Store.Newest.{file_all, retain_all}
use s3_pulse.Store.Sorted.{finish_newest-retain_all}

module _ {T : Type 0} (timestamp : T → Option Instant) where
  -- Every entry of a listing read, the first failure first.
  unfoldable pub read_all : List (Entry T) → Result StoreError (List S3Object)
  read_all [] = ok []
  read_all (entry ∷ rest) = do
    object ← read_entry timestamp entry
    objects ← read_all rest
    ok (object ∷ objects)

  read_page-read_all :
      (n : ℕ) (es : List (Entry T)) (m : RankedObjects)
      → read_page timestamp es m n ≡ (read_all es >>= λ xs. ok (retain_all n m xs))
  unfolding read_all read_page retain_all
  read_page-read_all n [] m = refl
  read_page-read_all n (e ∷ es) m = elim (Result-cases (read_entry timestamp e)) [
    | inl (x, p) ↦ rw p (
        read_page-read_all n es (retain_newest m x n)
        ∙ elim (Result-cases (read_all es)) [ inl (xs, q) ↦ rw q | inr (f, q) ↦ rw q ])
    | inr (f, p) ↦ rw p
  ]

  read_all-append :
      (es fs : List (Entry T))
      → read_all (es ++ fs) ≡ (read_all es >>= λ xs. read_all fs >>= λ ys. ok (xs ++ ys))
  unfolding read_all
  read_all-append [] fs = elim (Result-cases (read_all fs)) [
    | inl (xs, q) ↦ rw q
    | inr (f, q) ↦ rw q
  ]
  read_all-append (e ∷ es) fs = elim (Result-cases (read_entry timestamp e)) [
    | inl (x, p) ↦ ground (arith, p, read_all-append es fs)
    | inr (f, p) ↦ rw p
  ]

  -- The service's answers from one request on: pages, the last of which is not truncated.
  pub data Serves (client : ℕ → Option Text → Result StoreError (Page T))
      : ℕ → Option Text → List (List (Entry T)) → Type 0 where
    last :
        {n : ℕ} {token : Option Text} (page : Page T)
        → client n token ≡ ok page
        → unwrap_or page.is_truncated false ≡ false
        → Serves client n token (page.contents ∷ [])
    more :
        {n : ℕ} {token : Option Text} {rest : List (List (Entry T))} (page : Page T) (next : Text)
        → client n token ≡ ok page
        → unwrap_or page.is_truncated false ≡ true
        → page.next_continuation_token ≡ some next
        → Serves client (suc n) (some next) rest
        → Serves client n token (page.contents ∷ rest)

  abbrev pub entries : List (List (Entry T)) → List (Entry T)
  entries [] = []
  entries (page ∷ pages) = page ++ entries pages

  retain_all-append :
      (n : ℕ) (m : RankedObjects) (xs ys : List S3Object)
      → retain_all n m (xs ++ ys) ≡ retain_all n (retain_all n m xs) ys
  unfolding retain_all
  retain_all-append n m [] ys = refl
  retain_all-append n m (x ∷ xs) ys = retain_all-append n (retain_newest m x n) xs ys

  module _ (client : ℕ → Option Text → Result StoreError (Page T)) (max_objects : ℕ) where
    -- The outcome of reading the pages that are left.
    abbrev outcome : RankedObjects → List (List (Entry T)) → Result StoreError (List S3Object)
    outcome m pages =
        read_all (entries pages) >>= λ xs. ok (finish_newest (retain_all max_objects m xs))

    abbrev Answers : ℕ → RankedObjects → Option Text → ℕ → List (List (Entry T)) → Type 0
    Answers fuel m token n pages =
        (requests : ℕ) × (list_pages timestamp client max_objects fuel m token n
          ≡ some (outcome m pages, requests))
        × (n < requests)
        × (requests ≤ n + length pages)

    list_pages-Serves :
        (fuel : ℕ) {n : ℕ} {token : Option Text} {pages : List (List (Entry T))} (m : RankedObjects)
        → Serves client n token pages
        → length pages ≤ fuel
        → Answers fuel m token n pages
    unfolding list_pages
    list_pages-Serves zero m (last page e t) h = absurd (omega arith)
    list_pages-Serves zero m (more page next e t k s) h = absurd (omega arith)
    list_pages-Serves (suc fuel) {n} {token} m (last page e t) h =
        let whole : read_all (page.contents ++ []) ≡ read_all page.contents =
          ap read_all (append-nil page.contents) in
        elim (Result-cases (read_all page.contents)) [
          | inl (xs, q) ↦ (
            suc n,
            ground (arith, read_page-read_all max_objects page.contents m, whole),
            omega arith,
            omega arith,
          )
          | inr (f, q) ↦ (
            suc n,
            ground (arith, read_page-read_all max_objects page.contents m, whole),
            omega arith,
            omega arith,
          )
        ]
    list_pages-Serves (suc fuel) {n} {token} m (more {rest = rest} page next e t k s) h =
        let both = read_all-append page.contents (entries rest) in
        elim (Result-cases (read_all page.contents)) [
          | inl (xs, q) ↦
              let m' = retain_all max_objects m xs in
              let (requests, answer, low, high) = list_pages-Serves fuel m' s (omega arith) in
              (
                requests,
                elim (Result-cases (read_all (entries rest))) [
                  | inl (ys, r) ↦ ground (
                    arith,
                    read_page-read_all max_objects page.contents m,
                    both,
                    retain_all-append max_objects m xs ys,
                  )
                  | inr (g, r) ↦
                      ground (arith, read_page-read_all max_objects page.contents m, both)
                ],
                omega arith,
                omega arith,
              )
          | inr (f, q) ↦ (
            suc n,
            ground (arith, read_page-read_all max_objects page.contents m, both),
            omega arith,
            omega arith,
          )
        ]

-- Where the service ends its pages and there is fuel for each, a listing with a limit returns the
-- first failure among the entries, or else the first `max_objects` of all objects listed, newest
-- first and ties by key; it makes at least one request and at most one for each page.
pub list_objects-Serves :
    {T : Type 0} (timestamp : T → Option Instant)
    (client : ℕ → Option Text → Result StoreError (Page T)) (max_objects fuel n : ℕ)
    (pages : List (List (Entry T)))
    → max_objects ≢ 0
    → Serves timestamp client n none pages
    → length pages ≤ fuel
    → (requests : ℕ) × (list_objects timestamp client max_objects fuel n
        ≡ some (
          (read_all timestamp (entries timestamp pages) >>= λ xs.
              ok (take max_objects (finish_newest (file_all [] xs)))),
          requests,
        ))
      × (n < requests)
      × (requests ≤ n + length pages)
unfolding list_objects
list_objects-Serves timestamp client max_objects fuel n pages pos s h =
    let (requests, answer, low, high) =
      list_pages-Serves timestamp client max_objects fuel [] s h in
    (
      requests,
      elim (Result-cases (read_all timestamp (entries timestamp pages))) [
        | inl (xs, q) ↦ ground (arith, finish_newest-retain_all max_objects xs)
        | inr (f, q) ↦ ground arith
      ],
      low,
      high,
    )
