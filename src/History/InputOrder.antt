-- ===== src/History/InputOrder.antt =====
-- The order of a listing does not matter to an update.
use s3_pulse.Base.{
  ◌≡◌, ◌↔◌, sym, subst, ◌∙◌, none, some, List, [], ◌∷◌, arith, In, inl, inr, Option-cases,
}
use s3_pulse.Base.Text.{Text, text_order, same_text→eq, same_text_refl}
use s3_pulse.Base.Map.Extent.{ext_of_reads}
use s3_pulse.Model.{S3Object}
use s3_pulse.History.{RollingHistory, collect, upsert_many}
use s3_pulse.History.Ranking.{DistinctKeys}
use s3_pulse.History.Merge.{latest, collect-IsOrdered, get-collect_nil}

latest-In :
    (k : Text) (x : S3Object) (xs : List S3Object) → latest k xs ≡ some x → In x xs × (k ≡ x.key)
latest-In k x [] e = cc
latest-In k x (y ∷ xs) e = ground (arith, latest-In k x xs, same_text→eq k y.key)

latest_absent :
    (k : Text) (xs : List S3Object)
    → ((y : S3Object) → In y xs → k ≡ y.key → ⊥)
    → latest k xs ≡ none
latest_absent k xs f = elim (Option-cases (latest k xs)) [
  | inl e ↦ e
  | inr (y, e) ↦ let (m, q) = latest-In k y xs e in absurd (f y m q)
]

In-latest :
    (x : S3Object) (xs : List S3Object) → DistinctKeys xs → In x xs → latest x.key xs ≡ some x
In-latest x [] d n = elim n [ ]
In-latest x (y ∷ xs) (f, d) (inl e) =
    let alone : latest y.key xs ≡ none = latest_absent y.key xs (λ z m q. f z m (sym q)) in
    subst (λ (t : S3Object). latest t.key (y ∷ xs) ≡ some t) (sym e)
      (rw (alone, same_text_refl y.key))
In-latest x (y ∷ xs) (f, d) (inr n) = ground (arith, In-latest x xs d n)

same_latest :
    (xs ys : List S3Object)
    → DistinctKeys xs
    → DistinctKeys ys
    → ((x : S3Object) → In x xs ↔ In x ys)
    → (k : Text) → latest k xs ≡ latest k ys
same_latest xs ys d e f k = elim (Option-cases (latest k xs)) [
  | inl a ↦ elim (Option-cases (latest k ys)) [
    | inl b ↦ cc
    | inr (y, b) ↦ sym (found ys xs e d (λ x. ((f x).1, (f x).0)) y b)
  ]
  | inr (x, a) ↦ found xs ys d e f x a
]
  where
    found :
        (us vs : List S3Object)
        → DistinctKeys us
        → DistinctKeys vs
        → ((x : S3Object) → In x us ↔ In x vs)
        → (x : S3Object) → latest k us ≡ some x
        → latest k us ≡ latest k vs
    found us vs d' e' g x a =
        let (m, q) = latest-In k x us a in
        a ∙ sym (subst (λ t. latest t vs ≡ some x) (sym q) (In-latest x vs e' ((g x).0 m)))

-- Two listings with the same objects, each under one key at most once, have the same effect and
-- the same report, whatever their order.
pub upsert_many_order :
    (h : RollingHistory) (xs ys : List S3Object)
    → DistinctKeys xs
    → DistinctKeys ys
    → ((x : S3Object) → In x xs ↔ In x ys)
    → upsert_many h xs ≡ upsert_many h ys
unfolding upsert_many
upsert_many_order h xs ys d e f =
    let same : collect [] xs ≡ collect [] ys =
      ext_of_reads text_order _ _ (collect-IsOrdered xs [] tt) (collect-IsOrdered ys [] tt)
        (λ k. get-collect_nil k xs ∙ same_latest xs ys d e f k ∙ sym (get-collect_nil k ys)) in
    rw same
