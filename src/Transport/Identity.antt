-- ===== src/Transport/Identity.antt =====
-- Request identifiers, of tasks and in flight.
use s3_pulse.Base.{
  ℕ, ◌≡◌, ◌↔◌, refl, sym, ap, subst, true, false, not, Option, none, some, List, [], ◌∷◌, ◌++◌, map,
  In, arith, inl, inr, Bool-cases, In-map, map-In, In-keep, keep-In, In-append_cases,
  In-append_left, In-append_right, ==→eq,
}
use s3_pulse.Base.Int.{pos, negsuc}
use s3_pulse.Base.Text.{same_text→eq, same_text_refl}
use s3_pulse.Transport.Serve.{RequestId, number, string, null, same_id, Task, token_of, without}

pub same_id→eq : (a b : RequestId) → same_id a b ≡ true → a ≡ b
unfolding same_id
same_id→eq (number (pos a)) (number (pos b)) h = ap (λ n. number (pos n)) (==→eq a b h)
same_id→eq (number (pos a)) (number (negsuc b)) h = cc
same_id→eq (number (negsuc a)) (number (pos b)) h = cc
same_id→eq (number (negsuc a)) (number (negsuc b)) h = ap (λ n. number (negsuc n)) (==→eq a b h)
same_id→eq (number a) (string t) h = cc
same_id→eq (number a) null h = cc
same_id→eq (string s) (number b) h = cc
same_id→eq (string s) (string t) h = ap string (same_text→eq s t h)
same_id→eq (string s) null h = cc
same_id→eq null (number b) h = cc
same_id→eq null (string t) h = cc
same_id→eq null null h = refl

pub same_id_refl : (a : RequestId) → same_id a a ≡ true
unfolding same_id
same_id_refl (number (pos a)) = ground arith
same_id_refl (number (negsuc a)) = ground arith
same_id_refl (string s) = same_text_refl s
same_id_refl null = refl

abbrev pub id_of : Option RequestId → List RequestId → List RequestId
id_of none ids = ids
id_of (some id) ids = id ∷ ids

abbrev pub ids : {V : Type 0} → List (Task V) → List RequestId
ids [] = []
ids (t ∷ ts) = id_of t.id (ids ts)

abbrev pub known : List (RequestId × ℕ) → List RequestId
known = map (λ e. e.0)

pub token_of-known :
    (id : RequestId) (m : List (RequestId × ℕ)) → token_of id m ≡ none → ¬ In id (known m)
token_of-known id [] h n = n
token_of-known id ((j, t) ∷ m) h (inl e) =
    let k : same_id id j ≡ true = subst (λ i. same_id id i ≡ true) e (same_id_refl id) in
    ground (arith, h, k)
token_of-known id ((j, t) ∷ m) h (inr n) = elim (Bool-cases (same_id id j)) [
  | inl e ↦ ground (arith, h, e)
  | inr e ↦ token_of-known id m (rw e at h) n
]

pub without-known :
    (id j : RequestId) (m : List (RequestId × ℕ))
    → In j (known (without id m)) ↔ (In j (known m) × (same_id id j ≡ false))
without-known id j m = (
  (λ n.
      let (e, p, q) = map-In (λ (e : RequestId × ℕ). e.0) j (without id m) n in
      let (r, t) = In-keep (λ (e : RequestId × ℕ). not (same_id id e.0)) e m p in
      (
        subst (λ i. In i (known m)) (sym q) (In-map (λ (e : RequestId × ℕ). e.0) e m r),
        subst (λ i. same_id id i ≡ false) (sym q) (ground (arith, t)),
      )),
  (λ (n, f).
      let (e, p, q) = map-In (λ (e : RequestId × ℕ). e.0) j m n in
      subst (λ i. In i (known (without id m))) (sym q)
        (In-map (λ (e : RequestId × ℕ). e.0) e (without id m)
          (keep-In (λ (e : RequestId × ℕ). not (same_id id e.0)) e m p
            (ap not (subst (λ i. same_id id i ≡ false) q f))))),
)

pub other_id :
    (id j : RequestId) (xs ys : List RequestId)
    → same_id id j ≡ false
    → In j (xs ++ id ∷ ys)
    → In j (xs ++ ys)
other_id id j xs ys f m = elim (In-append_cases j xs (id ∷ ys) m) [
  | inl n ↦ In-append_left j xs ys n
  | inr (inl q) ↦ absurd (cc (same_id_refl id, f, q))
  | inr (inr n) ↦ In-append_right j xs ys n
]

pub wider : (j id : RequestId) (xs ys : List RequestId) → In j (xs ++ ys) → In j (xs ++ id ∷ ys)
wider j id xs ys m = elim (In-append_cases j xs ys m) [
  | inl n ↦ In-append_left j xs (id ∷ ys) n
  | inr n ↦ In-append_right j xs (id ∷ ys) (inr n)
]

pub apart : (id j : RequestId) (xs : List RequestId) → ¬ In id xs → In j xs → same_id id j ≡ false
apart id j xs n m = elim (Bool-cases (same_id id j)) [
  | inl e ↦ absurd (n (subst (λ i. In i xs) (sym (same_id→eq id j e)) m))
  | inr e ↦ e
]
