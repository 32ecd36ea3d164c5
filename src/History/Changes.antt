-- ===== src/History/Changes.antt =====
-- The changes that an update reports.
use s3_pulse.Base.{
  ◌≡◌, ◌≢◌, ◌↔◌, refl, sym, ap, ◌∙◌, subst, Option, none, some, List, [], ◌∷◌, arith, In, inl, inr,
  keep, or_else, Bool, true, Bool-cases, In-append_cases, In-append_left, In-append_right, In-keep,
  keep-In,
}
use s3_pulse.Base.Text.{Text, text_order}
use s3_pulse.Base.Sort.{sort_by, In-sort_by, sort_by-In}
use s3_pulse.Base.Map.{get}
use s3_pulse.Base.Map.Filter.{get-retain, get-In, In-get}
use s3_pulse.Model.{
  S3Object, ObjectChange, ObjectChangeKind, added, updated, same_object, same_object→eq,
  same_object_refl,
}
use s3_pulse.History.{
  RollingHistory, collect, apply, change_for, newest_first, oldest_first, retained_keys, contains,
  upsert_many, newest_change_first,
}
use s3_pulse.History
use s3_pulse.History.Merge.{
  Objects, latest, collect-IsOrdered, collect-IsKeyed, get-collect_nil, changes_of, apply-changes,
}
use s3_pulse.History.Retention.{IsValid, merged, merged-IsOrdered, keyed-In, get-merged}

unfoldable pub kind_of : Option S3Object → ObjectChangeKind
kind_of none = added
kind_of (some previous) = updated

-- A change that a listing makes to a history, read off the two.
pub record IsChange (h : RollingHistory) (xs : List S3Object) (c : ObjectChange) : Type 0 where
  pub observed : latest c.object.key xs ≡ some c.object
  pub before : c.previous ≡ History.get h c.object.key
  pub named : c.kind ≡ kind_of c.previous
  pub differs : c.previous ≢ some c.object

abbrev update_of : S3Object → S3Object → ObjectChange
update_of y x = record { kind = updated; object = x; previous = some y }

change_for_sound :
    (o : Option S3Object) (x : S3Object) (c : ObjectChange)
    → In c (change_for o x)
    → (c.object ≡ x) × (c.previous ≡ o) × (c.kind ≡ kind_of o) × (o ≢ some x)
unfolding change_for kind_of
change_for_sound none x c (inl e) = (
  ap (λ (t : ObjectChange). t.object) e,
  ap (λ (t : ObjectChange). t.previous) e,
  ap (λ (t : ObjectChange). t.kind) e,
  λ q. cc,
)
change_for_sound none x c (inr n) = elim n [ ]
change_for_sound (some y) x c n = elim (Bool-cases (same_object y x)) [
  | inl e ↦ absurd (rw e at n)
  | inr e ↦
      let q : c ≡ update_of y x = elim (rw e at n) [ inl p ↦ p | inr p ↦ absurd p ] in
      (
        ap (λ (t : ObjectChange). t.object) q,
        ap (λ (t : ObjectChange). t.previous) q,
        ap (λ (t : ObjectChange). t.kind) q,
        λ d. cc (same_object_refl x, e, d),
      )
]

change_for_complete :
    (o : Option S3Object) (x : S3Object) (c : ObjectChange)
    → c.object ≡ x
    → c.previous ≡ o
    → c.kind ≡ kind_of o
    → o ≢ some x
    → In c (change_for o x)
unfolding change_for kind_of
change_for_complete none x c e p k d = inl (ground arith)
change_for_complete (some y) x c e p k d = ground (arith, same_object→eq y x)

In-changes_of :
    (m inc : Objects) (c : ObjectChange)
    → In c (changes_of m inc)
    → (k : Text) × (x : S3Object) × In (k, x) inc × In c (change_for (get text_order k m) x)
unfolding changes_of
In-changes_of m [] c n = elim n [ ]
In-changes_of m ((k, x) ∷ inc) c n = elim (In-append_cases c _ (changes_of m inc) n) [
  | inl p ↦ (k, x, inl refl, p)
  | inr p ↦ let (j, y, q, r) = In-changes_of m inc c p in (j, y, inr q, r)
]

changes_of-In :
    (m inc : Objects) (c : ObjectChange) (k : Text) (x : S3Object)
    → In (k, x) inc
    → In c (change_for (get text_order k m) x)
    → In c (changes_of m inc)
unfolding changes_of
changes_of-In m [] c k x n p = elim n [ ]
changes_of-In m ((j, y) ∷ inc) c k x (inl e) p =
    In-append_left c _ (changes_of m inc)
      (cc_at (ap (λ (t : Text × S3Object). t.0) e) (ap (λ (t : Text × S3Object). t.1) e))
  where
    cc_at : k ≡ j → x ≡ y → In c (change_for (get text_order j m) y)
    cc_at q r = rw (← q, ← r) p
changes_of-In m ((j, y) ∷ inc) c k x (inr n) p =
    In-append_right c _ (changes_of m inc) (changes_of-In m inc c k x n p)

-- For an entry of the merged map, being under a retained key is being in the new history.
pub retained-contains_key :
    (h : RollingHistory) (xs : List S3Object) (k : Text) (x : S3Object)
    → IsValid h
    → get text_order k (merged h xs) ≡ some x
    → History.contains_key (upsert_many h xs).0 k
      ≡ contains (retained_keys h.capacity (merged h xs)) k
unfolding History.contains_key History.get upsert_many
retained-contains_key h xs k x v e = ground (
  arith,
  get-retain text_order k (contains (retained_keys h.capacity (merged h xs))) (merged h xs)
      (merged-IsOrdered h xs v),
)

pub merged-latest :
    (h : RollingHistory) (xs : List S3Object) (k : Text) (x : S3Object)
    → latest k xs ≡ some x
    → get text_order k (merged h xs) ≡ some x
merged-latest h xs k x e = get-merged k h xs ∙ ap (λ o. or_else o (History.get h k)) e

-- Every change of the loop, retained or not.
all_sound :
    (h : RollingHistory) (xs : List S3Object) (c : ObjectChange)
    → In c (apply (collect [] xs) h.by_key []).1
    → IsChange h xs c
unfolding History.get
all_sound h xs c n =
    let inc = collect [] xs in
    let ordered = collect-IsOrdered xs [] tt in
    let (k, x, e, f) =
      In-changes_of h.by_key inc c (subst (In c) (apply-changes inc h.by_key [] ordered) n) in
    let (object, previous, kind, differs) = change_for_sound (get text_order k h.by_key) x c f in
    let key : k ≡ c.object.key =
      keyed-In k x inc (collect-IsKeyed xs [] tt) e ∙ ap (λ (t : S3Object). t.key) (sym object) in
    let found : latest k xs ≡ some x =
      sym (get-collect_nil k xs) ∙ get-In text_order k x inc ordered e in
    record {
      observed = cc (found, key, object);
      before = cc (previous, key);
      named = cc (kind, previous);
      differs = λ d. differs (cc (d, previous, object));
    }

all_complete :
    (h : RollingHistory) (xs : List S3Object) (c : ObjectChange)
    → IsChange h xs c
    → In c (apply (collect [] xs) h.by_key []).1
unfolding History.get
all_complete h xs c p =
    let inc = collect [] xs in
    let k = c.object.key in
    subst (In c) (sym (apply-changes inc h.by_key [] (collect-IsOrdered xs [] tt))) (
      changes_of-In h.by_key inc c k c.object
        (In-get text_order k c.object inc (get-collect_nil k xs ∙ p.observed))
        (change_for_complete (get text_order k h.by_key) c.object c refl p.before
          (cc (p.named, p.before)) (λ d. p.differs (p.before ∙ d))))

abbrev pub retained : RollingHistory → List S3Object → Text → Bool
retained h xs = contains (retained_keys h.capacity (merged h xs))

changes_lem :
    (h : RollingHistory) (xs : List S3Object)
    → (upsert_many h xs).1.changes
      ≡ sort_by newest_change_first
          (keep (λ c. retained h xs c.object.key) (apply (collect [] xs) h.by_key []).1)
unfolding upsert_many
changes_lem h xs = refl

-- An update of a well-formed history reports a change exactly if it is one that the listing makes (the
-- last object listed under its key, the object held before, which is another or none, and the kind
-- that goes with it) and the new history has its key.
pub In-changes_iff :
    (h : RollingHistory) (xs : List S3Object) (c : ObjectChange)
    → IsValid h
    → In c (upsert_many h xs).1.changes
      ↔ (IsChange h xs c × (History.contains_key (upsert_many h xs).0 c.object.key ≡ true))
In-changes_iff h xs c v = (sound, complete)
  where
    kept : ObjectChange → Bool
    kept change = retained h xs change.object.key

    all : List ObjectChange
    all = (apply (collect [] xs) h.by_key []).1

    same : IsChange h xs c → History.contains_key (upsert_many h xs).0 c.object.key ≡ kept c
    same p =
        retained-contains_key h xs c.object.key c.object v
          (merged-latest h xs c.object.key c.object p.observed)

    sound :
        In c (upsert_many h xs).1.changes
        → IsChange h xs c × (History.contains_key (upsert_many h xs).0 c.object.key ≡ true)
    sound n =
        let (m, t) =
          In-keep kept c all (
            In-sort_by newest_change_first c (keep kept all) (subst (In c) (changes_lem h xs) n)) in
        let p = all_sound h xs c m in (p, same p ∙ t)

    complete :
        IsChange h xs c × (History.contains_key (upsert_many h xs).0 c.object.key ≡ true)
        → In c (upsert_many h xs).1.changes
    complete (p, t) = subst (In c) (sym (changes_lem h xs)) (
        sort_by-In newest_change_first c (keep kept all)
          (keep-In kept c all (all_complete h xs c p) (sym (same p) ∙ t)))
