-- ===== src/History/Merge.antt =====
-- The map that `upsert_many` builds before it retains anything, and the changes that it collects.
use Prim.Native.Nat.Ordering.{lt}
use mathlib.Core.List.{append_assoc, append-nil}
use s3_pulse.Base.{
  ◌≡◌, refl, sym, Option, none, some, List, [], ◌∷◌, ◌++◌, arith, In, inl, inr, keep, or_else, Bool,
  if◌then◌else◌,
}
use s3_pulse.Base.Text.{Text, text_order, same_text, same_text→eq, same_text_refl}
use s3_pulse.Base.Map.{
  Map, insert, get, Above, IsOrdered, values, get-insert, insert-IsOrdered, get-Above, Above-mono,
}
use s3_pulse.Base.Map.Filter.{retain}
use s3_pulse.Model.{S3Object, ObjectChange}
use s3_pulse.History.{collect, apply, change_for}
use s3_pulse.History.Ranking.{DistinctKeys}

abbrev pub Objects : Type 0
Objects = Map Text S3Object

-- Every object is filed under its own key.
abbrev pub IsKeyed : Objects → Type 0
IsKeyed [] = Unit {0}
IsKeyed ((k, x) ∷ m) = (k ≡ x.key) × IsKeyed m

-- The last observation of a key in a listing.
abbrev pub latest : Text → List S3Object → Option S3Object
latest k [] = none
latest k (x ∷ xs) = or_else (latest k xs) (if same_text k x.key then some x else none)

insert-IsKeyed :
    (k : Text) (x : S3Object) (m : Objects)
    → k ≡ x.key
    → IsKeyed m
    → IsKeyed (insert text_order k x m)
unfolding insert
insert-IsKeyed k x [] e h = (e, tt)
insert-IsKeyed k x ((j, y) ∷ m) e (f, h) = ground (arith, insert-IsKeyed k x m e h)

pub collect-IsOrdered :
    (xs : List S3Object) (m : Objects)
    → IsOrdered text_order m
    → IsOrdered text_order (collect m xs)
unfolding collect
collect-IsOrdered [] m h = h
collect-IsOrdered (x ∷ xs) m h = collect-IsOrdered xs _ (insert-IsOrdered text_order x.key x m h)

pub collect-IsKeyed : (xs : List S3Object) (m : Objects) → IsKeyed m → IsKeyed (collect m xs)
unfolding collect
collect-IsKeyed [] m h = h
collect-IsKeyed (x ∷ xs) m h = collect-IsKeyed xs _ (insert-IsKeyed x.key x m refl h)

pub get-collect :
    (k : Text) (xs : List S3Object) (m : Objects)
    → get text_order k (collect m xs) ≡ or_else (latest k xs) (get text_order k m)
unfolding collect
get-collect k [] m = refl
get-collect k (x ∷ xs) m = ground (
  arith,
  get-collect k xs (insert text_order x.key x m),
  get-insert text_order x.key k x m,
  text_order.cmp_eq k x.key,
  same_text→eq k x.key,
  same_text_refl k,
  text_order.cmp_refl k,
)

pub get-collect_nil :
    (k : Text) (xs : List S3Object) → get text_order k (collect [] xs) ≡ latest k xs
unfolding get
get-collect_nil k xs = ground (arith, get-collect k xs [])

pub apply-IsOrdered :
    (inc m : Objects) (cs : List ObjectChange)
    → IsOrdered text_order m
    → IsOrdered text_order (apply inc m cs).0
unfolding apply
apply-IsOrdered [] m cs h = h
apply-IsOrdered ((k, x) ∷ inc) m cs h =
    apply-IsOrdered inc _ _ (insert-IsOrdered text_order k x m h)

pub apply-IsKeyed :
    (inc m : Objects) (cs : List ObjectChange)
    → IsKeyed inc
    → IsKeyed m
    → IsKeyed (apply inc m cs).0
unfolding apply
apply-IsKeyed [] m cs g h = h
apply-IsKeyed ((k, x) ∷ inc) m cs (e, g) h = apply-IsKeyed inc _ _ g (insert-IsKeyed k x m e h)

-- The listing wins over what the history held.
pub get-apply :
    (k : Text) (inc m : Objects) (cs : List ObjectChange)
    → IsOrdered text_order inc
    → get text_order k (apply inc m cs).0 ≡ or_else (get text_order k inc) (get text_order k m)
unfolding apply get
get-apply k [] m cs h = refl
get-apply k ((j, x) ∷ inc) m cs (a, h) = ground (
  arith,
  get-apply k inc (insert text_order j x m) (cs ++ change_for (get text_order j m) x) h,
  get-insert text_order j k x m,
  text_order.cmp_eq k j,
  Above-mono text_order k j inc,
  get-Above text_order k inc,
  get-Above text_order j inc a,
)

-- The changes, in key order, as a plain list.
unfoldable pub changes_of : Objects → Objects → List ObjectChange
changes_of m [] = []
changes_of m ((k, x) ∷ inc) = change_for (get text_order k m) x ++ changes_of m inc

changes_of-insert :
    (k : Text) (x : S3Object) (m inc : Objects)
    → Above text_order k inc
    → changes_of (insert text_order k x m) inc ≡ changes_of m inc
unfolding changes_of
changes_of-insert k x m [] a = refl
changes_of-insert k x m ((j, y) ∷ inc) (p, a) =
    ground
      (arith, changes_of-insert k x m inc a, get-insert text_order k j x m, text_order.cmp_flip k j)

pub apply-changes :
    (inc m : Objects) (cs : List ObjectChange)
    → IsOrdered text_order inc
    → (apply inc m cs).1 ≡ cs ++ changes_of m inc
unfolding apply changes_of
apply-changes [] m cs h = sym (append-nil cs)
apply-changes ((k, x) ∷ inc) m cs (a, h) =
    rw (apply-changes inc _ _ h, changes_of-insert k x m inc a) (append_assoc cs _ _)

Above-values :
    (k : Text) (m : Objects) (y : S3Object)
    → Above text_order k m
    → IsKeyed m
    → In y (values m)
    → text_order.cmp k y.key ≡ lt
Above-values k [] y a g n = elim n [ ]
Above-values k ((j, x) ∷ m) y (p, a) (e, g) (inl q) = rw (q, ← e) p
Above-values k ((j, x) ∷ m) y (p, a) (e, g) (inr n) = Above-values k m y a g n

pub values-DistinctKeys :
    (m : Objects) → IsOrdered text_order m → IsKeyed m → DistinctKeys (values m)
values-DistinctKeys [] h g = tt
values-DistinctKeys ((k, x) ∷ m) (a, h) (e, g) = (
  (λ y n q. cc (Above-values k m y a g n, text_order.cmp_refl k, q, e)),
  values-DistinctKeys m h g,
)

pub values-retain :
    (p : Text → Bool) (m : Objects)
    → IsKeyed m
    → values (retain p m) ≡ keep (λ x. p x.key) (values m)
values-retain p [] h = refl
values-retain p ((k, x) ∷ m) (e, h) = rw e (ground (arith, values-retain p m h))
