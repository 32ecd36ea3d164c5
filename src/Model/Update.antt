-- ===== src/Model/Update.antt =====
-- crates/s3pulse-core/src/model.rs: the accessors of a history update.
use s3_pulse.Base.{
  ◌≡◌, refl, Bool, true, false, List, [], ◌∷◌, map, keep, length, arith, ◌+◌, if◌then◌else◌,
}
use s3_pulse.Model.{S3Object, added, updated, ObjectChange, HistoryUpdate}

unfoldable pub is_added : ObjectChange → Bool
is_added change = elim change.kind [ added ↦ true | updated ↦ false ]

unfoldable pub is_updated : ObjectChange → Bool
is_updated change = elim change.kind [ added ↦ false | updated ↦ true ]

unfoldable pub added_objects : HistoryUpdate → List S3Object
added_objects update = map (λ change. change.object) (keep is_added update.changes)

unfoldable pub updated_objects : HistoryUpdate → List S3Object
updated_objects update = map (λ change. change.object) (keep is_updated update.changes)

unfoldable pub is_nil {ℓ} : {A : Type ℓ} → List A → Bool
is_nil [] = true
is_nil (x ∷ xs) = false

unfoldable pub is_unchanged : HistoryUpdate → Bool
is_unchanged update = if is_nil update.changes then is_nil update.evicted else false

kept :
    (changes : List ObjectChange)
    → length (map (λ change. change.object) (keep is_added changes))
        + length (map (λ change. change.object) (keep is_updated changes))
      ≡ length changes
unfolding is_added is_updated
kept [] = refl
kept (c ∷ cs) = ground (arith, kept cs)

-- Every change of an update is counted once, as an added or as an updated object.
pub length-added_objects :
    (update : HistoryUpdate)
    → length (added_objects update) + length (updated_objects update) ≡ length update.changes
unfolding added_objects updated_objects
length-added_objects update = kept update.changes

-- An update that says it is empty has neither a change nor an eviction.
pub is_unchanged→empty :
    (update : HistoryUpdate)
    → is_unchanged update ≡ true
    → (update.changes ≡ []) × (update.evicted ≡ [])
unfolding is_unchanged is_nil
is_unchanged→empty update h = ground arith
