-- ===== src/Error/Tests.antt =====
-- The failures of the unit tests of error.rs.
use s3_pulse.Base.{◌≡◌, ◌↔◌, ◌⊎◌, inl, inr, refl, true, false, none, some, [], ◌∷◌}
use s3_pulse.Base.Text.{codes}
use s3_pulse.Base.Search.{has_infix}
use s3_pulse.Error.{
  aws, authentication, access_denied, not_found, service_unavailable, extend_chain,
}
use s3_pulse.Error.Classify.{aws_retryable_iff, extend_chain-In}

no_such_key :
    (aws
      (codes "GetObject")
      (some (codes "NoSuchKey"))
      (some (codes "   "))
      (codes "service error")
      []).message
    ≡ codes "GetObject failed: NoSuchKey: service error"
unfolding aws
no_such_key = refl

denied :
    (aws
      (codes "ListObjectsV2")
      none
      none
      (codes "service error")
      (codes "unhandled error" ∷ codes "AccessDenied" ∷ [])).kind
    ≡ access_denied
unfolding aws
denied = refl

slow_down :
    (aws (codes "ListObjectsV2") (some (codes "SlowDown")) none (codes "service error") []).kind
    ≡ service_unavailable
unfolding aws
slow_down = refl

aws_retryable_iff_example :
    ((aws (codes "GetObject") (some (codes "NoSuchKey")) none (codes "service error") []).retryable
      ≡ false)
    ↔ (((aws (codes "GetObject") (some (codes "NoSuchKey")) none (codes "service error") []).kind
          ≡ authentication)
        ⊎ ((aws (codes "GetObject") (some (codes "NoSuchKey")) none (codes "service error") []).kind
            ≡ access_denied)
        ⊎ ((aws (codes "GetObject") (some (codes "NoSuchKey")) none (codes "service error") []).kind
            ≡ not_found))
aws_retryable_iff_example =
    aws_retryable_iff (codes "GetObject") (some (codes "NoSuchKey")) none (codes "service error") []

extend_chain-In_example :
    has_infix
      (codes "AccessDenied")
      (extend_chain (codes "service error") (codes "unhandled error" ∷ codes "AccessDenied" ∷ []))
    ≡ true
extend_chain-In_example =
    extend_chain-In (codes "AccessDenied") (codes "unhandled error" ∷ codes "AccessDenied" ∷ [])
      (codes "service error") (inr (inl refl))
