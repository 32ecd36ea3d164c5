-- ===== src/Service/Methods.antt =====
-- The whole of `handle`: what reaches the runtime, and which methods there are.
use s3_pulse.Base.{◌≡◌, ◌⊎◌, inl, inr, refl, sym, subst, false, Result, ok, err, In, Bool-cases}
use s3_pulse.Base.Text.{Text, codes, same_text, same_text→eq}
use s3_pulse.Transport.Serve.{ErrorObject}
use s3_pulse.Service.Errors.{method_not_found}
use s3_pulse.Service.{
  ServiceRuntime, ServiceCodec, Call, methods, read_call, perform, proceed, handle,
}
use s3_pulse.Service.Checks.{IsAllowed, Allows, read_call-Allows}

module _ {S V H PathBuf : Type 0} (codec : ServiceCodec V H PathBuf)
    (runtime : ServiceRuntime S V H PathBuf) where
  -- A refusal that leaves the state, or one allowed call.
  abbrev pub Effect : Result (ErrorObject V) V × S → S → Type 0
  Effect r s =
      ((e : ErrorObject V) × (r ≡ (err e, s)))
      ⊎ ((call : Call PathBuf) × IsAllowed codec call × (r ≡ perform codec runtime call s))

  proceed-Effect :
      (r : Result (ErrorObject V) (Call PathBuf)) (s : S)
      → Allows codec r
      → Effect (proceed codec runtime r s) s
  proceed-Effect (ok call) s p = inr (call, p.allowed, refl)
  proceed-Effect (err e) s p = inl (e, refl)

  -- A request is refused with an error and no effect on the runtime, or it makes one call of the
  -- runtime, whose arguments are in bounds: identifiers, keys and targets are not blank, limits lie
  -- between 1 and 1000, the history limit between 1 and 10000, and the intervals are positive.
  pub handle-IsAllowed :
      (method : Text) (params : V) (s : S) → Effect (handle codec runtime method params s) s
  unfolding handle
  handle-IsAllowed method params s =
      proceed-Effect (read_call codec method params) s (read_call-Allows codec method params)

not_same : (s t : Text) → (s ≡ t → ⊥) → same_text s t ≡ false
not_same s t apart = elim (Bool-cases (same_text s t)) [
  | inl e ↦ absurd (apart (same_text→eq s t e))
  | inr e ↦ e
]

-- A method that is not among those of `system.version` is answered with the error for an unknown
-- method and has no effect.
pub handle-unknown :
    {S V H PathBuf : Type 0} (codec : ServiceCodec V H PathBuf)
    (runtime : ServiceRuntime S V H PathBuf) (method : Text) (params : V) (s : S)
    → (In method methods → ⊥)
    → handle codec runtime method params s ≡ (err (method_not_found method), s)
unfolding handle read_call
handle-unknown codec runtime method params s h =
    let no : (t : Text) → In t methods → same_text method t ≡ false =
      λ t i. not_same method t λ e. h (subst (λ u. In u methods) (sym e) i) in
    rw (
      no (codes "system.version") (inl refl),
      no (codes "watch.start") (inr (inl refl)),
      no (codes "watch.stop") (inr (inr (inl refl))),
      no (codes "watch.status") (inr (inr (inr (inl refl)))),
      no (codes "objects.list") (inr (inr (inr (inr (inl refl))))),
      no (codes "statistics.frequency") (inr (inr (inr (inr (inr (inl refl)))))),
      no (codes "statistics.history") (inr (inr (inr (inr (inr (inr (inl refl))))))),
      no (codes "object.download") (inr (inr (inr (inr (inr (inr (inr (inl refl)))))))),
    )
