-- ===== src/Transport/Consistent.antt =====
-- What holds of the server between any two steps: its permits and its identifiers.
use s3_pulse.Base.{
  ℕ-cases, ℕ, suc, ◌+◌, ◌≡◌, ◌↔◌, refl, ap, if◌then◌else◌, Bool, true, false, none, some, List, [],
  ◌∷◌, ◌++◌, In, arith, inl, inr, Option-cases, Result-cases,
}
use s3_pulse.Base.Distinct.{IsDistinct}
use s3_pulse.Transport.{Bytes}
use s3_pulse.Transport.Serve.{
  RequestId, Request, Response, Phase, running, finished, replied, Task, Server, Codec, token_of,
  receive, dispatch, admit, cancel_request, respond, spawn,
}
use s3_pulse.Transport.Identity.{ids, known, token_of-known}

abbrev pub busy_of : {V : Type 0} → Phase V → ℕ
busy_of running = 1
busy_of (finished r) = 0
busy_of replied = 0

-- The tasks whose handler runs.
abbrev pub busy : {V : Type 0} → List (Task V) → ℕ
busy [] = 0
busy (t ∷ ts) = busy_of t.phase + busy ts

-- The handlers that run and the free permits are as many as the limit, no two tasks have one
-- identifier, and the identifiers in flight are those of the tasks.
pub record IsConsistent {V : Type 0} (limit : ℕ) (s : Server V) : Type 0 where
  pub bounded : s.permits + busy s.tasks ≡ limit
  pub distinct : IsDistinct (ids s.tasks)
  pub same : (id : RequestId) → In id (known s.in_flight) ↔ In id (ids s.tasks)

if_either : {A : Type 0} (P : A → Type 0) (b : Bool) (x y : A) → P x → P y → P (if b then x else y)
if_either P true x y p q = p
if_either P false x y p q = q

module _ {V : Type 0} where
  pub ids-append : (xs ys : List (Task V)) → ids (xs ++ ys) ≡ ids xs ++ ids ys
  ids-append [] ys = refl
  ids-append (x ∷ xs) ys = elim (Option-cases x.id) [
    | inl e ↦ rw e (ids-append xs ys)
    | inr (id, e) ↦ rw e (ap (◌∷◌ id) (ids-append xs ys))
  ]

  pub busy-append : (xs ys : List (Task V)) → busy (xs ++ ys) ≡ busy xs + busy ys
  busy-append [] ys = omega arith
  busy-append (x ∷ xs) ys = omega (arith, busy-append xs ys)

  pub respond-IsConsistent :
      (limit : ℕ) (s : Server V) (m : Response V)
      → IsConsistent limit s
      → IsConsistent limit (respond s m)
  respond-IsConsistent limit s m c = record {
    bounded = c.bounded;
    distinct = c.distinct;
    same = c.same;
  }

  cancel_request-IsConsistent :
      (limit : ℕ) (codec : Codec V) (s : Server V) (params : V)
      → IsConsistent limit s
      → IsConsistent limit (cancel_request codec s params)
  unfolding cancel_request
  cancel_request-IsConsistent limit codec s params c =
      elim (Option-cases (codec.cancelled_id params)) [
        | inl e ↦ rw (cancel_request, e) c
        | inr (id, e) ↦ elim (Option-cases (token_of id s.in_flight)) [
          | inl k ↦ rw (cancel_request, e, k) c
          | inr (t, k) ↦
              rw (cancel_request, e, k)
                (record { bounded = c.bounded; distinct = c.distinct; same = c.same })
        ]
      ]

  spawn_silent-IsConsistent :
      (limit m : ℕ) (s : Server V) (request : Request V)
      → s.permits ≡ suc m
      → request.id ≡ none
      → IsConsistent limit s
      → IsConsistent limit (spawn s m request)
  spawn_silent-IsConsistent limit m s request p e c = record {
    bounded = omega (arith, c.bounded, p);
    distinct = rw e c.distinct;
    same = λ j. rw e (c.same j);
  }

  spawn_known-IsConsistent :
      (limit m : ℕ) (s : Server V) (request : Request V) (id : RequestId)
      → s.permits ≡ suc m
      → request.id ≡ some id
      → token_of id s.in_flight ≡ none
      → IsConsistent limit s
      → IsConsistent limit
          (spawn (record s { in_flight = (id, s.next_ticket) ∷ s.in_flight }) m request)
  spawn_known-IsConsistent limit m s request id p e k c = record {
    bounded = omega (arith, c.bounded, p);
    distinct = rw e ((λ n. token_of-known id s.in_flight k ((c.same id).1 n)), c.distinct);
    same = λ j. rw e (
      (λ n. elim n [ inl q ↦ inl q | inr q ↦ inr ((c.same j).0 q) ]),
      λ n. elim n [ inl q ↦ inl q | inr q ↦ inr ((c.same j).1 q) ],
    );
  }

  admit-IsConsistent :
      (limit : ℕ) (s : Server V) (request : Request V)
      → IsConsistent limit s
      → IsConsistent limit (admit s request)
  unfolding admit
  admit-IsConsistent limit s request c = elim (ℕ-cases s.permits) [
    | inl p ↦ elim (Option-cases request.id) [
      | inl e ↦ rw (admit, p, e) c
      | inr (id, e) ↦ rw (admit, p, e) (respond-IsConsistent limit s _ c)
    ]
    | inr (m, p) ↦ elim (Option-cases request.id) [
      | inl e ↦ rw (admit, p, e) (spawn_silent-IsConsistent limit m s request p e c)
      | inr (id, e) ↦ elim (Option-cases (token_of id s.in_flight)) [
        | inr (t, k) ↦ rw (admit, p, e, k) (respond-IsConsistent limit s _ c)
        | inl k ↦ rw (admit, p, e, k) (spawn_known-IsConsistent limit m s request id p e k c)
      ]
    ]
  ]

  dispatch-IsConsistent :
      (limit : ℕ) (codec : Codec V) (s : Server V) (request : Request V)
      → IsConsistent limit s
      → IsConsistent limit (dispatch codec s request)
  unfolding dispatch
  dispatch-IsConsistent limit codec s request c =
      if_either (IsConsistent limit) _ _ _ (respond-IsConsistent limit s _ c) (
        if_either (IsConsistent limit) _ _ _
          (cancel_request-IsConsistent limit codec s request.params c)
          (admit-IsConsistent limit s request c))

  pub receive-IsConsistent :
      (limit : ℕ) (codec : Codec V) (s : Server V) (bytes : Bytes)
      → IsConsistent limit s
      → IsConsistent limit (receive codec s bytes)
  unfolding receive
  receive-IsConsistent limit codec s bytes c = elim (Result-cases (codec.from_slice bytes)) [
    | inr (e, q) ↦ rw (receive, q) (respond-IsConsistent limit s _ c)
    | inl (v, q) ↦ elim (Result-cases (codec.request_of v)) [
      | inr (e, k) ↦ rw (receive, q, k) (respond-IsConsistent limit s _ c)
      | inl (request, k) ↦ rw (receive, q, k) (dispatch-IsConsistent limit codec s request c)
    ]
  ]
