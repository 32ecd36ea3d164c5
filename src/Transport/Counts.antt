-- ===== src/Transport/Counts.antt =====
-- The responses that the server writes, counted for each identifier, and those that a message demands.
use s3_pulse.Base.{
  ℕ, ◌+◌, ◌≡◌, if◌then◌else◌, Bool, not, ◌||◌, Option, none, some, List, [], ◌∷◌, ◌++◌, map, ok,
  err, arith, inl, inr, Bool-cases, ℕ-cases, Option-cases, Result-cases, unwrap_or,
}
use s3_pulse.Base.Text.{codes, same_text, is_empty}
use s3_pulse.Transport.{Bytes}
use s3_pulse.Transport.Serve.{
  RequestId, null, same_id, Request, Response, success, failure, Phase, running, finished, replied,
  Task, Server, Codec, token_of, receive, dispatch, admit, cancel_request,
}

-- The identifier that a response answers.
abbrev pub answered : {V : Type 0} → Response V → RequestId
answered (success id value) = id
answered (failure id error) = id

abbrev pub count : RequestId → List RequestId → ℕ
count id [] = 0
count id (other ∷ rest) = (if same_id id other then 1 else 0) + count id rest

-- A request with an identifier demands a response under it, a notification none.
abbrev pub owed_id : Option RequestId → List RequestId
owed_id none = []
owed_id (some id) = id ∷ []

abbrev pub is_invalid : {V : Type 0} → Request V → Bool
is_invalid request = not (same_text request.jsonrpc (codes "2.0")) || is_empty request.method

-- A request of another version or without a method demands one, under null if it has no identifier,
-- and so does a request with an identifier; `$/cancelRequest` does not, with an identifier or without.
abbrev pub owed_request : {V : Type 0} → Request V → List RequestId
owed_request request =
    if is_invalid request
    then unwrap_or request.id null ∷ []
    else if same_text request.method (codes "$/cancelRequest")
    then []
    else owed_id request.id

-- A line that is no request demands one under null.
unfoldable pub owed : {V : Type 0} → Codec V → Bytes → List RequestId
owed codec bytes = elim (codec.from_slice bytes) [
  | err e ↦ null ∷ []
  | ok value ↦ elim (codec.request_of value) [
    | err e ↦ null ∷ []
    | ok request ↦ owed_request request
  ]
]

abbrev pub open_of : {V : Type 0} → Phase V → Option RequestId → List RequestId
open_of running id = owed_id id
open_of (finished r) id = owed_id id
open_of replied id = []

-- The identifiers under which tasks have still to write a response.
abbrev pub pending : {V : Type 0} → List (Task V) → List RequestId
pending [] = []
pending (t ∷ ts) = open_of t.phase t.id ++ pending ts

-- The responses under an identifier, written or still to be written by a task.
abbrev pub answers : {V : Type 0} → RequestId → Server V → ℕ
answers id s = count id (map answered s.output) + count id (pending s.tasks)

pub count-append :
    (id : RequestId) (xs ys : List RequestId) → count id (xs ++ ys) ≡ count id xs + count id ys
count-append id [] ys = omega arith
count-append id (x ∷ xs) ys = omega (arith, count-append id xs ys)

pub count-output :
    {V : Type 0} (id : RequestId) (output : List (Response V)) (message : Response V)
    → count id (map answered (output ++ message ∷ []))
      ≡ count id (map answered output) + count id (answered message ∷ [])
count-output id [] message = omega arith
count-output id (x ∷ xs) message = omega (arith, count-output id xs message)

module _ {V : Type 0} where
  pub pending-append :
      (who : RequestId) (xs ys : List (Task V))
      → count who (pending (xs ++ ys)) ≡ count who (pending xs) + count who (pending ys)
  pending-append who [] ys = omega arith
  pending-append who (x ∷ xs) ys = omega (
    arith,
    pending-append who xs ys,
    count-append who (open_of x.phase x.id) (pending (xs ++ ys)),
    count-append who (open_of x.phase x.id) (pending xs),
  )

  pub answers-respond :
      (who : RequestId) (s : Server V) (message : Response V)
      → count who (map answered (s.output ++ message ∷ [])) + count who (pending s.tasks)
        ≡ answers who s + count who (answered message ∷ [])
  answers-respond who s message = omega (arith, count-output who s.output message)

  answers-admit :
      (who : RequestId) (s : Server V) (request : Request V)
      → answers who (admit s request) ≡ answers who s + count who (owed_id request.id)
  unfolding admit
  answers-admit who s request = elim (ℕ-cases s.permits) [
    | inl p ↦ elim (Option-cases request.id) [
      | inl e ↦ rw (admit, p, e) (omega arith)
      | inr (id, e) ↦ rw (admit, p, e) (answers-respond who s _)
    ]
    | inr (m, p) ↦ elim (Option-cases request.id) [
      | inl e ↦ rw (admit, p, e) (rw e (omega arith))
      | inr (id, e) ↦ elim (Option-cases (token_of id s.in_flight)) [
        | inr (t, k) ↦ rw (admit, p, e, k) (answers-respond who s _)
        | inl k ↦ rw (admit, p, e, k) (rw e (omega arith))
      ]
    ]
  ]

  answers-cancel_request :
      (who : RequestId) (codec : Codec V) (s : Server V) (params : V)
      → answers who (cancel_request codec s params) ≡ answers who s + 0
  unfolding cancel_request
  answers-cancel_request who codec s params = elim (Option-cases (codec.cancelled_id params)) [
    | inl e ↦ rw (cancel_request, e) (omega arith)
    | inr (id, e) ↦ elim (Option-cases (token_of id s.in_flight)) [
      | inl k ↦ rw (cancel_request, e, k) (omega arith)
      | inr (t, k) ↦ rw (cancel_request, e, k) (omega arith)
    ]
  ]

  answers-dispatch :
      (who : RequestId) (codec : Codec V) (s : Server V) (request : Request V)
      → answers who (dispatch codec s request) ≡ answers who s + count who (owed_request request)
  unfolding dispatch
  answers-dispatch who codec s request = elim (Bool-cases (is_invalid request)) [
    | inl e ↦ rw (dispatch, e) (answers-respond who s _)
    | inr e ↦ elim (Bool-cases (same_text request.method (codes "$/cancelRequest"))) [
      | inl k ↦ rw (dispatch, e, k) (answers-cancel_request who codec s request.params)
      | inr k ↦ rw (dispatch, e, k) (answers-admit who s request)
    ]
  ]

  pub answers-receive :
      (who : RequestId) (codec : Codec V) (s : Server V) (bytes : Bytes)
      → answers who (receive codec s bytes) ≡ answers who s + count who (owed codec bytes)
  unfolding receive owed
  answers-receive who codec s bytes = elim (Result-cases (codec.from_slice bytes)) [
    | inr (e, q) ↦ rw (receive, owed, q) (answers-respond who s _)
    | inl (v, q) ↦ elim (Result-cases (codec.request_of v)) [
      | inr (e, k) ↦ rw (receive, owed, q, k) (answers-respond who s _)
      | inl (request, k) ↦ rw (receive, owed, q, k) (answers-dispatch who codec s request)
    ]
  ]
