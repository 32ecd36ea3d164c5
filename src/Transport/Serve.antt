-- ===== src/Transport/Serve.antt =====
-- crates/s3pulse-cli/src/rpc/transport.rs: the loop of `serve_with_limit` and the tasks that it
-- spawns, as steps of one state, with crates/s3pulse-cli/src/rpc/protocol.rs. The JSON codec is a
-- parameter; the writer takes every message, and what a handler does is open: any result may come.
use s3_pulse.Base.{
  ℕ, zero, suc, ◌==◌, if◌then◌else◌, Bool, true, false, not, ◌||◌, Option, none, some, List, [],
  ◌∷◌, ◌++◌, Result, ok, err, unwrap_or, keep, max,
}
use s3_pulse.Base.Int.{ℤ, pos, negsuc}
use s3_pulse.Base.Text.{Text, codes, same_text, is_empty}
use s3_pulse.Transport.{Bytes}

pub data RequestId : Type 0 where
  number : ℤ → RequestId
  string : Text → RequestId
  null : RequestId

abbrev same_int : ℤ → ℤ → Bool
same_int (pos a) (pos b) = a == b
same_int (pos a) (negsuc b) = false
same_int (negsuc a) (pos b) = false
same_int (negsuc a) (negsuc b) = a == b

-- The derived `PartialEq`.
unfoldable pub same_id : RequestId → RequestId → Bool
same_id (number a) (number b) = same_int a b
same_id (number a) (string t) = false
same_id (number a) null = false
same_id (string s) (number b) = false
same_id (string s) (string t) = same_text s t
same_id (string s) null = false
same_id null (number b) = false
same_id null (string t) = false
same_id null null = true

pub record ErrorObject (V : Type 0) : Type 0 where
  pub code : ℤ
  pub message : Text
  pub data_value : Option V

pub record Request (V : Type 0) : Type 0 where
  pub jsonrpc : Text
  pub id : Option RequestId
  pub method : Text
  pub params : V

-- A response, with the identifier that it answers.
pub data Response (V : Type 0) : Type 0 where
  success : RequestId → V → Response V
  failure : RequestId → ErrorObject V → Response V

-- How far a task is: the handler runs, the permit is dropped, the response is written.
pub data Phase (V : Type 0) : Type 0 where
  running : Phase V
  finished : Result (ErrorObject V) V → Phase V
  replied : Phase V

pub record Task (V : Type 0) : Type 0 where
  pub ticket : ℕ
  pub id : Option RequestId
  pub method : Text
  pub params : V
  pub phase : Phase V

-- `in_flight` holds the token of each identifier, `cancelled` the tokens that are cancelled.
pub record Server (V : Type 0) : Type 0 where
  pub in_flight : List (RequestId × ℕ)
  pub cancelled : List ℕ
  pub permits : ℕ
  pub next_ticket : ℕ
  pub tasks : List (Task V)
  pub output : List (Response V)

-- The JSON codec of serde: reading a value, reading a request and the parameters of
-- `$/cancelRequest` from a value, and the object that holds the text of an error.
pub record Codec (V : Type 0) : Type 0 where
  pub from_slice : Bytes → Result Text V
  pub request_of : V → Result Text (Request V)
  pub cancelled_id : V → Option RequestId
  pub detail : Text → V

-- With the minus one that `negsuc` has.
abbrev pub invalid_request : {V : Type 0} → Text → ErrorObject V
invalid_request message = record { code = negsuc 32599; message = message; data_value = none }

abbrev pub parse_error : {V : Type 0} → V → ErrorObject V
parse_error detail = record {
  code = negsuc 32699;
  message = codes "Parse error";
  data_value = some detail;
}

abbrev pub server_busy : {V : Type 0} → ErrorObject V
server_busy = record {
  code = negsuc 31999;
  message = codes "Too many concurrent requests";
  data_value = none;
}

abbrev pub request_cancelled : {V : Type 0} → ErrorObject V
request_cancelled = record {
  code = negsuc 32799;
  message = codes "Request cancelled";
  data_value = none;
}

abbrev pub token_of : RequestId → List (RequestId × ℕ) → Option ℕ
token_of id [] = none
token_of id ((other, ticket) ∷ rest) = if same_id id other then some ticket else token_of id rest

-- `in_flight.remove(&id)`.
abbrev pub without : RequestId → List (RequestId × ℕ) → List (RequestId × ℕ)
without id = keep (λ e. not (same_id id e.0))

module _ {V : Type 0} where
  abbrev pub new : ℕ → Server V
  new max_concurrent_requests = record {
    in_flight = [];
    cancelled = [];
    permits = max max_concurrent_requests 1;
    next_ticket = 0;
    tasks = [];
    output = [];
  }

  abbrev pub respond : Server V → Response V → Server V
  respond s message = record s { output = s.output ++ message ∷ [] }

  unfoldable pub cancel_request : Codec V → Server V → V → Server V
  cancel_request codec s params = elim (codec.cancelled_id params) [
    | none ↦ s
    | some id ↦ elim (token_of id s.in_flight) [
      | none ↦ s
      | some ticket ↦ record s { cancelled = ticket ∷ s.cancelled }
    ]
  ]

  abbrev pub task_of : ℕ → Request V → Task V
  task_of ticket request = record {
    ticket = ticket;
    id = request.id;
    method = request.method;
    params = request.params;
    phase = running;
  }

  -- The spawn, with the permit that is taken.
  abbrev pub spawn : Server V → ℕ → Request V → Server V
  spawn s permits request = record s {
    permits = permits;
    next_ticket = suc s.next_ticket;
    tasks = task_of s.next_ticket request ∷ s.tasks;
  }

  -- From `try_acquire_owned` on. A permit that is not handed to a task is dropped again.
  unfoldable pub admit : Server V → Request V → Server V
  admit s request = elim s.permits [
    | zero ↦ elim request.id [ none ↦ s | some id ↦ respond s (failure id server_busy) ]
    | suc permits ↦ elim request.id [
      | none ↦ spawn s permits request
      | some id ↦ elim (token_of id s.in_flight) [
        | some other ↦
            respond s (failure id (invalid_request (codes "Request ID is already in flight")))
        | none ↦ spawn (record s { in_flight = (id, s.next_ticket) ∷ s.in_flight }) permits request
      ]
    ]
  ]

  unfoldable pub dispatch : Codec V → Server V → Request V → Server V
  unfolding admit cancel_request
  dispatch codec s request =
      if not (same_text request.jsonrpc (codes "2.0")) || is_empty request.method
      then respond s (
          failure (unwrap_or request.id null)
            (invalid_request (codes "Expected a JSON-RPC 2.0 request")))
      else if same_text request.method (codes "$/cancelRequest")
      then cancel_request codec s request.params
      else admit s request

  -- One round of the loop, for a line that is not the end of the input.
  unfoldable pub receive : Codec V → Server V → Bytes → Server V
  unfolding dispatch
  receive codec s line = elim (codec.from_slice line) [
    | err e ↦ respond s (failure null (parse_error (codec.detail e)))
    | ok value ↦ elim (codec.request_of value) [
      | err e ↦ respond s (
          failure null (record (invalid_request (codes "Invalid JSON-RPC request")) {
            data_value = some (codec.detail e);
          }))
      | ok request ↦ dispatch codec s request
    ]
  ]

  abbrev pub refuse_line : Server V → Server V
  refuse_line s =
      respond s (failure null (invalid_request (codes "Request exceeds maximum line length")))
