-- ===== src/Error.antt =====
-- crates/s3pulse-core/src/error.rs: the errors of the object store, and how an AWS SDK failure is
-- put into one of the stable categories. An error is its `Display` text and those of its sources.
pub mod Classify
pub mod Io
mod Tests
use s3_pulse.Base.{
  Bool, true, false, Option, none, some, List, [], ◌∷◌, ◌++◌, any, if◌then◌else◌, unwrap_or,
}
use s3_pulse.Base.Text.{Text, codes, is_empty}
use s3_pulse.Base.Search.{has_infix, lower, trim}

pub data StoreErrorKind : Type 0 where
  authentication access_denied not_found network service_unavailable cancelled : StoreErrorKind
  already_exists invalid_response io other : StoreErrorKind

pub record StoreError : Type 0 where
  pub kind : StoreErrorKind
  pub message : Text
  pub retryable : Bool

abbrev pub new : StoreErrorKind → Text → Bool → StoreError
new kind message retryable = record { kind = kind; message = message; retryable = retryable }

abbrev pub cancelled_error : StoreError
cancelled_error = new cancelled (codes "operation cancelled") false

-- A source text is added unless the chain has it already.
abbrev pub link : Text → Text → Text
link chain text = if has_infix text chain then chain else chain ++ (codes ": " ++ text)

-- The walk down the source chain.
unfoldable pub extend_chain : Text → List Text → Text
extend_chain chain [] = chain
extend_chain chain (text ∷ rest) = extend_chain (link chain text) rest

abbrev pub contains_any : Text → List Text → Bool
contains_any haystack needles = any (λ needle. has_infix needle haystack) needles

abbrev pub authentication_words : List Text
authentication_words =
    codes "expiredtoken"
    ∷ codes "expired token"
    ∷ codes "invalidclienttokenid"
    ∷ codes "invalidaccesskeyid"
    ∷ codes "signaturedoesnotmatch"
    ∷ codes "tokenrefreshrequired"
    ∷ codes "unrecognizedclient"
    ∷ codes "credential"
    ∷ []

abbrev pub access_words : List Text
access_words =
    codes "accessdenied"
    ∷ codes "access denied"
    ∷ codes "forbidden"
    ∷ codes "allaccessdisabled"
    ∷ []

abbrev pub missing_words : List Text
missing_words =
    codes "nosuchbucket"
    ∷ codes "nosuchkey"
    ∷ codes "no such key"
    ∷ codes "not found"
    ∷ codes "notfound"
    ∷ []

abbrev pub network_words : List Text
network_words =
    codes "timeout"
    ∷ codes "dispatch failure"
    ∷ codes "connection"
    ∷ codes "connect"
    ∷ codes "dns"
    ∷ []

abbrev pub server_words : List Text
server_words =
    codes "internalerror"
    ∷ codes "internal error"
    ∷ codes "serviceunavailable"
    ∷ codes "service unavailable"
    ∷ codes "slowdown"
    ∷ codes "slow down"
    ∷ []

-- The ladder over the normalized text.
unfoldable pub classify : Text → StoreErrorKind × Bool
classify normalized =
    if contains_any normalized authentication_words
    then (authentication, false)
    else if contains_any normalized access_words
    then (access_denied, false)
    else if contains_any normalized missing_words
    then (not_found, false)
    else if contains_any normalized network_words
    then (network, true)
    else if contains_any normalized server_words
    then (service_unavailable, true)
    else (other, true)

abbrev pub normalize : Text → Text → Text
normalize code chain = lower (code ++ (codes " " ++ chain))

-- `service_message.map(str::trim).filter(|value| !value.is_empty()).unwrap_or(&chain)`.
unfoldable pub detail_of : Option Text → Text → Text
detail_of none chain = chain
detail_of (some text) chain = if is_empty (trim text) then chain else trim text

unfoldable pub aws : Text → Option Text → Option Text → Text → List Text → StoreError
unfolding extend_chain classify detail_of
aws operation code service_message display sources =
    let chain = extend_chain display sources in
    let code' = unwrap_or code [] in
    let (kind, retryable) = classify (normalize code' chain) in
    let detail = detail_of service_message chain in
    new kind
      (if is_empty code'
        then operation ++ (codes " failed: " ++ detail)
        else operation ++ (codes " failed: " ++ (code' ++ (codes ": " ++ detail))))
      retryable
