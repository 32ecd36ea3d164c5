-- ===== src/Service/Errors.antt =====
-- crates/s3pulse-cli/src/rpc/protocol.rs: the errors that the service and its runtime answer with.
-- `detail` is the JSON object that holds the text of an error.
use s3_pulse.Base.{◌++◌, none, some}
use s3_pulse.Base.Int.{ℤ, negsuc}
use s3_pulse.Base.Text.{Text, codes}
use s3_pulse.Error.{StoreError}
use s3_pulse.Transport.Serve.{ErrorObject}

-- `ErrorObject::new`; a negative code is given with the minus one that `negsuc` has.
abbrev pub object : {V : Type 0} → ℤ → Text → ErrorObject V
object code message = record { code = code; message = message; data_value = none }

-- `ErrorObject::with_data`.
abbrev pub with_data : {V : Type 0} → ErrorObject V → V → ErrorObject V
with_data error value = record error { data_value = some value }

abbrev pub method_not_found : {V : Type 0} → Text → ErrorObject V
method_not_found method = object (negsuc 32600) (codes "Method not found: " ++ method)

abbrev pub invalid_params : {V : Type 0} → (Text → V) → Text → ErrorObject V
invalid_params detail error =
    with_data (object (negsuc 32601) (codes "Invalid params")) (detail error)

abbrev pub internal : {V : Type 0} → (Text → V) → Text → ErrorObject V
internal detail error = with_data (object (negsuc 32602) (codes "Internal error")) (detail error)

abbrev pub backend : {V : Type 0} → (Text → V) → Text → ErrorObject V
backend detail error =
    with_data (object (negsuc 32009) (codes "S3 operation failed")) (detail error)

-- `ErrorObject::store`, with the JSON of the error.
abbrev pub store_failure : {V : Type 0} → (StoreError → V) → StoreError → ErrorObject V
store_failure json error = with_data (object (negsuc 32009) error.message) (json error)

abbrev pub watcher_not_found : {V : Type 0} → Text → ErrorObject V
watcher_not_found watcher_id = object (negsuc 32000) (codes "Watcher not found: " ++ watcher_id)

abbrev pub watcher_already_exists : {V : Type 0} → Text → ErrorObject V
watcher_already_exists watcher_id =
    object (negsuc 32001) (codes "Watcher already exists: " ++ watcher_id)

abbrev pub resource_limit : {V : Type 0} → ErrorObject V
resource_limit = object (negsuc 32002) (codes "Watcher limit reached (32)")
