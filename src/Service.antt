-- ===== src/Service.antt =====
-- crates/s3pulse-cli/src/rpc/service.rs: the methods of the JSON-RPC service over a runtime, which
-- is a parameter, like the JSON codec and the emptiness of a path.
pub mod Errors
pub mod Params
pub mod Checks
pub mod Methods
mod Tests
use s3_pulse.Base.{
  ℕ, ◌==◌, ltb, if◌then◌else◌, Bool, Option, none, some, List, [], ◌∷◌, Result, ok, err, ◌>>=◌,
  ◌>>◌, fail_if, map_err, unwrap_or, is_some_and,
}
use s3_pulse.Base.Text.{Text, codes, same_text, is_empty}
use s3_pulse.Base.Search.{trim}
use s3_pulse.Transport.Serve.{ErrorObject}
use s3_pulse.Service.Errors.{method_not_found, invalid_params, internal}
use s3_pulse.Service.Params.{
  WatchDefinition, GivenDefinition, with_defaults, ObjectsListParams, StatisticsHistoryParams,
  ObjectDownloadParams, WatchStartResult, WatchStatusResult, ObjectsListResult, StatisticsResult,
  StatisticsHistoryResult, Downloaded, max_history_limit, max_response_objects,
}

-- The trait `ServiceRuntime`, over the state S of the runtime.
pub record ServiceRuntime (S V H PathBuf : Type 0) : Type 0 where
  pub watch_start : WatchDefinition → S → Result (ErrorObject V) WatchStartResult × S
  pub watch_stop : Text → S → Result (ErrorObject V) WatchStartResult × S
  pub watch_status : Option Text → S → Result (ErrorObject V) (WatchStatusResult H) × S
  pub objects_list : Text → Option ℕ → S → Result (ErrorObject V) (ObjectsListResult V) × S
  pub statistics_frequency : Text → S → Result (ErrorObject V) (StatisticsResult V) × S
  pub statistics_history :
      Text → Option ℕ → S → Result (ErrorObject V) (StatisticsHistoryResult V) × S
  pub object_download :
      ObjectDownloadParams PathBuf → S → Result (ErrorObject V) (Downloaded PathBuf) × S

-- What serde reads the parameters as and writes the results as, and the value of `system.version`
-- for the methods that it lists.
pub record ServiceCodec (V H PathBuf : Type 0) : Type 0 where
  pub detail : Text → V
  pub is_null : V → Bool
  pub watch_start_params : V → Result Text GivenDefinition
  pub watcher_id_params : V → Result Text Text
  pub watch_status_params : V → Result Text (Option Text)
  pub objects_list_params : V → Result Text ObjectsListParams
  pub statistics_history_params : V → Result Text StatisticsHistoryParams
  pub object_download_params : V → Result Text (ObjectDownloadParams PathBuf)
  pub is_empty_path : PathBuf → Bool
  pub of_version : List Text → V
  pub of_start : WatchStartResult → Result Text V
  pub of_status : WatchStatusResult H → Result Text V
  pub of_objects : ObjectsListResult V → Result Text V
  pub of_statistics : StatisticsResult V → Result Text V
  pub of_history : StatisticsHistoryResult V → Result Text V
  pub of_download : Downloaded PathBuf → Result Text V

-- The methods that `system.version` lists.
abbrev pub methods : List Text
methods =
    codes "system.version"
    ∷ codes "watch.start"
    ∷ codes "watch.stop"
    ∷ codes "watch.status"
    ∷ codes "objects.list"
    ∷ codes "statistics.frequency"
    ∷ codes "statistics.history"
    ∷ codes "object.download"
    ∷ []

-- What an arm of `handle` asks for, once its parameters are read and checked.
pub data Call (PathBuf : Type 0) : Type 0 where
  version : Call PathBuf
  start : WatchDefinition → Call PathBuf
  stop : Text → Call PathBuf
  status : Option Text → Call PathBuf
  list : Text → ℕ → Call PathBuf
  frequency : Text → Call PathBuf
  history : Text → ℕ → Call PathBuf
  download : ObjectDownloadParams PathBuf → Call PathBuf

module _ {V H PathBuf : Type 0} (codec : ServiceCodec V H PathBuf) where
  abbrev pub bad : Text → ErrorObject V
  bad error = invalid_params codec.detail error

  unfoldable pub validate : WatchDefinition → Result (ErrorObject V) (Unit {0})
  validate definition = do
    fail_if (is_empty (trim definition.target)) (bad (codes "watcher.target cannot be empty"))
    fail_if (definition.poll_interval_seconds == 0)
        (bad (codes "watcher.pollIntervalSeconds must be greater than zero"))
    fail_if (definition.history_limit == 0)
        (bad (codes "watcher.historyLimit must be greater than zero"))
    fail_if (ltb max_history_limit definition.history_limit)
        (bad (codes "watcher.historyLimit cannot exceed 10000"))
    fail_if (is_some_and definition.id (λ id. is_empty (trim id)))
        (bad (codes "watcher.id cannot be empty"))
    fail_if (is_some_and definition.expected_interval_seconds (λ seconds. seconds == 0))
        (bad (codes "watcher.expectedIntervalSeconds must be greater than zero"))
    ok tt

  unfoldable pub validate_watcher_id : Text → Result (ErrorObject V) (Unit {0})
  validate_watcher_id watcher_id =
      fail_if (is_empty (trim watcher_id)) (bad (codes "watcherId cannot be empty"))

  unfoldable pub validate_limit : ℕ → Result (ErrorObject V) (Unit {0})
  validate_limit limit = do
    fail_if (limit == 0) (bad (codes "limit must be greater than zero"))
    fail_if (ltb max_response_objects limit) (bad (codes "limit cannot exceed 1000"))
    ok tt

  abbrev pub parse_params : {T : Type 0} → (V → Result Text T) → V → Result (ErrorObject V) T
  parse_params read params = map_err (invalid_params codec.detail) (read params)

  abbrev pub parse_params_or_default :
      {T : Type 0} → T → (V → Result Text T) → V → Result (ErrorObject V) T
  parse_params_or_default default read params =
      if codec.is_null params then ok default else parse_params read params

  abbrev pub to_value : {T : Type 0} → (T → Result Text V) → T → Result (ErrorObject V) V
  to_value write value = map_err (internal codec.detail) (write value)

  unfoldable pub read_start : V → Result (ErrorObject V) (Call PathBuf)
  unfolding validate
  read_start params = do
    given ← parse_params codec.watch_start_params params
    validate (with_defaults given)
    ok (start (with_defaults given))

  unfoldable pub read_stop : V → Result (ErrorObject V) (Call PathBuf)
  unfolding validate_watcher_id
  read_stop params = do
    watcher_id ← parse_params codec.watcher_id_params params
    validate_watcher_id watcher_id
    ok (stop watcher_id)

  -- A check of an identifier, where there is one.
  abbrev pub validate_some_id : Option Text → Result (ErrorObject V) (Unit {0})
  validate_some_id none = ok tt
  validate_some_id (some watcher_id) = validate_watcher_id watcher_id

  unfoldable pub read_status : V → Result (ErrorObject V) (Call PathBuf)
  unfolding validate_watcher_id
  read_status params = do
    watcher_id ← parse_params_or_default none codec.watch_status_params params
    validate_some_id watcher_id
    ok (status watcher_id)

  unfoldable pub read_list : V → Result (ErrorObject V) (Call PathBuf)
  unfolding validate_watcher_id validate_limit
  read_list params = do
    read ← parse_params codec.objects_list_params params
    validate_watcher_id read.watcher_id
    validate_limit (unwrap_or read.limit max_response_objects)
    ok (list read.watcher_id (unwrap_or read.limit max_response_objects))

  unfoldable pub read_frequency : V → Result (ErrorObject V) (Call PathBuf)
  unfolding validate_watcher_id
  read_frequency params = do
    watcher_id ← parse_params codec.watcher_id_params params
    validate_watcher_id watcher_id
    ok (frequency watcher_id)

  unfoldable pub read_history : V → Result (ErrorObject V) (Call PathBuf)
  unfolding validate_watcher_id validate_limit
  read_history params = do
    read ← parse_params codec.statistics_history_params params
    validate_watcher_id read.watcher_id
    validate_limit (unwrap_or read.limit max_response_objects)
    ok (history read.watcher_id (unwrap_or read.limit max_response_objects))

  unfoldable pub read_download : V → Result (ErrorObject V) (Call PathBuf)
  unfolding validate_watcher_id
  read_download params = do
    read ← parse_params codec.object_download_params params
    validate_watcher_id read.watcher_id
    fail_if (is_empty (trim read.key)) (bad (codes "key cannot be empty"))
    fail_if (is_some_and read.download_id (λ id. is_empty (trim id)))
        (bad (codes "downloadId cannot be empty"))
    fail_if (codec.is_empty_path read.destination) (bad (codes "destination cannot be empty"))
    ok (download read)

  -- The match on the name of the method.
  unfoldable pub read_call : Text → V → Result (ErrorObject V) (Call PathBuf)
  unfolding read_start read_stop read_status read_list read_frequency read_history read_download
  read_call method params =
      if same_text method (codes "system.version")
      then ok version
      else if same_text method (codes "watch.start")
      then read_start params
      else if same_text method (codes "watch.stop")
      then read_stop params
      else if same_text method (codes "watch.status")
      then read_status params
      else if same_text method (codes "objects.list")
      then read_list params
      else if same_text method (codes "statistics.frequency")
      then read_frequency params
      else if same_text method (codes "statistics.history")
      then read_history params
      else if same_text method (codes "object.download")
      then read_download params
      else err (method_not_found method)

  module _ {S : Type 0} (runtime : ServiceRuntime S V H PathBuf) where
    -- The result of the runtime as a JSON value.
    abbrev pub answered :
        {T : Type 0}
        → (T → Result Text V)
        → Result (ErrorObject V) T × S
        → Result (ErrorObject V) V × S
    answered write (r, s) = (r >>= to_value write, s)

    unfoldable pub perform : Call PathBuf → S → Result (ErrorObject V) V × S
    perform version s = (ok (codec.of_version methods), s)
    perform (start definition) s = answered codec.of_start (runtime.watch_start definition s)
    perform (stop watcher_id) s = answered codec.of_start (runtime.watch_stop watcher_id s)
    perform (status watcher_id) s = answered codec.of_status (runtime.watch_status watcher_id s)
    perform (list watcher_id limit) s =
        answered codec.of_objects (runtime.objects_list watcher_id (some limit) s)
    perform (frequency watcher_id) s =
        answered codec.of_statistics (runtime.statistics_frequency watcher_id s)
    perform (history watcher_id limit) s =
        answered codec.of_history (runtime.statistics_history watcher_id (some limit) s)
    perform (download params) s = answered codec.of_download (runtime.object_download params s)

    abbrev pub proceed : Result (ErrorObject V) (Call PathBuf) → S → Result (ErrorObject V) V × S
    proceed (err e) s = (err e, s)
    proceed (ok call) s = perform call s

    unfoldable pub handle : Text → V → S → Result (ErrorObject V) V × S
    unfolding read_call perform
    handle method params s = proceed (read_call method params) s
