-- ===== src/Runtime.antt =====
-- crates/s3pulse-cli/src/rpc/runtime.rs: the registry of watchers of `CoreRuntime`. The map is a list
-- of entries in no particular order. A critical section is a function on the map, and what other
-- requests do to it between two sections is an argument.
pub mod Values
pub mod Queries
pub mod Relay
pub mod Relaying
pub mod Polling
pub mod Registry
pub mod Interleaving
pub mod Starting
pub mod Targets
pub mod Batches
pub mod Told
pub mod Listing
mod Tests
use s3_pulse.Base.{
  ℕ, ◌==◌, leb, if◌then◌else◌, Bool, true, false, not, Option, none, some, List, [], ◌∷◌, ◌++◌, map,
  Result, ok, err, ◌>>=◌, ◌>>◌, fail_if, map_err, unwrap_or, or_else, is_some_and, length, keep,
}
use s3_pulse.Base.Text.{Text, codes, same_text, is_empty}
use s3_pulse.Base.Search.{starts_with}
use s3_pulse.Uri.{S3Uri, UriParseError}
use s3_pulse.Uri
use s3_pulse.Template.{DateTemplate, matches}
use s3_pulse.Watcher.{WatcherConfig, WatcherError, PollingWatcher, Zones}
use s3_pulse.Watcher
use s3_pulse.Transport.Serve.{ErrorObject, request_cancelled}
use s3_pulse.Service.Errors.{
  invalid_params, backend, watcher_not_found, watcher_already_exists, resource_limit,
}
use s3_pulse.Service.Params.{WatchDefinition, running, stopped, WatchStartResult}
use s3_pulse.Runtime.Values.{StatusData, WatchSession}

abbrev pub max_concurrent_watchers : ℕ
max_concurrent_watchers = 32

abbrev pub Watchers : Type 0 → Type 0
Watchers St = List (Text × WatchSession St)

-- `ErrorObject::invalid_params` of an error's Display text, and the texts of a bad URI.
unfoldable pub uri_error_text : UriParseError → Text
uri_error_text Uri.invalid_scheme = codes "S3 URI must start with s3://"
uri_error_text Uri.missing_bucket = codes "S3 URI is missing a bucket name"
uri_error_text (Uri.invalid_bucket bucket) = codes "invalid S3 bucket name: " ++ bucket
uri_error_text Uri.invalid_key = codes "S3 object key/prefix contains a control character"

-- `key_within_target`.
unfoldable pub key_within_target : S3Uri → Option DateTemplate → Text → Bool
key_within_target target none key =
    if is_empty target.prefix then true else starts_with target.prefix key
key_within_target target (some template) key = matches template key

module _ {St : Type 0} where
  unfoldable pub lookup : Text → Watchers St → Option (WatchSession St)
  lookup id [] = none
  lookup id ((other, session) ∷ rest) = if same_text id other then some session else lookup id rest

  -- `CoreRuntime::session`.
  abbrev pub found :
      {V : Type 0} → Text → Option (WatchSession St) → Result (ErrorObject V) (WatchSession St)
  found id none = err (watcher_not_found id)
  found id (some session) = ok session

  -- The two checks of `watch_start`, made under the read lock and again under the write lock.
  unfoldable pub admit : {V : Type 0} → Text → Watchers St → Result (ErrorObject V) (Unit {0})
  unfolding lookup
  admit id watchers = do
    fail_if (is_some_and (lookup id watchers) (λ session. true)) (watcher_already_exists id)
    fail_if (leb max_concurrent_watchers (length watchers)) resource_limit
    ok tt

  -- The section under the write lock.
  abbrev pub insert_admitted :
      {V : Type 0}
      → Result (ErrorObject V) (Unit {0})
      → WatchSession St
      → Watchers St
      → Result (ErrorObject V) (Unit {0}) × Watchers St
  insert_admitted (err e) session watchers = (err e, watchers)
  insert_admitted (ok u) session watchers = (ok tt, (session.id, session) ∷ watchers)

  unfoldable pub register :
      {V : Type 0} → WatchSession St → Watchers St → Result (ErrorObject V) (Unit {0}) × Watchers St
  unfolding admit
  register session watchers = insert_admitted (admit session.id watchers) session watchers

  -- `watchers.remove`, where the entry is still the session in hand.
  unfoldable pub remove_same : WatchSession St → Watchers St → Watchers St
  unfolding lookup
  remove_same session watchers =
      if is_some_and (lookup session.id watchers) (λ current. current.serial == session.serial)
      then keep (λ e. not (same_text session.id e.0)) watchers
      else watchers

  -- A write through the shared session, seen in the map wherever it still stands there.
  unfoldable pub update : ℕ → (WatchSession St → WatchSession St) → Watchers St → Watchers St
  update serial change watchers =
      map (λ e. (e.0, if (e.1).serial == serial then change e.1 else e.1)) watchers

abbrev pub new_status : StatusData
new_status = record { state = running; last_poll_at = none; error = none }

-- What a start finds outside the registry: the identifier of `Uuid::new_v4`, the answer of the store
-- factory, the identity of the session, and whether the request is cancelled at each of the places
-- that ask.
pub record StartContext : Type 0 where
  pub uuid : Text
  pub store : Option Text → Option Text → Result Text (Unit {0})
  pub serial : ℕ
  pub cancelled_before : Bool
  pub cancelled_after_store : Bool
  pub cancelled_after_spawn : Bool

-- The fields of `CoreRuntime` beside the map.
pub record Defaults : Type 0 where
  pub default_profile : Option Text
  pub default_region : Option Text

unfoldable pub config_of : Defaults → WatchDefinition → Text → S3Uri → WatcherConfig
config_of defaults definition watcher_id target = record {
  id = watcher_id;
  name = unwrap_or definition.name (Uri.display target);
  target = target;
  profile = or_else definition.profile defaults.default_profile;
  region = or_else definition.region defaults.default_region;
  poll_interval_seconds = definition.poll_interval_seconds;
  expected_interval_seconds = definition.expected_interval_seconds;
  max_history = definition.history_limit;
  lookback_periods = definition.lookback_periods;
  time_zone = definition.time_zone;
}

module _ {V St : Type 0} where
  -- What follows the section under the write lock.
  abbrev pub started :
      StartContext
      → (Watchers St → Watchers St)
      → WatchSession St
      → Result (ErrorObject V) (Unit {0}) × Watchers St
      → Result (ErrorObject V) WatchStartResult × Watchers St
  started context others session (err e, watchers) = (err e, watchers)
  started context others session (ok u, watchers) =
      if context.cancelled_after_spawn
      then (err request_cancelled, remove_same session (others watchers))
      else (ok (record { watcher_id = session.id; status = running }), others watchers)

  abbrev pub enrol :
      StartContext
      → (Watchers St → Watchers St)
      → (Watchers St → Watchers St)
      → Result (ErrorObject V) (WatchSession St)
      → Watchers St
      → Result (ErrorObject V) WatchStartResult × Watchers St
  enrol context before after (err e) watchers = (err e, before watchers)
  enrol context before after (ok session) watchers =
      started context after session (register session (before watchers))

module _ {V Z St : Type 0} (detail : Text → V) (show : WatcherError → Text) (zones : Zones Z)
    (defaults : Defaults) where
  abbrev pub session_of : StartContext → WatcherConfig → PollingWatcher Z → WatchSession St
  session_of context config watcher = record {
    serial = context.serial;
    id = config.id;
    name = config.name;
    target = config.target;
    target_display = Uri.display config.target;
    template = watcher.template;
    snapshot = none;
    cancelled = false;
    status = new_status;
  }

  -- `watch_start` up to the write lock.
  unfoldable pub prepare :
      WatchDefinition → StartContext → Watchers St → Result (ErrorObject V) (WatchSession St)
  unfolding admit config_of
  prepare definition context watchers = do
    fail_if context.cancelled_before request_cancelled
    admit (unwrap_or definition.id context.uuid) watchers
    target ← map_err (λ e. invalid_params detail (uri_error_text e)) (Uri.parse definition.target)
    map_err (backend detail) (
        context.store (or_else definition.profile defaults.default_profile)
          (or_else definition.region defaults.default_region))
    fail_if context.cancelled_after_store request_cancelled
    watcher ←
        map_err (λ e. invalid_params detail (show e))
          (Watcher.new zones
            (config_of defaults definition (unwrap_or definition.id context.uuid) target))
    ok (
        session_of context
          (config_of defaults definition (unwrap_or definition.id context.uuid) target) watcher)

  -- `before` is what other requests do up to the write lock, `after` what they do behind it.
  unfoldable pub watch_start :
      WatchDefinition
      → StartContext
      → (Watchers St → Watchers St)
      → (Watchers St → Watchers St)
      → Watchers St
      → Result (ErrorObject V) WatchStartResult × Watchers St
  unfolding prepare register remove_same
  watch_start definition context before after watchers =
      enrol context before after (prepare definition context watchers) watchers

module _ {St : Type 0} where
  abbrev pub stop_session : WatchSession St → WatchSession St
  stop_session session = record session {
    cancelled = true;
    status = record (session.status) { state = stopped };
  }

  abbrev pub stop_found :
      {V : Type 0}
      → Text
      → (Watchers St → Watchers St)
      → Result (ErrorObject V) (WatchSession St)
      → Watchers St
      → Result (ErrorObject V) WatchStartResult × Watchers St
  stop_found watcher_id others (err e) watchers = (err e, watchers)
  stop_found watcher_id others (ok session) watchers = (
    ok (record { watcher_id = watcher_id; status = stopped }),
    remove_same session (others (update session.serial stop_session watchers)),
  )

  -- `others` is what happens while the task is awaited and the notification sent.
  unfoldable pub watch_stop :
      {V : Type 0}
      → Text
      → (Watchers St → Watchers St)
      → Watchers St
      → Result (ErrorObject V) WatchStartResult × Watchers St
  unfolding lookup update remove_same
  watch_stop watcher_id others watchers =
      stop_found watcher_id others (found watcher_id (lookup watcher_id watchers)) watchers
