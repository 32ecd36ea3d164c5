-- ===== src/Watcher.antt =====
-- crates/s3pulse-core/src/watcher.rs: the polling watcher, with its configuration and its events of
-- crates/s3pulse-core/src/model.rs. The store, the calendar and the clock are parameters.
pub mod Run
pub mod Making
pub mod Polling
pub mod Events
mod Tests
use s3_pulse.Base.{
  ℕ, ◌==◌, Option, none, some, List, [], ◌∷◌, ◌++◌, map, length, Result, ok, err, ◌>>=◌, ◌>>◌,
  fail_if, map_err, is_some_and,
}
use s3_pulse.Base.Text.{Text, is_empty}
use s3_pulse.Base.Search.{trim}
use s3_pulse.Model.{
  Instant, S3Object, HistoryUpdate, ConfigError, empty_id, empty_name, zero_poll_interval,
  zero_expected_interval, zero_history_capacity,
}
use s3_pulse.Error.{StoreError}
use s3_pulse.Uri.{S3Uri}
use s3_pulse.Template.{DateTemplate, TemplateError, unknown_time_zone}
use s3_pulse.Template
use s3_pulse.Template.Resolve.{Calendar, resolve}
use s3_pulse.History.{RollingHistory, with_expected_interval, upsert_many, objects}

pub record WatcherConfig : Type 0 where
  pub id : Text
  pub name : Text
  pub target : S3Uri
  pub profile : Option Text
  pub region : Option Text
  pub poll_interval_seconds : ℕ
  pub expected_interval_seconds : Option ℕ
  pub max_history : ℕ
  pub lookback_periods : ℕ
  pub time_zone : Option Text

-- `DEFAULT_POLL_INTERVAL_SECONDS` and `DEFAULT_HISTORY_CAPACITY`.
abbrev pub default_poll_interval_seconds : ℕ
default_poll_interval_seconds = 30

abbrev pub default_history_capacity : ℕ
default_history_capacity = 10000

abbrev pub default_lookback_periods : ℕ
default_lookback_periods = 1

-- `WatcherConfig::new`.
unfoldable pub default_config : Text → Text → S3Uri → WatcherConfig
default_config id name target = record {
  id = id;
  name = name;
  target = target;
  profile = none;
  region = none;
  poll_interval_seconds = default_poll_interval_seconds;
  expected_interval_seconds = none;
  max_history = default_history_capacity;
  lookback_periods = default_lookback_periods;
  time_zone = none;
}

unfoldable pub validate : WatcherConfig → Result ConfigError (Unit {0})
validate config = do
  fail_if (is_empty (trim config.id)) empty_id
  fail_if (is_empty (trim config.name)) empty_name
  fail_if (config.poll_interval_seconds == 0) zero_poll_interval
  fail_if (is_some_and config.expected_interval_seconds (λ n. n == 0)) zero_expected_interval
  fail_if (config.max_history == 0) zero_history_capacity
  ok tt

pub data WatcherError : Type 0 where
  invalid_config : ConfigError → WatcherError
  invalid_template : TemplateError → WatcherError
  event_channel_closed : WatcherError

-- With the objects of the snapshot; its intervals and statistics are left out.
pub record PollResult : Type 0 where
  pub polled_at : Instant
  pub listed_object_count : ℕ
  pub update : HistoryUpdate
  pub snapshot_objects : List S3Object

pub data WatcherEvent : Type 0 where
  started : Text → Instant → WatcherEvent
  poll_completed : Text → PollResult → WatcherEvent
  poll_failed : Text → Instant → StoreError → WatcherEvent
  stopped : Text → Instant → WatcherEvent

pub record PollingWatcher (Z : Type 0) : Type 0 where
  pub config : WatcherConfig
  pub history : RollingHistory
  pub template : Option DateTemplate
  pub zone : Z

-- `name.parse::<Tz>()` of chrono-tz, with its zone of UTC.
pub record Zones (Z : Type 0) : Type 0 where
  pub utc : Z
  pub parse_zone : Text → Option Z

-- `ObjectStore::list_objects` during one poll.
abbrev pub Lister : Type 0
Lister = S3Uri → ℕ → Result StoreError (List S3Object)

-- The loop over the targets.
unfoldable pub list_targets :
    Lister → ℕ → List S3Uri → List S3Object → Result StoreError (List S3Object)
list_targets list_objects max_history [] objects = ok objects
list_targets list_objects max_history (target ∷ rest) objects = do
  listing ← list_objects target max_history
  list_targets list_objects max_history rest (objects ++ listing)

abbrev pub poll_result : Instant → List S3Object → RollingHistory → HistoryUpdate → PollResult
poll_result polled_at listed history update = record {
  polled_at = polled_at;
  listed_object_count = length listed;
  update = update;
  snapshot_objects = objects history;
}

module _ {Z : Type 0} where
  abbrev pub parse_time_zone : Zones Z → Text → Result TemplateError Z
  parse_time_zone zones name = elim (zones.parse_zone name) [
    | none ↦ err (unknown_time_zone name)
    | some zone ↦ ok zone
  ]

  abbrev pub zone_of : Zones Z → Option Text → Result TemplateError Z
  zone_of zones none = ok zones.utc
  zone_of zones (some name) = parse_time_zone zones name

  unfoldable pub new : Zones Z → WatcherConfig → Result WatcherError (PollingWatcher Z)
  new zones config = do
    map_err invalid_config (validate config)
    history ←
        map_err invalid_config
          (with_expected_interval config.max_history config.expected_interval_seconds)
    template ← map_err invalid_template (Template.parse config.target.prefix)
    zone ← map_err invalid_template (zone_of zones config.time_zone)
    ok (record { config = config; history = history; template = template; zone = zone })

  module _ {T : Type 0} (calendar : Calendar T Z) where
    unfoldable pub resolve_targets : PollingWatcher Z → Instant → Option (List S3Uri)
    resolve_targets watcher at = elim watcher.template [
      | none ↦ some (watcher.config.target ∷ [])
      | some template ↦
          elim (resolve calendar template at watcher.config.lookback_periods watcher.zone) [
            | none ↦ none
            | some prefixes ↦ some (
                map (λ prefix. record { bucket = watcher.config.target.bucket; prefix = prefix })
                  prefixes)
          ]
    ]

    -- The poll at the times `start` and `polled_at`: its outcome, and the watcher after it. `none` is
    -- a panic of the calendar.
    unfoldable pub poll_once :
        Lister
        → Instant
        → Instant
        → PollingWatcher Z
        → Option (Result StoreError PollResult × PollingWatcher Z)
    poll_once list_objects start polled_at watcher = elim (resolve_targets watcher start) [
      | none ↦ none
      | some targets ↦ elim (list_targets list_objects watcher.config.max_history targets []) [
        | err e ↦ some (err e, watcher)
        | ok listed ↦
            let (history, update) = upsert_many watcher.history listed in
            some (
              ok (poll_result polled_at listed history update),
              record watcher { history = history },
            )
      ]
    ]
