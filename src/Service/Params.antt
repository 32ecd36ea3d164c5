-- ===== src/Service/Params.antt =====
-- crates/s3pulse-cli/src/rpc/service.rs: the parameters and the results of the methods. H is the type
-- of a feed's health, V that of a JSON value.
use s3_pulse.Base.{ℕ, Bool, Option, List, unwrap_or}
use s3_pulse.Base.Text.{Text}

abbrev pub default_poll_interval_seconds : ℕ
default_poll_interval_seconds = 30

abbrev pub default_history_limit : ℕ
default_history_limit = 10000

abbrev pub max_history_limit : ℕ
max_history_limit = 10000

abbrev pub max_response_objects : ℕ
max_response_objects = 1000

abbrev pub default_lookback_periods : ℕ
default_lookback_periods = 1

pub record WatchDefinition : Type 0 where
  pub id : Option Text
  pub name : Option Text
  pub target : Text
  pub profile : Option Text
  pub region : Option Text
  pub poll_interval_seconds : ℕ
  pub expected_interval_seconds : Option ℕ
  pub history_limit : ℕ
  pub lookback_periods : ℕ
  pub time_zone : Option Text

-- The fields of a definition that a request has.
pub record GivenDefinition : Type 0 where
  pub id : Option Text
  pub name : Option Text
  pub target : Text
  pub profile : Option Text
  pub region : Option Text
  pub poll_interval_seconds : Option ℕ
  pub expected_interval_seconds : Option ℕ
  pub history_limit : Option ℕ
  pub lookback_periods : Option ℕ
  pub time_zone : Option Text

-- The defaults that the attributes of serde name.
unfoldable pub with_defaults : GivenDefinition → WatchDefinition
with_defaults given = record {
  id = given.id;
  name = given.name;
  target = given.target;
  profile = given.profile;
  region = given.region;
  poll_interval_seconds = unwrap_or given.poll_interval_seconds default_poll_interval_seconds;
  expected_interval_seconds = given.expected_interval_seconds;
  history_limit = unwrap_or given.history_limit default_history_limit;
  lookback_periods = unwrap_or given.lookback_periods default_lookback_periods;
  time_zone = given.time_zone;
}

pub record ObjectsListParams : Type 0 where
  pub watcher_id : Text
  pub limit : Option ℕ

pub record StatisticsHistoryParams : Type 0 where
  pub watcher_id : Text
  pub limit : Option ℕ

pub record ObjectDownloadParams (PathBuf : Type 0) : Type 0 where
  pub watcher_id : Text
  pub download_id : Option Text
  pub key : Text
  pub destination : PathBuf
  pub overwrite : Bool

pub data WatchState : Type 0 where
  starting running stopping stopped error : WatchState

pub record WatchStartResult : Type 0 where
  pub watcher_id : Text
  pub status : WatchState

pub record RequestCounts : Type 0 where
  pub list_requests : ℕ
  pub get_requests : ℕ

pub record WatcherStatus (H : Type 0) : Type 0 where
  pub watcher_id : Text
  pub name : Text
  pub target : Text
  pub status : WatchState
  pub object_count : ℕ
  pub request_counts : RequestCounts
  pub health : Option H
  pub last_poll_at : Option Text
  pub error : Option Text

pub record WatchStatusResult (H : Type 0) : Type 0 where
  pub watchers : List (WatcherStatus H)

pub record ObjectsListResult (V : Type 0) : Type 0 where
  pub watcher_id : Text
  pub objects : List V

pub record StatisticsResult (V : Type 0) : Type 0 where
  pub watcher_id : Text
  pub statistics : V
  pub request_counts : RequestCounts

pub record StatisticsHistoryResult (V : Type 0) : Type 0 where
  pub watcher_id : Text
  pub samples : List V

pub record Downloaded (PathBuf : Type 0) : Type 0 where
  pub watcher_id : Text
  pub download_id : Text
  pub destination : PathBuf
  pub bytes : ℕ
