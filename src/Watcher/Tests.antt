-- ===== src/Watcher/Tests.antt =====
-- Runs of the watcher on an ordinary target, and its theorems there.
use s3_pulse.Base.{true, ◌≡◌, refl, some, none, List, [], ◌∷◌, ◌++◌, ok, err, arith, ℕ, In}
use s3_pulse.Base.Int.{pos}
use s3_pulse.Base.Text.{codes}
use s3_pulse.Model.{S3Object, Instant}
use s3_pulse.Error.{StoreError, network}
use s3_pulse.Error
use s3_pulse.Uri.{S3Uri}
use s3_pulse.Template.{scan}
use s3_pulse.Template
use s3_pulse.Template.Resolve.{Calendar}
use s3_pulse.History.{upsert_many, objects, with_expected_interval}
use s3_pulse.History.Retention.{IsValid}
use s3_pulse.Watcher.{
  WatcherConfig, PollingWatcher, PollResult, WatcherEvent, started, stopped, Zones, new, validate,
  Lister, resolve_targets, list_targets, poll_once,
}
use s3_pulse.Watcher.Run.{Turn, round, ended, run, run_loop, stop}
use s3_pulse.Watcher.Polling.{poll_once-err, poll_once-IsValid, poll_once_again}
use s3_pulse.Watcher.Making.{new-IsValid}
use s3_pulse.Watcher.Events.{IsPolls, run_events}

abbrev config : WatcherConfig
config = record {
  id = codes "w";
  name = codes "feed";
  target = record { bucket = codes "b"; prefix = codes "p/" };
  profile = none;
  region = none;
  poll_interval_seconds = 30;
  expected_interval_seconds = none;
  max_history = 2;
  lookback_periods = 1;
  time_zone = none;
}

-- A target without placeholders never asks for a date.
abbrev fixed : Calendar ℕ (Unit {0})
fixed = record {
  year_of = λ t. pos 2026;
  month_of = λ t. 8;
  day_of = λ t. 12;
  hour_of = λ t. 0;
  minute_of = λ t. 0;
  second_of = λ t. 0;
  sub_hours = λ t n. some t;
  sub_days = λ t n. some t;
  date_time = λ y m d h minute second. none;
  naive_local = λ zone at. at;
}

abbrev zones : Zones (Unit {0})
zones = record { utc = tt; parse_zone = λ name. none }

abbrev watcher : PollingWatcher (Unit {0})
watcher = record {
  config = config;
  history = record { capacity = 2; expected_interval_seconds = none; by_key = [] };
  template = none;
  zone = tt;
}

made : new zones config ≡ ok watcher
unfolding new validate with_expected_interval Template.parse scan
made = refl

new-IsValid_example :
    (validate config ≡ ok tt)
    × (watcher.config ≡ config)
    × IsValid watcher.history
    × (watcher.history.capacity ≡ 2)
new-IsValid_example = new-IsValid zones config watcher made

valid : IsValid watcher.history
valid = record {
  positive = omega arith;
  cadence = refl;
  ordered = tt;
  keyed = tt;
  bounded = omega arith;
}

abbrev offline : StoreError
offline = Error.new network (codes "ListObjectsV2 failed: timeout") true

abbrev unreachable : Lister
unreachable target n = err offline

abbrev arrival : S3Object
arrival = record {
  key = codes "p/1";
  last_modified = 5;
  size = 1;
  etag = none;
  storage_class = none;
}

abbrev reachable : Lister
reachable target n = ok (arrival ∷ [])

failed : poll_once fixed unreachable 1 2 watcher ≡ some (err offline, watcher)
unfolding poll_once resolve_targets list_targets
failed = refl

poll_once-err_example :
    (watcher ≡ watcher)
    × ((targets : List S3Uri) × (target : S3Uri) × (resolve_targets fixed watcher 1 ≡ some targets)
        × In target targets
        × (unreachable target 2 ≡ err offline))
poll_once-err_example = poll_once-err fixed unreachable 1 2 watcher watcher offline failed

abbrev after : PollingWatcher (Unit {0})
after = record watcher { history = (upsert_many watcher.history (arrival ∷ [])).0 }

abbrev first : PollResult
first = record {
  polled_at = 2;
  listed_object_count = 1;
  update = (upsert_many watcher.history (arrival ∷ [])).1;
  snapshot_objects = objects (upsert_many watcher.history (arrival ∷ [])).0;
}

completed : poll_once fixed reachable 1 2 watcher ≡ some (ok first, after)
unfolding poll_once resolve_targets list_targets
completed = refl

poll_once-IsValid_example : IsValid after.history
poll_once-IsValid_example =
    poll_once-IsValid fixed reachable 1 2 watcher after (ok first) valid completed

same_targets : resolve_targets fixed after 31 ≡ resolve_targets fixed watcher 1
unfolding resolve_targets
same_targets = refl

poll_once_again_example :
    (result : PollResult) × (poll_once fixed reachable 31 32 after ≡ some (ok result, after))
    × (result.update ≡ record { changes = []; evicted = [] })
poll_once_again_example =
    poll_once_again fixed reachable 1 2 31 32 watcher after first valid completed same_targets

abbrev turns : List Turn
turns = round unreachable 1 2 3 none ∷ round reachable 1 2 3 (some 9) ∷ []

abbrev sent_events : List WatcherEvent
sent_events = (run fixed 9 0 none turns watcher).0

regular : run fixed 9 0 none turns watcher ≡ (sent_events, ended (ok tt), after)
unfolding run run_loop stop poll_once resolve_targets list_targets
regular = refl

run_events_example :
    ((polls : List WatcherEvent) × (id : List ℕ) × (stopped_at : Instant) × IsPolls polls
      × (sent_events ≡ started (codes "w") 0 ∷ (polls ++ stopped id stopped_at ∷ [])))
    × IsValid after.history
run_events_example = run_events fixed 9 0 none turns watcher after sent_events valid regular
