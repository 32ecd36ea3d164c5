-- ===== src/Runtime/Tests.antt =====
-- A registry with one session, and the theorems on it.
use s3_pulse.Base.{
  ℕ, ◌≡◌, ◌-◌, inl, refl, subst, min, true, false, none, some, List, [], ◌∷◌, Result, ok, err,
  length, arith, In, take, drop, last?,
}
use s3_pulse.Base.Text.{Text, codes}
use s3_pulse.Base.Sort.{is_le, sort_by, place, IsSorted}
use s3_pulse.Model.{S3Object, added}
use s3_pulse.Error.{StoreError, cancelled_error}
use s3_pulse.Transport.Serve.{ErrorObject}
use s3_pulse.Service.Params.{WatchDefinition, WatchStartResult, running, ObjectsListResult}
use s3_pulse.Uri.{S3Uri}
use s3_pulse.Template.Resolve.{step_back, resolve}
use s3_pulse.Template.Matching.{IsRenderable}
use s3_pulse.Template.Tests.{gregorian, monthly, end_of_march, end_of_march-IsRenderable}
use s3_pulse.History.{newest_first, oldest_first}
use s3_pulse.Runtime.Targets.{IsRenderable?, key_within_target-resolve_targets}
use s3_pulse.Watcher.{WatcherError, Zones, PollingWatcher, resolve_targets}
use s3_pulse.Runtime.Values.{WatchSession, Polled}
use s3_pulse.Runtime.{
  Watchers, StartContext, Defaults, new_status, lookup, watch_start, watch_stop, key_within_target,
}
use s3_pulse.Runtime.Queries.{objects_of, listed, newest_samples, objects_list}
use s3_pulse.Runtime.Polling.{run_watcher}
use s3_pulse.Runtime.Relay.{Transfer, object_download, relay, failed}
use s3_pulse.Runtime.Relaying.{Relays, object_download-Relays}
use s3_pulse.Download.Values.{DownloadRequest, DownloadProgress}
use s3_pulse.Service.Params.{ObjectDownloadParams}
use s3_pulse.Uri.{for_object, new, validate}
use s3_pulse.Runtime.Registry.{IsRegistered}
use s3_pulse.Runtime.Interleaving.{done, watch_start-IsRegistered}
use s3_pulse.Runtime.Starting.{Starts, Stops, watch_start-Starts, watch_stop-Stops}
use s3_pulse.Runtime.Told.{status_told, rounds, run_watcher-status}
use s3_pulse.Runtime.Listing.{listed-newest, newest_samples-newest, objects_list-bounded}

abbrev object_at : Text → ℕ → S3Object
object_at key at = record {
  key = key;
  last_modified = at;
  size = 1;
  etag = none;
  storage_class = none;
}

abbrev feed : WatchSession ℕ
feed = record {
  serial = 1;
  id = codes "feed";
  name = codes "Feed";
  target = record { bucket = codes "data"; prefix = codes "in/" };
  target_display = codes "s3://data/in/";
  template = none;
  snapshot = some (record {
    objects = object_at (codes "in/a") 1 ∷ object_at (codes "in/b") 2 ∷ [];
    statistics = 0;
  });
  cancelled = false;
  status = new_status;
}

abbrev registry : Watchers ℕ
registry = (codes "feed", feed) ∷ []

registry-IsRegistered : IsRegistered registry
registry-IsRegistered = (omega arith, ((λ m. m), tt), (refl, tt))

abbrev zones : Zones (Unit {0})
zones = record { utc = tt; parse_zone = λ name. none }

abbrev defaults : Defaults
defaults = record { default_profile = none; default_region = none }

abbrev definition : WatchDefinition
definition = record {
  id = some (codes "other");
  name = none;
  target = codes "s3://data/out/";
  profile = none;
  region = none;
  poll_interval_seconds = 30;
  expected_interval_seconds = none;
  history_limit = 100;
  lookback_periods = 1;
  time_zone = none;
}

abbrev context : StartContext
context = record {
  uuid = codes "0f";
  store = λ profile region. ok tt;
  serial = 2;
  cancelled_before = false;
  cancelled_after_store = false;
  cancelled_after_spawn = false;
}

abbrev show : WatcherError → Text
show e = codes "error"

abbrev detail : Text → Text
detail t = t

watch_start-IsRegistered_example :
    IsRegistered
      ((watch_start detail show zones defaults definition context (λ w. w) (λ w. w) registry).1)
watch_start-IsRegistered_example =
    watch_start-IsRegistered detail show zones defaults definition context (λ w. w) (λ w. w) done
      done registry registry-IsRegistered

watch_start-Starts_example :
    Starts detail show zones defaults definition context registry
      (watch_start detail show zones defaults definition context (λ w. w) (λ w. w) registry)
watch_start-Starts_example =
    watch_start-Starts detail show zones defaults definition context registry

abbrev stop_feed : Result (ErrorObject Text) WatchStartResult × Watchers ℕ
stop_feed = watch_stop (codes "feed") (λ w. w) registry

watch_stop-Stops_example : Stops (codes "feed") (λ w. w) registry stop_feed
watch_stop-Stops_example = watch_stop-Stops (codes "feed") (λ w. w) registry registry-IsRegistered

abbrev polled : Polled ℕ
polled = record {
  result = record {
    polled_at = 5;
    listed_object_count = 1;
    update = record {
      changes = record { kind = added; object = object_at (codes "in/c") 5; previous = none } ∷ [];
      evicted = [];
    };
    snapshot_objects = object_at (codes "in/c") 5 ∷ [];
  };
  statistics = 7;
  request_counts = record { list_requests = 1; get_requests = 0 };
}

abbrev results : List (Result StoreError (Polled ℕ))
results = ok polled ∷ err cancelled_error ∷ ok polled ∷ []

run_watcher-status_example :
    status_told running ((run_watcher (rounds results) feed).1)
    ≡ (((run_watcher (rounds results) feed).0).status).state
run_watcher-status_example = run_watcher-status results feed (inl refl)

abbrev two : List S3Object
two = object_at (codes "in/a") 1 ∷ object_at (codes "in/b") 2 ∷ []

listed-newest_example :
    (length (listed (some 1) two) ≡ min 1 (length two))
    × IsSorted newest_first (listed (some 1) two)
    × ((x y : S3Object)
        → In x (listed (some 1) two)
        → In y (drop 1 (sort_by newest_first two))
        → is_le (newest_first x y) ≡ true)
listed-newest_example = listed-newest 1 two

newest_samples-newest_example :
    (length (newest_samples (some 1) two) ≡ min 1 (length two))
    × IsSorted oldest_first (newest_samples (some 1) two)
    × ((x y : S3Object)
        → In x (take (length two - 1) (sort_by oldest_first two))
        → In y (newest_samples (some 1) two)
        → is_le (oldest_first x y) ≡ true)
newest_samples-newest_example = newest_samples-newest 1 two

abbrev write_key : S3Object → Result Text Text
write_key object = ok object.key

abbrev answer : ObjectsListResult Text
answer = record { watcher_id = codes "feed"; objects = codes "in/b" ∷ [] }

newest_listed : objects_list detail write_key (codes "feed") (some 1) registry ≡ ok answer
unfolding objects_list sort_by place
newest_listed = refl

objects_list-bounded_example :
    (session : WatchSession ℕ) × (lookup (codes "feed") registry ≡ some session)
    × (length answer.objects ≡ min 1 (length (objects_of session.snapshot)))
objects_list-bounded_example =
    objects_list-bounded detail write_key (codes "feed") 1 registry answer newest_listed

abbrev yearly : PollingWatcher (Unit {0})
yearly = record {
  config = record {
    id = codes "feed";
    name = codes "Feed";
    target = record { bucket = codes "data"; prefix = codes "{yyyy}/{MM}/" };
    profile = none;
    region = none;
    poll_interval_seconds = 30;
    expected_interval_seconds = none;
    max_history = 100;
    lookback_periods = 0;
    time_zone = none;
  };
  history = record { capacity = 100; expected_interval_seconds = none; by_key = [] };
  template = some monthly;
  zone = tt;
}

abbrev march : S3Uri
march = record { bucket = codes "data"; prefix = codes "2026/03/" }

march_resolved : resolve_targets gregorian yearly 9 ≡ some (march ∷ [])
unfolding resolve_targets resolve
march_resolved = refl

now : step_back gregorian monthly end_of_march 0 ≡ some end_of_march
unfolding step_back
now = refl

march_renderable : IsRenderable? gregorian yearly 9 (some monthly)
march_renderable step t lt e =
    let first : step ≡ 0 = omega arith in
    let same : end_of_march ≡ t = cc (now, e, first) in
    subst (λ t. IsRenderable gregorian t) same end_of_march-IsRenderable

key_within_target-resolve_targets_example :
    key_within_target yearly.config.target yearly.template (codes "2026/03/trades.parquet") ≡ true
key_within_target-resolve_targets_example =
    key_within_target-resolve_targets gregorian yearly 9 (march ∷ []) march
      (codes "2026/03/trades.parquet") march_renderable march_resolved (inl refl) refl

abbrev wanted : ObjectDownloadParams ℕ
wanted = record {
  watcher_id = codes "feed";
  download_id = none;
  key = codes "in/a";
  destination = 7;
  overwrite = false;
}

abbrev sample : ℕ → DownloadProgress ℕ
sample bytes = record {
  bytes_transferred = bytes;
  total_bytes = none;
  percent = none;
  done = false;
}

-- Two samples are relayed, a third is still queued when the download fails.
abbrev broken : DownloadRequest ℕ → Transfer ℕ ℕ
broken request = record {
  relayed = sample 1 ∷ sample 2 ∷ [];
  queued = sample 3 ∷ [];
  result = err cancelled_error;
}

object_download-Relays_example :
    Relays
      (λ e. codes "error")
      wanted
      registry
      (object_download detail (λ e. codes "error") (codes "0f") broken wanted registry)
object_download-Relays_example =
    object_download-Relays (λ e. codes "error") wanted registry detail (codes "0f") broken

queued_bytes :
    last? ((object_download detail (λ e. codes "error") (codes "0f") broken wanted registry).told)
    ≡ some (failed (codes "feed") (codes "0f") (codes "in/a") 3 cancelled_error)
unfolding object_download relay lookup key_within_target for_object new validate
queued_bytes = refl
