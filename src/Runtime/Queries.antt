-- ===== src/Runtime/Queries.antt =====
-- crates/s3pulse-cli/src/rpc/runtime.rs: the methods of `CoreRuntime` that only read: the status of
-- the watchers, their objects and their statistics. What serde and the clock's text form do is a
-- parameter.
use s3_pulse.Base.{
  ℕ, ◌-◌, ◌/◌, Option, none, some, List, [], ◌∷◌, map, Result, ok, ◌>>=◌, map_err, unwrap_or,
  length, take, drop, Ordering,
}
use s3_pulse.Base.Text.{Text, text_order}
use s3_pulse.Base.Sort.{sort_by}
use s3_pulse.Base.Double.{Double}
use s3_pulse.Model.{Instant, S3Object}
use s3_pulse.History.{newest_first, oldest_first}
use s3_pulse.Transport.Serve.{ErrorObject}
use s3_pulse.Service.Errors.{internal}
use s3_pulse.Service.Params.{
  WatcherStatus, WatchStatusResult, ObjectsListResult, StatisticsResult, StatisticsHistoryResult,
  RequestCounts,
}
use s3_pulse.Runtime.Values.{Snapshot, WatchSession}
use s3_pulse.Runtime.{Watchers, lookup, found}

-- The objects of a snapshot, none before the first poll.
abbrev pub objects_of : {St : Type 0} → Option (Snapshot St) → List S3Object
objects_of none = []
objects_of (some snapshot) = snapshot.objects

unfoldable pub listed : Option ℕ → List S3Object → List S3Object
listed limit objects =
    let sorted = sort_by newest_first objects in take (unwrap_or limit (length sorted)) sorted

-- `collect::<Result<Vec<_>, _>>()`.
abbrev pub collect_values :
    {V A : Type 0} → (A → Result (ErrorObject V) V) → List A → Result (ErrorObject V) (List V)
collect_values write [] = ok []
collect_values write (a ∷ rest) = do v ← write a; vs ← collect_values write rest; ok (v ∷ vs)

unfoldable pub objects_list :
    {V St : Type 0}
    → (Text → V)
    → (S3Object → Result Text V)
    → Text
    → Option ℕ
    → Watchers St
    → Result (ErrorObject V) (ObjectsListResult V)
unfolding lookup listed
objects_list detail write watcher_id limit watchers = do
  session ← found watcher_id (lookup watcher_id watchers)
  objects ←
      collect_values (λ object. map_err (internal detail) (write object))
        (listed limit (objects_of session.snapshot))
  ok (record { watcher_id = watcher_id; objects = objects })

-- The oldest objects are drained where there are more than the limit.
unfoldable pub newest_samples : Option ℕ → List S3Object → List S3Object
newest_samples none objects = sort_by oldest_first objects
newest_samples (some limit) objects =
    let sorted = sort_by oldest_first objects in drop (length sorted - limit) sorted

-- The seconds between two instants in nanoseconds, of which the later one comes second.
abbrev pub interval_seconds : {F : Type 0} → Double F → Instant → Instant → F
interval_seconds d earlier later = d.over (d.of_nat ((later - earlier) / 1000000)) (d.of_nat 1000)

-- The samples, with the instant of the object before.
unfoldable pub samples_from :
    {F V : Type 0} → Double F → (S3Object → Option F → V) → Option Instant → List S3Object → List V
samples_from d write previous [] = []
samples_from d write none (object ∷ rest) =
    write object none ∷ samples_from d write (some object.last_modified) rest
samples_from d write (some last_modified) (object ∷ rest) =
    write object (some (interval_seconds d last_modified object.last_modified))
    ∷ samples_from d write (some object.last_modified) rest

unfoldable pub statistics_history :
    {F V St : Type 0}
    → Double F
    → (S3Object → Option F → V)
    → Text
    → Option ℕ
    → Watchers St
    → Result (ErrorObject V) (StatisticsHistoryResult V)
unfolding lookup newest_samples samples_from
statistics_history d write watcher_id limit watchers = do
  session ← found watcher_id (lookup watcher_id watchers)
  ok (record {
    watcher_id = watcher_id;
    samples = samples_from d write none (newest_samples limit (objects_of session.snapshot));
  })

abbrev pub statistics_of :
    {V St : Type 0}
    → (St → Result (ErrorObject V) V)
    → V
    → Option (Snapshot St)
    → Result (ErrorObject V) V
statistics_of write empty none = ok empty
statistics_of write empty (some snapshot) = write snapshot.statistics

unfoldable pub statistics_frequency :
    {V St : Type 0}
    → (Text → V)
    → (St → Result Text V)
    → V
    → (WatchSession St → RequestCounts)
    → Text
    → Watchers St
    → Result (ErrorObject V) (StatisticsResult V)
unfolding lookup
statistics_frequency detail write empty counts watcher_id watchers = do
  session ← found watcher_id (lookup watcher_id watchers)
  statistics ←
      statistics_of (λ statistics. map_err (internal detail) (write statistics)) empty
        session.snapshot
  ok (record { watcher_id = watcher_id; statistics = statistics; request_counts = counts session })

module _ {H St : Type 0} (health : St → H) (rfc3339 : Instant → Text)
    (counts : WatchSession St → RequestCounts) where
  abbrev pub health_of : Option (Snapshot St) → Option H
  health_of none = none
  health_of (some snapshot) = some (health snapshot.statistics)

  abbrev pub time_of : Option Instant → Option Text
  time_of none = none
  time_of (some at) = some (rfc3339 at)

  unfoldable pub status_of : WatchSession St → WatcherStatus H
  status_of session = record {
    watcher_id = session.id;
    name = session.name;
    target = session.target_display;
    status = (session.status).state;
    object_count = length (objects_of session.snapshot);
    request_counts = counts session;
    health = health_of session.snapshot;
    last_poll_at = time_of ((session.status).last_poll_at);
    error = (session.status).error;
  }

  abbrev pub selected :
      {V : Type 0} → Option Text → Watchers St → Result (ErrorObject V) (List (WatchSession St))
  selected none watchers = ok (map (λ e. e.1) watchers)
  selected (some watcher_id) watchers = do
    session ← found watcher_id (lookup watcher_id watchers)
    ok (session ∷ [])

  abbrev pub by_id : WatcherStatus H → WatcherStatus H → Ordering
  by_id left right = text_order.cmp left.watcher_id right.watcher_id

  unfoldable pub watch_status :
      {V : Type 0} → Option Text → Watchers St → Result (ErrorObject V) (WatchStatusResult H)
  unfolding lookup status_of
  watch_status watcher_id watchers = do
    sessions ← selected watcher_id watchers
    ok (record { watchers = sort_by by_id (map status_of sessions) })
