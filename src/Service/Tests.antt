-- ===== src/Service/Tests.antt =====
-- Requests to a service whose runtime counts the calls and answers nothing else.
use s3_pulse.Base.{ℕ, suc, ◌≡◌, refl, false, none, some, [], ok, err}
use s3_pulse.Base.Text.{Text, codes}
use s3_pulse.Service.Errors.{watcher_not_found}
use s3_pulse.Service.Params.{running}
use s3_pulse.Service.{ServiceRuntime, ServiceCodec, handle}
use s3_pulse.Service.Methods.{Effect, handle-IsAllowed}

-- JSON values are texts; each identifier is read as it is.
abbrev codec : ServiceCodec Text Text Text
codec = record {
  detail = λ t. t;
  is_null = λ v. false;
  watch_start_params = λ v. ok (record {
    id = some v;
    name = none;
    target = v;
    profile = none;
    region = none;
    poll_interval_seconds = none;
    expected_interval_seconds = none;
    history_limit = none;
    lookback_periods = none;
    time_zone = none;
  });
  watcher_id_params = λ v. ok v;
  watch_status_params = λ v. ok (some v);
  objects_list_params = λ v. ok (record { watcher_id = v; limit = some 5 });
  statistics_history_params = λ v. ok (record { watcher_id = v; limit = some 1001 });
  object_download_params = λ v. err (codes "missing field");
  is_empty_path = λ p. false;
  of_version = λ names. codes "version";
  of_start = λ r. ok r.watcher_id;
  of_status = λ r. ok [];
  of_objects = λ r. ok r.watcher_id;
  of_statistics = λ r. ok r.watcher_id;
  of_history = λ r. ok r.watcher_id;
  of_download = λ r. ok r.watcher_id;
}

abbrev counting : ServiceRuntime ℕ Text Text Text
counting = record {
  watch_start =
      λ definition n. (ok (record { watcher_id = definition.target; status = running }), suc n);
  watch_stop = λ id n. (err (watcher_not_found id), suc n);
  watch_status = λ id n. (ok (record { watchers = [] }), suc n);
  objects_list = λ id limit n. (ok (record { watcher_id = id; objects = [] }), suc n);
  statistics_frequency = λ id n. (err (watcher_not_found id), suc n);
  statistics_history = λ id limit n. (ok (record { watcher_id = id; samples = [] }), suc n);
  object_download = λ params n. (err (watcher_not_found params.watcher_id), suc n);
}

handled : handle codec counting (codes "objects.list") (codes "w1") 0 ≡ (ok (codes "w1"), 1)
unfolding handle
handled = refl

blank_refused : (handle codec counting (codes "watch.stop") (codes "  ") 0).1 ≡ 0
unfolding handle
blank_refused = refl

limit_refused : (handle codec counting (codes "statistics.history") (codes "w1") 0).1 ≡ 0
unfolding handle
limit_refused = refl

handle-IsAllowed_example :
    Effect codec counting (handle codec counting (codes "objects.list") (codes "w1") 0) 0
handle-IsAllowed_example = handle-IsAllowed codec counting (codes "objects.list") (codes "w1") 0
