-- ===== src/Service/Checks.antt =====
-- What the checks of the service let through.
use s3_pulse.Base.{
  ℕ, ◌≤◌, ◌<◌, ◌≡◌, refl, if◌then◌else◌, Bool, true, false, Option, none, some, Result, ok, err,
  ◌>>=◌, fail_if, unwrap_or, is_some_and, arith,
}
use s3_pulse.Base.Text.{Text, codes, same_text, is_empty}
use s3_pulse.Base.Search.{trim}
use s3_pulse.Transport.Serve.{ErrorObject}
use s3_pulse.Service.Params.{WatchDefinition, with_defaults}
use s3_pulse.Service.{
  ServiceCodec, Call, version, start, stop, status, list, frequency, history, download, bad,
  parse_params, parse_params_or_default, validate, validate_watcher_id, validate_limit,
  validate_some_id, read_call, read_start, read_stop, read_status, read_list, read_frequency,
  read_history, read_download,
}

abbrev pub HasText : Text → Type 0
HasText text = is_empty (trim text) ≡ false

abbrev pub HasText? : Option Text → Type 0
HasText? none = Unit
HasText? (some text) = HasText text

abbrev pub IsPositive? : Option ℕ → Type 0
IsPositive? none = Unit
IsPositive? (some n) = 0 < n

-- The target is given, the intervals are positive, the limit of the history is within bounds, and an
-- identifier is no blank text.
abbrev pub IsSound : WatchDefinition → Type 0
IsSound definition =
    HasText definition.target
    × (0 < definition.poll_interval_seconds)
    × (0 < definition.history_limit)
    × (definition.history_limit ≤ 10000)
    × HasText? definition.id
    × IsPositive? definition.expected_interval_seconds

module _ {V H PathBuf : Type 0} (codec : ServiceCodec V H PathBuf) where
  abbrev pub IsLimit : ℕ → Type 0
  IsLimit limit = (0 < limit) × (limit ≤ 1000)

  -- The calls that the runtime may get.
  abbrev pub IsAllowed : Call PathBuf → Type 0
  IsAllowed version = Unit
  IsAllowed (start definition) = IsSound definition
  IsAllowed (stop watcher_id) = HasText watcher_id
  IsAllowed (status watcher_id) = HasText? watcher_id
  IsAllowed (list watcher_id limit) = HasText watcher_id × IsLimit limit
  IsAllowed (frequency watcher_id) = HasText watcher_id
  IsAllowed (history watcher_id limit) = HasText watcher_id × IsLimit limit
  IsAllowed (download params) =
      HasText params.watcher_id
      × HasText params.key
      × HasText? params.download_id
      × (codec.is_empty_path params.destination ≡ false)

  pub validate-IsSound :
      (definition : WatchDefinition) → validate codec definition ≡ ok tt → IsSound definition
  unfolding validate
  validate-IsSound definition h = ground (arith, h)

  checked_id : (t : Text) → validate_watcher_id codec t ≡ ok tt → HasText t
  unfolding validate_watcher_id
  checked_id t h = ground arith

  validate_limit-IsLimit : (n : ℕ) → validate_limit codec n ≡ ok tt → IsLimit n
  unfolding validate_limit
  validate_limit-IsLimit n h = ground arith

  abbrev Allowed : Result (ErrorObject V) (Call PathBuf) → Type 0
  Allowed (ok call) = IsAllowed call
  Allowed (err e) = Unit

  -- A result that is no error is an allowed call.
  pub record Allows (r : Result (ErrorObject V) (Call PathBuf)) : Type 0 where
    pub allowed : Allowed r

  >>=-Allows :
      {A : Type 0} (r : Result (ErrorObject V) A) (next : A → Result (ErrorObject V) (Call PathBuf))
      → ((a : A) → r ≡ ok a → Allows (next a))
      → Allows (r >>= next)
  >>=-Allows (ok a) next k = k a refl
  >>=-Allows (err e) next k = record { allowed = tt }

  text? : (o : Option Text) → is_some_and o (λ t. is_empty (trim t)) ≡ false → HasText? o
  text? none h = tt
  text? (some t) h = h

  checked_some_id : (o : Option Text) → validate_some_id codec o ≡ ok tt → HasText? o
  checked_some_id none h = tt
  checked_some_id (some t) h = checked_id t h

  read_start-Allows : (params : V) → Allows (read_start codec params)
  unfolding read_start
  read_start-Allows params =
      >>=-Allows (parse_params codec codec.watch_start_params params) _ λ given _.
        >>=-Allows (validate codec (with_defaults given)) _
          λ _ h. record { allowed = validate-IsSound (with_defaults given) h }

  read_stop-Allows : (params : V) → Allows (read_stop codec params)
  unfolding read_stop
  read_stop-Allows params =
      >>=-Allows (parse_params codec codec.watcher_id_params params) _
        λ t _. >>=-Allows (validate_watcher_id codec t) _ λ _ h. record { allowed = checked_id t h }

  read_status-Allows : (params : V) → Allows (read_status codec params)
  unfolding read_status
  read_status-Allows params =
      >>=-Allows (parse_params_or_default codec none codec.watch_status_params params) _ λ t _.
        >>=-Allows (validate_some_id codec t) _ λ _ h. record { allowed = checked_some_id t h }

  read_frequency-Allows : (params : V) → Allows (read_frequency codec params)
  unfolding read_frequency
  read_frequency-Allows params =
      >>=-Allows (parse_params codec codec.watcher_id_params params) _
        λ t _. >>=-Allows (validate_watcher_id codec t) _ λ _ h. record { allowed = checked_id t h }

  read_list-Allows : (params : V) → Allows (read_list codec params)
  unfolding read_list
  read_list-Allows params =
      >>=-Allows (parse_params codec codec.objects_list_params params) _ λ read _.
        >>=-Allows (validate_watcher_id codec read.watcher_id) _ λ _ h.
          >>=-Allows (validate_limit codec (unwrap_or read.limit 1000)) _ λ _ l. record {
            allowed = (
              checked_id read.watcher_id h,
              validate_limit-IsLimit (unwrap_or read.limit 1000) l,
            );
          }

  read_history-Allows : (params : V) → Allows (read_history codec params)
  unfolding read_history
  read_history-Allows params =
      >>=-Allows (parse_params codec codec.statistics_history_params params) _ λ read _.
        >>=-Allows (validate_watcher_id codec read.watcher_id) _ λ _ h.
          >>=-Allows (validate_limit codec (unwrap_or read.limit 1000)) _ λ _ l. record {
            allowed = (
              checked_id read.watcher_id h,
              validate_limit-IsLimit (unwrap_or read.limit 1000) l,
            );
          }

  passed : (b : Bool) (e : ErrorObject V) → fail_if b e ≡ ok tt → b ≡ false
  passed true e h = absurd (cc h)
  passed false e h = refl

  read_download-Allows : (params : V) → Allows (read_download codec params)
  unfolding read_download
  read_download-Allows params =
      >>=-Allows (parse_params codec codec.object_download_params params) _ λ read _.
        >>=-Allows (validate_watcher_id codec read.watcher_id) _ λ _ h.
          >>=-Allows (fail_if (is_empty (trim read.key)) (bad codec (codes "key cannot be empty")))
            _
            λ _ k.
              >>=-Allows
                (fail_if (is_some_and read.download_id (λ id. is_empty (trim id)))
                  (bad codec (codes "downloadId cannot be empty")))
                _
                λ _ i.
                  >>=-Allows
                    (fail_if (codec.is_empty_path read.destination)
                      (bad codec (codes "destination cannot be empty")))
                    _
                    λ _ d. record {
                      allowed = (
                        checked_id read.watcher_id h,
                        passed (is_empty (trim read.key)) _ k,
                        text? read.download_id
                            (passed (is_some_and read.download_id (λ id. is_empty (trim id))) _ i),
                        passed (codec.is_empty_path read.destination) _ d,
                      );
                    }

  branch-Allows :
      {r r' : Result (ErrorObject V) (Call PathBuf)} (b : Bool)
      → Allows r
      → Allows r'
      → Allows (if b then r else r')
  branch-Allows true p q = p
  branch-Allows false p q = q

  pub read_call-Allows : (method : Text) (params : V) → Allows (read_call codec method params)
  unfolding read_call
  read_call-Allows method params =
      branch-Allows (same_text method (codes "system.version")) (record { allowed = tt })
        (branch-Allows (same_text method (codes "watch.start")) (read_start-Allows params) (
          branch-Allows (same_text method (codes "watch.stop")) (read_stop-Allows params) (
            branch-Allows (same_text method (codes "watch.status")) (read_status-Allows params) (
              branch-Allows (same_text method (codes "objects.list")) (read_list-Allows params) (
                branch-Allows (same_text method (codes "statistics.frequency"))
                  (read_frequency-Allows params)
                  (branch-Allows (same_text method (codes "statistics.history"))
                    (read_history-Allows params)
                    (branch-Allows (same_text method (codes "object.download"))
                      (read_download-Allows params) (record { allowed = tt }))))))))
