-- ===== src/Watcher/Making.antt =====
-- What a watcher is made with.
use s3_pulse.Base.{ℕ, ◌≡◌, ◌↔◌, false, sym, ap, subst, Option, ok, arith, inl, inr, Result-cases}
use s3_pulse.History.{RollingHistory, with_expected_interval}
use s3_pulse.History.Retention.{IsValid, with_expected_interval-IsValid}
use s3_pulse.Base.Text.{Text, is_empty}
use s3_pulse.Base.Search.{trim}
use s3_pulse.Uri.{S3Uri}
use s3_pulse.Watcher.{
  default_config, PollingWatcher, PollResult, WatcherConfig, Zones, new, validate, Lister,
  resolve_targets, list_targets, poll_once, poll_result, zone_of,
}
use s3_pulse.Watcher
use s3_pulse.Template

capacity_of :
    (capacity : ℕ) (expected : Option ℕ) (h : RollingHistory)
    → with_expected_interval capacity expected ≡ ok h
    → h.capacity ≡ capacity
unfolding with_expected_interval
capacity_of capacity expected h e = ground arith

-- With the defaults, an identifier and a name that are not blank are enough for a valid
-- configuration, and nothing less is.
pub validate-default_config :
    (id name : Text) (target : S3Uri)
    → (is_empty (trim id) ≡ false) × (is_empty (trim name) ≡ false)
      ↔ validate (default_config id name target) ≡ ok tt
unfolding validate default_config
validate-default_config id name target = ((λ h. ground (arith, h.0, h.1)), λ h. ground (arith, h))

module _ {Z : Type 0} where
  -- A watcher that is made holds the configuration that it was given, which passes validation, and a
  -- well-formed history of the configured capacity.
  pub new-IsValid :
      (zones : Zones Z) (config : WatcherConfig) (watcher : PollingWatcher Z)
      → Watcher.new zones config ≡ ok watcher
      → (validate config ≡ ok tt)
        × (watcher.config ≡ config)
        × IsValid watcher.history
        × (watcher.history.capacity ≡ config.max_history)
  unfolding Watcher.new
  new-IsValid zones config watcher h = elim (Result-cases (validate config)) [
    | inr (e, k) ↦ absurd (cc (rw (Watcher.new, k) at h))
    | inl (u, k) ↦
        elim (Result-cases
          (with_expected_interval config.max_history config.expected_interval_seconds)) [
            | inr (e, l) ↦ absurd (cc (rw (Watcher.new, k, l) at h))
            | inl (history, l) ↦ elim (Result-cases (Template.parse config.target.prefix)) [
              | inr (e, m) ↦ absurd (cc (rw (Watcher.new, k, l, m) at h))
              | inl (template, m) ↦ elim (Result-cases (zone_of zones config.time_zone)) [
                | inr (e, n) ↦ absurd (cc (rw (Watcher.new, k, l, m, n) at h))
                | inl (zone, n) ↦
                    let made : record {
                      config = config;
                      history = history;
                      template = template;
                      zone = zone;
                    }
                        ≡ watcher =
                      cc (rw (Watcher.new, k, l, m, n) at h) in
                    (
                      k,
                      sym (ap (λ (w : PollingWatcher Z). w.config) made),
                      subst (λ (w : PollingWatcher Z). IsValid w.history) made
                          (with_expected_interval-IsValid config.max_history
                            config.expected_interval_seconds history l),
                      subst (λ (w : PollingWatcher Z). w.history.capacity ≡ config.max_history) made
                          (capacity_of config.max_history config.expected_interval_seconds history
                            l),
                    )
              ]
            ]
          ]
  ]
