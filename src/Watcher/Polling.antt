-- ===== src/Watcher/Polling.antt =====
-- One poll of the watcher.
use s3_pulse.Base.{
  ℕ, ◌≡◌, ◌⊎◌, refl, ap, ◌∙◌, subst, none, some, List, [], ◌∷◌, ◌++◌, Result, ok, err, In, inl, inr,
  Option-cases, Result-cases,
}
use s3_pulse.Model.{Instant, S3Object}
use s3_pulse.Error.{StoreError}
use s3_pulse.Uri.{S3Uri}
use s3_pulse.Template.Resolve.{Calendar}
use s3_pulse.History.{upsert_many}
use s3_pulse.History.Retention.{IsValid, upsert_many-IsValid}
use s3_pulse.History.Repeat.{upsert_many_twice}
use s3_pulse.Watcher.{
  PollingWatcher, PollResult, Lister, resolve_targets, list_targets, poll_once, poll_result,
}

list_targets-err :
    (list_objects : Lister) (n : ℕ) (targets : List S3Uri) (objects : List S3Object)
    (e : StoreError)
    → list_targets list_objects n targets objects ≡ err e
    → (target : S3Uri) × In target targets × (list_objects target n ≡ err e)
unfolding list_targets
list_targets-err list_objects n [] objects e h = cc
list_targets-err list_objects n (target ∷ rest) objects e h =
    elim (Result-cases (list_objects target n)) [
      | inl (listing, k) ↦
          let (t, m, q) = list_targets-err list_objects n rest (objects ++ listing) e (rw k at h) in
          (t, inr m, q)
      | inr (e', k) ↦ (target, inl refl, k ∙ (rw k at h))
    ]

module _ {T Z : Type 0} (calendar : Calendar T Z) where
  poll_panics :
      (list_objects : Lister) (start polled_at : Instant) (watcher : PollingWatcher Z)
      → resolve_targets calendar watcher start ≡ none
      → poll_once calendar list_objects start polled_at watcher ≡ none
  unfolding poll_once
  poll_panics list_objects start polled_at watcher k = rw (poll_once, k)

  poll_fails :
      (list_objects : Lister) (start polled_at : Instant) (watcher : PollingWatcher Z)
      (targets : List S3Uri) (e : StoreError)
      → resolve_targets calendar watcher start ≡ some targets
      → list_targets list_objects watcher.config.max_history targets [] ≡ err e
      → poll_once calendar list_objects start polled_at watcher ≡ some (err e, watcher)
  unfolding poll_once
  poll_fails list_objects start polled_at watcher targets e k q = rw (poll_once, k, q)

  poll_completes :
      (list_objects : Lister) (start polled_at : Instant) (watcher : PollingWatcher Z)
      (targets : List S3Uri) (listed : List S3Object)
      → resolve_targets calendar watcher start ≡ some targets
      → list_targets list_objects watcher.config.max_history targets [] ≡ ok listed
      → poll_once calendar list_objects start polled_at watcher
        ≡ some (
          ok (
              poll_result polled_at listed
                (upsert_many watcher.history listed).0
                (upsert_many watcher.history listed).1),
          record watcher { history = (upsert_many watcher.history listed).0 },
        )
  unfolding poll_once
  poll_completes list_objects start polled_at watcher targets listed k q = rw (poll_once, k, q)

  -- The three ways in which a poll ends.
  pub poll_once-cases :
      (list_objects : Lister) (start polled_at : Instant) (watcher : PollingWatcher Z)
      → (poll_once calendar list_objects start polled_at watcher ≡ none)
        ⊎ ((e : StoreError) × (poll_once calendar list_objects start polled_at watcher
              ≡ some (err e, watcher))
            × (targets : List S3Uri) × (target : S3Uri) × (resolve_targets calendar watcher start
                ≡ some targets)
            × In target targets
            × (list_objects target watcher.config.max_history ≡ err e))
        ⊎ ((targets : List S3Uri) × (listed : List S3Object) × (resolve_targets calendar watcher
                start
              ≡ some targets)
            × (list_targets list_objects watcher.config.max_history targets [] ≡ ok listed)
            × (poll_once calendar list_objects start polled_at watcher
                ≡ some (
                  ok (
                      poll_result polled_at listed
                        (upsert_many watcher.history listed).0
                        (upsert_many watcher.history listed).1),
                  record watcher { history = (upsert_many watcher.history listed).0 },
                )))
  poll_once-cases list_objects start polled_at watcher =
      elim (Option-cases (resolve_targets calendar watcher start)) [
        | inl k ↦ inl (poll_panics list_objects start polled_at watcher k)
        | inr (targets, k) ↦
            elim (Result-cases (list_targets list_objects watcher.config.max_history targets [])) [
              | inl (listed, q) ↦ inr (
                  inr (
                    targets,
                    listed,
                    k,
                    q,
                    poll_completes list_objects start polled_at watcher targets listed k q,
                  ))
              | inr (e, q) ↦
                  let (target, m, r) =
                    list_targets-err list_objects watcher.config.max_history targets [] e q in
                  inr (
                    inl (
                      e,
                      poll_fails list_objects start polled_at watcher targets e k q,
                      targets,
                      target,
                      k,
                      m,
                      r,
                    ))
            ]
      ]

  -- A poll that fails leaves the watcher as it was, and its error is that of one of the targets.
  pub poll_once-err :
      (list_objects : Lister) (start polled_at : Instant) (watcher after : PollingWatcher Z)
      (e : StoreError)
      → poll_once calendar list_objects start polled_at watcher ≡ some (err e, after)
      → (after ≡ watcher)
        × ((targets : List S3Uri) × (target : S3Uri) × (resolve_targets calendar watcher start
              ≡ some targets)
            × In target targets
            × (list_objects target watcher.config.max_history ≡ err e))
  poll_once-err list_objects start polled_at watcher after e h =
      elim (poll_once-cases list_objects start polled_at watcher) [
        | inl k ↦ absurd (cc (k, h))
        | inr (inl (e', k, targets, target, r, m, f)) ↦
            (cc (k, h), (targets, target, r, m, f ∙ cc (k, h)))
        | inr (inr (targets, listed, r, q, k)) ↦ absurd (cc (k, h))
      ]

  -- A poll that completes or fails keeps a well-formed history well formed.
  pub poll_once-IsValid :
      (list_objects : Lister) (start polled_at : Instant) (watcher after : PollingWatcher Z)
      (result : Result StoreError PollResult)
      → IsValid watcher.history
      → poll_once calendar list_objects start polled_at watcher ≡ some (result, after)
      → IsValid after.history
  poll_once-IsValid list_objects start polled_at watcher after result v h =
      elim (poll_once-cases list_objects start polled_at watcher) [
        | inl k ↦ absurd (cc (k, h))
        | inr (inl (e', k, targets, target, r, m, f)) ↦
            let same : watcher ≡ after = cc (k, h) in
            subst (λ (w : PollingWatcher Z). IsValid w.history) same v
        | inr (inr (targets, listed, r, q, k)) ↦
            let same : record watcher { history = (upsert_many watcher.history listed).0 } ≡ after =
              cc (k, h) in
            subst (λ (w : PollingWatcher Z). IsValid w.history) same
              (upsert_many-IsValid watcher.history listed v)
      ]

  again :
      (list_objects : Lister) (start' at' : Instant) (watcher : PollingWatcher Z)
      (targets : List S3Uri) (listed : List S3Object)
      → IsValid watcher.history
      → list_targets list_objects watcher.config.max_history targets [] ≡ ok listed
      → resolve_targets calendar
          (record watcher { history = (upsert_many watcher.history listed).0 })
          start'
        ≡ some targets
      → (result : PollResult) × (poll_once calendar list_objects start' at'
            (record watcher { history = (upsert_many watcher.history listed).0 })
          ≡ some (ok result, record watcher { history = (upsert_many watcher.history listed).0 }))
        × (result.update ≡ record { changes = []; evicted = [] })
  again list_objects start' at' watcher targets listed v q r =
      let w = record watcher { history = (upsert_many watcher.history listed).0 } in
      let twice = upsert_many_twice watcher.history listed v in
      let update = (upsert_many w.history listed).1 in
      (
        poll_result at' listed w.history update,
        poll_completes list_objects start' at' w targets listed r q
            ∙ ap (λ u. some (ok (poll_result at' listed u update), record watcher { history = u }))
                (ap (λ t. t.0) twice),
        ap (λ t. t.1) twice,
      )

  -- After a poll that completes on a well-formed history, a poll of the same targets with the same
  -- answers completes, reports no change and no eviction and leaves the watcher as it is.
  pub poll_once_again :
      (list_objects : Lister) (start polled_at start' at' : Instant)
      (watcher after : PollingWatcher Z) (first : PollResult)
      → IsValid watcher.history
      → poll_once calendar list_objects start polled_at watcher ≡ some (ok first, after)
      → resolve_targets calendar after start' ≡ resolve_targets calendar watcher start
      → (result : PollResult) × (poll_once calendar list_objects start' at' after
          ≡ some (ok result, after))
        × (result.update ≡ record { changes = []; evicted = [] })
  poll_once_again list_objects start polled_at start' at' watcher after first v h same =
      elim (poll_once-cases list_objects start polled_at watcher) [
        | inl k ↦ absurd (cc (k, h))
        | inr (inl (e', k, targets, target, r, m, f)) ↦ absurd (cc (k, h))
        | inr (inr (targets, listed, r, q, k)) ↦
            let e : record watcher { history = (upsert_many watcher.history listed).0 } ≡ after =
              cc (k, h) in
            subst
              (λ (w : PollingWatcher Z).
                resolve_targets calendar w start' ≡ some targets
                → (result : PollResult) × (poll_once calendar list_objects start' at' w
                    ≡ some (ok result, w))
                  × (result.update ≡ record { changes = []; evicted = [] }))
              e (again list_objects start' at' watcher targets listed v q) (same ∙ r)
      ]
