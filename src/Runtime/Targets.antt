-- ===== src/Runtime/Targets.antt =====
-- The keys that the runtime lets a client download, against the prefixes that its watcher lists.
use s3_pulse.Base.{
  ℕ, suc, ◌<◌, ◌≡◌, inl, inr, refl, sym, ◌∙◌, ap, subst, if◌then◌else◌, true, Option, none, some,
  List, [], ◌∷◌, ◌++◌, map, arith, In, map-In, Bool-cases, Option-cases, ◌==◌, ==→eq,
}
use s3_pulse.Base.Text.{Text, is_empty}
use s3_pulse.Base.Search.{starts_with}
use s3_pulse.Model.{Instant}
use s3_pulse.Uri.{S3Uri}
use s3_pulse.Template.{DateTemplate, matches}
use s3_pulse.Template.Resolve.{Calendar, resolve, step_back}
use s3_pulse.Template.Matching.{IsRenderable, matches-render}
use s3_pulse.Template.Window.{resolve_iff}
use s3_pulse.Watcher.{PollingWatcher, resolve_targets}
use s3_pulse.Runtime.{key_within_target}

starts_with_rest : (p s : Text) → starts_with p s ≡ true → (rest : Text) × (s ≡ p ++ rest)
starts_with_rest [] s h = (s, refl)
starts_with_rest (a ∷ p) [] h = absurd (cc h)
starts_with_rest (a ∷ p) (b ∷ s) h = elim (Bool-cases (a == b)) [
  | inl e ↦
      let (rest, q) = starts_with_rest p s (ground (arith, h, e)) in
      (rest, ground (arith, ==→eq a b e, q))
  | inr e ↦ absurd (ground (arith, h, e))
]

module _ {T Z : Type 0} (calendar : Calendar T Z) (watcher : PollingWatcher Z) (at : Instant) where
  abbrev pub local_time : T
  local_time = calendar.naive_local watcher.zone at

  -- The period of each step of the lookback has a year of at most four digits.
  abbrev pub IsRenderable? : Option DateTemplate → Type 0
  IsRenderable? none = Unit
  IsRenderable? (some template) =
      (step : ℕ) (t : T)
      → step < suc watcher.config.lookback_periods
      → step_back calendar template local_time step ≡ some t
      → IsRenderable calendar t

  literal_target :
      (key target_prefix prefix : Text)
      → target_prefix ≡ prefix
      → starts_with target_prefix key ≡ true
      → (if is_empty prefix then true else starts_with prefix key) ≡ true
  literal_target key target_prefix prefix e h = ground (arith, e, h)

  abbrev in_bucket : Text → S3Uri
  in_bucket prefix = record { bucket = watcher.config.target.bucket; prefix = prefix }

  rendered_target :
      (template : DateTemplate) (prefixes : List Text) (prefix rest : Text) {key : Text}
      → IsRenderable? (some template)
      → resolve calendar template at watcher.config.lookback_periods watcher.zone ≡ some prefixes
      → In prefix prefixes
      → key ≡ prefix ++ rest
      → matches template key ≡ true
  rendered_target template prefixes prefix rest r p n k =
      let (distinct, member) =
        resolve_iff calendar template at watcher.config.lookback_periods watcher.zone prefixes p in
      let (step, low, high, t, stepped, e) = (member prefix).0 n in
      subst (λ key. matches template key ≡ true) (sym (k ∙ ap (λ p. p ++ rest) e))
        (matches-render calendar template t rest (r step t high stepped))

  -- The test of a download's key admits what the watcher lists: where the periods that it resolves are
  -- renderable, each key under the prefix of any of its targets passes `key_within_target`. A download
  -- has other tests of a key beside it.
  pub key_within_target-resolve_targets :
      (targets : List S3Uri) (target : S3Uri) (key : Text)
      → IsRenderable? watcher.template
      → resolve_targets calendar watcher at ≡ some targets
      → In target targets
      → starts_with target.prefix key ≡ true
      → key_within_target watcher.config.target watcher.template key ≡ true
  unfolding key_within_target resolve_targets
  key_within_target-resolve_targets targets target key r e m h =
      elim (Option-cases watcher.template) [
        | inl t ↦
            let only : targets ≡ watcher.config.target ∷ [] = ground (arith, e, t) in
            elim (subst (λ ts. In target ts) only m) [
              | inl same ↦ rw t (
                  literal_target key target.prefix watcher.config.target.prefix
                    (ap (λ u. u.prefix) same) h)
              | inr none_left ↦ absurd none_left
            ]
        | inr (template, t) ↦
            elim (Option-cases
              (resolve calendar template at watcher.config.lookback_periods watcher.zone)) [
                | inl p ↦ absurd (ground (arith, e, t, p))
                | inr (prefixes, p) ↦
                    let whole : targets ≡ map in_bucket prefixes = ground (arith, e, t, p) in
                    let (prefix, n, same) =
                      map-In in_bucket target prefixes (subst (λ ts. In target ts) whole m) in
                    let (rest, k) = starts_with_rest target.prefix key h in
                    rw t (
                      rendered_target template prefixes prefix rest (subst IsRenderable? t r) p n
                        (k ∙ ap (λ u. u.prefix ++ rest) same))
              ]
      ]
