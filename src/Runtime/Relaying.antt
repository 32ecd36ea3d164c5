-- ===== src/Runtime/Relaying.antt =====
-- What the store is asked for by a download, and how its messages end.
use s3_pulse.Base.{
  ℕ, ◌≡◌, ◌⊎◌, inl, inr, refl, Bool, true, not, some, List, [], ◌∷◌, ◌++◌, all, Result, ok, err,
  Bool-cases, unwrap_or, Option-cases, Result-cases,
}
use s3_pulse.Base.Text.{Text}
use s3_pulse.Error.{StoreError}
use s3_pulse.Uri.{S3Uri, UriParseError, for_object, new}
use s3_pulse.Uri
use s3_pulse.Download.Values.{DownloadRequest, DownloadProgress, DownloadResult}
use s3_pulse.Transport.Serve.{ErrorObject}
use s3_pulse.Service.Errors.{store_failure}
use s3_pulse.Service.Params.{ObjectDownloadParams, Downloaded}
use s3_pulse.Runtime.Values.{WatchSession}
use s3_pulse.Runtime.{Watchers, lookup, key_within_target}
use s3_pulse.Runtime.Relay.{
  Told, progressed, succeeded, failed, Transfer, Relayed, relay, finish, told_of, object_download,
}

abbrev pub is_done : {F : Type 0} → Told F → Bool
is_done (progressed watcher_id download_id key progress) = progress.done
is_done (succeeded watcher_id download_id key bytes) = true
is_done (failed watcher_id download_id key bytes error) = true

for_object_ok :
    (target : S3Uri) (key : Text) (source : S3Uri)
    → for_object target key ≡ ok source
    → source ≡ record { bucket = target.bucket; prefix = key }
unfolding for_object new
for_object_ok target key source h =
    elim (Result-cases (Uri.validate (record { bucket = target.bucket; prefix = key }))) [
      | inl (u, k) ↦ cc (rw (new, k) at h)
      | inr (e, k) ↦ absurd (cc (rw (new, k) at h))
    ]

module _ {PathBuf St : Type 0} (params : ObjectDownloadParams PathBuf)
    (watchers : Watchers St) where
  -- The object and the place of a request are those that the client names, and its key is one that
  -- the watcher may hand out.
  pub record IsAsked (request : DownloadRequest PathBuf) : Type 0 where
    pub session : WatchSession St
    pub known : lookup params.watcher_id watchers ≡ some session
    pub within : key_within_target session.target session.template params.key ≡ true
    pub object : request.source ≡ record { bucket = session.target.bucket; prefix = params.key }
    pub place : request.destination ≡ params.destination
    pub overwrite : request.overwrite ≡ params.overwrite

module _ {V F PathBuf St : Type 0} (json : StoreError → V) (params : ObjectDownloadParams PathBuf)
    (watchers : Watchers St) where
  -- The last message says what the answer says.
  abbrev pub Ends : Result (ErrorObject V) (Downloaded PathBuf) → Told F → Type 0
  Ends (ok d) last = last ≡ succeeded params.watcher_id d.download_id params.key d.bytes
  Ends (err e) last =
      (download_id : Text) × (bytes : ℕ) × (error : StoreError) × (last
        ≡ failed params.watcher_id download_id params.key bytes error)
      × (e ≡ store_failure json error)

  pub record IsClosed (run : Relayed V F PathBuf) : Type 0 where
    pub first : List (Told F)
    pub last : Told F
    pub told : run.told ≡ first ++ last ∷ []
    pub before : all (λ message. not (is_done message)) first ≡ true
    pub closed : is_done last ≡ true
    pub ends : Ends run.reply last

  abbrev pub Relays : Relayed V F PathBuf → Type 0
  Relays run =
      ((run.requests ≡ []) × (run.told ≡ []) × (e : ErrorObject V) × (run.reply ≡ err e))
      ⊎ ((request : DownloadRequest PathBuf) × (run.requests ≡ request ∷ [])
          × IsAsked params watchers request
          × IsClosed run)

  all_open :
      (download_id : Text) (samples : List (DownloadProgress F))
      → all (λ message. not (is_done message)) (told_of params download_id samples) ≡ true
  all_open download_id [] = refl
  all_open download_id (p ∷ ps) = all_open download_id ps

  module _ (detail : Text → V) where
    finish-IsClosed :
        (download_id : Text) (request : DownloadRequest PathBuf) (told : List (Told F)) (seen : ℕ)
        (result : Result StoreError (DownloadResult PathBuf))
        → all (λ message. not (is_done message)) told ≡ true
        → IsClosed (finish detail json params download_id request told seen result)
    finish-IsClosed download_id request told seen (err error) h = record {
      first = told;
      last = failed params.watcher_id download_id params.key seen error;
      told = refl;
      before = h;
      closed = refl;
      ends = (download_id, seen, error, refl, refl);
    }
    finish-IsClosed download_id request told seen (ok result) h = record {
      first = told;
      last = succeeded params.watcher_id download_id params.key result.bytes_transferred;
      told = refl;
      before = h;
      closed = refl;
      ends = refl;
    }

    finish-requests :
        (download_id : Text) (request : DownloadRequest PathBuf) (told : List (Told F)) (seen : ℕ)
        (result : Result StoreError (DownloadResult PathBuf))
        → (finish detail json params download_id request told seen result).requests ≡ request ∷ []
    finish-requests download_id request told seen (err error) = refl
    finish-requests download_id request told seen (ok result) = refl

    -- A download is refused without a request to the store and without a message, or the store is
    -- asked once, for an object of the watcher's bucket whose key the target admits. Then the messages
    -- end with the only one that is done, and it says what the answer says.
    pub object_download-Relays :
        (uuid : Text) (download : DownloadRequest PathBuf → Transfer F PathBuf)
        → Relays (object_download detail json uuid download params watchers)
    unfolding object_download relay
    object_download-Relays uuid download = elim (Option-cases (lookup params.watcher_id watchers)) [
      | inl n ↦ rw (object_download, n) (inl (refl, refl, _, refl))
      | inr (session, k) ↦
          elim (Bool-cases (key_within_target session.target session.template params.key)) [
            | inr f ↦ rw (object_download, k, f) (inl (refl, refl, _, refl))
            | inl w ↦ elim (Result-cases (for_object session.target params.key)) [
              | inr (e, f) ↦ rw (object_download, k, w, f) (inl (refl, refl, _, refl))
              | inl (source, o) ↦
                  let request : DownloadRequest PathBuf = record {
                    source = source;
                    destination = params.destination;
                    overwrite = params.overwrite;
                  } in
                  let sent =
                    all_open (unwrap_or params.download_id uuid) (download request).relayed in
                  rw (object_download, k, w, o)
                    (inr (
                      request,
                      finish-requests _ _ _ _ _,
                      record {
                        session = session;
                        known = k;
                        within = w;
                        object = for_object_ok session.target params.key source o;
                        place = refl;
                        overwrite = refl;
                      },
                      finish-IsClosed _ _ _ _ _ sent,
                    ))
            ]
          ]
    ]
