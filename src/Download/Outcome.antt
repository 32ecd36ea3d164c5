-- ===== src/Download/Outcome.antt =====
-- A whole download: what it leaves in the files when it succeeds and when it fails.
use s3_pulse.Base.{
  ℕ, suc, min, ◌≡◌, ◌≢◌, ◌⊎◌, inl, inr, refl, sym, ◌∙◌, ap, subst, Bool, true, false, Option, none,
  some, List, ◌∷◌, Result, ok, err, length,
}
use s3_pulse.Base.Text.{Text}
use s3_pulse.Base.Double.{Double}
use s3_pulse.Error.{StoreError}
use s3_pulse.Download.{
  SdkError, GetOutput, u64_max, Run, install, dropped, with_temporary, stream_download, transfer,
}
use s3_pulse.Download.Files.{Bytes, FileSystem, Answer, Elsewhere, Removed, IsLawful}
use s3_pulse.Download.Values.{DownloadRequest, DownloadProgress, DownloadResult, progress_at}
use s3_pulse.Download.Monad.{Io, continue, pure, ◌>>◌, try_send, send_progress}
use s3_pulse.Download.Frame.{Does}
use s3_pulse.Download.Copying.{received}
use s3_pulse.Download.Stream.{AgreesWith, Streamed, stream_download-Does}
use s3_pulse.Download.Steps.{Kept}
use s3_pulse.Download.Install.{Others, Vacant, Spared, Installed, install-Installed}

Removed-parts :
    {PathBuf : Type 0} (fs : FileSystem PathBuf) (p : PathBuf) (s : fs.State) (a : Answer fs.State)
    → Removed fs p s a
    → Elsewhere fs p s (a.1) × (fs.content s p ≡ none → fs.content (a.1) p ≡ none)
Removed-parts fs p s (ok u, s') (gone, same) = (same, λ _. gone)
Removed-parts fs p s (err e, s') (same, missing) = (λ q _. same q, λ h. same p ∙ h)

module _ {F PathBuf : Type 0} (fs : FileSystem PathBuf) (lawful : IsLawful fs) (d : Double F)
    (sender : Option (List (DownloadProgress F) → Bool)) (cancelled : ℕ → Bool)
    (client : ℕ → Text → Text → Result SdkError GetOutput) (request : DownloadRequest PathBuf) where
  -- The answer to the request with the given number holds the bytes.
  abbrev pub Serves : ℕ → GetOutput → Bytes → Type 0
  Serves number output bs =
      (client number request.source.bucket request.source.prefix ≡ ok output)
      × (received output.body ≡ some bs)

  -- The destination after a failure that has changed it.
  abbrev pub Disturbed : Bool → ℕ → fs.State → fs.State → Type 0
  Disturbed true number s s' = fs.content s' request.destination ≡ none
  Disturbed false number s s' =
      (output : GetOutput) × (bs : Bytes) × Serves number output bs
      × (fs.content s request.destination ≡ none)
      × (fs.content s' request.destination ≡ some bs)

  abbrev pub result_of : GetOutput → Bytes → DownloadResult PathBuf
  result_of output bs = record {
    source = request.source;
    destination = request.destination;
    bytes_transferred = min (length bs) u64_max;
    etag = output.e_tag;
  }

  -- The end of a download from the files `s`, with the temporary file at `temporary`.
  abbrev pub Completed :
      PathBuf → ℕ → fs.State → Result StoreError (DownloadResult PathBuf) × Run fs F → Type 0
  Completed temporary number s (ok result, m') =
      (output : GetOutput) × (bs : Bytes) × Serves number output bs
      × AgreesWith output.content_length (min (length bs) u64_max)
      × Others fs temporary request.destination s m'.files
      × (fs.content m'.files request.destination ≡ some bs)
      × (fs.content m'.files temporary ≡ none)
      × Vacant fs temporary request.destination request.overwrite s
      × (result ≡ result_of output bs)
  Completed temporary number s (err e, m') =
      Others fs temporary request.destination s m'.files
      × ((fs.content m'.files request.destination ≡ fs.content s request.destination)
          ⊎ Disturbed request.overwrite number s m'.files)

  try_send_lem :
      (m : Run fs F) (room : Bool) (progress : DownloadProgress F)
      → (m' : Run fs F) × (try_send room progress m ≡ (ok tt, m')) × (m'.files ≡ m.files)
  try_send_lem m true progress = (record m { sent = progress ∷ m.sent }, refl, refl)
  try_send_lem m false progress = (m, refl, refl)

  send_progress_lem :
      (m : Run fs F) (sender' : Option (List (DownloadProgress F) → Bool))
      (progress : DownloadProgress F)
      → (m' : Run fs F) × (send_progress sender' progress m ≡ (ok tt, m')) × (m'.files ≡ m.files)
  send_progress_lem m none progress = (m, refl, refl)
  send_progress_lem m (some room) progress = try_send_lem m (room m.sent) progress

  module _ (temporary : PathBuf) (apart : temporary ≢ request.destination) where
    -- What follows the installation.
    abbrev report : ℕ → Option Text → Io (Run fs F) (DownloadResult PathBuf)
    report n etag =
        send_progress sender (progress_at d n (some n) true)
        >> pure (record {
          source = request.source;
          destination = request.destination;
          bytes_transferred = n;
          etag = etag;
        })

    Vacant-back :
        (overwrite : Bool) (s s' : fs.State)
        → fs.content s' request.destination ≡ fs.content s request.destination
        → Vacant fs temporary request.destination overwrite s'
        → Vacant fs temporary request.destination overwrite s
    Vacant-back true s s' e v = v
    Vacant-back false s s' e v = sym e ∙ v

    Spared-Disturbed :
        (overwrite : Bool) (number : ℕ) (s s' s'' : fs.State) (output : GetOutput) (bs : Bytes)
        → Serves number output bs
        → fs.content s' request.destination ≡ fs.content s request.destination
        → Spared fs temporary request.destination overwrite bs s' s''
        → (fs.content s'' request.destination ≡ fs.content s request.destination)
          ⊎ Disturbed overwrite number s s''
    Spared-Disturbed true number s s' s'' output bs v e (inl same) = inl (same ∙ e)
    Spared-Disturbed true number s s' s'' output bs v e (inr gone) = inr gone
    Spared-Disturbed false number s s' s'' output bs v e (inl same) = inl (same ∙ e)
    Spared-Disturbed false number s s' s'' output bs v e (inr (vacant, there)) =
        inr (output, bs, v, sym e ∙ vacant, there)

    after_install :
        (number : ℕ) (s : fs.State) (m : Run fs F) (output : GetOutput) (bs : Bytes)
        (r : Result StoreError (Unit {0}) × Run fs F)
        → Installed fs lawful temporary request.destination apart request.overwrite bs m.files r
        → Elsewhere fs temporary s m.files
        → Serves number output bs
        → AgreesWith output.content_length (min (length bs) u64_max)
        → Completed temporary number s
            (continue r λ _. report (min (length bs) u64_max) output.e_tag)
    after_install number s m output bs (ok u, m') (o, there, gone, vacant) f v c =
        let n = min (length bs) u64_max in
        let (m'', sent, e) = send_progress_lem m' sender (progress_at d n (some n) true) in
        let at : (path : PathBuf) → fs.content m''.files path ≡ fs.content m'.files path =
          λ path. ap (λ files. fs.content files path) e in
        let answer : report n output.e_tag m' ≡ (ok (result_of output bs), m'') = rw sent in
        subst (Completed temporary number s) (sym answer) (
          output,
          bs,
          v,
          c,
          λ q p r. at q ∙ o q p r ∙ f q p,
          at request.destination ∙ there,
          at temporary ∙ gone,
          Vacant-back request.overwrite s m.files (f request.destination (λ e'. apart (sym e')))
              vacant,
          refl,
        )
    after_install number s m output bs (err e, m') (o, spared) f v c = (
      λ q p r. o q p r ∙ f q p,
      Spared-Disturbed request.overwrite number s m.files m'.files output bs v
          (f request.destination (λ e'. apart (sym e'))) spared,
    )

    after_stream :
        (number : ℕ) (m : Run fs F) (r : Result StoreError (ℕ × Option Text) × Run fs F)
        → Does
            (Kept fs lawful temporary)
            (Streamed d fs lawful temporary sender cancelled client request number)
            m
            r
        → Completed temporary number m.files (
            continue r λ streamed.
              install fs request.overwrite temporary request.destination
              >> report (streamed.0) (streamed.1))
    after_stream number m (ok streamed, m') p =
        let (output, bs, answer, whole, holds, e, c) = (p.ends).1 in
        subst
          (λ pair. Completed temporary number m.files (
            (install fs request.overwrite temporary request.destination >> report (pair.0) (pair.1))
              m'))
          (sym e)
          (after_install number m.files m' output bs
            (install fs request.overwrite temporary request.destination m')
            (install-Installed fs lawful temporary request.destination apart request.overwrite m'
              holds)
            ((p.ends).0) (answer, whole) c)
    after_stream number m (err e, m') p =
        (λ q r _. p.ends q r, inl (p.ends request.destination (λ e'. apart (sym e'))))

    transfer-Completed :
        (m : Run fs F)
        → Completed temporary
            (suc m.get_requests)
            m.files
            (transfer fs d sender cancelled client request temporary m)
    unfolding transfer
    transfer-Completed m =
        after_stream (suc m.get_requests) m
          (stream_download fs d sender cancelled client request temporary m)
          (stream_download-Does d fs lawful temporary sender cancelled client request m)

    still_spared :
        (overwrite : Bool) (number : ℕ) (s s' s'' : fs.State)
        → fs.content s'' request.destination ≡ fs.content s' request.destination
        → (fs.content s' request.destination ≡ fs.content s request.destination)
          ⊎ Disturbed overwrite number s s'
        → (fs.content s'' request.destination ≡ fs.content s request.destination)
          ⊎ Disturbed overwrite number s s''
    still_spared overwrite number s s' s'' e (inl same) = inl (e ∙ same)
    still_spared true number s s' s'' e (inr gone) = inr (e ∙ gone)
    still_spared false number s s' s'' e (inr (output, bs, v, vacant, there)) =
        inr (output, bs, v, vacant, e ∙ there)

    -- The guard takes away no more than the temporary file.
    dropped-Completed :
        (number : ℕ) (s : fs.State) (r : Result StoreError (DownloadResult PathBuf) × Run fs F)
        → Completed temporary number s r
        → Completed temporary number s (dropped fs temporary r)
    dropped-Completed number s (ok result, m') (output, bs, v, c, o, there, gone, vacant, e) =
        let (same, still) =
          Removed-parts fs temporary m'.files (fs.remove_file temporary m'.files)
            (lawful.remove_file_law temporary m'.files) in
        (
          output,
          bs,
          v,
          c,
          λ q p r. same q p ∙ o q p r,
          same request.destination (λ e'. apart (sym e')) ∙ there,
          still gone,
          vacant,
          e,
        )
    dropped-Completed number s (err e, m') (o, spared) =
        let (same, still) =
          Removed-parts fs temporary m'.files (fs.remove_file temporary m'.files)
            (lawful.remove_file_law temporary m'.files) in
        let here = same request.destination (λ e'. apart (sym e')) in
        (
          λ q p r. same q p ∙ o q p r,
          still_spared request.overwrite number s m'.files ((fs.remove_file temporary m'.files).1)
              here spared,
        )

    pub with_temporary-Completed :
        (m : Run fs F)
        → Completed temporary (suc m.get_requests) m.files (
            with_temporary fs temporary (transfer fs d sender cancelled client request temporary) m)
    unfolding with_temporary
    with_temporary-Completed m =
        dropped-Completed (suc m.get_requests) m.files
          (transfer fs d sender cancelled client request temporary m) (transfer-Completed m)
