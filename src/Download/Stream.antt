-- ===== src/Download/Stream.antt =====
-- What the streaming half of a download leaves in the files: nothing but the temporary file is
-- touched, and that one holds the bytes of the response.
use s3_pulse.Base.{
  subst, ℕ, suc, min, ◌≡◌, refl, sym, ◌∙◌, ap, Bool, Option, none, some, List, [], arith, Result,
  ok, err, map_err, length,
}
use s3_pulse.Base.Int.{ℤ, pos, negsuc}
use s3_pulse.Base.Text.{Text, codes}
use s3_pulse.Base.Double.{Double}
use s3_pulse.Error.{aws}
use s3_pulse.Download.{
  SdkError, GetOutput, u64_max, declared, check_length, copy, send, close_file, store_response,
  stream_download, Run,
}
use s3_pulse.Download.Files.{Bytes, FileSystem, IsLawful}
use s3_pulse.Download.Values.{DownloadRequest, DownloadProgress}
use s3_pulse.Download.Monad.{pure, lift, call, count_get, check_cancelled, select}
use s3_pulse.Download.Steps.{
  Kept, Kept-trans, Holds, content-files, select-Does, unless_idle-Does, answered-Does, forced-Does,
  lift-Does,
}
use s3_pulse.Download.Frame.{Does, Does-weaken, >>=-Does}
use s3_pulse.Download.Copying.{received, Copied, copy-Does}

-- The length that a response declares, where it declares one that is no negative number.
abbrev pub AgreesWith : Option ℤ → ℕ → Type 0
AgreesWith none n = Unit {0}
AgreesWith (some (pos expected)) n = n ≡ expected
AgreesWith (some (negsuc k)) n = Unit {0}

check_length-AgreesWith :
    (content_length : Option ℤ) (n : ℕ)
    → check_length (declared content_length) n ≡ ok tt
    → AgreesWith content_length n
unfolding declared check_length
check_length-AgreesWith none n h = tt
check_length-AgreesWith (some (pos expected)) n h = ground (arith, h)
check_length-AgreesWith (some (negsuc k)) n h = tt

module _ {F PathBuf : Type 0} (d : Double F) (fs : FileSystem PathBuf) (lawful : IsLawful fs)
    (temporary : PathBuf) where
  module _ (sender : Option (List (DownloadProgress F) → Bool)) (cancelled : ℕ → Bool)
      (output : GetOutput) where
    -- The bytes of the response in the temporary file, with its result.
    abbrev Closed : Bytes → ℕ × Option Text → Run fs F → Type 0
    Closed bs result m =
        Holds fs lawful temporary bs m
        × (result ≡ (min (length bs) u64_max, output.e_tag))
        × AgreesWith output.content_length (min (length bs) u64_max)

    close_file-Does :
        (bs : Bytes) (m : Run fs F)
        → Holds fs lawful temporary bs m
        → Does
            (Kept fs lawful temporary)
            (Closed bs)
            m
            (close_file fs d sender cancelled output temporary (min (length bs) u64_max) m)
    unfolding close_file
    close_file-Does bs m h =
        let n = min (length bs) u64_max in
        >>=-Does (Kept fs lawful temporary) (Kept-trans fs lawful temporary)
          (λ _ m'. Holds fs lawful temporary bs m')
          (select cancelled (fs.abandon temporary)
            (call (codes "flush download") (fs.flush temporary)))
          _
          (select-Does fs lawful temporary cancelled
            (call (codes "flush download") (fs.flush temporary))
            λ m' e.
              forced-Does fs lawful temporary (codes "flush download") (fs.flush temporary m'.files)
                (content-files fs temporary e h) (lawful.flush_law temporary m'.files))
          λ _ m₁ h₁.
            >>=-Does (Kept fs lawful temporary) (Kept-trans fs lawful temporary)
              (λ _ m'. Holds fs lawful temporary bs m')
              (select cancelled (fs.abandon temporary)
                (call (codes "sync download") (fs.sync_all temporary)))
              _
              (select-Does fs lawful temporary cancelled
                (call (codes "sync download") (fs.sync_all temporary))
                λ m' e.
                  forced-Does fs lawful temporary (codes "sync download")
                    (fs.sync_all temporary m'.files) (content-files fs temporary e h₁)
                    (lawful.sync_all_law temporary m'.files))
              λ _ m₂ h₂.
                >>=-Does (Kept fs lawful temporary) (Kept-trans fs lawful temporary)
                  (λ a m'.
                    (check_length (declared output.content_length) n ≡ ok a)
                    × (m'.files ≡ m₂.files))
                  (lift (check_length (declared output.content_length) n))
                  (λ _. pure (n, output.e_tag))
                  (lift-Does fs lawful temporary (check_length (declared output.content_length) n))
                  λ _ m₃ (checked, e₃). record {
                    ends = (
                      λ q apart. refl,
                      (
                        content-files fs temporary e₃ h₂,
                        refl,
                        check_length-AgreesWith output.content_length n checked,
                      ),
                    );
                  }

    -- All of that, with the bytes that the reads gave.
    abbrev Stored : ℕ × Option Text → Run fs F → Type 0
    Stored result m = (bs : Bytes) × (received output.body ≡ some bs) × Closed bs result m

    store_response-Does :
        (m : Run fs F)
        → Does
            (Kept fs lawful temporary)
            Stored
            m
            (store_response fs d sender cancelled output temporary m)
    unfolding store_response
    store_response-Does m =
        let total = declared output.content_length in
        >>=-Does (Kept fs lawful temporary) (Kept-trans fs lawful temporary)
          (λ _ m'. Holds fs lawful temporary [] m')
          (select cancelled (fs.abandon temporary)
            (call (codes "create temporary download") (fs.create_new temporary)))
          _
          (select-Does fs lawful temporary cancelled
            (call (codes "create temporary download") (fs.create_new temporary))
            λ m' _.
              answered-Does fs lawful temporary (λ s. fs.content s temporary ≡ some [])
                (codes "create temporary download") (fs.create_new temporary m'.files)
                (lawful.create_new_law temporary m'.files))
          λ _ m₁ h₁.
            >>=-Does (Kept fs lawful temporary) (Kept-trans fs lawful temporary)
              (Copied d fs lawful temporary sender cancelled total output.body [])
              (copy fs d sender cancelled temporary total output.body 0) _
              (copy-Does d fs lawful temporary sender cancelled total output.body [] m₁ h₁)
              λ n m₂ (bs, whole, h₂, count).
                Does-weaken (Kept fs lawful temporary)
                  (close_file fs d sender cancelled output temporary n m₂)
                  (λ result m' closed. (bs, whole, closed))
                  (subst
                    (λ k.
                      Does (Kept fs lawful temporary) (Closed bs) m₂
                        (close_file fs d sender cancelled output temporary k m₂))
                    (sym count) (close_file-Does bs m₂ h₂))

  module _ (sender : Option (List (DownloadProgress F) → Bool)) (cancelled : ℕ → Bool)
      (client : ℕ → Text → Text → Result SdkError GetOutput)
      (request : DownloadRequest PathBuf) where
    -- The response of the request that the meter counts, with its bytes in the temporary file.
    abbrev pub Streamed : ℕ → ℕ × Option Text → Run fs F → Type 0
    Streamed number result m =
        (output : GetOutput) × (bs : Bytes) × (client number request.source.bucket
            request.source.prefix
          ≡ ok output)
        × (received output.body ≡ some bs)
        × Holds fs lawful temporary bs m
        × (result ≡ (min (length bs) u64_max, output.e_tag))
        × AgreesWith output.content_length (min (length bs) u64_max)

    send-Does :
        (number : ℕ) (m : Run fs F)
        → m.get_requests ≡ number
        → Does
            (Kept fs lawful temporary)
            (λ output _. client number request.source.bucket request.source.prefix ≡ ok output)
            m
            (select cancelled (λ s. s) (send fs d sender cancelled client request) m)
    unfolding select send
    send-Does number m e =
        unless_idle-Does fs lawful temporary (cancelled m.point)
          (send fs d sender cancelled client request)
          λ m' _ g.
            sent m' (client m'.get_requests request.source.bucket request.source.prefix)
              (ap (λ n. client n request.source.bucket request.source.prefix) (sym e ∙ sym g))
      where
        sent :
            (m' : Run fs F) (answer : Result SdkError GetOutput)
            → client number request.source.bucket request.source.prefix ≡ answer
            → Does
                (Kept fs lawful temporary)
                (λ output _. client number request.source.bucket request.source.prefix ≡ ok output)
                m'
                (
                  map_err
                      (λ e. aws (codes "GetObject") e.code e.message e.display e.sources)
                      answer,
                  m',
                )
        sent m' (ok output) e = record { ends = (λ q apart. refl, e) }
        sent m' (err f) e = record { ends = λ q apart. refl }

    pub stream_download-Does :
        (m : Run fs F)
        → Does
            (Kept fs lawful temporary)
            (Streamed (suc m.get_requests))
            m
            (stream_download fs d sender cancelled client request temporary m)
    unfolding stream_download
    stream_download-Does m =
        >>=-Does (Kept fs lawful temporary) (Kept-trans fs lawful temporary)
          (λ _ m'. m'.get_requests ≡ m.get_requests) (check_cancelled cancelled) _
          (unless_idle-Does fs lawful temporary (cancelled m.point) (pure tt)
            λ m' _ g. record { ends = (λ q apart. refl, g) })
          λ _ m₁ g₁.
            >>=-Does (Kept fs lawful temporary) (Kept-trans fs lawful temporary)
              (λ _ m'. m'.get_requests ≡ suc m.get_requests) count_get _
              (record { ends = (λ q apart. refl, ap suc g₁) })
              λ _ m₂ g₂.
                >>=-Does (Kept fs lawful temporary) (Kept-trans fs lawful temporary)
                  (λ output _.
                    client (suc m.get_requests) request.source.bucket request.source.prefix
                    ≡ ok output)
                  (select cancelled (λ s. s) (send fs d sender cancelled client request)) _
                  (send-Does (suc m.get_requests) m₂ g₂)
                  λ output m₃ answer.
                    Does-weaken (Kept fs lawful temporary)
                      (store_response fs d sender cancelled output temporary m₃)
                      (λ result m' (bs, whole, (h, e, agrees)).
                        (output, bs, answer, whole, h, e, agrees))
                      (store_response-Does sender cancelled output m₃)
