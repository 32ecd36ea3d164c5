-- ===== src/Download/Copying.antt =====
-- The copy of a response's body into the temporary file.
use mathlib.Core.List.{append-nil, append_assoc}
use s3_pulse.Base.{
  subst, ℕ, min, ◌≡◌, refl, Bool, false, Option, none, some, List, [], ◌∷◌, ◌++◌, arith, Result, ok,
  err, length, length-append,
}
use s3_pulse.Base.Text.{codes}
use s3_pulse.Base.Double.{Double}
use s3_pulse.Error.Io.{IoError, io_error}
use s3_pulse.Download.{saturating_add, u64_max, copy, Run}
use s3_pulse.Download.Files.{Bytes, FileSystem, IsLawful}
use s3_pulse.Download.Values.{DownloadProgress, progress_at}
use s3_pulse.Download.Monad.{pure, lift, ◌>>◌, call, select, send_progress}
use s3_pulse.Download.Steps.{
  Kept, Kept-trans, Holds, content-files, select-Does, select-known, answered-Does,
  send_progress-Does,
}
use s3_pulse.Download.Frame.{Does, Does-weaken, >>=-Does}

-- The bytes of a body: those of the reads up to one of no bytes, where no read before it fails.
unfoldable pub received : List (Result IoError Bytes) → Option Bytes
received [] = some []
received (err e ∷ rest) = none
received (ok [] ∷ rest) = some []
received (ok (b ∷ bs) ∷ rest) = elim (received rest) [
  | none ↦ none
  | some more ↦ some ((b ∷ bs) ++ more)
]

module _ {F PathBuf : Type 0} (d : Double F) (fs : FileSystem PathBuf) (lawful : IsLawful fs)
    (temporary : PathBuf) where
  module _ (sender : Option (List (DownloadProgress F) → Bool)) (cancelled : ℕ → Bool)
      (total_bytes : Option ℕ) where
    -- The copy of a body puts its bytes after those that are there, and counts them.
    abbrev pub Copied : List (Result IoError Bytes) → Bytes → ℕ → Run fs F → Type 0
    Copied body bs n m =
        (more : Bytes) × (received body ≡ some more)
        × Holds fs lawful temporary (bs ++ more) m
        × (n ≡ min (length (bs ++ more)) u64_max)

    Copied-end :
        {bs : Bytes} (body : List (Result IoError Bytes)) (m : Run fs F)
        → received body ≡ some []
        → Holds fs lawful temporary bs m
        → Copied body bs (min (length bs) u64_max) m
    Copied-end {bs} body m e h =
        ([], e, ground (arith, append-nil bs), ground (arith, append-nil bs))

    Copied-more :
        (bs : Bytes) (b : ℕ) (chunk : Bytes) (rest : List (Result IoError Bytes)) (n : ℕ)
        (m : Run fs F)
        → Copied rest (bs ++ b ∷ chunk) n m
        → Copied (ok (b ∷ chunk) ∷ rest) bs n m
    unfolding received
    Copied-more bs b chunk rest n m (more, e, h, l) =
        let whole : (bs ++ b ∷ chunk) ++ more ≡ bs ++ (b ∷ chunk ++ more) =
          append_assoc bs (b ∷ chunk) more in
        ((b ∷ chunk) ++ more, ground (arith, e), ground (arith, whole), ground (arith, whole))

    pub copy-Does :
        (body : List (Result IoError Bytes)) (bs : Bytes) (m : Run fs F)
        → Holds fs lawful temporary bs m
        → Does
            (Kept fs lawful temporary)
            (Copied body bs)
            m
            (copy fs d sender cancelled temporary total_bytes body (min (length bs) u64_max) m)
    unfolding copy received
    copy-Does [] bs m h =
        let count = min (length bs) u64_max in
        >>=-Does (Kept fs lawful temporary) (Kept-trans fs lawful temporary)
          (λ _ m'. Holds fs lawful temporary bs m')
          (select cancelled (fs.abandon temporary) (pure tt)) (λ _. pure count)
          (select-Does fs lawful temporary cancelled (pure tt)
            λ m' e. record { ends = (λ q apart. refl, content-files fs temporary e h) })
          λ _ m' h'. record { ends = (λ q apart. refl, Copied-end [] m' refl h') }
    copy-Does (err e ∷ rest) bs m h =
        >>=-Does (Kept fs lawful temporary) (Kept-trans fs lawful temporary) (λ _ m'. ⊥)
          (select cancelled (fs.abandon temporary)
            (lift (err (io_error (codes "read S3 response") e))))
          _
          (select-Does fs lawful temporary cancelled
            (lift (err (io_error (codes "read S3 response") e)))
            λ m' e'. record { ends = λ q apart. refl })
          λ _ m' impossible. absurd impossible
    copy-Does (ok [] ∷ rest) bs m h = select-known fs lawful temporary [] _ cancelled λ m' e.
        record {
          ends =
              (λ q apart. refl, Copied-end (ok [] ∷ rest) m' refl (content-files fs temporary e h));
        }
    copy-Does (ok (b ∷ chunk) ∷ rest) bs m h =
        let read = b ∷ chunk in
        let more =
          select cancelled (fs.abandon temporary)
            (call (codes "write download") (fs.write_all temporary read)) in
        let bytes = saturating_add (min (length bs) u64_max) (length read) in
        let report = send_progress sender (progress_at d bytes total_bytes false) in
        let again = copy fs d sender cancelled temporary total_bytes rest bytes in
        select-known fs lawful temporary read _ cancelled λ m₁ e₁.
          >>=-Does (Kept fs lawful temporary) (Kept-trans fs lawful temporary)
            (λ _ m'. Holds fs lawful temporary (bs ++ read) m') more (λ _. report >> again)
            (select-Does fs lawful temporary cancelled
              (call (codes "write download") (fs.write_all temporary read))
              λ m₂ e₂.
                answered-Does fs lawful temporary (λ s. fs.content s temporary ≡ some (bs ++ read))
                  (codes "write download") (fs.write_all temporary read m₂.files)
                  (lawful.write_all_law temporary read bs m₂.files
                    (content-files fs temporary e₂ (content-files fs temporary e₁ h))))
            λ _ m₂ h₂.
              >>=-Does (Kept fs lawful temporary) (Kept-trans fs lawful temporary)
                (λ _ m'. m'.files ≡ m₂.files) report (λ _. again)
                (send_progress-Does fs lawful temporary sender
                  (progress_at d bytes total_bytes false))
                λ _ m₃ e₃.
                  let count : min (length (bs ++ read)) u64_max ≡ bytes =
                    omega (arith, length-append bs read) in
                  Does-weaken (Kept fs lawful temporary) (again m₃) (Copied-more bs b chunk rest) (
                    subst
                      (λ n.
                        Does (Kept fs lawful temporary) (Copied rest (bs ++ read)) m₃
                          (copy fs d sender cancelled temporary total_bytes rest n m₃))
                      count (copy-Does rest (bs ++ read) m₃ (content-files fs temporary e₃ h₂)))
