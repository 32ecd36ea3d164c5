-- ===== src/Download/Safe.antt =====
-- `download_object` from end to end: what it makes of the files, and that its temporary file goes.
use s3_pulse.Base.{
  ℕ, suc, ◌≡◌, ◌≢◌, ◌⊎◌, inl, inr, refl, sym, ap, subst, Bool, true, false, Option, none, some,
  List, [], ◌∷◌, ◌++◌, Result, ok, err, arith, length, length-append, all, if◌then◌else◌,
  Option-cases, unwrap_or,
}
use s3_pulse.Base.Text.{Text, codes, is_empty}
use s3_pulse.Base.Double.{Double}
use s3_pulse.Error.{StoreError}
use s3_pulse.Download.{
  SdkError, GetOutput, Run, existence, path_exists, refuse_existing, check_destination,
  with_temporary, transfer, temporary_path, download_object,
}
use s3_pulse.Download.Files.{Paths, FileSystem, IsLawful, IsNaming, is_word}
use s3_pulse.Error.Io.{IoError, IoErrorKind}
use s3_pulse.Download.Values.{DownloadRequest, DownloadProgress, DownloadResult}
use s3_pulse.Download.Monad.{Io, continue, throw, ◌>>◌}
use s3_pulse.Download.Outcome.{Completed, with_temporary-Completed}

-- The random part of a temporary name is made of word characters.
module _ {PathBuf : Type 0} (paths : Paths PathBuf) (naming : IsNaming paths) (uuid : Text)
    (plain : all is_word uuid ≡ true) where
  suffix : Text
  suffix = codes ".s3pulse-" ++ (uuid ++ codes ".part")

  all-append :
      (xs ys : Text) → all is_word xs ≡ true → all is_word ys ≡ true → all is_word (xs ++ ys) ≡ true
  all-append [] ys p q = q
  all-append (x ∷ xs) ys p q = ground (arith, all-append xs ys)

  suffix_plain : all is_word suffix ≡ true
  unfolding suffix
  suffix_plain =
      all-append (codes ".s3pulse-") (uuid ++ codes ".part") refl
        (all-append uuid (codes ".part") plain refl)

  -- A file name is shorter than the temporary name made from it.
  longer : (name : Text) → name ≡ codes "." ++ (name ++ suffix) → ⊥
  longer name e =
      let same : length name ≡ length (codes "." ++ (name ++ suffix)) = ap length e in
      omega (arith, same, length-append name suffix)

  file_name-temporary :
      (destination : PathBuf) (name : Text)
      → unwrap_or (paths.file_name destination) (codes "download") ≡ name
      → paths.is_name name ≡ true
      → paths.file_name (temporary_path paths uuid destination)
        ≡ some (codes "." ++ (name ++ suffix))
  unfolding temporary_path suffix
  file_name-temporary destination name e is =
      subst
        (λ n.
          paths.file_name (paths.with_file_name destination (codes "." ++ (n ++ suffix)))
          ≡ some (codes "." ++ (name ++ suffix)))
        (sym e)
        (naming.file_name-with_file_name destination (codes "." ++ (name ++ suffix))
          (naming.is_name-extended name suffix is suffix_plain))

  temporary_path_apart :
      (destination : PathBuf) → temporary_path paths uuid destination ≢ destination
  temporary_path_apart destination e = elim (Option-cases (paths.file_name destination)) [
    | inl none_there ↦
        let other =
          file_name-temporary destination (codes "download")
            (ap (λ o. unwrap_or o (codes "download")) none_there) naming.is_name_download in
        absurd (cc (none_there, other, e))
    | inr (name, there) ↦
        let other =
          file_name-temporary destination name (ap (λ o. unwrap_or o (codes "download")) there)
            (naming.file_name-is_name destination name there) in
        let same : paths.file_name destination
            ≡ paths.file_name (temporary_path paths uuid destination) =
          ap paths.file_name (sym e) in
        longer name (cc (there, other, same))
  ]

-- What holds of a refusal, which leaves the state, and of the guarded part holds of the whole.
module _ {F PathBuf : Type 0} (fs : FileSystem PathBuf)
    (P : Result StoreError (DownloadResult PathBuf) × Run fs F → Type 0) (m : Run fs F)
    (refused : (e : StoreError) → P (err e, m)) (run : Io (Run fs F) (DownloadResult PathBuf))
    (guarded : P (run m)) where
  after_refuse_existing :
      (shown : Text) (exists : Result StoreError Bool)
      → P (continue (continue (exists, m) (refuse_existing fs shown)) λ _. run)
  after_refuse_existing shown (ok true) = refused _
  after_refuse_existing shown (ok false) = guarded
  after_refuse_existing shown (err e) = refused e

  after_check_destination :
      (paths : Paths PathBuf) (overwrite : Bool) (destination : PathBuf)
      → P ((check_destination fs paths overwrite destination >> run) m)
  unfolding path_exists
  after_check_destination paths true destination = guarded
  after_check_destination paths false destination =
      after_refuse_existing (paths.display destination)
        (existence (fs.metadata m.files destination))

after_test :
    {F PathBuf : Type 0} (fs : FileSystem PathBuf)
    (P : Result StoreError (DownloadResult PathBuf) × Run fs F → Type 0) (m : Run fs F) (b : Bool)
    (e : StoreError) (run : Io (Run fs F) (DownloadResult PathBuf))
    → P (err e, m)
    → P (run m)
    → P ((if b then throw e else run) m)
after_test fs P m true e run p q = p
after_test fs P m false e run p q = q

-- On a lawful file system, and with a random part made of word characters: a download that succeeds
-- leaves at the destination exactly the bytes of one response, whose declared length, where there
-- is one, is theirs; nothing is left at the temporary path, without `overwrite` the destination held
-- nothing before, and the result counts the bytes. One that fails leaves the destination as it was,
-- or with `overwrite` removed, or without it vacant before and with all the bytes now. Either way
-- no other path changes.
pub download_object-Completed :
    {F PathBuf : Type 0} (fs : FileSystem PathBuf) (lawful : IsLawful fs) (d : Double F)
    (sender : Option (List (DownloadProgress F) → Bool)) (cancelled : ℕ → Bool)
    (client : ℕ → Text → Text → Result SdkError GetOutput) (request : DownloadRequest PathBuf)
    (paths : Paths PathBuf) (naming : IsNaming paths) (uuid : Text)
    (plain : all is_word uuid ≡ true) (m : Run fs F)
    → Completed fs lawful d sender cancelled client request
        (temporary_path paths uuid request.destination)
        (suc m.get_requests)
        m.files
        (download_object fs d sender cancelled client paths uuid request m)
unfolding download_object
download_object-Completed fs lawful d sender cancelled client request paths naming uuid plain m =
    let temporary = temporary_path paths uuid request.destination in
    let Goal =
      Completed fs lawful d sender cancelled client request temporary (suc m.get_requests)
        m.files in
    let run =
      with_temporary fs temporary (transfer fs d sender cancelled client request temporary) in
    after_test fs Goal m (is_empty request.source.prefix) _
      (check_destination fs paths request.overwrite request.destination >> run)
      (λ q r r'. refl, inl refl)
      (after_check_destination fs Goal m (λ e. (λ q r r'. refl, inl refl)) run
        (with_temporary-Completed fs lawful d sender cancelled client request temporary
          (temporary_path_apart paths naming uuid plain request.destination) m)
        paths request.overwrite request.destination)

module _ {PathBuf : Type 0} (fs : FileSystem PathBuf) where
  -- Nothing is left at the path, or the last call was a removal of it that failed, and not because
  -- there was nothing.
  abbrev pub Cleaned : PathBuf → fs.State → Type 0
  Cleaned path files =
      (fs.content files path ≡ none)
      ⊎ ((s : fs.State) × (e : IoError) × (fs.remove_file path s ≡ (err e, files))
          × (e.kind ≢ IoErrorKind.not_found))
