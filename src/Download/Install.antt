-- ===== src/Download/Install.antt =====
-- What the two ways to install a finished download leave at its destination.
use s3_pulse.Base.{
  ◌≡◌, ◌≢◌, ◌⊎◌, inl, inr, refl, sym, ◌∙◌, subst, Bool, true, false, none, some, Result, ok, err,
}
use s3_pulse.Base.Text.{Text, codes}
use s3_pulse.Error.{StoreError}
use s3_pulse.Error.Io.{IoError, IoErrorKind}
use s3_pulse.Download.{
  Run, existence, path_exists, install_without_overwrite, is_replaceable, fall_back, renamed,
  replace_file, install,
}
use s3_pulse.Download.Files.{
  Bytes, FileSystem, Answer, Unchanged, Linked, Renamed, Removed, IsLawful,
}
use s3_pulse.Download.Monad.{answered, continue}

module _ {PathBuf : Type 0} (fs : FileSystem PathBuf) (temporary destination : PathBuf) where
  abbrev pub Others : fs.State → fs.State → Type 0
  Others s s' = (q : PathBuf) → q ≢ temporary → q ≢ destination → fs.content s' q ≡ fs.content s q

  -- What a failure may have made of the destination: nothing, or with `overwrite` its removal, or
  -- without it the finished file.
  abbrev pub Spared : Bool → Bytes → fs.State → fs.State → Type 0
  Spared true bs s s' =
      (fs.content s' destination ≡ fs.content s destination) ⊎ (fs.content s' destination ≡ none)
  Spared false bs s s' =
      (fs.content s' destination ≡ fs.content s destination)
      ⊎ ((fs.content s destination ≡ none) × (fs.content s' destination ≡ some bs))

  abbrev pub Vacant : Bool → fs.State → Type 0
  Vacant true s = Unit
  Vacant false s = fs.content s destination ≡ none

module _ {F PathBuf : Type 0} (fs : FileSystem PathBuf) (lawful : IsLawful fs)
    (temporary destination : PathBuf) (apart : temporary ≢ destination) where
  -- The bytes `bs` of the temporary file are installed.
  abbrev pub Installed : Bool → Bytes → fs.State → Result StoreError (Unit {0}) × Run fs F → Type 0
  Installed overwrite bs s (ok u, m') =
      Others fs temporary destination s m'.files
      × (fs.content m'.files destination ≡ some bs)
      × (fs.content m'.files temporary ≡ none)
      × Vacant fs temporary destination overwrite s
  Installed overwrite bs s (err e, m') =
      Others fs temporary destination s m'.files
      × Spared fs temporary destination overwrite bs s m'.files

  unlinked_temporary :
      (bs : Bytes) (s : fs.State) (m : Run fs F) (operation : Text) (a : Answer fs.State)
      → Removed fs temporary m.files a
      → Others fs temporary destination s m.files
      → fs.content m.files destination ≡ some bs
      → fs.content s destination ≡ none
      → Installed false bs s (answered operation a m)
  unlinked_temporary bs s m operation (ok u, s') (gone, same) o d v =
      (λ q p r. same q p ∙ o q p r, same destination (λ e. apart (sym e)) ∙ d, gone, v)
  unlinked_temporary bs s m operation (err e, s') (same, missing) o d v =
      (λ q p r. same q ∙ o q p r, inr (v, same destination ∙ d))

  after_hard_link :
      {bs : Bytes} (m : Run fs F) (operation operation' : Text) (a : Answer fs.State)
      → fs.content m.files temporary ≡ some bs
      → Linked fs temporary destination m.files a
      → Installed false bs m.files (
          continue
            (answered operation a m)
            λ _ m'. answered operation' (fs.remove_file temporary m'.files) m')
  after_hard_link {bs} m operation operation' (ok u, s') h (vacant, e, same) =
      let m' = record m { files = s' } in
      unlinked_temporary bs m.files m' operation' (fs.remove_file temporary s')
        (lawful.remove_file_law temporary s') (λ q p r. same q r) (e ∙ h) vacant
  after_hard_link m operation operation' (err e, s') h same =
      (λ q p r. same q, inl (same destination))

  pub install_without_overwrite-Installed :
      {bs : Bytes} (m : Run fs F)
      → fs.content m.files temporary ≡ some bs
      → Installed false bs m.files (install_without_overwrite fs temporary destination m)
  unfolding install_without_overwrite
  install_without_overwrite-Installed m h =
      after_hard_link m (codes "install completed download") (codes "remove temporary download")
        (fs.hard_link temporary destination m.files) h
        (lawful.hard_link_law temporary destination m.files)

  -- The rename after the destination is removed.
  moved-Installed :
      (bs : Bytes) (s : fs.State) (m : Run fs F) (operation : Text) (a : Answer fs.State)
      → Renamed fs temporary destination m.files a
      → fs.content m.files temporary ≡ some bs
      → Others fs temporary destination s m.files
      → fs.content m.files destination ≡ none
      → Installed true bs s (answered operation a m)
  moved-Installed bs s m operation (ok u, s') (e, gone, same) h o d =
      (λ q p r. same q p r ∙ o q p r, e ∙ h, gone apart, tt)
  moved-Installed bs s m operation (err f, s') same h o d =
      (λ q p r. same q ∙ o q p r, inr (same destination ∙ d))

  cleared-Installed :
      (bs : Bytes) (s : fs.State) (m : Run fs F) (operation operation' : Text) (a : Answer fs.State)
      → Removed fs destination m.files a
      → fs.content m.files temporary ≡ some bs
      → Unchanged fs s m.files
      → Installed true bs s (
          continue
            (answered operation a m)
            λ _ m'. answered operation' (fs.rename temporary destination m'.files) m')
  cleared-Installed bs s m operation operation' (ok u, s') (gone, same) h o =
      let m' = record m { files = s' } in
      moved-Installed bs s m' operation' (fs.rename temporary destination s')
        (lawful.rename_law temporary destination s') (same temporary apart ∙ h)
        (λ q p r. same q r ∙ o q) gone
  cleared-Installed bs s m operation operation' (err f, s') (same, missing) h o =
      (λ q p r. same q ∙ o q, inl (same destination ∙ o destination))

  fall_back-Installed :
      (bs : Bytes) (s : fs.State) (m : Run fs F) (e : IoError)
      (replaceable : Result StoreError Bool)
      → fs.content m.files temporary ≡ some bs
      → Unchanged fs s m.files
      → Installed true bs s (continue (replaceable, m) (fall_back fs temporary destination e))
  fall_back-Installed bs s m e (ok true) h o =
      cleared-Installed bs s m (codes "replace existing download")
        (codes "install completed download") (fs.remove_file destination m.files)
        (lawful.remove_file_law destination m.files) h o
  fall_back-Installed bs s m e (ok false) h o = (λ q p r. o q, inl (o destination))
  fall_back-Installed bs s m e (err f) h o = (λ q p r. o q, inl (o destination))

  -- The guard leaves the files alone.
  is_replaceable_lem :
      (kind : IoErrorKind) (m : Run fs F)
      → (r : Result StoreError Bool) × (is_replaceable fs kind destination m ≡ (r, m))
  unfolding is_replaceable path_exists
  is_replaceable_lem IoErrorKind.not_found m = (ok false, refl)
  is_replaceable_lem IoErrorKind.already_exists m =
      (existence (fs.metadata m.files destination), refl)
  is_replaceable_lem IoErrorKind.permission_denied m =
      (existence (fs.metadata m.files destination), refl)
  is_replaceable_lem IoErrorKind.other m = (ok false, refl)

  renamed-Installed :
      {bs : Bytes} (m : Run fs F) (a : Answer fs.State)
      → Renamed fs temporary destination m.files a
      → fs.content m.files temporary ≡ some bs
      → Installed true bs m.files (renamed fs temporary destination a m)
  renamed-Installed m (ok u, s') (e, gone, same) h = (same, e ∙ h, gone apart, tt)
  renamed-Installed {bs} m (err e, s') same h =
      let m' = record m { files = s' } in
      let (r, guard) = is_replaceable_lem e.kind m' in
      subst (λ run. Installed true bs m.files (continue run (fall_back fs temporary destination e)))
        (sym guard) (fall_back-Installed bs m.files m' e r (same temporary ∙ h) same)

  pub replace_file-Installed :
      {bs : Bytes} (m : Run fs F)
      → fs.content m.files temporary ≡ some bs
      → Installed true bs m.files (replace_file fs temporary destination m)
  unfolding replace_file
  replace_file-Installed m h =
      renamed-Installed m (fs.rename temporary destination m.files)
        (lawful.rename_law temporary destination m.files) h

  pub install-Installed :
      {bs : Bytes} (overwrite : Bool) (m : Run fs F)
      → fs.content m.files temporary ≡ some bs
      → Installed overwrite bs m.files (install fs overwrite temporary destination m)
  install-Installed true m h = replace_file-Installed m h
  install-Installed false m h = install_without_overwrite-Installed m h
