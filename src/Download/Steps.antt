-- ===== src/Download/Steps.antt =====
-- The steps of the streaming half of a download: each leaves every file but the temporary one as it
-- was.
use s3_pulse.Base.{
  ℕ, suc, ◌≡◌, refl, ◌∙◌, ap, Bool, true, false, Option, none, some, List, Result, ok, err,
}
use s3_pulse.Base.Text.{Text}
use s3_pulse.Error.{StoreError}
use s3_pulse.Download.{Run}
use s3_pulse.Download.Files.{Bytes, FileSystem, Answer, Elsewhere, Touches, IsLawful}
use s3_pulse.Download.Values.{DownloadProgress}
use s3_pulse.Download.Monad.{
  Io, lift, continue, ◌>>=◌, answered, try_send, select, unless, send_progress,
}
use s3_pulse.Download.Frame.{Does, Does-trans}

-- What a path holds in files that are the same.
pub content-files :
    {PathBuf : Type 0} (fs : FileSystem PathBuf) (path : PathBuf) {bs : Bytes} {s s' : fs.State}
    → s' ≡ s
    → fs.content s path ≡ some bs
    → fs.content s' path ≡ some bs
content-files fs path e h = ap (λ s. fs.content s path) e ∙ h

module _ {F PathBuf : Type 0} (fs : FileSystem PathBuf) (lawful : IsLawful fs)
    (temporary : PathBuf) where
  -- Only the temporary file differs.
  abbrev pub Kept : Run fs F → Run fs F → Type 0
  Kept m m' = Elsewhere fs temporary m.files m'.files

  pub Kept-trans : (m m' m'' : Run fs F) → Kept m m' → Kept m' m'' → Kept m m''
  Kept-trans m m' m'' p q = λ path apart. q path apart ∙ p path apart

  abbrev pub Holds : Bytes → Run fs F → Type 0
  Holds bs m = fs.content m.files temporary ≡ some bs

  pub unless-Does :
      {A : Type 0} {C : A → Run fs F → Type 0} {m : Run fs F} (won : Bool) (run : Io (Run fs F) A)
      → ((m' : Run fs F) → m'.files ≡ m.files → Does Kept C m' (run m'))
      → Does Kept C m (unless won (fs.abandon temporary) run m)
  unless-Does {m = m} true run k = record { ends = lawful.abandon_law temporary m.files }
  unless-Does {m = m} false run k =
      let m' = record m { point = suc m.point } in
      Does-trans Kept Kept-trans m' (run m') (λ q apart. refl) (k m' refl)

  -- An operation under `select!` does what it does alone.
  pub select-Does :
      {A : Type 0} {C : A → Run fs F → Type 0} {m : Run fs F} (cancelled : ℕ → Bool)
      (run : Io (Run fs F) A)
      → ((m' : Run fs F) → m'.files ≡ m.files → Does Kept C m' (run m'))
      → Does Kept C m (select cancelled (fs.abandon temporary) run m)
  unfolding select
  select-Does {m = m} cancelled run k = unless-Does (cancelled m.point) run k

  pub unless-known :
      {A B : Type 0} {D : B → Run fs F → Type 0} {m : Run fs F} (a : A) (next : A → Io (Run fs F) B)
      (won : Bool)
      → ((m' : Run fs F) → m'.files ≡ m.files → Does Kept D m' (next a m'))
      → Does Kept D m (continue (unless won (fs.abandon temporary) (lift (ok a)) m) next)
  unless-known {m = m} a next true k = record { ends = lawful.abandon_law temporary m.files }
  unless-known {m = m} a next false k =
      let m' = record m { point = suc m.point } in
      Does-trans Kept Kept-trans m' (next a m') (λ q apart. refl) (k m' refl)

  -- A result that is there under `select!`.
  pub select-known :
      {A B : Type 0} {D : B → Run fs F → Type 0} {m : Run fs F} (a : A) (next : A → Io (Run fs F) B)
      (cancelled : ℕ → Bool)
      → ((m' : Run fs F) → m'.files ≡ m.files → Does Kept D m' (next a m'))
      → Does Kept D m ((select cancelled (fs.abandon temporary) (lift (ok a)) >>= next) m)
  unfolding select
  select-known {m = m} a next cancelled k = unless-known a next (cancelled m.point) k

  -- Under a `select!` whose operation, when dropped, leaves the files alone.
  pub unless_idle-Does :
      {A : Type 0} {C : A → Run fs F → Type 0} {m : Run fs F} (won : Bool) (run : Io (Run fs F) A)
      → ((m' : Run fs F)
          → m'.files ≡ m.files
          → m'.get_requests ≡ m.get_requests
          → Does Kept C m' (run m'))
      → Does Kept C m (unless won (λ s. s) run m)
  unless_idle-Does {m = m} true run k = record { ends = λ q apart. refl }
  unless_idle-Does {m = m} false run k =
      let m' = record m { point = suc m.point } in
      Does-trans Kept Kept-trans m' (run m') (λ q apart. refl) (k m' refl refl)

  pub answered-Does :
      (C : fs.State → Type 0) {m : Run fs F} (operation : Text) (a : Answer fs.State)
      → Touches fs temporary C m.files a
      → Does Kept (λ _ m'. C m'.files) m (answered operation a m)
  answered-Does C operation (ok u, s) p = record { ends = p }
  answered-Does C operation (err e, s) p = record { ends = p }

  pub forced-Does :
      {bs : Bytes} {m : Run fs F} (operation : Text) (a : Answer fs.State)
      → Holds bs m
      → Touches fs temporary
          (λ s'. fs.content s' temporary ≡ fs.content m.files temporary)
          m.files
          a
      → Does Kept (λ _ m'. Holds bs m') m (answered operation a m)
  forced-Does operation (ok u, s) h (apart, e) = record { ends = (apart, e ∙ h) }
  forced-Does operation (err f, s) h apart = record { ends = apart }

  pub lift-Does :
      {A : Type 0} {m : Run fs F} (r : Result StoreError A)
      → Does Kept (λ a m'. (r ≡ ok a) × (m'.files ≡ m.files)) m (lift r m)
  lift-Does (ok a) = record { ends = (λ q apart. refl, (refl, refl)) }
  lift-Does (err e) = record { ends = λ q apart. refl }

  try_send-Does :
      {m : Run fs F} (room : Bool) (progress : DownloadProgress F)
      → Does Kept (λ _ m'. m'.files ≡ m.files) m (try_send room progress m)
  try_send-Does true progress = record { ends = (λ q apart. refl, refl) }
  try_send-Does false progress = record { ends = (λ q apart. refl, refl) }

  pub send_progress-Does :
      {m : Run fs F} (sender : Option (List (DownloadProgress F) → Bool))
      (progress : DownloadProgress F)
      → Does Kept (λ _ m'. m'.files ≡ m.files) m (send_progress sender progress m)
  send_progress-Does none progress = record { ends = (λ q apart. refl, refl) }
  send_progress-Does {m = m} (some room) progress = try_send-Does (room m.sent) progress
