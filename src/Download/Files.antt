-- ===== src/Download/Files.antt =====
-- The operating system under the download of crates/s3pulse-core/src/store.rs: paths, the calls of
-- `tokio::fs` and `std::fs` on files, and what their documentation says of them.
use s3_pulse.Base.{
  ℕ, ◌≡◌, ◌≢◌, Bool, true, ◌&&◌, ◌||◌, leb, ◌==◌, Option, none, some, List, [], ◌++◌, all, Result,
  ok, err,
}
use s3_pulse.Base.Text.{Text, codes}
use s3_pulse.Error.Io.{IoError, IoErrorKind}

abbrev pub Bytes : Type 0
Bytes = List ℕ

-- `file_name` is the name where it is valid UTF-8; `is_name` says whether a text can be one.
pub record Paths (PathBuf : Type 0) : Type 0 where
  pub is_name : Text → Bool
  pub file_name : PathBuf → Option Text
  pub with_file_name : PathBuf → Text → PathBuf
  pub display : PathBuf → Text

-- The answer of a call that has an effect.
abbrev pub Answer : Type 0 → Type 0
Answer State = Result IoError (Unit {0}) × State

-- `content` is what a path holds, `none` where there is nothing; `abandon` is what a call on the
-- file at a path may have done when it is dropped half-way.
pub record FileSystem (PathBuf : Type 0) : Type 1 where
  pub State : Type 0
  pub content : State → PathBuf → Option Bytes
  pub metadata : State → PathBuf → Result IoError (Unit {0})
  pub create_new : PathBuf → State → Answer State
  pub write_all : PathBuf → Bytes → State → Answer State
  pub flush : PathBuf → State → Answer State
  pub sync_all : PathBuf → State → Answer State
  pub hard_link : PathBuf → PathBuf → State → Answer State
  pub rename : PathBuf → PathBuf → State → Answer State
  pub remove_file : PathBuf → State → Answer State
  pub abandon : PathBuf → State → State

module _ {PathBuf : Type 0} (fs : FileSystem PathBuf) where
  abbrev pub Elsewhere : PathBuf → fs.State → fs.State → Type 0
  Elsewhere p s s' = (q : PathBuf) → q ≢ p → fs.content s' q ≡ fs.content s q

  abbrev pub Unchanged : fs.State → fs.State → Type 0
  Unchanged s s' = (q : PathBuf) → fs.content s' q ≡ fs.content s q

  abbrev pub Inspected : fs.State → PathBuf → Result IoError (Unit {0}) → Type 0
  Inspected s p (ok u) = fs.content s p ≢ none
  Inspected s p (err e) = e.kind ≡ IoErrorKind.not_found → fs.content s p ≡ none

  -- A call that writes one file, which may hold anything where the call fails.
  abbrev pub Touches : PathBuf → (fs.State → Type 0) → fs.State → Answer fs.State → Type 0
  Touches p C s (ok u, s') = Elsewhere p s s' × C s'
  Touches p C s (err e, s') = Elsewhere p s s'

  abbrev pub Linked : PathBuf → PathBuf → fs.State → Answer fs.State → Type 0
  Linked from to s (ok u, s') =
      (fs.content s to ≡ none) × (fs.content s' to ≡ fs.content s from) × Elsewhere to s s'
  Linked from to s (err e, s') = Unchanged s s'

  abbrev pub Renamed : PathBuf → PathBuf → fs.State → Answer fs.State → Type 0
  Renamed from to s (ok u, s') =
      (fs.content s' to ≡ fs.content s from)
      × (from ≢ to → fs.content s' from ≡ none)
      × ((q : PathBuf) → q ≢ from → q ≢ to → fs.content s' q ≡ fs.content s q)
  Renamed from to s (err e, s') = Unchanged s s'

  abbrev pub Removed : PathBuf → fs.State → Answer fs.State → Type 0
  Removed p s (ok u, s') = (fs.content s' p ≡ none) × Elsewhere p s s'
  Removed p s (err e, s') =
      Unchanged s s' × (e.kind ≡ IoErrorKind.not_found → fs.content s p ≡ none)

  pub record IsLawful : Type 0 where
    pub metadata_law : (p : PathBuf) (s : fs.State) → Inspected s p (fs.metadata s p)
    pub create_new_law :
        (p : PathBuf) (s : fs.State)
        → Touches p (λ s'. fs.content s' p ≡ some []) s (fs.create_new p s)
    pub write_all_law :
        (p : PathBuf) (more bs : Bytes) (s : fs.State)
        → fs.content s p ≡ some bs
        → Touches p (λ s'. fs.content s' p ≡ some (bs ++ more)) s (fs.write_all p more s)
    pub flush_law :
        (p : PathBuf) (s : fs.State)
        → Touches p (λ s'. fs.content s' p ≡ fs.content s p) s (fs.flush p s)
    pub sync_all_law :
        (p : PathBuf) (s : fs.State)
        → Touches p (λ s'. fs.content s' p ≡ fs.content s p) s (fs.sync_all p s)
    pub hard_link_law :
        (from to : PathBuf) (s : fs.State) → Linked from to s (fs.hard_link from to s)
    pub rename_law : (from to : PathBuf) (s : fs.State) → Renamed from to s (fs.rename from to s)
    pub remove_file_law : (p : PathBuf) (s : fs.State) → Removed p s (fs.remove_file p s)
    pub abandon_law : (p : PathBuf) (s : fs.State) → Elsewhere p s (fs.abandon p s)

-- Letters and digits of ASCII, the hyphen and the full stop.
abbrev pub is_word : ℕ → Bool
is_word c =
    c == 45
    || (c == 46 || (leb 48 c && leb c 57 || (leb 65 c && leb c 90 || leb 97 c && leb c 122)))

-- A name is one component of a path. Word characters added to a name leave it one.
pub record IsNaming {PathBuf : Type 0} (paths : Paths PathBuf) : Type 0 where
  pub file_name-is_name :
      (p : PathBuf) (name : Text) → paths.file_name p ≡ some name → paths.is_name name ≡ true
  pub is_name_download : paths.is_name (codes "download") ≡ true
  pub is_name-extended :
      (name more : Text)
      → paths.is_name name ≡ true
      → all is_word more ≡ true
      → paths.is_name (codes "." ++ (name ++ more)) ≡ true
  pub file_name-with_file_name :
      (p : PathBuf) (name : Text)
      → paths.is_name name ≡ true
      → paths.file_name (paths.with_file_name p name) ≡ some name
