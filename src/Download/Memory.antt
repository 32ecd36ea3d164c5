-- ===== src/Download/Memory.antt =====
-- One directory in memory: a file system that has the documented behaviour.
use s3_pulse.Base.{
  ◌≡◌, refl, sym, ◌∙◌, true, Option, none, some, [], ◌++◌, Result, ok, err, if◌then◌else◌, arith,
  Bool-cases, inl, inr,
}
use s3_pulse.Base.Text.{Text, codes, same_text, same_text→eq, same_text_refl}
use s3_pulse.Error.Io.{IoError, IoErrorKind}
use s3_pulse.Download.Files.{
  Bytes, Paths, FileSystem, Answer, Elsewhere, Inspected, Touches, Linked, Renamed, Removed,
  IsLawful, IsNaming,
}

abbrev pub Directory : Type 0
Directory = Text → Option Bytes

abbrev pub put : Text → Option Bytes → Directory → Directory
put p content s q = if same_text q p then content else s q

abbrev fault : IoErrorKind → IoError
fault kind = record { kind = kind; display = codes "fault" }

abbrev create : Text → Directory → Option Bytes → Answer Directory
create p s none = (ok tt, put p (some []) s)
create p s (some bs) = (err (fault IoErrorKind.already_exists), s)

abbrev append : Text → Bytes → Directory → Option Bytes → Answer Directory
append p more s none = (err (fault IoErrorKind.not_found), s)
append p more s (some bs) = (ok tt, put p (some (bs ++ more)) s)

abbrev link : Text → Directory → Option Bytes → Option Bytes → Answer Directory
link to s none there = (err (fault IoErrorKind.not_found), s)
link to s (some bs) none = (ok tt, put to (some bs) s)
link to s (some bs) (some other) = (err (fault IoErrorKind.already_exists), s)

abbrev move : Text → Text → Directory → Option Bytes → Answer Directory
move from to s none = (err (fault IoErrorKind.not_found), s)
move from to s (some bs) = (ok tt, put to (some bs) (put from none s))

abbrev remove : Text → Directory → Option Bytes → Answer Directory
remove p s none = (err (fault IoErrorKind.not_found), s)
remove p s (some bs) = (ok tt, put p none s)

abbrev inspect : Option Bytes → Result IoError (Unit {0})
inspect none = err (fault IoErrorKind.not_found)
inspect (some bs) = ok tt

abbrev pub memory : FileSystem Text
memory = record {
  State = Directory;
  content = λ s p. s p;
  metadata = λ s p. inspect (s p);
  create_new = λ p s. create p s (s p);
  write_all = λ p more s. append p more s (s p);
  flush = λ p s. (ok tt, s);
  sync_all = λ p s. (ok tt, s);
  hard_link = λ from to s. link to s (s from) (s to);
  rename = λ from to s. move from to s (s from);
  remove_file = λ p s. remove p s (s p);
  abandon = λ p s. s;
}

put_there : (p : Text) (c : Option Bytes) (s : Directory) → put p c s p ≡ c
put_there p c s = rw (same_text_refl p)

put-Elsewhere : (p : Text) (c : Option Bytes) (s : Directory) → Elsewhere memory p s (put p c s)
put-Elsewhere p c s q apart = elim (Bool-cases (same_text q p)) [
  | inl e ↦ absurd (apart (same_text→eq q p e))
  | inr e ↦ rw e
]

metadata_lem :
    (s : Directory) (p : Text) (c : Option Bytes) → s p ≡ c → Inspected memory s p (inspect c)
metadata_lem s p none e = λ _. e
metadata_lem s p (some bs) e = λ h. absurd (cc (e, h))

create_lem :
    (p : Text) (s : Directory) (c : Option Bytes)
    → Touches memory p (λ s'. s' p ≡ some []) s (create p s c)
create_lem p s none = (put-Elsewhere p (some []) s, put_there p (some []) s)
create_lem p s (some bs) = λ q apart. refl

append_lem :
    (p : Text) (more bs : Bytes) (s : Directory) (c : Option Bytes)
    → c ≡ some bs
    → Touches memory p (λ s'. s' p ≡ some (bs ++ more)) s (append p more s c)
append_lem p more bs s none e = λ q apart. refl
append_lem p more bs s (some cs) e =
    (put-Elsewhere p (some (cs ++ more)) s, put_there p (some (cs ++ more)) s ∙ ground (arith, e))

link_lem :
    (from to : Text) (s : Directory) (c c' : Option Bytes)
    → s from ≡ c
    → s to ≡ c'
    → Linked memory from to s (link to s c c')
link_lem from to s none c' e e' = λ q. refl
link_lem from to s (some bs) none e e' =
    (e', put_there to (some bs) s ∙ sym e, put-Elsewhere to (some bs) s)
link_lem from to s (some bs) (some cs) e e' = λ q. refl

move_lem :
    (from to : Text) (s : Directory) (c : Option Bytes)
    → s from ≡ c
    → Renamed memory from to s (move from to s c)
move_lem from to s none e = λ q. refl
move_lem from to s (some bs) e = (
  put_there to (some bs) (put from none s) ∙ sym e,
  λ apart. put-Elsewhere to (some bs) (put from none s) from apart ∙ put_there from none s,
  λ q p r. put-Elsewhere to (some bs) (put from none s) q r ∙ put-Elsewhere from none s q p,
)

remove_lem :
    (p : Text) (s : Directory) (c : Option Bytes) → s p ≡ c → Removed memory p s (remove p s c)
remove_lem p s none e = (λ q. refl, λ _. e)
remove_lem p s (some bs) e = (put_there p none s, put-Elsewhere p none s)

pub memory-IsLawful : IsLawful memory
memory-IsLawful = record {
  metadata_law = λ p s. metadata_lem s p (s p) refl;
  create_new_law = λ p s. create_lem p s (s p);
  write_all_law = λ p more bs s e. append_lem p more bs s (s p) e;
  flush_law = λ p s. (λ q apart. refl, refl);
  sync_all_law = λ p s. (λ q apart. refl, refl);
  hard_link_law = λ from to s. link_lem from to s (s from) (s to) refl refl;
  rename_law = λ from to s. move_lem from to s (s from) refl;
  remove_file_law = λ p s. remove_lem p s (s p) refl;
  abandon_law = λ p s q apart. refl;
}

-- A path of the directory is a file name.
abbrev pub names : Paths Text
names = record {
  is_name = λ t. true;
  file_name = λ p. some p;
  with_file_name = λ p name. name;
  display = λ p. p;
}

pub names-IsNaming : IsNaming names
names-IsNaming = record {
  file_name-is_name = λ p name e. refl;
  is_name_download = refl;
  is_name-extended = λ name more p q. refl;
  file_name-with_file_name = λ p name e. refl;
}
