-- ===== src/Command/Devices.antt =====
-- The names of devices, and what the code tests of a file name's stem.
use s3_pulse.Base.{
  ◌==◌, Bool, true, false, ◌≡◌, refl, none, some, List, [], ◌∷◌, map, ◌++◌, all, any, if◌then◌else◌,
  arith, In,
}
use s3_pulse.Base.Text.{Text, codes, split_once}
use s3_pulse.Base.Search.{lower, lower_char}
use s3_pulse.Command.{upper_char, is_device, stem_of}

-- The device names of Windows, in small letters.
abbrev pub devices : List Text
devices =
    codes "con"
    ∷ codes "prn"
    ∷ codes "aux"
    ∷ codes "nul"
    ∷ codes "com1"
    ∷ codes "com2"
    ∷ codes "com3"
    ∷ codes "com4"
    ∷ codes "com5"
    ∷ codes "com6"
    ∷ codes "com7"
    ∷ codes "com8"
    ∷ codes "com9"
    ∷ codes "lpt1"
    ∷ codes "lpt2"
    ∷ codes "lpt3"
    ∷ codes "lpt4"
    ∷ codes "lpt5"
    ∷ codes "lpt6"
    ∷ codes "lpt7"
    ∷ codes "lpt8"
    ∷ codes "lpt9"
    ∷ []

pub has_dot : Text → Bool
has_dot s = any (λ c. c == b'.') s

all-In : (p : Text → Bool) (d : Text) (ds : List Text) → all p ds ≡ true → In d ds → p d ≡ true
all-In p d [] h m = elim m [ ]
all-In p d (x ∷ ds) h m = ground (arith, all-In p d ds)

refused : Text → Bool
unfolding has_dot
refused d = if has_dot d then false else is_device (map upper_char d)

-- Names of devices have no full stop and are refused in capitals.
pub devices_refused :
    (d : Text) → In d devices → (has_dot d ≡ false) × (is_device (map upper_char d) ≡ true)
unfolding has_dot is_device refused
devices_refused d m =
    let both = all-In refused d devices refl m in (ground (arith, both), ground (arith, both))

pub upper-lower : (s : Text) → map upper_char (lower s) ≡ map upper_char s
upper-lower [] = refl
upper-lower (c ∷ s) =
    let e : upper_char (lower_char c) ≡ upper_char c = ground arith in λ i. e i ∷ upper-lower s i

pub has_dot-lower : (s : Text) → has_dot (lower s) ≡ has_dot s
unfolding has_dot
has_dot-lower [] = refl
has_dot-lower (c ∷ s) = ground (arith, has_dot-lower s)

split_none : (s : Text) → has_dot s ≡ false → split_once b'.' s ≡ none
unfolding has_dot
split_none [] h = refl
split_none (c ∷ s) h = ground (arith, split_none s)

split_some :
    (s rest : Text) → has_dot s ≡ false → split_once b'.' (s ++ b'.' ∷ rest) ≡ some (s, rest)
unfolding has_dot
split_some [] rest h = refl
split_some (c ∷ s) rest h = ground (arith, split_some s rest)

pub stem_of_whole : (s : Text) → has_dot s ≡ false → stem_of s ≡ map upper_char s
stem_of_whole s h = rw (stem_of, split_none s h) refl

pub stem_of-append :
    (s rest : Text) → has_dot s ≡ false → stem_of (s ++ b'.' ∷ rest) ≡ map upper_char s
stem_of-append s rest h = rw (stem_of, split_some s rest h) refl
