-- ===== src/Command.antt =====
-- crates/s3pulse-cli/src/app.rs: the file that a download is written to when no destination is given,
-- and crates/s3pulse-cli/src/output.rs: object keys on a terminal.
pub mod Devices
pub mod Names
pub mod Terminal
mod Tests
use s3_pulse.Base.{
  ℕ, ◌==◌, ltb, leb, Bool, true, false, ◌&&◌, ◌||◌, if◌then◌else◌, none, some, List, [], ◌∷◌, ◌++◌,
  map, any, last?, get_elem?, Result, ok, err, ◌+◌, ◌-◌, ◌/◌, ◌%◌,
}
use s3_pulse.Base.Text.{Text, codes, same_text, is_empty, byte_len, is_control, split_once}
use s3_pulse.Base.Search.{starts_with}
use s3_pulse.Uri.{S3Uri}

-- The two messages of `AppError::Message` that `default_destination` makes.
pub data NameError : Type 0 where
  requires_object_uri unsafe_name : NameError

-- `str::to_ascii_uppercase`.
abbrev pub upper_char : ℕ → ℕ
upper_char c = if leb b'a' c && leb c b'z' then c - 32 else c

-- The characters of `<>:"/\|?*`.
abbrev pub forbidden : List ℕ
forbidden = 0x3c ∷ 0x3e ∷ 0x3a ∷ 0x22 ∷ 0x2f ∷ 0x5c ∷ 0x7c ∷ 0x3f ∷ 0x2a ∷ []

abbrev pub is_forbidden : ℕ → Bool
is_forbidden c = is_control c || any (λ d. d == c) forbidden

-- `ends_with([' ', '.'])`.
abbrev pub ends_badly : Text → Bool
ends_badly value = elim (last? value) [ none ↦ false | some c ↦ (c == 0x20) || (c == 0x2e) ]

-- The first part of `split('.')`, in capitals.
abbrev pub stem_of : Text → Text
stem_of value = elim (split_once 0x2e value) [
  | none ↦ map upper_char value
  | some (stem, rest) ↦ map upper_char stem
]

abbrev pub is_device_digit : Text → Bool
is_device_digit stem = elim (get_elem? stem 3) [ none ↦ false | some c ↦ leb b'1' c && leb c b'9' ]

-- The device names of Windows.
unfoldable pub is_device : Text → Bool
is_device stem =
    same_text stem (codes "CON")
    || same_text stem (codes "PRN")
    || same_text stem (codes "AUX")
    || same_text stem (codes "NUL")
    || (byte_len stem == 4
        && (starts_with (codes "COM") stem || starts_with (codes "LPT") stem)
        && is_device_digit stem)

unfoldable pub is_portable_file_name : Text → Bool
is_portable_file_name value =
    if same_text value (codes ".")
      || same_text value (codes "..")
      || ends_badly value
      || any is_forbidden value
    then false
    else if is_device (stem_of value)
    then false
    else true

-- `trim_end_matches('/')`.
unfoldable pub trim_end_slashes : Text → Text
trim_end_slashes [] = []
trim_end_slashes (c ∷ s) =
    let rest = trim_end_slashes s in if is_empty rest && c == b'/' then [] else c ∷ rest

-- `rsplit('/').next()`: what follows the last slash.
unfoldable pub last_segment : Text → Text
last_segment [] = []
last_segment (c ∷ s) =
    let rest = last_segment s in
    if any (λ d. d == b'/') s then rest else if c == b'/' then s else c ∷ s

unfoldable pub default_destination : S3Uri → Result NameError Text
default_destination source =
    let file_name = last_segment (trim_end_slashes source.prefix) in
    if is_empty file_name
    then err requires_object_uri
    else if is_portable_file_name file_name
    then ok file_name
    else err unsafe_name

abbrev pub hex_digit : ℕ → ℕ
hex_digit d = if ltb d 10 then b'0' + d else b'a' + (d - 10)

-- `char::escape_default` of a control character, whose number has two hexadecimal digits at most.
abbrev pub escape_default : ℕ → Text
escape_default c =
    if c == 9
    then codes "\\t"
    else if c == 13
    then codes "\\r"
    else if c == 10
    then codes "\\n"
    else codes "\\u{"
      ++ (if ltb c 16 then hex_digit c ∷ [] else hex_digit (c / 16) ∷ hex_digit (c % 16) ∷ [])
      ++ codes "}"

unfoldable pub terminal_text : Text → Text
terminal_text [] = []
terminal_text (c ∷ s) =
    let rest = terminal_text s in if is_control c then escape_default c ++ rest else c ∷ rest
