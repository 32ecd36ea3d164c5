-- ===== src/Transport.antt =====
-- crates/s3pulse-cli/src/rpc/transport.rs: reading the lines of the protocol.
mod Tests
pub mod Lines
pub mod Serve
pub mod Steps
pub mod Identity
pub mod Consistent
pub mod Reachable
pub mod Counts
pub mod Answers
use s3_pulse.Base.{
  ℕ, ◌+◌, ◌*◌, ltb, ◌==◌, if◌then◌else◌, Bool, true, false, Option, none, some, List, [], ◌∷◌, ◌++◌,
  length, Result, ok, err,
}

abbrev pub max_line_bytes : ℕ
max_line_bytes = 8 * 1024 * 1024

abbrev pub Bytes : Type 0
Bytes = List ℕ

pub data ProtocolLine : Type 0 where
  eof complete too_large_line : ProtocolLine

-- What `fill_buf` gives, one entry for each call that reads on; at the end of the list the input is
-- at its end.
abbrev pub Reader : Type 0 → Type 0
Reader E = List (Result E Bytes)

-- The buffer up to its first newline, and what is behind it.
unfoldable pub cut : Bytes → Option (Bytes × Bytes)
cut [] = none
cut (c ∷ s) = elim (c == b'\n') [
  | true ↦ some (c ∷ [], s)
  | false ↦ elim (cut s) [ none ↦ none | some (line, rest) ↦ some (c ∷ line, rest) ]
]

-- What is left of a buffer after `consume`.
abbrev pub put_back : {E : Type 0} → Bytes → Reader E → Reader E
put_back [] reader = reader
put_back (c ∷ s) reader = ok (c ∷ s) ∷ reader

-- The update of `line` and `too_large` by the bytes that are consumed.
unfoldable pub take_in : ℕ → Bytes → Bool → Bytes → Bytes × Bool
take_in max_line line too_large part =
    if too_large
    then (line, true)
    else if ltb max_line (length line + length part)
    then ([], true)
    else (line ++ part, false)

-- The answer at the end of the input.
abbrev pub at_end : Bytes → Bool → ProtocolLine
at_end [] too_large = if too_large then too_large_line else eof
at_end (c ∷ line) too_large = if too_large then too_large_line else complete

-- The answer at a newline.
abbrev pub at_newline : Bool → ProtocolLine
at_newline too_large = if too_large then too_large_line else complete

-- The loop. With the answer it gives `line` and the reader that is left.
unfoldable pub read_line :
    {E : Type 0} → ℕ → Reader E → Bytes → Bool → Result E (ProtocolLine × Bytes × Reader E)
read_line max_line [] line too_large = ok (at_end line too_large, line, [])
read_line max_line (err e ∷ reader) line too_large = err e
read_line max_line (ok [] ∷ reader) line too_large =
    ok (at_end line too_large, line, ok [] ∷ reader)
read_line max_line (ok (c ∷ s) ∷ reader) line too_large = elim (cut (c ∷ s)) [
  | none ↦
      read_line max_line reader (take_in max_line line too_large (c ∷ s)).0
        (take_in max_line line too_large (c ∷ s)).1
  | some (part, behind) ↦ ok (
    at_newline (take_in max_line line too_large part).1,
    (take_in max_line line too_large part).0,
    put_back behind reader,
  )
]

unfoldable pub read_protocol_line :
    {E : Type 0} → Reader E → Result E (ProtocolLine × Bytes × Reader E)
unfolding read_line
read_protocol_line reader = read_line max_line_bytes reader [] false
