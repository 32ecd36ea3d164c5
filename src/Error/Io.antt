-- ===== src/Error/Io.antt =====
-- crates/s3pulse-core/src/error.rs: `StoreError::io`, which wraps an error of the operating system.
use s3_pulse.Base.{false, ◌++◌}
use s3_pulse.Base.Text.{Text, codes}
use s3_pulse.Error.{StoreErrorKind, StoreError}
use s3_pulse.Error

-- The kinds of `std::io::ErrorKind` that the code asks for.
pub data IoErrorKind : Type 0 where
  not_found already_exists permission_denied other : IoErrorKind

-- A `std::io::Error`, with its Display text.
pub record IoError : Type 0 where
  pub kind : IoErrorKind
  pub display : Text

unfoldable pub io_kind : IoErrorKind → StoreErrorKind
io_kind IoErrorKind.not_found = StoreErrorKind.io
io_kind IoErrorKind.already_exists = StoreErrorKind.already_exists
io_kind IoErrorKind.permission_denied = StoreErrorKind.io
io_kind IoErrorKind.other = StoreErrorKind.io

unfoldable pub io_error : Text → IoError → StoreError
unfolding io_kind
io_error operation error =
    Error.new (io_kind error.kind) (operation ++ (codes ": " ++ error.display)) false
