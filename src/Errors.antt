-- ===== src/Errors.antt =====
-- The crate's error types (src/error.rs). `I` stands for std's io::Error.
use subprocess.Prelude.{ℕ, Bool, true, false, ◌&&◌, List, [], ◌∷◌, Option, ◌==◌, ◌≡◌, refl, arith}
use subprocess.Quote.Common.{QuoteError}

-- A String, OsString or PathBuf, as its bytes.
abbrev pub Text : Type 0
Text = List ℕ

-- The dash of the messages, in UTF-8.
abbrev pub em_dash : Text
em_dash = 226 ∷ 128 ∷ 148 ∷ []

-- Rust's unit type.
abbrev pub Done : Type 0
Done = Unit

-- Equality of texts.
abbrev pub text_eq : Text → Text → Bool
text_eq [] [] = true
text_eq (a ∷ s) (b ∷ t) = a == b && text_eq s t
text_eq _ _ = false

pub text_eq-eq : (s t : Text) → text_eq s t ≡ true → s ≡ t
text_eq-eq [] [] h = refl
text_eq-eq [] (b ∷ t) h = ground arith
text_eq-eq (a ∷ s) [] h = ground arith
text_eq-eq (a ∷ s) (b ∷ t) h = ground (arith, text_eq-eq s t)

pub data ElevationErrorKind : Type 0 where
  backend_unavailable auth_failed auth_declined no_tty : ElevationErrorKind
  unkillable untracked command_too_long : ElevationErrorKind

pub data RecordErrorKind : Type 0 where
  unknown_version foreign_platform invalid_pid : RecordErrorKind
  foreign_boot_session missing_boot_session : RecordErrorKind
  foreign_pid_namespace missing_pid_namespace scope_unreadable : RecordErrorKind

-- `unsupported` has the operation, the platform and the detail, in this order.
pub data Error (I : Type 0) : Type 0 where
  quote : QuoteError → Error I
  io : I → Error I
  unsupported : Text → Text → Text → Error I
  containment no_console : Text → Error I
  elevation : ElevationErrorKind → Text → Error I
  unassessable : Text → Option I → Error I
  identity_record : RecordErrorKind → Text → Option I → Error I
