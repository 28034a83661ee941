-- ===== src/Elevation/Common.antt =====
-- The public types of src/elevation.rs.
use subprocess.Prelude.{List, ℕ, Bool, true, false, codes}
use subprocess.Errors.{Text}

pub data Backend : Type 0 where
  auto run0 sudo doas pkexec : Backend

-- A secret is its bytes.
pub record Secret : Type 0 where
  pub expose : List ℕ

pub data Auth : Type 0 where
  interactive non_interactive : Auth
  askpass : Text → Auth
  stdin : Secret → Auth
  gui : Auth

pub data ElevatedStdio : Type 0 where
  passthrough own_console stdin_consumed osascript_relay : ElevatedStdio

pub data ElevatedVia : Type 0 where
  wrapped : Backend → ElevatedVia
  windows_uac macos_osascript already_elevated : ElevatedVia

pub record ElevationReport : Type 0 where
  pub via : ElevatedVia
  pub stripped_env : List Text
  pub stdio : ElevatedStdio

pub data Privilege : Type 0 where
  unprivileged elevated : Privilege

-- The derived Debug.
abbrev pub backend_name : Backend → Text
backend_name auto = codes "Auto"
backend_name run0 = codes "Run0"
backend_name sudo = codes "Sudo"
backend_name doas = codes "Doas"
backend_name pkexec = codes "Pkexec"

-- `backend == Backend::Auto` and its like.
abbrev pub is_auto : Backend → Bool
is_auto auto = true
is_auto _ = false

abbrev pub is_sudo : Backend → Bool
is_sudo sudo = true
is_sudo _ = false

abbrev pub is_pkexec : Backend → Bool
is_pkexec pkexec = true
is_pkexec _ = false

-- The `matches!` on an Auth.
abbrev pub is_gui : Auth → Bool
is_gui gui = true
is_gui _ = false

abbrev pub is_interactive : Auth → Bool
is_interactive interactive = true
is_interactive _ = false

abbrev pub is_askpass : Auth → Bool
is_askpass (askpass p) = true
is_askpass _ = false

abbrev pub carries_secret : Auth → Bool
carries_secret (askpass p) = true
carries_secret (stdin s) = true
carries_secret _ = false
