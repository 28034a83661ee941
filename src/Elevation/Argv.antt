-- ===== src/Elevation/Argv.antt =====
-- The command line of an elevation backend (src/elevation/posix.rs, lines 18 to 136 and 262 to 272).
pub mod Flags
pub mod Layout
mod Tests
use subprocess.Prelude.{
  ℕ, Bool, true, false, not, ◌&&◌, ◌||◌, List, [], ◌∷◌, ◌++◌, Option, some, none, ◌==◌, leb,
  if◌then◌else◌, codes, Result, ok, err, ◌>>=◌,
}
use mathlib.Core.Option
use subprocess.Errors.{Text, Error}
use subprocess.Elevation.Common.{Auth, Backend, is_pkexec}
use subprocess.Elevation.Sanitize.{EnvVar}

abbrev pub is_alphabetic : ℕ → Bool
is_alphabetic c = leb b'A' c && leb c b'Z' || leb b'a' c && leb c b'z'

abbrev pub is_alphanumeric : ℕ → Bool
is_alphanumeric c = is_alphabetic c || leb b'0' c && leb c b'9'

abbrev pub all_name : Text → Bool
all_name [] = true
all_name (c ∷ k) = (c == b'_' || is_alphanumeric c) && all_name k

unfoldable pub valid_env_name : Text → Bool
valid_env_name [] = false
valid_env_name (c ∷ k) = (c == b'_' || is_alphabetic c) && all_name (c ∷ k)

unfoldable pub program_starts_with_dash : Text → Bool
program_starts_with_dash [] = false
program_starts_with_dash (c ∷ program) = c == b'-'

-- The line that is fed to `sudo -S`.
unfoldable pub password_line : Text → Text
password_line secret = secret ++ b'\n' ∷ []

abbrev pub terminator : Text
terminator = codes "--"

abbrev pub is_non_interactive : Auth → Bool
is_non_interactive Auth.non_interactive = true
is_non_interactive _ = false

unfoldable pub sudo_auth : Auth → List Text
sudo_auth Auth.non_interactive = codes "-n" ∷ []
sudo_auth (Auth.stdin s) = codes "-S" ∷ []
sudo_auth (Auth.askpass p) = codes "-A" ∷ []
sudo_auth _ = []

-- The end of the command line, behind the flags.
unfoldable pub tail_of : Backend → Text → List Text → List Text
tail_of backend program args =
    (if not (is_pkexec backend) then terminator ∷ [] else []) ++ program ∷ args

-- `debug_name` is the derived Debug of an OsStr.
module _ {I : Type 0} (debug_name : Text → Text) where
  unfoldable pub unsupported_env_name : Text → Error I
  unsupported_env_name k =
      Error.unsupported (codes "forwarding an env var with an unusual name across elevation")
        (codes "unix")
        (codes "env var name "
          ++ debug_name k
          ++ codes " is not [A-Za-z_][A-Za-z0-9_]*; it cannot be forwarded losslessly")

  -- The loop of `preserve_env_flag` behind its first round.
  unfoldable pub preserve_rest : Text → List EnvVar → Result Text (Error I)
  preserve_rest flag [] = ok flag
  preserve_rest flag ((k, v) ∷ env) =
      let rest = preserve_rest (flag ++ b',' ∷ k) env in
      if not (valid_env_name k) then err (unsupported_env_name k) else rest

  unfoldable pub preserve_env_flag : List EnvVar → Result Text (Error I)
  preserve_env_flag [] = ok (codes "--preserve-env=")
  preserve_env_flag ((k, v) ∷ env) =
      if not (valid_env_name k)
      then err (unsupported_env_name k)
      else preserve_rest (codes "--preserve-env=" ++ k) env

  unfoldable pub sudo_env : List EnvVar → Result (List Text) (Error I)
  sudo_env [] = ok []
  sudo_env (e ∷ env) = preserve_env_flag (e ∷ env) >>= λ flag. ok (flag ∷ [])

  unfoldable pub setenv : List EnvVar → Result (List Text) (Error I)
  setenv [] = ok []
  setenv ((k, v) ∷ env) =
      let rest = setenv env in
      if not (valid_env_name k)
      then err (unsupported_env_name k)
      else rest >>= λ flags. ok ((codes "--setenv=" ++ k ++ b'=' ∷ v) ∷ flags)

  unfoldable pub pkexec_flags : Text → Result (List Text) (Error I)
  pkexec_flags program =
      if program_starts_with_dash program
      then err (
          Error.unsupported (codes "elevating a leading-dash program under pkexec") (codes "unix") (
            codes
              "pkexec cannot parse a `--` terminator, so a program starting with `-` would be taken as a pkexec option; use sudo/doas/run0, or a non-dash program path"))
      else ok (codes "--disable-internal-agent" ∷ [])

  -- What a backend's arm of `build_argv` pushes, or `none` where it panics. `checked` says whether
  -- debug assertions are on.
  unfoldable pub flags_of :
      Bool → Backend → Auth → Text → List EnvVar → Option (Result (List Text) (Error I))
  flags_of checked Backend.sudo auth program env =
      some (sudo_env env >>= λ flags. ok (sudo_auth auth ++ flags))
  flags_of true Backend.doas auth program (e ∷ env) = none
  flags_of checked Backend.doas auth program env =
      some (ok (if is_non_interactive auth then codes "-n" ∷ [] else []))
  flags_of true Backend.pkexec auth program (e ∷ env) = none
  flags_of checked Backend.pkexec auth program env = some (pkexec_flags program)
  flags_of checked Backend.run0 auth program env = some (
      setenv env >>= λ flags. ok (
        codes "--pipe" ∷ (if is_non_interactive auth then codes "--no-ask-password" ∷ [] else [])
        ++ flags))
  flags_of checked Backend.auto auth program env = none

  abbrev assemble :
      Backend
      → Text
      → Text
      → List Text
      → Result (List Text) (Error I)
      → Result (List Text) (Error I)
  assemble backend backend_path program args flags =
      flags >>= λ pushed. ok (backend_path ∷ pushed ++ tail_of backend program args)

  unfoldable pub build_argv :
      Bool
      → Backend
      → Text
      → Auth
      → Text
      → List Text
      → List EnvVar
      → Option (Result (List Text) (Error I))
  build_argv checked backend backend_path auth program args env =
      Option.map (assemble backend backend_path program args)
        (flags_of checked backend auth program env)
