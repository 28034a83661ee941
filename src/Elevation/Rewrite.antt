-- ===== src/Elevation/Rewrite.antt =====
-- The rewrite of a command for elevation on POSIX (src/elevation/posix.rs, lines 411 to 687): the
-- gate, and the arms of `rewrite_with_host` that run as is and that wrap.
pub mod Arms
pub mod Derived
pub mod Safety
mod Tests
use subprocess.Prelude.{
  ℕ, Bool, true, false, not, ◌&&◌, ◌||◌, List, [], ◌∷◌, ◌++◌, map, Option, some, none, ◌==◌, leb,
  if◌then◌else◌, codes, Result, ok, err, ◌>>=◌,
}
use mathlib.Core.Option
use subprocess.Errors.{Text, Error, text_eq}
use subprocess.Command.{
  Fd, ResolvedStdio, EnvOp, CommandInput, ContainRequest, Command, new, insert_fd, contains_fd,
}
use subprocess.Elevation.Common.{
  Auth, Backend, Secret, ElevatedVia, ElevatedStdio, ElevationReport, backend_name, is_sudo,
  is_pkexec,
}
use subprocess.Elevation.Sanitize.{EnvVar, text_leb, apply}
use subprocess.Elevation.Argv.{build_argv}

-- `BTreeMap::insert` on keys in order.
unfoldable pub insert_var : Text → Text → List EnvVar → List EnvVar
insert_var k v [] = (k, v) ∷ []
insert_var k v ((l, w) ∷ vars) =
    let rest = insert_var k v vars in
    if text_eq k l
    then (k, v) ∷ vars
    else if text_leb k l
    then (k, v) ∷ (l, w) ∷ vars
    else (l, w) ∷ rest

unfoldable pub collect : List EnvOp → List EnvVar → List EnvVar
collect [] vars = vars
collect (EnvOp.set k v ∷ ops) vars = collect ops (insert_var k v vars)
collect (op ∷ ops) vars = collect ops vars

unfoldable pub explicit_set_env : List EnvOp → List EnvVar
explicit_set_env ops = collect ops []

abbrev pub is_set : EnvOp → Bool
is_set (EnvOp.set k v) = true
is_set _ = false

abbrev pub any_set : List EnvOp → Bool
any_set [] = false
any_set (op ∷ ops) = is_set op || any_set ops

abbrev pub any_unset : List EnvOp → Bool
any_unset [] = false
any_unset (op ∷ ops) = not (is_set op) || any_unset ops

-- `matches!(backend, Backend::Doas | Backend::Pkexec)`.
abbrev pub forwards_none : Backend → Bool
forwards_none Backend.doas = true
forwards_none Backend.pkexec = true
forwards_none _ = false

abbrev is_run0 : Backend → Bool
is_run0 Backend.run0 = true
is_run0 _ = false

abbrev pub is_stdin : Auth → Bool
is_stdin (Auth.stdin s) = true
is_stdin _ = false

abbrev pub is_some {ℓ} : {A : Type ℓ} → Option A → Bool
is_some (some a) = true
is_some none = false

abbrev any_high : {A : Type 0} → List (Fd × A) → Bool
any_high [] = false
any_high ((n, a) ∷ fds) = leb 3 n || any_high fds

abbrev pub is_empty {ℓ} : {A : Type ℓ} → List A → Bool
is_empty [] = true
is_empty (a ∷ xs) = false

-- Rust's unit type.
abbrev pub Done : Type 0
Done = Unit

module _ {I : Type 0} where
  abbrev pub unsupported : Text → Text → Error I
  unsupported op detail = Error.unsupported op (codes "unix") detail

  abbrev empty_command : Error I
  empty_command =
      unsupported (codes "elevation of an empty command")
        (codes "set a program via .args([...]) before .elevate()")

  unfoldable pub split_argv : Option Text → List Text → Result (Text × List Text) (Error I)
  split_argv executable [] = err empty_command
  split_argv none (arg ∷ args) = ok (arg, args)
  split_argv (some exe) (arg ∷ args) =
      if not (text_eq arg exe)
      then err (
          unsupported (codes "elevation with an argv[0] distinct from executable()") (
            codes
              "the backend runs the loaded file with argv[0] = its path; a separate argv[0] cannot survive elevation"))
      else ok (exe, args)

  unfoldable pub program_of : Option Text → CommandInput → Result (Text × List Text) (Error I)
  program_of executable (CommandInput.argv argv) = split_argv executable argv
  program_of executable CommandInput.empty = err empty_command
  program_of executable (CommandInput.command_line line) = err (
      unsupported (codes "elevation of a commandline() command") (
        codes
          "elevation requires an argv command (set .args([...])); a raw command line cannot be safely wrapped"))

  -- One early return of the gate.
  abbrev unless : Bool → Error I → Result Done (Error I) → Result Done (Error I)
  unless true e rest = err e
  unless false e rest = rest

module _ {I : Type 0} {F : Type 0} where
  unfoldable pub program_and_args : Command F → Result (Text × List Text) (Error I)
  program_and_args cmd = program_of cmd.executable cmd.input

  unfoldable pub reject_structural_posix_config : Command F → Backend → Auth → Result Done (Error I)
  reject_structural_posix_config cmd backend auth = program_and_args cmd >>= λ found.
      unless (any_high cmd.fds)
        (unsupported (codes "fd >= 3 on an elevated POSIX child") (
          codes
            "sudo/pkexec closefrom and run0's PID-1 reparent drop fds > 2; fd >= 3 needs the (deferred) broker"))
        (unless (any_unset cmd.env_ops)
          (unsupported (codes ".env_remove()/.env_clear() + elevate") (
            codes
              "the backend builds the elevated base environment; the crate can add but not subtract from it"))
          (unless (any_set cmd.env_ops && forwards_none backend)
            (unsupported (codes ".env() + Backend::" ++ backend_name backend) (
              codes
                "doas and pkexec expose no environment-forwarding mechanism; .env()/.envs() cannot cross them"))
            (unless (is_run0 backend && is_some cmd.contain.mode)
              (unsupported (codes ".contain() + Backend::Run0") (
                codes
                  "run0 runs the target as a PID 1-parented transient unit outside our cgroup; containment cannot span it"))
              (unless (is_stdin auth && contains_fd 0 cmd.fds)
                (unsupported (codes "Auth::Stdin with a caller-configured stdin") (
                  codes
                    "Auth::Stdin consumes fd0 to feed sudo -S the password; do not also configure stdin"))
                (ok tt)))))
