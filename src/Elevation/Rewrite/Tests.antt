-- ===== src/Elevation/Rewrite/Tests.antt =====
-- The rewrite of a command for sudo with a password, and instances of the theorems about it.
use subprocess.Prelude.{
  ℕ, true, false, [], ◌∷◌, some, none, ◌≡◌, refl, codes, Result, ok, err, Option,
}
use subprocess.Errors.{Text, Error}
use subprocess.Command.{EnvOp, CommandInput, Command, ResolvedStdio, Direction, Nesting, insert_fd}
use subprocess.Elevation.Common.{Auth, Backend}
use subprocess.Elevation.Sanitize.{apply, default, partition, push, keeps, is_denied, sort, insert}
use subprocess.Elevation.Argv.{
  build_argv, flags_of, tail_of, sudo_env, sudo_auth, preserve_env_flag, preserve_rest,
  valid_env_name,
}
use subprocess.Elevation.Argv.Flags.{Yields}
use subprocess.Elevation.Rewrite.{
  program_and_args, program_of, split_argv, reject_structural_posix_config, explicit_set_env,
  collect, insert_var,
}
use subprocess.Elevation.Rewrite.Arms.{
  rewrite_wrapped, rewrite_run_as_is, wrap_program, wrap_argv, channel_for, wrapped_with, derive,
  move_fds, askpass_ops, Rewritten,
}
use subprocess.Elevation.Rewrite.Safety.{RunsClean, rewrite_run_as_is-RunsClean}

abbrev bare : Text → Text
bare k = k

abbrev secret : Auth
secret = Auth.stdin (record { expose = codes "pw" })

abbrev pipe : Result (ℕ × ℕ) ℕ
pipe = ok (7, 8)

abbrev command : Command ℕ
command = record {
  input = CommandInput.argv (codes "ls" ∷ codes "-l" ∷ []);
  executable = none;
  fds = (1, ResolvedStdio.pipe Direction.out) ∷ [];
  env_ops =
      EnvOp.set (codes "A") (codes "1")
      ∷ EnvOp.set (codes "LD_X") (codes "2")
      ∷ EnvOp.set (codes "A") (codes "3")
      ∷ [];
  cwd = some (codes "/tmp");
  kill_on_drop = false;
  contain = record { mode = none; nesting = Nesting.mark };
  elevation = record { enabled = true; backend = Backend.auto; auth = secret; sanitizer = default };
  fd_marker_suppressed = false;
  flags = record { no_window = false; detached = false; breakaway_from_job = false; raw = 0 };
}

abbrev argv_of : Option (Result (Rewritten ℕ ℕ ℕ bare bare) (Error ℕ)) → Option (Command ℕ)
argv_of (some (ok (left, r))) = r.derived
argv_of _ = none

gate_passes : reject_structural_posix_config {I = ℕ} command Backend.auto secret ≡ ok tt
unfolding reject_structural_posix_config program_and_args program_of split_argv
gate_passes = refl

wrapped_sudo :
    argv_of
      (rewrite_wrapped ℕ ℕ ℕ bare bare true pipe command Backend.sudo (codes "/bin/sudo") secret)
    ≡ some (
        derive
          (codes "/bin/sudo"
            ∷ codes "-S"
            ∷ codes "--preserve-env=A"
            ∷ codes "--"
            ∷ codes "ls"
            ∷ codes "-l"
            ∷ [])
          (EnvOp.set (codes "A") (codes "3") ∷ [])
          ((0, ResolvedStdio.file 7) ∷ (1, ResolvedStdio.pipe Direction.out) ∷ [])
          true
          command)
unfolding rewrite_wrapped wrap_program wrap_argv channel_for wrapped_with move_fds askpass_ops
    insert_fd program_and_args program_of split_argv explicit_set_env collect insert_var apply
    default partition push keeps is_denied sort insert build_argv flags_of tail_of sudo_env
    sudo_auth preserve_env_flag preserve_rest valid_env_name
wrapped_sudo = refl

rewrite_run_as_is-RunsClean_example :
    Yields
      (RunsClean ℕ ℕ ℕ bare bare)
      ((e : Error ℕ) × (program_and_args command ≡ err e))
      (rewrite_run_as_is ℕ ℕ ℕ bare bare command)
rewrite_run_as_is-RunsClean_example = rewrite_run_as_is-RunsClean ℕ ℕ ℕ bare bare command refl
