-- ===== src/Elevation/Rewrite/Arms.antt =====
-- The two arms of `rewrite_with_host` that are modelled: to run as is, and to wrap
-- (src/elevation/posix.rs, lines 540 to 687).
use subprocess.Prelude.{
  Bool, true, false, not, ◌&&◌, ◌||◌, List, [], ◌∷◌, ◌++◌, map, Option, some, none, ◌==◌,
  if◌then◌else◌, codes, Result, ok, err, ◌>>=◌,
}
use mathlib.Core.Option
use subprocess.Errors.{Text, Error}
use subprocess.Command.{Fd, ResolvedStdio, EnvOp, CommandInput, Command, new, insert_fd}
use subprocess.Elevation.Common.{
  Auth, Backend, Secret, ElevatedVia, ElevatedStdio, ElevationReport, backend_name, is_sudo,
}
use subprocess.Elevation.Sanitize.{EnvVar, apply}
use subprocess.Elevation.Argv.{build_argv}
use subprocess.Elevation.Rewrite.{
  explicit_set_env, program_and_args, forwards_none, is_stdin, is_some, is_empty, unsupported,
}

-- `W` stands for the write end of a pipe.
pub record PosixRewrite (F : Type 0) (W : Type 0) : Type 0 where
  pub derived : Option (Command F)
  pub report : Option ElevationReport
  pub password_write : Option (W × Secret)
  pub backend_path : Option Text

abbrev pub set_op : EnvVar → EnvOp
set_op (k, v) = EnvOp.set k v

module _ {F : Type 0} where
  unfoldable pub transfer_process_attrs : Command F → Command F → Command F
  transfer_process_attrs derived cmd = record {
    input = derived.input;
    executable = derived.executable;
    fds = derived.fds;
    env_ops = derived.env_ops;
    cwd = if is_some cmd.cwd then cmd.cwd else derived.cwd;
    kill_on_drop = cmd.kill_on_drop;
    contain = cmd.contain;
    elevation = derived.elevation;
    fd_marker_suppressed = derived.fd_marker_suppressed;
    flags = derived.flags;
  }

  -- A new command with `set_input_argv`, `set_env_ops`, the descriptors and `suppress_fd_marker`
  -- applied to it.
  unfoldable pub derive :
      List Text → List EnvOp → List (Fd × ResolvedStdio F) → Bool → Command F → Command F
  derive argv ops fds suppressed cmd =
      let fresh : Command F = new in
      transfer_process_attrs
        (record {
          input = CommandInput.argv argv;
          executable = none;
          fds = fds;
          env_ops = ops;
          cwd = fresh.cwd;
          kill_on_drop = fresh.kill_on_drop;
          contain = fresh.contain;
          elevation = fresh.elevation;
          fd_marker_suppressed = suppressed || fresh.fd_marker_suppressed;
          flags = fresh.flags;
        })
        cmd

  -- `std::mem::take` of the descriptors.
  unfoldable pub take_fds : Command F → Command F
  take_fds cmd = record {
    input = cmd.input;
    executable = cmd.executable;
    fds = [];
    env_ops = cmd.env_ops;
    cwd = cmd.cwd;
    kill_on_drop = cmd.kill_on_drop;
    contain = cmd.contain;
    elevation = cmd.elevation;
    fd_marker_suppressed = cmd.fd_marker_suppressed;
    flags = cmd.flags;
  }

  -- The loop that moves the descriptors; `skip` tells to leave out the standard input.
  unfoldable pub move_fds :
      Bool → List (Fd × ResolvedStdio F) → List (Fd × ResolvedStdio F) → List (Fd × ResolvedStdio F)
  move_fds skip [] into = into
  move_fds skip ((n, a) ∷ fds) into =
      move_fds skip fds (if skip && n == 0 then into else insert_fd n a into)

unfoldable pub askpass_ops : Auth → List EnvOp
askpass_ops (Auth.askpass p) = EnvOp.set (codes "SUDO_ASKPASS") p ∷ []
askpass_ops _ = []

-- `pipe` is what std's `io::pipe` answers: the read end as a File, and the write end.
module _ (I : Type 0) (F : Type 0) (W : Type 0) (lossy : Text → Text)
    (debug_name : Text → Text) where
  -- The caller's command behind the call, and the rewrite.
  abbrev pub Rewritten : Type 0
  Rewritten = Command F × PosixRewrite F W

  abbrev pub kept_of : Command F → List EnvVar
  kept_of cmd = (apply lossy cmd.elevation.sanitizer (explicit_set_env cmd.env_ops)).kept

  abbrev pub stripped_of : Command F → List Text
  stripped_of cmd = (apply lossy cmd.elevation.sanitizer (explicit_set_env cmd.env_ops)).stripped

  unfoldable pub run_as_is_with : Command F → Text × List Text → Rewritten
  run_as_is_with cmd (program, args) = (
    take_fds cmd,
    record {
      derived = some (
          derive (program ∷ args) (map set_op (kept_of cmd)) (move_fds false cmd.fds []) false cmd);
      report = some (record {
        via = ElevatedVia.already_elevated;
        stripped_env = stripped_of cmd;
        stdio = ElevatedStdio.passthrough;
      });
      password_write = none;
      backend_path = none;
    },
  )

  unfoldable pub rewrite_run_as_is : Command F → Result Rewritten (Error I)
  rewrite_run_as_is cmd = program_and_args cmd >>= λ found. ok (run_as_is_with cmd found)

  -- The rewrite for a wrapper, once the password channel is there.
  unfoldable pub wrapped_with :
      Command F → Backend → Text → Auth → List Text → Option (F × W × Secret) → Rewritten
  wrapped_with cmd backend path auth argv channel =
      let ops = (if is_sudo backend then map set_op (kept_of cmd) else []) ++ askpass_ops auth in
      let wired : List (Fd × ResolvedStdio F) = elim channel [
        | none ↦ []
        | some (reader, writer, secret) ↦ insert_fd 0 (ResolvedStdio.file reader) []
      ] in
      (
        take_fds cmd,
        record {
          derived = some (derive argv ops (move_fds (is_some channel) cmd.fds wired) true cmd);
          report = some (record {
            via = ElevatedVia.wrapped backend;
            stripped_env = stripped_of cmd;
            stdio =
                if is_stdin auth then ElevatedStdio.stdin_consumed else ElevatedStdio.passthrough;
          });
          password_write = Option.map (λ (reader, writer, secret). (writer, secret)) channel;
          backend_path = some path;
        },
      )

  -- The password channel that the authentication asks for.
  unfoldable pub channel_for : Result (F × W) I → Auth → Result (Option (F × W × Secret)) (Error I)
  channel_for (ok (reader, writer)) (Auth.stdin secret) = ok (some (reader, writer, secret))
  channel_for (err e) (Auth.stdin secret) = err (Error.io e)
  channel_for pipe auth = ok none

  unfoldable pub wrap_argv :
      Result (F × W) I
      → Command F
      → Backend
      → Text
      → Auth
      → Result (List Text) (Error I)
      → Result Rewritten (Error I)
  wrap_argv pipe cmd backend path auth built = built >>= λ argv.
      (channel_for pipe auth >>= λ channel. ok (wrapped_with cmd backend path auth argv channel))

  -- `none` where `build_argv` panics.
  unfoldable pub wrap_program :
      Bool
      → Result (F × W) I
      → Command F
      → Backend
      → Text
      → Auth
      → Result (Text × List Text) (Error I)
      → Option (Result Rewritten (Error I))
  wrap_program checked pipe cmd backend path auth (err e) = some (err e)
  wrap_program checked pipe cmd backend path auth (ok (program, args)) =
      Option.map (wrap_argv pipe cmd backend path auth)
        (build_argv debug_name checked backend path auth program args (kept_of cmd))

  unfoldable pub rewrite_wrapped :
      Bool
      → Result (F × W) I
      → Command F
      → Backend
      → Text
      → Auth
      → Option (Result Rewritten (Error I))
  rewrite_wrapped checked pipe cmd backend path auth =
      if not (is_empty (kept_of cmd)) && forwards_none backend
      then some (
          err (
            unsupported
              (codes ".env() + Backend::" ++ backend_name backend ++ codes " (resolved via Auto)")
              (codes
                "doas and pkexec expose no environment-forwarding mechanism; .env()/.envs() cannot cross them")))
      else wrap_program checked pipe cmd backend path auth (program_and_args cmd)
