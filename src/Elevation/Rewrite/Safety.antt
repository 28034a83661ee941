-- ===== src/Elevation/Rewrite/Safety.antt =====
-- What the rewrite hands to the backend, and what reaches a program that runs as is.
use subprocess.Prelude.{
  ◌++◌, codes, true, false, not, ◌&&◌, List, [], ◌∷◌, map, Option, some, none, ◌≡◌, refl, sym, ◌⊎◌,
  All, Result, ok, err, ◌>>=◌, subst,
}
use mathlib.Core.Option
use subprocess.Errors.{Text, Error}
use subprocess.Command.{Fd, EnvOp, Command}
use subprocess.Child.Stdio.{lookup_fd}
use subprocess.Elevation.Common.{Auth, Backend, Secret}
use subprocess.Elevation.Sanitize.{EnvVar, apply, default, is_denied, env_key}
use subprocess.Elevation.Sanitize.Laws.{apply-default}
use subprocess.Elevation.Argv.Flags.{Yields}
use subprocess.Elevation.Argv.Layout.{LaidOut, Cause}
use subprocess.Elevation.Rewrite.{
  explicit_set_env, program_and_args, forwards_none, is_stdin, is_some, is_empty,
}
use subprocess.Elevation.Rewrite.Arms.{
  set_op, derive, transfer_process_attrs, Rewritten, kept_of, run_as_is_with, rewrite_run_as_is,
}
use subprocess.Elevation.Rewrite.Derived.{Derived, Taken, descriptor}

-- An operation that sets a variable that is not on the denylist.
abbrev pub IsClean : (Text → Text) → EnvOp → Type 0
IsClean lossy (EnvOp.set k v) = is_denied lossy k ≡ false
IsClean lossy _ = false ≡ true

map-IsClean :
    (lossy : Text → Text) (vars : List EnvVar)
    → All (λ e. is_denied lossy (env_key e) ≡ false) vars
    → All (IsClean lossy) (map set_op vars)
map-IsClean lossy [] h = tt
map-IsClean lossy ((k, v) ∷ vars) (hk, h) = (hk, map-IsClean lossy vars h)

module _ (I : Type 0) (F : Type 0) (W : Type 0) (lossy : Text → Text)
    (debug_name : Text → Text) where
  -- The variables that the backend is given: sudo those that the sanitizer keeps, and each backend the
  -- program that asks for a password, if there is one.
  abbrev pub given : Backend → List EnvVar → List EnvOp
  given Backend.sudo kept = map set_op kept
  given _ kept = []

  abbrev pub asking : Auth → List EnvOp
  asking (Auth.askpass program) = EnvOp.set (codes "SUDO_ASKPASS") program ∷ []
  asking _ = []

  abbrev pub environment : Backend → Auth → List EnvVar → List EnvOp
  environment backend auth kept = given backend kept ++ asking auth

  -- The file that the password comes from is the read end of the pipe, and what is written goes to its
  -- write end.
  abbrev pub Piped : Result (F × W) I → Option F → Option (W × Secret) → Type 0
  Piped pipe none none = Unit
  Piped pipe (some reader) (some (writer, secret)) = pipe ≡ ok (reader, writer)
  Piped pipe _ _ = ⊥

  -- The read end, and what the parent writes, of a password channel.
  abbrev stdin_of : Option (F × W × Secret) → Option F
  stdin_of none = none
  stdin_of (some (reader, writer, secret)) = some reader

  abbrev write_of : Option (F × W × Secret) → Option (W × Secret)
  write_of none = none
  write_of (some (reader, writer, secret)) = some (writer, secret)

  abbrev Channelled : Result (F × W) I → Auth → Option (F × W × Secret) → Type 0
  Channelled pipe auth channel =
      (is_some channel ≡ is_stdin auth) × Piped pipe (stdin_of channel) (write_of channel)

  -- The rewrite derives a command that runs the laid out command line, and takes the descriptors of
  -- the caller's command.
  abbrev pub Wrapped :
      Result (F × W) I
      → Command F
      → Backend
      → Text
      → Auth
      → Rewritten I F W lossy debug_name
      → Type 0
  Wrapped pipe cmd backend path auth (left, r) =
      (program : Text) × (args : List Text) × (argv : List Text) × (d : Command F) × (stdin : Option
        F)
      × (program_and_args {I = I} cmd ≡ ok (program, args))
      × LaidOut backend path auth program args argv
      × (r.derived ≡ some d)
      × Derived cmd argv (environment backend auth (kept_of I F W lossy debug_name cmd)) d
      × ((n : Fd) → lookup_fd n d.fds ≡ descriptor stdin n cmd.fds)
      × (is_some stdin ≡ is_stdin auth)
      × Piped pipe stdin r.password_write
      × (r.backend_path ≡ some path)
      × (is_some r.password_write ≡ is_stdin auth)
      × Taken cmd left

  -- The causes of a failure.
  abbrev pub WrapCause : Result (F × W) I → Command F → Backend → Auth → Type 0
  WrapCause pipe cmd backend auth =
      ((not (is_empty (kept_of I F W lossy debug_name cmd)) && forwards_none backend) ≡ true)
      ⊎ ((e : Error I) × (program_and_args cmd ≡ err e))
      ⊎ ((program : Text) × (args : List Text) × (program_and_args {I = I} cmd ≡ ok (program, args))
          × Cause backend program (kept_of I F W lossy debug_name cmd))
      ⊎ ((is_stdin auth ≡ true) × ((e : I) × (pipe ≡ err e)))

  abbrev pub Rewrites :
      Result (F × W) I
      → Command F
      → Backend
      → Text
      → Auth
      → Option (Result (Rewritten I F W lossy debug_name) (Error I))
      → Type 0
  Rewrites pipe cmd backend path auth none = false ≡ true
  Rewrites pipe cmd backend path auth (some r) =
      Yields (Wrapped pipe cmd backend path auth) (WrapCause pipe cmd backend auth) r

  -- What the program that runs as is gets under the default sanitizer: each of its environment
  -- operations sets a variable that is not on the denylist.
  abbrev pub RunsClean : Rewritten I F W lossy debug_name → Type 0
  RunsClean (left, r) = (d : Command F) × (r.derived ≡ some d) × All (IsClean lossy) d.env_ops

  kept-IsClean :
      (cmd : Command F)
      → cmd.elevation.sanitizer ≡ default
      → All (IsClean lossy) (map set_op (kept_of I F W lossy debug_name cmd))
  kept-IsClean cmd h =
      subst
        (λ s. All (IsClean lossy) (map set_op (apply lossy s (explicit_set_env cmd.env_ops)).kept))
        (sym h) (map-IsClean lossy _ (apply-default lossy (explicit_set_env cmd.env_ops)))

  found-RunsClean :
      (cmd : Command F) (found : Result (Text × List Text) (Error I))
      → program_and_args cmd ≡ found
      → cmd.elevation.sanitizer ≡ default
      → Yields RunsClean
          ((e : Error I) × (program_and_args cmd ≡ err e))
          (found >>= λ f. ok (run_as_is_with I F W lossy debug_name cmd f))
  unfolding run_as_is_with derive transfer_process_attrs
  found-RunsClean cmd (ok (program, args)) e h = (_, refl, kept-IsClean cmd h)
  found-RunsClean cmd (err e') e h = (e', e)

  -- A command with the default sanitizer that runs as is, in a caller that has the privilege
  -- already, sets no variable on the denylist; the rewrite fails only if there is no program to run.
  pub rewrite_run_as_is-RunsClean :
      (cmd : Command F)
      → cmd.elevation.sanitizer ≡ default
      → Yields RunsClean
          ((e : Error I) × (program_and_args cmd ≡ err e))
          (rewrite_run_as_is I F W lossy debug_name cmd)
  unfolding rewrite_run_as_is
  rewrite_run_as_is-RunsClean cmd h = found-RunsClean cmd _ refl h
