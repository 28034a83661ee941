-- ===== src/Child/Build.antt =====
-- The standard command of a spawn on Unix (src/child/spawn.rs, build_std_command).
use subprocess.Prelude.{
  ℕ, Bool, ◌||◌, ◌++◌, List, [], ◌∷◌, map, Option, some, none, leb, ◌&&◌, ◌+◌, if◌then◌else◌,
  Result, ok, err, ◌>>=◌, codes, ◌≡◌,
}
use subprocess.Errors.{Text, Error, Done, text_eq}
use subprocess.Quote.Common.{QuoteError}
use subprocess.Quote.Posix.{split, join}
use subprocess.Quote.Posix.RoundTrip.{split-join}
use subprocess.Command.{Command, CommandInput, EnvOp}
use subprocess.Child.Stdio.{Fault}

-- What std's Command is set to; `arg0` where it differs from the program.
pub record StdCommand : Type 0 where
  pub program : Text
  pub arg0 : Option Text
  pub args : List Text
  pub env : List EnvOp
  pub cwd : Option Text

-- Functions of std: `io::Error::other`, the extension of a path, `to_string_lossy` and `display`.
pub record Paths (I : Type 0) : Type 0 where
  pub other : Text → I
  pub extension : Text → Option Text
  pub lossy : Text → Text
  pub display : Text → Text

unfoldable pub to_ascii_lowercase : ℕ → ℕ
to_ascii_lowercase c = if leb b'A' c && leb c b'Z' then c + 32 else c

module _ {I : Type 0} (paths : Paths I) where
  abbrev io_other : {A : Type 0} → Text → Result A (Fault I)
  io_other message = err (Fault.refused (Error.io (paths.other message)))

  abbrev is_batch : Text → Bool
  is_batch ext = text_eq ext (codes "bat") || text_eq ext (codes "cmd")

  unfoldable pub reject_extension : Text → Option Text → Result Done (Fault I)
  reject_extension program none = ok tt
  reject_extension program (some ext) =
      if is_batch (map to_ascii_lowercase (paths.lossy ext))
      then err (
          Fault.refused (
            Error.unsupported (codes "running " ++ paths.display program) (codes "windows") (
              codes
                "cmd.exe batch escaping is not implemented (CVE-2024-24576); use .commandline() to pass an explicit, pre-escaped command line")))
      else ok tt

  unfoldable pub reject_batch_path : Text → Result Done (Fault I)
  reject_batch_path program = reject_extension program (paths.extension program)

  module _ {F : Type 0} (cmd : Command F) where
    unfoldable pub resolve_program : Text → Text
    resolve_program fallback = elim cmd.executable [ some p ↦ p | none ↦ fallback ]

    -- The command of a program and its arguments, with the name that the caller gave it.
    abbrev named : Text → Text → List Text → StdCommand
    named program name rest = record {
      program = program;
      arg0 = elim cmd.executable [ some p ↦ some name | none ↦ none ];
      args = rest;
      env = [];
      cwd = none;
    }

    unfoldable pub build_from_argv : List Text → Result StdCommand (Fault I)
    build_from_argv [] = elim cmd.executable [
      | none ↦ io_other (codes "empty argv")
      | some p ↦
          ok (record { program = resolve_program []; arg0 = none; args = []; env = []; cwd = none })
    ]
    build_from_argv (name ∷ rest) = ok (named (resolve_program name) name rest)

    unfoldable pub build_from_words : List Text → Result StdCommand (Fault I)
    build_from_words [] = io_other (codes "empty command line")
    build_from_words (name ∷ rest) = ok (named (resolve_program name) name rest)

    -- The loop of `split` ends on every line, so it never answers `none`.
    unfoldable pub build_from_split :
        Option (Result (List Text) QuoteError) → Result StdCommand (Fault I)
    build_from_split (some (ok words)) = build_from_words words
    build_from_split (some (err e)) = err (Fault.refused (Error.quote e))
    build_from_split none = err Fault.unreachable

    unfoldable pub build_from_commandline : Text → Result StdCommand (Fault I)
    build_from_commandline line = build_from_split (split line)

    unfoldable pub build_input : CommandInput → Result StdCommand (Fault I)
    build_input CommandInput.empty = io_other (codes "no program specified")
    build_input (CommandInput.argv argv) = build_from_argv argv
    build_input (CommandInput.command_line line) = build_from_commandline line

    unfoldable pub build_std_command : Result StdCommand (Fault I)
    build_std_command = build_input cmd.input >>= λ c.
        reject_batch_path c.program >>= λ done. ok (record c { env = cmd.env_ops; cwd = cmd.cwd })

  -- A command line that is joined from a program and arguments builds the very command that the program
  -- and the arguments build as they are, whatever bytes they hold, with an executable set or not.
  pub build_std_command-join :
      {F : Type 0} (cmd : Command F) (name : Text) (args : List Text)
      → build_std_command (record cmd { input = CommandInput.command_line (join (name ∷ args)) })
        ≡ build_std_command (record cmd { input = CommandInput.argv (name ∷ args) })
  unfolding build_std_command build_input build_from_commandline build_from_argv build_from_split
      build_from_words resolve_program
  build_std_command-join cmd name args = rw (split-join (name ∷ args))
