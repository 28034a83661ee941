-- ===== src/Elevation/Argv/Tests.antt =====
-- Command lines of sudo and pkexec, and instances of the theorems about them.
use subprocess.Prelude.{ℕ, true, List, [], ◌∷◌, some, ◌≡◌, refl, codes, ok}
use subprocess.Errors.{Text}
use subprocess.Elevation.Common.{Auth, Backend}
use subprocess.Elevation.Sanitize.{EnvVar}
use subprocess.Elevation.Argv.{
  build_argv, flags_of, tail_of, sudo_env, sudo_auth, preserve_env_flag, preserve_rest,
  valid_env_name,
}
use subprocess.Elevation.Argv.Layout.{build_argv-Built, Built}

abbrev bare : Text → Text
bare k = k

abbrev variables : List EnvVar
variables = (codes "A", codes "1") ∷ (codes "B_2", codes "x y") ∷ []

abbrev arguments : List Text
arguments = codes "-x" ∷ codes "--" ∷ []

build_argv-sudo :
    build_argv {I = ℕ} bare true Backend.sudo
      (codes "/bin/sudo")
      Auth.non_interactive
      (codes "-p")
      arguments
      variables
    ≡ some (
        ok (
          codes "/bin/sudo"
          ∷ codes "-n"
          ∷ codes "--preserve-env=A,B_2"
          ∷ codes "--"
          ∷ codes "-p"
          ∷ codes "-x"
          ∷ codes "--"
          ∷ []))
unfolding build_argv flags_of tail_of sudo_env sudo_auth preserve_env_flag preserve_rest
    valid_env_name
build_argv-sudo = refl

build_argv-Built_example :
    Built ℕ bare Backend.run0
      (codes "/bin/run0")
      Auth.interactive
      (codes "prog")
      arguments
      variables
      (build_argv bare true Backend.run0
        (codes "/bin/run0")
        Auth.interactive
        (codes "prog")
        arguments
        variables)
build_argv-Built_example =
    build_argv-Built ℕ bare true Backend.run0 (codes "/bin/run0") Auth.interactive (codes "prog")
      arguments variables refl
