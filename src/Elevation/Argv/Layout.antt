-- ===== src/Elevation/Argv/Layout.antt =====
-- The layout of the command line that `build_argv` returns.
use subprocess.Prelude.{
  ℕ, ◌≢◌, arith, Bool-cases, inl, inr, All-append, ok, ◌>>=◌, Bool, true, false, List, [], ◌∷◌,
  ◌++◌, ◌≡◌, refl, ap, arith, Option, some, none, if◌then◌else◌, codes, Result,
}
use subprocess.Errors.{Text, Error}
use subprocess.Elevation.Common.{Auth, Backend}
use subprocess.Elevation.Sanitize.{EnvVar}
use subprocess.Elevation.Argv.{
  program_starts_with_dash, pkexec_flags, sudo_auth, sudo_env, tail_of, terminator, setenv,
  flags_of, build_argv, is_non_interactive,
}
use subprocess.Elevation.Argv.Flags.{
  Flags, is_flag, valid_names, Yields, Yields-bind, setenv-Flags, sudo_env-Flags, sudo_auth-Flags,
}

-- The calls that do not panic: the backend is resolved, and with debug assertions no environment is
-- given to one that cannot forward it.
abbrev pub accepts : Bool → Backend → List EnvVar → Bool
accepts checked Backend.auto env = false
accepts true Backend.doas (e ∷ env) = false
accepts true Backend.pkexec (e ∷ env) = false
accepts checked _ env = true

-- The two causes of an error.
abbrev pub Cause : Backend → Text → List EnvVar → Type 0
Cause Backend.pkexec program env = (rest : Text) × (program ≡ b'-' ∷ rest)
Cause backend program env = valid_names env ≡ false

-- What a call that returns a command line rules out: the causes of an error, where the backend looks for
-- them. doas forwards no variables, so it does not look at their names.
abbrev pub Passes : Backend → Text → List EnvVar → Type 0
Passes Backend.pkexec program env = (rest : Text) → program ≢ b'-' ∷ rest
Passes Backend.sudo program env = valid_names env ≡ true
Passes Backend.run0 program env = valid_names env ≡ true
Passes _ program env = Unit

-- The flags by which a backend is told how to authenticate. They stand first, but for the flag of run0 that
-- stands before them.
abbrev pub auth_flags : Backend → Auth → List Text
auth_flags Backend.sudo Auth.non_interactive = codes "-n" ∷ []
auth_flags Backend.sudo (Auth.stdin secret) = codes "-S" ∷ []
auth_flags Backend.sudo (Auth.askpass program) = codes "-A" ∷ []
auth_flags Backend.doas Auth.non_interactive = codes "-n" ∷ []
auth_flags Backend.run0 Auth.non_interactive = codes "--pipe" ∷ codes "--no-ask-password" ∷ []
auth_flags Backend.run0 _ = codes "--pipe" ∷ []
auth_flags Backend.pkexec _ = codes "--disable-internal-agent" ∷ []
auth_flags _ _ = []

-- What is pushed before the program: the flags of the authentication, then one for the variables.
abbrev pub Pushes : Backend → Auth → List Text → Type 0
Pushes backend auth flags =
    Flags flags × ((rest : List Text) × (flags ≡ auth_flags backend auth ++ rest))

-- The terminator, which pkexec does not read.
abbrev pub shield : Backend → List Text
shield Backend.pkexec = []
shield backend = terminator ∷ []

shield-tail_of :
    (backend : Backend) (program : Text) (args : List Text)
    → tail_of backend program args ≡ shield backend ++ program ∷ args
unfolding tail_of
shield-tail_of Backend.auto program args = refl
shield-tail_of Backend.run0 program args = refl
shield-tail_of Backend.sudo program args = refl
shield-tail_of Backend.doas program args = refl
shield-tail_of Backend.pkexec program args = refl

-- The path of the backend, flags, the terminator where the backend has one, the program and its
-- arguments.
abbrev pub LaidOut : Backend → Text → Auth → Text → List Text → List Text → Type 0
LaidOut backend path auth program args argv =
    (flags : List Text) × (argv ≡ path ∷ flags ++ (shield backend ++ program ∷ args))
    × Pushes backend auth flags

-- The value of a result that was returned.
abbrev pub Both : Backend → Auth → Text → List EnvVar → List Text → Type 0
Both backend auth program env flags = Pushes backend auth flags × Passes backend program env

starts-Cause :
    (program : Text)
    → program_starts_with_dash program ≡ true
    → (rest : Text) × (program ≡ b'-' ∷ rest)
unfolding program_starts_with_dash
starts-Cause [] h = absurd (cc h)
starts-Cause (c ∷ program) h =
    let dash : c ≡ b'-' = ground (arith, h) in (program, ap (λ (x : ℕ). x ∷ program) dash)

unstarted-Passes :
    (program : Text)
    → program_starts_with_dash program ≡ false
    → (rest : Text) → program ≢ b'-' ∷ rest
unfolding program_starts_with_dash
unstarted-Passes [] h rest e = cc e
unstarted-Passes (c ∷ program) h rest e =
    let dash : c ≡ b'-' = cc e in let no : ⊥ = ground (arith, h, dash) in no

one-Flags : (b : Bool) (t : Text) → is_flag t ≡ true → Flags (if b then t ∷ [] else [])
one-Flags true t h = (h, tt)
one-Flags false t h = tt

doas-asked :
    (auth : Auth)
    → (if is_non_interactive auth then codes "-n" ∷ [] else []) ≡ auth_flags Backend.doas auth ++ []
doas-asked Auth.interactive = refl
doas-asked Auth.non_interactive = refl
doas-asked (Auth.askpass p) = refl
doas-asked (Auth.stdin s) = refl
doas-asked Auth.gui = refl

run0-asked :
    (auth : Auth)
    → codes "--pipe" ∷ (if is_non_interactive auth then codes "--no-ask-password" ∷ [] else [])
      ≡ auth_flags Backend.run0 auth
run0-asked Auth.interactive = refl
run0-asked Auth.non_interactive = refl
run0-asked (Auth.askpass p) = refl
run0-asked (Auth.stdin s) = refl
run0-asked Auth.gui = refl

sudo_auth-asked : (auth : Auth) → sudo_auth auth ≡ auth_flags Backend.sudo auth
unfolding sudo_auth
sudo_auth-asked Auth.interactive = refl
sudo_auth-asked Auth.non_interactive = refl
sudo_auth-asked (Auth.askpass p) = refl
sudo_auth-asked (Auth.stdin s) = refl
sudo_auth-asked Auth.gui = refl

module _ (I : Type 0) (debug_name : Text → Text) where
  sudo-Both :
      (auth : Auth) (program : Text) (env : List EnvVar)
      → Yields
          (Both Backend.sudo auth program env)
          (valid_names env ≡ false)
          (sudo_env {I = I} debug_name env >>= λ flags. ok (sudo_auth auth ++ flags))
  sudo-Both auth program env =
      Yields-bind (Both Backend.sudo auth program env) _ (λ flags. sudo_auth auth ++ flags)
        (λ flags (h, v). (
          (
            All-append _ (sudo_auth auth) flags (sudo_auth-Flags auth) h,
            (flags, ap (λ a. a ++ flags) (sudo_auth-asked auth)),
          ),
          v,
        ))
        (sudo_env debug_name env) (sudo_env-Flags I debug_name env)

  run0-Both :
      (auth : Auth) (program : Text) (env : List EnvVar)
      → Yields (Both Backend.run0 auth program env) (valid_names env ≡ false) (
          setenv {I = I} debug_name env >>= λ flags. ok (
            codes "--pipe"
              ∷ (if is_non_interactive auth then codes "--no-ask-password" ∷ [] else [])
            ++ flags))
  run0-Both auth program env =
      let asked : List Text =
        if is_non_interactive auth then codes "--no-ask-password" ∷ [] else [] in
      Yields-bind (Both Backend.run0 auth program env) _ (λ flags. codes "--pipe" ∷ asked ++ flags)
        (λ flags (h, v). (
          (
            (refl, All-append _ asked flags (one-Flags (is_non_interactive auth) _ refl) h),
            (flags, ap (λ a. a ++ flags) (run0-asked auth)),
          ),
          v,
        ))
        (setenv debug_name env) (setenv-Flags I debug_name env)

  pkexec-Both :
      (auth : Auth) (program : Text) (env : List EnvVar)
      → Yields
          (Both Backend.pkexec auth program env)
          (Cause Backend.pkexec program env)
          (pkexec_flags {I = I} debug_name program)
  unfolding pkexec_flags
  pkexec-Both auth program env = elim (Bool-cases (program_starts_with_dash program)) [
    | inl e ↦ rw e (starts-Cause program e)
    | inr e ↦ rw e (((refl, tt), ([], refl)), unstarted-Passes program e)
  ]

  doas-Both :
      (auth : Auth) (program : Text) (env : List EnvVar)
      → Both Backend.doas auth program env (if is_non_interactive auth then codes "-n" ∷ [] else [])
  doas-Both auth program env =
      ((one-Flags (is_non_interactive auth) _ refl, ([], doas-asked auth)), tt)

  flags_of-Both :
      (checked : Bool) (backend : Backend) (auth : Auth) (program : Text) (env : List EnvVar)
      → accepts checked backend env ≡ true
      → (r : Result (List Text) (Error I)) × (flags_of {I = I} debug_name checked backend auth
            program env
          ≡ some r)
        × Yields (Both backend auth program env) (Cause backend program env) r
  unfolding flags_of
  flags_of-Both checked Backend.auto auth program env h = ground arith
  flags_of-Both checked Backend.sudo auth program env h = (_, refl, sudo-Both auth program env)
  flags_of-Both checked Backend.run0 auth program env h = (_, refl, run0-Both auth program env)
  flags_of-Both true Backend.doas auth program [] h = (_, refl, doas-Both auth program [])
  flags_of-Both false Backend.doas auth program env h = (_, refl, doas-Both auth program env)
  flags_of-Both true Backend.pkexec auth program [] h = (_, refl, pkexec-Both auth program [])
  flags_of-Both false Backend.pkexec auth program env h = (_, refl, pkexec-Both auth program env)
  flags_of-Both true Backend.doas auth program (e ∷ env) h = ground arith
  flags_of-Both true Backend.pkexec auth program (e ∷ env) h = ground arith

  -- The call returns the laid out command line, where there is no cause of an error, or an error with its
  -- cause.
  abbrev pub Built :
      Backend
      → Text
      → Auth
      → Text
      → List Text
      → List EnvVar
      → Option (Result (List Text) (Error I))
      → Type 0
  Built backend path auth program args env none = false ≡ true
  Built backend path auth program args env (some r) =
      Yields (λ argv. LaidOut backend path auth program args argv × Passes backend program env)
        (Cause backend program env) r

  -- A call of `build_argv` on a resolved backend, with no environment where the backend forwards none,
  -- does not panic. It returns the path of the backend, flags, the terminator unless the backend is
  -- pkexec, the program and its arguments as they were given; the flags begin with those by which the
  -- backend is told how to authenticate, and each of them begins with a dash and is not the terminator.
  -- An error is returned if and only if the program has a leading dash under pkexec, or a variable has an
  -- invalid name under sudo or run0.
  pub build_argv-Built :
      (checked : Bool) (backend : Backend) (path : Text) (auth : Auth) (program : Text)
      (args : List Text) (env : List EnvVar)
      → accepts checked backend env ≡ true
      → Built backend path auth program args env
          (build_argv debug_name checked backend path auth program args env)
  unfolding build_argv
  build_argv-Built checked backend path auth program args env h =
      let (r, e, y) = flags_of-Both checked backend auth program env h in
      rw e (
        Yields-bind
          (λ argv. LaidOut backend path auth program args argv × Passes backend program env) _
          (λ pushed. path ∷ pushed ++ tail_of backend program args)
          (λ pushed (f, p).
            ((pushed, ap (λ t. path ∷ pushed ++ t) (shield-tail_of backend program args), f), p))
          r y)
