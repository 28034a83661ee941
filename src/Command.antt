-- ===== src/Command.antt =====
-- The state of a command under construction (src/command.rs, src/stdio.rs, the request types of
-- src/containment.rs and of src/command/flags.rs).
pub mod Flags
use subprocess.Prelude.{ℕ, Bool, true, false, List, [], ◌∷◌, Option, none, ◌==◌, ltb, if◌then◌else◌}
use subprocess.Errors.{Text}
use subprocess.Elevation.Common.{Auth, Backend}
use subprocess.Elevation.Sanitize.{Policy, default}

-- A descriptor is its number: a negative one fails a debug assertion.
abbrev pub Fd : Type 0
Fd = ℕ

pub data Direction : Type 0 where
  in_ out : Direction

-- `F` stands for std's File.
pub data ResolvedStdio (F : Type 0) : Type 0 where
  inherit null : ResolvedStdio F
  pipe : Direction → ResolvedStdio F
  file : F → ResolvedStdio F
  merge : Fd → ResolvedStdio F

pub data EnvOp : Type 0 where
  set : Text → Text → EnvOp
  remove : Text → EnvOp
  clear : EnvOp

pub data CommandInput : Type 0 where
  empty : CommandInput
  argv : List Text → CommandInput
  command_line : Text → CommandInput

pub data ContainMode : Type 0 where
  strongest tree_walk session : ContainMode

pub data Nesting : Type 0 where
  mark opaque : Nesting

pub record ContainRequest : Type 0 where
  pub mode : Option ContainMode
  pub nesting : Nesting

pub record FlagsRequest : Type 0 where
  pub no_window : Bool
  pub detached : Bool
  pub breakaway_from_job : Bool
  pub raw : ℕ

pub record ElevationRequest : Type 0 where
  pub enabled : Bool
  pub backend : Backend
  pub auth : Auth
  pub sanitizer : Policy

-- A BTreeMap is the list of its entries in the order of the keys.
pub record Command (F : Type 0) : Type 0 where
  pub input : CommandInput
  pub executable : Option Text
  pub fds : List (Fd × ResolvedStdio F)
  pub env_ops : List EnvOp
  pub cwd : Option Text
  pub kill_on_drop : Bool
  pub contain : ContainRequest
  pub elevation : ElevationRequest
  pub fd_marker_suppressed : Bool
  pub flags : FlagsRequest

unfoldable pub new : {F : Type 0} → Command F
new = record {
  input = CommandInput.empty;
  executable = none;
  fds = [];
  env_ops = [];
  cwd = none;
  kill_on_drop = true;
  contain = record { mode = none; nesting = Nesting.mark };
  elevation = record {
    enabled = false;
    backend = Backend.auto;
    auth = Auth.interactive;
    sanitizer = default;
  };
  fd_marker_suppressed = false;
  flags = record { no_window = false; detached = false; breakaway_from_job = false; raw = 0 };
}

unfoldable pub insert_fd : {A : Type 0} → Fd → A → List (Fd × A) → List (Fd × A)
insert_fd n a [] = (n, a) ∷ []
insert_fd n a ((m, b) ∷ fds) =
    let rest = insert_fd n a fds in
    if n == m then (n, a) ∷ fds else if ltb n m then (n, a) ∷ (m, b) ∷ fds else (m, b) ∷ rest

abbrev pub contains_fd : {A : Type 0} → Fd → List (Fd × A) → Bool
contains_fd n [] = false
contains_fd n ((m, b) ∷ fds) = if n == m then true else contains_fd n fds
