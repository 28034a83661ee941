-- ===== src/Elevation/Plan.antt =====
-- The elevation planner (src/elevation/plan.rs).
pub mod Matrix
pub mod Outcome
pub mod Requests
pub mod Verdicts
mod Tests
use subprocess.Prelude.{
  ℕ, Bool, true, false, not, ◌&&◌, ◌++◌, Option, some, none, if◌then◌else◌, codes,
}
use subprocess.Errors.{Text, ElevationErrorKind, Error}
use subprocess.Elevation.Common.{
  Backend, Auth, Privilege, backend_name, is_auto, is_sudo, is_pkexec, is_gui, is_interactive,
  is_askpass, carries_secret,
}

pub data Os : Type 0 where
  unix mac_os windows : Os

abbrev pub is_mac_os : Os → Bool
is_mac_os Os.mac_os = true
is_mac_os _ = false

abbrev pub is_windows : Os → Bool
is_windows Os.windows = true
is_windows _ = false

unfoldable pub is_macos_gui_auto : Os → Backend → Auth → Bool
is_macos_gui_auto os backend auth = is_mac_os os && is_gui auth && is_auto backend

pub record BackendSet : Type 0 where
  pub run0 : Option Text
  pub sudo : Option Text
  pub doas : Option Text
  pub pkexec : Option Text
  pub osascript : Option Text

-- `or` of the standard library's Option.
abbrev pub or {ℓ} : {A : Type ℓ} → Option A → Option A → Option A
or (some a) p = some a
or none p = p

unfoldable pub path : BackendSet → Backend → Option Text
path available Backend.run0 = available.run0
path available Backend.sudo = available.sudo
path available Backend.doas = available.doas
path available Backend.pkexec = available.pkexec
path available Backend.auto = or available.sudo available.doas

-- The field `elevated` of the source is `has_privilege` here.
pub record Host : Type 0 where
  pub has_privilege : Bool
  pub has_tty : Bool
  pub available : BackendSet
  pub os : Os
  pub arg_max : Option ℕ

pub data Transition (I : Type 0) : Type 0 where
  run_as_is : Transition I
  elevate_posix : Backend → Text → Auth → Transition I
  elevate_windows : Auth → Transition I
  elevate_macos_gui : Text → Option ℕ → Transition I
  reject : Error I → Transition I

abbrev is_some {ℓ} : {A : Type ℓ} → Option A → Bool
is_some (some a) = true
is_some none = false

unfoldable pub effective : BackendSet → Backend → Option Backend
effective available Backend.auto =
    if is_some available.sudo
    then some Backend.sudo
    else if is_some available.doas
    then some Backend.doas
    else none
effective available explicit = some explicit

unfoldable pub secret_op : Backend → Backend → Text → Text
secret_op backend eff kind =
    if is_auto backend
    then codes "Auto (resolves to " ++ backend_name eff ++ codes ") + " ++ kind
    else backend_name backend ++ codes " + " ++ kind

-- Neither non-interactive nor a secret can be given to runas.
abbrev is_headless : Auth → Bool
is_headless Auth.non_interactive = true
is_headless auth = carries_secret auth

module _ {I : Type 0} where
  -- The structural matrix of POSIX: its early returns, in order.
  abbrev posix_unsupported : Os → Text → Text → Option (Error I)
  posix_unsupported os op detail =
      some (Error.unsupported op (if is_mac_os os then codes "macos" else codes "unix") detail)

  unfoldable pub impossible_on_macos : Os → Backend → Option (Error I)
  impossible_on_macos Os.mac_os Backend.pkexec =
      posix_unsupported Os.mac_os (codes "Backend::" ++ backend_name Backend.pkexec) (
        codes
          "pkexec is a polkit (Linux) program and does not exist on macOS; use Backend::Auto with Auth::Gui for the macOS authentication dialog")
  impossible_on_macos Os.mac_os Backend.run0 =
      posix_unsupported Os.mac_os (codes "Backend::" ++ backend_name Backend.run0) (
        codes
          "run0 ships with systemd and does not exist on macOS; use Backend::Auto (sudo), or Auth::Gui for the macOS authentication dialog")
  impossible_on_macos _ _ = none

  unfoldable pub gui_without_dialog : Os → Backend → Auth → Option (Error I)
  gui_without_dialog os backend auth =
      if is_gui auth
      then if is_mac_os os
        then if not (is_macos_gui_auto os backend auth)
          then posix_unsupported os (backend_name backend ++ codes " + Auth::Gui") (
              codes
                "macOS graphical elevation goes through Authorization Services, not a CLI wrapper; pair Auth::Gui with Backend::Auto")
          else none
        else if not (is_pkexec backend)
        then posix_unsupported os (backend_name backend ++ codes " + Auth::Gui")
            (codes "graphical (Gui) auth is only available through Backend::Pkexec")
        else none
      else none

  unfoldable pub pkexec_without_gui : Os → Backend → Auth → Option (Error I)
  pkexec_without_gui os backend auth =
      if is_pkexec backend && not (is_gui auth)
      then posix_unsupported os (codes "pkexec + non-Gui auth")
          (codes "pkexec is the graphical backend; pair it with Auth::Gui")
      else none

  unfoldable pub secret_for : Os → Backend → Auth → Option Backend → Option (Error I)
  secret_for os backend auth none = none
  secret_for os backend auth (some eff) =
      if not (is_sudo eff)
      then if is_askpass auth
        then posix_unsupported os (secret_op backend eff (codes "Askpass"))
            (codes "askpass auth is sudo-only; run0/doas/pkexec have no askpass mechanism")
        else posix_unsupported os (secret_op backend eff (codes "Stdin")) (
            codes
              "Stdin (sudo -S) auth is sudo-only; doas has no -S and non-sudo targets would leak the password")
      else none

  unfoldable pub secret_without_sudo : Os → Backend → Auth → BackendSet → Option (Error I)
  secret_without_sudo os backend auth available =
      if carries_secret auth then secret_for os backend auth (effective available backend) else none

  unfoldable pub structural_posix : Os → Backend → Auth → BackendSet → Option (Error I)
  structural_posix os backend auth available = or (impossible_on_macos os backend) (
      or (gui_without_dialog os backend auth)
        (or (pkexec_without_gui os backend auth) (secret_without_sudo os backend auth available)))

  unfoldable pub structural_windows : Backend → Auth → Option (Error I)
  structural_windows backend auth =
      if not (is_auto backend)
      then some (
          Error.unsupported (codes "elevation backend " ++ backend_name backend) (codes "windows") (
            codes
              "POSIX elevation backends do not exist on Windows; use Backend::Auto (ShellExecuteEx runas)"))
      else if is_headless auth
      then some (
          Error.unsupported (codes "runas + non-interactive/askpass/stdin auth") (codes "windows") (
            codes
              "ShellExecuteEx(runas) has no non-interactive, askpass, or stdin-credential mechanism; use Auth::Interactive or Auth::Gui (both map to the UAC consent gate)"))
      else none

  abbrev reject_backend_unavailable : Text → Transition I
  reject_backend_unavailable detail =
      Transition.reject (Error.elevation ElevationErrorKind.backend_unavailable detail)

  -- The check of the terminal, and the verdict, for a backend found at a path.
  unfoldable pub wrap : Host → Backend → Text → Auth → Transition I
  wrap host resolved program auth =
      if is_interactive auth && not host.has_tty
      then Transition.reject (
          Error.elevation ElevationErrorKind.no_tty (
            codes
              "Auth::Interactive requires a controlling terminal; use Auth::NonInteractive / Askpass / Stdin, or run from a TTY"))
      else Transition.elevate_posix resolved program auth

  unfoldable pub resolve_auto : Host → Auth → Option Text → Option Text → Transition I
  resolve_auto host auth (some p) doas = wrap host Backend.sudo p auth
  resolve_auto host auth none (some p) = wrap host Backend.doas p auth
  resolve_auto host auth none none =
      reject_backend_unavailable (codes "no sudo/doas on PATH for Backend::Auto")

  unfoldable pub resolve_explicit : Host → Backend → Auth → Option Text → Transition I
  resolve_explicit host explicit auth (some p) = wrap host explicit p auth
  resolve_explicit host explicit auth none =
      reject_backend_unavailable
        (codes "forced backend " ++ backend_name explicit ++ codes " is not on PATH")

  unfoldable pub resolve_posix : Host → Backend → Auth → Transition I
  resolve_posix host backend auth =
      if is_auto backend
      then resolve_auto host auth host.available.sudo host.available.doas
      else resolve_explicit host backend auth (path host.available backend)

  unfoldable pub resolve_osascript : Host → Option Text → Transition I
  resolve_osascript host (some p) = Transition.elevate_macos_gui p host.arg_max
  resolve_osascript host none =
      reject_backend_unavailable (
        codes "/usr/bin/osascript is missing or not executable; macOS graphical elevation needs it")

  unfoldable pub structural : Host → Os → Backend → Auth → Option (Error I)
  structural host Os.windows backend auth = structural_windows backend auth
  structural host os backend auth = structural_posix os backend auth host.available

  unfoldable pub resolve : Host → Os → Backend → Auth → Transition I
  resolve host Os.windows backend auth = Transition.elevate_windows auth
  resolve host Os.mac_os backend auth =
      if is_macos_gui_auto Os.mac_os backend auth
      then resolve_osascript host host.available.osascript
      else resolve_posix host backend auth
  resolve host Os.unix backend auth = resolve_posix host backend auth

  -- The verdict once the structural matrix has answered.
  unfoldable pub plan_after : Host → Backend → Auth → Option (Error I) → Transition I
  plan_after host backend auth (some error) = Transition.reject error
  plan_after host backend auth none =
      if host.has_privilege then Transition.run_as_is else resolve host host.os backend auth

  unfoldable pub plan : Host → Privilege → Backend → Auth → Transition I
  plan host Privilege.elevated backend auth =
      plan_after host backend auth (structural host host.os backend auth)
  plan host _ backend auth = Transition.run_as_is
