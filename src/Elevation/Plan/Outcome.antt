-- ===== src/Elevation/Plan/Outcome.antt =====
-- What each verdict of the planner says of the host and of the request.
use subprocess.Prelude.{true, false, some, none, ◌≡◌, ◌⊎◌}
use subprocess.Errors.{Text, Error, ElevationErrorKind}
use subprocess.Elevation.Common.{
  Auth, Backend, is_auto, is_sudo, is_pkexec, is_gui, is_interactive, carries_secret,
}
use subprocess.Elevation.Plan.{BackendSet, Host, Transition, path, is_windows, is_macos_gui_auto}

-- The backend `b` stands for the requested one: itself, or the first that `auto` finds.
pub data Stands (available : BackendSet) : Backend → Backend → Type 0 where
  named : {b : Backend} → is_auto b ≡ false → Stands available b b
  first : Stands available Backend.auto Backend.sudo
  second : available.sudo ≡ none → Stands available Backend.auto Backend.doas

pub record Wraps (host : Host) (backend : Backend) (auth : Auth) (b : Backend) (p : Text)
    : Type 0 where
  pub posix : is_windows host.os ≡ false
  pub stands : Stands host.available backend b
  pub resolved : path host.available b ≡ some p
  pub secret : carries_secret auth ≡ true → is_sudo b ≡ true
  pub dialog : is_gui auth ≡ is_pkexec b
  pub terminal : is_interactive auth ≡ true → host.has_tty ≡ true

-- The program that the request needs is not there.
abbrev pub Missing : Host → Backend → Auth → Type 0
Missing host backend auth =
    ((is_macos_gui_auto host.os backend auth ≡ true) × (host.available.osascript ≡ none))
    ⊎ ((is_macos_gui_auto host.os backend auth ≡ false) × (path host.available backend ≡ none))

abbrev pub FailsWith : Host → Backend → Auth → ElevationErrorKind → Type 0
FailsWith host backend auth ElevationErrorKind.backend_unavailable = Missing host backend auth
FailsWith host backend auth ElevationErrorKind.no_tty =
    (is_interactive auth ≡ true) × (host.has_tty ≡ false)
FailsWith host backend auth _ = false ≡ true

module _ (I : Type 0) where
  -- What a verdict on a supported request of an unprivileged caller tells.
  abbrev pub Tells : Host → Backend → Auth → Transition I → Type 0
  Tells host backend auth Transition.run_as_is = false ≡ true
  Tells host backend auth (Transition.elevate_posix b p a) =
      (a ≡ auth) × Wraps host backend auth b p
  Tells host backend auth (Transition.elevate_windows a) = (a ≡ auth) × (is_windows host.os ≡ true)
  Tells host backend auth (Transition.elevate_macos_gui p m) =
      (is_macos_gui_auto host.os backend auth ≡ true)
      × (host.available.osascript ≡ some p)
      × (m ≡ host.arg_max)
  Tells host backend auth (Transition.reject (Error.elevation kind detail)) =
      FailsWith host backend auth kind
  Tells host backend auth (Transition.reject _) = false ≡ true

  -- A caller that has the privilege runs as is; else the verdict tells what it rests on.
  abbrev pub Meets : Host → Backend → Auth → Transition I → Type 0
  Meets host backend auth verdict =
      ((host.has_privilege ≡ true) × (verdict ≡ Transition.run_as_is))
      ⊎ ((host.has_privilege ≡ false) × Tells host backend auth verdict)
