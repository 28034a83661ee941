-- ===== src/Elevation/Plan/Tests.antt =====
-- Verdicts on a Linux host that has sudo, and instances of the theorems about them.
use subprocess.Prelude.{ℕ, true, false, some, none, ◌≡◌, refl, codes}
use subprocess.Elevation.Common.{Auth, Backend, Privilege}
use subprocess.Elevation.Plan.{
  BackendSet, Os, Host, Transition, plan, plan_after, structural, resolve, resolve_posix,
  resolve_auto, wrap, structural_posix, impossible_on_macos, gui_without_dialog, pkexec_without_gui,
  secret_without_sudo, secret_for, effective,
}
use subprocess.Elevation.Plan.Matrix.{supports, structural-Verdict, Verdict}
use subprocess.Elevation.Plan.Outcome.{Meets}
use subprocess.Elevation.Plan.Verdicts.{plan-Meets}

abbrev programs : BackendSet
programs = record {
  run0 = none;
  sudo = some (codes "/usr/bin/sudo");
  doas = some (codes "/usr/bin/doas");
  pkexec = none;
  osascript = none;
}

abbrev linux : Host
linux = record {
  has_privilege = false;
  has_tty = true;
  available = programs;
  os = Os.unix;
  arg_max = none;
}

abbrev password : Auth
password = Auth.stdin (record { expose = codes "pw" })

plan_auto :
    plan {I = ℕ} linux Privilege.elevated Backend.auto password
    ≡ Transition.elevate_posix Backend.sudo (codes "/usr/bin/sudo") password
unfolding plan plan_after structural resolve resolve_posix resolve_auto wrap structural_posix
    impossible_on_macos gui_without_dialog pkexec_without_gui secret_without_sudo secret_for
    effective
plan_auto = refl

structural-Verdict_example :
    Verdict ℕ
      (supports programs Os.unix Backend.doas password)
      (structural linux Os.unix Backend.doas password)
structural-Verdict_example = structural-Verdict ℕ linux Os.unix Backend.doas password

plan-Meets_example :
    Meets ℕ linux Backend.auto password (plan linux Privilege.elevated Backend.auto password)
plan-Meets_example = plan-Meets ℕ linux Backend.auto password refl
