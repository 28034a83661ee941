-- ===== src/Graceful.antt =====
-- The cooperative signal of a child (src/graceful.rs).
use subprocess.Prelude.{ℕ, Bool, if◌then◌else◌, Result, err, codes}
use subprocess.Errors.{Text, Error, Done}
use subprocess.Identity.{ProcessId}

pub data GracefulMechanism : Type 0 where
  process console_group other_console_group unknown nothing : GracefulMechanism

-- The calls of the backends: a signal by identity, and a console event to a group, on Windows only.
pub record GracefulCalls (S : Type 0) (I : Type 0) : Type 0 where
  pub windows : Bool
  pub by_identity : S → ProcessId → Result Done (Error I) × S
  pub to_console : S → ℕ → Result Done (Error I) × S

abbrev pub refused : {I : Type 0} → Text → Text → Result Done (Error I)
refused os detail = err (Error.unsupported (codes "graceful terminate") os detail)

-- On Windows a console group is addressed by the pid of its leader.
unfoldable pub signal_console_group :
    {S : Type 0}
    → {I : Type 0} → GracefulCalls S I
    → Text
    → ProcessId
    → S
    → Result Done (Error I) × S
signal_console_group calls os id s = if calls.windows then calls.to_console s id.pid else (
  refused os (codes "internal invariant: a console-group mechanism reached signal off Windows"),
  s,
)

unfoldable pub signal :
    {S : Type 0}
    → {I : Type 0} → GracefulCalls S I
    → Text
    → GracefulMechanism
    → ProcessId
    → S
    → Result Done (Error I) × S
signal calls os GracefulMechanism.process id s = calls.by_identity s id
signal calls os GracefulMechanism.console_group id s = signal_console_group calls os id s
signal calls os GracefulMechanism.other_console_group id s = signal_console_group calls os id s
signal calls os GracefulMechanism.unknown id s = (
  refused os (
      codes
        "cosca did not create this child — a system elevation service did — so whether it leads a console process group of its own is unknown, and an event addressed to its pid would reach its leader's whole group instead. Use kill() for a hard teardown."),
  s,
)
signal calls os GracefulMechanism.nothing id s = (
  refused os (
      codes
        "this child leads no console process group of its own, so no console control event can be addressed to it by any process; group leadership is fixed at creation. Spawn it with contain() to give it one, or use kill() for a hard teardown."),
  s,
)
