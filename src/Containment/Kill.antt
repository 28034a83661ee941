-- ===== src/Containment/Kill.antt =====
-- Killing by identity on Unix (src/containment/treewalk.rs, lines 204 to 345, and
-- src/identity/probe.rs).
pub mod Steps
mod Tests
use subprocess.Prelude.{
  ℕ, Bool, true, false, ◌&&◌, List, [], ◌∷◌, ◌++◌, Option, some, none, ◌==◌, ltb, leb,
  if◌then◌else◌,
}
use mathlib.Core.Option
use subprocess.Identity.{ProcessId, Resolved, found, gone, unknown, signal_target, same_id}
use subprocess.Containment.Treewalk.{Edge, resolve_or_drop, descendants_with}

pub data KillOutcome : Type 0 where
  terminated already_gone not_attempted : KillOutcome

-- The errno of `kill(2)`, as far as the code tells the numbers apart.
pub data Errno : Type 0 where
  esrch other : Errno

-- The system under a state `S`: `query` is `ProcessId::of`, and `kill` is `kill(2)` with one signal.
pub record System (S : Type 0) : Type 0 where
  pub query : S → ℕ → Resolved ProcessId × S
  pub kill : S → ℕ → Option Errno × S

unfoldable pub outcome_of : Option Errno → KillOutcome
outcome_of none = KillOutcome.terminated
outcome_of (some Errno.esrch) = KillOutcome.already_gone
outcome_of (some Errno.other) = KillOutcome.not_attempted

-- The outcome, the pids that a signal was sent to, and the state left.
pub record Killing (S : Type 0) : Type 0 where
  pub outcome : KillOutcome
  pub sent : List ℕ
  pub left : S

module _ {S : Type 0} (sys : System S) where
  abbrev pub skip : KillOutcome → S → Killing S
  skip outcome s = record { outcome = outcome; sent = []; left = s }

  unfoldable pub signal_at : S → Option ℕ → Killing S
  signal_at s none = skip KillOutcome.not_attempted s
  signal_at s (some target) =
      let (error, left) = sys.kill s target in
      record { outcome = outcome_of error; sent = target ∷ []; left = left }

  unfoldable pub kill_answered : ProcessId → Resolved ProcessId → S → Killing S
  kill_answered id (found live) s =
      if same_id live id
      then signal_at s (signal_target id.pid)
      else skip KillOutcome.already_gone s
  kill_answered id gone s = skip KillOutcome.already_gone s
  kill_answered id unknown s = skip KillOutcome.not_attempted s

  unfoldable pub kill_by_identity : ProcessId → S → Killing S
  kill_by_identity id s = let (answer, asked) = sys.query s id.pid in kill_answered id answer asked

  -- The loop over the descendants: the pids signalled, and the state left.
  unfoldable pub kill_each : List ProcessId → S → List ℕ × S
  kill_each [] s = ([], s)
  kill_each (id ∷ ids) s =
      let killing = kill_by_identity id s in
      let (sent, left) = kill_each ids killing.left in (killing.sent ++ sent, left)

  -- `hard_kill` with SIGKILL and `terminate` with SIGTERM. The walk asks for each pid at most once,
  -- so what it hears is a function, `answers`.
  unfoldable pub kill_tree :
      (ℕ → Resolved ProcessId) → List Edge → Bool → ProcessId → S → Option (List ℕ × S)
  kill_tree answers parents allow_equal root s =
      Option.map (λ ids. kill_each (root ∷ ids) s)
        (descendants_with root parents allow_equal (λ pid. resolve_or_drop (answers pid)))
