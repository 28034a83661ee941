-- ===== src/Child.antt =====
-- The handle of a spawned child (src/child.rs, src/child/lifecycle.rs, src/child/proc_handle.rs).
-- Debug assertions are left out, as in a release build.
pub mod Shutdown
pub mod Escalation
pub mod Grouped
pub mod Stdio
pub mod Build
pub mod CrtFds
pub mod Spawn
pub mod Started
mod Tests
use subprocess.Prelude.{
  ℕ, Bool, true, false, not, ◌&&◌, Option, some, none, ◌++◌, if◌then◌else◌, Result, ok, err, codes,
}
use subprocess.Errors.{Text, Error, ElevationErrorKind, Done}
use subprocess.Identity.{ProcessId, Resolved, Liveness, same_id}
use subprocess.Elevation.Common.{ElevatedVia, ElevationReport}
use subprocess.Graceful.{GracefulMechanism, GracefulCalls}
use subprocess.Containment.Dispatch.{
  Containment, Attached, TreeDrain, require_contained, require_drainable,
}
use subprocess.Containment.Dispatch.Mechanisms.{
  Mechanisms, Deadline, as_io, hard_kill, terminate, disarm, wait_drained,
}

-- What a child has kept besides the handle of its process, which is a part of the state.
pub record Child (L : Type 0) (J : Type 0) : Type 0 where
  pub id : ProcessId
  pub kill_on_drop : Bool
  pub containment : Containment
  pub attached : Attached L J
  pub graceful : GracefulMechanism
  pub elevation : Option ElevationReport

-- The calls on the process handle of a child, for exit statuses in `X`; `after` adds to the clock,
-- and `watch` waits for the exit of an identity without collecting it.
pub record ChildSystem (S : Type 0) (L : Type 0) (J : Type 0) (I : Type 0) (X : Type 0)
    : Type 0 where
  pub os : Text
  pub proc_id : ℕ
  pub kill_proc : S → Result Done I × S
  pub wait_proc : S → Result X I × S
  pub try_wait_proc : S → Result (Option X) I × S
  pub wait_proc_until : S → ℕ → Result (Option X) I × S
  pub after : S → ℕ → Option ℕ × S
  pub watch : S → ProcessId → Deadline → Result Bool (Error I) × S
  pub permission_denied : I → Bool
  pub io_text : I → Text
  pub mechanisms : Mechanisms S L J I
  pub signals : GracefulCalls S I

unfoldable pub root_pid_was_recycled : ProcessId → Resolved ProcessId → Liveness → Bool
root_pid_was_recycled original (Resolved.found now) Liveness.alive = not (same_id now original)
root_pid_was_recycled original (Resolved.found now) Liveness.dead = false
root_pid_was_recycled original (Resolved.found now) Liveness.unknown = false
root_pid_was_recycled original Resolved.gone liveness = false
root_pid_was_recycled original Resolved.unknown liveness = false

-- `matches!(…, Some(Wrapped(_) | WindowsUac))`.
abbrev wraps : ElevatedVia → Bool
wraps (ElevatedVia.wrapped backend) = true
wraps ElevatedVia.windows_uac = true
wraps _ = false

unfoldable pub is_elevated_wrapper : Option ElevationReport → Bool
is_elevated_wrapper none = false
is_elevated_wrapper (some report) = wraps report.via

module _ {S : Type 0} {L : Type 0} {J : Type 0} {I : Type 0} {X : Type 0}
    (sys : ChildSystem S L J I X) where
  unfoldable pub map_elevated_kill_error : I → Bool → Error I
  map_elevated_kill_error e elevated_wrapper =
      if elevated_wrapper && sys.permission_denied e
      then Error.elevation ElevationErrorKind.unkillable
          (codes "could not signal the elevated child: " ++ sys.io_text e)
      else Error.io e

  module _ (child : Child L J) where
    abbrev killed : Result Done I → Result Done (Error I)
    killed (ok done) = ok done
    killed (err e) = err (map_elevated_kill_error e (is_elevated_wrapper child.elevation))

    unfoldable pub kill : S → Result Done (Error I) × S
    kill s = let (answer, t) = sys.kill_proc s in (killed answer, t)

    unfoldable pub wait : S → Result X (Error I) × S
    wait s = let (answer, t) = sys.wait_proc s in (as_io answer, t)

    unfoldable pub wait_deadline : ℕ → S → Result (Option X) (Error I) × S
    wait_deadline deadline s = let (answer, t) = sys.wait_proc_until s deadline in (as_io answer, t)

    -- The end of `wait_timeout`, for the deadline that the clock could hold.
    unfoldable pub wait_until : Option ℕ → S → Result (Option X) (Error I) × S
    wait_until (some deadline) s = wait_deadline deadline s
    wait_until none s =
        let (answer, t) = wait s in (elim answer [ ok x ↦ ok (some x) | err e ↦ err e ], t)

    unfoldable pub wait_timeout : ℕ → S → Result (Option X) (Error I) × S
    wait_timeout timeout s = let (deadline, t) = sys.after s timeout in wait_until deadline t

    -- `Result::and`.
    abbrev pub both : Result Done (Error I) → Result Done (Error I) → Result Done (Error I)
    both (ok done) r = r
    both (err e) r = err e

    -- `kill_tree` behind its guard: the mechanism, then the process by its handle.
    unfoldable pub kill_attached : S → Result Done (Error I) × S
    kill_attached s =
        let (group, t) = hard_kill sys.mechanisms child.attached s in
        let (backstop, u) = kill t in (both group backstop, u)

    unfoldable pub guarded :
        {A : Type 0}
        → Result Done (Error I)
        → (S → Result A (Error I) × S)
        → S
        → Result A (Error I) × S
    guarded (ok done) act s = act s
    guarded (err e) act s = (err e, s)

    unfoldable pub kill_tree : S → Result Done (Error I) × S
    kill_tree = guarded (require_contained sys.os child.attached) kill_attached

    unfoldable pub terminate_tree : S → Result Done (Error I) × S
    terminate_tree =
        guarded (require_contained sys.os child.attached)
          (terminate sys.mechanisms sys.os child.attached sys.proc_id)

    unfoldable pub wait_tree : S → Result TreeDrain (Error I) × S
    wait_tree =
        guarded (require_drainable sys.os child.containment child.attached)
          (wait_drained sys.mechanisms sys.os child.attached none)

    -- `deadline_from`, and what waits until it.
    unfoldable pub drained_within : ℕ → S → Result TreeDrain (Error I) × S
    drained_within duration s =
        let (deadline, t) = sys.after s duration in
        wait_drained sys.mechanisms sys.os child.attached (some deadline) t

    unfoldable pub wait_tree_timeout : ℕ → S → Result TreeDrain (Error I) × S
    wait_tree_timeout timeout =
        guarded (require_drainable sys.os child.containment child.attached) (drained_within timeout)

    -- `block_until_exit` with a timeout.
    unfoldable pub block_until_exit : ℕ → S → Result Bool (Error I) × S
    block_until_exit timeout s =
        let (deadline, t) = sys.after s timeout in sys.watch t child.id (some deadline)

    -- Consumes the handle: the child left behind is not killed on drop.
    unfoldable pub detach : S → Child L J × S
    detach s = (record child { kill_on_drop = false }, disarm sys.mechanisms child.attached s)

    -- `teardown_on_drop` of a std process: it waits only for a process that its kill has reached.
    unfoldable pub teardown_killed : Result Done I → S → S
    teardown_killed (ok done) s = (sys.wait_proc s).1
    teardown_killed (err e) s = (sys.try_wait_proc s).1

    unfoldable pub teardown_on_drop : S → S
    teardown_on_drop s = let (answer, t) = sys.kill_proc s in teardown_killed answer t

    -- `Drop` of a child.
    unfoldable pub drop_handle : S → S
    drop_handle s =
        if not child.kill_on_drop
        then s
        else teardown_on_drop (hard_kill sys.mechanisms child.attached s).1
