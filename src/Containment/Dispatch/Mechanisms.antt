-- ===== src/Containment/Dispatch/Mechanisms.antt =====
-- The operations of what is attached, each handed to its mechanism (src/containment/dispatch.rs, impl
-- Attached).
use subprocess.Prelude.{ℕ, Option, Result, ok, err, codes}
use subprocess.Errors.{Text, Error, Done}
use subprocess.Identity.{ProcessId}
use subprocess.Containment.Fdmarker.Sweep.{Marker}
use subprocess.Containment.Dispatch.{Attached, TreeDrain}

-- A deadline: none waits for ever, and so does one that the clock cannot hold.
abbrev pub Deadline : Type 0
Deadline = Option (Option ℕ)

-- The operations of each mechanism over a state, for leaves in `L` and job handles in `J`.
pub record Mechanisms (S : Type 0) (L : Type 0) (J : Type 0) (I : Type 0) : Type 0 where
  pub kill_group : S → ℕ → Result Done (Error I) × S
  pub term_group : S → ℕ → Result Done (Error I) × S
  pub kill_leaf : S → L → S
  pub term_leaf : S → L → Result Done I × S
  pub drain_leaf : S → L → Deadline → Result TreeDrain (Error I) × S
  pub kill_job : S → J → Result Done I × S
  pub break_job : S → ℕ → Result Done (Error I) × S
  pub disarm_job : S → J → S
  pub drain_job : S → J → Deadline → Result TreeDrain (Error I) × S
  pub kill_marker : S → Marker → Result Done (Error I) × S
  pub term_marker : S → Marker → Result Done (Error I) × S
  pub drain_marker : S → Marker → Deadline → Result TreeDrain (Error I) × S
  pub kill_walk : S → ProcessId → S
  pub term_walk : S → ProcessId → Result Done (Error I) × S

-- `map_err(Error::Io)`.
abbrev pub as_io : {A : Type 0} → {I : Type 0} → Result A I → Result A (Error I)
as_io (ok a) = ok a
as_io (err e) = err (Error.io e)

module _ {S : Type 0} {L : Type 0} {J : Type 0} {I : Type 0} (calls : Mechanisms S L J I) where
  unfoldable pub hard_kill : Attached L J → S → Result Done (Error I) × S
  hard_kill Attached.nothing s = (ok tt, s)
  hard_kill Attached.delegated s = (ok tt, s)
  hard_kill (Attached.process_group pgid) s = calls.kill_group s pgid
  hard_kill (Attached.cgroup leaf) s = (ok tt, calls.kill_leaf s leaf)
  hard_kill (Attached.job_object job) s =
      let (answer, t) = calls.kill_job s job in (as_io answer, t)
  hard_kill (Attached.fd_marker m) s = calls.kill_marker s m
  hard_kill (Attached.tree_walk root) s = (ok tt, calls.kill_walk s root)

  abbrev not_actionable : Text → Result Done (Error I)
  not_actionable os = err (
      Error.unsupported (codes "terminate on a non-actionable mechanism") os
        (codes "internal invariant: a non-actionable mechanism reached terminate"))

  unfoldable pub terminate : Text → Attached L J → ℕ → S → Result Done (Error I) × S
  terminate os Attached.nothing pid s = (not_actionable os, s)
  terminate os Attached.delegated pid s = (not_actionable os, s)
  terminate os (Attached.process_group pgid) pid s = calls.term_group s pgid
  terminate os (Attached.cgroup leaf) pid s =
      let (answer, t) = calls.term_leaf s leaf in (as_io answer, t)
  terminate os (Attached.job_object job) pid s = calls.break_job s pid
  terminate os (Attached.fd_marker m) pid s = calls.term_marker s m
  terminate os (Attached.tree_walk root) pid s = calls.term_walk s root

  unfoldable pub disarm : Attached L J → S → S
  disarm (Attached.job_object job) s = calls.disarm_job s job
  disarm Attached.nothing s = s
  disarm Attached.delegated s = s
  disarm (Attached.process_group pgid) s = s
  disarm (Attached.cgroup leaf) s = s
  disarm (Attached.fd_marker m) s = s
  disarm (Attached.tree_walk root) s = s

  abbrev no_edge : Text → Result TreeDrain (Error I)
  no_edge os = err (
      Error.unsupported (codes "wait for the contained tree to drain") os
        (codes "this child's containment mechanism exposes no kernel edge for tree drain"))

  unfoldable pub wait_drained : Text → Attached L J → Deadline → S → Result TreeDrain (Error I) × S
  wait_drained os (Attached.cgroup leaf) deadline s = calls.drain_leaf s leaf deadline
  wait_drained os (Attached.job_object job) deadline s = calls.drain_job s job deadline
  wait_drained os (Attached.fd_marker m) deadline s = calls.drain_marker s m deadline
  wait_drained os Attached.nothing deadline s = (no_edge os, s)
  wait_drained os Attached.delegated deadline s = (no_edge os, s)
  wait_drained os (Attached.process_group pgid) deadline s = (no_edge os, s)
  wait_drained os (Attached.tree_walk root) deadline s = (no_edge os, s)
