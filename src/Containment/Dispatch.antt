-- ===== src/Containment/Dispatch.antt =====
-- Which mechanism contains a child: preparation before the spawn, attachment after it, and the guards of
-- its later use (src/containment/dispatch.rs, src/containment.rs).
pub mod Attach
pub mod Mechanisms
pub mod Agreement
mod Tests
use subprocess.Prelude.{
  ℕ, Bool, true, false, not, ◌&&◌, List, [], ◌∷◌, ◌++◌, Option, some, none, if◌then◌else◌, codes,
  Result, ok, err,
}
use subprocess.Errors.{Text, Error, Done, em_dash}
use subprocess.Identity.{ProcessId}
use subprocess.Command.{ContainMode, Nesting, ContainRequest}
use subprocess.Containment.Fdmarker.Sweep.{Marker}

pub data Containment : Type 0 where
  cgroup_v2 job_object process_group session fd_marker tree_walk delegated uncontained : Containment

unfoldable pub can_teardown : Containment → Bool
can_teardown Containment.uncontained = false
can_teardown Containment.delegated = false
can_teardown Containment.cgroup_v2 = true
can_teardown Containment.job_object = true
can_teardown Containment.process_group = true
can_teardown Containment.session = true
can_teardown Containment.fd_marker = true
can_teardown Containment.tree_walk = true

unfoldable pub reports_drain : Containment → Bool
reports_drain Containment.cgroup_v2 = true
reports_drain Containment.job_object = true
reports_drain Containment.fd_marker = true
reports_drain Containment.process_group = false
reports_drain Containment.session = false
reports_drain Containment.tree_walk = false
reports_drain Containment.delegated = false
reports_drain Containment.uncontained = false

pub data TreeDrain : Type 0 where
  all_members_exited all_markers_closed members_remain : TreeDrain

unfoldable pub permits_skipping_sweep : TreeDrain → Bool
permits_skipping_sweep TreeDrain.all_members_exited = true
permits_skipping_sweep TreeDrain.all_markers_closed = false
permits_skipping_sweep TreeDrain.members_remain = false

-- `Display` of a containment.
unfoldable pub containment_text : Containment → Text
containment_text Containment.cgroup_v2 = codes "cgroup v2"
containment_text Containment.job_object = codes "job object"
containment_text Containment.process_group = codes "process group"
containment_text Containment.session = codes "session"
containment_text Containment.fd_marker = codes "inherited-fd marker"
containment_text Containment.tree_walk = codes "process-tree walk"
containment_text Containment.delegated = codes "delegated"
containment_text Containment.uncontained = codes "none"

-- What is attached to a child, for control group leaves in `L` and job handles in `J`.
pub data Attached (L : Type 0) (J : Type 0) : Type 0 where
  nothing delegated : Attached L J
  process_group : ℕ → Attached L J
  cgroup : L → Attached L J
  job_object : J → Attached L J
  fd_marker : Marker → Attached L J
  tree_walk : ProcessId → Attached L J

module _ {L : Type 0} {J : Type 0} where
  unfoldable pub is_actionable : Attached L J → Bool
  is_actionable Attached.nothing = false
  is_actionable Attached.delegated = false
  is_actionable (Attached.process_group pgid) = true
  is_actionable (Attached.cgroup leaf) = true
  is_actionable (Attached.job_object job) = true
  is_actionable (Attached.fd_marker m) = true
  is_actionable (Attached.tree_walk root) = true

  unfoldable pub can_observe_drain : Attached L J → Bool
  can_observe_drain (Attached.cgroup leaf) = true
  can_observe_drain (Attached.job_object job) = true
  can_observe_drain (Attached.fd_marker m) = true
  can_observe_drain Attached.nothing = false
  can_observe_drain Attached.delegated = false
  can_observe_drain (Attached.process_group pgid) = false
  can_observe_drain (Attached.tree_walk root) = false

  unfoldable pub carries_recyclable_pgid : Attached L J → Bool
  carries_recyclable_pgid (Attached.process_group pgid) = true
  carries_recyclable_pgid (Attached.fd_marker m) = elim m.pgid [ some pgid ↦ true | none ↦ false ]
  carries_recyclable_pgid Attached.nothing = false
  carries_recyclable_pgid Attached.delegated = false
  carries_recyclable_pgid (Attached.cgroup leaf) = false
  carries_recyclable_pgid (Attached.job_object job) = false
  carries_recyclable_pgid (Attached.tree_walk root) = false

-- The two guards, for the name of the platform. Their debug assertions say that what is reported and
-- what is attached agree.
abbrev pub no_mechanism : {I : Type 0} → Text → Error I
no_mechanism os = Error.unsupported (codes "tree teardown (kill_tree / terminate_tree)") os (
    codes
      "this child holds no actionable tree-teardown mechanism (uncontained, or a nested member of an ancestor's containment group). Use kill() for a lone process, or tear down the tree via the outermost .contain()ed handle.")

unfoldable pub require_contained :
    {L : Type 0} → {J : Type 0} → {I : Type 0} → Text → Attached L J → Result Done (Error I)
require_contained os attached =
    if not (is_actionable attached) then err (no_mechanism os) else ok tt

unfoldable pub require_drainable :
    {L : Type 0}
    → {J : Type 0} → {I : Type 0} → Text
    → Containment
    → Attached L J
    → Result Done (Error I)
require_drainable os containment attached =
    if not (can_observe_drain attached)
    then err (
        Error.unsupported
          (codes "wait for the contained tree to drain (wait_tree / wait_tree_timeout)") os
          (codes "this child's containment mechanism ("
            ++ (containment_text containment
                ++ (codes ") exposes no kernel edge for tree drain "
                    ++ (em_dash
                        ++ codes
                            " only cgroup v2, a Windows job object, and the macOS fd marker do. Use kill_tree()/terminate_tree() for teardown, or wait() to watch the root alone.")))))
    else ok tt

pub data UnixSetup : Type 0 where
  session process_group no_setup : UnixSetup

unfoldable pub unix_setup_for : Option ContainMode → UnixSetup
unix_setup_for (some ContainMode.session) = UnixSetup.session
unix_setup_for (some ContainMode.tree_walk) = UnixSetup.no_setup
unix_setup_for (some ContainMode.strongest) = UnixSetup.process_group
unix_setup_for none = UnixSetup.process_group

-- `marker_wanted` of the descriptor marker.
unfoldable pub marker_wanted : Option ContainMode → Bool → Bool → Bool
marker_wanted none is_root suppressed = false
marker_wanted (some mode) is_root suppressed = is_root && not suppressed
