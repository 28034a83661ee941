-- ===== src/Containment/Dispatch/Attach.antt =====
-- Preparation and attachment (src/containment/dispatch.rs).
use subprocess.Prelude.{
  ℕ, Bool, true, false, not, ◌++◌, Option, some, none, if◌then◌else◌, codes, Result, ok, err, ℤ,
  pos,
}
use subprocess.Errors.{Text, Error}
use subprocess.Identity.{ProcessId, Resolved}
use subprocess.Command.{ContainMode}
use subprocess.Containment.Fdmarker.Sweep.{Marker}
use subprocess.Containment.Dispatch.{
  Containment, Attached, UnixSetup, unix_setup_for, marker_wanted,
}

-- The pipe of a marker, as `install` leaves it.
pub record PreparedMarker : Type 0 where
  pub read : ℕ
  pub handle : ℕ
  pub read_handle : ℕ

pub record Prepared (L : Type 0) : Type 0 where
  pub mode : Option ContainMode
  pub is_root : Bool
  pub cgroup_leaf : Option L
  pub marker : Option PreparedMarker

pub data Platform : Type 0 where
  linux macos other_unix windows : Platform

-- The calls: the creation of a leaf and of a marker before the spawn, and after it the leaf's membership,
-- the identity of a pid, and the job object, which is none where the host does not allow one.
pub record AttachSystem (S : Type 0) (L : Type 0) (J : Type 0) (I : Type 0) : Type 0 where
  pub try_create_leaf : S → Option L × S
  pub install_marker : S → Option PreparedMarker × S
  pub contains_pid : S → L → ℕ → Bool × S
  pub drop_leaf : S → L → S
  pub query : S → ℕ → Resolved ProcessId × S
  pub attach_job : S → Result (Option J) I × S
  pub io_text : I → Text
  pub decimal : ℕ → Text

unfoldable pub unprepared : {L : Type 0} → Option ContainMode → Bool → Prepared L
unprepared mode is_root = record {
  mode = mode;
  is_root = is_root;
  cgroup_leaf = none;
  marker = none;
}

-- `Marker::new`.
unfoldable pub new_marker : PreparedMarker → Option ProcessId → Option ℤ → Bool → Marker
new_marker prepared root pgid root_denied = record {
  read = prepared.read;
  handle = prepared.handle;
  read_handle = prepared.read_handle;
  root = root;
  root_denied = root_denied;
  pgid = pgid;
}

-- The root of a marker: its identity, and whether it was denied.
unfoldable pub marker_root : Resolved ProcessId → Option ProcessId × Bool
marker_root (Resolved.found id) = (some id, false)
marker_root Resolved.gone = (none, false)
marker_root Resolved.unknown = (none, true)

unfoldable pub marker_pgid : ContainMode → ℕ → Option ℤ
marker_pgid ContainMode.tree_walk pid = none
marker_pgid ContainMode.strongest pid = some (pos pid)
marker_pgid ContainMode.session pid = some (pos pid)

unfoldable pub group_containment : ContainMode → Containment
group_containment ContainMode.session = Containment.session
group_containment ContainMode.strongest = Containment.process_group
group_containment ContainMode.tree_walk = Containment.process_group

module _ {S : Type 0} {L : Type 0} {J : Type 0} {I : Type 0} (sys : AttachSystem S L J I) where
  abbrev pub Outcome : Type 0
  Outcome = Result (Containment × Attached L J) (Error I)

  -- `resolve_root_id`, wrapped as the tree walk.
  unfoldable pub tree_walk_of : ℕ → Resolved ProcessId → Outcome
  tree_walk_of pid (Resolved.found id) = ok (Containment.tree_walk, Attached.tree_walk id)
  tree_walk_of pid Resolved.gone =
      err (Error.containment (codes "tree-walk root vanished before its identity could be read"))
  tree_walk_of pid Resolved.unknown = err (
      Error.unassessable
        (codes "tree-walk root pid " ++ (sys.decimal pid ++ codes " identity could not be read"))
        none)

  unfoldable pub attach_walk : ℕ → S → Outcome × S
  attach_walk pid s = let (answer, t) = sys.query s pid in (tree_walk_of pid answer, t)

  unfoldable pub prepare_linux : Option ContainMode → UnixSetup → S → Prepared L × S
  prepare_linux mode UnixSetup.session s = (unprepared mode true, s)
  prepare_linux mode UnixSetup.no_setup s = (unprepared mode true, s)
  prepare_linux mode UnixSetup.process_group s =
      let (leaf, t) = sys.try_create_leaf s in
      (record { mode = mode; is_root = true; cgroup_leaf = leaf; marker = none }, t)

  unfoldable pub prepare_macos : Option ContainMode → Bool → Bool → S → Prepared L × S
  prepare_macos mode is_root wanted s =
      let (marker, t) = sys.install_marker s in
      if wanted
      then (record { mode = mode; is_root = is_root; cgroup_leaf = none; marker = marker }, t)
      else (unprepared mode is_root, s)

  -- `prepare` from the test of the mode on; `nested` says that the marker of an outer group is in the
  -- environment.
  unfoldable pub prepare : Platform → Bool → Bool → Option ContainMode → S → Prepared L × S
  prepare platform nested suppressed none s = (unprepared none false, s)
  prepare Platform.linux true suppressed (some mode) s = (unprepared (some mode) false, s)
  prepare Platform.linux false suppressed (some mode) s =
      prepare_linux (some mode) (unix_setup_for (some mode)) s
  prepare Platform.macos nested suppressed (some mode) s =
      prepare_macos (some mode) (not nested) (marker_wanted (some mode) (not nested) suppressed) s
  prepare Platform.other_unix nested suppressed (some mode) s =
      (unprepared (some mode) (not nested), s)
  prepare Platform.windows nested suppressed (some mode) s =
      (unprepared (some mode) (not nested), s)

  unfoldable pub attach_leaf : ℕ → Option L → S → Outcome × S
  attach_leaf pid none s = (ok (Containment.process_group, Attached.process_group pid), s)
  attach_leaf pid (some leaf) s =
      let (inside, t) = sys.contains_pid s leaf pid in
      (
        ok (
            if inside
            then (Containment.cgroup_v2, Attached.cgroup leaf)
            else (Containment.process_group, Attached.process_group pid)),
        if inside then t else sys.drop_leaf t leaf,
      )

  unfoldable pub attach_linux : ℕ → ContainMode → Option L → S → Outcome × S
  attach_linux pid ContainMode.tree_walk leaf s = attach_walk pid s
  attach_linux pid ContainMode.session leaf s =
      (ok (Containment.session, Attached.process_group pid), s)
  attach_linux pid ContainMode.strongest leaf s = attach_leaf pid leaf s

  unfoldable pub attach_unmarked : ℕ → ContainMode → S → Outcome × S
  attach_unmarked pid ContainMode.tree_walk s = attach_walk pid s
  attach_unmarked pid mode s = (ok (group_containment mode, Attached.process_group pid), s)

  unfoldable pub attach_unix : ℕ → ContainMode → Option PreparedMarker → S → Outcome × S
  attach_unix pid mode none s = attach_unmarked pid mode s
  attach_unix pid mode (some marker) s =
      let (answer, t) = sys.query s pid in
      let (root, denied) = marker_root answer in
      (
        ok (
          Containment.fd_marker,
          Attached.fd_marker (new_marker marker root (marker_pgid mode pid) denied),
        ),
        t,
      )

  unfoldable pub attach_answered : ℕ → Result (Option J) I → S → Outcome × S
  attach_answered pid (ok (some job)) s = (ok (Containment.job_object, Attached.job_object job), s)
  attach_answered pid (ok none) s = attach_walk pid s
  attach_answered pid (err e) s = (err (Error.containment (sys.io_text e)), s)

  unfoldable pub attach_windows : ℕ → ContainMode → S → Outcome × S
  attach_windows pid ContainMode.tree_walk s = attach_walk pid s
  attach_windows pid mode s = let (answer, t) = sys.attach_job s in attach_answered pid answer t

  unfoldable pub attach_mode : Platform → ℕ → Bool → ContainMode → Prepared L → S → Outcome × S
  attach_mode platform pid false mode prepared s =
      (ok (Containment.delegated, Attached.delegated), s)
  attach_mode Platform.linux pid true mode prepared s = attach_linux pid mode prepared.cgroup_leaf s
  attach_mode Platform.macos pid true mode prepared s = attach_unix pid mode prepared.marker s
  attach_mode Platform.other_unix pid true mode prepared s = attach_unmarked pid mode s
  attach_mode Platform.windows pid true mode prepared s = attach_windows pid mode s

  unfoldable pub attach_tree : Platform → ℕ → Prepared L → S → Outcome × S
  attach_tree platform pid prepared s = elim prepared.mode [
    | none ↦ (ok (Containment.uncontained, Attached.nothing), s)
    | some mode ↦ attach_mode platform pid prepared.is_root mode prepared s
  ]
