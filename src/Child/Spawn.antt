-- ===== src/Child/Spawn.antt =====
-- The spawn of a command on Unix (src/child/spawn.rs, spawn_unelevated).
mod Tests
use subprocess.Prelude.{
  ℕ, Bool, true, false, ◌++◌, List, [], ◌∷◌, map, Option, some, none, leb, if◌then◌else◌, Result,
  ok, err, codes,
}
use subprocess.Errors.{Text, Error, Done}
use subprocess.Identity.{ProcessId, Resolved}
use subprocess.Graceful.{GracefulMechanism}
use subprocess.Command.{Fd, ResolvedStdio, Command}
use subprocess.Containment.Dispatch.{Containment, Attached}
use subprocess.Containment.Dispatch.Attach.{Prepared, Platform, AttachSystem, prepare, attach_tree}
use subprocess.Child.{Child}
use subprocess.Child.Stdio.{ParentEnd, PipeOwnership, Fault, StdioSystem, Ends, resolve_stdio}
use subprocess.Child.Build.{StdCommand, Paths, build_std_command}

-- The calls of a spawn: `spawn_std` starts a process and answers its pid, `kill_std` and `wait_std` are
-- those of std's child, and `adopt` is `SharedChild::new`. `nested` says that the marker of an outer
-- group is in the environment.
pub record SpawnSystem (S : Type 0) (F : Type 0) (E : Type 0) (R : Type 0) (W : Type 0) (L : Type 0)
    (J : Type 0) (I : Type 0) (X : Type 0) : Type 0 where
  pub stdio : StdioSystem S F E R W I
  pub containing : AttachSystem S L J I
  pub paths : Paths I
  pub platform : Platform
  pub nested : Bool
  pub spawn_std : S → StdCommand → List (Fd × E) → Prepared L → Result ℕ I × S
  pub kill_std : S → ℕ → Result Done I × S
  pub wait_std : S → ℕ → Result X I × S
  pub adopt : S → ℕ → Result Done I × S

-- A child with the ends of its pipes.
pub record Spawned (R : Type 0) (W : Type 0) (L : Type 0) (J : Type 0) : Type 0 where
  pub child : Child L J
  pub pipes : List (Fd × ParentEnd R W)

module _ {S : Type 0} {F : Type 0} {E : Type 0} {R : Type 0} {W : Type 0} {L : Type 0} {J : Type 0}
    {I : Type 0} {X : Type 0} (sys : SpawnSystem S F E R W L J I X) where
  unfoldable pub spawn_identity_error : Resolved ProcessId → Error I
  spawn_identity_error Resolved.unknown =
      Error.unassessable (codes "the OS refused to report the spawned child's identity") none
  spawn_identity_error Resolved.gone =
      Error.io (sys.paths.other (codes "spawned child vanished before its identity could be read"))
  spawn_identity_error (Resolved.found id) =
      Error.io (sys.paths.other (codes "spawned child vanished before its identity could be read"))

  -- The standard slots, and the others that are configured.
  abbrev extra_slots : List (Fd × ResolvedStdio F) → List Fd
  extra_slots [] = []
  extra_slots ((fd, r) ∷ fds) = if leb 3 fd then fd ∷ extra_slots fds else extra_slots fds

  unfoldable pub all_slots : List (Fd × ResolvedStdio F) → List Fd
  all_slots fds = 0 ∷ 1 ∷ 2 ∷ extra_slots fds

  -- Kills and reaps the process that was just started.
  unfoldable pub tear_down : ℕ → S → S
  tear_down pid s = (sys.wait_std (sys.kill_std s pid).1 pid).1

  abbrev Spawning : Type 0
  Spawning = Result (Spawned R W L J) (Fault I) × S

  abbrev failed : Error I → S → Spawning
  failed e s = (err (Fault.refused e), s)

  -- `Child::from_parts`.
  unfoldable pub from_parts :
      ProcessId → List (Fd × ParentEnd R W) → Bool → Containment → Attached L J → Spawned R W L J
  from_parts id pipes kill_on_drop containment attached = record {
    child = record {
      id = id;
      kill_on_drop = kill_on_drop;
      containment = containment;
      attached = attached;
      graceful = GracefulMechanism.process;
      elevation = none;
    };
    pipes = pipes;
  }

  module _ (kill_on_drop : Bool) where
    unfoldable pub adopted : Spawned R W L J → Result Done I → S → Spawning
    adopted spawned (ok done) s = (ok spawned, s)
    adopted spawned (err e) s = failed (Error.io e) s

    unfoldable pub identified :
        ℕ
        → List (Fd × ParentEnd R W)
        → Containment
        → Attached L J
        → Resolved ProcessId
        → S
        → Spawning
    identified pid pipes containment attached (Resolved.found id) s =
        let (answer, t) = sys.adopt s pid in
        adopted (from_parts id pipes kill_on_drop containment attached) answer t
    identified pid pipes containment attached Resolved.gone s =
        failed (spawn_identity_error Resolved.gone) (tear_down pid s)
    identified pid pipes containment attached Resolved.unknown s =
        failed (spawn_identity_error Resolved.unknown) (tear_down pid s)

    unfoldable pub contained :
        ℕ → List (Fd × ParentEnd R W) → Result (Containment × Attached L J) (Error I) → S → Spawning
    contained pid pipes (ok (containment, attached)) s =
        let (answer, t) = sys.containing.query s pid in
        identified pid pipes containment attached answer t
    contained pid pipes (err e) s = failed e (tear_down pid s)

    unfoldable pub started : List (Fd × ParentEnd R W) → Prepared L → Result ℕ I → S → Spawning
    started pipes prepared (ok pid) s =
        let (answer, t) = attach_tree sys.containing sys.platform pid prepared s in
        contained pid pipes answer t
    started pipes prepared (err e) s = failed (Error.io e) s

    unfoldable pub start : Command F → StdCommand → Result (Ends E R W) (Fault I) → S → Spawning
    start cmd std (ok ends) s =
        let (prepared, t) =
          prepare sys.containing sys.platform sys.nested cmd.fd_marker_suppressed cmd.contain.mode
            s in
        let (answer, u) = sys.spawn_std t std ends.child_ends prepared in
        started ends.parent_ends prepared answer u
    start cmd std (err f) s = (err f, s)

    unfoldable pub built : Command F → Result StdCommand (Fault I) → S → Spawning
    built cmd (ok std) s =
        let (ends, t) = resolve_stdio sys.stdio cmd.fds PipeOwnership.owned (all_slots cmd.fds) s in
        start cmd std ends t
    built cmd (err f) s = (err f, s)

    -- The caller's command, without its descriptors, and the child.
    unfoldable pub spawn_unelevated : Command F → S → Command F × Spawning
    spawn_unelevated cmd s =
        (record cmd { fds = [] }, built cmd (build_std_command sys.paths cmd) s)
