-- ===== src/Child/Started.antt =====
-- What a spawn leaves behind, on success and on failure (src/child/spawn.rs).
use subprocess.Prelude.{ℕ, Bool, none, codes, Result, ok, err, ◌≡◌, refl}
use subprocess.Errors.{Error, Done}
use subprocess.Identity.{ProcessId, Resolved}
use subprocess.Command.{Command}
use subprocess.Containment.Dispatch.{Containment, Attached}
use subprocess.Containment.Dispatch.Attach.{Prepared, prepare, attach_tree}
use subprocess.Child.Stdio.{PipeOwnership, Fault, Ends, resolve_stdio}
use subprocess.Child.Build.{StdCommand, build_std_command}
use subprocess.Child.Spawn.{
  SpawnSystem, Spawned, all_slots, tear_down, spawn_identity_error, from_parts, adopted, identified,
  contained, started, start,
}

module _ (S : Type 0) (F : Type 0) (E : Type 0) (R : Type 0) (W : Type 0) (L : Type 0) (J : Type 0)
    (I : Type 0) (X : Type 0) (sys : SpawnSystem S F E R W L J I X) (kill_on_drop : Bool)
    (cmd : Command F) (std : StdCommand) (ends : Ends E R W) (s : S) where
  -- The state in which the process is started, and what was prepared.
  abbrev pub ready : Prepared L × S
  ready = prepare sys.containing sys.platform sys.nested cmd.fd_marker_suppressed cmd.contain.mode s

  abbrev pub starting : Result ℕ I × S
  starting = sys.spawn_std ready.1 std ends.child_ends ready.0

  -- The state after the kill of a process, and then a wait for it.
  abbrev pub killed_and_reaped : ℕ → S → S
  killed_and_reaped pid t = (sys.wait_std (sys.kill_std t pid).1 pid).1

  -- What is left of a process that was started with this pid.
  pub data Left (pid : ℕ) : Result (Spawned R W L J) (Fault I) → S → Type 0 where
    unattached :
        (e : Error I)
        → (attach_tree sys.containing sys.platform pid ready.0 starting.1).0 ≡ err e
        → Left pid (err (Fault.refused e)) (
            killed_and_reaped pid
              (attach_tree sys.containing sys.platform pid ready.0 starting.1).1)
    vanished :
        (containment : Containment) (attached : Attached L J)
        → (attach_tree sys.containing sys.platform pid ready.0 starting.1).0
          ≡ ok (containment, attached)
        → (sys.containing.query
            (attach_tree sys.containing sys.platform pid ready.0 starting.1).1
            pid).0
          ≡ Resolved.gone
        → Left pid
            (err (
              Fault.refused (
                Error.io (
                  sys.paths.other
                    (codes "spawned child vanished before its identity could be read")))))
            (killed_and_reaped pid
              (sys.containing.query
                (attach_tree sys.containing sys.platform pid ready.0 starting.1).1
                pid).1)
    unidentified :
        (containment : Containment) (attached : Attached L J)
        → (attach_tree sys.containing sys.platform pid ready.0 starting.1).0
          ≡ ok (containment, attached)
        → (sys.containing.query
            (attach_tree sys.containing sys.platform pid ready.0 starting.1).1
            pid).0
          ≡ Resolved.unknown
        → Left pid
            (err (
              Fault.refused (
                Error.unassessable
                  (codes "the OS refused to report the spawned child's identity")
                  none)))
            (killed_and_reaped pid
              (sys.containing.query
                (attach_tree sys.containing sys.platform pid ready.0 starting.1).1
                pid).1)
    unadopted :
        (i : I) (t : S)
        → (sys.adopt t pid).0 ≡ err i
        → Left pid (err (Fault.refused (Error.io i))) (sys.adopt t pid).1
    running :
        (id : ProcessId) (containment : Containment) (attached : Attached L J) (t : S)
        → (attach_tree sys.containing sys.platform pid ready.0 starting.1).0
          ≡ ok (containment, attached)
        → (sys.containing.query
            (attach_tree sys.containing sys.platform pid ready.0 starting.1).1
            pid).0
          ≡ Resolved.found id
        → (sys.adopt t pid).0 ≡ ok tt
        → Left pid
            (ok (from_parts sys id ends.parent_ends kill_on_drop containment attached))
            (sys.adopt t pid).1

  adopted-Left :
      (pid : ℕ) (id : ProcessId) (containment : Containment) (attached : Attached L J) (t : S)
      → (a : Result Done I)
      → (attach_tree sys.containing sys.platform pid ready.0 starting.1).0
        ≡ ok (containment, attached)
      → (sys.containing.query
          (attach_tree sys.containing sys.platform pid ready.0 starting.1).1
          pid).0
        ≡ Resolved.found id
      → (sys.adopt t pid).0 ≡ a
      → let r =
          adopted sys kill_on_drop
            (from_parts sys id ends.parent_ends kill_on_drop containment attached)
            a
            (sys.adopt t pid).1 in
        Left pid r.0 r.1
  unfolding adopted
  adopted-Left pid id containment attached t (ok done) at found q =
      Left.running id containment attached t at found q
  adopted-Left pid id containment attached t (err i) at found q = Left.unadopted i t q

  identified-Left :
      (pid : ℕ) (containment : Containment) (attached : Attached L J) (a : Resolved ProcessId)
      → (attach_tree sys.containing sys.platform pid ready.0 starting.1).0
        ≡ ok (containment, attached)
      → (sys.containing.query
          (attach_tree sys.containing sys.platform pid ready.0 starting.1).1
          pid).0
        ≡ a
      → let r =
          identified sys kill_on_drop pid ends.parent_ends containment attached a
            (sys.containing.query
              (attach_tree sys.containing sys.platform pid ready.0 starting.1).1
              pid).1 in
        Left pid r.0 r.1
  unfolding identified tear_down spawn_identity_error
  identified-Left pid containment attached (Resolved.found id) at q =
      adopted-Left pid id containment attached _ _ at q refl
  identified-Left pid containment attached Resolved.gone at q =
      Left.vanished containment attached at q
  identified-Left pid containment attached Resolved.unknown at q =
      Left.unidentified containment attached at q

  contained-Left :
      (pid : ℕ) (a : Result (Containment × Attached L J) (Error I))
      → (attach_tree sys.containing sys.platform pid ready.0 starting.1).0 ≡ a
      → let r =
          contained sys kill_on_drop pid ends.parent_ends a
            (attach_tree sys.containing sys.platform pid ready.0 starting.1).1 in
        Left pid r.0 r.1
  unfolding contained tear_down
  contained-Left pid (ok (containment, attached)) q =
      identified-Left pid containment attached _ q refl
  contained-Left pid (err e) q = Left.unattached e q

  -- The end of a spawn whose descriptors are resolved: the start of the process failed; or a process was
  -- started, and what is left of it is known.
  pub data Ended : Result (Spawned R W L J) (Fault I) → S → Type 0 where
    unstarted : (i : I) → starting.0 ≡ err i → Ended (err (Fault.refused (Error.io i))) starting.1
    begun :
        (pid : ℕ) (r : Result (Spawned R W L J) (Fault I)) (t : S)
        → starting.0 ≡ ok pid
        → Left pid r t
        → Ended r t

  started-Ended :
      (a : Result ℕ I)
      → starting.0 ≡ a
      → let r = started sys kill_on_drop ends.parent_ends ready.0 a starting.1 in Ended r.0 r.1
  unfolding started
  started-Ended (ok pid) q = Ended.begun pid _ _ q (contained-Left pid _ refl)
  started-Ended (err i) q = Ended.unstarted i q

  pub start-Ended : let r = start sys kill_on_drop cmd std (ok ends) s in Ended r.0 r.1
  unfolding start
  start-Ended = started-Ended _ refl

module _ (S : Type 0) (F : Type 0) (E : Type 0) (R : Type 0) (W : Type 0) (L : Type 0) (J : Type 0)
    (I : Type 0) (X : Type 0) (sys : SpawnSystem S F E R W L J I X) (kill_on_drop : Bool)
    (cmd : Command F) (s : S) where
  abbrev resolving : Result (Ends E R W) (Fault I) × S
  resolving = resolve_stdio sys.stdio cmd.fds PipeOwnership.owned (all_slots sys cmd.fds) s

  -- The end of a spawn.
  pub data Spawns : Result (Spawned R W L J) (Fault I) → S → Type 0 where
    unbuilt : (f : Fault I) → build_std_command sys.paths cmd ≡ err f → Spawns (err f) s
    unresolved : (f : Fault I) → resolving.0 ≡ err f → Spawns (err f) resolving.1
    ended :
        (std : StdCommand) (ends : Ends E R W) (r : Result (Spawned R W L J) (Fault I)) (t : S)
        → build_std_command sys.paths cmd ≡ ok std
        → resolving.0 ≡ ok ends
        → Ended S F E R W L J I X sys kill_on_drop cmd std ends resolving.1 r t
        → Spawns r t
