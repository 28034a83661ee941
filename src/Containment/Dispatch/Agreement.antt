-- ===== src/Containment/Dispatch/Agreement.antt =====
-- What is reported and what is attached agree (src/containment/dispatch.rs, src/containment.rs).
use subprocess.Prelude.{
  ℕ, Bool, true, false, not, Option, some, none, if◌then◌else◌, Result, ok, err, ◌≡◌, refl, arith,
}
use subprocess.Errors.{Text, Error, Done}
use subprocess.Identity.{ProcessId, Resolved}
use subprocess.Command.{ContainMode}
use subprocess.Containment.Dispatch.{
  Containment, Attached, can_teardown, reports_drain, is_actionable, can_observe_drain,
  marker_wanted, require_contained,
}
use subprocess.Containment.Dispatch.Attach.{
  PreparedMarker, Prepared, Platform, AttachSystem, Outcome, tree_walk_of, attach_walk, attach_leaf,
  attach_linux, attach_unmarked, attach_unix, attach_answered, attach_windows, attach_mode,
  attach_tree, group_containment, prepare, prepare_macos, unprepared,
}

module _ (S : Type 0) (L : Type 0) (J : Type 0) (I : Type 0) (sys : AttachSystem S L J I) where
  -- Where an attachment succeeds, the containment reported says that the tree can be torn down if and
  -- only if the mechanism attached is one for it, and the same of the drain of the tree.
  pub record Matches (p : Containment × Attached L J) : Type 0 where
    pub teardown : can_teardown p.0 ≡ is_actionable p.1
    pub drain : reports_drain p.0 ≡ can_observe_drain p.1

  abbrev pub Agrees : Result (Containment × Attached L J) (Error I) → Type 0
  Agrees (ok p) = Matches p
  Agrees (err e) = Unit

  tree_walk_of-Agrees :
      (pid : ℕ) (answer : Resolved ProcessId) → Agrees (tree_walk_of sys pid answer)
  unfolding tree_walk_of can_teardown is_actionable reports_drain can_observe_drain
  tree_walk_of-Agrees pid (Resolved.found id) = record { teardown = refl; drain = refl }
  tree_walk_of-Agrees pid Resolved.gone = tt
  tree_walk_of-Agrees pid Resolved.unknown = tt

  attach_walk-Agrees : (pid : ℕ) (s : S) → Agrees (attach_walk sys pid s).0
  unfolding attach_walk
  attach_walk-Agrees pid s = tree_walk_of-Agrees pid _

  attach_leaf-Agrees : (pid : ℕ) (leaf : Option L) (s : S) → Agrees (attach_leaf sys pid leaf s).0
  unfolding attach_leaf can_teardown is_actionable reports_drain can_observe_drain
  attach_leaf-Agrees pid none s = record { teardown = refl; drain = refl }
  attach_leaf-Agrees pid (some leaf) s = go (sys.contains_pid s leaf pid).0
    where
      go :
          (b : Bool)
          → Matches (
              if b
              then (Containment.cgroup_v2, Attached.cgroup leaf)
              else (Containment.process_group, Attached.process_group pid))
      go true = record { teardown = refl; drain = refl }
      go false = record { teardown = refl; drain = refl }

  attach_linux-Agrees :
      (pid : ℕ) (mode : ContainMode) (leaf : Option L) (s : S)
      → Agrees (attach_linux sys pid mode leaf s).0
  unfolding attach_linux can_teardown is_actionable reports_drain can_observe_drain
  attach_linux-Agrees pid ContainMode.tree_walk leaf s = attach_walk-Agrees pid s
  attach_linux-Agrees pid ContainMode.session leaf s = record { teardown = refl; drain = refl }
  attach_linux-Agrees pid ContainMode.strongest leaf s = attach_leaf-Agrees pid leaf s

  attach_unmarked-Agrees :
      (pid : ℕ) (mode : ContainMode) (s : S) → Agrees (attach_unmarked sys pid mode s).0
  unfolding attach_unmarked group_containment can_teardown is_actionable reports_drain
      can_observe_drain
  attach_unmarked-Agrees pid ContainMode.tree_walk s = attach_walk-Agrees pid s
  attach_unmarked-Agrees pid ContainMode.session s = record { teardown = refl; drain = refl }
  attach_unmarked-Agrees pid ContainMode.strongest s = record { teardown = refl; drain = refl }

  attach_unix-Agrees :
      (pid : ℕ) (mode : ContainMode) (marker : Option PreparedMarker) (s : S)
      → Agrees (attach_unix sys pid mode marker s).0
  unfolding attach_unix can_teardown is_actionable reports_drain can_observe_drain
  attach_unix-Agrees pid mode none s = attach_unmarked-Agrees pid mode s
  attach_unix-Agrees pid mode (some marker) s = record { teardown = refl; drain = refl }

  attach_answered-Agrees :
      (pid : ℕ) (answer : Result (Option J) I) (s : S) → Agrees (attach_answered sys pid answer s).0
  unfolding attach_answered can_teardown is_actionable reports_drain can_observe_drain
  attach_answered-Agrees pid (ok (some job)) s = record { teardown = refl; drain = refl }
  attach_answered-Agrees pid (ok none) s = attach_walk-Agrees pid s
  attach_answered-Agrees pid (err e) s = tt

  attach_windows-Agrees :
      (pid : ℕ) (mode : ContainMode) (s : S) → Agrees (attach_windows sys pid mode s).0
  unfolding attach_windows
  attach_windows-Agrees pid ContainMode.tree_walk s = attach_walk-Agrees pid s
  attach_windows-Agrees pid ContainMode.session s = attach_answered-Agrees pid _ _
  attach_windows-Agrees pid ContainMode.strongest s = attach_answered-Agrees pid _ _

  attach_mode-Agrees :
      (platform : Platform) (pid : ℕ) (is_root : Bool) (mode : ContainMode) (prepared : Prepared L)
      (s : S)
      → Agrees (attach_mode sys platform pid is_root mode prepared s).0
  unfolding attach_mode can_teardown is_actionable reports_drain can_observe_drain
  attach_mode-Agrees platform pid false mode prepared s = record { teardown = refl; drain = refl }
  attach_mode-Agrees Platform.linux pid true mode prepared s = attach_linux-Agrees pid mode _ s
  attach_mode-Agrees Platform.macos pid true mode prepared s = attach_unix-Agrees pid mode _ s
  attach_mode-Agrees Platform.other_unix pid true mode prepared s =
      attach_unmarked-Agrees pid mode s
  attach_mode-Agrees Platform.windows pid true mode prepared s = attach_windows-Agrees pid mode s

  uncontained-Matches : Matches (Containment.uncontained, Attached.nothing)
  unfolding can_teardown is_actionable reports_drain can_observe_drain
  uncontained-Matches = record { teardown = refl; drain = refl }

  -- On every platform, whatever was prepared: if the attachment succeeds, the containment reported can be
  -- torn down if and only if the mechanism attached is actionable, and its drain can be observed if and
  -- only if that of the mechanism can, so the assertions of the two guards never fail.
  pub attach_tree-Agrees :
      (platform : Platform) (pid : ℕ) (prepared : Prepared L) (s : S)
      → Agrees (attach_tree sys platform pid prepared s).0
  unfolding attach_tree
  attach_tree-Agrees platform pid prepared s = go prepared.mode
    where
      go :
          (mode : Option ContainMode)
          → Agrees
              (elim mode as (λ m. Outcome sys × S) [
                | none ↦ (ok (Containment.uncontained, Attached.nothing), s)
                | some m ↦ attach_mode sys platform pid prepared.is_root m prepared s
              ]).0
      go none = uncontained-Matches
      go (some m) = attach_mode-Agrees platform pid prepared.is_root m prepared s

  past_guard :
      (b : Bool) (r : Result Done (Error I)) (e : Error I)
      → r ≡ (if not b then err e else ok tt)
      → r ≡ ok tt
      → b ≡ true
  past_guard true r e h k = refl
  past_guard false r e h k = ground arith

  guarded-actionable :
      (os : Text) (a : Attached L J)
      → require_contained {I = I} os a ≡ ok tt
      → is_actionable a ≡ true
  unfolding require_contained
  guarded-actionable os a h = past_guard (is_actionable a) (require_contained os a) _ refl h

  -- A child whose tree may be torn down, as the guard says, is one of a root that asked for containment:
  -- neither an uncontained nor a nested child has a mechanism.
  pub attached-root :
      (platform : Platform) (nested suppressed : Bool) (mode : Option ContainMode) (pid : ℕ) (s : S)
      (os : Text) (p : Containment × Attached L J)
      → (attach_tree sys platform pid
          (prepare sys platform nested suppressed mode s).0
          (prepare sys platform nested suppressed mode s).1).0
        ≡ ok p
      → require_contained {I = I} os p.1 ≡ ok tt
      → (nested ≡ false) × ((m : ContainMode) × (mode ≡ some m))
  unfolding prepare attach_tree attach_mode unprepared is_actionable prepare_macos marker_wanted
  attached-root platform nested suppressed none pid s os p e h =
      ground (arith, guarded-actionable os p.1 h)
  attached-root platform false suppressed (some mode) pid s os p e h = (refl, (mode, refl))
  attached-root Platform.linux true suppressed (some mode) pid s os p e h =
      ground (arith, guarded-actionable os p.1 h)
  attached-root Platform.macos true suppressed (some mode) pid s os p e h =
      ground (arith, guarded-actionable os p.1 h)
  attached-root Platform.other_unix true suppressed (some mode) pid s os p e h =
      ground (arith, guarded-actionable os p.1 h)
  attached-root Platform.windows true suppressed (some mode) pid s os p e h =
      ground (arith, guarded-actionable os p.1 h)
