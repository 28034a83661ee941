-- ===== src/Tokio/Reaper/Dropped.antt =====
-- When a dropped child is handed to the reaper (src/tokio/child.rs, Drop).
use subprocess.Prelude.{
  ℕ, Bool, true, false, not, Option, some, none, ◌≡◌, refl, arith, if◌then◌else◌, Result, ok, err,
}
use subprocess.Errors.{Error, Done}
use subprocess.Tokio.Reaper.{Ending, ReapJob, ReaperHost, LazyPool, submit_to}

-- The calls on the resources of a child: the kill of its tree, whether it was reaped, its own kill, and
-- a look at its status, which says whether it has exited.
pub record ChildHost (S : Type 0) (R : Type 0) (I : Type 0) : Type 0 where
  pub hard_kill : S → R → Result Done (Error I) × S
  pub is_reaped : S → R → Bool
  pub start_kill : S → R → Result Done (Error I) × S
  pub try_wait : S → R → Bool × S
  pub drop_os : S → R → Ending × S

pub record Child (R : Type 0) : Type 0 where
  pub os : R
  pub pid : ℕ
  pub kill_on_drop : Bool

module _ {S : Type 0} {R : Type 0} {I : Type 0} (calls : ChildHost S R I) where
  -- What `Drop` hands to the reaper, if anything; else the resources are dropped here.
  unfoldable pub start_killed : Child R → Result Done (Error I) → S → Option (ReapJob R) × S
  start_killed child (ok done) s = (some (record { os = child.os; pid = child.pid }), s)
  start_killed child (err e) s =
      let (exited, t) = calls.try_wait s child.os in (none, (calls.drop_os t child.os).1)

  unfoldable pub tree_killed : Child R → S → Option (ReapJob R) × S
  tree_killed child s =
      if calls.is_reaped s child.os
      then (none, (calls.drop_os s child.os).1)
      else let (killed, t) = calls.start_kill s child.os in start_killed child killed t

  unfoldable pub handed_over : Child R → S → Option (ReapJob R) × S
  handed_over child s =
      if not child.kill_on_drop
      then (none, (calls.drop_os s child.os).1)
      else let (tree, t) = calls.hard_kill s child.os in tree_killed child t

-- The whole of `Drop`, from one thread.
unfoldable pub drop_child :
    {S : Type 0}
    → {R : Type 0} → {I : Type 0} → ChildHost S R I
    → ReaperHost S R I
    → Child R
    → LazyPool R
    → S
    → LazyPool R × S
drop_child calls host child lazy s =
    let (job, t) = handed_over calls child s in
    elim job [ some j ↦ let ((sent, l), u) = submit_to host j lazy t in (l, u) | none ↦ (lazy, t) ]

module _ (S : Type 0) (R : Type 0) (I : Type 0) (calls : ChildHost S R I) where
  start_killed-handed :
      (child : Child R) (answer : Result Done (Error I)) (s : S) (j : ReapJob R)
      → (start_killed calls child answer s).0 ≡ some j
      → (answer ≡ ok tt) × (j.os ≡ child.os) × (j.pid ≡ child.pid)
  unfolding start_killed
  start_killed-handed child (ok done) s j h = (refl, ground arith, ground arith)
  start_killed-handed child (err e) s j h = ground arith

  reaped-handed :
      (child : Child R) (s : S) (j : ReapJob R) (reaped : Bool)
      → calls.is_reaped s child.os ≡ reaped
      → (if reaped
          then (none, (calls.drop_os s child.os).1)
          else start_killed calls child
              (calls.start_kill s child.os).0
              (calls.start_kill s child.os).1).0
        ≡ some j
      → (calls.is_reaped s child.os ≡ false)
        × ((calls.start_kill s child.os).0 ≡ ok tt)
        × (j.os ≡ child.os)
        × (j.pid ≡ child.pid)
  reaped-handed child s j true e h = ground arith
  reaped-handed child s j false e h =
      let all = start_killed-handed child _ _ j h in (e, all.0, all.1, all.2)

  kept-handed :
      (child : Child R) (s : S) (j : ReapJob R) (kills : Bool)
      → child.kill_on_drop ≡ kills
      → (if not kills
          then (none, (calls.drop_os s child.os).1)
          else tree_killed calls child (calls.hard_kill s child.os).1).0
        ≡ some j
      → (child.kill_on_drop ≡ true)
        × (calls.is_reaped (calls.hard_kill s child.os).1 child.os ≡ false)
        × ((calls.start_kill (calls.hard_kill s child.os).1 child.os).0 ≡ ok tt)
        × (j.os ≡ child.os)
        × (j.pid ≡ child.pid)
  unfolding tree_killed
  kept-handed child s j false e h = ground arith
  kept-handed child s j true e h =
      let all = reaped-handed child (calls.hard_kill s child.os).1 j _ refl h in
      (e, all.0, all.1, all.2, all.3)

  -- A dropped child is handed to the reaper only if it was to be killed on drop, its status had not been
  -- collected after the kill of its tree, and its own kill then succeeded; the job has its resources
  -- and its pid. So no worker waits for a child that was not signalled.
  pub handed_over-killed :
      (child : Child R) (s : S) (j : ReapJob R)
      → (handed_over calls child s).0 ≡ some j
      → (child.kill_on_drop ≡ true)
        × (calls.is_reaped (calls.hard_kill s child.os).1 child.os ≡ false)
        × ((calls.start_kill (calls.hard_kill s child.os).1 child.os).0 ≡ ok tt)
        × (j.os ≡ child.os)
        × (j.pid ≡ child.pid)
  unfolding handed_over
  handed_over-killed child s j h = kept-handed child s j _ refl h
