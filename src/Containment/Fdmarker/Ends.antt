-- ===== src/Containment/Fdmarker/Ends.antt =====
-- How many passes a sweep takes (src/containment/fdmarker.rs).
use subprocess.Prelude.{
  ℕ, ◌+◌, ◌≤◌, ◌<◌, zero, suc, Bool, true, false, not, List, [], ◌∷◌, Option, some, none, ◌≡◌, refl,
  sym, ap, subst, arith, if◌then◌else◌, Result, All, length,
}
use subprocess.Errors.{Error, Done}
use subprocess.Identity.{ProcessId, Resolved}
use subprocess.Containment.Treewalk.{Edge, resolve_or_drop}
use subprocess.Containment.Treewalk.Exact.{descendants_with_exact}
use subprocess.Containment.Group.{Signal}
use subprocess.Containment.Fdmarker.{Holder, fd_pipe_info}
use subprocess.Containment.Fdmarker.Sweep.{
  Marker, MarkerSystem, Fresh, Sweeping, Meeting, descendants, walk_from, meet_answered,
  meet_holder, meet_holders, is_blind, pass_holders,
}
use subprocess.Containment.Fdmarker.Pass.{
  kill_met, pass_walk, pass_meeting, pass_read, sweep_pass, sweep_passes, start_sweep, valid_answer,
  finished, hard_kill,
}
use subprocess.Containment.Fdmarker.Swept.{kill_met-seen}
use subprocess.Containment.Fdmarker.Measure.{
  left_of, Known, meet_spends, meet_all_spends, resolved-All, resolve_or_drop-found,
}

-- The answers of the system, and the root of the marker, are among some identities.
pub record Answers {S : Type 0} {I : Type 0} (ids : List ProcessId) (sys : MarkerSystem S I)
    (marker : Marker) : Type 0 where
  pub walked :
      (s : S) (pid : ℕ) (id : ProcessId) → sys.answers s pid ≡ Resolved.found id → Known ids id
  pub queried :
      (s : S) (pid : ℕ) (id : ProcessId) → (sys.query s pid).0 ≡ Resolved.found id → Known ids id
  pub rooted : (id : ProcessId) → marker.root ≡ some id → Known ids id

module _ (S : Type 0) (I : Type 0) (ids : List ProcessId) (sys : MarkerSystem S I) (marker : Marker)
    (known : Answers ids sys marker) where
  descendants-Known :
      (s : S) (root : ProcessId) (parents : List Edge)
      → All (Known ids) (descendants sys s root parents)
  unfolding descendants
  descendants-Known s root parents =
      let (found, e, finds) =
        descendants_with_exact root parents true (λ pid. resolve_or_drop (sys.answers s pid)) in
      let (pids, same, distinct, exact) = finds in
      subst (λ o. All (Known ids) (elim o as (λ x. List ProcessId) [ some l ↦ l | none ↦ [] ]))
        (sym e)
        (resolved-All ids (λ pid. resolve_or_drop (sys.answers s pid))
          (λ pid id h. known.walked s pid id (resolve_or_drop-found ids _ id h)) found pids same)

  walk_from_spends :
      (bound : ℕ) (root : Option ProcessId) (blind : Bool) (parents : List Edge) (s : S) (f : Fresh)
      → marker.root ≡ root
      → left_of ids f.seen + length f.fresh ≤ bound
      → left_of ids (walk_from sys root blind parents s f).seen
          + length (walk_from sys root blind parents s f).fresh
        ≤ bound
  unfolding walk_from
  walk_from_spends bound none blind parents s f e h = h
  walk_from_spends bound (some root) true parents s f e h =
      meet_spends ids bound root f (known.rooted root e) h
  walk_from_spends bound (some root) false parents s f e h =
      meet_all_spends ids bound _ _ (descendants-Known s root parents)
        (meet_spends ids bound root f (known.rooted root e) h)

  meet_answered_spends :
      (bound : ℕ) (pid : ℕ) (s : S) (answer : Resolved ProcessId) (t : S) (m : Meeting S)
      → (sys.query s pid).0 ≡ answer
      → left_of ids m.met.seen + length m.met.fresh ≤ bound
      → left_of ids (meet_answered sys answer t m).met.seen
          + length (meet_answered sys answer t m).met.fresh
        ≤ bound
  unfolding meet_answered
  meet_answered_spends bound pid s (Resolved.found id) t m e h =
      meet_spends ids bound id m.met (known.queried s pid id e) h
  meet_answered_spends bound pid s Resolved.gone t m e h = h
  meet_answered_spends bound pid s Resolved.unknown t m e h = h

  one_of :
      (P : Meeting S → Type 0) (b : Bool) (x : Meeting S) (y : Meeting S)
      → P x
      → P y
      → P (if not b then x else y)
  one_of P true x y px py = py
  one_of P false x y px py = px

  meet_holders_spends :
      (bound : ℕ) (hs : List Holder) (m : Meeting S)
      → left_of ids m.met.seen + length m.met.fresh ≤ bound
      → left_of ids (meet_holders sys hs m).met.seen + length (meet_holders sys hs m).met.fresh
        ≤ bound
  unfolding meet_holders meet_holder
  meet_holders_spends bound [] m h = h
  meet_holders_spends bound (holder ∷ hs) m h = meet_holders_spends bound hs _ (
      one_of (λ n. left_of ids n.met.seen + length n.met.fresh ≤ bound) _ _ _ h
        (meet_answered_spends bound holder.pid m.host _ _ m refl h))

  -- A pass that gets on meets somebody.
  kill_met-progressed :
      (sig : Signal) (walk met seen : List ProcessId) (group : Result Done (Error I))
      (incomplete : Bool) (s : S)
      → (kill_met sys marker sig walk met seen group incomplete s).0 ≡ true
      → 1 ≤ length walk + length met
  unfolding kill_met
  kill_met-progressed sig [] [] seen group incomplete s h = ground arith
  kill_met-progressed sig [] (y ∷ met) seen group incomplete s h = omega arith
  kill_met-progressed sig (x ∷ walk) met seen group incomplete s h = omega arith

  pass_spends :
      (sig : Signal) (first_pass : Bool) (w : Sweeping S I)
      → (sweep_pass sys marker sig first_pass w).0 ≡ true
      → left_of ids (sweep_pass sys marker sig first_pass w).1.seen < left_of ids w.seen
  unfolding sweep_pass pass_read pass_meeting pass_walk
  pass_spends sig first_pass w h =
      let pids : List ℕ = (sys.snapshot w.host).0.0 in
      let parents : List Edge = (sys.snapshot w.host).0.1 in
      let s : S = (sys.snapshot w.host).1 in
      let hs : List Holder × S = pass_holders sys marker (is_blind pids) pids s in
      let walk : Fresh = pass_walk sys marker w pids parents s in
      let m : Meeting S = pass_meeting sys marker w pids parents s hs.0 hs.1 in
      let walked : left_of ids walk.seen + length walk.fresh ≤ left_of ids w.seen =
        walk_from_spends (left_of ids w.seen) marker.root (is_blind pids) parents s
          (record { seen = w.seen; fresh = [] }) refl (omega arith) in
      let met : left_of ids m.met.seen + length m.met.fresh ≤ left_of ids walk.seen =
        meet_holders_spends (left_of ids walk.seen) hs.0 _ (omega arith) in
      let some_met = kill_met-progressed sig _ _ _ _ _ _ h in
      let same : left_of ids (sweep_pass sys marker sig first_pass w).1.seen
          ≡ left_of ids m.met.seen =
        ap (left_of ids) (kill_met-seen S I sys marker sig _ _ _ _ _ _) in
      omega arith

  sweep_passes_end :
      (fuel : ℕ) (first_pass : Bool) (w : Sweeping S I)
      → left_of ids w.seen < fuel
      → (v : Sweeping S I) × (sweep_passes sys marker fuel first_pass w ≡ some v)
  unfolding sweep_passes
  sweep_passes_end zero first_pass w l = ground arith
  sweep_passes_end (suc fuel) first_pass w l =
      go (sweep_pass sys marker Signal.sigkill first_pass w).0 refl
        (sweep_passes_end fuel false (sweep_pass sys marker Signal.sigkill first_pass w).1)
    where
      spends :
          (sweep_pass sys marker Signal.sigkill first_pass w).0 ≡ true
          → left_of ids (sweep_pass sys marker Signal.sigkill first_pass w).1.seen
            < left_of ids w.seen
      spends e = pass_spends Signal.sigkill first_pass w e

      go :
          (b : Bool)
          → (sweep_pass sys marker Signal.sigkill first_pass w).0 ≡ b
          → (left_of ids (sweep_pass sys marker Signal.sigkill first_pass w).1.seen < fuel
              → (v : Sweeping S I) × (sweep_passes sys marker fuel false
                    (sweep_pass sys marker Signal.sigkill first_pass w).1
                  ≡ some v))
          → (v : Sweeping S I) × ((if b
                then sweep_passes sys marker fuel false
                    (sweep_pass sys marker Signal.sigkill first_pass w).1
                else some (sweep_pass sys marker Signal.sigkill first_pass w).1)
              ≡ some v)
      go true e again = let less = spends e in again (omega arith)
      go false e again = (_, refl)

  left_of_bound : (us : List ProcessId) → left_of us [] ≤ length us
  left_of_bound [] = omega arith
  left_of_bound (u ∷ us) = ground (arith, left_of_bound us)

  ends_either :
      (b : Bool) (x y : Option (Result Done (Error I) × S))
      → ((r : Result Done (Error I) × S) × (x ≡ some r))
      → ((r : Result Done (Error I) × S) × (y ≡ some r))
      → (r : Result Done (Error I) × S) × ((if b then x else y) ≡ some r)
  ends_either true x y hx hy = hx
  ends_either false x y hx hy = hy

  -- If the identities that the system answers and the marker's root are among the identities of a list,
  -- then `hard_kill` returns after at most one pass more than the list is long.
  pub hard_kill_ends :
      (s : S) → (r : Result Done (Error I) × S) × (hard_kill sys marker (length ids + 1) s ≡ some r)
  unfolding hard_kill start_sweep finished
  hard_kill_ends s =
      let below = left_of_bound ids in
      let (v, e) =
        sweep_passes_end (length ids + 1) true
          (start_sweep sys marker (fd_pipe_info sys.procs sys.own_pid marker.read s).1)
          (omega arith) in
      ends_either (valid_answer sys marker (fd_pipe_info sys.procs sys.own_pid marker.read s).0) _ _
        (rw e (_, refl)) (_, refl)
