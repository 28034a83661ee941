-- ===== src/Containment/Fdmarker/Handling.antt =====
-- What the loops of a pass have done to the processes that they meet (src/containment/fdmarker.rs).
use subprocess.Prelude.{
  Bool, true, false, not, List, [], ◌∷◌, ◌++◌, Option, some, none, ◌≡◌, refl, arith, if◌then◌else◌,
  All,
}
use subprocess.Identity.{ProcessId, Resolved}
use subprocess.Containment.Treewalk.{Edge}
use subprocess.Containment.Kill.{kill_by_identity}
use subprocess.Containment.Group.{Signal}
use subprocess.Containment.Fdmarker.{MarkerQuery, Holder}
use subprocess.Containment.Fdmarker.Holding.{holds_marker_query}
use subprocess.Containment.Fdmarker.Sweep.{
  Marker, MarkerSystem, Fresh, Meeting, Killing, is_in, meet, meet_all, walk_from, meet_answered,
  meet_holder, meet_holders, after_kill, is_not_attempted, kill_walk, kill_holder_asked,
  kill_holder, kill_holders,
}

not_both : (b : Bool) → b ≡ true → b ≡ false → ⊥
not_both true h k = ground arith
not_both false h k = ground arith

-- The identities met so far all have a property if those that are new have it.
module _ (P : ProcessId → Type 0) where
  abbrev pub Covered : Fresh → Type 0
  Covered f = All P f.fresh → All P f.seen

  All-split : (xs ys : List ProcessId) → All P (xs ++ ys) → All P xs × All P ys
  All-split [] ys h = (tt, h)
  All-split (x ∷ xs) ys h = let (hx, hy) = All-split xs ys h.1 in ((h.0, hx), hy)

  pub meet-Covered : (id : ProcessId) (f : Fresh) → Covered f → Covered (meet id f)
  unfolding meet
  meet-Covered id f h = go (is_in id f.seen)
    where
      go :
          (b : Bool)
          → Covered (if b then f else record { seen = id ∷ f.seen; fresh = f.fresh ++ id ∷ [] })
      go true = h
      go false = λ all. let (old, new) = All-split f.fresh (id ∷ []) all in (new.0, h old)

  pub meet_all-Covered : (ids : List ProcessId) (f : Fresh) → Covered f → Covered (meet_all ids f)
  unfolding meet_all
  meet_all-Covered [] f h = h
  meet_all-Covered (id ∷ ids) f h = meet_all-Covered ids (meet id f) (meet-Covered id f h)

module _ (S : Type 0) (I : Type 0) (sys : MarkerSystem S I) (marker : Marker) (sig : Signal) where
  -- A process is dealt with: the kill by its identity was attempted or found it gone, or it was asked
  -- and holds the marker no more.
  pub data Handled (id : ProcessId) : Type 0 where
    attempted :
        (s : S)
        → is_not_attempted (kill_by_identity (sys.kills sig) id s).outcome ≡ false
        → Handled id
    let_go :
        (s : S)
        → (holds_marker_query sys.procs id.pid marker.handle s).0 ≡ MarkerQuery.not_held
        → Handled id

  -- A kill that leaves the flag of an incomplete sweep down was not left undone.
  after_kill-incomplete :
      (b : Bool) (t : S) (k : Killing S)
      → (after_kill b t k).incomplete ≡ false
      → (b ≡ false) × (k.incomplete ≡ false) × ((after_kill b t k).progressed ≡ true)
  unfolding after_kill
  after_kill-incomplete true t k h = ground arith
  after_kill-incomplete false t k h = (refl, h, refl)

  -- What a loop of kills has done, if its flag is down in the end.
  pub record Killed (ids : List ProcessId) (before : Killing S) (after : Killing S) : Type 0 where
    pub complete : before.incomplete ≡ false
    pub handled : All Handled ids
    pub stood : after.progressed ≡ false → (ids ≡ []) × (before.progressed ≡ false)

  pub kill_walk-Killed :
      (ids : List ProcessId) (k : Killing S)
      → (kill_walk sys sig ids k).incomplete ≡ false
      → Killed ids k (kill_walk sys sig ids k)
  unfolding kill_walk
  kill_walk-Killed [] k h = record { complete = h; handled = tt; stood = λ p. (refl, p) }
  kill_walk-Killed (id ∷ ids) k h =
      let rest = kill_walk-Killed ids _ h in
      let one = after_kill-incomplete _ _ k rest.complete in
      record {
        complete = one.1;
        handled = (Handled.attempted k.host one.0, rest.handled);
        stood = λ p. elim (not_both _ one.2 (rest.stood p).1) [ ];
      }

  kill_holder_asked-Handled :
      (id : ProcessId) (answer : MarkerQuery) (s : S)
      → (holds_marker_query sys.procs id.pid marker.handle s).0 ≡ answer
      → (kill_holder_asked sys sig id answer
          (holds_marker_query sys.procs id.pid marker.handle s).1).0
        ≡ false
      → Handled id
  unfolding kill_holder_asked
  kill_holder_asked-Handled id MarkerQuery.not_held s e h = Handled.let_go s e
  kill_holder_asked-Handled id MarkerQuery.denied s e h = ground arith
  kill_holder_asked-Handled id MarkerQuery.held s e h = Handled.attempted _ h

  kill_holder-Handled :
      (id : ProcessId) (s : S) → (kill_holder sys marker.handle sig id s).0 ≡ false → Handled id
  unfolding kill_holder
  kill_holder-Handled id s h = kill_holder_asked-Handled id _ s refl h

  pub kill_holders-Killed :
      (ids : List ProcessId) (k : Killing S)
      → (kill_holders sys marker.handle sig ids k).incomplete ≡ false
      → Killed ids k (kill_holders sys marker.handle sig ids k)
  unfolding kill_holders
  kill_holders-Killed [] k h = record { complete = h; handled = tt; stood = λ p. (refl, p) }
  kill_holders-Killed (id ∷ ids) k h =
      let rest = kill_holders-Killed ids _ h in
      let one = after_kill-incomplete _ _ k rest.complete in
      record {
        complete = one.1;
        handled = (kill_holder-Handled id k.host one.0, rest.handled);
        stood = λ p. elim (not_both _ one.2 (rest.stood p).1) [ ];
      }

  -- The loop over the holders: what it met is covered, and its flag, once up, stays up.
  meet_answered_keeps :
      (answer : Resolved ProcessId) (t : S) (m : Meeting S)
      → Covered Handled m.met
      → Covered Handled (meet_answered sys answer t m).met
  unfolding meet_answered
  meet_answered_keeps (Resolved.found id) t m h = meet-Covered Handled id m.met h
  meet_answered_keeps Resolved.gone t m h = h
  meet_answered_keeps Resolved.unknown t m h = h

  meet_answered_complete :
      (answer : Resolved ProcessId) (t : S) (m : Meeting S)
      → (meet_answered sys answer t m).incomplete ≡ false
      → m.incomplete ≡ false
  unfolding meet_answered
  meet_answered_complete (Resolved.found id) t m h = h
  meet_answered_complete Resolved.gone t m h = h
  meet_answered_complete Resolved.unknown t m h = ground arith

  either_way :
      {A : Type 0}
      → (P : A → Type 0) (b : Bool) (x : A) (y : A) → P x
      → P y
      → P (if not b then x else y)
  either_way P true x y px py = py
  either_way P false x y px py = px

  pub meet_holders-Covered :
      (hs : List Holder) (m : Meeting S)
      → Covered Handled m.met
      → Covered Handled (meet_holders sys hs m).met
  unfolding meet_holders meet_holder
  meet_holders-Covered [] m h = h
  meet_holders-Covered (holder ∷ hs) m h =
      meet_holders-Covered hs _ (
        either_way (λ (n : Meeting S). Covered Handled n.met) _ _ _ h (meet_answered_keeps _ _ m h))

  pub meet_holders_complete :
      (hs : List Holder) (m : Meeting S)
      → (meet_holders sys hs m).incomplete ≡ false
      → m.incomplete ≡ false
  unfolding meet_holders meet_holder
  meet_holders_complete [] m h = h
  meet_holders_complete (holder ∷ hs) m h =
      either_way (λ (n : Meeting S). n.incomplete ≡ false → m.incomplete ≡ false) _ _ _ (λ e. e)
        (meet_answered_complete _ _ m) (meet_holders_complete hs _ h)

  pub walk_from-Covered :
      (root : Option ProcessId) (blind : Bool) (parents : List Edge) (s : S) (f : Fresh)
      → Covered Handled f
      → Covered Handled (walk_from sys root blind parents s f)
  unfolding walk_from
  walk_from-Covered none blind parents s f h = h
  walk_from-Covered (some root) true parents s f h = meet-Covered Handled root f h
  walk_from-Covered (some root) false parents s f h =
      meet_all-Covered Handled _ _ (meet-Covered Handled root f h)
