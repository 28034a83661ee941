-- ===== src/Containment/Fdmarker/Swept.antt =====
-- What a sweep that reports success has done (src/containment/fdmarker.rs).
use subprocess.Prelude.{
  Bool, true, false, ◌||◌, List, [], ◌∷◌, ◌++◌, Option, some, none, ◌≡◌, refl, sym, ap, ◌∙◌, subst,
  arith, if◌then◌else◌, Result, All,
}
use subprocess.Errors.{Error, Done}
use subprocess.Identity.{ProcessId}
use subprocess.Containment.Treewalk.{Edge}
use subprocess.Containment.Group.{Signal}
use subprocess.Containment.Fdmarker.Sweep.{
  Marker, MarkerSystem, Fresh, Sweeping, is_in, meet, meet_all, descendants, walk_from, is_blind,
  pass_holders, kill_walk, kill_holders,
}
use subprocess.Containment.Fdmarker.Pass.{kill_met, killed, pass_meeting}
use subprocess.Containment.Fdmarker.Handling.{Handled, kill_walk-Killed, kill_holders-Killed}

pub or_false : (a : Bool) (b : Bool) → (a || b) ≡ false → (a ≡ false) × (b ≡ false)
or_false true b h = ground arith
or_false false b h = (refl, h)

append_nil_lem : (f : List ProcessId) (id : ProcessId) → f ++ id ∷ [] ≡ [] → ⊥
append_nil_lem [] id h = ground arith
append_nil_lem (x ∷ f) id h = ground arith

-- What leaves no new identity was met before.
meet-fresh :
    (id : ProcessId) (f : Fresh)
    → (meet id f).fresh ≡ []
    → (is_in id f.seen ≡ true) × (meet id f ≡ f)
unfolding meet
meet-fresh id f = go (is_in id f.seen)
  where
    go :
        (b : Bool)
        → (if b then f else record { seen = id ∷ f.seen; fresh = f.fresh ++ id ∷ [] }).fresh ≡ []
        → (b ≡ true)
          × ((if b then f else record { seen = id ∷ f.seen; fresh = f.fresh ++ id ∷ [] }) ≡ f)
    go true h = (refl, refl)
    go false h = elim (append_nil_lem f.fresh id h) [ ]

meet_all-grows : (ids : List ProcessId) (f : Fresh) → (meet_all ids f).fresh ≡ [] → f.fresh ≡ []
unfolding meet_all
meet_all-grows [] f h = h
meet_all-grows (id ∷ ids) f h =
    let after = meet_all-grows ids (meet id f) h in
    let same = (meet-fresh id f after).1 in sym (ap (λ (g : Fresh). g.fresh) same) ∙ after

meet_all-fresh :
    (ids : List ProcessId) (f : Fresh)
    → (meet_all ids f).fresh ≡ []
    → All (λ id. is_in id f.seen ≡ true) ids
unfolding meet_all
meet_all-fresh [] f h = tt
meet_all-fresh (id ∷ ids) f h =
    let one = meet-fresh id f (meet_all-grows ids (meet id f) h) in
    (one.0, meet_all-fresh ids f (subst (λ (g : Fresh). (meet_all ids g).fresh ≡ []) one.1 h))

module _ (S : Type 0) (I : Type 0) (sys : MarkerSystem S I) (marker : Marker) where
  -- A pass finds nothing new: the process table was read, the root was not denied, and the root, each
  -- of its descendants and each holder that could be asked had been met before.
  pub record Quiet (w : Sweeping S I) : Type 0 where
    pub readable : is_blind (sys.snapshot w.host).0.0 ≡ false
    pub allowed : marker.root_denied ≡ false
    pub descendants_seen :
        (root : ProcessId)
        → marker.root ≡ some root
        → (is_in root w.seen ≡ true)
          × All
              (λ id. is_in id w.seen ≡ true)
              (descendants sys (sys.snapshot w.host).1 root (sys.snapshot w.host).0.1)
    pub holders_seen :
        (pass_meeting sys marker w
          (sys.snapshot w.host).0.0
          (sys.snapshot w.host).0.1
          (sys.snapshot w.host).1
          (pass_holders sys marker false (sys.snapshot w.host).0.0 (sys.snapshot w.host).1).0
          (pass_holders sys marker false
            (sys.snapshot w.host).0.0
            (sys.snapshot w.host).1).1).met.fresh
        ≡ []

  pub walk-seen :
      (root : Option ProcessId) (parents : List Edge) (s : S) (seen : List ProcessId)
      → (walk_from sys root false parents s (record { seen = seen; fresh = [] })).fresh ≡ []
      → (r : ProcessId) → root ≡ some r
      → (is_in r seen ≡ true) × All (λ id. is_in id seen ≡ true) (descendants sys s r parents)
  unfolding walk_from
  walk-seen none parents s seen h r e = ground arith
  walk-seen (some root) parents s seen h r e =
      let same : root ≡ r = ground arith in
      let start : Fresh = record { seen = seen; fresh = [] } in
      let one = meet-fresh root start (meet_all-grows _ _ h) in
      let rest =
        meet_all-fresh (descendants sys s root parents) start (
          subst (λ (g : Fresh). (meet_all (descendants sys s root parents) g).fresh ≡ []) one.1
            h) in
      subst
        (λ x.
          (is_in x seen ≡ true) × All (λ id. is_in id seen ≡ true) (descendants sys s x parents))
        same (one.0, rest)

  -- What the kills of a pass show, if its flag is down in the end.
  pub record Shown (sig : Signal) (walk : List ProcessId) (met : List ProcessId) (incomplete : Bool)
      (r : Bool × Sweeping S I) : Type 0 where
    pub complete : incomplete ≡ false
    pub walked : All (Handled S I sys marker sig) walk
    pub held : All (Handled S I sys marker sig) met
    pub quiet : r.0 ≡ false → (walk ≡ []) × (met ≡ [])

  killed-Shown :
      (sig : Signal) (walk met seen : List ProcessId) (group : Result Done (Error I))
      (incomplete : Bool) (s : S)
      → (killed sys marker seen group (
          kill_holders sys marker.handle sig met (
            kill_walk sys sig walk
              (record { progressed = false; incomplete = incomplete; host = s })))).1.incomplete
        ≡ false
      → Shown sig walk met incomplete (
          killed sys marker seen group (
            kill_holders sys marker.handle sig met (
              kill_walk sys sig walk
                (record { progressed = false; incomplete = incomplete; host = s }))))
  unfolding killed
  killed-Shown sig walk met seen group incomplete s h =
      let later = kill_holders-Killed S I sys marker sig met _ h in
      let first = kill_walk-Killed S I sys marker sig walk _ later.complete in
      record {
        complete = first.complete;
        walked = first.handled;
        held = later.handled;
        quiet = λ p. let still = later.stood p in ((first.stood still.1).0, still.0);
      }

  pub kill_met-Shown :
      (sig : Signal) (walk met seen : List ProcessId) (group : Result Done (Error I))
      (incomplete : Bool) (s : S)
      → (kill_met sys marker sig walk met seen group incomplete s).1.incomplete ≡ false
      → Shown sig walk met incomplete (kill_met sys marker sig walk met seen group incomplete s)
  unfolding kill_met
  kill_met-Shown sig [] [] seen group incomplete s h = record {
    complete = h;
    walked = tt;
    held = tt;
    quiet = λ p. (refl, refl);
  }
  kill_met-Shown sig [] (y ∷ met) seen group incomplete s h =
      killed-Shown sig [] (y ∷ met) seen group incomplete s h
  kill_met-Shown sig (x ∷ walk) met seen group incomplete s h =
      killed-Shown sig (x ∷ walk) met seen group incomplete s h

  pub kill_met-seen :
      (sig : Signal) (walk met seen : List ProcessId) (group : Result Done (Error I))
      (incomplete : Bool) (s : S)
      → (kill_met sys marker sig walk met seen group incomplete s).1.seen ≡ seen
  unfolding kill_met killed
  kill_met-seen sig [] [] seen group incomplete s = refl
  kill_met-seen sig [] (y ∷ met) seen group incomplete s = refl
  kill_met-seen sig (x ∷ walk) met seen group incomplete s = refl
