-- ===== src/Containment/Fdmarker/Passes.antt =====
-- A pass that leaves the flag of an incomplete sweep down (src/containment/fdmarker.rs).
use subprocess.Prelude.{ℕ, Bool, false, ◌||◌, List, [], ◌≡◌, sym, subst, All}
use subprocess.Containment.Treewalk.{Edge}
use subprocess.Containment.Group.{Signal}
use subprocess.Containment.Fdmarker.{Holder}
use subprocess.Containment.Fdmarker.Sweep.{
  Marker, MarkerSystem, Sweeping, Meeting, walk_from, is_blind, pass_holders,
}
use subprocess.Containment.Fdmarker.Pass.{pass_walk, pass_meeting, pass_read, sweep_pass}
use subprocess.Containment.Fdmarker.Handling.{
  Handled, meet_holders-Covered, meet_holders_complete, walk_from-Covered,
}
use subprocess.Containment.Fdmarker.Swept.{
  or_false, Quiet, walk-seen, kill_met-Shown, kill_met-seen,
}

module _ (S : Type 0) (I : Type 0) (sys : MarkerSystem S I) (marker : Marker) where
  -- What a pass whose flag is down in the end has done.
  pub record PassDone (sig : Signal) (w : Sweeping S I) (r : Bool × Sweeping S I) : Type 0 where
    pub complete : w.incomplete ≡ false
    pub covered :
        All (Handled S I sys marker sig) w.seen → All (Handled S I sys marker sig) r.1.seen
    pub quiet : r.0 ≡ false → Quiet S I sys marker w

  meeting_complete :
      (w : Sweeping S I) (pids : List ℕ) (parents : List Edge) (s : S) (hs : List Holder) (t : S)
      → (pass_meeting sys marker w pids parents s hs t).incomplete ≡ false
      → (w.incomplete ≡ false) × (is_blind pids ≡ false) × (marker.root_denied ≡ false)
  unfolding pass_meeting
  meeting_complete w pids parents s hs t h =
      let all = meet_holders_complete S I sys marker Signal.sigkill hs _ h in
      let outer = or_false (w.incomplete || is_blind pids) marker.root_denied all in
      let inner = or_false w.incomplete (is_blind pids) outer.0 in (inner.0, inner.1, outer.1)

  meeting-Covered :
      (sig : Signal) (w : Sweeping S I) (pids : List ℕ) (parents : List Edge) (s : S)
      (hs : List Holder) (t : S)
      → All (Handled S I sys marker sig) w.seen
      → All (Handled S I sys marker sig) (pass_walk sys marker w pids parents s).fresh
      → All (Handled S I sys marker sig) (pass_meeting sys marker w pids parents s hs t).met.fresh
      → All (Handled S I sys marker sig) (pass_meeting sys marker w pids parents s hs t).met.seen
  unfolding pass_meeting pass_walk
  meeting-Covered sig w pids parents s hs t before walked held =
      meet_holders-Covered S I sys marker sig hs _
        (λ u. walk_from-Covered S I sys marker sig _ _ _ _ _ (λ v. before) walked) held

  walk_unblind :
      (w : Sweeping S I) (pids : List ℕ) (parents : List Edge) (s : S)
      → is_blind pids ≡ false
      → (pass_walk sys marker w pids parents s).fresh ≡ []
      → (walk_from sys marker.root false parents s (record { seen = w.seen; fresh = [] })).fresh
        ≡ []
  unfolding pass_walk
  walk_unblind w pids parents s e h =
      subst
        (λ b.
          (walk_from sys marker.root b parents s (record { seen = w.seen; fresh = [] })).fresh ≡ [])
        e h

  pub sweep_pass-PassDone :
      (sig : Signal) (first_pass : Bool) (w : Sweeping S I)
      → (sweep_pass sys marker sig first_pass w).1.incomplete ≡ false
      → PassDone sig w (sweep_pass sys marker sig first_pass w)
  unfolding sweep_pass pass_read
  sweep_pass-PassDone sig first_pass w h =
      let pids : List ℕ = (sys.snapshot w.host).0.0 in
      let parents : List Edge = (sys.snapshot w.host).0.1 in
      let s : S = (sys.snapshot w.host).1 in
      let hs : List Holder × S = pass_holders sys marker (is_blind pids) pids s in
      let m : Meeting S = pass_meeting sys marker w pids parents s hs.0 hs.1 in
      let shown = kill_met-Shown S I sys marker sig _ _ _ _ _ _ h in
      let flags = meeting_complete w pids parents s hs.0 hs.1 shown.complete in
      record {
        complete = flags.0;
        covered = λ all.
            subst (All (Handled S I sys marker sig))
              (sym (kill_met-seen S I sys marker sig _ _ _ _ _ _))
              (meeting-Covered sig w pids parents s hs.0 hs.1 all shown.walked shown.held);
        quiet = λ p.
            let none_new = shown.quiet p in
            record {
              readable = flags.1;
              allowed = flags.2;
              descendants_seen = λ root e.
                  walk-seen S I sys marker marker.root parents s w.seen
                    (walk_unblind w pids parents s flags.1 none_new.0) root e;
              holders_seen =
                  subst
                    (λ b.
                      (pass_meeting sys marker w pids parents s (pass_holders sys marker b pids s).0
                        (pass_holders sys marker b pids s).1).met.fresh
                      ≡ [])
                    flags.1 none_new.1;
            };
      }
