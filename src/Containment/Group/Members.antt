-- ===== src/Containment/Group/Members.antt =====
-- What it takes for a listed member not to count against the teardown.
use subprocess.Prelude.{
  ℕ, ◌≤◌, Bool, true, false, Option, some, none, ◌≡◌, refl, ap, ◌∙◌, arith, if◌then◌else◌, subst,
  ◌&&◌,
}
use subprocess.Identity.{
  ProcessId, Resolved, Liveness, same_id, same_id-eq, signal_target, signal_target-bounds, max_pid,
}
use subprocess.Containment.Group.{
  Signal, Member, Reached, MemberOutcome, Answer, GroupSystem, is_sigkill, reached_of,
  excluded_from_sigkill_resend, listed_id, outcome_reached, outcome_rechecked, send_to,
  check_answered, check_or_signal, reach_member, classify_member, reconfirm_survivor, examine,
}

-- `kill` or the like has taken effect on a live process, or found none.
pub data Took {I : Type 0} : Answer I → Type 0 where
  delivered : Took Answer.delivered
  absent : Took Answer.esrch

pub reached_of-Took : {I : Type 0} (a : Answer I) → reached_of a ≡ Reached.reached → Took a
reached_of-Took Answer.delivered h = Took.delivered
reached_of-Took Answer.esrch h = Took.absent
reached_of-Took Answer.eperm h = ground arith
reached_of-Took (Answer.failed e) h = ground arith

module _ (S : Type 0) (I : Type 0) (sys : GroupSystem S I) where
  -- The check by `kill(2)` of an identity listed under its pid: the pid is free, another process has
  -- it, or it has the very process listed and names no group, and the call reached it.
  pub data Touched (pid : ℕ) (id : ProcessId) (sig : Option Signal) (s : S) : Type 0 where
    gone : (sys.query s pid).0 ≡ Resolved.gone → Touched pid id sig s
    replaced :
        (live : ProcessId)
        → (sys.query s pid).0 ≡ Resolved.found live
        → same_id live id ≡ false
        → Touched pid id sig s
    taken :
        (sys.query s pid).0 ≡ Resolved.found id
        → 1 ≤ pid
        → pid ≤ max_pid
        → Took (sys.kill (sys.query s pid).1 pid sig).0
        → Touched pid id sig s

  send_to-Touched :
      (pid : ℕ) (id : ProcessId) (sig : Option Signal) (s : S) (target : Option ℕ)
      → (sys.query s pid).0 ≡ Resolved.found id
      → signal_target pid ≡ target
      → (send_to sys target sig (sys.query s pid).1).0 ≡ Reached.reached
      → Touched pid id sig s
  unfolding send_to
  send_to-Touched pid id sig s none q e h = ground arith
  send_to-Touched pid id sig s (some target) q e h =
      let (same, low, high) = signal_target-bounds pid target e in
      Touched.taken q low high
        (subst (λ p. Took (sys.kill (sys.query s pid).1 p sig).0) same (reached_of-Took _ h))

  live-Touched :
      (pid : ℕ) (id : ProcessId) (sig : Option Signal) (s : S) (live : ProcessId) (b : Bool)
      → (sys.query s pid).0 ≡ Resolved.found live
      → same_id live id ≡ b
      → (if b
          then send_to sys (signal_target pid) sig (sys.query s pid).1
          else (Reached.reached, (sys.query s pid).1)).0
        ≡ Reached.reached
      → Touched pid id sig s
  live-Touched pid id sig s live true q e h =
      send_to-Touched pid id sig s (signal_target pid)
        (q ∙ ap Resolved.found (same_id-eq live id e)) refl h
  live-Touched pid id sig s live false q e h = Touched.replaced live q e

  answered-Touched :
      (pid : ℕ) (id : ProcessId) (sig : Option Signal) (s : S) (answer : Resolved ProcessId)
      → (sys.query s pid).0 ≡ answer
      → (check_answered sys pid id sig answer (sys.query s pid).1).0 ≡ Reached.reached
      → Touched pid id sig s
  unfolding check_answered
  answered-Touched pid id sig s (Resolved.found live) q h =
      live-Touched pid id sig s live _ q refl h
  answered-Touched pid id sig s Resolved.gone q h = Touched.gone q
  answered-Touched pid id sig s Resolved.unknown q h = ground arith

  pub check_or_signal-Touched :
      (pid : ℕ) (id : ProcessId) (sig : Option Signal) (s : S)
      → (check_or_signal sys pid id sig s).0 ≡ Reached.reached
      → Touched pid id sig s
  unfolding check_or_signal
  check_or_signal-Touched pid id sig s h = answered-Touched pid id sig s _ refl h

  -- `Hit` is what the platform's check with SIGKILL shows, where it says that it reached the process.
  module _ (resend : ℕ → ProcessId → S → Reached × S) (Hit : ℕ → ProcessId → S → Type 0) where
    -- Evidence on one member, from the state in which its turn begins: it is dead; or it was reached,
    -- by SIGKILL unless it is pid 1 or the system's own, or by the probe that follows SIGTERM; or it
    -- has died by the time that it is asked for again.
    pub data Confirmed (sig : Signal) (m : Member) (s : S) : Type 0 where
      dead : (sys.is_alive s (listed_id m)).0 ≡ Liveness.dead → Confirmed sig m s
      killed :
          is_sigkill sig ≡ true
          → excluded_from_sigkill_resend m.pid m.system ≡ false
          → Hit m.pid (listed_id m) (sys.is_alive s (listed_id m)).1
          → Confirmed sig m s
      probed :
          is_sigkill sig ≡ false
          → Touched m.pid (listed_id m) none (sys.is_alive s (listed_id m)).1
          → Confirmed sig m s
      died :
          (sys.is_alive
              (reach_member sys resend sig m (sys.is_alive s (listed_id m)).1).1
              (listed_id m)).0
            ≡ Liveness.dead
          → Confirmed sig m s

    module _
        (resend-Hit : (pid : ℕ) (id : ProcessId) (s : S)
          → (resend pid id s).0 ≡ Reached.reached
          → Hit pid id s) where
      reach_member-Confirmed :
          (sig : Signal) (m : Member) (s : S) (kills : Bool) (excluded : Bool)
          → is_sigkill sig ≡ kills
          → excluded_from_sigkill_resend m.pid m.system ≡ excluded
          → (if kills && excluded
              then (Reached.uncertain, (sys.is_alive s (listed_id m)).1)
              else if kills
              then resend m.pid (listed_id m) (sys.is_alive s (listed_id m)).1
              else check_or_signal sys m.pid (listed_id m) none (sys.is_alive s (listed_id m)).1).0
            ≡ Reached.reached
          → Confirmed sig m s
      reach_member-Confirmed sig m s true true k x h = ground arith
      reach_member-Confirmed sig m s true false k x h =
          Confirmed.killed k x (resend-Hit m.pid (listed_id m) _ h)
      reach_member-Confirmed sig m s false excluded k x h =
          Confirmed.probed k (check_or_signal-Touched m.pid (listed_id m) none _ h)

      rechecked-dead :
          (pid : ℕ) (l : Liveness)
          → outcome_rechecked pid l ≡ MemberOutcome.not_a_survivor
          → l ≡ Liveness.dead
      unfolding outcome_rechecked
      rechecked-dead pid Liveness.dead h = refl
      rechecked-dead pid Liveness.alive h = ground arith
      rechecked-dead pid Liveness.unknown h = ground arith

      asked-Confirmed :
          (sig : Signal) (m : Member) (s : S) (answer : Reached)
          → (reach_member sys resend sig m (sys.is_alive s (listed_id m)).1).0 ≡ answer
          → (reconfirm_survivor sys resend
              (listed_id m)
              (outcome_reached m.pid answer)
              (reach_member sys resend sig m (sys.is_alive s (listed_id m)).1).1).0
            ≡ MemberOutcome.not_a_survivor
          → Confirmed sig m s
      unfolding reconfirm_survivor outcome_reached reach_member
      asked-Confirmed sig m s Reached.reached e h = reach_member-Confirmed sig m s _ _ refl refl e
      asked-Confirmed sig m s Reached.missed e h = Confirmed.died (rechecked-dead m.pid _ h)
      asked-Confirmed sig m s Reached.uncertain e h = ground arith

      alive-Confirmed :
          (sig : Signal) (m : Member) (s : S) (l : Liveness)
          → (sys.is_alive s (listed_id m)).0 ≡ l
          → (reconfirm_survivor sys resend
              (listed_id m)
              (classify_member sys resend sig m l (sys.is_alive s (listed_id m)).1).0
              (classify_member sys resend sig m l (sys.is_alive s (listed_id m)).1).1).0
            ≡ MemberOutcome.not_a_survivor
          → Confirmed sig m s
      unfolding classify_member
      alive-Confirmed sig m s Liveness.dead e h = Confirmed.dead e
      alive-Confirmed sig m s Liveness.alive e h = asked-Confirmed sig m s _ refl h
      alive-Confirmed sig m s Liveness.unknown e h = asked-Confirmed sig m s _ refl h

      pub examine-Confirmed :
          (sig : Signal) (m : Member) (s : S)
          → (examine sys resend sig m s).0 ≡ MemberOutcome.not_a_survivor
          → Confirmed sig m s
      unfolding examine
      examine-Confirmed sig m s h = alive-Confirmed sig m s _ refl h
