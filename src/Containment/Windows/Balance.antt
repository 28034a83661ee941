-- ===== src/Containment/Windows/Balance.antt =====
-- The handles that a drain opens are closed, on every path (src/containment/windows.rs).
use subprocess.Prelude.{
  ℕ, zero, suc, ◌+◌, Bool, true, false, ◌&&◌, List, [], ◌∷◌, Option, some, none, ◌==◌, ltb, length,
  length-append, take, if◌then◌else◌, next, halt, loop_inv, Round-cases, on_next, on_halt, Result,
  ok, err, ◌≡◌, refl, ap, subst, ◌∙◌, arith, Bool-cases, inl, inr,
}
use subprocess.Errors.{Error}
use subprocess.Containment.Dispatch.{TreeDrain}
use subprocess.Containment.Windows.{
  Opening, opened, invalid, failed, Waited, timed_out, wait_failed, at, Listing, listed, refused,
  JobSystem, Watch, budget, wait_ms, list_answered, list_round, room, query_job_pid_list, confirmed,
  open_answered, open_member, open_members, close_all, DrainRound, wait_answered, unwatched,
  watched, watch_members, drain_listed, drain_answered, drain_polled, drain_round, drain,
}

-- How the calls change the number of open handles, as the Windows API documents it: an opened process is
-- one more, `CloseHandle` on an open handle is one less, and the other calls open and close nothing.
pub record Counts (S : Type 0) (H : Type 0) (I : Type 0) (sys : JobSystem S H I) (held : S → ℕ)
    : Type 0 where
  pub of_cancelled : (s : S) → held (sys.cancelled s).1 ≡ held s
  pub of_query : (s : S) (capacity : ℕ) → held (sys.query_list s capacity).1 ≡ held s
  pub of_opened :
      (s : S) (pid : ℕ) (h : H)
      → (sys.open_process s pid).0 ≡ opened h
      → held (sys.open_process s pid).1 ≡ suc (held s)
  pub of_invalid :
      (s : S) (pid : ℕ)
      → (sys.open_process s pid).0 ≡ invalid
      → held (sys.open_process s pid).1 ≡ held s
  pub of_failed :
      (s : S) (pid : ℕ) (e : I)
      → (sys.open_process s pid).0 ≡ failed e
      → held (sys.open_process s pid).1 ≡ held s
  pub of_in_job : (s : S) (h : H) → held (sys.in_job s h).1 ≡ held s
  pub of_close : (s : S) (h : H) (n : ℕ) → held s ≡ suc n → held (sys.close s h) ≡ n
  pub of_remaining : (s : S) → held (sys.remaining s).1 ≡ held s
  pub of_wait :
      (s : S) (hs : List H) (cancel : Bool) (ms : Option ℕ)
      → held (sys.wait_any s hs cancel ms).1 ≡ held s

module _ (S : Type 0) (H : Type 0) (I : Type 0) (sys : JobSystem S H I) (held : S → ℕ)
    (counts : Counts S H I sys held) where
  list_answered-held :
      (n : ℕ) (capacity : ℕ) (a : Listing I) (s : S)
      → held s ≡ n
      → ((w : ℕ × S) → list_answered sys capacity a s ≡ next w → held w.1 ≡ n)
        × ((r : Result (List ℕ) I × S) → list_answered sys capacity a s ≡ halt r → held r.1 ≡ n)
  unfolding list_answered
  list_answered-held n capacity (listed pids) s h = (λ w e. absurd (cc e), λ r e. ground arith)
  list_answered-held n capacity (refused assigned i) s h =
      elim (Bool-cases (ltb capacity assigned)) [
        | inl b ↦ rw b (λ w e. ground arith, λ r e. absurd (cc e))
        | inr b ↦ rw b (λ w e. absurd (cc e), λ r e. ground arith)
      ]

  query-held :
      (s : S) (r : Result (List ℕ) I × S) → query_job_pid_list sys s ≡ some r → held r.1 ≡ held s
  unfolding query_job_pid_list list_round
  query-held s r h =
      loop_inv (list_round sys) (λ w. held w.1 ≡ held s) (λ q. held q.1 ≡ held s)
        (λ w v p e. (list_answered-held (held s) w.0 _ _ (counts.of_query w.1 w.0 ∙ p)).0 v e)
        (λ w q p e. (list_answered-held (held s) w.0 _ _ (counts.of_query w.1 w.0 ∙ p)).1 q e)
        (room sys) (64, s) refl h

  confirmed-held :
      (h : H) (w : Watch H I) (a : Result Bool I) (s : S) (n : ℕ)
      → held s ≡ suc (n + length w.handles)
      → let r = confirmed sys h w a s in held r.1 ≡ n + length r.0.handles
  unfolding confirmed
  confirmed-held h w (ok true) s n e = omega (arith, length-append {0} w.handles (h ∷ []))
  confirmed-held h w (ok false) s n e = counts.of_close s h _ e
  confirmed-held h w (err i) s n e = counts.of_close s h _ e

  open_answered-held :
      (w : Watch H I) (pid : ℕ) (s : S) (n : ℕ) (a : Opening H I)
      → (sys.open_process s pid).0 ≡ a
      → held s ≡ n + length w.handles
      → let r = open_answered sys w a (sys.open_process s pid).1 in
        held r.1 ≡ n + length r.0.handles
  unfolding open_answered
  open_answered-held w pid s n (opened h) q e =
      confirmed-held h w _ _ n
        (counts.of_in_job _ h ∙ (counts.of_opened s pid h q ∙ ap (λ (k : ℕ). suc k) e))
  open_answered-held w pid s n invalid q e = counts.of_invalid s pid q ∙ e
  open_answered-held w pid s n (failed i) q e = counts.of_failed s pid i q ∙ e

  open_members-held :
      (pids : List ℕ) (w : Watch H I) (s : S) (n : ℕ)
      → held s ≡ n + length w.handles
      → let r = open_members sys pids w s in held r.1 ≡ n + length r.0.handles
  unfolding open_members open_member
  open_members-held [] w s n e = e
  open_members-held (pid ∷ pids) w s n e =
      open_members-held pids _ _ n (open_answered-held w pid s n _ refl e)

  close_all-held :
      (hs : List H) (s : S) (n : ℕ) → held s ≡ n + length hs → held (close_all sys hs s) ≡ n
  unfolding close_all
  close_all-held [] s n e = omega (arith, e)
  close_all-held (h ∷ hs) s n e =
      close_all-held hs (sys.close s h) n (counts.of_close s h (n + length hs) (omega (arith, e)))

  module _ (cancel : Bool) where
    -- A round keeps the number of open handles.
    abbrev Keeps : ℕ → DrainRound sys cancel → Type 0
    Keeps n (next t) = held t ≡ n
    Keeps n (halt (some r)) = held r.1 ≡ n
    Keeps n (halt none) = Unit

    wait_answered-Keeps :
        (n : ℕ) (k : ℕ) (a : Waited I) (s : S)
        → held s ≡ n
        → Keeps n (wait_answered sys cancel k a s)
    unfolding wait_answered
    wait_answered-Keeps n k timed_out s h = h
    wait_answered-Keeps n k (wait_failed e) s h = h
    wait_answered-Keeps n k (at i) s h = elim (Bool-cases (cancel && i == k)) [
      | inl b ↦ rw b h
      | inr b ↦ rw b h
    ]

    unwatched-Keeps :
        (n : ℕ) (denied : Option I) (left : Option ℕ) (s : S)
        → held s ≡ n
        → Keeps n (unwatched sys cancel denied left s)
    unfolding unwatched
    unwatched-Keeps n (some e) left s h = h
    unwatched-Keeps n none none s h = h
    unwatched-Keeps n none (some zero) s h = h
    unwatched-Keeps n none (some (suc d)) s h = h

    watched-Keeps :
        (n : ℕ) (hs : List H) (denied : Option I) (left : Option ℕ) (s : S)
        → held s ≡ n + length hs
        → Keeps n (watched sys cancel hs denied left s)
    unfolding watched
    watched-Keeps n [] denied left s h = unwatched-Keeps n denied left s (omega (arith, h))
    watched-Keeps n (x ∷ hs) denied left s h =
        wait_answered-Keeps n _ _ _
          (close_all-held (x ∷ hs) _ n (counts.of_wait s (x ∷ hs) cancel (wait_ms left) ∙ h))

    drain_listed-Keeps :
        (n : ℕ) (a : Result (List ℕ) I) (s : S) → held s ≡ n → Keeps n (drain_listed sys cancel a s)
    unfolding drain_listed watch_members
    drain_listed-Keeps n (ok []) s h = h
    drain_listed-Keeps n (err e) s h = h
    drain_listed-Keeps n (ok (pid ∷ pids)) s h = watched-Keeps n _ _ _ _ (
        counts.of_remaining _
        ∙ open_members-held (take (budget cancel) (pid ∷ pids)) _ s n (omega (arith, h)))

    drain_answered-Keeps :
        (s : S) (a : Option (Result (List ℕ) I × S))
        → query_job_pid_list sys s ≡ a
        → Keeps (held s) (drain_answered sys cancel a)
    unfolding drain_answered
    drain_answered-Keeps s none q = tt
    drain_answered-Keeps s (some (answer, t)) q =
        drain_listed-Keeps (held s) answer t (query-held s _ q)

    drain_polled-Keeps : (fired : Bool) (s : S) → Keeps (held s) (drain_polled sys cancel fired s)
    unfolding drain_polled
    drain_polled-Keeps fired s = elim (Bool-cases (cancel && fired)) [
      | inl b ↦ rw b refl
      | inr b ↦ rw b (drain_answered-Keeps s _ refl)
    ]

    polled-Keeps :
        (c : Bool) (s : S)
        → Keeps (held s) (
            if c
            then drain_polled sys cancel (sys.cancelled s).0 (sys.cancelled s).1
            else drain_polled sys cancel false s)
    polled-Keeps true s =
        subst (λ n. Keeps n (drain_polled sys cancel (sys.cancelled s).0 (sys.cancelled s).1))
          (counts.of_cancelled s) (drain_polled-Keeps (sys.cancelled s).0 (sys.cancelled s).1)
    polled-Keeps false s = drain_polled-Keeps false s

    drain_round-Keeps : (s : S) → Keeps (held s) (drain_round sys cancel s)
    unfolding drain_round
    drain_round-Keeps s = polled-Keeps cancel s

    -- A drain that returns has closed every handle that it opened, whatever it returns.
    pub drain-held :
        (rounds : ℕ) (s : S) (r : Result TreeDrain (Error I) × S)
        → drain sys cancel rounds s ≡ some r
        → held r.1 ≡ held s
    unfolding drain
    drain-held zero s r h = absurd (cc h)
    drain-held (suc rounds) s r h = elim (Round-cases (drain_round sys cancel) s) [
      | on_next t e ↦
          drain-held rounds t r (rw (e, drain) at h)
          ∙ subst (Keeps (held s)) e (drain_round-Keeps s)
      | on_halt q e ↦
          let same : q ≡ some r = rw (e, drain) at h in
          subst (λ x. Keeps (held s) (halt x)) same (subst (Keeps (held s)) e (drain_round-Keeps s))
    ]
