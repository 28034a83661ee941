-- ===== src/Containment/Windows/Drain.antt =====
-- What the answer of a drain rests on (src/containment/windows.rs).
use subprocess.Prelude.{
  ◌≤◌, loop_inv, ℕ, zero, suc, ◌<◌, Bool, true, false, ◌&&◌, List, [], ◌∷◌, Option, some, none,
  ◌==◌, ltb, length, take, if◌then◌else◌, next, halt, loop_ends, Round-cases, on_next, on_halt,
  Result, ok, err, ◌≡◌, refl, ap, subst, ◌∙◌, arith, Bool-cases, inl, inr,
}
use subprocess.Errors.{Error}
use subprocess.Containment.Dispatch.{TreeDrain}
use subprocess.Containment.Windows.{
  Waited, timed_out, wait_failed, at, Listing, listed, refused, JobSystem, budget, wait_ms,
  list_answered, list_round, room, query_job_pid_list, DrainRound, wait_answered, unwatched,
  watched, watch_members, drain_listed, drain_answered, drain_polled, drain_round, drain,
  open_members,
}

module _ (S : Type 0) (H : Type 0) (I : Type 0) (sys : JobSystem S H I) where
  list_answered-grows :
      (capacity : ℕ) (a : Listing I) (s : S) (w : ℕ × S)
      → ((n : ℕ) (e : I) → a ≡ refused n e → n < 4294967296)
      → list_answered sys capacity a s ≡ next w
      → room sys w < room sys (capacity, s)
  unfolding list_answered
  list_answered-grows capacity (listed pids) s w small h = absurd (cc h)
  list_answered-grows capacity (refused n e) s w small h = elim (Bool-cases (ltb capacity n)) [
    | inl b ↦
        let grown : (n, s) ≡ w = cc (rw b at h) in
        let below = small n e refl in
        subst (λ v. room sys v < room sys (capacity, s)) grown (ground (arith, b, below))
    | inr b ↦ absurd (cc (rw b at h))
  ]

  -- The listing of a job's members ends, whatever the kernel answers, if the number of members that it
  -- reports is a u32.
  pub query_job_pid_list_ends :
      (small : (s : S) (capacity : ℕ) (n : ℕ) (e : I)
        → (sys.query_list s capacity).0 ≡ refused n e
        → n < 4294967296)
      → (s : S) → (r : Result (List ℕ) I × S) × (query_job_pid_list sys s ≡ some r)
  unfolding query_job_pid_list list_round
  query_job_pid_list_ends small s =
      loop_ends (list_round sys) (room sys) (λ w. Unit {0}) (λ w v p e. tt)
        (λ w v p e. list_answered-grows w.0 _ _ v (λ n i q. small w.1 w.0 n i q) e) (64, s) tt

  -- What a listing rests on: an answer of the kernel to a query, with some room for pids. A refusal is
  -- an error only where the room was no less than the number of members.
  data Heard : Result (List ℕ) I → Type 0 where
    told :
        (u : S) (capacity : ℕ) (pids : List ℕ)
        → 0 < capacity
        → (sys.query_list u capacity).0 ≡ listed pids
        → Heard (ok (take capacity pids))
    turned_down :
        (u : S) (capacity : ℕ) (assigned : ℕ) (e : I)
        → (sys.query_list u capacity).0 ≡ refused assigned e
        → assigned ≤ capacity
        → Heard (err e)

  list_answered-next :
      (capacity : ℕ) (a : Listing I) (s : S) (w : ℕ × S)
      → list_answered sys capacity a s ≡ next w
      → capacity < w.0
  unfolding list_answered
  list_answered-next capacity (listed pids) s w h = absurd (cc h)
  list_answered-next capacity (refused n e) s w h = elim (Bool-cases (ltb capacity n)) [
    | inl b ↦
        let grown : (n, s) ≡ w = cc (rw b at h) in
        subst (λ v. capacity < v.0) grown (ground (arith, b))
    | inr b ↦ absurd (cc (rw b at h))
  ]

  list_answered-Heard :
      (capacity : ℕ) (u : S) (a : Listing I) (s : S) (r : Result (List ℕ) I × S)
      → 0 < capacity
      → (sys.query_list u capacity).0 ≡ a
      → list_answered sys capacity a s ≡ halt r
      → Heard r.0
  unfolding list_answered
  list_answered-Heard capacity u (listed pids) s r p q h =
      let same : (ok (take capacity pids), s) ≡ r = cc h in
      subst (λ x. Heard x.0) same (Heard.told u capacity pids p q)
  list_answered-Heard capacity u (refused n e) s r p q h = elim (Bool-cases (ltb capacity n)) [
    | inl b ↦ absurd (cc (rw b at h))
    | inr b ↦
        let same : (err e, s) ≡ r = cc (rw b at h) in
        subst (λ x. Heard x.0) same (Heard.turned_down u capacity n e q (ground (arith, b)))
  ]

  query_job_pid_list-Heard :
      (s : S) (r : Result (List ℕ) I × S) → query_job_pid_list sys s ≡ some r → Heard r.0
  unfolding query_job_pid_list list_round
  query_job_pid_list-Heard s r h =
      loop_inv (list_round sys) (λ w. 0 < w.0) (λ x. Heard x.0)
        (λ w v p e. let more = list_answered-next w.0 _ _ v e in omega arith)
        (λ w x p e. list_answered-Heard w.0 w.1 _ _ x p refl e) (room sys) (64, s) (omega arith) h

  take-none : (n : ℕ) (xs : List ℕ) → 0 < n → take n xs ≡ [] → xs ≡ []
  take-none zero xs p h = absurd (omega (arith, p))
  take-none (suc n) [] p h = refl
  take-none (suc n) (x ∷ xs) p h = absurd (cc h)

  module _ (cancel : Bool) where
    -- What an answer rests on. Each `u` is the state in which the system was asked.
    pub data Verdict : Result TreeDrain (Error I) → Type 0 where
      exited :
          (u : S) (capacity : ℕ)
          → 0 < capacity
          → (sys.query_list u capacity).0 ≡ listed []
          → Verdict (ok TreeDrain.all_members_exited)
      called_off :
          (u : S)
          → cancel ≡ true
          → (sys.cancelled u).0 ≡ true
          → Verdict (ok TreeDrain.members_remain)
      woken :
          (u : S) (hs : List H) (ms : Option ℕ)
          → cancel ≡ true
          → (sys.wait_any u hs cancel ms).0 ≡ at (length hs)
          → Verdict (ok TreeDrain.members_remain)
      elapsed :
          (u : S) (hs : List H) (ms : Option ℕ)
          → (sys.wait_any u hs cancel ms).0 ≡ timed_out
          → Verdict (ok TreeDrain.members_remain)
      expired : (u : S) → (sys.remaining u).0 ≡ some 0 → Verdict (ok TreeDrain.members_remain)
      unlisted :
          (u : S) (capacity : ℕ) (assigned : ℕ) (e : I)
          → (sys.query_list u capacity).0 ≡ refused assigned e
          → assigned ≤ capacity
          → Verdict (err (Error.io e))
      unwaited :
          (u : S) (hs : List H) (ms : Option ℕ) (e : I)
          → (sys.wait_any u hs cancel ms).0 ≡ wait_failed e
          → Verdict (err (Error.io e))
      unopened :
          (pids : List ℕ) (u : S) (detail : List ℕ) (e : I)
          → (open_members sys pids (record { handles = []; denied = none }) u).0
            ≡ record { handles = []; denied = some e }
          → Verdict (err (Error.unassessable detail (some e)))

    abbrev Says : DrainRound sys cancel → Type 0
    Says (next t) = Unit
    Says (halt none) = Unit
    Says (halt (some r)) = Verdict r.0

    wait_answered-Says :
        (hs : List H) (ms : Option ℕ) (u : S) (a : Waited I) (t : S)
        → (sys.wait_any u hs cancel ms).0 ≡ a
        → Says (wait_answered sys cancel (length hs) a t)
    unfolding wait_answered
    wait_answered-Says hs ms u timed_out t q = Verdict.elapsed u hs ms q
    wait_answered-Says hs ms u (wait_failed e) t q = Verdict.unwaited u hs ms e q
    wait_answered-Says hs ms u (at i) t q = elim (Bool-cases (cancel && i == length hs)) [
      | inl b ↦
          let last : i ≡ length hs = ground (arith, b) in
          rw b (Verdict.woken u hs ms (ground (arith, b)) (q ∙ ap (λ (k : ℕ). at k) last))
      | inr b ↦ rw b tt
    ]

    unwatched-Says :
        (pids : List ℕ) (u : S) (denied : Option I) (left : Option ℕ) (v : S) (t : S)
        → (open_members sys pids (record { handles = []; denied = none }) u).0
          ≡ record { handles = []; denied = denied }
        → (sys.remaining v).0 ≡ left
        → Says (unwatched sys cancel denied left t)
    unfolding unwatched
    unwatched-Says pids u (some e) left v t q p = Verdict.unopened pids u _ e q
    unwatched-Says pids u none none v t q p = tt
    unwatched-Says pids u none (some zero) v t q p = Verdict.expired v p
    unwatched-Says pids u none (some (suc d)) v t q p = tt

    watched-Says :
        (pids : List ℕ) (u : S) (hs : List H) (denied : Option I) (left : Option ℕ) (v : S) (t : S)
        → (open_members sys pids (record { handles = []; denied = none }) u).0
          ≡ record { handles = hs; denied = denied }
        → (sys.remaining v).0 ≡ left
        → Says (watched sys cancel hs denied left t)
    unfolding watched
    watched-Says pids u [] denied left v t q p = unwatched-Says pids u denied left v t q p
    watched-Says pids u (h ∷ hs) denied left v t q p =
        wait_answered-Says (h ∷ hs) (wait_ms left) t _ _ refl

    exited-Verdict :
        (a : Result (List ℕ) I) → Heard a → a ≡ ok [] → Verdict (ok TreeDrain.all_members_exited)
    exited-Verdict _ (Heard.told u capacity pids p q) h =
        let none_taken : take capacity pids ≡ [] = cc h in
        Verdict.exited u capacity p (q ∙ ap listed (take-none capacity pids p none_taken))
    exited-Verdict _ (Heard.turned_down u capacity n e q p) h = absurd (cc h)

    unlisted-Verdict :
        (a : Result (List ℕ) I) (e : I) → Heard a → a ≡ err e → Verdict (err (Error.io e))
    unlisted-Verdict _ e (Heard.told u capacity pids p q) h = absurd (cc h)
    unlisted-Verdict _ e (Heard.turned_down u capacity n e' q p) h =
        let same : e' ≡ e = cc h in
        Verdict.unlisted u capacity n e (q ∙ ap (λ x. refused n x) same) p

    drain_listed-Says :
        (u : S) (a : Result (List ℕ) I) (t : S)
        → query_job_pid_list sys u ≡ some (a, t)
        → Says (drain_listed sys cancel a t)
    unfolding drain_listed watch_members
    drain_listed-Says u (ok []) t q = exited-Verdict _ (query_job_pid_list-Heard u _ q) refl
    drain_listed-Says u (err e) t q = unlisted-Verdict _ e (query_job_pid_list-Heard u _ q) refl
    drain_listed-Says u (ok (pid ∷ pids)) t q =
        watched-Says (take (budget cancel) (pid ∷ pids)) t _ _ _ _ _ refl refl

    drain_answered-Says :
        (u : S) (a : Option (Result (List ℕ) I × S))
        → query_job_pid_list sys u ≡ a
        → Says (drain_answered sys cancel a)
    unfolding drain_answered
    drain_answered-Says u none q = tt
    drain_answered-Says u (some (a, t)) q = drain_listed-Says u a t q

    drain_polled-Says :
        (u : S) (fired : Bool) (t : S)
        → (cancel ≡ true → (sys.cancelled u).0 ≡ fired)
        → Says (drain_polled sys cancel fired t)
    unfolding drain_polled
    drain_polled-Says u fired t asked = elim (Bool-cases (cancel && fired)) [
      | inl b ↦
          let set : cancel ≡ true = ground (arith, b) in
          let so : fired ≡ true = ground (arith, b) in
          rw b (Verdict.called_off u set (asked set ∙ so))
      | inr b ↦ rw b (drain_answered-Says t _ refl)
    ]

    polled-Says :
        (c : Bool) (s : S)
        → cancel ≡ c
        → Says (
            if c
            then drain_polled sys cancel (sys.cancelled s).0 (sys.cancelled s).1
            else drain_polled sys cancel false s)
    polled-Says true s e = drain_polled-Says s _ _ (λ set. refl)
    polled-Says false s e = drain_polled-Says s false s (λ set. absurd (cc))

    drain_round-Says : (s : S) → Says (drain_round sys cancel s)
    unfolding drain_round
    drain_round-Says s = polled-Says cancel s refl

    -- A drain says that all members have exited only if the kernel answered a query for the members of
    -- the job with none, and that members remain only if the cancel event was set, at the start of a round or in the wait, or the wait or the time
    -- before it ran out. An error is that of a query with room for all members,
    -- of the wait, or of the last member that could not be opened, where none of those asked for could
    -- be watched.
    pub drain-Verdict :
        (rounds : ℕ) (s : S) (r : Result TreeDrain (Error I) × S)
        → drain sys cancel rounds s ≡ some r
        → Verdict r.0
    unfolding drain
    drain-Verdict zero s r h = absurd (cc h)
    drain-Verdict (suc rounds) s r h = elim (Round-cases (drain_round sys cancel) s) [
      | on_next t e ↦ drain-Verdict rounds t r (rw (e, drain) at h)
      | on_halt q e ↦
          let same : q ≡ some r = rw (e, drain) at h in
          subst (λ x. Says (halt x)) same (subst Says e (drain_round-Says s))
    ]
