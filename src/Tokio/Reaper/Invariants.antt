-- ===== src/Tokio/Reaper/Invariants.antt =====
-- The invariants of the reaper pool (src/tokio/child/reaper.rs).
use subprocess.Prelude.{
  ℕ, ◌==◌, ◌+◌, ◌-◌, ◌≤◌, Bool, true, false, List, [], ◌∷◌, ◌++◌, Option, some, none, if◌then◌else◌,
  ◌≡◌, refl, sym, ap, ◌∙◌, subst, arith, length, length-append, count, count-append,
}
use subprocess.Tokio.Reaper.{
  ReapJob, ReaperHost, Pool, LazyPool, empty_pool, dispatch, spawn_workers, start_pool, get,
  submit_got, submit_to, run_teardown,
}
use subprocess.Tokio.Reaper.World.{World, submit, WorkerStep, fresh_world, Reachable}

-- How many of the jobs that a test picks are with the pool, in the queue or in hand.
abbrev pub in_pool : {R : Type 0} → (ReapJob R → Bool) → Option (Pool R) → ℕ
in_pool p none = 0
in_pool p (some pool) = count p pool.queue + count p pool.busy

-- A pool exists only at its full width.
abbrev pub IsWide : {R : Type 0} → ℕ → Option (Pool R) → Type 0
IsWide bound none = Unit
IsWide bound (some pool) = pool.idle + length pool.busy ≡ bound

-- Whichever jobs a test picks, as many were submitted as are with the pool, torn down and released, and
-- a pool has as many workers as its bound says.
pub record IsSound {S : Type 0} {R : Type 0} (bound : ℕ) (w : World S R) : Type 0 where
  pub width : w.lazy.bound ≡ bound
  pub wide : IsWide bound w.lazy.cell
  pub accounted :
      (p : ReapJob R → Bool)
      → count p w.submitted ≡ in_pool p w.lazy.cell + (count p w.torn + count p w.released)

module _ (S : Type 0) (R : Type 0) (I : Type 0) (host : ReaperHost S R I) where
  -- `get` publishes an empty pool at full width, or leaves the cell as it is.
  start_pool-either :
      (P : LazyPool R → Type 0) (bound : ℕ) (s : S)
      → ((n : ℕ)
          → n ≡ bound
          → P (record { bound = bound; cell = some (record { queue = []; idle = n; busy = [] }) }))
      → P (record { bound = bound; cell = none })
      → P (start_pool host (record { bound = bound; cell = none }) s).0
  unfolding start_pool
  start_pool-either P bound s x y =
      go (spawn_workers host bound (record { started = 0; failures = [] }) s).0.started _ refl
    where
      go :
          (n : ℕ) (b : Bool)
          → (n == bound) ≡ b
          → P (
              if b
              then record {
                bound = bound;
                cell = some (record { queue = []; idle = n; busy = [] });
              }
              else record { bound = bound; cell = none })
      go n true e = x n (ground arith)
      go n false e = y

  get-bound :
      (bound : ℕ) (c : Option (Pool R)) (s : S)
      → (get host (record { bound = bound; cell = c }) s).0.bound ≡ bound
  unfolding get
  get-bound bound none s = start_pool-either (λ l. l.bound ≡ bound) bound s (λ n e. refl) refl
  get-bound bound (some pool) s = refl

  get-IsWide :
      (bound : ℕ) (c : Option (Pool R)) (s : S)
      → IsWide bound c
      → IsWide bound (get host (record { bound = bound; cell = c }) s).0.cell
  unfolding get
  get-IsWide bound none s h =
      start_pool-either (λ l. IsWide bound l.cell) bound s (λ n e. omega arith) tt
  get-IsWide bound (some pool) s h = h

  get-in_pool :
      (p : ReapJob R → Bool) (bound : ℕ) (c : Option (Pool R)) (s : S)
      → in_pool p (get host (record { bound = bound; cell = c }) s).0.cell ≡ in_pool p c
  unfolding get
  get-in_pool p bound none s =
      start_pool-either (λ l. in_pool p l.cell ≡ 0) bound s (λ n e. refl) refl
  get-in_pool p bound (some pool) s = refl

  -- A job that is sent goes to the pool, and one that is not is released.
  submit_got_sound :
      (p : ReapJob R → Bool) (job : ReapJob R) (rs : List (ReapJob R)) (bound : ℕ)
      (c : Option (Pool R)) (s : S)
      → let ((sent, lazy), t) = submit_got host job (record { bound = bound; cell = c }) s in
        in_pool p lazy.cell + count p (if sent then rs else rs ++ job ∷ [])
        ≡ (in_pool p c + count p rs) + count p (job ∷ [])
  unfolding submit_got dispatch
  submit_got_sound p job rs bound none s = omega (arith, count-append p rs (job ∷ []))
  submit_got_sound p job rs bound (some pool) s =
      omega (arith, count-append p pool.queue (job ∷ []))

  submit_got-IsWide :
      (job : ReapJob R) (width : ℕ) (bound : ℕ) (c : Option (Pool R)) (s : S)
      → IsWide width c
      → IsWide width (submit_got host job (record { bound = bound; cell = c }) s).0.1.cell
  unfolding submit_got dispatch
  submit_got-IsWide job width bound none s h = tt
  submit_got-IsWide job width bound (some pool) s h = h

  submit_got-bound :
      (job : ReapJob R) (bound : ℕ) (c : Option (Pool R)) (s : S)
      → (submit_got host job (record { bound = bound; cell = c }) s).0.1.bound ≡ bound
  unfolding submit_got
  submit_got-bound job bound none s = refl
  submit_got-bound job bound (some pool) s = refl

  submit-IsSound :
      (bound : ℕ) (job : ReapJob R) (w : World S R)
      → IsSound bound w
      → IsSound bound (submit host job w)
  unfolding submit submit_to
  submit-IsSound bound job w h =
      let got : LazyPool R × S = get host w.lazy w.host in
      record {
        width =
            submit_got-bound job got.0.bound got.0.cell got.1
            ∙ (get-bound w.lazy.bound w.lazy.cell w.host ∙ h.width);
        wide = submit_got-IsWide job bound got.0.bound got.0.cell got.1 (
            subst (λ n. IsWide n got.0.cell) h.width
              (get-IsWide w.lazy.bound w.lazy.cell w.host
                (subst (λ n. IsWide n w.lazy.cell) (sym h.width) h.wide)));
        accounted = λ p.
            let sent = submit_got_sound p job w.released got.0.bound got.0.cell got.1 in
            let same = get-in_pool p w.lazy.bound w.lazy.cell w.host in
            let all = h.accounted p in
            let more = count-append p w.submitted (job ∷ []) in omega arith;
      }

  start-IsSound : (bound : ℕ) (s : S) → IsSound {R = R} bound (fresh_world bound s)
  unfolding fresh_world empty_pool
  start-IsSound bound s = record { width = refl; wide = tt; accounted = λ p. refl }

  took-IsSound :
      (bound : ℕ) (w : World S R) (pool : Pool R) (job : ReapJob R) (rest : List (ReapJob R))
      → IsSound bound w
      → w.lazy.cell ≡ some pool
      → pool.queue ≡ job ∷ rest
      → 1 ≤ pool.idle
      → IsSound bound (record w {
        lazy = record {
          bound = w.lazy.bound;
          cell = some (record { queue = rest; idle = pool.idle - 1; busy = pool.busy ++ job ∷ [] });
        };
      })
  took-IsSound bound w pool job rest h e q i = record {
    width = h.width;
    wide =
        (let wide : pool.idle + length pool.busy ≡ bound = subst (λ c. IsWide bound c) e h.wide in
          omega (arith, length-append pool.busy (job ∷ [])));
    accounted = λ p.
        let before : count p w.submitted
            ≡ (count p pool.queue + count p pool.busy) + (count p w.torn + count p w.released) =
          subst (λ c. count p w.submitted ≡ in_pool p c + (count p w.torn + count p w.released)) e
            (h.accounted p) in
        let queue : count p pool.queue ≡ count p (job ∷ rest) = ap (count p) q in
        let more = count-append p pool.busy (job ∷ []) in
        let first = count-append p (job ∷ []) rest in omega arith;
  }

  finished-IsSound :
      (bound : ℕ) (w : World S R) (pool : Pool R) (before : List (ReapJob R)) (job : ReapJob R)
      (after : List (ReapJob R))
      → IsSound bound w
      → w.lazy.cell ≡ some pool
      → pool.busy ≡ before ++ job ∷ after
      → IsSound bound (record w {
        lazy = record {
          bound = w.lazy.bound;
          cell = some (record { queue = pool.queue; idle = pool.idle + 1; busy = before ++ after });
        };
        host = run_teardown host job w.host;
        torn = w.torn ++ job ∷ [];
      })
  finished-IsSound bound w pool before job after h e q = record {
    width = h.width;
    wide =
        (let wide : pool.idle + length pool.busy ≡ bound = subst (λ c. IsWide bound c) e h.wide in
          let busy : length pool.busy ≡ length (before ++ job ∷ after) = ap length q in
          omega (arith, length-append before (job ∷ after), length-append before after));
    accounted = λ p.
        let had : count p w.submitted
            ≡ (count p pool.queue + count p pool.busy) + (count p w.torn + count p w.released) =
          subst (λ c. count p w.submitted ≡ in_pool p c + (count p w.torn + count p w.released)) e
            (h.accounted p) in
        let busy : count p pool.busy ≡ count p (before ++ job ∷ after) = ap (count p) q in
        let more = count-append p w.torn (job ∷ []) in
        let first = count-append p (job ∷ []) after in
        let left = count-append p before (job ∷ after) in
        let right = count-append p before after in omega arith;
  }

  module _ (Ends : ReapJob R → Type 0) where
    pub step-IsSound :
        (bound : ℕ) (w v : World S R) → IsSound bound w → WorkerStep host Ends w v → IsSound bound v
    step-IsSound bound w v h (WorkerStep.took pool job rest e q i) =
        took-IsSound bound w pool job rest h e q i
    step-IsSound bound w v h (WorkerStep.finished pool before job after e q n) =
        finished-IsSound bound w pool before job after h e q

    -- In every world that submissions and worker steps lead to from an empty cell, in any order, each
    -- job is once in the queue, in hand, torn down or released, as often as it was submitted; and if a
    -- pool was published, it has as many workers as the bound says.
    pub reachable-IsSound :
        (bound : ℕ) (s : S) (w : World S R) → Reachable host Ends bound s w → IsSound bound w
    reachable-IsSound bound s w Reachable.start = start-IsSound bound s
    reachable-IsSound bound s w (Reachable.after_submit job r) =
        submit-IsSound bound job _ (reachable-IsSound bound s _ r)
    reachable-IsSound bound s w (Reachable.after_step r step) =
        step-IsSound bound _ w (reachable-IsSound bound s _ r) step
