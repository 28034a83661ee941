-- ===== src/Tokio/Reaper/Progress.antt =====
-- What the workers of the reaper pool come to (src/tokio/child/reaper.rs).
use subprocess.Prelude.{
  ℕ, ◌+◌, ◌≤◌, zero, suc, Bool, List, [], ◌∷◌, ◌++◌, Option, some, none, ◌≡◌, refl, ap, subst,
  arith, length, length-append, count, ◌⊎◌, inl, inr,
}
use subprocess.Tokio.Reaper.{ReapJob, ReaperHost, Pool}
use subprocess.Tokio.Reaper.World.{World, WorkerStep, Run, Reachable}
use subprocess.Tokio.Reaper.Invariants.{IsSound, IsWide, in_pool, step-IsSound, reachable-IsSound}

-- The worker steps that the jobs in a pool will take: two for a job in the queue, one for a job in hand.
abbrev pub pool_load : {R : Type 0} → Option (Pool R) → ℕ
pool_load none = 0
pool_load (some pool) = (length pool.queue + length pool.queue) + length pool.busy

length-nil : {A : Type 0} → (xs : List A) → length xs ≡ 0 → xs ≡ []
length-nil [] h = refl
length-nil (x ∷ xs) h = ground arith

none_or_some : (n : ℕ) → (n ≡ 0) ⊎ (1 ≤ n)
none_or_some zero = inl refl
none_or_some (suc n) = inr (omega arith)

module _ (S : Type 0) (R : Type 0) (I : Type 0) (host : ReaperHost S R I)
    (Ends : ReapJob R → Type 0) where
  step-load :
      (w v : World S R)
      → WorkerStep host Ends w v
      → pool_load w.lazy.cell ≡ pool_load v.lazy.cell + 1
  step-load w v (WorkerStep.took pool job rest e q i) =
      let load : pool_load w.lazy.cell ≡ pool_load (some pool) = ap pool_load e in
      let queue : length pool.queue ≡ length (job ∷ rest) = ap length q in
      omega (arith, length-append pool.busy (job ∷ []))
  step-load w v (WorkerStep.finished pool before job after e q n) =
      let load : pool_load w.lazy.cell ≡ pool_load (some pool) = ap pool_load e in
      let busy : length pool.busy ≡ length (before ++ job ∷ after) = ap length q in
      omega (arith, length-append before (job ∷ after), length-append before after)

  -- A run of worker steps without a submission ends: it has as many steps as it takes off twice the
  -- length of the queue and the number of jobs in hand, so no more than these.
  pub run-load :
      (n : ℕ) (w v : World S R)
      → Run host Ends n w v
      → pool_load w.lazy.cell ≡ pool_load v.lazy.cell + n
  run-load n w v Run.still = omega arith
  run-load n w v (Run.then {n = m} {v = u} step run) =
      omega (arith, step-load w u step, run-load m u v run)

  run-IsSound :
      (bound : ℕ) (n : ℕ) (w v : World S R)
      → IsSound bound w
      → Run host Ends n w v
      → IsSound bound v
  run-IsSound bound n w v h Run.still = h
  run-IsSound bound n w v h (Run.then {n = m} {v = u} step run) =
      run-IsSound bound m u v (step-IsSound S R I host Ends bound w u h step) run

  -- A next worker step.
  pub record Next (w : World S R) : Type 0 where
    pub world : World S R
    pub step : WorkerStep host Ends w world

  queue-Next :
      (bound : ℕ) (w : World S R) (pool : Pool R) (queue : List (ReapJob R))
      → w.lazy.cell ≡ some pool
      → pool.queue ≡ queue
      → 1 ≤ pool.idle
      → 1 ≤ length queue
      → Next w
  queue-Next bound w pool [] e q i l = ground arith
  queue-Next bound w pool (job ∷ rest) e q i l = record {
    world = _;
    step = WorkerStep.took pool job rest e q i;
  }

  pool-Next :
      (bound : ℕ) (w : World S R) (pool : Pool R) (busy : List (ReapJob R))
      → ((job : ReapJob R) → Ends job)
      → 1 ≤ bound
      → IsWide bound (some pool)
      → w.lazy.cell ≡ some pool
      → pool.busy ≡ busy
      → 1 ≤ pool_load (some pool)
      → Next w
  pool-Next bound w pool (job ∷ busy) ends b wide e q l = record {
    world = _;
    step = WorkerStep.finished pool [] job busy e q (ends job);
  }
  pool-Next bound w pool [] ends b wide e q l =
      let none_busy : length pool.busy ≡ 0 = ap length q in
      queue-Next bound w pool _ e refl (omega arith) (omega arith)

  cell-Next :
      (bound : ℕ) (w : World S R) (c : Option (Pool R))
      → ((job : ReapJob R) → Ends job)
      → 1 ≤ bound
      → IsWide bound c
      → w.lazy.cell ≡ c
      → 1 ≤ pool_load c
      → Next w
  cell-Next bound w none ends b wide e l = ground arith
  cell-Next bound w (some pool) ends b wide e l = pool-Next bound w pool _ ends b wide e refl l

  -- A run of worker steps to a world whose pool has nothing left, and what became of the jobs there.
  pub record Drains (w : World S R) : Type 0 where
    pub steps : ℕ
    pub world : World S R
    pub run : Run host Ends steps w world
    pub empty : pool_load world.lazy.cell ≡ 0
    pub settled :
        (p : ReapJob R → Bool)
        → count p world.submitted ≡ count p world.torn + count p world.released

  none_in_pool : (p : ReapJob R → Bool) (c : Option (Pool R)) → pool_load c ≡ 0 → in_pool p c ≡ 0
  none_in_pool p none h = refl
  none_in_pool p (some pool) h =
      let q : count p pool.queue ≡ 0 = ap (count p) (length-nil pool.queue (omega arith)) in
      let b : count p pool.busy ≡ 0 = ap (count p) (length-nil pool.busy (omega arith)) in
      omega arith

  load-Drains :
      (bound : ℕ)
      → ((job : ReapJob R) → Ends job)
      → 1 ≤ bound
      → (n : ℕ) (w : World S R) → IsSound bound w
      → pool_load w.lazy.cell ≡ n
      → Drains w
  load-Drains bound ends b zero w h l = record {
    steps = 0;
    world = w;
    run = Run.still;
    empty = l;
    settled = λ p. omega (arith, h.accounted p, none_in_pool p w.lazy.cell l);
  }
  load-Drains bound ends b (suc n) w h l =
      let next : Next w = cell-Next bound w w.lazy.cell ends b h.wide refl (omega arith) in
      let drains : Drains next.world =
        load-Drains bound ends b n next.world
          (step-IsSound S R I host Ends bound w next.world h next.step)
          (omega (arith, step-load w next.world next.step)) in
      record {
        steps = drains.steps + 1;
        world = drains.world;
        run = Run.then next.step drains.run;
        empty = drains.empty;
        settled = drains.settled;
      }

  -- If the pool has at least one worker and every wait ends, then from every world that can be reached
  -- the workers have a run, without further submissions, to a world where the queue is empty, no job is
  -- in hand, and each job submitted has been torn down or released, once for each time it was submitted.
  pub reachable-Drains :
      (bound : ℕ) (s : S) (w : World S R)
      → ((job : ReapJob R) → Ends job)
      → 1 ≤ bound
      → Reachable host Ends bound s w
      → Drains w
  reachable-Drains bound s w ends b r =
      load-Drains bound ends b _ w (reachable-IsSound S R I host Ends bound s w r) refl

  -- If jobs wait in the queue of a reachable world and no worker can take a step, then all the workers
  -- of the bound hold jobs, none of which ends: one job that never ends, with two workers, stalls
  -- nothing.
  pub stalled-wedged :
      (bound : ℕ) (s : S) (w : World S R) (pool : Pool R) (job : ReapJob R)
      (rest : List (ReapJob R))
      → Reachable host Ends bound s w
      → w.lazy.cell ≡ some pool
      → pool.queue ≡ job ∷ rest
      → ((v : World S R) → ¬ WorkerStep host Ends w v)
      → (length pool.busy ≡ bound)
        × ((before : List (ReapJob R)) (held : ReapJob R) (after : List (ReapJob R))
            → pool.busy ≡ before ++ held ∷ after
            → ¬ Ends held)
  stalled-wedged bound s w pool job rest r e q stuck =
      let wide : pool.idle + length pool.busy ≡ bound =
        subst (λ c. IsWide bound c) e (reachable-IsSound S R I host Ends bound s w r).wide in
      (
        elim (none_or_some pool.idle) [
          | inl zero_idle ↦ omega arith
          | inr i ↦ elim (stuck _ (WorkerStep.took pool job rest e q i)) [ ]
        ],
        λ before held after b ends. stuck _ (WorkerStep.finished pool before held after e b ends),
      )
