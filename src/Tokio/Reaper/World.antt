-- ===== src/Tokio/Reaper/World.antt =====
-- The pool at work: submissions and worker steps, in any order (src/tokio/child/reaper.rs).
use subprocess.Prelude.{ℕ, ◌+◌, ◌-◌, ◌≤◌, List, [], ◌∷◌, ◌++◌, some, if◌then◌else◌, ◌≡◌}
use subprocess.Tokio.Reaper.{
  ReapJob, ReaperHost, Pool, LazyPool, submit_to, run_teardown, empty_pool,
}

-- The pool and the host, with a record of the jobs that were submitted, torn down and released.
pub record World (S : Type 0) (R : Type 0) : Type 0 where
  pub lazy : LazyPool R
  pub host : S
  pub submitted : List (ReapJob R)
  pub torn : List (ReapJob R)
  pub released : List (ReapJob R)

unfoldable pub fresh_world : {S : Type 0} → {R : Type 0} → ℕ → S → World S R
fresh_world bound s = record {
  lazy = empty_pool bound;
  host = s;
  submitted = [];
  torn = [];
  released = [];
}

module _ {S : Type 0} {R : Type 0} {I : Type 0} (host : ReaperHost S R I) where
  unfoldable pub submit : ReapJob R → World S R → World S R
  submit job w =
      let ((sent, lazy), s) = submit_to host job w.lazy w.host in
      record {
        lazy = lazy;
        host = s;
        submitted = w.submitted ++ job ∷ [];
        torn = w.torn;
        released = if sent then w.released else w.released ++ job ∷ [];
      }

  -- `Ends` holds of the jobs whose wait comes to an end.
  module _ (Ends : ReapJob R → Type 0) where
    -- A step of a worker: `recv` by one that is idle, or the end of a teardown.
    pub data WorkerStep (w : World S R) : World S R → Type 0 where
      took :
          (pool : Pool R) (job : ReapJob R) (rest : List (ReapJob R))
          → w.lazy.cell ≡ some pool
          → pool.queue ≡ job ∷ rest
          → 1 ≤ pool.idle
          → WorkerStep w (record w {
            lazy = record {
              bound = w.lazy.bound;
              cell =
                  some
                    (record { queue = rest; idle = pool.idle - 1; busy = pool.busy ++ job ∷ [] });
            };
          })
      finished :
          (pool : Pool R) (before : List (ReapJob R)) (job : ReapJob R) (after : List (ReapJob R))
          → w.lazy.cell ≡ some pool
          → pool.busy ≡ before ++ job ∷ after
          → Ends job
          → WorkerStep w (record w {
            lazy = record {
              bound = w.lazy.bound;
              cell =
                  some
                    (record { queue = pool.queue; idle = pool.idle + 1; busy = before ++ after });
            };
            host = run_teardown host job w.host;
            torn = w.torn ++ job ∷ [];
          })

    -- A run of worker steps, with their number.
    pub data Run : ℕ → World S R → World S R → Type 0 where
      still : {w : World S R} → Run 0 w w
      then :
          {n : ℕ} {w : World S R} {v : World S R} {u : World S R}
          → WorkerStep w v
          → Run n v u
          → Run (n + 1) w u

    -- The worlds that submissions and worker steps lead to, from an empty cell.
    pub data Reachable (bound : ℕ) (s : S) : World S R → Type 0 where
      start : Reachable bound s (fresh_world bound s)
      after_submit :
          {w : World S R}
          → (job : ReapJob R) → Reachable bound s w
          → Reachable bound s (submit job w)
      after_step :
          {w : World S R} {v : World S R}
          → Reachable bound s w
          → WorkerStep w v
          → Reachable bound s v
