-- ===== src/Tokio/Reaper.antt =====
-- The teardown of an asynchronous child that is dropped, and the pool of threads that it is handed to
-- (src/tokio/child/reaper.rs, and the Drop of src/tokio/child.rs).
pub mod World
pub mod Invariants
pub mod Progress
pub mod Dropped
mod Tests
use subprocess.Prelude.{
  ℕ, ◌+◌, zero, suc, Bool, true, false, not, List, [], ◌∷◌, ◌++◌, Option, some, none, ◌==◌,
  if◌then◌else◌, Result, ok, err,
}
use subprocess.Errors.{Error}

-- How a region under `catch_unwind` ends.
pub data Ending : Type 0 where
  returned unwound : Ending

-- What `Drop` hands over, for resources in `R`.
pub record ReapJob (R : Type 0) : Type 0 where
  pub os : R
  pub pid : ℕ

-- The calls of the system, of the runtime and of the consumer's logger. `wait_and_reap` borrows the
-- resources, so they are there whichever way it ends.
pub record ReaperHost (S : Type 0) (R : Type 0) (I : Type 0) : Type 0 where
  pub spawn : S → Option I × S
  pub wait_and_reap : S → R → ℕ → (Ending × R) × S
  pub drop_os : S → R → Ending × S
  pub log_error : S → ℕ → Ending × S

-- The queue, the workers that wait on it, and the jobs that the other workers have in hand.
pub record Pool (R : Type 0) : Type 0 where
  pub queue : List (ReapJob R)
  pub idle : ℕ
  pub busy : List (ReapJob R)

pub record LazyPool (R : Type 0) : Type 0 where
  pub bound : ℕ
  pub cell : Option (Pool R)

abbrev pub reaper_pool_threads : ℕ
reaper_pool_threads = 2

unfoldable pub empty_pool : {R : Type 0} → ℕ → LazyPool R
empty_pool bound = record { bound = bound; cell = none }

-- The variables of the loop that starts the workers.
pub record Spawns (I : Type 0) : Type 0 where
  pub started : ℕ
  pub failures : List I

abbrev pub count_spawn : {I : Type 0} → Option I → Spawns I → Spawns I
count_spawn none sp = record sp { started = sp.started + 1 }
count_spawn (some e) sp = record sp { failures = sp.failures ++ e ∷ [] }

-- Each worker holds a receiver of the queue and never ends, so the queue of a published pool takes each job;
-- the arm of `dispatch` for a disconnected queue, which releases the job, is left out.
unfoldable pub dispatch : {R : Type 0} → ReapJob R → Pool R → Pool R
dispatch job pool = record pool { queue = pool.queue ++ job ∷ [] }

module _ {S : Type 0} {R : Type 0} {I : Type 0} (host : ReaperHost S R I) where
  unfoldable pub spawn_workers : ℕ → Spawns I → S → Spawns I × S
  spawn_workers zero sp s = (sp, s)
  spawn_workers (suc n) sp s =
      let (answer, t) = host.spawn s in spawn_workers n (count_spawn answer sp) t

  -- The section under the lock: the pool is published if and only if every worker has started.
  unfoldable pub start_pool : LazyPool R → S → LazyPool R × S
  start_pool lazy s =
      let (sp, t) = spawn_workers lazy.bound (record { started = 0; failures = [] }) s in
      (
        if sp.started == lazy.bound
            then record lazy { cell = some (record { queue = []; idle = sp.started; busy = [] }) }
            else lazy,
        t,
      )

  unfoldable pub get : LazyPool R → S → LazyPool R × S
  get lazy s = elim lazy.cell [ some pool ↦ (lazy, s) | none ↦ start_pool lazy s ]

  unfoldable pub release : ReapJob R → S → S
  release job s = (host.drop_os (host.log_error s job.pid).1 job.os).1

  -- Whether the job was given to the pool; else it was released.
  unfoldable pub submit_got : ReapJob R → LazyPool R → S → (Bool × LazyPool R) × S
  submit_got job lazy s = elim lazy.cell [
    | some pool ↦ ((true, record lazy { cell = some (dispatch job pool) }), s)
    | none ↦ ((false, lazy), release job s)
  ]

  unfoldable pub submit_to : ReapJob R → LazyPool R → S → (Bool × LazyPool R) × S
  submit_to job lazy s = let (got, t) = get lazy s in submit_got job got t

  -- The second region of `run_teardown`: an unwinding logger drops the resources too.
  unfoldable pub release_region : ReapJob R → Ending → R → S → Ending × S
  release_region job Ending.returned os s = host.drop_os s os
  release_region job Ending.unwound os s =
      let (logged, t) = host.log_error s job.pid in
      let (dropped, u) = host.drop_os t os in
      (elim logged [ Ending.returned ↦ dropped | Ending.unwound ↦ Ending.unwound ], u)

  -- How this log call itself ends is caught and discarded in the source too.
  unfoldable pub log_if_unwound : ReapJob R → Ending → S → S
  log_if_unwound job Ending.returned s = s
  log_if_unwound job Ending.unwound s = (host.log_error s job.pid).1

  unfoldable pub run_teardown : ReapJob R → S → S
  run_teardown job s =
      let ((waited, os), t) = host.wait_and_reap s job.os job.pid in
      let (ending, u) = release_region job waited os t in log_if_unwound job ending u
