-- ===== src/Tokio/Reaper/Tests.antt =====
-- A pool of two workers: two jobs, a worker step, and the runs that follow.
use subprocess.Prelude.{
  ℕ, ◌+◌, ◌==◌, true, false, if◌then◌else◌, List, [], ◌∷◌, ◌++◌, some, none, ◌≡◌, ok, err, refl,
  sym, ◌∙◌, arith, length,
}
use subprocess.Tokio.Reaper.{
  Ending, ReapJob, ReaperHost, Pool, empty_pool, dispatch, spawn_workers, start_pool, get, release,
  submit_got, submit_to, release_region, log_if_unwound, run_teardown, reaper_pool_threads,
}
use subprocess.Tokio.Reaper.World.{World, submit, WorkerStep, Run, fresh_world, Reachable}
use subprocess.Tokio.Reaper.Invariants.{IsSound, reachable-IsSound}
use subprocess.Errors.{Error}
use subprocess.Tokio.Reaper.Dropped.{
  ChildHost, Child, start_killed, tree_killed, handed_over, handed_over-killed,
}
use subprocess.Tokio.Reaper.Progress.{Drains, reachable-Drains, stalled-wedged}

-- The state is the list of the calls so far. The wait on 7 panics, and the third spawn fails.
abbrev host : ReaperHost (List ℕ) ℕ ℕ
host = record {
  spawn = λ s. (if length s == 2 then some 5 else none, s ++ 100 ∷ []);
  wait_and_reap = λ s os pid.
      ((if pid == 7 then Ending.unwound else Ending.returned, os), s ++ (200 + pid) ∷ []);
  drop_os = λ s os. (Ending.returned, s ++ (300 + os) ∷ []);
  log_error = λ s pid. (Ending.unwound, s ++ (400 + pid) ∷ []);
}

abbrev job : ℕ → ReapJob ℕ
job n = record { os = n; pid = n }

-- A wait that panics, and a logger that panics then, do not keep the resources from their one release.
run_teardown-unwound : run_teardown host (job 7) [] ≡ 207 ∷ 407 ∷ 307 ∷ 407 ∷ []
unfolding run_teardown release_region log_if_unwound
run_teardown-unwound = refl

-- A pool of three cannot start here: the job is released, and the cell stays empty.
submit_to-released :
    submit_to host (job 1) (empty_pool 3) []
    ≡ ((false, empty_pool 3), 100 ∷ 100 ∷ 100 ∷ 401 ∷ 301 ∷ [])
unfolding submit_to submit_got get start_pool spawn_workers release empty_pool
submit_to-released = refl

abbrev Any : ReapJob ℕ → Type 0
Any j = Unit

abbrev one : World (List ℕ) ℕ
one = submit host (job 1) (fresh_world reaper_pool_threads [])

abbrev two : World (List ℕ) ℕ
two = submit host (job 2) one

two-Reachable : Reachable host Any reaper_pool_threads [] two
two-Reachable = Reachable.after_submit (job 2) (Reachable.after_submit (job 1) Reachable.start)

reachable-IsSound_example : IsSound reaper_pool_threads two
reachable-IsSound_example =
    reachable-IsSound (List ℕ) ℕ ℕ host Any reaper_pool_threads [] two two-Reachable

reachable-Drains_example : Drains (List ℕ) ℕ ℕ host Any two
reachable-Drains_example =
    reachable-Drains (List ℕ) ℕ ℕ host Any reaper_pool_threads [] two (λ j. tt) (omega arith)
      two-Reachable

abbrev pool_one : Pool ℕ
pool_one = record { queue = job 1 ∷ []; idle = 2; busy = [] }

abbrev world_one : World (List ℕ) ℕ
world_one = record {
  lazy = record { bound = 2; cell = some pool_one };
  host = [];
  submitted = job 1 ∷ [];
  torn = [];
  released = [];
}

abbrev pool_taken : Pool ℕ
pool_taken = record { queue = []; idle = 1; busy = job 1 ∷ [] }

abbrev world_taken : World (List ℕ) ℕ
world_taken = record world_one { lazy = record { bound = 2; cell = some pool_taken } }

run_one : Run host Any 1 world_one world_taken
run_one = Run.then (WorkerStep.took pool_one (job 1) [] refl refl (omega arith)) Run.still

-- One worker holds a job that never ends, and another waits.
abbrev Never : ReapJob ℕ → Type 0
Never j = ⊥

abbrev pool_wedged : Pool ℕ
pool_wedged = record { queue = job 2 ∷ []; idle = 0; busy = job 1 ∷ [] }

abbrev wedged : World (List ℕ) ℕ
wedged = submit host (job 2) (record {
  lazy = record { bound = 1; cell = some (record { queue = []; idle = 0; busy = job 1 ∷ [] }) };
  host = 100 ∷ [];
  submitted = job 1 ∷ [];
  torn = [];
  released = [];
})

wedged-Reachable : Reachable host Never 1 [] wedged
unfolding submit submit_to submit_got get start_pool spawn_workers empty_pool fresh_world dispatch
wedged-Reachable = Reachable.after_submit (job 2) (
    Reachable.after_step (Reachable.after_submit (job 1) Reachable.start) (
      WorkerStep.took (record { queue = job 1 ∷ []; idle = 1; busy = [] }) (job 1) [] refl refl
        (omega arith)))

wedged_lem : wedged.lazy.cell ≡ some pool_wedged
unfolding submit submit_to submit_got get dispatch
wedged_lem = refl

wedged-stuck : (v : World (List ℕ) ℕ) → ¬ WorkerStep host Never wedged v
wedged-stuck v (WorkerStep.took pool j rest e q i) =
    let same : some pool_wedged ≡ some pool = sym wedged_lem ∙ e in ground arith
wedged-stuck v (WorkerStep.finished pool before j after e q n) = n

stalled-wedged_example :
    (length pool_wedged.busy ≡ 1)
    × ((before : List (ReapJob ℕ)) (held : ReapJob ℕ) (after : List (ReapJob ℕ))
        → pool_wedged.busy ≡ before ++ held ∷ after
        → ¬ Never held)
stalled-wedged_example =
    stalled-wedged (List ℕ) ℕ ℕ host Never 1 [] wedged pool_wedged (job 2) [] wedged-Reachable
      wedged_lem refl wedged-stuck

abbrev calls : ChildHost (List ℕ) ℕ ℕ
calls = record {
  hard_kill = λ s os. (ok tt, s ++ 500 ∷ []);
  is_reaped = λ s os. os == 8;
  start_kill = λ s os. (if os == 9 then err (Error.io 1) else ok tt, s ++ 600 ∷ []);
  try_wait = λ s os. (false, s ++ 700 ∷ []);
  drop_os = λ s os. (Ending.returned, s ++ (300 + os) ∷ []);
}

abbrev child : ℕ → Child ℕ
child n = record { os = n; pid = 50 + n; kill_on_drop = true }

handed_over-unkilled : handed_over calls (child 9) [] ≡ (none, 500 ∷ 600 ∷ 700 ∷ 309 ∷ [])
unfolding handed_over tree_killed start_killed
handed_over-unkilled = refl

handed_over-killed_example :
    (true ≡ true)
    × (calls.is_reaped (500 ∷ []) 3 ≡ false)
    × ((calls.start_kill (500 ∷ []) 3).0 ≡ ok tt)
    × ((job 3).os ≡ (child 3).os)
    × (53 ≡ (child 3).pid)
unfolding handed_over tree_killed start_killed
handed_over-killed_example =
    handed_over-killed (List ℕ) ℕ ℕ calls (child 3) [] (record { os = 3; pid = 53 }) refl
