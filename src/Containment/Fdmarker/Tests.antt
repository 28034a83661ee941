-- ===== src/Containment/Fdmarker/Tests.antt =====
-- A sweep over a tree of two: the root, and a process that only the marker ties to it.
use subprocess.Prelude.{
  ℕ, ◌+◌, false, ◌==◌, if◌then◌else◌, [], ◌∷◌, some, none, ◌≡◌, arith, Result, ok, pos, magnitude,
}
use subprocess.Errors.{Error, Done}
use subprocess.Identity.{ProcessId, Resolved, Liveness}
use subprocess.Containment.Group.{Answer, GroupSystem, Formats}
use subprocess.Containment.Fdmarker.{PipeFdInfo, ProcSystem}
use subprocess.Containment.Fdmarker.Sweep.{Marker, MarkerSystem, is_in}
use subprocess.Containment.Fdmarker.Pass.{hard_kill}
use subprocess.Containment.Fdmarker.Ends.{Answers, hard_kill_ends}

abbrev info : ℕ → PipeFdInfo
info handle = record { fi_status = 0; pipe_handle = handle; pipe_peerhandle = 0 }

-- Pid 30 has the marker's pipe, 7, at descriptor 5. Our own read end, 3, is pipe 99.
abbrev procs : ProcSystem ℕ
procs = record {
  proc_pidfdinfo = λ s pid fd. ((some (info (if pid == 30 then 7 else 99)), none), s);
  proc_pidinfo = λ s pid size.
      ((pos (if pid == 30 then 8 else 0), record { proc_fd = 5; proc_fdtype = 6 } ∷ [], none), s);
}

abbrev formats : Formats
formats = record { decimal = λ n. n ∷ []; integer = λ n. magnitude n ∷ []; signal = λ sig. [] }

abbrev group : GroupSystem ℕ ℕ
group = record {
  members = λ s pgid. (ok [], s);
  is_alive = λ s id. (Liveness.dead, s);
  query = λ s pid. (Resolved.gone, s);
  kill = λ s pid sig. (Answer.delivered, s);
  killpg = λ s pgid sig. (Answer.delivered, s);
}

abbrev process : ℕ → ProcessId
process pid = record { pid = pid; start = 100 }

-- Three pids answer; the state counts the signals.
abbrev answer : ℕ → Resolved ProcessId
answer pid =
    if pid == 20
    then Resolved.found (process 20)
    else if pid == 30
    then Resolved.found (process 30)
    else Resolved.gone

abbrev host : MarkerSystem ℕ ℕ
host = record {
  procs = procs;
  snapshot = λ s. ((20 ∷ 30 ∷ [], (20, 10) ∷ (30, 1) ∷ []), s);
  answers = λ s pid. answer pid;
  query = λ s pid. (answer pid, s);
  kills = λ sig. record { query = λ s pid. (answer pid, s); kill = λ s target. (none, s + 1) };
  group = group;
  getpgid = λ s pid. (none, s);
  own_pid = 10;
  formats = formats;
  display = λ e. [];
  hex = λ n. n ∷ [];
  other = λ t. 1;
}

abbrev marker : Marker
marker = record {
  read = 3;
  handle = 7;
  read_handle = 99;
  root = some (process 20);
  root_denied = false;
  pgid = none;
}

Answers-Known : Answers (process 20 ∷ process 30 ∷ []) host marker
unfolding is_in
Answers-Known = record {
  walked = λ s pid id h. ground arith;
  queried = λ s pid id h. ground arith;
  rooted = λ id h. ground arith;
}

hard_kill_ends_example : (r : Result Done (Error ℕ) × ℕ) × (hard_kill host marker 3 0 ≡ some r)
hard_kill_ends_example =
    hard_kill_ends ℕ ℕ (process 20 ∷ process 30 ∷ []) host marker Answers-Known 0
