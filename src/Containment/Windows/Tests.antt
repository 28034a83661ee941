-- ===== src/Containment/Windows/Tests.antt =====
-- A job of two members, of which one exits in the first wait and both are gone at the second listing.
use subprocess.Prelude.{
  ℕ, suc, ◌+◌, ◌-◌, ◌==◌, leb, false, if◌then◌else◌, [], ◌∷◌, some, none, ok, ◌≡◌, refl, arith,
  loop,
}
use subprocess.Containment.Dispatch.{TreeDrain}
use subprocess.Containment.Windows.{
  opened, invalid, at, listed, refused, JobSystem, budget, wait_ms, list_answered, list_round,
  query_job_pid_list, confirmed, open_answered, open_member, open_members, close_all, wait_answered,
  watched, watch_members, drain_listed, drain_answered, drain_polled, drain_round, drain,
}
use subprocess.Containment.Windows.Balance.{Counts, drain-held}
use subprocess.Containment.Windows.Drain.{Verdict, drain-Verdict}

-- The state is the number of waits so far and that of open handles. A hundred members are told of first.
abbrev host : JobSystem (ℕ × ℕ) ℕ ℕ
host = record {
  cancelled = λ s. (false, s);
  query_list = λ s capacity. (
    if leb 100 capacity then listed (if s.0 == 0 then 7 ∷ 8 ∷ 9 ∷ [] else []) else refused 100 234,
    s,
  );
  open_process = λ s pid. if pid == 8 then (invalid, s) else (opened pid, (s.0, suc s.1));
  in_job = λ s h. (ok (h == 7), s);
  close = λ s h. (s.0, s.1 - 1);
  remaining = λ s. (none, s);
  wait_any = λ s hs cancel ms. (at 0, (s.0 + 1, s.1));
}

drained : drain host false 5 (0, 3) ≡ some (ok TreeDrain.all_members_exited, (1, 3))
unfolding drain drain_round drain_polled drain_answered query_job_pid_list loop list_round
    list_answered drain_listed watch_members budget open_members open_member open_answered confirmed
    watched wait_ms wait_answered close_all
drained = refl

abbrev held : ℕ × ℕ → ℕ
held s = s.1

host-Counts : Counts (ℕ × ℕ) ℕ ℕ host held
host-Counts = record {
  of_cancelled = λ s. refl;
  of_query = λ s capacity. refl;
  of_opened = λ s pid h q. ground arith;
  of_invalid = λ s pid q. ground arith;
  of_failed = λ s pid e q. ground arith;
  of_in_job = λ s h. refl;
  of_close = λ s h n e. omega (arith, e);
  of_remaining = λ s. refl;
  of_wait = λ s hs cancel ms. refl;
}

drain-held_example : held (1, 3) ≡ held (0, 3)
unfolding drain drain_round drain_polled drain_answered query_job_pid_list loop list_round
    list_answered drain_listed watch_members budget open_members open_member open_answered confirmed
    watched wait_ms wait_answered close_all
drain-held_example =
    drain-held (ℕ × ℕ) ℕ ℕ host held host-Counts false 5 (0, 3)
      (ok TreeDrain.all_members_exited, (1, 3)) refl

drain-Verdict_example : Verdict (ℕ × ℕ) ℕ ℕ host false (ok TreeDrain.all_members_exited)
unfolding drain drain_round drain_polled drain_answered query_job_pid_list loop list_round
    list_answered drain_listed watch_members budget open_members open_member open_answered confirmed
    watched wait_ms wait_answered close_all
drain-Verdict_example =
    drain-Verdict (ℕ × ℕ) ℕ ℕ host false 5 (0, 3) (ok TreeDrain.all_members_exited, (1, 3)) refl
