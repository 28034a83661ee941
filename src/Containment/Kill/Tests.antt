-- ===== src/Containment/Kill/Tests.antt =====
-- A kill of a tree in which one pid has been given to another process since the walk.
use subprocess.Prelude.{
  ℕ, ◌+◌, true, ◌==◌, if◌then◌else◌, List, [], ◌∷◌, some, none, ◌≡◌, refl, loop,
}
use subprocess.Identity.{ProcessId, Resolved, found, signal_target}
use subprocess.Containment.Treewalk.{
  Edge, keeps_token, lookup, entry, attach, visit, scan, round, descendants_with, resolve_or_drop,
}
use subprocess.Containment.Kill.{
  System, kill_tree, kill_each, kill_by_identity, kill_answered, signal_at, outcome_of,
}
use subprocess.Containment.Kill.Steps.{TreeKilled, kill_tree-TreeKilled}

-- The state counts the signals. Pid 12 is another process by the time that it is to be killed.
abbrev counter : System ℕ
counter = record {
  query = λ s pid. (found (record { pid = pid; start = if pid == 12 then 900 else 100 + pid }), s);
  kill = λ s target. (none, s + 1);
}

abbrev answers : ℕ → Resolved ProcessId
answers pid = found (record { pid = pid; start = 100 + pid })

abbrev root : ProcessId
root = record { pid = 10; start = 110 }

abbrev snapshot : List Edge
snapshot = (12, 11) ∷ (11, 10) ∷ (13, 12) ∷ []

kill_tree-recycled : kill_tree counter answers snapshot true root 0 ≡ some (10 ∷ 11 ∷ 13 ∷ [], 3)
unfolding kill_tree kill_each kill_by_identity kill_answered signal_at signal_target outcome_of
    descendants_with round loop scan visit entry lookup attach keeps_token resolve_or_drop
kill_tree-recycled = refl

kill_tree-TreeKilled_example : TreeKilled ℕ counter answers snapshot true root 0
kill_tree-TreeKilled_example = kill_tree-TreeKilled ℕ counter answers snapshot true root 0
