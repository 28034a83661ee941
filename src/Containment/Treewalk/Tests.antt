-- ===== src/Containment/Treewalk/Tests.antt =====
-- Runs of the walk, and instances of the theorems about it.
use subprocess.Prelude.{
  ℕ, ◌+◌, true, false, ◌==◌, if◌then◌else◌, List, [], ◌∷◌, Option, some, none, ◌≡◌, refl, loop,
}
use subprocess.Identity.{ProcessId}
use subprocess.Containment.Treewalk.{
  Edge, keeps_token, lookup, entry, attach, visit, scan, round, descendants_with, add_child,
  children_from, children_of_with,
}
use subprocess.Containment.Treewalk.Root.{Included, descendants_with-root}
use subprocess.Containment.Treewalk.Visits.{admits}
use subprocess.Containment.Treewalk.Exact.{Finds, descendants_with_exact}

abbrev process : ℕ → ℕ → ProcessId
process pid start = record { pid = pid; start = start }

-- 10 is the root; 13 is older than the root, and 14 cannot be queried.
abbrev answers : ℕ → Option ProcessId
answers pid =
    if pid == 14
    then none
    else some (process pid (if pid == 13 then 50 else if pid == 11 then 100 else 100 + pid))

abbrev snapshot : List Edge
snapshot =
    (12, 11) ∷ (11, 10) ∷ (13, 10) ∷ (15, 13) ∷ (14, 10) ∷ (11, 10) ∷ (16, 12) ∷ (10, 16) ∷ []

walk_strict : descendants_with (process 10 100) snapshot false answers ≡ some []
unfolding descendants_with round loop scan visit entry lookup attach keeps_token
walk_strict = refl

walk_equal :
    descendants_with (process 10 100) snapshot true answers
    ≡ some (process 11 100 ∷ process 12 112 ∷ process 16 116 ∷ process 10 110 ∷ [])
unfolding descendants_with round loop scan visit entry lookup attach keeps_token
walk_equal = refl

children_of_root : children_of_with (process 10 100) snapshot true answers ≡ process 11 100 ∷ []
unfolding children_of_with children_from add_child keeps_token
children_of_root = refl

descendants_with_exact_example :
    (ids : List ProcessId) × (descendants_with (process 10 100) snapshot true answers ≡ some ids)
    × Finds (process 10 100) true answers snapshot ids
descendants_with_exact_example = descendants_with_exact (process 10 100) snapshot true answers

abbrev answers' : ℕ → Option ProcessId
answers' pid = some (process pid 110)

abbrev cycle : List Edge
cycle = (11, 10) ∷ (10, 11) ∷ []

descendants_with-root_example :
    (ids : List ProcessId) × (descendants_with (process 10 110) cycle true answers' ≡ some ids)
    × Included (process 10 110) ids
unfolding admits keeps_token
descendants_with-root_example =
    descendants_with-root (process 10 110) cycle answers' 11 refl refl (cc) refl refl
