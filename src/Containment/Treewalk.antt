-- ===== src/Containment/Treewalk.antt =====
-- The identity-aware walk over a snapshot of `(pid, ppid)` pairs (src/containment/treewalk.rs).
--
-- A `HashSet` is a list of its elements, a `HashMap` an association list. `resolve` is the argument
-- that the source injects.
pub mod Rounds
pub mod Visits
pub mod Invariant
pub mod Exact
pub mod Root
mod Tests
use subprocess.Prelude.{
  ℕ, ◌+◌, Bool, true, false, not, ◌&&◌, ◌||◌, List, [], ◌∷◌, ◌++◌, Option, none, some, ltb, ◌==◌,
  if◌then◌else◌, length, has, Round, next, halt, loop,
}
use subprocess.Identity.{ProcessId, Resolved, found, gone, unknown}

unfoldable pub keeps_token : ℕ → ℕ → Bool → Bool
keeps_token token anchor allow_equal = ltb anchor token || allow_equal && token == anchor

-- `resolve_or_drop` on the answer of `ProcessId::of`.
unfoldable pub resolve_or_drop : Resolved ProcessId → Option ProcessId
resolve_or_drop (found id) = some id
resolve_or_drop gone = none
resolve_or_drop unknown = none

-- `resolved.entry(pid).or_insert_with(..)`
abbrev pub Memo : Type 0
Memo = List (ℕ × Option ProcessId)

unfoldable pub lookup : ℕ → Memo → Option (Option ProcessId)
lookup pid [] = none
lookup pid ((p, id) ∷ memo) = if p == pid then some id else lookup pid memo

unfoldable pub entry : (ℕ → Option ProcessId) → ℕ → Memo → Option ProcessId × Memo
entry resolve pid memo = elim (lookup pid memo) [
  | some id ↦ (id, memo)
  | none ↦ (resolve pid, (pid, resolve pid) ∷ memo)
]

-- A pid and its ppid.
abbrev pub Edge : Type 0
Edge = ℕ × ℕ

-- The variables of the loop over `pending`.
pub record Scan : Type 0 where
  pub still_pending : List Edge
  pub result : List ProcessId
  pub next_frontier : List ℕ
  pub accepted : List ℕ
  pub resolved : Memo

-- The variables of the loop over the frontiers.
pub record Walk : Type 0 where
  pub result : List ProcessId
  pub frontier : List ℕ
  pub pending : List Edge
  pub accepted : List ℕ
  pub resolved : Memo

abbrev pub opening : Walk → Scan
opening w = record {
  still_pending = [];
  result = w.result;
  next_frontier = [];
  accepted = w.accepted;
  resolved = w.resolved;
}

abbrev pub closing : Scan → Walk
closing sc = record {
  result = sc.result;
  frontier = sc.next_frontier;
  pending = sc.still_pending;
  accepted = sc.accepted;
  resolved = sc.resolved;
}

module _ (root : ProcessId) (allow_equal : Bool) (resolve : ℕ → Option ProcessId) where
  -- The loop's body behind the resolution of the pid.
  unfoldable pub attach : Scan → ℕ → Option ProcessId → Scan
  attach sc pid none = sc
  attach sc pid (some id) =
      if not (keeps_token id.start root.start allow_equal)
      then sc
      else if has sc.accepted pid
      then sc
      else record sc {
        accepted = sc.accepted ++ pid ∷ [];
        result = sc.result ++ id ∷ [];
        next_frontier = sc.next_frontier ++ pid ∷ [];
      }

  unfoldable pub visit : List ℕ → Scan → Edge → Scan
  visit frontier sc (pid, ppid) =
      let (id, memo) = entry resolve pid sc.resolved in
      let attached = attach (record sc { resolved = memo }) pid id in
      if not (has frontier ppid)
      then record sc { still_pending = sc.still_pending ++ (pid, ppid) ∷ [] }
      else if pid == ppid
      then sc
      else attached

  unfoldable pub scan : List ℕ → List Edge → Scan → Scan
  scan frontier [] sc = sc
  scan frontier (e ∷ pending) sc = scan frontier pending (visit frontier sc e)

  pub round_at : Walk → List ℕ → Round Walk (List ProcessId)
  round_at w [] = halt w.result
  round_at w (p ∷ frontier) = next (closing (scan (p ∷ frontier) w.pending (opening w)))

  -- One round of `while !frontier.is_empty()`.
  unfoldable pub round : Walk → Round Walk (List ProcessId)
  unfolding round_at
  round w = round_at w w.frontier

abbrev pub start : ProcessId → List Edge → Walk
start root parents = record {
  result = [];
  frontier = root.pid ∷ [];
  pending = parents;
  accepted = [];
  resolved = [];
}

-- An edge leaves `pending` with every pid that enters a frontier.
abbrev pub remaining : Walk → ℕ
remaining w = length w.pending + length w.frontier

-- `none` would mean that the walk does not end.
unfoldable pub descendants_with :
    ProcessId → List Edge → Bool → (ℕ → Option ProcessId) → Option (List ProcessId)
descendants_with root parents allow_equal resolve =
    loop (round root allow_equal resolve) remaining (start root parents)

-- The variables of the loop of `children_of_with`.
pub record Children : Type 0 where
  pub out : List ProcessId
  pub seen : List ℕ

module _ (parent : ProcessId) (allow_equal : Bool) (resolve : ℕ → Option ProcessId) where
  unfoldable pub add_child : Children → ℕ → Option ProcessId → Children
  add_child cs pid none = cs
  add_child cs pid (some id) =
      if not (keeps_token id.start parent.start allow_equal)
      then cs
      else if has cs.seen pid
      then cs
      else record { out = cs.out ++ id ∷ []; seen = cs.seen ++ pid ∷ [] }

  unfoldable pub children_from : List Edge → Children → Children
  children_from [] cs = cs
  children_from ((pid, ppid) ∷ parents) cs =
      children_from parents
        (if not (ppid == parent.pid) || pid == ppid then cs else add_child cs pid (resolve pid))

unfoldable pub children_of_with :
    ProcessId → List Edge → Bool → (ℕ → Option ProcessId) → List ProcessId
children_of_with parent parents allow_equal resolve =
    (children_from parent allow_equal resolve parents (record { out = []; seen = [] })).out
