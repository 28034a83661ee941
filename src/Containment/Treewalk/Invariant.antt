-- ===== src/Containment/Treewalk/Invariant.antt =====
-- What holds between the visits of the walk.
use subprocess.Prelude.{
  ℕ, Bool, Bool-cases, map-append, true, false, inl, inr, ◌⊎◌, List, [], ◌∷◌, ◌++◌, Option, some,
  map, ◌≡◌, ◌≢◌, arith, has, has-append, Distinct, Distinct-concat,
}
use subprocess.Identity.{ProcessId}
use subprocess.Containment.Treewalk.{Memo, Edge, Scan, visit, scan}
use subprocess.Containment.Treewalk.Visits.{
  has_edge, has_edge-append, has_target, has_target-append, IsFaithful, admits, Settled, deferred,
  passed, taken, visit-Visited,
}

-- The pids that a chain of admissible edges joins to the root's pid.
pub data Descends (root : ProcessId) (allow_equal : Bool) (resolve : ℕ → Option ProcessId)
    (parents : List Edge) : ℕ → Type 0 where
  child :
      {pid : ℕ}
      → has_edge parents pid root.pid ≡ true
      → pid ≢ root.pid
      → admits root allow_equal resolve pid ≡ true
      → Descends root allow_equal resolve parents pid
  deeper :
      {pid ppid : ℕ}
      → Descends root allow_equal resolve parents ppid
      → has_edge parents pid ppid ≡ true
      → pid ≢ ppid
      → admits root allow_equal resolve pid ≡ true
      → Descends root allow_equal resolve parents pid

module _ (root : ProcessId) (allow_equal : Bool) (resolve : ℕ → Option ProcessId)
    (parents : List Edge) (frontier : List ℕ) where
  abbrev Reached : ℕ → Type 0
  Reached p = (p ≡ root.pid) ⊎ Descends root allow_equal resolve parents p

  -- In the loop over `pending`, with the edges `todo` not visited yet.
  pub record Scanned (todo : List Edge) (sc : Scan) : Type 0 where
    pub faithful : IsFaithful resolve sc.resolved
    pub distinct : Distinct sc.accepted
    pub results : map some sc.result ≡ map resolve sc.accepted
    pub sound : (p : ℕ) → has sc.accepted p ≡ true → Descends root allow_equal resolve parents p
    pub next_accepted : (p : ℕ) → has sc.next_frontier p ≡ true → has sc.accepted p ≡ true
    pub front : (p : ℕ) → has frontier p ≡ true → Reached p
    pub known : (a b : ℕ) → has_edge todo a b ≡ true → has_edge parents a b ≡ true
    pub known_pending :
        (a b : ℕ) → has_edge sc.still_pending a b ≡ true → has_edge parents a b ≡ true
    pub kept : (b : ℕ) → has_target sc.still_pending b ≡ true → has frontier b ≡ false
    pub edges :
        (a b : ℕ)
        → has_edge parents a b ≡ true
        → (has_edge todo a b ≡ true)
          ⊎ (has_edge sc.still_pending a b ≡ true)
          ⊎ Settled root allow_equal resolve sc.accepted a b
    pub expanded :
        (p : ℕ)
        → (p ≡ root.pid) ⊎ (has sc.accepted p ≡ true)
        → (has frontier p ≡ true)
          ⊎ (has sc.next_frontier p ≡ true)
          ⊎ ((has_target todo p ≡ false) × (has_target sc.still_pending p ≡ false))

  module _ (pid ppid : ℕ) (todo : List Edge) (sc t : Scan)
      (inv : Scanned ((pid, ppid) ∷ todo) sc) where
    deferred-Scanned :
        has frontier ppid ≡ false
        → t ≡ record sc { still_pending = sc.still_pending ++ (pid, ppid) ∷ [] }
        → Scanned todo t
    deferred-Scanned off e = rw e (record {
      faithful = inv.faithful;
      distinct = inv.distinct;
      results = inv.results;
      sound = inv.sound;
      next_accepted = inv.next_accepted;
      front = inv.front;
      known = λ a b h. inv.known a b (ground arith);
      known_pending = λ a b h. ground (
        arith,
        inv.known a b,
        inv.known_pending a b,
        has_edge-append sc.still_pending ((pid, ppid) ∷ []) a b,
      );
      kept = λ b h.
          ground (arith, inv.kept b, has_target-append sc.still_pending ((pid, ppid) ∷ []) b);
      edges = λ a b h.
          ground (arith, inv.edges a b, has_edge-append sc.still_pending ((pid, ppid) ∷ []) a b);
      expanded = λ p h.
          ground (arith, inv.expanded p, has_target-append sc.still_pending ((pid, ppid) ∷ []) p);
    })

    passed-Scanned :
        (memo : Memo)
        → IsFaithful resolve memo
        → Settled root allow_equal resolve sc.accepted pid ppid
        → t ≡ record sc { resolved = memo }
        → Scanned todo t
    passed-Scanned memo f s e = rw e (record {
      faithful = f;
      distinct = inv.distinct;
      results = inv.results;
      sound = inv.sound;
      next_accepted = inv.next_accepted;
      front = inv.front;
      known = λ a b h. inv.known a b (ground arith);
      known_pending = inv.known_pending;
      kept = inv.kept;
      edges = λ a b h. ground (arith, inv.edges a b);
      expanded = λ p h. ground (arith, inv.expanded p);
    })

    taken-Descends :
        has frontier ppid ≡ true
        → pid ≢ ppid
        → admits root allow_equal resolve pid ≡ true
        → Descends root allow_equal resolve parents pid
    taken-Descends on ne ok =
        let edge : has_edge parents pid ppid ≡ true = inv.known pid ppid (ground arith) in
        elim (inv.front ppid on) [
          | inl r ↦ child (rw r at edge) (rw r at ne) ok
          | inr d ↦ deeper d edge ne ok
        ]

    taken-Scanned :
        (memo : Memo) (id : ProcessId)
        → IsFaithful resolve memo
        → has frontier ppid ≡ true
        → pid ≢ ppid
        → resolve pid ≡ some id
        → admits root allow_equal resolve pid ≡ true
        → has sc.accepted pid ≡ false
        → t ≡ record sc {
          resolved = memo;
          accepted = sc.accepted ++ pid ∷ [];
          result = sc.result ++ id ∷ [];
          next_frontier = sc.next_frontier ++ pid ∷ [];
        }
        → Scanned todo t
    taken-Scanned memo id f on ne resolves ok new e = rw e (record {
      faithful = f;
      distinct = Distinct-concat sc.accepted pid inv.distinct new;
      results = rw (map-append, map-append, inv.results, resolves);
      sound = λ p h. elim (Bool-cases (has sc.accepted p)) [
        | inl old ↦ inv.sound p old
        | inr fresh ↦
            let same : pid ≡ p = ground (arith, has-append sc.accepted (pid ∷ []) p) in
            rw same at (taken-Descends on ne ok)
      ];
      next_accepted = λ p h. ground (
        arith,
        inv.next_accepted p,
        has-append sc.accepted (pid ∷ []) p,
        has-append sc.next_frontier (pid ∷ []) p,
      );
      front = inv.front;
      known = λ a b h. inv.known a b (ground arith);
      known_pending = inv.known_pending;
      kept = inv.kept;
      edges = λ a b h. ground (arith, inv.edges a b, has-append sc.accepted (pid ∷ []) a);
      expanded = λ p h. ground (
        arith,
        inv.expanded p,
        has-append sc.accepted (pid ∷ []) p,
        has-append sc.next_frontier (pid ∷ []) p,
      );
    })

  visit-Scanned :
      (pid ppid : ℕ) (todo : List Edge) (sc : Scan)
      → Scanned ((pid, ppid) ∷ todo) sc
      → Scanned todo (visit root allow_equal resolve frontier sc (pid, ppid))
  visit-Scanned pid ppid todo sc inv =
      elim (visit-Visited root allow_equal resolve frontier sc pid ppid inv.faithful) [
        | deferred off e ↦ deferred-Scanned pid ppid todo sc _ inv off e
        | passed memo f s e ↦ passed-Scanned pid ppid todo sc _ inv memo f s e
        | taken memo id f on ne r ok new e ↦
            taken-Scanned pid ppid todo sc _ inv memo id f on ne r ok new e
      ]

  pub scan-Scanned :
      (todo : List Edge) (sc : Scan)
      → Scanned todo sc
      → Scanned [] (scan root allow_equal resolve frontier todo sc)
  unfolding scan
  scan-Scanned [] sc inv = inv
  scan-Scanned ((pid, ppid) ∷ todo) sc inv =
      scan-Scanned todo _ (visit-Scanned pid ppid todo sc inv)
