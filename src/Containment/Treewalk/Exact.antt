-- ===== src/Containment/Treewalk/Exact.antt =====
-- The walk finds exactly the descendants.
use subprocess.Prelude.{
  ℕ, Bool, true, false, inl, inr, ◌⊎◌, List, [], ◌∷◌, Option, some, map, ◌≡◌, ◌≢◌, ◌↔◌, refl, arith,
  has, subst, Distinct, next, halt, loop_inv, ap,
}
use subprocess.Identity.{ProcessId}
use subprocess.Containment.Treewalk.{
  lookup, Edge, Scan, Walk, opening, closing, scan, round_at, round, start, remaining,
  descendants_with,
}
use subprocess.Containment.Treewalk.Rounds.{descendants_with_total}
use subprocess.Containment.Treewalk.Visits.{
  has_edge, has_target, has_edge-has_target, IsFaithful, admits, Settled,
}
use subprocess.Containment.Treewalk.Invariant.{Descends, child, deeper, Scanned, scan-Scanned}

module _ (root : ProcessId) (allow_equal : Bool) (resolve : ℕ → Option ProcessId)
    (parents : List Edge) where
  abbrev Chain : ℕ → Type 0
  Chain = Descends root allow_equal resolve parents

  -- Between two rounds.
  record Walked (w : Walk) : Type 0 where
    faithful : IsFaithful resolve w.resolved
    distinct : Distinct w.accepted
    results : map some w.result ≡ map resolve w.accepted
    sound : (p : ℕ) → has w.accepted p ≡ true → Chain p
    front : (p : ℕ) → has w.frontier p ≡ true → (p ≡ root.pid) ⊎ Chain p
    known : (a b : ℕ) → has_edge w.pending a b ≡ true → has_edge parents a b ≡ true
    edges :
        (a b : ℕ)
        → has_edge parents a b ≡ true
        → (has_edge w.pending a b ≡ true) ⊎ Settled root allow_equal resolve w.accepted a b
    expanded :
        (p : ℕ)
        → (p ≡ root.pid) ⊎ (has w.accepted p ≡ true)
        → (has w.frontier p ≡ true) ⊎ (has_target w.pending p ≡ false)

  Walked-start : Walked (start root parents)
  unfolding lookup
  Walked-start = record {
    faithful = λ p id e. cc e;
    distinct = tt;
    results = refl;
    sound = λ p h. cc h;
    front = λ p h. inl (ground arith);
    known = λ a b h. h;
    edges = λ a b h. inl h;
    expanded = λ p h. inl (ground arith);
  }

  Scanned-opening :
      (w : Walk)
      → Walked w
      → Scanned root allow_equal resolve parents w.frontier w.pending (opening w)
  Scanned-opening w h = record {
    faithful = h.faithful;
    distinct = h.distinct;
    results = h.results;
    sound = h.sound;
    next_accepted = λ p e. cc e;
    front = h.front;
    known = h.known;
    known_pending = λ a b e. cc e;
    kept = λ b e. cc e;
    edges = λ a b e. ground (arith, h.edges a b);
    expanded = λ p e. ground (arith, h.expanded p);
  }

  Walked-closing :
      (f : List ℕ) (sc : Scan)
      → Scanned root allow_equal resolve parents f [] sc
      → Walked (closing sc)
  Walked-closing f sc h = record {
    faithful = h.faithful;
    distinct = h.distinct;
    results = h.results;
    sound = h.sound;
    front = λ p e. inr (h.sound p (h.next_accepted p e));
    known = h.known_pending;
    edges = λ a b e. ground (arith, h.edges a b);
    expanded = λ p e. ground (arith, h.expanded p, h.kept p);
  }

  round_at-Walked :
      (w t : Walk) (f : List ℕ)
      → w.frontier ≡ f
      → Walked w
      → round_at root allow_equal resolve w f ≡ next t
      → Walked t
  unfolding round_at
  round_at-Walked w t [] e h p = cc p
  round_at-Walked w t (x ∷ f) e h p =
      let opened : Scanned root allow_equal resolve parents (x ∷ f) w.pending (opening w) =
        subst (λ g. Scanned root allow_equal resolve parents g w.pending (opening w)) e
          (Scanned-opening w h) in
      let closed : closing (scan root allow_equal resolve (x ∷ f) w.pending (opening w)) ≡ t =
        cc p in
      subst Walked closed (
        Walked-closing (x ∷ f) _
          (scan-Scanned root allow_equal resolve parents (x ∷ f) w.pending (opening w) opened))

  -- With no frontier left, a chain cannot leave the accepted pids.
  accepted_step :
      (w : Walk) (a b : ℕ)
      → Walked w
      → w.frontier ≡ []
      → (b ≡ root.pid) ⊎ (has w.accepted b ≡ true)
      → has_edge parents a b ≡ true
      → a ≢ b
      → admits root allow_equal resolve a ≡ true
      → has w.accepted a ≡ true
  accepted_step w a b h e r edge ne ok =
      let idle : has w.frontier b ≡ false = ap (λ f. has f b) e in
      ground (arith, h.edges a b edge, h.expanded b r, has_edge-has_target w.pending a b)

  accepted_all : (w : Walk) {p : ℕ} → Walked w → w.frontier ≡ [] → Chain p → has w.accepted p ≡ true
  accepted_all w h e (child {pid} edge ne ok) =
      accepted_step w pid root.pid h e (inl refl) edge ne ok
  accepted_all w h e (deeper {pid} {ppid} d edge ne ok) =
      accepted_step w pid ppid h e (inr (accepted_all w h e d)) edge ne ok

  -- The result lists the processes that distinct pids resolve to, and these pids are the
  -- descendants.
  abbrev pub Finds : List ProcessId → Type 0
  Finds ids =
      (pids : List ℕ) × (map some ids ≡ map resolve pids)
      × Distinct pids
      × ((p : ℕ) → (has pids p ≡ true) ↔ Chain p)

  round_at-Finds :
      (w : Walk) (f : List ℕ) (ids : List ProcessId)
      → w.frontier ≡ f
      → Walked w
      → round_at root allow_equal resolve w f ≡ halt ids
      → Finds ids
  unfolding round_at
  round_at-Finds w [] ids e h p =
      let same : w.result ≡ ids = cc p in
      subst Finds same (w.accepted, h.results, h.distinct, λ q. (h.sound q, accepted_all w h e))
  round_at-Finds w (x ∷ f) ids e h p = cc p

-- The walk returns a list of identities such that, for some pids without repetition, the list is
-- what `resolve` answers for these pids in order, and these pids are exactly those that a chain of
-- `(pid, ppid)` pairs of the snapshot joins to the root's pid, where every pid on the chain
-- differs from its ppid and resolves to a process whose start token passes the token rule.
pub descendants_with_exact :
    (root : ProcessId) (parents : List Edge) (allow_equal : Bool) (resolve : ℕ → Option ProcessId)
    → (ids : List ProcessId) × (descendants_with root parents allow_equal resolve ≡ some ids)
      × Finds root allow_equal resolve parents ids
unfolding descendants_with round
descendants_with_exact root parents allow_equal resolve =
    let (ids, e) = descendants_with_total root parents allow_equal resolve in
    (
      ids,
      e,
      loop_inv (round root allow_equal resolve) (Walked root allow_equal resolve parents)
          (Finds root allow_equal resolve parents)
          (λ w t h p. round_at-Walked root allow_equal resolve parents w t w.frontier refl h p)
          (λ w r h p. round_at-Finds root allow_equal resolve parents w w.frontier r refl h p)
          remaining (start root parents) (Walked-start root allow_equal resolve parents) e,
    )
