-- ===== src/Containment/Treewalk/Root.antt =====
-- Whether the walk can come back to its root.
use subprocess.Prelude.{
  ◌∷◌, [], map, has, Bool-cases, inl, inr, ap, subst, ◌==◌, ℕ, Bool, true, false, List, Option,
  some, ◌≡◌, ◌≢◌, sym, ◌∙◌, arith,
}
use subprocess.Identity.{ProcessId}
use subprocess.Containment.Treewalk.{Edge, keeps_token, descendants_with}
use subprocess.Containment.Treewalk.Exact.{descendants_with_exact}
use subprocess.Containment.Treewalk.Visits.{has_edge, admits}
use subprocess.Containment.Treewalk.Invariant.{Descends, child, deeper}

Descends-admits :
    {root : ProcessId} {allow_equal : Bool} {resolve : ℕ → Option ProcessId} {parents : List Edge}
    {p : ℕ}
    → Descends root allow_equal resolve parents p
    → admits root allow_equal resolve p ≡ true
Descends-admits (child edge ne ok) = ok
Descends-admits (deeper d edge ne ok) = ok

admits_root :
    (root : ProcessId) (allow_equal : Bool) (resolve : ℕ → Option ProcessId)
    → resolve root.pid ≡ some root
    → admits root allow_equal resolve root.pid ≡ allow_equal
unfolding admits keeps_token
admits_root root allow_equal resolve h = simp (h, admits) (ground arith)

-- Under the strict token rule the root's own pid is no descendant, if it still resolves to the
-- root, whatever the snapshot says.
pub not-Descends-root :
    (root : ProcessId) (parents : List Edge) (resolve : ℕ → Option ProcessId)
    → resolve root.pid ≡ some root
    → ¬ Descends root false resolve parents root.pid
not-Descends-root root parents resolve h d =
    let e : false ≡ true = sym (admits_root root false resolve h) ∙ Descends-admits d in cc e

Descends-root :
    (root : ProcessId) (parents : List Edge) (resolve : ℕ → Option ProcessId) (p : ℕ)
    → has_edge parents p root.pid ≡ true
    → has_edge parents root.pid p ≡ true
    → p ≢ root.pid
    → admits root true resolve p ≡ true
    → resolve root.pid ≡ some root
    → Descends root true resolve parents root.pid
Descends-root root parents resolve p down up ne ok h =
    deeper (child down ne ok) up (λ e. ne (sym e)) (admits_root root true resolve h)

-- An identity is in a list.
pub data Included (id : ProcessId) : List ProcessId → Type 0 where
  here : {ids : List ProcessId} → Included id (id ∷ ids)
  there : {other : ProcessId} {ids : List ProcessId} → Included id ids → Included id (other ∷ ids)

has-Included :
    (resolve : ℕ → Option ProcessId) (p : ℕ) (id : ProcessId) (pids : List ℕ) (ids : List ProcessId)
    → resolve p ≡ some id
    → map some ids ≡ map resolve pids
    → has pids p ≡ true
    → Included id ids
has-Included resolve p id [] ids r m h = absurd (cc h)
has-Included resolve p id (q ∷ pids) [] r m h = absurd (cc m)
has-Included resolve p id (q ∷ pids) (x ∷ ids) r m h =
    let first : some x ≡ resolve q = cc m in
    let rest : map some ids ≡ map resolve pids = cc m in
    elim (Bool-cases (q == p)) [
      | inl b ↦
          let same : q ≡ p = ground (arith, b) in
          let both : some x ≡ some id = first ∙ ap resolve same ∙ r in
          let equal : x ≡ id = cc both in
          subst (λ y. Included id (y ∷ ids)) (sym equal) Included.here
      | inr b ↦ Included.there (has-Included resolve p id pids ids r rest (ground (arith, b, h)))
    ]

-- Under the rule that allows equal tokens the result of the walk holds the root itself, if the snapshot
-- makes the root a child of one of its children that the rule admits, and the root's pid still resolves to
-- the root.
pub descendants_with-root :
    (root : ProcessId) (parents : List Edge) (resolve : ℕ → Option ProcessId) (p : ℕ)
    → has_edge parents p root.pid ≡ true
    → has_edge parents root.pid p ≡ true
    → p ≢ root.pid
    → admits root true resolve p ≡ true
    → resolve root.pid ≡ some root
    → (ids : List ProcessId) × (descendants_with root parents true resolve ≡ some ids)
      × Included root ids
descendants_with-root root parents resolve p down up ne ok h =
    let (ids, e, finds) = descendants_with_exact root parents true resolve in
    let (pids, found, distinct, exact) = finds in
    let held : has pids root.pid ≡ true =
      (exact root.pid).1 (Descends-root root parents resolve p down up ne ok h) in
    (ids, e, has-Included resolve root.pid root pids ids h found held)
