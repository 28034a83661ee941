-- ===== src/Containment/Treewalk/Rounds.antt =====
-- The walk ends: every pid that enters a frontier takes an edge out of `pending`.
use subprocess.Prelude.{
  ℕ, suc, ◌+◌, ◌<◌, ◌≤◌, Bool, List, [], ◌∷◌, Option, some, none, ◌≡◌, refl, arith, ap, length,
  length-append, next, loop_total,
}
use subprocess.Identity.{ProcessId}
use subprocess.Containment.Treewalk.{
  Edge, Scan, Walk, opening, entry, attach, visit, scan, round_at, round, start, remaining,
  descendants_with,
}

module _ (root : ProcessId) (allow_equal : Bool) (resolve : ℕ → Option ProcessId) where
  abbrev held : Scan → ℕ
  held sc = length sc.still_pending + length sc.next_frontier

  attach-held :
      (sc : Scan) (pid : ℕ) (id : Option ProcessId)
      → held (attach root allow_equal resolve sc pid id) ≤ suc (held sc)
  unfolding attach
  attach-held sc pid none = omega arith
  attach-held sc pid (some id) = ground (arith, length-append sc.next_frontier (pid ∷ []))

  visit-held :
      (frontier : List ℕ) (sc : Scan) (e : Edge)
      → held (visit root allow_equal resolve frontier sc e) ≤ suc (held sc)
  unfolding visit
  visit-held frontier sc (pid, ppid) =
      let (id, memo) = entry resolve pid sc.resolved in
      ground (
        arith,
        attach-held (record sc { resolved = memo }) pid id,
        length-append sc.still_pending ((pid, ppid) ∷ []),
      )

  scan-held :
      (frontier : List ℕ) (pending : List Edge) (sc : Scan)
      → held (scan root allow_equal resolve frontier pending sc) ≤ length pending + held sc
  unfolding scan
  scan-held frontier [] sc = omega arith
  scan-held frontier (e ∷ pending) sc = omega (
    arith,
    scan-held frontier pending (visit root allow_equal resolve frontier sc e),
    visit-held frontier sc e,
  )

  round_at-lowers :
      (w t : Walk) (f : List ℕ)
      → w.frontier ≡ f
      → round_at root allow_equal resolve w f ≡ next t
      → remaining t < remaining w
  unfolding round_at
  round_at-lowers w t [] e h = cc
  round_at-lowers w t (p ∷ f) e h =
      let shrunk = scan-held (p ∷ f) w.pending (opening w) in
      let size : length w.frontier ≡ suc (length f) = ap length e in ground (arith, shrunk, size)

  pub round-lowers :
      (w t : Walk) → round root allow_equal resolve w ≡ next t → remaining t < remaining w
  unfolding round
  round-lowers w t h = round_at-lowers w t w.frontier refl h

pub descendants_with_total :
    (root : ProcessId) (parents : List Edge) (allow_equal : Bool) (resolve : ℕ → Option ProcessId)
    → (ids : List ProcessId) × (descendants_with root parents allow_equal resolve ≡ some ids)
unfolding descendants_with
descendants_with_total root parents allow_equal resolve =
    loop_total (round root allow_equal resolve) remaining (round-lowers root allow_equal resolve)
      (start root parents)
