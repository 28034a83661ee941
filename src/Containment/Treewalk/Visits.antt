-- ===== src/Containment/Treewalk/Visits.antt =====
-- What the walk does with one edge, told apart by outcome.
use subprocess.Prelude.{
  ℕ, Bool, true, false, ◌&&◌, ◌||◌, Bool-cases, Option-cases, inl, inr, ◌⊎◌, List, [], ◌∷◌, ◌++◌,
  Option, some, none, ◌≡◌, ◌≢◌, refl, arith, ap, ◌==◌, has, ==_iff,
}
use subprocess.Identity.{ProcessId}
use subprocess.Containment.Treewalk.{Memo, lookup, Edge, Scan, keeps_token, entry, attach, visit}

abbrev pub has_edge : List Edge → ℕ → ℕ → Bool
has_edge [] a b = false
has_edge ((p, q) ∷ es) a b = a == p && b == q || has_edge es a b

pub has_edge-append :
    (es fs : List Edge) (a b : ℕ) → has_edge (es ++ fs) a b ≡ (has_edge es a b || has_edge fs a b)
has_edge-append [] fs a b = refl
has_edge-append ((p, q) ∷ es) fs a b = ground (arith, has_edge-append es fs a b)

-- The memo holds answers of `resolve`.
abbrev pub IsFaithful : (ℕ → Option ProcessId) → Memo → Type 0
IsFaithful resolve memo = (p : ℕ) (id : Option ProcessId) → lookup p memo ≡ some id → id ≡ resolve p

module _ (resolve : ℕ → Option ProcessId) (pid : ℕ) (memo : Memo)
    (h : IsFaithful resolve memo) where
  entry-eq-resolve : (entry resolve pid memo).0 ≡ resolve pid
  unfolding entry
  entry-eq-resolve = elim (Option-cases (lookup pid memo)) [
    | inl e ↦ rw (e, entry)
    | inr (id, e) ↦ rw (e, entry) (h pid id e)
  ]

  entry-IsFaithful : IsFaithful resolve (entry resolve pid memo).1
  unfolding entry lookup
  entry-IsFaithful p id e = ground (arith, h p id)

module _ (root : ProcessId) (allow_equal : Bool) (resolve : ℕ → Option ProcessId) where
  -- The pid resolves to a process that is no impostor.
  unfoldable pub admits : ℕ → Bool
  admits pid = elim (resolve pid) [
    | none ↦ false
    | some id ↦ keeps_token id.start root.start allow_equal
  ]

  -- Nothing is left to do for the edge of `a` to `b`.
  abbrev pub Settled : List ℕ → ℕ → ℕ → Type 0
  Settled accepted a b = (a ≡ b) ⊎ (admits a ≡ false) ⊎ (has accepted a ≡ true)

  pub data Visited (frontier : List ℕ) (sc : Scan) (pid ppid : ℕ) (t : Scan) : Type 0 where
    deferred :
        has frontier ppid ≡ false
        → t ≡ record sc { still_pending = sc.still_pending ++ (pid, ppid) ∷ [] }
        → Visited frontier sc pid ppid t
    passed :
        (memo : Memo)
        → IsFaithful resolve memo
        → Settled sc.accepted pid ppid
        → t ≡ record sc { resolved = memo }
        → Visited frontier sc pid ppid t
    taken :
        (memo : Memo) (id : ProcessId)
        → IsFaithful resolve memo
        → has frontier ppid ≡ true
        → pid ≢ ppid
        → resolve pid ≡ some id
        → admits pid ≡ true
        → has sc.accepted pid ≡ false
        → t ≡ record sc {
          resolved = memo;
          accepted = sc.accepted ++ pid ∷ [];
          result = sc.result ++ id ∷ [];
          next_frontier = sc.next_frontier ++ pid ∷ [];
        }
        → Visited frontier sc pid ppid t

  attach-Visited :
      (frontier : List ℕ) (sc : Scan) (pid ppid : ℕ) (memo : Memo)
      → IsFaithful resolve memo
      → has frontier ppid ≡ true
      → pid ≢ ppid
      → Visited frontier sc pid ppid
          (attach root allow_equal resolve (record sc { resolved = memo }) pid (resolve pid))
  attach-Visited frontier sc pid ppid memo f on ne = elim (Option-cases (resolve pid)) [
    | inl e ↦
        passed memo f (inr (inl (unfold admits in rw (e, admits)))) (rw e (unfold attach in refl))
    | inr (id, e) ↦ elim (Bool-cases (keeps_token id.start root.start allow_equal)) [
      | inr low ↦
          passed memo f (inr (inl (unfold admits in rw (e, admits) low)))
            (rw e (unfold attach in rw low))
      | inl kept ↦ elim (Bool-cases (has sc.accepted pid)) [
        | inl old ↦ passed memo f (inr (inr old)) (rw e (unfold attach in rw (kept, old)))
        | inr new ↦
            taken memo id f on ne e (unfold admits in rw (e, admits) kept) new
              (rw e (unfold attach in rw (kept, new)))
      ]
    ]
  ]

  visit_other :
      (frontier : List ℕ) (sc : Scan) (pid ppid : ℕ)
      → IsFaithful resolve sc.resolved
      → has frontier ppid ≡ true
      → (pid == ppid) ≡ false
      → visit root allow_equal resolve frontier sc (pid, ppid)
        ≡ attach root allow_equal resolve
            (record sc { resolved = (entry resolve pid sc.resolved).1 })
            pid
            (resolve pid)
  unfolding visit
  visit_other frontier sc pid ppid h on other =
      rw (on, other)
        (ap (attach root allow_equal resolve _ pid) (entry-eq-resolve resolve pid sc.resolved h))

  pub visit-Visited :
      (frontier : List ℕ) (sc : Scan) (pid ppid : ℕ)
      → IsFaithful resolve sc.resolved
      → Visited frontier sc pid ppid (visit root allow_equal resolve frontier sc (pid, ppid))
  visit-Visited frontier sc pid ppid h = elim (Bool-cases (has frontier ppid)) [
    | inr off ↦ deferred off (unfold visit in rw off)
    | inl on ↦ elim (Bool-cases (pid == ppid)) [
      | inl self ↦
          passed sc.resolved h (inl ((==_iff pid ppid).0 self)) (unfold visit in rw (on, self))
      | inr other ↦
          let step = visit_other frontier sc pid ppid h on other in
          let ne : pid ≢ ppid = ground arith in
          rw step (
            attach-Visited frontier sc pid ppid (entry resolve pid sc.resolved).1
              (entry-IsFaithful resolve pid sc.resolved h) on ne)
    ]
  ]

-- Some edge has this ppid.
abbrev pub has_target : List Edge → ℕ → Bool
has_target [] b = false
has_target ((p, q) ∷ es) b = b == q || has_target es b

pub has_target-append :
    (es fs : List Edge) (b : ℕ) → has_target (es ++ fs) b ≡ (has_target es b || has_target fs b)
has_target-append [] fs b = refl
has_target-append ((p, q) ∷ es) fs b = ground (arith, has_target-append es fs b)

pub has_edge-has_target :
    (es : List Edge) (a b : ℕ) → has_edge es a b ≡ true → has_target es b ≡ true
has_edge-has_target [] a b h = cc
has_edge-has_target ((p, q) ∷ es) a b h = ground (arith, has_edge-has_target es a b)
