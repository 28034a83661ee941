-- ===== src/Containment/Kill/Steps.antt =====
-- Each signal follows a query that found the very identity to be killed.
use subprocess.Prelude.{
  ℕ, ◌≤◌, Bool, true, false, List, [], ◌∷◌, ◌++◌, Option, some, none, ◌≡◌, refl, sym, ap, ◌∙◌,
  arith, if◌then◌else◌, subst,
}
use mathlib.Core.Option
use subprocess.Identity.{
  ProcessId, Resolved, found, gone, unknown, signal_target, max_pid, same_id, same_id-eq,
  signal_target-bounds,
}
use subprocess.Containment.Treewalk.{Edge, resolve_or_drop, descendants_with}
use subprocess.Containment.Treewalk.Rounds.{descendants_with_total}
use subprocess.Containment.Kill.{
  System, KillOutcome, signal_at, kill_answered, kill_by_identity, skip, kill_each, kill_tree,
}

found-eq : (a : ProcessId) (b : ProcessId) → found a ≡ found b → same_id a b ≡ true
found-eq a b h = ground arith

false-none : (o : Option ℕ) → false ≡ true → o ≡ none
false-none o h = ground arith

gone-found : (a : ProcessId) (o : Option ℕ) → gone ≡ found a → o ≡ none
gone-found a o h = ground arith

unknown-found : (a : ProcessId) (o : Option ℕ) → unknown ≡ found a → o ≡ none
unknown-found a o h = ground arith

module _ (S : Type 0) (sys : System S) where
  -- A run over identities, from a state to a state, with the pids that a signal was sent to: at each
  -- identity the system is asked who holds its pid. If the answer is that identity, and the pid names
  -- a single process, the signal goes to it; else nothing is sent.
  pub data Signals : List ProcessId → S → List ℕ → S → Type 0 where
    done : {s : S} → Signals [] s [] s
    skipped :
        {id : ProcessId} {ids : List ProcessId} {s : S} {sent : List ℕ} {t : S}
        → ((sys.query s id.pid).0 ≡ found id → signal_target id.pid ≡ none)
        → Signals ids (sys.query s id.pid).1 sent t
        → Signals (id ∷ ids) s sent t
    signalled :
        {id : ProcessId} {ids : List ProcessId} {s : S} {sent : List ℕ} {t : S}
        → (sys.query s id.pid).0 ≡ found id
        → 1 ≤ id.pid
        → id.pid ≤ max_pid
        → Signals ids (sys.kill (sys.query s id.pid).1 id.pid).1 sent t
        → Signals (id ∷ ids) s (id.pid ∷ sent) t

  target-Signals :
      (id : ProcessId) (ids : List ProcessId) (s : S) (o : Option ℕ) (rest : List ℕ) (t : S)
      → (sys.query s id.pid).0 ≡ found id
      → signal_target id.pid ≡ o
      → Signals ids (signal_at sys (sys.query s id.pid).1 o).left rest t
      → Signals (id ∷ ids) s ((signal_at sys (sys.query s id.pid).1 o).sent ++ rest) t
  unfolding signal_at
  target-Signals id ids s none rest t q e h = Signals.skipped (λ f. e) h
  target-Signals id ids s (some target) rest t q e h =
      let (same, low, high) = signal_target-bounds id.pid target e in
      subst (λ p. Signals (id ∷ ids) s (p ∷ rest) t) (sym same)
        (Signals.signalled q low high
          (subst (λ p. Signals ids (sys.kill (sys.query s id.pid).1 p).1 rest t) same h))

  same-Signals :
      (id : ProcessId) (ids : List ProcessId) (s : S) (live : ProcessId) (rest : List ℕ) (t : S)
      (b : Bool)
      → (sys.query s id.pid).0 ≡ found live
      → same_id live id ≡ b
      → Signals ids
          (if b
            then signal_at sys (sys.query s id.pid).1 (signal_target id.pid)
            else skip sys KillOutcome.already_gone (sys.query s id.pid).1).left
          rest
          t
      → Signals
          (id ∷ ids)
          s
          ((if b
              then signal_at sys (sys.query s id.pid).1 (signal_target id.pid)
              else skip sys KillOutcome.already_gone (sys.query s id.pid).1).sent
            ++ rest)
          t
  same-Signals id ids s live rest t true q e h =
      target-Signals id ids s (signal_target id.pid) rest t (q ∙ ap found (same_id-eq live id e))
        refl h
  same-Signals id ids s live rest t false q e h =
      Signals.skipped (λ f. false-none _ (sym e ∙ found-eq live id (sym q ∙ f))) h

  other-Signals :
      (id : ProcessId) (ids : List ProcessId) (s : S) (answer : Resolved ProcessId) (rest : List ℕ)
      (t : S)
      → (sys.query s id.pid).0 ≡ answer
      → Signals ids (kill_answered sys id answer (sys.query s id.pid).1).left rest t
      → Signals (id ∷ ids) s ((kill_answered sys id answer (sys.query s id.pid).1).sent ++ rest) t
  unfolding kill_answered
  other-Signals id ids s (found live) rest t q h =
      same-Signals id ids s live rest t (same_id live id) q refl h
  other-Signals id ids s gone rest t q h = Signals.skipped (λ f. gone-found id _ (sym q ∙ f)) h
  other-Signals id ids s unknown rest t q h =
      Signals.skipped (λ f. unknown-found id _ (sym q ∙ f)) h

  kill_each-Signals :
      (ids : List ProcessId) (s : S) → Signals ids s (kill_each sys ids s).0 (kill_each sys ids s).1
  unfolding kill_each kill_by_identity
  kill_each-Signals [] s = Signals.done
  kill_each-Signals (id ∷ ids) s =
      other-Signals id ids s (sys.query s id.pid).0 _ _ refl (kill_each-Signals ids _)

  -- What `kill_tree` did, for some list of descendants.
  abbrev pub TreeKilled : (ℕ → Resolved ProcessId) → List Edge → Bool → ProcessId → S → Type 0
  TreeKilled answers parents allow_equal root s =
      (ids : List ProcessId) × (sent : List ℕ) × (left : S) × (descendants_with root parents
          allow_equal (λ pid. resolve_or_drop (answers pid))
        ≡ some ids)
      × (kill_tree sys answers parents allow_equal root s ≡ some (sent, left))
      × Signals (root ∷ ids) s sent left

  -- The tree is killed from the root on, through the list that the walk returns: at each identity the
  -- system is asked again who holds the pid, and a signal is sent if and only if the answer is that
  -- very identity and the pid names a single process.
  pub kill_tree-TreeKilled :
      (answers : ℕ → Resolved ProcessId) (parents : List Edge) (allow_equal : Bool)
      (root : ProcessId) (s : S)
      → TreeKilled answers parents allow_equal root s
  unfolding kill_tree
  kill_tree-TreeKilled answers parents allow_equal root s =
      let (ids, e) =
        descendants_with_total root parents allow_equal (λ pid. resolve_or_drop (answers pid)) in
      (
        ids,
        _,
        _,
        e,
        ap (Option.map (λ ids'. kill_each sys (root ∷ ids') s)) e,
        kill_each-Signals (root ∷ ids) s,
      )
