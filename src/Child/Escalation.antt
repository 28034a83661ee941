-- ===== src/Child/Escalation.antt =====
-- What the shutdowns of a child come to (src/child/graceful.rs).
use subprocess.Prelude.{
  ℕ, Bool, true, false, ◌⊎◌, inl, inr, Option, some, none, Result, ok, err, ◌≡◌, refl, ap, sym,
  subst, ◌∙◌, Bool-cases,
}
use subprocess.Errors.{Error, Done}
use subprocess.Containment.Dispatch.{
  TreeDrain, reports_drain, permits_skipping_sweep, require_contained, is_actionable, no_mechanism,
}
use subprocess.Child.{Child, ChildSystem, wait, kill_tree, terminate_tree, drained_within, guarded}
use subprocess.Child.Shutdown.{
  is_held, reap_after, seen_root, watch_root, seen_tree, watch_tree, reap, after_sweep, sweep,
  watch_and_sweep, tree_signalled, terminate_and_sweep, tree_guarded, graceful_shutdown_tree,
}

module _ {S : Type 0} {L : Type 0} {J : Type 0} {I : Type 0} {X : Type 0}
    (sys : ChildSystem S L J I X) (child : Child L J) where
  -- The tree is clear: it was seen to drain within the grace, by a verdict that speaks for all its
  -- members, or the sweep behind the watch succeeded. The state is the one that is left.
  pub data Cleared (grace : ℕ) (s : S) : S → Type 0 where
    drained :
        (d : TreeDrain)
        → reports_drain child.containment ≡ true
        → (drained_within sys child grace s).0 ≡ ok d
        → permits_skipping_sweep d ≡ true
        → Cleared grace s (drained_within sys child grace s).1
    swept :
        (kill_tree sys child (watch_tree sys child grace s).1).0 ≡ ok tt
        → Cleared grace s (kill_tree sys child (watch_tree sys child grace s).1).1

  -- An error of a shutdown that has sent its signals, with the state before the watch.
  pub data Failed (grace : ℕ) (s : S) (e : Error I) : Type 0 where
    unswept : (kill_tree sys child (watch_tree sys child grace s).1).0 ≡ err e → Failed grace s e
    unreaped : (u : S) → Cleared grace s u → (wait sys child u).0 ≡ err e → Failed grace s e
    unwatched :
        (u : S) (x : X)
        → Cleared grace s u
        → (wait sys child u).0 ≡ ok x
        → (watch_tree sys child grace s).0.watch_err ≡ some e
        → Failed grace s e

  -- What a result means.
  abbrev Ends : ℕ → S → Result X (Error I) → Type 0
  Ends grace s (ok x) = (u : S) × Cleared grace s u × ((wait sys child u).0 ≡ ok x)
  Ends grace s (err e) = Failed grace s e

  reap_after-Ends :
      (grace : ℕ) (s : S) (u : S) (w : Option (Error I)) (status : Result X (Error I))
      → Cleared grace s u
      → (watch_tree sys child grace s).0.watch_err ≡ w
      → (wait sys child u).0 ≡ status
      → Ends grace s (reap_after sys child w status)
  unfolding reap_after
  reap_after-Ends grace s u none (ok x) c e q = (u, c, q)
  reap_after-Ends grace s u (some o) (ok x) c e q = Failed.unwatched u x c q e
  reap_after-Ends grace s u none (err o) c e q = Failed.unreaped u c q
  reap_after-Ends grace s u (some p) (err o) c e q = Failed.unreaped u c q

  reap-Ends :
      (grace : ℕ) (s : S) (u : S)
      → Cleared grace s u
      → Ends grace s (reap sys child (watch_tree sys child grace s).0.watch_err u).0
  unfolding reap
  reap-Ends grace s u c = reap_after-Ends grace s u _ _ c refl refl

  swept-Ends :
      (grace : ℕ) (s : S) (answer : Result Done (Error I))
      → (kill_tree sys child (watch_tree sys child grace s).1).0 ≡ answer
      → Ends grace s
          (after_sweep sys child
            (watch_tree sys child grace s).0
            answer
            (kill_tree sys child (watch_tree sys child grace s).1).1).0
  unfolding after_sweep
  swept-Ends grace s (ok done) q = reap-Ends grace s _ (Cleared.swept q)
  swept-Ends grace s (err e) q = Failed.unswept q

  seen_root-undrained :
      (answer : Result Bool (Error I)) → (seen_root sys child answer).drained ≡ false
  unfolding seen_root
  seen_root-undrained (ok exited) = refl
  seen_root-undrained (err e) = refl

  watch_root-undrained : (timeout : ℕ) (s : S) → (watch_root sys child timeout s).0.drained ≡ false
  unfolding watch_root
  watch_root-undrained timeout s = seen_root-undrained _

  seen_tree-Cleared :
      (grace : ℕ) (s : S) (answer : Result TreeDrain (Error I))
      → reports_drain child.containment ≡ true
      → (drained_within sys child grace s).0 ≡ answer
      → (seen_tree sys child answer (drained_within sys child grace s).1).0.drained ≡ true
      → Cleared grace s (seen_tree sys child answer (drained_within sys child grace s).1).1
  unfolding seen_tree
  seen_tree-Cleared grace s (ok verdict) r q h =
      elim (Bool-cases (permits_skipping_sweep verdict)) [
        | inl p ↦ rw p (Cleared.drained verdict r q p)
        | inr p ↦ absurd (
            let seen = watch_root-undrained 0 (drained_within sys child grace s).1 in
            cc (rw p at h))
      ]
  seen_tree-Cleared grace s (err e) r q h = absurd (cc h)

  watch_tree-Cleared :
      (grace : ℕ) (s : S)
      → (watch_tree sys child grace s).0.drained ≡ true
      → Cleared grace s (watch_tree sys child grace s).1
  unfolding watch_tree
  watch_tree-Cleared grace s h = elim (Bool-cases (reports_drain child.containment)) [
    | inl r ↦ rw r (seen_tree-Cleared grace s _ r refl (rw r at h))
    | inr r ↦ absurd (let seen = watch_root-undrained grace s in cc (rw r at h))
  ]

  sweep-Ends :
      (grace : ℕ) (s : S)
      → Ends grace s
          (sweep sys child (watch_tree sys child grace s).0 (watch_tree sys child grace s).1).0
  unfolding sweep
  sweep-Ends grace s = elim (Bool-cases (watch_tree sys child grace s).0.drained) [
    | inl d ↦ rw d (reap-Ends grace s _ (watch_tree-Cleared grace s d))
    | inr d ↦ rw d (swept-Ends grace s _ refl)
  ]

  -- An error before the watch: the signal failed in a way that is not held, and nothing else is done.
  abbrev Unsent : ℕ → S → Error I → Type 0
  Unsent grace s e =
      ((terminate_tree sys child s).0 ≡ err e)
      × (is_held e ≡ false)
      × ((graceful_shutdown_tree sys child grace s).1 ≡ (terminate_tree sys child s).1)

  -- What the whole of `graceful_shutdown_tree` comes to.
  abbrev pub ShutsDown : ℕ → S → Result X (Error I) → Type 0
  ShutsDown grace s (ok x) =
      (is_actionable child.attached ≡ true) × Ends grace (terminate_tree sys child s).1 (ok x)
  ShutsDown grace s (err e) = Unsent grace s e ⊎ Failed grace (terminate_tree sys child s).1 e

  sent-ShutsDown :
      (grace : ℕ) (s : S) (r : Result X (Error I))
      → is_actionable child.attached ≡ true
      → Ends grace (terminate_tree sys child s).1 r
      → ShutsDown grace s r
  sent-ShutsDown grace s (ok x) a h = (a, h)
  sent-ShutsDown grace s (err e) a h = inr h

  contained :
      (grace : ℕ) (s : S)
      → is_actionable child.attached ≡ true
      → graceful_shutdown_tree sys child grace s
        ≡ tree_signalled sys child grace
            (terminate_tree sys child s).0
            (terminate_tree sys child s).1
  unfolding graceful_shutdown_tree require_contained tree_guarded terminate_and_sweep
  contained grace s a = rw a

  uncontained :
      (grace : ℕ) (s : S)
      → is_actionable child.attached ≡ false
      → (e : Error I) × (graceful_shutdown_tree sys child grace s ≡ (err e, s))
        × (terminate_tree sys child s ≡ (err e, s))
        × (is_held e ≡ false)
  unfolding graceful_shutdown_tree require_contained tree_guarded terminate_tree guarded is_held
  uncontained grace s a = (no_mechanism sys.os, rw a, rw a, refl)

  signalled-ShutsDown :
      (grace : ℕ) (s : S) (sent : Result Done (Error I))
      → is_actionable child.attached ≡ true
      → (terminate_tree sys child s).0 ≡ sent
      → graceful_shutdown_tree sys child grace s
        ≡ tree_signalled sys child grace sent (terminate_tree sys child s).1
      → ShutsDown grace s (tree_signalled sys child grace sent (terminate_tree sys child s).1).0
  unfolding tree_signalled watch_and_sweep
  signalled-ShutsDown grace s (ok done) a q all =
      sent-ShutsDown grace s _ a (sweep-Ends grace (terminate_tree sys child s).1)
  signalled-ShutsDown grace s (err e) a q all = elim (Bool-cases (is_held e)) [
    | inl held ↦
        rw held (sent-ShutsDown grace s _ a (sweep-Ends grace (terminate_tree sys child s).1))
    | inr held ↦ rw held (inl (q, held, rw held at (ap (λ r. r.1) all)))
  ]

  -- If the shutdown of a tree returns a status, the child has a mechanism to tear it down, the tree was
  -- clear before the root was waited for, and the wait returned that status: the tree had drained by
  -- a verdict on all members, or the sweep succeeded. If it returns an error, then either the
  -- signal failed with that error, which is no held refusal, and nothing was done after it; or the
  -- sweep failed with it; or the tree was clear and the wait failed with it; or the tree was clear
  -- and the root waited for, and it is the error of the watch.
  pub graceful_shutdown_tree-ShutsDown :
      (grace : ℕ) (s : S) → ShutsDown grace s (graceful_shutdown_tree sys child grace s).0
  graceful_shutdown_tree-ShutsDown grace s = elim (Bool-cases (is_actionable child.attached)) [
    | inl a ↦
        let all = contained grace s a in
        subst (λ r. ShutsDown grace s r.0) (sym all) (signalled-ShutsDown grace s _ a refl all)
    | inr a ↦
        let (e, all, sent, held) = uncontained grace s a in
        subst (λ r. ShutsDown grace s r.0) (sym all)
          (inl (ap (λ r. r.0) sent, held, ap (λ r. r.1) all ∙ sym (ap (λ r. r.1) sent)))
  ]
