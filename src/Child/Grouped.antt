-- ===== src/Child/Grouped.antt =====
-- A child that is contained by a process group on Linux: its teardown is that of the group.
use subprocess.Prelude.{ℕ, false, Result, ok, err, ◌≡◌, refl, subst, ◌∙◌, pos}
use subprocess.Errors.{Error, Done}
use subprocess.Containment.Group.{Signal, GroupSystem, Formats}
use subprocess.Containment.Group.Platforms.{
  PidfdSystem, linux_signal_group, check_or_signal_linux_sigkill,
}
use subprocess.Containment.Group.Verdict.{Torn}
use subprocess.Containment.Group.Teardown.{signalled_from}
use subprocess.Containment.Group.Outcomes.{Pinned, linux_signal_group-Torn}
use subprocess.Containment.Dispatch.{Attached, reports_drain}
use subprocess.Containment.Dispatch.Mechanisms.{Mechanisms, hard_kill}
use subprocess.Child.{
  Child, ChildSystem, kill_tree, kill_attached, guarded, kill, both, terminate_tree,
}
use subprocess.Child.Shutdown.{watch_tree, graceful_shutdown_tree}
use subprocess.Child.Escalation.{Cleared, ShutsDown, graceful_shutdown_tree-ShutsDown}

module _ {S : Type 0} {L : Type 0} {J : Type 0} {I : Type 0} {X : Type 0} {F : Type 0}
    (group : GroupSystem S I) (fds : PidfdSystem S F I) (formats : Formats)
    (rest : ChildSystem S L J I X) where
  -- The calls of a child on Linux: `kill_group` and `term_group` of src/containment/unix.rs.
  abbrev pub linux_mechanisms : Mechanisms S L J I
  linux_mechanisms = record rest.mechanisms {
    kill_group = λ s pgid. linux_signal_group formats fds group (pos pgid) Signal.sigkill s;
    term_group = λ s pgid. linux_signal_group formats fds group (pos pgid) Signal.sigterm s;
  }

  abbrev pub on_linux : ChildSystem S L J I X
  on_linux = record rest { mechanisms = linux_mechanisms }

module _ (S : Type 0) (L : Type 0) (J : Type 0) (I : Type 0) (X : Type 0) (F : Type 0)
    (group : GroupSystem S I) (fds : PidfdSystem S F I) (formats : Formats)
    (rest : ChildSystem S L J I X) (child : Child L J) (pgid : ℕ) where
  -- The group is torn down by a SIGKILL from this state on.
  abbrev pub TornFrom : S → Type 0
  TornFrom s =
      Torn S I group (check_or_signal_linux_sigkill formats fds group)
        (Pinned S F I formats fds group) Signal.sigkill pgid
        (signalled_from group (group.killpg s pgid Signal.sigkill).0 pgid Signal.sigkill
          (group.killpg s pgid Signal.sigkill).1)

  killed-TornFrom :
      (s : S)
      → (linux_signal_group formats fds group (pos pgid) Signal.sigkill s).0 ≡ ok tt
      → TornFrom s
  killed-TornFrom s h =
      (linux_signal_group-Torn S F I formats fds group (pos pgid) Signal.sigkill s h).1

  abbrev sys : ChildSystem S L J I X
  sys = on_linux group fds formats rest

  -- What the kill of the tree says, from the answers of its two halves.
  kill_attached-ok :
      (s : S)
      → (kill_attached sys child s).0 ≡ ok tt
      → ((hard_kill sys.mechanisms child.attached s).0 ≡ ok tt)
        × ((kill sys child (hard_kill sys.mechanisms child.attached s).1).0 ≡ ok tt)
  unfolding kill_attached
  kill_attached-ok s h = halves _ _ h refl refl
    where
      halves :
          (a b : Result Done (Error I))
          → both sys child a b ≡ ok tt
          → (hard_kill sys.mechanisms child.attached s).0 ≡ a
          → (kill sys child (hard_kill sys.mechanisms child.attached s).1).0 ≡ b
          → ((hard_kill sys.mechanisms child.attached s).0 ≡ ok tt)
            × ((kill sys child (hard_kill sys.mechanisms child.attached s).1).0 ≡ ok tt)
      halves (ok tt) b h p q = (p, q ∙ h)
      halves (err e) b h p q = absurd (cc h)

  kill_tree-ok : (s : S) → (kill_tree sys child s).0 ≡ ok tt → (kill_attached sys child s).0 ≡ ok tt
  unfolding kill_tree guarded
  kill_tree-ok s h = passed _ h
    where
      passed :
          (g : Result Done (Error I))
          → (guarded sys child g (kill_attached sys child) s).0 ≡ ok tt
          → (kill_attached sys child s).0 ≡ ok tt
      passed (ok done) h = h
      passed (err e) h = absurd (cc h)

  -- If the kill of the tree succeeds, the group is torn down, by a SIGKILL sent from the same state on.
  pub kill_tree-TornFrom :
      (s : S)
      → child.attached ≡ Attached.process_group pgid
      → (kill_tree sys child s).0 ≡ ok tt
      → TornFrom s
  unfolding hard_kill
  kill_tree-TornFrom s e h = killed-TornFrom s (rw e at ((kill_attached-ok s (kill_tree-ok s h)).0))

  cleared-TornFrom :
      (grace : ℕ) (s u : S)
      → child.attached ≡ Attached.process_group pgid
      → reports_drain child.containment ≡ false
      → Cleared sys child grace s u
      → TornFrom (watch_tree sys child grace s).1
  cleared-TornFrom grace s _ e r (Cleared.drained d reports q p) = absurd (cc)
  cleared-TornFrom grace s _ e r (Cleared.swept q) = kill_tree-TornFrom _ e q

  -- If the shutdown of a child in a process group returns a status, then the group was torn down by a
  -- SIGKILL sent after the watch: every member listed after it is confirmed, by a signal through a process
  -- descriptor behind which it was present, or by `kill(2)` where no descriptor could be opened, or as gone
  -- or dead.
  pub graceful_shutdown_tree-TornFrom :
      (grace : ℕ) (s : S) (x : X)
      → child.attached ≡ Attached.process_group pgid
      → reports_drain child.containment ≡ false
      → (graceful_shutdown_tree sys child grace s).0 ≡ ok x
      → TornFrom (watch_tree sys child grace (terminate_tree sys child s).1).1
  graceful_shutdown_tree-TornFrom grace s x e r h =
      let ends : ShutsDown sys child grace s (ok x) =
        subst (ShutsDown sys child grace s) h
          (graceful_shutdown_tree-ShutsDown sys child grace s) in
      cleared-TornFrom grace (terminate_tree sys child s).1 ends.1.0 e r ends.1.1
