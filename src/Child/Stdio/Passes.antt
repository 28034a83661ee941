-- ===== src/Child/Stdio/Passes.antt =====
-- The loops of `resolve_stdio` over the slots.
use subprocess.Prelude.{
  true, false, List, [], ◌∷◌, Option, ◌==◌, ==_iff, Result, ok, err, ◌≡◌, refl, sym, subst, ◌∙◌,
  inl, inr, arith, has, Bool-cases, and_then-ok,
}
use subprocess.Command.{Fd, ResolvedStdio}
use subprocess.Child.Stdio.{
  ParentEnd, PipeOwnership, Fault, StdioSystem, Ends, lookup_fd, resolve_non_merge, skips, put_ends,
  placed, open_slot, open_slots,
}
use subprocess.Child.Stdio.Opening.{
  Connected, Linked, Blank, Good, put-Linked, put_other, resolve-Connected,
}

module _ (S : Type 0) (F : Type 0) (E : Type 0) (R : Type 0) (W : Type 0) (I : Type 0)
    (sys : StdioSystem S F E R W I) (fds : List (Fd × ResolvedStdio F))
    (ownership : PipeOwnership) where
  -- One slot of the second pass: skipped or opened.
  data OpenStep (slot : Fd) (ends : Ends E R W) (out : Ends E R W) : Type 0 where
    skipped :
        skips sys fds ownership slot (lookup_fd slot fds) ≡ true
        → out ≡ ends
        → OpenStep slot ends out
    put :
        (e : E) (p : Option (ParentEnd R W))
        → skips sys fds ownership slot (lookup_fd slot fds) ≡ false
        → Connected S F E R W I sys slot e p (lookup_fd slot fds)
        → out ≡ put_ends sys fds slot e p ends
        → OpenStep slot ends out

  placed-OpenStep :
      (slot : Fd) (ends : Ends E R W) (s : S) (out : Ends E R W)
      → (a : Result (E × Option (ParentEnd R W)) (Fault I))
      → skips sys fds ownership slot (lookup_fd slot fds) ≡ false
      → (resolve_non_merge sys slot (lookup_fd slot fds) s).0 ≡ a
      → placed sys fds slot ends a ≡ ok out
      → OpenStep slot ends out
  placed-OpenStep slot ends s out (ok (e, p)) b q h =
      OpenStep.put e p b (resolve-Connected S F E R W I sys slot _ s e p q) (cc h)
  placed-OpenStep slot ends s out (err f) b q h = absurd (cc h)

  open_slot-OpenStep :
      (slot : Fd) (ends : Ends E R W) (s : S) (out : Ends E R W)
      → (open_slot sys fds ownership slot ends s).0 ≡ ok out
      → OpenStep slot ends out
  unfolding open_slot
  open_slot-OpenStep slot ends s out h =
      elim (Bool-cases (skips sys fds ownership slot (lookup_fd slot fds))) [
        | inl b ↦ OpenStep.skipped b (cc (rw b at h))
        | inr b ↦ placed-OpenStep slot ends s out _ b refl (rw b at h)
      ]

  -- What every step keeps is kept by the pass.
  open_inv :
      (P : Ends E R W → Type 0)
      → ((slot : Fd) (ends : Ends E R W) (out : Ends E R W)
          → P ends
          → OpenStep slot ends out
          → P out)
      → (slots : List Fd) (ends : Ends E R W) (s : S) (out : Ends E R W) → P ends
      → (open_slots sys fds ownership slots ends s).0 ≡ ok out
      → P out
  unfolding open_slots
  open_inv P keep [] ends s out p h = subst P (cc h) p
  open_inv P keep (slot ∷ slots) ends s out p h =
      let (next, a, b) = and_then-ok _ (open_slots sys fds ownership slots) _ h in
      open_inv P keep slots next _ out
        (keep slot ends next p (open_slot-OpenStep slot ends s next a)) b

  other-Linked :
      (x : Fd) (slot : Fd) (ends : Ends E R W) (e : E) (p : Option (ParentEnd R W))
      → (x == slot) ≡ false
      → Linked S F E R W I sys fds ends slot
      → Linked S F E R W I sys fds (put_ends sys fds x e p ends) slot
  other-Linked x slot ends e p h (d, q, c, a, b) =
      let (same, kept) = put_other S F E R W I sys fds ends x slot e p h in
      (d, q, c, same ∙ a, kept ∙ b)

  other-Blank :
      (x : Fd) (slot : Fd) (ends : Ends E R W) (e : E) (p : Option (ParentEnd R W))
      → (x == slot) ≡ false
      → Blank S F E R W I sys fds ends slot
      → Blank S F E R W I sys fds (put_ends sys fds x e p ends) slot
  other-Blank x slot ends e p h (a, b) =
      let (same, kept) = put_other S F E R W I sys fds ends x slot e p h in (same ∙ a, kept ∙ b)

  -- The step at a slot that it opens.
  step-Linked :
      (slot : Fd) (ends : Ends E R W) (out : Ends E R W)
      → skips sys fds ownership slot (lookup_fd slot fds) ≡ false
      → Good S F E R W I sys fds ends slot
      → OpenStep slot ends out
      → Linked S F E R W I sys fds out slot
  step-Linked slot ends out b g (OpenStep.skipped skip same) = absurd (cc)
  step-Linked slot ends out b g (OpenStep.put e p c connected same) =
      subst (λ o. Linked S F E R W I sys fds o slot) (sym same)
        (put-Linked S F E R W I sys fds ends slot e p g connected)

  OpenStep-Good :
      (slot : Fd) (x : Fd) (ends : Ends E R W) (out : Ends E R W)
      → Good S F E R W I sys fds ends slot
      → OpenStep x ends out
      → Good S F E R W I sys fds out slot
  OpenStep-Good slot x ends out g (OpenStep.skipped skip same) =
      subst (λ o. Good S F E R W I sys fds o slot) (sym same) g
  OpenStep-Good slot x ends out g (OpenStep.put e p c connected same) =
      elim (Bool-cases (x == slot)) [
        | inl b ↦
            let at : x ≡ slot = (==_iff x slot).0 b in
            inr (
              step-Linked slot ends out
                (subst (λ y. skips sys fds ownership y (lookup_fd y fds) ≡ false) at c) g
                (subst (λ y. OpenStep y ends out) at (OpenStep.put e p c connected same)))
        | inr b ↦
            subst (λ o. Good S F E R W I sys fds o slot) (sym same)
              (elim g [
                | inl blank ↦ inl (other-Blank x slot ends e p b blank)
                | inr linked ↦ inr (other-Linked x slot ends e p b linked)
              ])
      ]

  OpenStep-Linked :
      (slot : Fd) (x : Fd) (ends : Ends E R W) (out : Ends E R W)
      → Linked S F E R W I sys fds ends slot
      → OpenStep x ends out
      → Linked S F E R W I sys fds out slot
  OpenStep-Linked slot x ends out l (OpenStep.skipped skip same) =
      subst (λ o. Linked S F E R W I sys fds o slot) (sym same) l
  OpenStep-Linked slot x ends out l (OpenStep.put e p c connected same) =
      elim (Bool-cases (x == slot)) [
        | inl b ↦
            let at : x ≡ slot = (==_iff x slot).0 b in
            step-Linked slot ends out
              (subst (λ y. skips sys fds ownership y (lookup_fd y fds) ≡ false) at c) (inr l)
              (subst (λ y. OpenStep y ends out) at (OpenStep.put e p c connected same))
        | inr b ↦
            subst (λ o. Linked S F E R W I sys fds o slot) (sym same)
              (other-Linked x slot ends e p b l)
      ]

  OpenStep-Blank :
      (slot : Fd) (x : Fd) (ends : Ends E R W) (out : Ends E R W)
      → ((x == slot) ≡ true → skips sys fds ownership slot (lookup_fd slot fds) ≡ true)
      → Blank S F E R W I sys fds ends slot
      → OpenStep x ends out
      → Blank S F E R W I sys fds out slot
  OpenStep-Blank slot x ends out k blank (OpenStep.skipped skip same) =
      subst (λ o. Blank S F E R W I sys fds o slot) (sym same) blank
  OpenStep-Blank slot x ends out k blank (OpenStep.put e p c connected same) =
      elim (Bool-cases (x == slot)) [
        | inl b ↦
            let at : x ≡ slot = (==_iff x slot).0 b in
            let unskipped : skips sys fds ownership slot (lookup_fd slot fds) ≡ false =
              subst (λ y. skips sys fds ownership y (lookup_fd y fds) ≡ false) at c in
            absurd (cc (k b))
        | inr b ↦
            subst (λ o. Blank S F E R W I sys fds o slot) (sym same)
              (other-Blank x slot ends e p b blank)
      ]

  -- A slot of the list that is not skipped is linked after the pass.
  pub open-Linked :
      (slot : Fd) (slots : List Fd) (ends : Ends E R W) (s : S) (out : Ends E R W)
      → skips sys fds ownership slot (lookup_fd slot fds) ≡ false
      → has slots slot ≡ true
      → Good S F E R W I sys fds ends slot
      → (open_slots sys fds ownership slots ends s).0 ≡ ok out
      → Linked S F E R W I sys fds out slot
  unfolding open_slots
  open-Linked slot [] ends s out b m g h = absurd (cc m)
  open-Linked slot (x ∷ slots) ends s out b m g h =
      let (next, a, c) = and_then-ok _ (open_slots sys fds ownership slots) _ h in
      let step = open_slot-OpenStep x ends s next a in
      elim (Bool-cases (slot == x)) [
        | inl q ↦
            let at : x ≡ slot = sym ((==_iff slot x).0 q) in
            open_inv (λ o. Linked S F E R W I sys fds o slot)
              (λ y o n l t. OpenStep-Linked slot y o n l t) slots next _ out
              (step-Linked slot ends next b g (subst (λ y. OpenStep y ends next) at step)) c
        | inr q ↦
            open-Linked slot slots next _ out b (ground (arith, m, q))
              (OpenStep-Good slot x ends next g step) c
      ]

  -- A slot that is skipped stays blank.
  pub open-Blank :
      (slot : Fd) (slots : List Fd) (ends : Ends E R W) (s : S) (out : Ends E R W)
      → skips sys fds ownership slot (lookup_fd slot fds) ≡ true
      → Blank S F E R W I sys fds ends slot
      → (open_slots sys fds ownership slots ends s).0 ≡ ok out
      → Blank S F E R W I sys fds out slot
  open-Blank slot slots ends s out b =
      open_inv (λ o. Blank S F E R W I sys fds o slot)
        (λ x o n blank step. OpenStep-Blank slot x o n (λ _. b) blank step) slots ends s out

  -- So does a slot that is not in the list.
  pub open_absent-Blank :
      (slot : Fd) (slots : List Fd) (ends : Ends E R W) (s : S) (out : Ends E R W)
      → has slots slot ≡ false
      → Blank S F E R W I sys fds ends slot
      → (open_slots sys fds ownership slots ends s).0 ≡ ok out
      → Blank S F E R W I sys fds out slot
  unfolding open_slots
  open_absent-Blank slot [] ends s out m blank h =
      subst (λ o. Blank S F E R W I sys fds o slot) (cc h) blank
  open_absent-Blank slot (x ∷ slots) ends s out m blank h =
      let (next, a, c) = and_then-ok _ (open_slots sys fds ownership slots) _ h in
      open_absent-Blank slot slots next _ out (ground (arith, m))
        (OpenStep-Blank slot x ends next (λ b. absurd (ground (arith, m, b))) blank
          (open_slot-OpenStep x ends s next a))
        c
