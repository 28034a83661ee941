-- ===== src/Child/Stdio/Merging.antt =====
-- The first and the third pass of `resolve_stdio`: merges.
use subprocess.Prelude.{
  true, false, ◌&&◌, List, [], ◌∷◌, Option, some, none, ◌==◌, ==_iff, ltb, Result, ok, err, ◌≡◌,
  refl, sym, ap, subst, ◌∙◌, inl, inr, arith, has, Bool-cases, and_then-ok, >>=-ok,
}
use subprocess.Command.{Fd, ResolvedStdio, insert_fd}
use subprocess.Child.Stdio.{
  PipeOwnership, Fault, StdioSystem, lookup_fd, merge_target, merge_slot, merge_at, merged,
  merge_slots, merge_source, chained, check_slot, check_chains, is_deferred, is_piped, copied,
}
use subprocess.Child.Stdio.Lookups.{lookup_fd-insert_fd}

module _ (S : Type 0) (F : Type 0) (E : Type 0) (R : Type 0) (W : Type 0) (I : Type 0)
    (sys : StdioSystem S F E R W I) (fds : List (Fd × ResolvedStdio F)) where
  chained-ok :
      (slot : Fd) (target : Fd) (r : Option (ResolvedStdio F))
      → chained sys fds slot target r ≡ ok tt
      → merge_target sys fds r ≡ none
  unfolding chained
  chained-ok slot target none h = refl
  chained-ok slot target (some ResolvedStdio.inherit) h = refl
  chained-ok slot target (some ResolvedStdio.null) h = refl
  chained-ok slot target (some (ResolvedStdio.pipe dir)) h = refl
  chained-ok slot target (some (ResolvedStdio.file f)) h = refl
  chained-ok slot target (some (ResolvedStdio.merge other)) h = absurd (cc h)

  check_slot-ok :
      (slot : Fd) (target : Fd) (r : Option (ResolvedStdio F))
      → check_slot sys fds slot r ≡ ok tt
      → merge_target sys fds r ≡ some target
      → merge_target sys fds (lookup_fd target fds) ≡ none
  unfolding check_slot
  check_slot-ok slot target (some (ResolvedStdio.merge t)) h m =
      let same : t ≡ target = cc m in
      subst (λ u. merge_target sys fds (lookup_fd u fds) ≡ none) same (chained-ok slot t _ h)
  check_slot-ok slot target none h m = absurd (cc m)
  check_slot-ok slot target (some ResolvedStdio.inherit) h m = absurd (cc m)
  check_slot-ok slot target (some ResolvedStdio.null) h m = absurd (cc m)
  check_slot-ok slot target (some (ResolvedStdio.pipe dir)) h m = absurd (cc m)
  check_slot-ok slot target (some (ResolvedStdio.file f)) h m = absurd (cc m)

  -- Past the first pass, no slot is merged onto one that is merged itself.
  pub check_chains-ok :
      (slots : List Fd) (slot : Fd) (target : Fd)
      → check_chains sys fds slots ≡ ok tt
      → has slots slot ≡ true
      → merge_target sys fds (lookup_fd slot fds) ≡ some target
      → merge_target sys fds (lookup_fd target fds) ≡ none
  unfolding check_chains
  check_chains-ok [] slot target h m t = absurd (cc m)
  check_chains-ok (x ∷ slots) slot target h m t =
      let (done, a, b) = >>=-ok (check_slot sys fds x (lookup_fd x fds)) _ h in
      elim (Bool-cases (slot == x)) [
        | inl q ↦
            check_slot-ok slot target _
              (subst (λ y. check_slot sys fds y (lookup_fd y fds) ≡ ok tt)
                (sym ((==_iff slot x).0 q)) a)
              t
        | inr q ↦ check_chains-ok slots slot target b (ground (arith, m, q)) t
      ]

  module _ (ownership : PipeOwnership) where
    -- One slot of the third pass: left alone, or connected to a copy of its target's end.
    data MergeStep (slot : Fd) (ends : List (Fd × E)) (out : List (Fd × E)) : Type 0 where
      kept : merge_target sys fds (lookup_fd slot fds) ≡ none → out ≡ ends → MergeStep slot ends out
      copy :
          (target : Fd) (src : E) (e : E) (s : S)
          → merge_target sys fds (lookup_fd slot fds) ≡ some target
          → lookup_fd target ends ≡ some src
          → (sys.clone_end s src).0 ≡ ok e
          → out ≡ insert_fd slot e ends
          → MergeStep slot ends out

    copied-ok : (a : Result E I) (e : E) → copied sys fds a ≡ ok e → a ≡ ok e
    copied-ok (ok x) e h = ground arith
    copied-ok (err x) e h = absurd (cc h)

    merge_source-ok :
        (slot : Fd) (target : Fd) (o : Option E) (s : S) (e : E)
        → (merge_source sys fds slot target o s).0 ≡ ok e
        → (src : E) × (o ≡ some src) × ((sys.clone_end s src).0 ≡ ok e)
    unfolding merge_source
    merge_source-ok slot target (some src) s e h = (src, refl, copied-ok _ e h)
    merge_source-ok slot target none s e h = absurd (cc h)

    merge_slot-ok :
        (slot : Fd) (target : Fd) (ends : List (Fd × E)) (s : S) (e : E)
        → (merge_slot sys fds ownership slot target ends s).0 ≡ ok e
        → (src : E) × (lookup_fd target ends ≡ some src) × ((sys.clone_end s src).0 ≡ ok e)
    unfolding merge_slot
    merge_slot-ok slot target ends s e h =
        elim (Bool-cases (
          is_deferred sys fds ownership
          && (ltb target 3 && is_piped sys fds (lookup_fd target fds)))) [
            | inl b ↦ absurd (cc (rw b at h))
            | inr b ↦ merge_source-ok slot target _ s e (rw b at h)
          ]

    merged-MergeStep :
        (slot : Fd) (target : Fd) (ends : List (Fd × E)) (out : List (Fd × E)) (s : S)
        → (a : Result E (Fault I)) → merge_target sys fds (lookup_fd slot fds) ≡ some target
        → (merge_slot sys fds ownership slot target ends s).0 ≡ a
        → merged sys fds slot ends a ≡ ok out
        → MergeStep slot ends out
    merged-MergeStep slot target ends out s (ok e) t q h =
        let (src, a, b) = merge_slot-ok slot target ends s e q in
        MergeStep.copy target src e s t a b (cc h)
    merged-MergeStep slot target ends out s (err f) t q h = absurd (cc h)

    merge_at-MergeStep :
        (slot : Fd) (t : Option Fd) (ends : List (Fd × E)) (s : S) (out : List (Fd × E))
        → merge_target sys fds (lookup_fd slot fds) ≡ t
        → (merge_at sys fds ownership slot t ends s).0 ≡ ok out
        → MergeStep slot ends out
    unfolding merge_at
    merge_at-MergeStep slot none ends s out t h = MergeStep.kept t (cc h)
    merge_at-MergeStep slot (some target) ends s out t h =
        merged-MergeStep slot target ends out s _ t refl h

    merge_inv :
        (P : List (Fd × E) → Type 0)
        → ((slot : Fd) (ends : List (Fd × E)) (out : List (Fd × E))
            → P ends
            → MergeStep slot ends out
            → P out)
        → (slots : List Fd) (ends : List (Fd × E)) (s : S) (out : List (Fd × E)) → P ends
        → (merge_slots sys fds ownership slots ends s).0 ≡ ok out
        → P out
    unfolding merge_slots
    merge_inv P keep [] ends s out p h = subst P (cc h) p
    merge_inv P keep (slot ∷ slots) ends s out p h =
        let (next, a, b) = and_then-ok _ (merge_slots sys fds ownership slots) _ h in
        merge_inv P keep slots next _ out
          (keep slot ends next p (merge_at-MergeStep slot _ ends s next refl a)) b

    -- A slot is a copy of its target's end.
    abbrev pub CopyOf : Fd → Fd → List (Fd × E) → Type 0
    CopyOf slot target ends =
        (src : E) × (e : E) × (s : S) × (lookup_fd target ends ≡ some src)
        × ((sys.clone_end s src).0 ≡ ok e)
        × (lookup_fd slot ends ≡ some e)

    -- A step changes no slot that is not merged.
    MergeStep-unmerged :
        (slot : Fd) (x : Fd) (ends : List (Fd × E)) (out : List (Fd × E))
        → merge_target sys fds (lookup_fd slot fds) ≡ none
        → MergeStep x ends out
        → lookup_fd slot out ≡ lookup_fd slot ends
    MergeStep-unmerged slot x ends out m (MergeStep.kept t same) = ap (lookup_fd slot) same
    MergeStep-unmerged slot x ends out m (MergeStep.copy target src e s t a b same) =
        elim (Bool-cases (x == slot)) [
          | inl q ↦
              let at : x ≡ slot = (==_iff x slot).0 q in
              let here : merge_target sys fds (lookup_fd slot fds) ≡ some target =
                subst (λ y. merge_target sys fds (lookup_fd y fds) ≡ some target) at t in
              absurd (cc)
          | inr q ↦ ap (lookup_fd slot) same ∙ ground (arith, lookup_fd-insert_fd x slot e ends, q)
        ]

    pub merge_unmerged :
        (slot : Fd) (slots : List Fd) (ends : List (Fd × E)) (s : S) (out : List (Fd × E))
        → merge_target sys fds (lookup_fd slot fds) ≡ none
        → (merge_slots sys fds ownership slots ends s).0 ≡ ok out
        → lookup_fd slot out ≡ lookup_fd slot ends
    merge_unmerged slot slots ends s out m =
        merge_inv (λ o. lookup_fd slot o ≡ lookup_fd slot ends)
          (λ x o n p step. MergeStep-unmerged slot x o n m step ∙ p) slots ends s out refl

    -- The step at a merged slot, and a later one.
    step-CopyOf :
        (slot : Fd) (target : Fd) (ends : List (Fd × E)) (out : List (Fd × E))
        → merge_target sys fds (lookup_fd slot fds) ≡ some target
        → merge_target sys fds (lookup_fd target fds) ≡ none
        → MergeStep slot ends out
        → CopyOf slot target out
    step-CopyOf slot target ends out t u (MergeStep.kept v same) = absurd (cc)
    step-CopyOf slot target ends out t u (MergeStep.copy x src e s v a b same) =
        let onto : x ≡ target = cc (sym v ∙ t) in
        (
          src,
          e,
          s,
          MergeStep-unmerged target slot ends out u (MergeStep.copy x src e s v a b same)
              ∙ subst (λ y. lookup_fd y ends ≡ some src) onto a,
          b,
          ap (lookup_fd slot) same ∙ ground (arith, lookup_fd-insert_fd slot slot e ends),
        )

    MergeStep-CopyOf :
        (slot : Fd) (target : Fd) (x : Fd) (ends : List (Fd × E)) (out : List (Fd × E))
        → merge_target sys fds (lookup_fd slot fds) ≡ some target
        → merge_target sys fds (lookup_fd target fds) ≡ none
        → CopyOf slot target ends
        → MergeStep x ends out
        → CopyOf slot target out
    MergeStep-CopyOf slot target x ends out t u c step = elim (Bool-cases (x == slot)) [
      | inl q ↦
          step-CopyOf slot target ends out t u
            (subst (λ y. MergeStep y ends out) ((==_iff x slot).0 q) step)
      | inr q ↦
          let (src, e, s, a, b, h) = c in
          (
            src,
            e,
            s,
            MergeStep-unmerged target x ends out u step ∙ a,
            b,
            other x ends out q step ∙ h,
          )
    ]
      where
        other :
            (x : Fd) (ends : List (Fd × E)) (out : List (Fd × E))
            → (x == slot) ≡ false
            → MergeStep x ends out
            → lookup_fd slot out ≡ lookup_fd slot ends
        other x ends out q (MergeStep.kept t same) = ap (lookup_fd slot) same
        other x ends out q (MergeStep.copy target src e s t a b same) =
            ap (lookup_fd slot) same ∙ ground (arith, lookup_fd-insert_fd x slot e ends, q)

    pub merge-CopyOf :
        (slot : Fd) (target : Fd) (slots : List Fd) (ends : List (Fd × E)) (s : S)
        (out : List (Fd × E))
        → merge_target sys fds (lookup_fd slot fds) ≡ some target
        → merge_target sys fds (lookup_fd target fds) ≡ none
        → has slots slot ≡ true
        → (merge_slots sys fds ownership slots ends s).0 ≡ ok out
        → CopyOf slot target out
    unfolding merge_slots
    merge-CopyOf slot target [] ends s out t u m h = absurd (cc m)
    merge-CopyOf slot target (x ∷ slots) ends s out t u m h =
        let (next, a, b) = and_then-ok _ (merge_slots sys fds ownership slots) _ h in
        let step = merge_at-MergeStep x _ ends s next refl a in
        elim (Bool-cases (slot == x)) [
          | inl q ↦
              merge_inv (CopyOf slot target)
                (λ y o n c st. MergeStep-CopyOf slot target y o n t u c st) slots next _ out
                (step-CopyOf slot target ends next t u
                  (subst (λ y. MergeStep y ends next) (sym ((==_iff slot x).0 q)) step))
                b
          | inr q ↦ merge-CopyOf slot target slots next _ out t u (ground (arith, m, q)) b
        ]
