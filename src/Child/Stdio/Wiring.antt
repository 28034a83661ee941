-- ===== src/Child/Stdio/Wiring.antt =====
-- What `resolve_stdio` connects each descriptor of a child to.
use subprocess.Prelude.{
  ◌≤◌, ◌<◌, arith, true, false, List, [], Option, some, none, Result, ok, err, ◌≡◌, refl, sym, ap,
  ◌∙◌, inl, inr, has, Bool-cases, Option-cases,
}
use subprocess.Errors.{Done}
use subprocess.Command.{Fd, Direction, ResolvedStdio}
use subprocess.Child.Stdio.{
  PipeOwnership, Fault, StdioSystem, Ends, lookup_fd, skips, merge_target, open_slots, merge_slots,
  check_chains, with_children, merged_ends, opened_ends, resolve_stdio,
}
use subprocess.Child.Stdio.Opening.{Linked, Blank}
use subprocess.Child.Stdio.Passes.{open-Linked, open-Blank}
use subprocess.Child.Stdio.Merging.{CopyOf, check_chains-ok, merge_unmerged, merge-CopyOf}

module _ (S : Type 0) (F : Type 0) (E : Type 0) (R : Type 0) (W : Type 0) (I : Type 0)
    (sys : StdioSystem S F E R W I) (fds : List (Fd × ResolvedStdio F))
    (ownership : PipeOwnership) where
  -- A slot that is no merge and is left alone: an extra slot of which nothing is said, or a standard stream
  -- on a pipe that another owner will open.
  pub data Spared : PipeOwnership → Fd → Option (ResolvedStdio F) → Type 0 where
    unconfigured : (o : PipeOwnership) (slot : Fd) → 3 ≤ slot → Spared o slot none
    left_to_owner :
        (slot : Fd) (dir : Direction)
        → slot < 3
        → Spared PipeOwnership.deferred slot (some (ResolvedStdio.pipe dir))

  skips-Spared :
      (o : PipeOwnership) (slot : Fd) (r : Option (ResolvedStdio F))
      → skips sys fds o slot r ≡ true
      → merge_target sys fds r ≡ none
      → Spared o slot r
  skips-Spared PipeOwnership.owned slot none h e = Spared.unconfigured _ slot (ground (arith, h))
  skips-Spared PipeOwnership.deferred slot none h e = Spared.unconfigured _ slot (ground (arith, h))
  skips-Spared o slot (some (ResolvedStdio.merge t)) h e = absurd (cc e)
  skips-Spared PipeOwnership.owned slot (some ResolvedStdio.inherit) h e = absurd (cc h)
  skips-Spared PipeOwnership.deferred slot (some ResolvedStdio.inherit) h e = absurd (cc h)
  skips-Spared PipeOwnership.owned slot (some ResolvedStdio.null) h e = absurd (cc h)
  skips-Spared PipeOwnership.deferred slot (some ResolvedStdio.null) h e = absurd (cc h)
  skips-Spared PipeOwnership.owned slot (some (ResolvedStdio.pipe dir)) h e = absurd (cc h)
  skips-Spared PipeOwnership.deferred slot (some (ResolvedStdio.pipe dir)) h e =
      Spared.left_to_owner slot dir (ground (arith, h))
  skips-Spared PipeOwnership.owned slot (some (ResolvedStdio.file f)) h e = absurd (cc h)
  skips-Spared PipeOwnership.deferred slot (some (ResolvedStdio.file f)) h e = absurd (cc h)

  Spared-skips :
      (o : PipeOwnership) (slot : Fd) (r : Option (ResolvedStdio F))
      → Spared o slot r
      → skips sys fds o slot r ≡ true
  Spared-skips _ slot _ (Spared.unconfigured PipeOwnership.owned _ low) = ground (arith, low)
  Spared-skips _ slot _ (Spared.unconfigured PipeOwnership.deferred _ low) = ground (arith, low)
  Spared-skips _ slot _ (Spared.left_to_owner _ dir low) = ground (arith, low)

  -- What a slot is wired to: nothing; or what its configuration says; or a copy of what its target is
  -- wired to.
  pub data Wired (slot : Fd) (out : Ends E R W) : Type 0 where
    blank :
        Spared ownership slot (lookup_fd slot fds)
        → Blank S F E R W I sys fds out slot
        → Wired slot out
    linked :
        ¬ Spared ownership slot (lookup_fd slot fds)
        → Linked S F E R W I sys fds out slot
        → Wired slot out
    copied :
        (target : Fd)
        → merge_target sys fds (lookup_fd slot fds) ≡ some target
        → merge_target sys fds (lookup_fd target fds) ≡ none
        → CopyOf S F E R W I sys fds ownership slot target out.child_ends
        → lookup_fd slot out.parent_ends ≡ none
        → Wired slot out

  abbrev no_ends : Ends E R W
  no_ends = record { child_ends = []; parent_ends = [] }

  no_ends-Blank : (slot : Fd) → Blank S F E R W I sys fds no_ends slot
  unfolding lookup_fd
  no_ends-Blank slot = (refl, refl)

  skips-merge :
      (slot : Fd) (r : Option (ResolvedStdio F)) (target : Fd)
      → merge_target sys fds r ≡ some target
      → skips sys fds ownership slot r ≡ true
  skips-merge slot (some (ResolvedStdio.merge t)) target h = refl
  skips-merge slot none target h = absurd (cc h)
  skips-merge slot (some ResolvedStdio.inherit) target h = absurd (cc h)
  skips-merge slot (some ResolvedStdio.null) target h = absurd (cc h)
  skips-merge slot (some (ResolvedStdio.pipe dir)) target h = absurd (cc h)
  skips-merge slot (some (ResolvedStdio.file f)) target h = absurd (cc h)

  unskipped-merge :
      (slot : Fd) (r : Option (ResolvedStdio F))
      → skips sys fds ownership slot r ≡ false
      → merge_target sys fds r ≡ none
  unskipped-merge slot r h = elim (Option-cases (merge_target sys fds r)) [
    | inl e ↦ e
    | inr (t, e) ↦ let skip = skips-merge slot r t e in absurd (cc)
  ]

  -- The passes behind a result: the state after the first, and the answers of the second and third.
  pub data Passed (slots : List Fd) (s : S) (out : Ends E R W) : Type 0 where
    passed :
        (ends : Ends E R W) (t : S)
        → check_chains sys fds slots ≡ ok tt
        → (open_slots sys fds ownership slots no_ends s).0 ≡ ok ends
        → (merge_slots sys fds ownership slots ends.child_ends t).0 ≡ ok out.child_ends
        → out.parent_ends ≡ ends.parent_ends
        → Passed slots s out

  merged-Passed :
      (slots : List Fd) (s : S) (ends : Ends E R W) (t : S) (out : Ends E R W)
      → (a : Result (List (Fd × E)) (Fault I)) → check_chains sys fds slots ≡ ok tt
      → (open_slots sys fds ownership slots no_ends s).0 ≡ ok ends
      → (merge_slots sys fds ownership slots ends.child_ends t).0 ≡ a
      → with_children sys fds ends a ≡ ok out
      → Passed slots s out
  merged-Passed slots s ends t out (ok children) c o q h =
      let same : record ends { child_ends = children } ≡ out = cc h in
      Passed.passed ends t c o (q ∙ ap (λ (x : Ends E R W). ok x.child_ends) same)
        (sym (ap (λ (x : Ends E R W). x.parent_ends) same))
  merged-Passed slots s ends t out (err f) c o q h = absurd (cc h)

  opened-Passed :
      (slots : List Fd) (s : S) (t : S) (out : Ends E R W)
      → (a : Result (Ends E R W) (Fault I)) → check_chains sys fds slots ≡ ok tt
      → (open_slots sys fds ownership slots no_ends s).0 ≡ a
      → (merged_ends sys fds ownership slots a t).0 ≡ ok out
      → Passed slots s out
  unfolding merged_ends
  opened-Passed slots s t out (ok ends) c q h = merged-Passed slots s ends t out _ c q refl h
  opened-Passed slots s t out (err f) c q h = absurd (cc h)

  resolve-Passed :
      (slots : List Fd) (s : S) (out : Ends E R W) (a : Result Done (Fault I))
      → check_chains sys fds slots ≡ a
      → (opened_ends sys fds ownership slots a s).0 ≡ ok out
      → Passed slots s out
  unfolding opened_ends
  resolve-Passed slots s out (ok done) q h = opened-Passed slots s _ out _ q refl h
  resolve-Passed slots s out (err f) q h = absurd (cc h)

  Passed-Wired :
      (slots : List Fd) (s : S) (out : Ends E R W) (slot : Fd)
      → has slots slot ≡ true
      → Passed slots s out
      → Wired slot out
  Passed-Wired slots s out slot m (Passed.passed ends t c o g p) =
      elim (Bool-cases (skips sys fds ownership slot (lookup_fd slot fds))) [
        | inl b ↦
            let (x, y) =
              open-Blank S F E R W I sys fds ownership slot slots no_ends s ends b
                (no_ends-Blank slot) o in
            elim (Option-cases (merge_target sys fds (lookup_fd slot fds))) [
              | inl e ↦ Wired.blank (skips-Spared ownership slot _ b e) (
                merge_unmerged S F E R W I sys fds ownership slot slots _ t _ e g ∙ x,
                ap (lookup_fd slot) p ∙ y,
              )
              | inr (target, e) ↦
                  let plain = check_chains-ok S F E R W I sys fds slots slot target c m e in
                  Wired.copied target e plain
                    (merge-CopyOf S F E R W I sys fds ownership slot target slots _ t _ e plain m g)
                    (ap (lookup_fd slot) p ∙ y)
            ]
        | inr b ↦
            let (e, q, l, x, y) =
              open-Linked S F E R W I sys fds ownership slot slots no_ends s ends b m
                (inl (no_ends-Blank slot)) o in
            Wired.linked (λ p. let skip = Spared-skips ownership slot _ p in absurd (cc (skip, b)))
              (
                e,
                q,
                l,
                merge_unmerged S F E R W I sys fds ownership slot slots _ t _
                      (unskipped-merge slot _ b) g
                    ∙ x,
                ap (lookup_fd slot) p ∙ y,
              )
      ]

  -- Where `resolve_stdio` succeeds, each slot is wired by its configuration: to a stream of the parent,
  -- the null device or a copy of its file, with nothing kept by the parent; to one end of a new pipe,
  -- the other end of which the parent keeps, the writer where the child reads and the reader where
  -- it writes; a merged slot to a copy of the end that its target has in the result, where the
  -- target is no merge. It is left alone if and only if it is an extra slot that is not configured, or a
  -- standard stream on a pipe whose ends another owner opens; then nothing is kept by the parent either.
  pub resolve_stdio-Wired :
      (slots : List Fd) (slot : Fd) (s : S) (out : Ends E R W)
      → has slots slot ≡ true
      → (resolve_stdio sys fds ownership slots s).0 ≡ ok out
      → Wired slot out
  unfolding resolve_stdio
  resolve_stdio-Wired slots slot s out m h =
      Passed-Wired slots s out slot m (resolve-Passed slots s out _ refl h)
