-- ===== src/Child/Stdio/Opening.antt =====
-- The second pass of `resolve_stdio`: what each slot that is no merge is connected to.
use subprocess.Prelude.{
  false, List, Option, some, none, ◌==◌, ltb, ◌<◌, Result, ok, err, ◌≡◌, refl, sym, ◌∙◌, ◌⊎◌, inl,
  inr, arith, Bool-cases,
}
use subprocess.Command.{Fd, Direction, ResolvedStdio}
use subprocess.Child.Stdio.{
  ParentEnd, StdioSystem, Ends, lookup_fd, pipe_ends, make_pipe, inherit_end, null_end, file_end,
  resolve_non_merge, put_ends, alone,
}
use subprocess.Child.Stdio.Lookups.{lookup_fd-insert_fd}

module _ (S : Type 0) (F : Type 0) (E : Type 0) (R : Type 0) (W : Type 0) (I : Type 0)
    (sys : StdioSystem S F E R W I) where
  -- What a slot is connected to, by its configuration: an own stream of the parent, the null device, a
  -- copy of the file, or one end of a pipe of which the parent keeps the other.
  pub data Connected (slot : Fd) (e : E) (p : Option (ParentEnd R W))
      : Option (ResolvedStdio F) → Type 0 where
    by_default :
        (s : S) → slot < 3 → (sys.clone_std s slot).0 ≡ ok e → p ≡ none → Connected slot e p none
    inherited :
        (s : S)
        → slot < 3
        → (sys.clone_std s slot).0 ≡ ok e
        → p ≡ none
        → Connected slot e p (some ResolvedStdio.inherit)
    nulled :
        (s : S)
        → (sys.open_null s).0 ≡ ok e
        → p ≡ none
        → Connected slot e p (some ResolvedStdio.null)
    filed :
        (s : S) (f : F)
        → (sys.clone_file s f).0 ≡ ok e
        → p ≡ none
        → Connected slot e p (some (ResolvedStdio.file f))
    reads :
        (s : S) (r : R) (w : W)
        → (sys.pipe s).0 ≡ ok (r, w)
        → e ≡ sys.of_reader r
        → p ≡ some (ParentEnd.writer w)
        → Connected slot e p (some (ResolvedStdio.pipe Direction.in_))
    writes :
        (s : S) (r : R) (w : W)
        → (sys.pipe s).0 ≡ ok (r, w)
        → e ≡ sys.of_writer w
        → p ≡ some (ParentEnd.reader r)
        → Connected slot e p (some (ResolvedStdio.pipe Direction.out))

  alone-ok :
      (a : Result E I) (e : E) (p : Option (ParentEnd R W))
      → alone sys a ≡ ok (e, p)
      → (a ≡ ok e) × (p ≡ none)
  alone-ok (ok x) e p h = (ground arith, ground arith)
  alone-ok (err x) e p h = absurd (cc h)

  inherit_end-ok :
      (slot : Fd) (s : S) (e : E) (p : Option (ParentEnd R W))
      → (inherit_end sys slot s).0 ≡ ok (e, p)
      → (slot < 3) × ((sys.clone_std s slot).0 ≡ ok e) × (p ≡ none)
  unfolding inherit_end
  inherit_end-ok slot s e p h = elim (Bool-cases (ltb slot 3)) [
    | inl b ↦ let a = alone-ok _ e p (rw b at h) in (ground arith, a.0, a.1)
    | inr b ↦ absurd (cc (rw b at h))
  ]

  pipe-Connected :
      (slot : Fd) (dir : Direction) (s : S) (a : Result (R × W) I) (e : E)
      (p : Option (ParentEnd R W))
      → (sys.pipe s).0 ≡ a
      → pipe_ends sys dir a ≡ ok (e, p)
      → Connected slot e p (some (ResolvedStdio.pipe dir))
  unfolding pipe_ends
  pipe-Connected slot Direction.in_ s (ok (r, w)) e p q h =
      Connected.reads s r w q (ground arith) (ground arith)
  pipe-Connected slot Direction.out s (ok (r, w)) e p q h =
      Connected.writes s r w q (ground arith) (ground arith)
  pipe-Connected slot Direction.in_ s (err x) e p q h = absurd (cc h)
  pipe-Connected slot Direction.out s (err x) e p q h = absurd (cc h)

  pub resolve-Connected :
      (slot : Fd) (r : Option (ResolvedStdio F)) (s : S) (e : E) (p : Option (ParentEnd R W))
      → (resolve_non_merge sys slot r s).0 ≡ ok (e, p)
      → Connected slot e p r
  unfolding resolve_non_merge null_end file_end make_pipe
  resolve-Connected slot none s e p h =
      let a = inherit_end-ok slot s e p h in Connected.by_default s a.0 a.1 a.2
  resolve-Connected slot (some ResolvedStdio.inherit) s e p h =
      let a = inherit_end-ok slot s e p h in Connected.inherited s a.0 a.1 a.2
  resolve-Connected slot (some ResolvedStdio.null) s e p h =
      let a = alone-ok _ e p h in Connected.nulled s a.0 a.1
  resolve-Connected slot (some (ResolvedStdio.file f)) s e p h =
      let a = alone-ok _ e p h in Connected.filed s f a.0 a.1
  resolve-Connected slot (some (ResolvedStdio.pipe dir)) s e p h =
      pipe-Connected slot dir s _ e p refl h
  resolve-Connected slot (some (ResolvedStdio.merge target)) s e p h = absurd (cc h)

  abbrev direction : Option (ParentEnd R W) → Option Direction
  direction none = none
  direction (some (ParentEnd.writer w)) = some Direction.in_
  direction (some (ParentEnd.reader r)) = some Direction.out

  abbrev piped : Option (ResolvedStdio F) → Option Direction
  piped (some (ResolvedStdio.pipe dir)) = some dir
  piped _ = none

  Connected-direction :
      {slot : Fd} {e : E} {p : Option (ParentEnd R W)} {r : Option (ResolvedStdio F)}
      → Connected slot e p r
      → direction p ≡ piped r
  Connected-direction (Connected.by_default s b c h) = rw h
  Connected-direction (Connected.inherited s b c h) = rw h
  Connected-direction (Connected.nulled s c h) = rw h
  Connected-direction (Connected.filed s f c h) = rw h
  Connected-direction (Connected.reads s r w c d h) = rw h
  Connected-direction (Connected.writes s r w c d h) = rw h

  direction-none : (p : Option (ParentEnd R W)) → direction p ≡ none → p ≡ none
  direction-none none h = refl
  direction-none (some (ParentEnd.writer w)) h = absurd (cc h)
  direction-none (some (ParentEnd.reader r)) h = absurd (cc h)

  module _ (fds : List (Fd × ResolvedStdio F)) where
    -- A slot has ends that are connected by its configuration, or none at all.
    abbrev pub Linked : Ends E R W → Fd → Type 0
    Linked ends slot =
        (e : E) × (p : Option (ParentEnd R W)) × Connected slot e p (lookup_fd slot fds)
        × (lookup_fd slot ends.child_ends ≡ some e)
        × (lookup_fd slot ends.parent_ends ≡ p)

    abbrev pub Blank : Ends E R W → Fd → Type 0
    Blank ends slot =
        (lookup_fd slot ends.child_ends ≡ none) × (lookup_fd slot ends.parent_ends ≡ none)

    abbrev pub Good : Ends E R W → Fd → Type 0
    Good ends slot = Blank ends slot ⊎ Linked ends slot

    kept_parent :
        (ends : Ends E R W) (slot : Fd) (e : E)
        → Good ends slot
        → Connected slot e none (lookup_fd slot fds)
        → lookup_fd slot ends.parent_ends ≡ none
    kept_parent ends slot e (inl blank) c = blank.1
    kept_parent ends slot e (inr (d, p, l, q, h)) c =
        h ∙ direction-none p (Connected-direction l ∙ sym (Connected-direction c))

    pub put-Linked :
        (ends : Ends E R W) (slot : Fd) (e : E) (p : Option (ParentEnd R W))
        → Good ends slot
        → Connected slot e p (lookup_fd slot fds)
        → Linked (put_ends sys fds slot e p ends) slot
    unfolding put_ends
    put-Linked ends slot e none g c = (
      e,
      none,
      c,
      ground (arith, lookup_fd-insert_fd slot slot e ends.child_ends),
      kept_parent ends slot e g c,
    )
    put-Linked ends slot e (some p) g c = (
      e,
      some p,
      c,
      ground (arith, lookup_fd-insert_fd slot slot e ends.child_ends),
      ground (arith, lookup_fd-insert_fd slot slot p ends.parent_ends),
    )

    pub put_other :
        (ends : Ends E R W) (x : Fd) (slot : Fd) (e : E) (p : Option (ParentEnd R W))
        → (x == slot) ≡ false
        → (lookup_fd slot (put_ends sys fds x e p ends).child_ends ≡ lookup_fd slot ends.child_ends)
          × (lookup_fd slot (put_ends sys fds x e p ends).parent_ends
              ≡ lookup_fd slot ends.parent_ends)
    unfolding put_ends
    put_other ends x slot e none h =
        (ground (arith, lookup_fd-insert_fd x slot e ends.child_ends), refl)
    put_other ends x slot e (some p) h = (
      ground (arith, lookup_fd-insert_fd x slot e ends.child_ends),
      ground (arith, lookup_fd-insert_fd x slot p ends.parent_ends),
    )
