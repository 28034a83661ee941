-- ===== src/Child/Stdio.antt =====
-- The descriptors of a child: what each slot is connected to, and what the parent keeps
-- (src/child/spawn.rs, resolve_stdio and the functions behind it; Display of src/stdio.rs).
pub mod Lookups
pub mod Opening
pub mod Passes
pub mod Merging
pub mod Wiring
mod Tests
use subprocess.Prelude.{
  ℕ, Bool, true, false, ◌&&◌, List, [], ◌∷◌, ◌++◌, Option, some, none, ◌==◌, ltb, leb,
  if◌then◌else◌, Result, ok, err, and_then, ◌>>=◌, codes,
}
use subprocess.Errors.{Text, Error, Done}
use subprocess.Command.{Fd, Direction, ResolvedStdio, insert_fd}

pub data ParentEnd (R : Type 0) (W : Type 0) : Type 0 where
  reader : R → ParentEnd R W
  writer : W → ParentEnd R W

pub data PipeOwnership : Type 0 where
  owned deferred : PipeOwnership

-- A failure: an error, or `unreachable!`.
pub data Fault (I : Type 0) : Type 0 where
  refused : Error I → Fault I
  unreachable : Fault I

-- The calls: pipes, the null device, and copies of files, of ends and of the parent's own streams. `F`
-- stands for files, `E` for child ends, `R` and `W` for the two ends of a pipe.
pub record StdioSystem (S : Type 0) (F : Type 0) (E : Type 0) (R : Type 0) (W : Type 0) (I : Type 0)
    : Type 0 where
  pub os : Text
  pub family : Text
  pub decimal : ℕ → Text
  pub pipe : S → Result (R × W) I × S
  pub of_reader : R → E
  pub of_writer : W → E
  pub open_null : S → Result E I × S
  pub clone_file : S → F → Result E I × S
  pub clone_end : S → E → Result E I × S
  pub clone_std : S → Fd → Result E I × S

-- The maps of `resolve_stdio`.
pub record Ends (E : Type 0) (R : Type 0) (W : Type 0) : Type 0 where
  pub child_ends : List (Fd × E)
  pub parent_ends : List (Fd × ParentEnd R W)

unfoldable pub lookup_fd : {A : Type 0} → Fd → List (Fd × A) → Option A
lookup_fd n [] = none
lookup_fd n ((m, a) ∷ fds) = if m == n then some a else lookup_fd n fds

module _ {S : Type 0} {F : Type 0} {E : Type 0} {R : Type 0} {W : Type 0} {I : Type 0}
    (sys : StdioSystem S F E R W I) where
  -- `Display` of a descriptor.
  unfoldable pub fd_text : Fd → Text
  fd_text n =
      if n == 0
      then codes "stdin"
      else if n == 1
      then codes "stdout"
      else if n == 2
      then codes "stderr"
      else codes "fd " ++ sys.decimal n

  -- `map_err(Error::Io)`, and the two shapes of what a slot resolves to.
  abbrev pub Opened : Type 0
  Opened = Result (E × Option (ParentEnd R W)) (Fault I)

  abbrev alone : Result E I → Opened
  alone (ok e) = ok (e, none)
  alone (err e) = err (Fault.refused (Error.io e))

  unfoldable pub pipe_ends : Direction → Result (R × W) I → Opened
  pipe_ends Direction.in_ (ok (r, w)) = ok (sys.of_reader r, some (ParentEnd.writer w))
  pipe_ends Direction.out (ok (r, w)) = ok (sys.of_writer w, some (ParentEnd.reader r))
  pipe_ends dir (err e) = err (Fault.refused (Error.io e))

  unfoldable pub make_pipe : Direction → S → Opened × S
  make_pipe dir s = let (answer, t) = sys.pipe s in (pipe_ends dir answer, t)

  unfoldable pub inherit_end : Fd → S → Opened × S
  inherit_end slot s =
      if ltb slot 3 then (let (answer, t) = sys.clone_std s slot in (alone answer, t)) else (
        err (
            Fault.refused (
              Error.unsupported (codes "Stdio::inherit() on " ++ fd_text slot) sys.family (
                codes
                  "inherit on fd >= 3 has no defined parent stream; use pipe/file/null instead"))),
        s,
      )

  unfoldable pub null_end : S → Opened × S
  null_end s = let (answer, t) = sys.open_null s in (alone answer, t)

  unfoldable pub file_end : F → S → Opened × S
  file_end f s = let (answer, t) = sys.clone_file s f in (alone answer, t)

  unfoldable pub resolve_non_merge : Fd → Option (ResolvedStdio F) → S → Opened × S
  resolve_non_merge slot none s = inherit_end slot s
  resolve_non_merge slot (some ResolvedStdio.inherit) s = inherit_end slot s
  resolve_non_merge slot (some ResolvedStdio.null) s = null_end s
  resolve_non_merge slot (some (ResolvedStdio.file f)) s = file_end f s
  resolve_non_merge slot (some (ResolvedStdio.pipe dir)) s = make_pipe dir s
  resolve_non_merge slot (some (ResolvedStdio.merge target)) s = (err Fault.unreachable, s)

  module _ (fds : List (Fd × ResolvedStdio F)) where
    -- The pass that rejects a merge onto a merge.
    unfoldable pub chained : Fd → Fd → Option (ResolvedStdio F) → Result Done (Fault I)
    chained slot target (some (ResolvedStdio.merge other)) = err (
        Fault.refused (
          Error.unsupported
            (codes "merge "
              ++ (fd_text slot
                  ++ (codes " -> " ++ (fd_text target ++ codes " -> <another merge>"))))
            sys.os
            (codes
              "chained merges (merge-to-merge) are not supported; redirect to a concrete slot (pipe/file/null/inherit)")))
    chained slot target (some ResolvedStdio.inherit) = ok tt
    chained slot target (some ResolvedStdio.null) = ok tt
    chained slot target (some (ResolvedStdio.pipe dir)) = ok tt
    chained slot target (some (ResolvedStdio.file f)) = ok tt
    chained slot target none = ok tt

    unfoldable pub check_slot : Fd → Option (ResolvedStdio F) → Result Done (Fault I)
    check_slot slot (some (ResolvedStdio.merge target)) = chained slot target (lookup_fd target fds)
    check_slot slot (some ResolvedStdio.inherit) = ok tt
    check_slot slot (some ResolvedStdio.null) = ok tt
    check_slot slot (some (ResolvedStdio.pipe dir)) = ok tt
    check_slot slot (some (ResolvedStdio.file f)) = ok tt
    check_slot slot none = ok tt

    unfoldable pub check_chains : List Fd → Result Done (Fault I)
    check_chains [] = ok tt
    check_chains (slot ∷ slots) =
        check_slot slot (lookup_fd slot fds) >>= λ done. check_chains slots

    -- The slots that the second pass leaves out: merges, piped standard streams that another owner
    -- will open, and extra slots that nothing is said about.
    abbrev pub skips : PipeOwnership → Fd → Option (ResolvedStdio F) → Bool
    skips ownership slot (some (ResolvedStdio.merge target)) = true
    skips PipeOwnership.deferred slot (some (ResolvedStdio.pipe dir)) = ltb slot 3
    skips ownership slot none = leb 3 slot
    skips ownership slot _ = false

    unfoldable pub put_ends : Fd → E → Option (ParentEnd R W) → Ends E R W → Ends E R W
    put_ends slot e none ends = record ends { child_ends = insert_fd slot e ends.child_ends }
    put_ends slot e (some p) ends = record {
      child_ends = insert_fd slot e ends.child_ends;
      parent_ends = insert_fd slot p ends.parent_ends;
    }

    abbrev pub placed : Fd → Ends E R W → Opened → Result (Ends E R W) (Fault I)
    placed slot ends (ok (e, p)) = ok (put_ends slot e p ends)
    placed slot ends (err f) = err f

    unfoldable pub open_slot :
        PipeOwnership → Fd → Ends E R W → S → Result (Ends E R W) (Fault I) × S
    open_slot ownership slot ends s =
        if skips ownership slot (lookup_fd slot fds)
        then (ok ends, s)
        else (let (answer, t) = resolve_non_merge slot (lookup_fd slot fds) s in
            (placed slot ends answer, t))

    unfoldable pub open_slots :
        PipeOwnership → List Fd → Ends E R W → S → Result (Ends E R W) (Fault I) × S
    open_slots ownership [] ends s = (ok ends, s)
    open_slots ownership (slot ∷ slots) ends s =
        let (answer, t) = open_slot ownership slot ends s in
        and_then answer (open_slots ownership slots) t

    -- The third pass: a merge duplicates the end of its target.
    abbrev pub is_piped : Option (ResolvedStdio F) → Bool
    is_piped (some (ResolvedStdio.pipe dir)) = true
    is_piped _ = false

    abbrev pub is_deferred : PipeOwnership → Bool
    is_deferred PipeOwnership.deferred = true
    is_deferred PipeOwnership.owned = false

    abbrev merge_text : Fd → Fd → Text
    merge_text slot target = fd_text slot ++ (codes " -> " ++ fd_text target)

    abbrev pub copied : Result E I → Result E (Fault I)
    copied (ok e) = ok e
    copied (err e) = err (Fault.refused (Error.io e))

    unfoldable pub merge_source : Fd → Fd → Option E → S → Result E (Fault I) × S
    merge_source slot target (some src) s =
        let (answer, t) = sys.clone_end s src in (copied answer, t)
    merge_source slot target none s = (
      err (
          Fault.refused (
            Error.unsupported (codes "merge " ++ merge_text slot target) sys.os
              (codes "merge target descriptor is not configured"))),
      s,
    )

    unfoldable pub merge_slot : PipeOwnership → Fd → Fd → List (Fd × E) → S → Result E (Fault I) × S
    merge_slot ownership slot target ends s =
        if is_deferred ownership && (ltb target 3 && is_piped (lookup_fd target fds))
        then (
          err (
              Fault.refused (
                Error.unsupported
                  (codes "async merge " ++ (merge_text slot target ++ codes " (piped)")) sys.os
                  (codes
                    "merging into a piped target with a deferred (tokio-owned) pipe end needs the merge target resolved first; merge into file/null/inherit, or capture separately"))),
          s,
        )
        else merge_source slot target (lookup_fd target ends) s

    -- `matches!(fds.get(&slot), Some(Merge(target)))`.
    abbrev pub merge_target : Option (ResolvedStdio F) → Option Fd
    merge_target (some (ResolvedStdio.merge target)) = some target
    merge_target _ = none

    abbrev pub merged : Fd → List (Fd × E) → Result E (Fault I) → Result (List (Fd × E)) (Fault I)
    merged slot ends (ok e) = ok (insert_fd slot e ends)
    merged slot ends (err f) = err f

    unfoldable pub merge_at :
        PipeOwnership → Fd → Option Fd → List (Fd × E) → S → Result (List (Fd × E)) (Fault I) × S
    merge_at ownership slot none ends s = (ok ends, s)
    merge_at ownership slot (some target) ends s =
        let (answer, t) = merge_slot ownership slot target ends s in (merged slot ends answer, t)

    unfoldable pub merge_slots :
        PipeOwnership → List Fd → List (Fd × E) → S → Result (List (Fd × E)) (Fault I) × S
    merge_slots ownership [] ends s = (ok ends, s)
    merge_slots ownership (slot ∷ slots) ends s =
        let (answer, t) = merge_at ownership slot (merge_target (lookup_fd slot fds)) ends s in
        and_then answer (merge_slots ownership slots) t

    abbrev pub with_children :
        Ends E R W → Result (List (Fd × E)) (Fault I) → Result (Ends E R W) (Fault I)
    with_children ends (ok child_ends) = ok (record ends { child_ends = child_ends })
    with_children ends (err f) = err f

    unfoldable pub merged_ends :
        PipeOwnership
        → List Fd
        → Result (Ends E R W) (Fault I)
        → S
        → Result (Ends E R W) (Fault I) × S
    merged_ends ownership slots (ok ends) s =
        let (answer, t) = merge_slots ownership slots ends.child_ends s in
        (with_children ends answer, t)
    merged_ends ownership slots (err f) s = (err f, s)

    unfoldable pub opened_ends :
        PipeOwnership → List Fd → Result Done (Fault I) → S → Result (Ends E R W) (Fault I) × S
    opened_ends ownership slots (ok done) s =
        let (answer, t) =
          open_slots ownership slots (record { child_ends = []; parent_ends = [] }) s in
        merged_ends ownership slots answer t
    opened_ends ownership slots (err f) s = (err f, s)

    unfoldable pub resolve_stdio : PipeOwnership → List Fd → S → Result (Ends E R W) (Fault I) × S
    resolve_stdio ownership slots s = opened_ends ownership slots (check_chains slots) s
