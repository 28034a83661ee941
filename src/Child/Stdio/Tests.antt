-- ===== src/Child/Stdio/Tests.antt =====
-- Descriptors 0, 1, 2 and 5, with the error stream merged onto the output.
use subprocess.Prelude.{ℕ, ◌+◌, List, [], ◌∷◌, ok, err, ◌≡◌, refl, codes, and_then}
use subprocess.Errors.{Error}
use subprocess.Command.{Fd, Direction, ResolvedStdio, insert_fd}
use subprocess.Child.Stdio.{
  ParentEnd, PipeOwnership, Fault, StdioSystem, Ends, lookup_fd, fd_text, pipe_ends, make_pipe,
  inherit_end, resolve_non_merge, chained, check_slot, check_chains, put_ends, open_slot,
  open_slots, merge_source, merge_slot, merge_at, merge_slots, merged_ends, opened_ends,
  resolve_stdio,
}
use subprocess.Child.Stdio.Wiring.{Wired, resolve_stdio-Wired}

-- The state counts the descriptors that are open; a copy of an end is 100 above it.
abbrev host : StdioSystem ℕ ℕ ℕ ℕ ℕ ℕ
host = record {
  os = codes "linux";
  family = codes "unix";
  decimal = λ n. n ∷ [];
  pipe = λ s. (ok (s, s + 1), s + 2);
  of_reader = λ r. r;
  of_writer = λ w. w;
  open_null = λ s. (ok s, s + 1);
  clone_file = λ s f. (ok f, s);
  clone_end = λ s e. (ok (e + 100), s);
  clone_std = λ s slot. (ok (slot + 50), s);
}

abbrev slots : List Fd
slots = 0 ∷ 1 ∷ 2 ∷ 5 ∷ []

abbrev fds : List (Fd × ResolvedStdio ℕ)
fds =
    (1, ResolvedStdio.pipe Direction.out)
    ∷ (2, ResolvedStdio.merge 1)
    ∷ (5, ResolvedStdio.pipe Direction.in_)
    ∷ []

abbrev wired : Ends ℕ ℕ ℕ
wired = record {
  child_ends = (0, 50) ∷ (1, 11) ∷ (2, 111) ∷ (5, 12) ∷ [];
  parent_ends = (1, ParentEnd.reader 10) ∷ (5, ParentEnd.writer 13) ∷ [];
}

resolved : resolve_stdio host fds PipeOwnership.owned slots 10 ≡ (ok wired, 14)
unfolding resolve_stdio opened_ends merged_ends merge_slots merge_at merge_slot merge_source
    open_slots open_slot put_ends check_chains check_slot chained resolve_non_merge inherit_end
    make_pipe pipe_ends lookup_fd insert_fd and_then
resolved = refl

-- A merge onto a merge is refused before anything is opened.
resolved-chain :
    resolve_stdio host
      ((1, ResolvedStdio.merge 0) ∷ (2, ResolvedStdio.merge 1) ∷ [])
      PipeOwnership.owned
      slots
      10
    ≡ (
      err (
          Fault.refused (
            Error.unsupported (codes "merge stderr -> stdout -> <another merge>") (codes "linux") (
              codes
                "chained merges (merge-to-merge) are not supported; redirect to a concrete slot (pipe/file/null/inherit)"))),
      10,
    )
unfolding resolve_stdio opened_ends check_chains check_slot chained lookup_fd fd_text
resolved-chain = refl

resolve_stdio-Wired_example : Wired ℕ ℕ ℕ ℕ ℕ ℕ host fds PipeOwnership.owned 2 wired
unfolding resolve_stdio opened_ends merged_ends merge_slots merge_at merge_slot merge_source
    open_slots open_slot put_ends check_chains check_slot chained resolve_non_merge inherit_end
    make_pipe pipe_ends lookup_fd insert_fd and_then
resolve_stdio-Wired_example =
    resolve_stdio-Wired ℕ ℕ ℕ ℕ ℕ ℕ host fds PipeOwnership.owned slots 2 10 wired refl refl
