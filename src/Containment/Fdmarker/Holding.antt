-- ===== src/Containment/Fdmarker/Holding.antt =====
-- Which processes hold the marker (src/containment/fdmarker.rs, src/containment/marker_eof.rs).
use subprocess.Prelude.{
  ℕ, Bool, true, false, not, ◌&&◌, List, [], ◌∷◌, ◌++◌, some, none, ◌==◌, if◌then◌else◌, Result, ok,
  err, codes,
}
use subprocess.Errors.{Error, Done}
use subprocess.Containment.Fdmarker.{
  FdPipeInfoQuery, PipeQuery, MarkerQuery, Holder, ProcSystem, has_clexec, fd_pipe_info,
  pipe_fds_of,
}

-- The variables of the loop over one process's descriptors, in `holders`.
pub record Copies : Type 0 where
  pub found : Bool
  pub all_clexec : Bool

-- What one descriptor adds.
unfoldable pub count_copy : ℕ → FdPipeInfoQuery → Copies → Copies
count_copy handle (FdPipeInfoQuery.found info) c =
    if not (info.pipe_handle == handle)
    then c
    else record { found = true; all_clexec = c.all_clexec && has_clexec info.fi_status }
count_copy handle FdPipeInfoQuery.absent c = c
count_copy handle FdPipeInfoQuery.denied c = c

pub data WriteEndCheck : Type 0 where
  clear held_by_us unassessable : WriteEndCheck

module _ {S : Type 0} (sys : ProcSystem S) where
  -- `pipe_fds_of` always gives a result, so the second case is not taken.
  unfoldable pub pipes_of : ℕ → S → PipeQuery × S
  pipes_of pid s = elim (pipe_fds_of sys pid s) [ some r ↦ r | none ↦ (PipeQuery.denied, s) ]

  unfoldable pub scan_copies : ℕ → ℕ → List ℕ → Copies → S → Copies × S
  scan_copies handle pid [] c s = (c, s)
  scan_copies handle pid (fd ∷ fds) c s =
      let (answer, t) = fd_pipe_info sys pid fd s in
      scan_copies handle pid fds (count_copy handle answer c) t

  unfoldable pub holder_from : ℕ → ℕ → PipeQuery → S → List Holder × S
  holder_from handle pid (PipeQuery.found fds) s =
      let (c, t) = scan_copies handle pid fds (record { found = false; all_clexec = true }) s in
      (if not c.found then [] else record { pid = pid; clexec = c.all_clexec } ∷ [], t)
  holder_from handle pid PipeQuery.gone s = ([], s)
  holder_from handle pid PipeQuery.denied s = ([], s)

  unfoldable pub holders : ℕ → List ℕ → S → List Holder × S
  holders handle [] s = ([], s)
  holders handle (pid ∷ pids) s =
      let (answer, t) = pipes_of pid s in
      let (one, u) = holder_from handle pid answer t in
      let (rest, v) = holders handle pids u in (one ++ rest, v)

  -- The loop of `holds_marker_query`: the first copy or denial decides.
  unfoldable pub query_copies : ℕ → ℕ → List ℕ → S → MarkerQuery × S
  query_copies handle pid [] s = (MarkerQuery.not_held, s)
  query_copies handle pid (fd ∷ fds) s =
      let (answer, t) = fd_pipe_info sys pid fd s in
      let rest = query_copies handle pid fds t in
      elim answer [
        | FdPipeInfoQuery.found info ↦
            if info.pipe_handle == handle then (MarkerQuery.held, t) else rest
        | FdPipeInfoQuery.absent ↦ rest
        | FdPipeInfoQuery.denied ↦ (MarkerQuery.denied, t)
      ]

  unfoldable pub query_listed : ℕ → ℕ → PipeQuery → S → MarkerQuery × S
  query_listed handle pid (PipeQuery.found fds) s = query_copies handle pid fds s
  query_listed handle pid PipeQuery.gone s = (MarkerQuery.not_held, s)
  query_listed handle pid PipeQuery.denied s = (MarkerQuery.denied, s)

  unfoldable pub holds_marker_query : ℕ → ℕ → S → MarkerQuery × S
  holds_marker_query pid handle s =
      let (answer, t) = pipes_of pid s in query_listed handle pid answer t

  -- The loop of `write_end_check`; the flag says that a probe has failed.
  unfoldable pub scan_own : ℕ → ℕ → ℕ → List ℕ → Bool → S → WriteEndCheck × S
  scan_own me read_end write_handle [] failed s =
      (if failed then WriteEndCheck.unassessable else WriteEndCheck.clear, s)
  scan_own me read_end write_handle (fd ∷ fds) failed s =
      let (answer, t) = fd_pipe_info sys me fd s in
      let skipped = scan_own me read_end write_handle fds failed s in
      let rest = scan_own me read_end write_handle fds failed t in
      let denied = scan_own me read_end write_handle fds true t in
      if fd == read_end then skipped else elim answer [
        | FdPipeInfoQuery.found info ↦
            if info.pipe_handle == write_handle then (WriteEndCheck.held_by_us, t) else rest
        | FdPipeInfoQuery.absent ↦ rest
        | FdPipeInfoQuery.denied ↦ denied
      ]

  unfoldable pub write_end_listed : ℕ → ℕ → ℕ → PipeQuery → S → WriteEndCheck × S
  write_end_listed me read_end write_handle (PipeQuery.found fds) s =
      scan_own me read_end write_handle fds false s
  write_end_listed me read_end write_handle PipeQuery.gone s = (WriteEndCheck.unassessable, s)
  write_end_listed me read_end write_handle PipeQuery.denied s = (WriteEndCheck.unassessable, s)

  unfoldable pub write_end_check : ℕ → ℕ → S → WriteEndCheck × S
  write_end_check me read_end s =
      let (answer, t) = fd_pipe_info sys me read_end s in
      elim answer [
        | FdPipeInfoQuery.found info ↦
            (let (fds, u) = pipes_of me t in
              write_end_listed me read_end info.pipe_peerhandle fds u)
        | FdPipeInfoQuery.absent ↦ (WriteEndCheck.unassessable, t)
        | FdPipeInfoQuery.denied ↦ (WriteEndCheck.unassessable, t)
      ]

unfoldable pub refuse_checked : {I : Type 0} → Bool → WriteEndCheck → Result Done (Error I)
refuse_checked unbounded_wait WriteEndCheck.clear = ok tt
refuse_checked false WriteEndCheck.unassessable = ok tt
refuse_checked true WriteEndCheck.unassessable = err (
    Error.unassessable
      (codes
        "could not confirm this process holds no copy of the containment marker's write end, and the wait has no deadline")
      none)
refuse_checked unbounded_wait WriteEndCheck.held_by_us = err (
    Error.containment (
      codes
        "the supervisor still holds a copy of the containment marker's write end, so the tree-drain edge can never fire"))

unfoldable pub refuse_if_write_end_held :
    {S : Type 0} → {I : Type 0} → ProcSystem S → ℕ → ℕ → Bool → S → Result Done (Error I) × S
refuse_if_write_end_held sys me read_end unbounded_wait s =
    let (check, t) = write_end_check sys me read_end s in (refuse_checked unbounded_wait check, t)
