-- ===== src/Containment/Fdmarker.antt =====
-- Finding the processes that hold the marker pipe, on macOS (src/containment/fdmarker.rs, first half).
pub mod Listing
pub mod Holding
pub mod Sweep
pub mod Pass
pub mod Handling
pub mod Swept
pub mod Passes
pub mod Success
pub mod Measure
pub mod Ends
mod Tests
use subprocess.Prelude.{
  ℕ, ◌+◌, ◌-◌, ◌*◌, ◌/◌, ◌%◌, ◌^◌, suc, Bool, true, false, not, ◌&&◌, ◌||◌, List, [], ◌∷◌, ◌++◌,
  Option, some, none, ltb, leb, ◌==◌, if◌then◌else◌, Result, ok, err, ℤ, pos, negsuc, is_positive,
  magnitude, take, Round, next, halt, loop,
}
use subprocess.Identity.{max_pid}

-- `proc_fdinfo`: a descriptor and its type.
pub record FdEntry : Type 0 where
  pub proc_fd : ℕ
  pub proc_fdtype : ℕ

-- `PipeFdInfo`, the fields that are read.
pub record PipeFdInfo : Type 0 where
  pub fi_status : ℕ
  pub pipe_handle : ℕ
  pub pipe_peerhandle : ℕ

pub data FdPipeInfoQuery : Type 0 where
  found : PipeFdInfo → FdPipeInfoQuery
  absent denied : FdPipeInfoQuery

pub data PipeQuery : Type 0 where
  found : List ℕ → PipeQuery
  gone denied : PipeQuery

pub data MarkerQuery : Type 0 where
  held not_held denied : MarkerQuery

pub record Holder : Type 0 where
  pub pid : ℕ
  pub clexec : Bool

-- The two calls of libproc, with the errno left. `proc_pidfdinfo` has the record if it was written whole;
-- `proc_pidinfo` has no buffer, or one of that many records, and answers bytes and records.
pub record ProcSystem (S : Type 0) : Type 0 where
  pub proc_pidfdinfo : S → ℕ → ℕ → (Option PipeFdInfo × Option ℕ) × S
  pub proc_pidinfo : S → ℕ → Option ℕ → (ℤ × List FdEntry × Option ℕ) × S

abbrev pub esrch : ℕ
esrch = 3

abbrev pub ebadf : ℕ
ebadf = 9

-- `PROX_FDTYPE_PIPE` and the size of `proc_fdinfo`.
abbrev pub fdtype_pipe : ℕ
fdtype_pipe = 6

abbrev pub fd_entry : ℕ
fd_entry = 8

-- `PROC_FP_CLEXEC`, the bit of value 2.
unfoldable pub has_clexec : ℕ → Bool
has_clexec status = (status / 2) % 2 == 1

unfoldable pub classify_fd_failure : Option ℕ → FdPipeInfoQuery
classify_fd_failure none = FdPipeInfoQuery.absent
classify_fd_failure (some errno) =
    if errno == 0 || (errno == esrch || errno == ebadf)
    then FdPipeInfoQuery.absent
    else FdPipeInfoQuery.denied

unfoldable pub classify_pidlistfds_failure : Option ℕ → PipeQuery
classify_pidlistfds_failure none = PipeQuery.found []
classify_pidlistfds_failure (some errno) =
    if errno == 0
    then PipeQuery.found []
    else if errno == esrch
    then PipeQuery.gone
    else PipeQuery.denied

-- The product, if neither `usize` nor `c_int` overflows.
unfoldable pub fd_list_buf_bytes : ℕ → ℕ → Option ℕ
fd_list_buf_bytes size entry =
    if ltb (size * entry) (2 ^ 64)
    then (if leb (size * entry) max_pid then some (size * entry) else none)
    else none

unfoldable pub pipes_in : List FdEntry → List ℕ
pipes_in [] = []
pipes_in (f ∷ fds) =
    let rest = pipes_in fds in if f.proc_fdtype == fdtype_pipe then f.proc_fd ∷ rest else rest

-- A `c_int` that is positive, as a number of bytes.
unfoldable pub written_bytes : ℤ → Option ℕ
written_bytes n = if is_positive n then some (magnitude n) else none

-- The descriptor floor of the marker: `HIGH_FLOOR`, and above the reserved descriptors, with
-- `saturating_add` at `i32::MAX`.
abbrev pub high_floor : ℕ
high_floor = 64

abbrev pub max : ℕ → ℕ → ℕ
max a b = if ltb a b then b else a

abbrev pub min : ℕ → ℕ → ℕ
min a b = if ltb b a then b else a

unfoldable pub max_of : List ℕ → Option ℕ
max_of [] = none
max_of (r ∷ reserved) =
    let rest = max_of reserved in elim rest [ some m ↦ some (max r m) | none ↦ some r ]

unfoldable pub floor_above : Option ℕ → ℕ
floor_above none = max high_floor high_floor
floor_above (some m) = max (min (m + 1) max_pid) high_floor

unfoldable pub safe_marker_fd : ℕ → List ℕ → ℕ
safe_marker_fd candidate reserved = max candidate (floor_above (max_of reserved))

module _ {S : Type 0} (sys : ProcSystem S) where
  unfoldable pub fd_pipe_info : ℕ → ℕ → S → FdPipeInfoQuery × S
  fd_pipe_info pid fd s =
      let ((info, errno), t) = sys.proc_pidfdinfo s pid fd in
      (elim info [ some i ↦ FdPipeInfoQuery.found i | none ↦ classify_fd_failure errno ], t)

  -- The variables of the loop of `pipe_fds_of`.
  abbrev pub Buffer : Type 0
  Buffer = ℕ × S

  -- What a call that wrote `count` records into a buffer of `size` comes to.
  unfoldable pub listed : ℕ → ℕ → List FdEntry → S → Round Buffer (PipeQuery × S)
  listed size count fds t =
      if ltb size count
      then halt (PipeQuery.denied, t)
      else if count == size
      then next (size * 2, t)
      else halt (PipeQuery.found (pipes_in (take count fds)), t)

  -- The answer of a call with a buffer of `size` records.
  unfoldable pub list_written :
      ℕ → Option ℕ → List FdEntry → Option ℕ → S → Round Buffer (PipeQuery × S)
  list_written size none fds errno t = halt (classify_pidlistfds_failure errno, t)
  list_written size (some written) fds errno t = listed size (written / fd_entry) fds t

  unfoldable pub list_sized : ℕ → ℕ → Option ℕ → S → Round Buffer (PipeQuery × S)
  list_sized pid size none s = halt (PipeQuery.denied, s)
  list_sized pid size (some bytes) s =
      let ((n, fds, errno), t) = sys.proc_pidinfo s pid (some size) in
      list_written size (written_bytes n) fds errno t

  unfoldable pub list_round : ℕ → Buffer → Round Buffer (PipeQuery × S)
  list_round pid (size, s) = list_sized pid size (fd_list_buf_bytes size fd_entry) s

  -- How far the buffer is from one that no `c_int` can describe.
  abbrev pub room : Buffer → ℕ
  room (records, s) = (2 ^ 31) - records

  unfoldable pub list_needed : ℕ → Option ℕ → Option ℕ → S → Option (PipeQuery × S)
  list_needed pid none errno t = some (classify_pidlistfds_failure errno, t)
  list_needed pid (some needed) errno t = loop (list_round pid) room (needed / fd_entry + 16, t)

  unfoldable pub pipe_fds_of : ℕ → S → Option (PipeQuery × S)
  pipe_fds_of pid s =
      let ((n, fds, errno), t) = sys.proc_pidinfo s pid none in
      list_needed pid (written_bytes n) errno t
