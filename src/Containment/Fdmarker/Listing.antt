-- ===== src/Containment/Fdmarker/Listing.antt =====
-- The listing of a process's descriptors, and the descriptor of the marker (src/containment/fdmarker.rs).
use subprocess.Prelude.{
  ◌⊎◌, true, false, ℤ, is_positive, magnitude, take, ◌≢◌, ℕ, ◌*◌, ◌/◌, ◌≤◌, ◌<◌, List, [], ◌∷◌,
  Option, some, none, ◌≡◌, refl, arith,
}
use subprocess.Identity.{max_pid}
use subprocess.Containment.Fdmarker.{
  FdEntry, PipeQuery, ProcSystem, fd_entry, esrch, pipes_in, max, max_of, floor_above,
  safe_marker_fd, high_floor,
}

module _ (S : Type 0) (sys : ProcSystem S) where
  -- What the answer of a listing rests on. A list is what the kernel wrote into a buffer that it did not
  -- fill, or it reported nothing and no failure; a process is gone where the kernel knows none; and it is
  -- denied where the kernel refused, wrote more than the buffer holds, or no `c_int` describes the buffer.
  pub data Answered (pid : ℕ) : PipeQuery → Type 0 where
    wrote :
        (u : S) (size : ℕ) (n : ℤ) (fds : List FdEntry) (errno : Option ℕ)
        → (sys.proc_pidinfo u pid (some size)).0 ≡ (n, fds, errno)
        → is_positive n ≡ true
        → magnitude n / fd_entry < size
        → Answered pid (PipeQuery.found (pipes_in (take (magnitude n / fd_entry) fds)))
    silent :
        (u : S) (buffer : Option ℕ) (n : ℤ) (fds : List FdEntry) (errno : Option ℕ)
        → (sys.proc_pidinfo u pid buffer).0 ≡ (n, fds, errno)
        → is_positive n ≡ false
        → (errno ≡ none) ⊎ (errno ≡ some 0)
        → Answered pid (PipeQuery.found [])
    missing :
        (u : S) (buffer : Option ℕ) (n : ℤ) (fds : List FdEntry)
        → (sys.proc_pidinfo u pid buffer).0 ≡ (n, fds, some esrch)
        → is_positive n ≡ false
        → Answered pid PipeQuery.gone
    refused :
        (u : S) (buffer : Option ℕ) (n : ℤ) (fds : List FdEntry) (errno : ℕ)
        → (sys.proc_pidinfo u pid buffer).0 ≡ (n, fds, some errno)
        → is_positive n ≡ false
        → errno ≢ 0
        → errno ≢ esrch
        → Answered pid PipeQuery.denied
    overrun :
        (u : S) (size : ℕ) (n : ℤ) (fds : List FdEntry) (errno : Option ℕ)
        → (sys.proc_pidinfo u pid (some size)).0 ≡ (n, fds, errno)
        → size < magnitude n / fd_entry
        → Answered pid PipeQuery.denied
    oversized : (size : ℕ) → max_pid < size * fd_entry → Answered pid PipeQuery.denied

-- A descriptor is in a list.
pub data In : ℕ → List ℕ → Type 0 where
  here : {x : ℕ} {xs : List ℕ} → In x (x ∷ xs)
  there : {x : ℕ} {y : ℕ} {xs : List ℕ} → In x xs → In x (y ∷ xs)

max_of-In :
    (r : ℕ) (reserved : List ℕ) → In r reserved → (m : ℕ) × (max_of reserved ≡ some m) × (r ≤ m)
unfolding max_of
max_of-In r [] i = elim i [ ]
max_of-In r (x ∷ xs) In.here = go (max_of xs)
  where
    go :
        (o : Option ℕ)
        → (m : ℕ) × ((elim o as (λ x. Option ℕ) [ some m ↦ some (max x m) | none ↦ some x ])
            ≡ some m)
          × (x ≤ m)
    go none = (x, refl, omega arith)
    go (some m) = (max x m, refl, ground arith)
max_of-In r (x ∷ xs) (In.there i) =
    let (m, e, below) = max_of-In r xs i in (max x m, rw e refl, ground arith)

floor_above_low : (o : Option ℕ) → high_floor ≤ floor_above o
unfolding floor_above
floor_above_low none = omega arith
floor_above_low (some m) = ground arith

floor_above_top :
    (o : Option ℕ) (m : ℕ) (r : ℕ)
    → o ≡ some m
    → r ≤ m
    → floor_above o < max_pid
    → r < floor_above o
unfolding floor_above
floor_above_top none m r e b l = ground arith
floor_above_top (some n) m r e b l = ground arith

max_bounds : (a : ℕ) (b : ℕ) → (a ≤ max a b) × (b ≤ max a b)
max_bounds a b = (ground arith, ground arith)

-- The descriptor for the marker is no less than the floor of 64 and than the write end's own, so it is no
-- standard stream; if it is less than `i32::MAX`, it is above each descriptor that the command reserves.
pub safe_marker_fd-bounds :
    (candidate : ℕ) (reserved : List ℕ)
    → (high_floor ≤ safe_marker_fd candidate reserved)
      × (candidate ≤ safe_marker_fd candidate reserved)
      × ((r : ℕ)
          → In r reserved
          → safe_marker_fd candidate reserved < max_pid
          → r < safe_marker_fd candidate reserved)
unfolding safe_marker_fd
safe_marker_fd-bounds candidate reserved =
    let floor : ℕ = floor_above (max_of reserved) in
    let (left, right) = max_bounds candidate floor in
    let low = floor_above_low (max_of reserved) in
    (
      omega arith,
      left,
      λ r i l.
          let (m, e, below) = max_of-In r reserved i in
          let top = floor_above_top (max_of reserved) m r e below (omega arith) in omega arith,
    )
