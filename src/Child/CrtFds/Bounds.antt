-- ===== src/Child/CrtFds/Bounds.antt =====
-- The size of an encoded table.
use subprocess.Prelude.{
  ℕ, zero, suc, ◌+◌, ◌*◌, ◌≤◌, ◌<◌, true, List, ◌++◌, length, length-append, ok, ◌≡◌, refl, arith,
  Bool-cases, inl, inr, ◌/◌,
}
use native.Mathlib.Nat.{mul-le-mul_right}
use subprocess.Errors.{Text}
use subprocess.Command.{Fd}
use subprocess.Child.Stdio.{lookup_fd}
use subprocess.Child.CrtFds.{
  Entries, table_fits, encoded_len, le_bytes, slot_count, handle_of, flags_from, handle_bytes,
  encode, max_slot, ensure_fd_table_fits,
}

length-le_bytes : (w : ℕ) (x : ℕ) → length (le_bytes w x) ≡ w
unfolding le_bytes
length-le_bytes zero x = refl
length-le_bytes (suc w) x = omega (arith, length-le_bytes w (x / 256))

length-flags_from : (entries : Entries) (k : ℕ) (i : Fd) → length (flags_from entries k i) ≡ k
unfolding flags_from
length-flags_from entries zero i = refl
length-flags_from entries (suc k) i = omega (arith, length-flags_from entries k (i + 1))

length-handle_bytes :
    (entries : Entries) (width : ℕ) (k : ℕ) (i : Fd)
    → length (handle_bytes entries width k i) ≡ k * width
unfolding handle_bytes
length-handle_bytes entries width zero i = omega arith
length-handle_bytes entries width (suc k) i = grind (
  arith,
  length-append {0} (le_bytes width (handle_of width (lookup_fd i entries)))
      (handle_bytes entries width k (i + 1)),
  length-le_bytes width (handle_of width (lookup_fd i entries)),
  length-handle_bytes entries width k (i + 1),
)

length-encode :
    (entries : Entries) (width : ℕ)
    → length (encode entries width).bytes ≡ 4 + slot_count entries * (1 + width)
unfolding encode
length-encode entries width = grind (
  arith,
  length-append {0} (le_bytes 4 (slot_count entries)) (
      flags_from entries (slot_count entries) 0
      ++ handle_bytes entries width (slot_count entries) 0),
  length-append {0} (flags_from entries (slot_count entries) 0)
      (handle_bytes entries width (slot_count entries) 0),
  length-le_bytes 4 (slot_count entries),
  length-flags_from entries (slot_count entries) 0,
  length-handle_bytes entries width (slot_count entries) 0,
)

encoded_len-fits :
    (usize_max : ℕ) (width : ℕ) (maxfd : Fd)
    → 65535 < usize_max
    → table_fits (encoded_len usize_max width maxfd) ≡ true
    → 4 + (maxfd + 1) * (1 + width) ≤ 65535
unfolding encoded_len table_fits
encoded_len-fits usize_max width maxfd big h = ground arith

-- If the check of the configured descriptors passes, the table of any ends up to the last of them is at
-- most as long as the 16-bit length field can tell.
pub ensure_fd_table_fits_bound :
    {A : Type 0} {I : Type 0} (decimal : ℕ → Text) (usize_max : ℕ) (width : ℕ) (fds : List (Fd × A))
    (entries : Entries)
    → 65535 < usize_max
    → slot_count entries ≤ max_slot fds + 1
    → ensure_fd_table_fits {A = A} {I = I} decimal usize_max width fds ≡ ok tt
    → length (encode entries width).bytes ≤ 65535
unfolding ensure_fd_table_fits
ensure_fd_table_fits_bound decimal usize_max width fds entries big below h =
    elim (Bool-cases (table_fits (encoded_len usize_max width (max_slot fds)))) [
      | inl b ↦ omega (
        arith,
        length-encode entries width,
        encoded_len-fits usize_max width (max_slot fds) big b,
        mul-le-mul_right (1 + width) below,
      )
      | inr b ↦ absurd (cc (rw b at h))
    ]
