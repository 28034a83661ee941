-- ===== src/Child/CrtFds/Tests.antt =====
-- A table with a pipe, a console and a file, the last two slots apart.
use subprocess.Prelude.{ℕ, [], ◌∷◌, some, ◌≡◌, refl, arith, length, ◌≤◌}
use subprocess.Child.Stdio.{lookup_fd}
use subprocess.Child.CrtFds.{
  FdKind, present_flag, Entries, le_bytes, slot_count, flags_from, handle_bytes, encode, max_fd,
  max_slot, ensure_fd_table_fits, table_fits, encoded_len,
}
use subprocess.Child.CrtFds.Bounds.{ensure_fd_table_fits_bound}
use subprocess.Child.CrtFds.Reading.{read_table, slot_at, read_table-encode}

abbrev entries : Entries
entries = (0, (300, FdKind.pipe)) ∷ (1, (7, FdKind.char_dev)) ∷ (3, (9, FdKind.file)) ∷ []

encoded :
    (encode entries 2).bytes
    ≡ 4 ∷ 0 ∷ 0 ∷ 0 ∷ 0x09 ∷ 0x41 ∷ 0 ∷ 0x01 ∷ 44 ∷ 1 ∷ 7 ∷ 0 ∷ 255 ∷ 255 ∷ 9 ∷ 0 ∷ []
unfolding encode slot_count le_bytes flags_from handle_bytes lookup_fd present_flag
encoded = refl

read_table-encode_example :
    slot_at 3 (read_table 2 (encode entries 2).bytes) ≡ some (9, FdKind.file)
unfolding lookup_fd
read_table-encode_example = read_table-encode 2 entries 3 (omega arith) (omega arith)

ensure_fd_table_fits_bound_example : length (encode entries 8).bytes ≤ 65535
unfolding slot_count max_slot max_fd ensure_fd_table_fits table_fits encoded_len
ensure_fd_table_fits_bound_example =
    ensure_fd_table_fits_bound {A = ℕ} {I = ℕ} (λ n. n ∷ []) 4294967295 8 ((1, 0) ∷ (3, 0) ∷ [])
      entries (omega arith) (omega arith) refl
