-- ===== src/Child/CrtFds.antt =====
-- The descriptor table that a Windows child's C runtime inherits (src/child/spawn/windows_raw/crt_fds.rs,
-- src/child/spawn/windows_raw.rs). `width` is the size of a handle in bytes.
pub mod Reading
pub mod Bounds
mod Tests
use subprocess.Prelude.{
  ℕ, zero, suc, ◌+◌, ◌-◌, ◌*◌, ◌/◌, ◌%◌, ◌^◌, Bool, true, false, List, [], ◌∷◌, ◌++◌, Option, some,
  none, ◌==◌, ltb, leb, if◌then◌else◌, Result, ok, err, codes,
}
use subprocess.Errors.{Text, Error, Done}
use subprocess.Command.{Fd, ResolvedStdio}
use subprocess.Child.Stdio.{lookup_fd, fd_text}

pub data FdKind : Type 0 where
  pipe file char_dev : FdKind

-- What `GetFileType` answers; `other` comes with what `GetLastError` says behind it, if anything.
pub data FileType (I : Type 0) : Type 0 where
  type_pipe type_char type_disk : FileType I
  other : Option I → FileType I

unfoldable pub classify : {I : Type 0} → FileType I → Result FdKind (Error I)
classify type_pipe = ok FdKind.pipe
classify type_char = ok FdKind.char_dev
classify type_disk = ok FdKind.file
classify (other none) = ok FdKind.file
classify (other (some e)) = err (Error.io e)

-- FOPEN is 0x01, FPIPE is 0x08 and FDEV is 0x40.
unfoldable pub present_flag : FdKind → ℕ
present_flag FdKind.pipe = 0x01 + 0x08
present_flag FdKind.char_dev = 0x01 + 0x40
present_flag FdKind.file = 0x01

-- A handle is its bits.
abbrev pub Entries : Type 0
Entries = List (Fd × (ℕ × FdKind))

pub record FdTable : Type 0 where
  pub bytes : List ℕ
  pub handles : List ℕ

unfoldable pub table_fits : ℕ → Bool
table_fits byte_len = leb byte_len 65535

-- Where the arithmetic of usize overflows, the length does not fit either.
unfoldable pub encoded_len : ℕ → ℕ → Fd → ℕ
encoded_len usize_max width maxfd =
    if table_fits (4 + (maxfd + 1) * (1 + width)) then 4 + (maxfd + 1) * (1 + width) else usize_max

-- The bytes of a number, the lowest first.
unfoldable pub le_bytes : ℕ → ℕ → List ℕ
le_bytes zero x = []
le_bytes (suc w) x = (x % 256) ∷ le_bytes w (x / 256)

-- One more than the last key.
unfoldable pub slot_count : Entries → ℕ
slot_count [] = 0
slot_count ((fd, e) ∷ []) = fd + 1
slot_count ((fd, e) ∷ d ∷ entries) = slot_count (d ∷ entries)

abbrev pub flag_of : Option (ℕ × FdKind) → ℕ
flag_of (some (h, kind)) = present_flag kind
flag_of none = 0

-- INVALID_HANDLE_VALUE has all bits set.
abbrev pub handle_of : ℕ → Option (ℕ × FdKind) → ℕ
handle_of width (some (h, kind)) = h
handle_of width none = 256 ^ width - 1

abbrev pub pushed : Option (ℕ × FdKind) → List ℕ
pushed (some (h, kind)) = h ∷ []
pushed none = []

module _ (entries : Entries) where
  -- The loops over the slots, from one of them on.
  unfoldable pub flags_from : ℕ → Fd → List ℕ
  flags_from zero i = []
  flags_from (suc k) i = flag_of (lookup_fd i entries) ∷ flags_from k (i + 1)

  unfoldable pub handle_bytes : ℕ → ℕ → Fd → List ℕ
  handle_bytes width zero i = []
  handle_bytes width (suc k) i =
      le_bytes width (handle_of width (lookup_fd i entries)) ++ handle_bytes width k (i + 1)

  unfoldable pub handles_from : ℕ → Fd → List ℕ
  handles_from zero i = []
  handles_from (suc k) i = pushed (lookup_fd i entries) ++ handles_from k (i + 1)

  unfoldable pub encode : ℕ → FdTable
  encode width = record {
    bytes =
        le_bytes 4 (slot_count entries)
        ++ (flags_from (slot_count entries) 0 ++ handle_bytes width (slot_count entries) 0);
    handles = handles_from (slot_count entries) 0;
  }

-- `fds.keys().map(raw).max().unwrap_or(2)`.
unfoldable pub max_fd : {A : Type 0} → List (Fd × A) → Fd → Fd
max_fd [] m = m
max_fd ((fd, a) ∷ fds) m = max_fd fds (if leb m fd then fd else m)

unfoldable pub max_slot : {A : Type 0} → List (Fd × A) → Fd
max_slot [] = 2
max_slot ((fd, a) ∷ fds) = max_fd fds fd

unfoldable pub ensure_fd_table_fits :
    {A : Type 0} → {I : Type 0} → (ℕ → Text) → ℕ → ℕ → List (Fd × A) → Result Done (Error I)
ensure_fd_table_fits decimal usize_max width fds =
    if table_fits (encoded_len usize_max width (max_slot fds))
    then ok tt
    else err (
        Error.unsupported (codes "fd " ++ decimal (max_slot fds)) (codes "windows")
          (codes "descriptor table exceeds the 64KiB cbReserved2 limit"))
