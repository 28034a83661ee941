-- ===== src/Child/CrtFds/Reading.antt =====
-- The table as the C runtime reads it: a count, a byte of flags for each slot, and a handle for each slot.
use subprocess.Prelude.{
  ◌≤◌, ltb, Bool-cases, inl, inr, sym, ◌∙◌, ℕ, zero, suc, ◌+◌, ◌*◌, ◌/◌, ◌^◌, ◌<◌, List, [], ◌∷◌,
  ◌++◌, Option, some, none, ◌==◌, if◌then◌else◌, ◌≡◌, refl, ap, arith,
}
use subprocess.Command.{Fd}
use subprocess.Child.Stdio.{lookup_fd}
use subprocess.Child.CrtFds.{
  FdKind, present_flag, Entries, le_bytes, slot_count, flag_of, handle_of, flags_from, handle_bytes,
  encode,
}

-- A number of bytes, the lowest first, and what is behind it.
unfoldable pub read_le : ℕ → List ℕ → ℕ × List ℕ
read_le zero bs = (0, bs)
read_le (suc w) [] = (0, [])
read_le (suc w) (b ∷ bs) = let (x, rest) = read_le w bs in (b + 256 * x, rest)

unfoldable pub read_flags : ℕ → List ℕ → List ℕ × List ℕ
read_flags zero bs = ([], bs)
read_flags (suc k) [] = ([], [])
read_flags (suc k) (b ∷ bs) = let (flags, rest) = read_flags k bs in (b ∷ flags, rest)

-- What a slot's flags and handle stand for: nothing, unless it is in use.
unfoldable pub inherited : ℕ → ℕ → Option (ℕ × FdKind)
inherited flag h =
    if flag == 0x09
    then some (h, FdKind.pipe)
    else if flag == 0x41
    then some (h, FdKind.char_dev)
    else if flag == 0x01
    then some (h, FdKind.file)
    else none

unfoldable pub read_slots : ℕ → List ℕ → List ℕ → List (Option (ℕ × FdKind))
read_slots width [] bs = []
read_slots width (flag ∷ flags) bs =
    let (h, rest) = read_le width bs in inherited flag h ∷ read_slots width flags rest

unfoldable pub read_table : ℕ → List ℕ → List (Option (ℕ × FdKind))
read_table width bs =
    let (n, rest) = read_le 4 bs in
    let (flags, handles) = read_flags n rest in read_slots width flags handles

-- The slots that the code writes.
unfoldable slots_from : Entries → ℕ → Fd → List (Option (ℕ × FdKind))
slots_from entries zero i = []
slots_from entries (suc k) i = lookup_fd i entries ∷ slots_from entries k (i + 1)

read_le-le_bytes :
    (w : ℕ) (x : ℕ) (rest : List ℕ) → x < 256 ^ w → read_le w (le_bytes w x ++ rest) ≡ (x, rest)
unfolding read_le le_bytes
read_le-le_bytes zero x rest h = ground (arith, h)
read_le-le_bytes (suc w) x rest h =
    let low : x / 256 < 256 ^ w = omega (arith, h) in
    rw (read_le-le_bytes w (x / 256) rest low) (ap (λ (n : ℕ). (n, rest)) (omega arith))

read_flags-flags_from :
    (entries : Entries) (k : ℕ) (i : Fd) (rest : List ℕ)
    → read_flags k (flags_from entries k i ++ rest) ≡ (flags_from entries k i, rest)
unfolding read_flags flags_from
read_flags-flags_from entries zero i rest = refl
read_flags-flags_from entries (suc k) i rest = rw (read_flags-flags_from entries k (i + 1) rest)

inherited-slot :
    (width : ℕ) (o : Option (ℕ × FdKind)) → inherited (flag_of o) (handle_of width o) ≡ o
unfolding inherited present_flag
inherited-slot width none = refl
inherited-slot width (some (h, FdKind.pipe)) = refl
inherited-slot width (some (h, FdKind.char_dev)) = refl
inherited-slot width (some (h, FdKind.file)) = refl

-- The handles of the entries fit their width.
abbrev pub Fit : ℕ → Entries → Type 0
Fit width [] = Unit
Fit width ((fd, (h, kind)) ∷ entries) = (h < 256 ^ width) × Fit width entries

power_pos : (w : ℕ) → 0 < 256 ^ w
power_pos zero = omega arith
power_pos (suc w) = omega (arith, power_pos w)

lookup-Fit :
    (width : ℕ) (entries : Entries) (i : Fd)
    → Fit width entries
    → handle_of width (lookup_fd i entries) < 256 ^ width
unfolding lookup_fd
lookup-Fit width [] i f = omega (arith, power_pos width)
lookup-Fit width ((fd, (h, kind)) ∷ entries) i f =
    ground (arith, lookup-Fit width entries i f.1, f.0)

read_slots-slots :
    (width : ℕ) (entries : Entries) (k : ℕ) (i : Fd)
    → Fit width entries
    → read_slots width (flags_from entries k i) (handle_bytes entries width k i)
      ≡ slots_from entries k i
unfolding read_slots flags_from handle_bytes slots_from
read_slots-slots width entries zero i f = refl
read_slots-slots width entries (suc k) i f = rw (
  read_le-le_bytes width (handle_of width (lookup_fd i entries))
      (handle_bytes entries width k (i + 1)) (lookup-Fit width entries i f),
  inherited-slot width (lookup_fd i entries),
  read_slots-slots width entries k (i + 1) f,
)

-- The keys ascend, as those of a BTreeMap do, and the number of slots that they take fits in four bytes.
abbrev pub Ascends : Entries → Type 0
Ascends [] = Unit
Ascends ((fd, e) ∷ []) = fd + 1 < 256 ^ 4
Ascends ((fd, e) ∷ (fd', e') ∷ entries) = (fd < fd') × Ascends ((fd', e') ∷ entries)

slot_count-small : (entries : Entries) → Ascends entries → slot_count entries < 256 ^ 4
unfolding slot_count
slot_count-small [] a = omega arith
slot_count-small ((fd, e) ∷ []) a = a
slot_count-small ((fd, e) ∷ d ∷ entries) a = slot_count-small (d ∷ entries) a.1

-- The first key is the least.
slot_count-above :
    (fd : Fd) (e : ℕ × FdKind) (entries : Entries)
    → Ascends ((fd, e) ∷ entries)
    → fd < slot_count ((fd, e) ∷ entries)
unfolding slot_count
slot_count-above fd e [] a = omega arith
slot_count-above fd e ((fd', e') ∷ entries) a =
    omega (arith, slot_count-above fd' e' entries a.1, a.0)

lookup-beyond :
    (entries : Entries) (i : Fd)
    → Ascends entries
    → slot_count entries ≤ i
    → lookup_fd i entries ≡ none
unfolding lookup_fd slot_count
lookup-beyond [] i a h = refl
lookup-beyond ((fd, e) ∷ []) i a h = ground (arith, h)
lookup-beyond ((fd, e) ∷ (fd', e') ∷ entries) i a h =
    let above = slot_count-above fd' e' entries a.1 in
    ground (arith, h, a.0, above, lookup-beyond ((fd', e') ∷ entries) i a.1 h)

-- The slot of a number in a table that is read.
abbrev pub slot_at : ℕ → List (Option (ℕ × FdKind)) → Option (ℕ × FdKind)
slot_at i [] = none
slot_at zero (o ∷ slots) = o
slot_at (suc i) (o ∷ slots) = slot_at i slots

slot_at-slots_from :
    (entries : Entries) (k i j : ℕ)
    → i < k
    → slot_at i (slots_from entries k j) ≡ lookup_fd (j + i) entries
unfolding slots_from
slot_at-slots_from entries zero i j h = absurd (omega (arith, h))
slot_at-slots_from entries (suc k) zero j h = ap (λ n. lookup_fd n entries) (omega arith)
slot_at-slots_from entries (suc k) (suc i) j h =
    slot_at-slots_from entries k i (j + 1) (omega (arith, h))
    ∙ ap (λ n. lookup_fd n entries) (omega arith)

slot_at-beyond : (entries : Entries) (k i j : ℕ) → k ≤ i → slot_at i (slots_from entries k j) ≡ none
unfolding slots_from
slot_at-beyond entries zero i j h = refl
slot_at-beyond entries (suc k) zero j h = absurd (omega (arith, h))
slot_at-beyond entries (suc k) (suc i) j h = slot_at-beyond entries k i (j + 1) (omega (arith, h))

read_table-slots :
    (width : ℕ) (entries : Entries)
    → slot_count entries < 256 ^ 4
    → Fit width entries
    → read_table width (encode entries width).bytes ≡ slots_from entries (slot_count entries) 0
unfolding read_table encode
read_table-slots width entries small f =
    rw
      (
        read_le-le_bytes 4 (slot_count entries) _ small,
        read_flags-flags_from entries (slot_count entries) 0
            (handle_bytes entries width (slot_count entries) 0),
      )
      (read_slots-slots width entries (slot_count entries) 0 f)

-- The C runtime reads from an encoded table the very entries, in handle and kind: at each number that is a
-- key the entry of the key, and nothing at any other number, if the keys ascend, as many slots as they
-- take fit in four bytes, and each handle fits in its width.
pub read_table-encode :
    (width : ℕ) (entries : Entries) (i : Fd)
    → Ascends entries
    → Fit width entries
    → slot_at i (read_table width (encode entries width).bytes) ≡ lookup_fd i entries
read_table-encode width entries i a f =
    let slots = read_table-slots width entries (slot_count-small entries a) f in
    rw slots (elim (Bool-cases (ltb i (slot_count entries))) [
      | inl b ↦
          slot_at-slots_from entries (slot_count entries) i 0 (ground (arith, b))
          ∙ ap (λ n. lookup_fd n entries) (omega arith)
      | inr b ↦
          let beyond : slot_count entries ≤ i = ground (arith, b) in
          slot_at-beyond entries (slot_count entries) i 0 beyond
          ∙ sym (lookup-beyond entries i a beyond)
    ])
