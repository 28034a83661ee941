-- ===== src/Identity/StatParse.antt =====
-- The fields of `/proc/<pid>/stat` (src/identity/stat_parse.rs).
pub mod Fields
mod Tests
use subprocess.Prelude.{
  ℕ, ◌+◌, ◌-◌, ◌*◌, ◌^◌, zero, suc, Bool, true, false, ◌&&◌, ◌||◌, List, [], ◌∷◌, ◌++◌, Option,
  some, none, leb, ◌==◌, if◌then◌else◌, get_elem?,
}
use mathlib.Core.Option
use subprocess.Errors.{Text}
use subprocess.Identity.{Liveness}

-- The bytes after the last `)`.
unfoldable pub after_last : Text → Option Text
after_last [] = none
after_last (b ∷ s) =
    let rest = after_last s in
    elim rest [ some t ↦ some t | none ↦ if b == 41 then some s else none ]

-- `is_whitespace` on the bytes of ASCII text, which is all that the kernel writes behind the name; the
-- whitespace of Unicode beyond it is left out.
unfoldable pub is_space : ℕ → Bool
is_space b = b == 32 || leb 9 b && leb b 13

unfoldable pub flush : Text → List Text → List Text
flush [] ws = ws
flush (b ∷ word) ws = (b ∷ word) ∷ ws

-- `split_whitespace`, with the word that is being read.
unfoldable pub split_from : Text → Text → List Text
split_from word [] = flush word []
split_from word (b ∷ s) =
    let ended = split_from [] s in
    let goes_on = split_from (word ++ b ∷ []) s in if is_space b then flush word ended else goes_on

-- The digits of `parse::<u32>` and `parse::<u64>`, with `top` the greatest value of the type.
unfoldable pub digits_from : ℕ → ℕ → Text → Option ℕ
digits_from top n [] = some n
digits_from top n (b ∷ s) =
    let rest = digits_from top ((n * 10 + b) - 48) s in
    if leb 48 b && (leb b 57 && leb ((n * 10 + b) - 48) top) then rest else none

unfoldable pub digits : ℕ → Text → Option ℕ
digits top [] = none
digits top (b ∷ s) = digits_from top 0 (b ∷ s)

-- A leading `+` is taken, and no sign alone.
unfoldable pub parse_uint : ℕ → Text → Option ℕ
parse_uint top [] = none
parse_uint top (b ∷ s) = if b == 43 then digits top s else digits top (b ∷ s)

abbrev pub u32_max : ℕ
u32_max = 4294967295

abbrev pub u64_max : ℕ
u64_max = 18446744073709551615

unfoldable pub first_byte : Text → Option ℕ
first_byte [] = none
first_byte (b ∷ s) = some b

-- `Z`, `X` and `x`.
unfoldable pub is_exited : ℕ → Bool
is_exited c = c == 90 || (c == 88 || c == 120)

unfoldable pub running_state : Option ℕ → Liveness
running_state (some c) = if is_exited c then Liveness.dead else Liveness.alive
running_state none = Liveness.unknown

unfoldable pub running_token : Option ℕ → ℕ → Option ℕ → Liveness
running_token (some j) start state = if j == start then running_state state else Liveness.dead
running_token none start state = Liveness.unknown

-- `is_utf8` says whether `from_utf8` takes the bytes.
module _ (is_utf8 : Text → Bool) where
  unfoldable pub decoded : Option Text → Option Text
  decoded none = none
  decoded (some t) = if is_utf8 t then some t else none

  unfoldable pub tail : Text → Option Text
  tail stat = decoded (after_last stat)

  unfoldable pub field : ℕ → Text → Option Text
  field n stat = Option.bind (tail stat) (λ t. get_elem? (split_from [] t) n)

  unfoldable pub parse_starttime_jiffies : Text → Option ℕ
  parse_starttime_jiffies stat = Option.bind (field 19 stat) (parse_uint u64_max)

  unfoldable pub parse_state : Text → Option ℕ
  parse_state stat = Option.bind (field 0 stat) first_byte

  unfoldable pub parse_ppid : Text → Option ℕ
  parse_ppid stat = Option.bind (field 1 stat) (parse_uint u32_max)

  unfoldable pub parse_pgrp : Text → Option ℕ
  parse_pgrp stat = Option.bind (field 2 stat) (parse_uint u32_max)

  unfoldable pub running_from_stat : Text → ℕ → Liveness
  running_from_stat stat start =
      running_token (parse_starttime_jiffies stat) start (parse_state stat)
