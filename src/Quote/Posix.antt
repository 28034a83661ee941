-- ===== src/Quote/Posix.antt =====
-- Strict-POSIX word splitting and quoting of bytes (src/quote/posix.rs).
--
-- The index `i` of `split` is a pair of fields, the number `i` and the unread bytes `s[i..]`;
-- `advance` moves both. The vectors that the source mutates in place are fields of the lexer.
pub mod Rounds
pub mod RoundTrip
pub mod Blame
pub mod Errors
mod Tests
use subprocess.Prelude.{
  ℕ, ◌+◌, Bool, true, false, ◌&&◌, ◌||◌, List, [], ◌∷◌, ◌++◌, Option, none, some, ltb, leb, ◌==◌,
  if◌then◌else◌, length, drop, Result, ok, err, Round, next, halt, loop,
}
use subprocess.Quote.Common.{
  QuoteErrorKind, unterminated_single_quote, unterminated_double_quote, trailing_backslash,
  QuoteError, Bytes,
}

pub data State : Type 0 where
  whitespace word single_quote double_quote : State

-- The variables of the loop of `split`.
pub record Lexer : Type 0 where
  pub i : ℕ
  pub rest : Bytes
  pub state : State
  pub has_token : Bool
  pub quote_open : ℕ
  pub buf : Bytes
  pub out : List Bytes

unfoldable pub is_ws : ℕ → Bool
is_ws c = c == b' ' || c == b'\t' || c == b'\n' || c == b'\r'

abbrev pub advance : ℕ → Lexer → Lexer
advance n lx = record lx { i = lx.i + n; rest = drop n lx.rest }

abbrev pub push : ℕ → Lexer → Lexer
push c lx = record lx { buf = lx.buf ++ c ∷ [] }

abbrev pub goto : State → Lexer → Lexer
goto st lx = record lx { state = st }

unfoldable pub emit : Lexer → Lexer
emit lx =
    if lx.has_token
    then record lx { out = lx.out ++ lx.buf ∷ []; buf = []; has_token = false }
    else lx

abbrev pub fail {ℓ} : {A : Type ℓ} → ℕ → QuoteErrorKind → Result A QuoteError
fail pos kind = err (record { pos = pos; kind = kind })

abbrev starts_with_lf : Bytes → Bool
starts_with_lf [] = false
starts_with_lf (c ∷ s) = c == b'\n'

-- On the byte `d = s[i + 1]` and the bytes behind it.
unfoldable pub line_continuation : ℕ → Bytes → Option ℕ
line_continuation d behind =
    if d == b'\n' then some 2 else if d == b'\r' && starts_with_lf behind then some 3 else none

-- On the bytes behind the backslash, `s[i + 1..]`.
unfoldable pub backslash_unquoted : Lexer → Bytes → Result Lexer QuoteError
backslash_unquoted lx [] = fail lx.i trailing_backslash
backslash_unquoted lx (d ∷ behind) = elim (line_continuation d behind) [
  | some consumed ↦ ok (advance consumed lx)
  | none ↦ ok (advance 2 (push d lx))
]

unfoldable pub escapable : ℕ → Bool
escapable d = d == b'$' || d == b'`' || d == b'"' || d == b'\\'

unfoldable pub backslash_in_dquote : Lexer → Bytes → Result Lexer QuoteError
unfolding escapable
backslash_in_dquote lx [] = fail lx.i trailing_backslash
backslash_in_dquote lx (d ∷ behind) = elim (line_continuation d behind) [
  | some consumed ↦ ok (advance consumed lx)
  | none ↦ if escapable d then ok (advance 2 (push d lx)) else ok (advance 1 (push b'\\' lx))
]

-- The backslash of `State::Whitespace`: a continuation leaves the state, another byte opens a word.
unfoldable pub backslash_in_whitespace : Lexer → Bytes → Result Lexer QuoteError
backslash_in_whitespace lx [] = fail lx.i trailing_backslash
backslash_in_whitespace lx (d ∷ behind) = elim (line_continuation d behind) [
  | some consumed ↦ ok (advance consumed lx)
  | none ↦ ok (record (advance 2 (push d lx)) { has_token = true; state = word })
]

-- The body of the loop at the byte `c = s[i]`, with the bytes behind it.
unfoldable pub step_in : State → Lexer → ℕ → Bytes → Result Lexer QuoteError
unfolding is_ws
step_in whitespace lx c behind =
    if is_ws c
    then ok (advance 1 lx)
    else if c == b'\''
    then ok (advance 1 (record lx { state = single_quote; has_token = true; quote_open = lx.i }))
    else if c == b'"'
    then ok (advance 1 (record lx { state = double_quote; has_token = true; quote_open = lx.i }))
    else if c == b'\\'
    then backslash_in_whitespace lx behind
    else ok (advance 1 (record (push c lx) { has_token = true; state = word }))
step_in word lx c behind =
    if is_ws c
    then ok (advance 1 (goto whitespace (emit lx)))
    else if c == b'\''
    then ok (advance 1 (record lx { state = single_quote; quote_open = lx.i }))
    else if c == b'"'
    then ok (advance 1 (record lx { state = double_quote; quote_open = lx.i }))
    else if c == b'\\'
    then backslash_unquoted lx behind
    else ok (advance 1 (push c lx))
step_in single_quote lx c behind = ok (advance 1 (if c == b'\'' then goto word lx else push c lx))
step_in double_quote lx c behind =
    if c == b'"'
    then ok (advance 1 (goto word lx))
    else if c == b'\\'
    then backslash_in_dquote lx behind
    else ok (advance 1 (push c lx))

-- The `match` behind the loop.
unfoldable pub finish : State → Lexer → Result (List Bytes) QuoteError
finish whitespace lx = ok (emit lx).out
finish word lx = ok (emit lx).out
finish single_quote lx = fail lx.quote_open unterminated_single_quote
finish double_quote lx = fail lx.quote_open unterminated_double_quote

abbrev pub proceed : Result Lexer QuoteError → Round Lexer (Result (List Bytes) QuoteError)
proceed (ok lx) = next lx
proceed (err e) = halt (err e)

pub round_at : Lexer → Bytes → Round Lexer (Result (List Bytes) QuoteError)
round_at lx [] = halt (finish lx.state lx)
round_at lx (c ∷ behind) = proceed (step_in lx.state lx c behind)

-- One round of `while i < s.len()`, with what follows the loop.
unfoldable pub round : Lexer → Round Lexer (Result (List Bytes) QuoteError)
unfolding round_at
round lx = round_at lx lx.rest

abbrev pub unread : Lexer → ℕ
unread lx = length lx.rest

abbrev pub start : Bytes → Lexer
start s = record {
  i = 0;
  rest = s;
  state = whitespace;
  has_token = false;
  quote_open = 0;
  buf = [];
  out = [];
}

-- `none` would mean that the loop does not end.
unfoldable pub split : Bytes → Option (Result (List Bytes) QuoteError)
split s = loop round unread (start s)

-- `SAFE[b]`.
unfoldable pub is_safe : ℕ → Bool
is_safe b =
    leb b'a' b && leb b b'z'
    || leb b'A' b && leb b b'Z'
    || leb b'0' b && leb b b'9'
    || b == b'_'
    || b == b'@'
    || b == b'%'
    || b == b'+'
    || b == b'='
    || b == b':'
    || b == b','
    || b == b'.'
    || b == b'/'
    || b == b'-'

unfoldable pub all_safe : Bytes → Bool
all_safe [] = true
all_safe (b ∷ s) = is_safe b && all_safe s

-- `'"'"'`
abbrev pub quoted_quote : Bytes
quoted_quote = b'\'' ∷ b'"' ∷ b'\'' ∷ b'"' ∷ b'\'' ∷ []

-- The loop of `quote` over the bytes.
unfoldable pub quote_bytes : Bytes → Bytes → Bytes
quote_bytes [] out = out
quote_bytes (b ∷ s) out = quote_bytes s (if b == b'\'' then out ++ quoted_quote else out ++ b ∷ [])

unfoldable pub quote : Bytes → Bytes
quote [] = b'\'' ∷ b'\'' ∷ []
quote (b ∷ s) = if all_safe (b ∷ s) then b ∷ s else quote_bytes (b ∷ s) (b'\'' ∷ []) ++ b'\'' ∷ []

-- The loop of `join`, on `args.iter().enumerate()` from `idx` on.
unfoldable pub join_from : ℕ → List Bytes → Bytes → Bytes
join_from idx [] out = out
join_from idx (a ∷ args) out =
    join_from (idx + 1) args ((if ltb 0 idx then out ++ b' ' ∷ [] else out) ++ quote a)

unfoldable pub join : List Bytes → Bytes
join args = join_from 0 args []
