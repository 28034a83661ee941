-- ===== src/Quote/Applescript.antt =====
-- The body of an AppleScript string literal (src/quote/applescript.rs), on decoded characters.
pub mod RoundTrip
mod Tests
use subprocess.Prelude.{
  ℕ, ◌+◌, Bool, List, [], ◌∷◌, ◌++◌, ltb, ◌==◌, if◌then◌else◌, Result, ok, err,
}
use subprocess.Quote.Common.{QuoteError, QuoteErrorKind}

-- `len_utf8`, by which `char_indices` counts.
unfoldable pub utf8_len : ℕ → ℕ
utf8_len c = if ltb c 128 then 1 else if ltb c 2048 then 2 else if ltb c 65536 then 3 else 4

-- What is written for a character other than NUL.
unfoldable pub escaped : ℕ → List ℕ
escaped c =
    if c == 92
    then 92 ∷ 92 ∷ []
    else if c == 34
    then 92 ∷ 34 ∷ []
    else if c == 10
    then 92 ∷ 110 ∷ []
    else if c == 13
    then 92 ∷ 114 ∷ []
    else if c == 9
    then 92 ∷ 116 ∷ []
    else c ∷ []

unfoldable pub put : List ℕ → Result (List ℕ) QuoteError → Result (List ℕ) QuoteError
put cs (ok out) = ok (cs ++ out)
put cs (err e) = err e

unfoldable pub escape_from : ℕ → List ℕ → Result (List ℕ) QuoteError
escape_from pos [] = ok []
escape_from pos (c ∷ cs) =
    let rest = escape_from (pos + utf8_len c) cs in
    if c == 0
    then err (record { pos = pos; kind = QuoteErrorKind.unrepresentable_char })
    else put (escaped c) rest

unfoldable pub escape_decoded : Result (List ℕ) ℕ → Result (List ℕ) QuoteError
escape_decoded (err valid_up_to) =
    err (record { pos = valid_up_to; kind = QuoteErrorKind.non_utf8 })
escape_decoded (ok cs) = escape_from 0 cs

-- `from_utf8` gives the characters, or how far the bytes are valid.
unfoldable pub escape_literal : (List ℕ → Result (List ℕ) ℕ) → List ℕ → Result (List ℕ) QuoteError
escape_literal from_utf8 bytes = escape_decoded (from_utf8 bytes)
