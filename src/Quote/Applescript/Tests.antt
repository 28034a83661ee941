-- ===== src/Quote/Applescript/Tests.antt =====
-- A literal with a quote, a backslash and a newline.
use subprocess.Prelude.{ℕ, List, [], ◌∷◌, ◌++◌, some, ◌≡◌, refl, Result, ok, err}
use subprocess.Quote.Common.{QuoteErrorKind}
use subprocess.Quote.Applescript.{
  utf8_len, escaped, put, escape_from, escape_decoded, escape_literal,
}
use subprocess.Quote.Applescript.RoundTrip.{read_literal, escape_literal-read_literal}

-- Bytes of ASCII are their characters.
abbrev ascii : List ℕ → Result (List ℕ) ℕ
ascii bytes = ok bytes

escape_literal-nul :
    escape_literal ascii (97 ∷ 0 ∷ [])
    ≡ err (record { pos = 1; kind = QuoteErrorKind.unrepresentable_char })
unfolding escape_literal escape_decoded escape_from put utf8_len
escape_literal-nul = refl

escape_literal-read_literal_example :
    (cs : List ℕ) × (ascii (34 ∷ 92 ∷ 10 ∷ 97 ∷ []) ≡ ok cs)
    × (read_literal ((92 ∷ 34 ∷ 92 ∷ 92 ∷ 92 ∷ 110 ∷ 97 ∷ []) ++ 34 ∷ 32 ∷ []) ≡ some (cs, 32 ∷ []))
unfolding escape_literal escape_decoded escape_from put escaped utf8_len
escape_literal-read_literal_example =
    escape_literal-read_literal ascii (34 ∷ 92 ∷ 10 ∷ 97 ∷ [])
      (92 ∷ 34 ∷ 92 ∷ 92 ∷ 92 ∷ 110 ∷ 97 ∷ []) (32 ∷ []) refl
