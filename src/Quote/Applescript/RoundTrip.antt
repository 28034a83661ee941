-- ===== src/Quote/Applescript/RoundTrip.antt =====
-- What AppleScript reads of an escaped literal (src/quote/applescript.rs).
use subprocess.Prelude.{
  ℕ, ◌+◌, Bool, true, false, ◌||◌, List, [], ◌∷◌, ◌++◌, Option, some, none, ◌==◌, if◌then◌else◌,
  ◌≡◌, refl, sym, ap, subst, arith, Bool-cases, inl, inr, append_assoc, Result, ok, err,
}
use subprocess.Quote.Common.{QuoteError}
use subprocess.Quote.Applescript.{
  utf8_len, escaped, put, escape_from, escape_decoded, escape_literal,
}

-- The character behind a backslash: a quote, a backslash, a newline, a return or a tab.
unfoldable pub escape_of : ℕ → Option ℕ
escape_of d =
    if d == 34
    then some 34
    else if d == 92
    then some 92
    else if d == 110
    then some 10
    else if d == 114
    then some 13
    else if d == 116
    then some 9
    else none

unfoldable pub before : Option ℕ → Option (List ℕ × List ℕ) → Option (List ℕ × List ℕ)
before none r = none
before (some c) none = none
before (some c) (some (cs, rest)) = some (c ∷ cs, rest)

-- The grammar of a string literal behind its opening quote: the characters up to the closing quote, and
-- what follows it. A raw newline or return ends the statement, so it is no part of a literal.
unfoldable pub read_literal : List ℕ → Option (List ℕ × List ℕ)
read_literal [] = none
read_literal (c ∷ []) = if c == 34 then some ([], []) else none
read_literal (c ∷ d ∷ s) =
    let behind = read_literal s in
    let next = read_literal (d ∷ s) in
    if c == 34
    then some ([], d ∷ s)
    else if c == 92
    then before (escape_of d) behind
    else if c == 10 || c == 13
    then none
    else before (some c) next

read_plain :
    (c : ℕ) (tail : List ℕ) (cs : List ℕ) (rest : List ℕ)
    → (c == 34) ≡ false
    → (c == 92) ≡ false
    → (c == 10) ≡ false
    → (c == 13) ≡ false
    → read_literal tail ≡ some (cs, rest)
    → read_literal (c ∷ tail) ≡ some (c ∷ cs, rest)
unfolding read_literal before
read_plain c [] cs rest q b n r h = ground arith
read_plain c (d ∷ s) cs rest q b n r h = rw (q, b, n, r, h) refl

read_escape :
    (d : ℕ) (c : ℕ) (tail : List ℕ) (cs : List ℕ) (rest : List ℕ)
    → escape_of d ≡ some c
    → read_literal tail ≡ some (cs, rest)
    → read_literal (92 ∷ d ∷ tail) ≡ some (c ∷ cs, rest)
unfolding read_literal before
read_escape d c tail cs rest e h = rw (e, h) refl

read_escaped :
    (c : ℕ) (tail : List ℕ) (cs : List ℕ) (rest : List ℕ)
    → read_literal tail ≡ some (cs, rest)
    → read_literal (escaped c ++ tail) ≡ some (c ∷ cs, rest)
unfolding escaped escape_of
read_escaped c tail cs rest h = elim (Bool-cases (c == 92)) [
  | inl e ↦
      let same : 92 ≡ c = ground arith in rw e (read_escape 92 c tail cs rest (ap some same) h)
  | inr b ↦ elim (Bool-cases (c == 34)) [
    | inl e ↦
        let same : 34 ≡ c = ground arith in
        rw (b, e) (read_escape 34 c tail cs rest (ap some same) h)
    | inr q ↦ elim (Bool-cases (c == 10)) [
      | inl e ↦
          let same : 10 ≡ c = ground arith in
          rw (b, q, e) (read_escape 110 c tail cs rest (ap some same) h)
      | inr n ↦ elim (Bool-cases (c == 13)) [
        | inl e ↦
            let same : 13 ≡ c = ground arith in
            rw (b, q, n, e) (read_escape 114 c tail cs rest (ap some same) h)
        | inr r ↦ elim (Bool-cases (c == 9)) [
          | inl e ↦
              let same : 9 ≡ c = ground arith in
              rw (b, q, n, r, e) (read_escape 116 c tail cs rest (ap some same) h)
          | inr t ↦ rw (b, q, n, r, t) (read_plain c tail cs rest q b n r h)
        ]
      ]
    ]
  ]
]

read_closing : (r : List ℕ) → read_literal (34 ∷ r) ≡ some ([], r)
unfolding read_literal
read_closing [] = refl
read_closing (d ∷ s) = refl

put-ok :
    (cs : List ℕ) (r : Result (List ℕ) QuoteError) (out : List ℕ)
    → put cs r ≡ ok out
    → (inner : List ℕ) × (r ≡ ok inner) × (cs ++ inner ≡ out)
unfolding put
put-ok cs (ok inner) out h = (inner, refl, cc h)
put-ok cs (err e) out h = ground arith

not_zero :
    (b : Bool) (e : QuoteError) (r : Result (List ℕ) QuoteError) (out : List ℕ)
    → (if b then err e else r) ≡ ok out
    → r ≡ ok out
not_zero true e r out h = ground arith
not_zero false e r out h = h

escape_from-read_literal :
    (pos : ℕ) (cs : List ℕ) (out : List ℕ) (rest : List ℕ)
    → escape_from pos cs ≡ ok out
    → read_literal (out ++ 34 ∷ rest) ≡ some (cs, rest)
unfolding escape_from
escape_from-read_literal pos [] out rest h =
    let same : [] ≡ out = cc h in
    subst (λ o. read_literal (o ++ 34 ∷ rest) ≡ some ([], rest)) same (read_closing rest)
escape_from-read_literal pos (c ∷ cs) out rest h =
    let (inner, e, whole) = put-ok (escaped c) _ out (not_zero (c == 0) _ _ out h) in
    let read = escape_from-read_literal (pos + utf8_len c) cs inner rest e in
    subst (λ o. read_literal (o ++ 34 ∷ rest) ≡ some (c ∷ cs, rest)) whole
      (subst (λ l. read_literal l ≡ some (c ∷ cs, rest))
        (sym (append_assoc (escaped c) inner (34 ∷ rest)))
        (read_escaped c (inner ++ 34 ∷ rest) cs rest read))

-- If the escaping of some bytes succeeds, they are UTF-8, and AppleScript reads the body written for
-- them, with a closing quote behind it, as the very characters of the bytes, and goes on behind that
-- quote: no character of the argument can end the literal.
pub escape_literal-read_literal :
    (from_utf8 : List ℕ → Result (List ℕ) ℕ) (bytes : List ℕ) (out : List ℕ) (rest : List ℕ)
    → escape_literal from_utf8 bytes ≡ ok out
    → (cs : List ℕ) × (from_utf8 bytes ≡ ok cs)
      × (read_literal (out ++ 34 ∷ rest) ≡ some (cs, rest))
unfolding escape_literal escape_decoded
escape_literal-read_literal from_utf8 bytes out rest h = go (from_utf8 bytes) refl h
  where
    go :
        (r : Result (List ℕ) ℕ)
        → from_utf8 bytes ≡ r
        → escape_decoded r ≡ ok out
        → (cs : List ℕ) × (from_utf8 bytes ≡ ok cs)
          × (read_literal (out ++ 34 ∷ rest) ≡ some (cs, rest))
    go (ok cs) e k = (cs, e, escape_from-read_literal 0 cs out rest k)
    go (err n) e k = ground arith
