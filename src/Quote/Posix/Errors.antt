-- ===== src/Quote/Posix/Errors.antt =====
-- Where `split` fails: exactly where the text has a fault, and with it.
use subprocess.Prelude.{
  ℕ, List, [], ◌∷◌, Option, none, some, ◌≡◌, refl, ap, sym, subst, ◌∙◌, arith, Result, ok, err,
  next, halt, loop_total, loop_inv,
}
use subprocess.Quote.Common.{trailing_backslash, QuoteError, Bytes}
use subprocess.Quote.Posix.Rounds.{proceed-eq-next, round-lowers}
use subprocess.Quote.Posix.Blame.{outside, fault, place, ahead, step_in-ahead}
use subprocess.Quote.Posix.{
  State, whitespace, word, single_quote, double_quote, Lexer, backslash_unquoted,
  backslash_in_dquote, backslash_in_whitespace, step_in, finish, proceed, round_at, round, unread,
  start, split,
}

-- A step fails only at a backslash that ends the text.
step_in-err :
    (st : State) (lx : Lexer) (c : ℕ) (behind : Bytes) {e : QuoteError}
    → step_in st lx c behind ≡ err e
    → (c ≡ b'\\') × (behind ≡ []) × (e.pos ≡ lx.i) × (e.kind ≡ trailing_backslash)
unfolding step_in backslash_unquoted backslash_in_dquote backslash_in_whitespace
step_in-err whitespace lx c [] h = ground arith
step_in-err whitespace lx c (d ∷ behind) h = ground arith
step_in-err word lx c [] h = ground arith
step_in-err word lx c (d ∷ behind) h = ground arith
step_in-err single_quote lx c behind h = ground arith
step_in-err double_quote lx c [] h = ground arith
step_in-err double_quote lx c (d ∷ behind) h = ground arith

-- The error of a result.
abbrev pub failure : Result (List Bytes) QuoteError → Option QuoteError
failure (ok words) = none
failure (err e) = some e

finish-failure :
    (st : State) (lx : Lexer) → failure (finish st lx) ≡ fault (place st lx.quote_open) lx.i []
unfolding finish fault
finish-failure whitespace lx = refl
finish-failure word lx = refl
finish-failure single_quote lx = refl
finish-failure double_quote lx = refl

last-fault :
    (st : State) (lx : Lexer) (e : QuoteError)
    → step_in st lx b'\\' [] ≡ err e
    → some (record { pos = lx.i; kind = trailing_backslash })
      ≡ fault (place st lx.quote_open) lx.i (b'\\' ∷ [])
unfolding step_in fault
last-fault whitespace lx e h = refl
last-fault word lx e h = refl
last-fault single_quote lx e h = absurd (cc h)
last-fault double_quote lx e h = refl

-- A backslash with nothing behind it is a fault wherever a step fails.
failed-fault :
    (st : State) (lx : Lexer) (c : ℕ) (behind : Bytes) (e : QuoteError)
    → step_in st lx c behind ≡ err e
    → some e ≡ fault (place st lx.quote_open) lx.i (c ∷ behind)
failed-fault st lx c behind e h =
    let (byte, ends, pos, kind) = step_in-err st lx c behind h in
    let blamed : e ≡ record { pos = lx.i; kind = trailing_backslash } = ground (arith, pos, kind) in
    ap some blamed
    ∙ last-fault st lx e (
        subst (λ x. step_in st lx b'\\' x ≡ err e) ends
          (subst (λ x. step_in st lx x behind ≡ err e) byte h))
    ∙ ap (λ x. fault (place st lx.quote_open) lx.i (b'\\' ∷ x)) (sym ends)
    ∙ ap (λ x. fault (place st lx.quote_open) lx.i (x ∷ behind)) (sym byte)

module _ (s : Bytes) where
  -- What is wrong with the text is wrong with what is not read.
  abbrev Keeps : Lexer → Type 0
  Keeps lx = ahead lx ≡ fault outside 0 s

  round_at-Keeps :
      (lx t : Lexer) (r : Bytes) → lx.rest ≡ r → Keeps lx → round_at lx r ≡ next t → Keeps t
  unfolding round_at
  round_at-Keeps lx t [] e h p = absurd (cc p)
  round_at-Keeps lx t (c ∷ behind) e h p =
      step_in-ahead lx.state lx c behind t refl e (proceed-eq-next _ t p)
      ∙ ap (fault (place lx.state lx.quote_open) lx.i) (sym e)
      ∙ h

  step-failure :
      (lx : Lexer) (c : ℕ) (behind : Bytes) (x : Result Lexer QuoteError)
      (r : Result (List Bytes) QuoteError)
      → step_in lx.state lx c behind ≡ x
      → proceed x ≡ halt r
      → failure r ≡ fault (place lx.state lx.quote_open) lx.i (c ∷ behind)
  step-failure lx c behind (ok t) r p q = absurd (cc q)
  step-failure lx c behind (err e) r p q =
      let returned : err e ≡ r = cc q in
      ap failure (sym returned) ∙ failed-fault lx.state lx c behind e p

  round_at-failure :
      (lx : Lexer) (b : Bytes) (r : Result (List Bytes) QuoteError)
      → lx.rest ≡ b
      → Keeps lx
      → round_at lx b ≡ halt r
      → failure r ≡ fault outside 0 s
  unfolding round_at
  round_at-failure lx [] r e h p =
      let returned : finish lx.state lx ≡ r = cc p in
      ap failure (sym returned)
      ∙ finish-failure lx.state lx
      ∙ ap (fault (place lx.state lx.quote_open) lx.i) (sym e)
      ∙ h
  round_at-failure lx (c ∷ behind) r e h p =
      step-failure lx c behind _ r refl p
      ∙ ap (fault (place lx.state lx.quote_open) lx.i) (sym e)
      ∙ h

-- `split` ends, and it fails if and only if the text has a fault, with this fault: the opening quote that is
-- not closed, or a backslash with nothing behind it, as an account of the text byte by byte finds them.
pub split-err :
    (s : Bytes)
    → (r : Result (List Bytes) QuoteError) × (split s ≡ some r) × (failure r ≡ fault outside 0 s)
unfolding split round
split-err s =
    let (r, e) = loop_total round unread round-lowers (start s) in
    (
      r,
      e,
      loop_inv round (Keeps s) (λ x. failure x ≡ fault outside 0 s)
          (λ lx t k p. round_at-Keeps s lx t lx.rest refl k p)
          (λ lx x k p. round_at-failure s lx lx.rest x refl k p) unread (start s) refl e,
    )
