-- ===== src/Quote/Windows/Pieces.antt =====
-- How the loop of `split_rest_wide` reads the pieces that `append_arg` writes.
use subprocess.Prelude.{
  ℕ, zero, suc, ◌+◌, ◌-◌, ◌/◌, ◌%◌, ◌==◌, ◌&&◌, false, List, [], ◌∷◌, ◌++◌, append_assoc,
  append-nil, replicate, length, length-append, length-replicate, take, if◌then◌else◌, ◌≡◌, refl,
  ap, ◌∙◌, arith, loop, Option,
}
use subprocess.Quote.Windows.{
  Units, quote_mark, backslash, is_blank, Splitter, count_quote, read_quotes, collapse, at_quote,
  round_at, round, unread, truncate,
}
use subprocess.Quote.Windows.Rounds.{loop-step}
use subprocess.Quote.Windows.Written.{EndsQuotes}

abbrev pub at : Units → List Units → Units → ℕ → ℕ → Splitter
at s out buf q b = record { rest = s; out = out; buf = buf; qcount = q; bcount = b }

-- The result of the loop from such variables.
abbrev pub parsed : Splitter → Option (List Units)
parsed = loop round unread

take-append : (p r : Units) → take (length p) (p ++ r) ≡ p
take-append [] r = refl
take-append (c ∷ p) r = ap (λ t. c ∷ t) (take-append p r)

truncate-append :
    (p : Units) (n k : ℕ)
    → k ≡ n
    → truncate (length (p ++ replicate n backslash) - k) (p ++ replicate n backslash) ≡ p
truncate-append p n k e =
    let kept : length (p ++ replicate n backslash) - k ≡ length p =
      omega (arith, length-append p (replicate n backslash), length-replicate n backslash) in
    rw kept (take-append p (replicate n backslash))

read_quotes-EndsQuotes :
    (sp : Splitter) (s : Units) → EndsQuotes s → read_quotes sp s ≡ record sp { rest = s }
unfolding read_quotes
read_quotes-EndsQuotes sp [] h = refl
read_quotes-EndsQuotes sp (c ∷ s) h = ground arith

replicate-suc :
    (n : ℕ) (s : Units)
    → replicate n backslash ++ (backslash ∷ s) ≡ backslash ∷ (replicate n backslash ++ s)
replicate-suc zero s = refl
replicate-suc (suc n) s = ap (λ t. backslash ∷ t) (replicate-suc n s)

module _ (out : List Units) where
  pub read_backslash :
      (s buf : Units) (q b : ℕ)
      → parsed (at (backslash ∷ s) out buf q b)
        ≡ parsed (at s out (buf ++ backslash ∷ []) q (b + 1))
  unfolding round_at is_blank
  read_backslash s buf q b = loop-step _ _ (backslash ∷ s) refl refl

  read_backslashes :
      (n : ℕ) (s buf : Units) (q b : ℕ)
      → parsed (at (replicate n backslash ++ s) out buf q b)
        ≡ parsed (at s out (buf ++ replicate n backslash) q (b + n))
  read_backslashes zero s buf q b = let e : b + 0 ≡ b = omega arith in rw (e, append-nil)
  read_backslashes (suc n) s buf q b =
      let e : b + suc n ≡ b + 1 + n = omega arith in
      rw e (
        read_backslash _ buf q b
        ∙ read_backslashes n s (buf ++ backslash ∷ []) q (b + 1)
        ∙ simp append_assoc)

  pub read_plain :
      (c : ℕ) (s buf : Units) (q b : ℕ)
      → (c == backslash) ≡ false
      → (c == quote_mark) ≡ false
      → (is_blank c && q == 0) ≡ false
      → parsed (at (c ∷ s) out buf q b) ≡ parsed (at s out (buf ++ c ∷ []) q 0)
  unfolding round_at
  read_plain c s buf q b h k l = loop-step _ _ (c ∷ s) refl (rw (l, h, k))

  -- An odd run of backslashes before a quote, and an even one.
  collapse_odd :
      (s buf : Units) (n q : ℕ)
      → collapse (at s out (buf ++ replicate (n + 1) backslash) q (n + (n + 1)))
        ≡ at s out (buf ++ quote_mark ∷ []) q (n + (n + 1))
  unfolding collapse
  collapse_odd s buf n q =
      let cut = truncate-append buf (n + 1) ((n + (n + 1)) / 2 + 1) (omega arith) in
      let odd : (n + (n + 1)) % 2 ≡ 1 = omega arith in rw odd (rw cut)

  collapse_even :
      (s buf : Units) (n q : ℕ)
      → collapse (at s out (buf ++ replicate n backslash) q (n + n)) ≡ at s out buf (q + 1) (n + n)
  unfolding collapse
  collapse_even s buf n q =
      let cut = truncate-append buf n ((n + n) / 2) (omega arith) in
      let even : (n + n) % 2 ≡ 0 = omega arith in rw even (rw cut)

  -- One quote, with no other quote behind it.
  at_quote_one :
      (sp : Splitter) (s s' buf : Units) (q b : ℕ)
      → collapse sp ≡ at s' out buf q b
      → EndsQuotes s
      → at_quote sp s ≡ at s out buf (if q == 2 then 0 else q) 0
  unfolding at_quote
  at_quote_one sp s s' buf q b e h =
      rw (e, at_quote) (rw (read_quotes-EndsQuotes _ s h, at_quote) (ground arith))

  -- Two quotes, the first of which left the count at one.
  at_quote_two :
      (sp : Splitter) (s s' buf : Units) (b : ℕ)
      → collapse sp ≡ at s' out buf 1 b
      → EndsQuotes s
      → at_quote sp (quote_mark ∷ s) ≡ at s out buf 0 0
  unfolding at_quote read_quotes count_quote
  at_quote_two sp s s' buf b e h = rw (e, at_quote) (rw (read_quotes-EndsQuotes _ s h, at_quote))

  read_quote :
      (s buf : Units) (q b : ℕ)
      → parsed (at (quote_mark ∷ s) out buf q b)
        ≡ parsed (at_quote (at (quote_mark ∷ s) out buf q b) s)
  unfolding round_at is_blank
  read_quote s buf q b = loop-step _ _ (quote_mark ∷ s) refl refl

  -- The opening quote of an argument.
  pub read_opening :
      (s : Units)
      → EndsQuotes s
      → parsed (at (quote_mark ∷ s) out [] 0 0) ≡ parsed (at s out [] 1 0)
  read_opening s h =
      read_quote s [] 0 0 ∙ ap parsed (at_quote_one _ s _ [] 1 0 (collapse_even _ [] 0 0) h)

  -- The two quotes of an empty argument.
  pub read_empty :
      (s : Units)
      → EndsQuotes s
      → parsed (at (quote_mark ∷ quote_mark ∷ s) out [] 0 0) ≡ parsed (at s out [] 0 0)
  read_empty s h =
      read_quote _ [] 0 0 ∙ ap parsed (at_quote_two _ s _ [] 0 (collapse_even _ [] 0 0) h)

  -- The closing quote, behind the doubled run of backslashes.
  pub read_closing :
      (s buf : Units) (n : ℕ)
      → EndsQuotes s
      → parsed (at (replicate n backslash ++ (quote_mark ∷ s)) out buf 1 n)
        ≡ parsed (at s out buf 0 0)
  read_closing s buf n h =
      read_backslashes n _ buf 1 n
      ∙ read_quote s _ 1 (n + n)
      ∙ ap parsed (at_quote_one _ s _ buf 2 (n + n) (collapse_even _ buf n 1) h)

  -- A quote inside an argument, behind one backslash more than twice the run.
  pub read_escaped :
      (s buf : Units) (n q : ℕ)
      → (q == 2) ≡ false
      → EndsQuotes s
      → parsed (at (replicate (n + 1) backslash ++ (quote_mark ∷ s)) out buf q n)
        ≡ parsed (at s out (buf ++ quote_mark ∷ []) q 0)
  read_escaped s buf n q e h =
      read_backslashes (n + 1) _ buf q n
      ∙ read_quote s _ q (n + (n + 1))
      ∙ ap parsed (at_quote_one _ s _ _ q (n + (n + 1)) (collapse_odd _ buf n q) h)
      ∙ rw e

  -- Such a quote at the end of an argument in quotes: the closing quote is read with it.
  pub read_escaped_closing :
      (s buf : Units) (n : ℕ)
      → EndsQuotes s
      → parsed (at (replicate (n + 1) backslash ++ (quote_mark ∷ quote_mark ∷ s)) out buf 1 n)
        ≡ parsed (at s out (buf ++ quote_mark ∷ []) 0 0)
  read_escaped_closing s buf n h =
      read_backslashes (n + 1) _ buf 1 n
      ∙ read_quote _ _ 1 (n + (n + 1))
      ∙ ap parsed (at_quote_two _ s _ _ (n + (n + 1)) (collapse_odd _ buf n 1) h)
