-- ===== src/Quote/Windows/Bodies.antt =====
-- How the loop of `split_rest_wide` reads one written argument.
use subprocess.Prelude.{
  ℕ, ◌+◌, ◌==◌, Bool, true, false, Bool-cases, inl, inr, List, [], ◌∷◌, ◌++◌, append_assoc,
  append-nil, replicate, ◌≡◌, refl, ◌∙◌, arith, ==_iff,
}
use subprocess.Quote.Windows.{Units, quote_mark, backslash, is_blank, any_blank, needs_quotes}
use subprocess.Quote.Windows.Pieces.{
  at, parsed, read_backslash, read_plain, read_opening, read_empty, read_closing, read_escaped,
  read_escaped_closing,
}
use subprocess.Quote.Windows.Written.{encoded, written, EndsQuotes, encoded-EndsQuotes}

-- What `append_arg` does at a unit.
data UnitCase (x : ℕ) : Type 0 where
  is_backslash : x ≡ backslash → UnitCase x
  is_quote : x ≡ quote_mark → UnitCase x
  is_plain : (x == backslash) ≡ false → (x == quote_mark) ≡ false → UnitCase x

Unit-cases : (x : ℕ) → UnitCase x
Unit-cases x = elim (Bool-cases (x == backslash)) [
  | inl e ↦ is_backslash ((==_iff x backslash).0 e)
  | inr e ↦ elim (Bool-cases (x == quote_mark)) [
    | inl e' ↦ is_quote ((==_iff x quote_mark).0 e')
    | inr e' ↦ is_plain e e'
  ]
]

encoded_plain :
    (q : Bool) (x : ℕ) (xs : Units) (n : ℕ)
    → (x == backslash) ≡ false
    → (x == quote_mark) ≡ false
    → encoded q (x ∷ xs) n ≡ x ∷ encoded q xs 0
unfolding encoded
encoded_plain q x xs n h k = rw (h, k)

encoded-backslash :
    (q : Bool) (xs : Units) (n : ℕ)
    → encoded q (backslash ∷ xs) n ≡ backslash ∷ encoded q xs (n + 1)
unfolding encoded
encoded-backslash q xs n = refl

encoded_quote :
    (q : Bool) (xs : Units) (n : ℕ)
    → encoded q (quote_mark ∷ xs) n ≡ replicate (n + 1) backslash ++ (quote_mark ∷ encoded q xs 0)
unfolding encoded
encoded_quote q xs n = refl

module _ (out : List Units) (s : Units) (h : EndsQuotes s) where
  read_quote_in_quotes :
      (xs buf : Units) (n : ℕ)
      → ((buf' : Units)
          → parsed (at (encoded true xs 0 ++ s) out buf' 1 0) ≡ parsed (at s out (buf' ++ xs) 0 0))
      → parsed (at (encoded true (quote_mark ∷ xs) n ++ s) out buf 1 n)
        ≡ parsed (at s out ((buf ++ quote_mark ∷ []) ++ xs) 0 0)
  unfolding encoded
  read_quote_in_quotes [] buf n later =
      simp (append_assoc, append-nil) (read_escaped_closing out s buf n h)
  read_quote_in_quotes (x ∷ xs) buf n later =
      rw (encoded_quote, append_assoc)
        (read_escaped out _ buf n 1 refl (encoded-EndsQuotes true x xs s)
          ∙ later (buf ++ quote_mark ∷ []))

  -- Behind the opening quote, to the end of the argument.
  read_quoted_rest :
      (xs buf : Units) (n : ℕ)
      → parsed (at (encoded true xs n ++ s) out buf 1 n) ≡ parsed (at s out (buf ++ xs) 0 0)
  unfolding encoded
  read_quoted_rest [] buf n = simp (append_assoc, append-nil) (read_closing out s buf n h)
  read_quoted_rest (x ∷ xs) buf n =
      let grown : (buf ++ x ∷ []) ++ xs ≡ buf ++ x ∷ xs = append_assoc buf (x ∷ []) xs in
      elim (Unit-cases x) [
        | is_backslash e ↦
            let later = read_quoted_rest xs (buf ++ x ∷ []) (n + 1) in
            rw (← grown, e) (read_backslash out _ buf 1 n ∙ (rw e at later))
        | is_quote e ↦
            rw (← grown, e) (read_quote_in_quotes xs buf n λ buf'. read_quoted_rest xs buf' 0)
        | is_plain e e' ↦
            rw (← grown, encoded_plain true x xs n e e')
              (read_plain out x _ buf 1 n e e' (ground arith)
                ∙ read_quoted_rest xs (buf ++ x ∷ []) 0)
      ]

  rest-EndsQuotes : (xs : Units) → EndsQuotes (encoded false xs 0 ++ s)
  rest-EndsQuotes [] = unfold encoded in h
  rest-EndsQuotes (x ∷ xs) = encoded-EndsQuotes false x xs s

  -- An argument that holds no blank, with no quotes round it. It leaves a run of backslashes.
  read_bare_rest :
      (xs buf : Units) (n : ℕ)
      → any_blank xs ≡ false
      → (b : ℕ) × (parsed (at (encoded false xs n ++ s) out buf 0 n)
          ≡ parsed (at s out (buf ++ xs) 0 b))
  unfolding any_blank
  read_bare_rest [] buf n free = (n, unfold encoded in rw append-nil)
  read_bare_rest (x ∷ xs) buf n free =
      let grown : (buf ++ x ∷ []) ++ xs ≡ buf ++ x ∷ xs = append_assoc buf (x ∷ []) xs in
      let first : is_blank x ≡ false = ground arith in
      let others : any_blank xs ≡ false = ground arith in
      elim (Unit-cases x) [
        | is_backslash e ↦
            let (b, later) = read_bare_rest xs (buf ++ x ∷ []) (n + 1) others in
            (b, rw (← grown, e, encoded-backslash) (read_backslash out _ buf 0 n ∙ (rw e at later)))
        | is_quote e ↦
            let (b, later) = read_bare_rest xs (buf ++ x ∷ []) 0 others in
            (
              b,
              rw (← grown, e, encoded_quote, append_assoc)
                  (read_escaped out _ buf n 0 refl (rest-EndsQuotes xs) ∙ (rw e at later)),
            )
        | is_plain e e' ↦
            let (b, later) = read_bare_rest xs (buf ++ x ∷ []) 0 others in
            (
              b,
              rw (← grown, encoded_plain false x xs n e e')
                  (read_plain out x _ buf 0 n e e' (rw first) ∙ later),
            )
      ]

  -- What the loop makes of one written argument.
  pub read_written :
      (a : Units) → (b : ℕ) × (parsed (at (written a ++ s) out [] 0 0) ≡ parsed (at s out a 0 b))
  unfolding written needs_quotes
  read_written [] = (0, unfold encoded in read_empty out s h)
  read_written (x ∷ a) = elim (Bool-cases (any_blank (x ∷ a))) [
    | inl e ↦ (
      0,
      rw e (read_opening out _ (encoded-EndsQuotes true x a s) ∙ read_quoted_rest (x ∷ a) [] 0),
    )
    | inr e ↦ let (b, p) = read_bare_rest (x ∷ a) [] 0 e in (b, rw e p)
  ]
