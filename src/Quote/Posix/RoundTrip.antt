-- ===== src/Quote/Posix/RoundTrip.antt =====
-- `split` reads back what `join` writes. Each lemma runs the loop over one piece of a line, with
-- any bytes behind it; the index and the place of the last opening quote play no part.
use subprocess.Prelude.{
  ℕ, ◌+◌, ◌<◌, ==_iff, ltb, ◌==◌, if◌then◌else◌, Bool, true, false, Bool-cases, inl, inr, List, [],
  ◌∷◌, ◌++◌, append_assoc, append-nil, some, ◌≡◌, refl, sym, ◌∙◌, arith, ok, loop,
}
use subprocess.Quote.Common.{Bytes}
use subprocess.Quote.Posix.Rounds.{loop-step, loop-end}
use subprocess.Quote.Posix.{
  State, whitespace, word, single_quote, double_quote, Lexer, emit, step_in, finish, round, unread,
  split, is_safe, all_safe, quoted_quote, quote_bytes, quote, join_from, join,
}

-- What of a lexer bears on the words.
data Look : Type 0 where
  look : State → Bytes → Bool → Bytes → List Bytes → Look

abbrev place : ℕ → ℕ → Look → Lexer
place i q (look st rest token buf out) = record {
  i = i;
  rest = rest;
  state = st;
  has_token = token;
  quote_open = q;
  buf = buf;
  out = out;
}

-- The loop goes on from `b` as it does from `a`.
record Leads (a b : Look) : Type 0 where
  goes :
      (i q : ℕ)
      → (i' : ℕ) × (q' : ℕ) × (loop round unread (place i q a) ≡ loop round unread (place i' q' b))

infixr 6 ◌then◌
◌then◌ : {a b c : Look} → Leads a b → Leads b c → Leads a c
f then g = record {
  goes =
      λ i q. let (i', q', p) = f.goes i q in let (i'', q'', r) = g.goes i' q' in (i'', q'', p ∙ r);
}

stay : (a : Look) → Leads a a
stay a = record { goes = λ i q. (i, q, refl) }

-- One round that reads one byte; the last argument says where the opening quote is then.
reads :
    {a b : Look} (c : ℕ) (r : Bytes) (opened : ℕ → ℕ → ℕ)
    → ((i q : ℕ) → (place i q a).rest ≡ c ∷ r)
    → ((i q : ℕ)
        → step_in (place i q a).state (place i q a) c r ≡ ok (place (i + 1) (opened i q) b))
    → Leads a b
reads c r opened e h = record {
  goes = λ i q. (i + 1, opened i q, loop-step _ _ c r (e i q) (h i q));
}

module _ (r : Bytes) (token : Bool) (buf : Bytes) (out : List Bytes) where
  open_single : Leads (look whitespace (b'\'' ∷ r) token buf out) (look single_quote r true buf out)
  unfolding step_in
  open_single = reads b'\'' r (λ i q. i) (λ i q. refl) (λ i q. refl)

  reopen_single : Leads (look word (b'\'' ∷ r) token buf out) (look single_quote r token buf out)
  unfolding step_in
  reopen_single = reads b'\'' r (λ i q. i) (λ i q. refl) (λ i q. refl)

  close_single : Leads (look single_quote (b'\'' ∷ r) token buf out) (look word r token buf out)
  unfolding step_in
  close_single = reads b'\'' r (λ i q. q) (λ i q. refl) (λ i q. refl)

  open_double : Leads (look word (b'"' ∷ r) token buf out) (look double_quote r token buf out)
  unfolding step_in
  open_double = reads b'"' r (λ i q. i) (λ i q. refl) (λ i q. refl)

  close_double : Leads (look double_quote (b'"' ∷ r) token buf out) (look word r token buf out)
  unfolding step_in
  close_double = reads b'"' r (λ i q. q) (λ i q. refl) (λ i q. refl)

  double_apostrophe :
      Leads
        (look double_quote (b'\'' ∷ r) token buf out)
        (look double_quote r token (buf ++ b'\'' ∷ []) out)
  unfolding step_in
  double_apostrophe = reads b'\'' r (λ i q. q) (λ i q. refl) (λ i q. refl)

  single_plain :
      (c : ℕ)
      → (c == b'\'') ≡ false
      → Leads
          (look single_quote (c ∷ r) token buf out)
          (look single_quote r token (buf ++ c ∷ []) out)
  unfolding step_in
  single_plain c h = reads c r (λ i q. q) (λ i q. refl) (λ i q. rw h)

  word_safe :
      (c : ℕ)
      → is_safe c ≡ true
      → Leads (look word (c ∷ r) token buf out) (look word r token (buf ++ c ∷ []) out)
  unfolding step_in is_safe
  word_safe c h = reads c r (λ i q. q) (λ i q. refl) (λ i q. ground arith)

  first_safe :
      (c : ℕ)
      → is_safe c ≡ true
      → Leads (look whitespace (c ∷ r) token buf out) (look word r true (buf ++ c ∷ []) out)
  unfolding step_in is_safe
  first_safe c h = reads c r (λ i q. q) (λ i q. refl) (λ i q. ground arith)

end_word :
    (r buf : Bytes) (out : List Bytes)
    → Leads (look word (b' ' ∷ r) true buf out) (look whitespace r false [] (out ++ buf ∷ []))
unfolding step_in emit
end_word r buf out = reads b' ' r (λ i q. q) (λ i q. refl) (λ i q. refl)

-- What `quote` writes for the bytes between its quotes.
escaped : Bytes → Bytes
escaped [] = []
escaped (b ∷ s) = (if b == b'\'' then quoted_quote else b ∷ []) ++ escaped s

quote_bytes-escaped : (s out : Bytes) → quote_bytes s out ≡ out ++ escaped s
unfolding quote_bytes escaped
quote_bytes-escaped [] out = sym (append-nil out)
quote_bytes-escaped (b ∷ s) out = elim (Bool-cases (b == b'\'')) [
  | inl e ↦ simp (e, quote_bytes-escaped s, append_assoc)
  | inr e ↦ simp (e, quote_bytes-escaped s, append_assoc)
]

quoted_quote-Leads :
    (r buf : Bytes) (out : List Bytes)
    → Leads
        (look single_quote (quoted_quote ++ r) true buf out)
        (look single_quote r true (buf ++ b'\'' ∷ []) out)
quoted_quote-Leads r buf out =
    close_single _ _ _ _
    then open_double _ _ _ _
    then double_apostrophe _ _ _ _
    then close_double _ _ _ _
    then reopen_single _ _ _ _

escaped-Leads :
    (s r buf : Bytes) (out : List Bytes)
    → Leads
        (look single_quote (escaped s ++ r) true buf out)
        (look single_quote r true (buf ++ s) out)
unfolding escaped
escaped-Leads [] r buf out = rw append-nil (stay _)
escaped-Leads (b ∷ s) r buf out =
    let later = escaped-Leads s r (buf ++ b ∷ []) out in
    let grown : (buf ++ b ∷ []) ++ s ≡ buf ++ b ∷ s = append_assoc buf (b ∷ []) s in
    elim (Bool-cases (b == b'\'')) [
      | inl e ↦
          let same : b ≡ b'\'' = (==_iff b b'\'').0 e in
          rw (← grown, same) (quoted_quote-Leads (escaped s ++ r) buf out then (rw same at later))
      | inr e ↦ rw (e, ← grown) (single_plain (escaped s ++ r) true buf out b e then later)
    ]

safe-Leads :
    (s r buf : Bytes) (out : List Bytes)
    → all_safe s ≡ true
    → Leads (look word (s ++ r) true buf out) (look word r true (buf ++ s) out)
unfolding all_safe
safe-Leads [] r buf out h = rw append-nil (stay _)
safe-Leads (b ∷ s) r buf out h =
    let grown : (buf ++ b ∷ []) ++ s ≡ buf ++ b ∷ s = append_assoc buf (b ∷ []) s in
    rw (← grown) (
      word_safe (s ++ r) true buf out b (ground arith)
      then safe-Leads s r (buf ++ b ∷ []) out (ground arith))

-- A quoted argument is read as one word that goes on.
quote-Leads :
    (a r : Bytes) (out : List Bytes)
    → Leads (look whitespace (quote a ++ r) false [] out) (look word r true a out)
unfolding quote
quote-Leads [] r out = open_single _ _ _ _ then close_single _ _ _ _
quote-Leads (b ∷ s) r out = elim (Bool-cases (all_safe (b ∷ s))) [
  | inl h ↦ rw h (
      first_safe (s ++ r) false [] out b (unfold all_safe in ground arith)
      then safe-Leads s r (b ∷ []) out (unfold all_safe in ground arith))
  | inr h ↦
      simp (h, quote_bytes-escaped, append_assoc)
        (open_single _ _ _ _
          then escaped-Leads (b ∷ s) (b'\'' ∷ r) [] out
          then close_single _ _ _ _)
]

-- The arguments behind the first, each behind its space.
spaced : List Bytes → Bytes
spaced [] = []
spaced (a ∷ args) = b' ' ∷ quote a ++ spaced args

join_from-spaced :
    (idx : ℕ) (args : List Bytes) (out : Bytes)
    → 0 < idx
    → join_from idx args out ≡ out ++ spaced args
unfolding join_from spaced
join_from-spaced idx [] out h = sym (append-nil out)
join_from-spaced idx (a ∷ args) out h =
    let later : ltb 0 idx ≡ true = ground arith in
    rw later (join_from-spaced (idx + 1) args _ (omega arith) ∙ simp append_assoc)

spaced-words :
    (args : List Bytes) (a : Bytes) (out : List Bytes) (i q : ℕ)
    → loop round unread (place i q (look word (spaced args) true a out))
      ≡ some (ok (out ++ a ∷ args))
unfolding spaced
spaced-words [] a out i q = unfold finish emit in loop-end _ refl
spaced-words (b ∷ args) a out i q =
    let (i', q', p) =
      (end_word (quote b ++ spaced args) a out
          then quote-Leads b (spaced args) (out ++ a ∷ [])).goes
        i q in
    p ∙ spaced-words args b (out ++ a ∷ []) i' q' ∙ rw append_assoc

-- Splitting a joined command line gives the arguments back, whatever bytes they hold.
pub split-join : (args : List Bytes) → split (join args) ≡ some (ok args)
unfolding split join join_from
split-join [] = unfold finish emit in loop-end _ refl
split-join (a ∷ args) =
    let written : join_from (0 + 1) args (quote a) ≡ quote a ++ spaced args =
      join_from-spaced (0 + 1) args (quote a) (omega arith) in
    let (i', q', p) = (quote-Leads a (spaced args) []).goes 0 0 in
    rw written (p ∙ spaced-words args a [] i' q')
