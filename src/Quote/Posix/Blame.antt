-- ===== src/Quote/Posix/Blame.antt =====
-- An account of what is wrong with a text, byte by byte, and its agreement with `split`.
use subprocess.Prelude.{
  ℕ, ◌+◌, true, false, [], ◌∷◌, Option, none, some, ◌==◌, if◌then◌else◌, drop, ◌≡◌, refl, sym, ap,
  subst, ◌∙◌, arith, Result, ok, Bool-cases, Option-cases, inl, inr,
}
use subprocess.Quote.Common.{
  unterminated_single_quote, unterminated_double_quote, trailing_backslash, QuoteError, Bytes,
}
use subprocess.Quote.Posix.{
  State, whitespace, word, single_quote, double_quote, Lexer, emit, is_ws, line_continuation,
  escapable, advance, push, goto, backslash_unquoted, backslash_in_dquote, backslash_in_whitespace,
  step_in,
}

-- Where a byte stands: outside of quotes, in quotes that were opened at an offset, or behind a backslash at
-- an offset.
pub data Place : Type 0 where
  outside : Place
  in_single in_double : ℕ → Place
  escaped : Place → ℕ → Place

-- The fault of a text that goes on at a place and an offset: quotes that are not closed, or a backslash with
-- nothing behind it.
unfoldable pub fault : Place → ℕ → Bytes → Option QuoteError
fault outside pos [] = none
fault (in_single q) pos [] = some (record { pos = q; kind = unterminated_single_quote })
fault (in_double q) pos [] = some (record { pos = q; kind = unterminated_double_quote })
fault (escaped back at) pos [] = some (record { pos = at; kind = trailing_backslash })
fault outside pos (c ∷ s) =
    let single = fault (in_single pos) (pos + 1) s in
    let double = fault (in_double pos) (pos + 1) s in
    let behind = fault (escaped outside pos) (pos + 1) s in
    let plain = fault outside (pos + 1) s in
    if c == b'\''
    then single
    else if c == b'"'
    then double
    else if c == b'\\'
    then behind
    else plain
fault (in_single q) pos (c ∷ s) =
    let closed = fault outside (pos + 1) s in
    let goes_on = fault (in_single q) (pos + 1) s in if c == b'\'' then closed else goes_on
fault (in_double q) pos (c ∷ s) =
    let closed = fault outside (pos + 1) s in
    let behind = fault (escaped (in_double q) pos) (pos + 1) s in
    let goes_on = fault (in_double q) (pos + 1) s in
    if c == b'"' then closed else if c == b'\\' then behind else goes_on
fault (escaped back at) pos (c ∷ s) = fault back (pos + 1) s

abbrev pub place : State → ℕ → Place
place whitespace q = outside
place word q = outside
place single_quote q = in_single q
place double_quote q = in_double q

-- The fault of what a lexer has not read.
abbrev pub ahead : Lexer → Option QuoteError
ahead lx = fault (place lx.state lx.quote_open) lx.i lx.rest

-- Where a step has moved by one byte.
moved_one :
    (st : State) (lx x t : Lexer) (c : ℕ) (behind : Bytes) (o : Option QuoteError)
    → lx.rest ≡ c ∷ behind
    → x.rest ≡ lx.rest
    → x.i ≡ lx.i
    → x.state ≡ st
    → ◌≡◌ {A = Result Lexer QuoteError} (ok (advance 1 x)) (ok t)
    → fault (place st x.quote_open) (lx.i + 1) behind ≡ o
    → ahead t ≡ o
moved_one st lx x t c behind o r same_rest same_i same_state h f =
    let arrived : advance 1 x ≡ t = cc h in
    let rest : drop 1 x.rest ≡ behind = ap (drop 1) (same_rest ∙ r) in
    subst (λ y. ahead y ≡ o) arrived
      (ap (λ z. fault (place z x.quote_open) (x.i + 1) (drop 1 x.rest)) same_state
        ∙ ap (λ z. fault (place st x.quote_open) (x.i + 1) z) rest
        ∙ ap (λ (n : ℕ). fault (place st x.quote_open) (n + 1) behind) same_i
        ∙ f)

single-ahead :
    (lx : Lexer) (c : ℕ) (behind : Bytes) (t : Lexer)
    → lx.state ≡ single_quote
    → lx.rest ≡ c ∷ behind
    → step_in single_quote lx c behind ≡ ok t
    → ahead t ≡ fault (in_single lx.quote_open) lx.i (c ∷ behind)
unfolding step_in fault
single-ahead lx c behind t e r h = elim (Bool-cases (c == b'\'')) [
  | inl b ↦ moved_one word lx (goto word lx) t c behind _ r refl refl refl (rw b at h) (rw b refl)
  | inr b ↦ moved_one single_quote lx (push c lx) t c behind _ r refl refl e (rw b at h) (rw b refl)
]

-- Where a step has moved by more bytes, to `left`.
moved_more :
    (n : ℕ) (st : State) (lx x t : Lexer) (whole left : Bytes) (o : Option QuoteError)
    → lx.rest ≡ whole
    → drop n whole ≡ left
    → x.rest ≡ lx.rest
    → x.i ≡ lx.i
    → x.state ≡ st
    → ◌≡◌ {A = Result Lexer QuoteError} (ok (advance n x)) (ok t)
    → fault (place st x.quote_open) (lx.i + n) left ≡ o
    → ahead t ≡ o
moved_more n st lx x t whole left o r d same_rest same_i same_state h f =
    let arrived : advance n x ≡ t = cc h in
    let rest : drop n x.rest ≡ left = ap (drop n) (same_rest ∙ r) ∙ d in
    subst (λ y. ahead y ≡ o) arrived
      (ap (λ z. fault (place z x.quote_open) (x.i + n) (drop n x.rest)) same_state
        ∙ ap (λ z. fault (place st x.quote_open) (x.i + n) z) rest
        ∙ ap (λ (k : ℕ). fault (place st x.quote_open) (k + n) left) same_i
        ∙ f)

-- A line feed is plain outside of quotes and in double ones, where a backslash may stand.
data Escapes : State → Type 0 where
  blank : Escapes whitespace
  bare : Escapes word
  quoted : Escapes double_quote

line_feed-fault :
    (st : State) (q pos : ℕ) (b : Bytes)
    → Escapes st
    → fault (place st q) pos (b'\n' ∷ b) ≡ fault (place st q) (pos + 1) b
unfolding fault
line_feed-fault whitespace q pos b k = refl
line_feed-fault word q pos b k = refl
line_feed-fault single_quote q pos b k = elim k [ ]
line_feed-fault double_quote q pos b k = refl

escaped-fault :
    (back : Place) (i : ℕ) (d : ℕ) (b : Bytes)
    → fault back (i + 2) b ≡ fault (escaped back i) (i + 1) (d ∷ b)
unfolding fault
escaped-fault back i d b = ap (λ (n : ℕ). fault back n b) (omega arith)

continued-fault :
    (st : State) (q i : ℕ) (d : ℕ) (b : Bytes)
    → Escapes st
    → fault (place st q) (i + 3) b ≡ fault (escaped (place st q) i) (i + 1) (d ∷ b'\n' ∷ b)
continued-fault st q i d b k =
    ap (λ (n : ℕ). fault (place st q) n b) (omega arith)
    ∙ sym (line_feed-fault st q (i + 2) b k)
    ∙ escaped-fault (place st q) i d (b'\n' ∷ b)

-- What a line continuation comes to.
continuation :
    (st : State) (lx : Lexer) (c d : ℕ) (behind : Bytes) (t : Lexer) (n : ℕ)
    → Escapes st
    → lx.state ≡ st
    → lx.rest ≡ c ∷ d ∷ behind
    → line_continuation d behind ≡ some n
    → ◌≡◌ {A = Result Lexer QuoteError} (ok (advance n lx)) (ok t)
    → ahead t ≡ fault (escaped (place st lx.quote_open) lx.i) (lx.i + 1) (d ∷ behind)
unfolding line_continuation
continuation st lx c d [] t n k e r l h =
    let two : 2 ≡ n = ground (arith, l) in
    moved_more 2 st lx lx t (c ∷ d ∷ []) [] _ r refl refl refl e
      (subst (λ m. ◌≡◌ {A = Result Lexer QuoteError} (ok (advance m lx)) (ok t)) (sym two) h)
      (escaped-fault (place st lx.quote_open) lx.i d [])
continuation st lx c d (x ∷ behind) t n k e r l h = elim (Bool-cases (d == b'\n')) [
  | inl b ↦
      let two : 2 ≡ n = ground (arith, l, b) in
      moved_more 2 st lx lx t (c ∷ d ∷ x ∷ behind) (x ∷ behind) _ r refl refl refl e
        (subst (λ m. ◌≡◌ {A = Result Lexer QuoteError} (ok (advance m lx)) (ok t)) (sym two) h)
        (escaped-fault (place st lx.quote_open) lx.i d (x ∷ behind))
  | inr b ↦
      let three : 3 ≡ n = ground (arith, l, b) in
      let feed : x ≡ b'\n' = ground (arith, l, b) in
      moved_more 3 st lx lx t (c ∷ d ∷ x ∷ behind) behind _ r refl refl refl e
        (subst (λ m. ◌≡◌ {A = Result Lexer QuoteError} (ok (advance m lx)) (ok t)) (sym three) h)
        (continued-fault st lx.quote_open lx.i d behind k
          ∙ ap
              (λ (y : ℕ). fault (escaped (place st lx.quote_open) lx.i) (lx.i + 1) (d ∷ y ∷ behind))
              (sym feed))
]

unquoted-ahead :
    (lx : Lexer) (c : ℕ) (behind : Bytes) (t : Lexer)
    → lx.state ≡ word
    → lx.rest ≡ c ∷ behind
    → backslash_unquoted lx behind ≡ ok t
    → ahead t ≡ fault (escaped outside lx.i) (lx.i + 1) behind
unfolding backslash_unquoted
unquoted-ahead lx c [] t e r h = absurd (cc h)
unquoted-ahead lx c (d ∷ behind) t e r h = elim (Option-cases (line_continuation d behind)) [
  | inl l ↦
      moved_more 2 word lx (push d lx) t (c ∷ d ∷ behind) behind _ r refl refl refl e
        (rw (l, backslash_unquoted) at h) (escaped-fault outside lx.i d behind)
  | inr (n, l) ↦
      continuation word lx c d behind t n Escapes.bare e r l (rw (l, backslash_unquoted) at h)
]

blank-ahead :
    (lx : Lexer) (c : ℕ) (behind : Bytes) (t : Lexer)
    → lx.state ≡ whitespace
    → lx.rest ≡ c ∷ behind
    → backslash_in_whitespace lx behind ≡ ok t
    → ahead t ≡ fault (escaped outside lx.i) (lx.i + 1) behind
unfolding backslash_in_whitespace
blank-ahead lx c [] t e r h = absurd (cc h)
blank-ahead lx c (d ∷ behind) t e r h = elim (Option-cases (line_continuation d behind)) [
  | inl l ↦
      let opened : Lexer = record (advance 2 (push d lx)) { has_token = true; state = word } in
      let arrived : opened ≡ t = cc (rw (l, backslash_in_whitespace) at h) in
      subst (λ y. ahead y ≡ fault (escaped outside lx.i) (lx.i + 1) (d ∷ behind)) arrived
        (ap (λ z. fault outside (lx.i + 2) (drop 2 z)) r ∙ escaped-fault outside lx.i d behind)
  | inr (n, l) ↦
      continuation whitespace lx c d behind t n Escapes.blank e r l
        (rw (l, backslash_in_whitespace) at h)
]

-- A byte that a backslash does not escape in double quotes is neither a quote nor a backslash.
plain-fault :
    (q i : ℕ) (d : ℕ) (b : Bytes)
    → escapable d ≡ false
    → fault (in_double q) (i + 1) (d ∷ b) ≡ fault (escaped (in_double q) i) (i + 1) (d ∷ b)
unfolding fault escapable
plain-fault q i d b h =
    let quote : (d == b'"') ≡ false = ground (arith, h) in
    let slash : (d == b'\\') ≡ false = ground (arith, h) in rw (quote, slash) refl

dquote-ahead :
    (lx : Lexer) (c : ℕ) (behind : Bytes) (t : Lexer)
    → lx.state ≡ double_quote
    → lx.rest ≡ c ∷ behind
    → backslash_in_dquote lx behind ≡ ok t
    → ahead t ≡ fault (escaped (in_double lx.quote_open) lx.i) (lx.i + 1) behind
unfolding backslash_in_dquote
dquote-ahead lx c [] t e r h = absurd (cc h)
dquote-ahead lx c (d ∷ behind) t e r h = elim (Option-cases (line_continuation d behind)) [
  | inr (n, l) ↦
      continuation double_quote lx c d behind t n Escapes.quoted e r l
        (rw (l, backslash_in_dquote) at h)
  | inl l ↦ elim (Bool-cases (escapable d)) [
    | inl b ↦
        moved_more 2 double_quote lx (push d lx) t (c ∷ d ∷ behind) behind _ r refl refl refl e
          (rw (l, backslash_in_dquote, b) at h)
          (escaped-fault (in_double lx.quote_open) lx.i d behind)
    | inr b ↦
        moved_one double_quote lx (push b'\\' lx) t c (d ∷ behind) _ r refl refl e
          (rw (l, backslash_in_dquote, b) at h) (plain-fault lx.quote_open lx.i d behind b)
  ]
]

double-ahead :
    (lx : Lexer) (c : ℕ) (behind : Bytes) (t : Lexer)
    → lx.state ≡ double_quote
    → lx.rest ≡ c ∷ behind
    → step_in double_quote lx c behind ≡ ok t
    → ahead t ≡ fault (in_double lx.quote_open) lx.i (c ∷ behind)
unfolding step_in fault
double-ahead lx c behind t e r h = elim (Bool-cases (c == b'"')) [
  | inl b ↦ moved_one word lx (goto word lx) t c behind _ r refl refl refl (rw b at h) (rw b refl)
  | inr b ↦ elim (Bool-cases (c == b'\\')) [
    | inl d ↦ rw (b, d) (dquote-ahead lx c behind t e r (rw (b, d) at h))
    | inr d ↦
        moved_one double_quote lx (push c lx) t c behind _ r refl refl e (rw (b, d) at h)
          (rw (b, d) refl)
  ]
]

emit-keeps : (lx : Lexer) → ((emit lx).rest ≡ lx.rest) × ((emit lx).i ≡ lx.i)
unfolding emit
emit-keeps lx = (ground arith, ground arith)

-- Whitespace is plain.
blank-fault :
    (pos c : ℕ) (b : Bytes) → is_ws c ≡ true → fault outside (pos + 1) b ≡ fault outside pos (c ∷ b)
unfolding fault is_ws
blank-fault pos c b h =
    let single : (c == b'\'') ≡ false = ground (arith, h) in
    let double : (c == b'"') ≡ false = ground (arith, h) in
    let slash : (c == b'\\') ≡ false = ground (arith, h) in rw (single, double, slash) refl

word-ahead :
    (lx : Lexer) (c : ℕ) (behind : Bytes) (t : Lexer)
    → lx.state ≡ word
    → lx.rest ≡ c ∷ behind
    → step_in word lx c behind ≡ ok t
    → ahead t ≡ fault outside lx.i (c ∷ behind)
unfolding step_in fault is_ws
word-ahead lx c behind t e r h = elim (Bool-cases (is_ws c)) [
  | inl w ↦
      moved_one whitespace lx (goto whitespace (emit lx)) t c behind _ r (emit-keeps lx).0
        (emit-keeps lx).1 refl (rw w at h) (blank-fault lx.i c behind w)
  | inr w ↦ elim (Bool-cases (c == b'\'')) [
    | inl b ↦
        moved_one single_quote lx (record lx { state = single_quote; quote_open = lx.i }) t c behind
          _ r refl refl refl (rw (w, b) at h) (rw b refl)
    | inr b ↦ elim (Bool-cases (c == b'"')) [
      | inl d ↦
          moved_one double_quote lx (record lx { state = double_quote; quote_open = lx.i }) t c
            behind _ r refl refl refl (rw (w, b, d) at h) (rw (b, d) refl)
      | inr d ↦ elim (Bool-cases (c == b'\\')) [
        | inl k ↦ rw (b, d, k) (unquoted-ahead lx c behind t e r (rw (w, b, d, k) at h))
        | inr k ↦
            moved_one word lx (push c lx) t c behind _ r refl refl e (rw (w, b, d, k) at h)
              (rw (b, d, k) refl)
      ]
    ]
  ]
]

whitespace-ahead :
    (lx : Lexer) (c : ℕ) (behind : Bytes) (t : Lexer)
    → lx.state ≡ whitespace
    → lx.rest ≡ c ∷ behind
    → step_in whitespace lx c behind ≡ ok t
    → ahead t ≡ fault outside lx.i (c ∷ behind)
unfolding step_in fault is_ws
whitespace-ahead lx c behind t e r h = elim (Bool-cases (is_ws c)) [
  | inl w ↦
      moved_one whitespace lx lx t c behind _ r refl refl e (rw w at h)
        (blank-fault lx.i c behind w)
  | inr w ↦ elim (Bool-cases (c == b'\'')) [
    | inl b ↦
        moved_one single_quote lx
          (record lx { state = single_quote; has_token = true; quote_open = lx.i }) t c behind _ r
          refl refl refl (rw (w, b) at h) (rw b refl)
    | inr b ↦ elim (Bool-cases (c == b'"')) [
      | inl d ↦
          moved_one double_quote lx
            (record lx { state = double_quote; has_token = true; quote_open = lx.i }) t c behind _ r
            refl refl refl (rw (w, b, d) at h) (rw (b, d) refl)
      | inr d ↦ elim (Bool-cases (c == b'\\')) [
        | inl k ↦ rw (b, d, k) (blank-ahead lx c behind t e r (rw (w, b, d, k) at h))
        | inr k ↦
            moved_one word lx (record (push c lx) { has_token = true; state = word }) t c behind _ r
              refl refl refl (rw (w, b, d, k) at h) (rw (b, d, k) refl)
      ]
    ]
  ]
]

-- A step does not change what is wrong with the text.
pub step_in-ahead :
    (st : State) (lx : Lexer) (c : ℕ) (behind : Bytes) (t : Lexer)
    → lx.state ≡ st
    → lx.rest ≡ c ∷ behind
    → step_in st lx c behind ≡ ok t
    → ahead t ≡ fault (place st lx.quote_open) lx.i (c ∷ behind)
step_in-ahead whitespace = whitespace-ahead
step_in-ahead word = word-ahead
step_in-ahead single_quote = single-ahead
step_in-ahead double_quote = double-ahead
