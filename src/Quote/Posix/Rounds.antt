-- ===== src/Quote/Posix/Rounds.antt =====
-- Every round of the loop of `split` reads a byte at least, so the loop ends.
use subprocess.Prelude.{
  ℕ, suc, ap, refl, ◌∙◌, length, ◌+◌, ◌<◌, ◌≡◌, ◌⊎◌, List, [], ◌∷◌, some, arith, next, loop,
  loop-next, loop-halt, loop_total, drop, length-drop, Result, ok, err,
}
use subprocess.Quote.Common.{QuoteError, Bytes}
use subprocess.Quote.Posix.{
  State, whitespace, word, single_quote, double_quote, Lexer, emit, line_continuation,
  backslash_unquoted, backslash_in_dquote, backslash_in_whitespace, step_in, finish, proceed,
  round_at, round, unread, start, split,
}

-- `t` is `lx` some bytes on.
abbrev pub Moved : ℕ → Lexer → Lexer → Type 0
Moved n lx t = (t.i ≡ lx.i + n) × (t.rest ≡ drop n lx.rest)

abbrev pub Advances : Lexer → Lexer → Type 0
Advances lx t = Moved 1 lx t ⊎ Moved 2 lx t ⊎ Moved 3 lx t

backslash_unquoted-Advances :
    (lx : Lexer) (behind : Bytes) (t : Lexer) → backslash_unquoted lx behind ≡ ok t → Advances lx t
unfolding backslash_unquoted line_continuation
backslash_unquoted-Advances lx [] t h = cc
backslash_unquoted-Advances lx (d ∷ behind) t h = ground arith

backslash_in_dquote-Advances :
    (lx : Lexer) (behind : Bytes) (t : Lexer) → backslash_in_dquote lx behind ≡ ok t → Advances lx t
unfolding backslash_in_dquote line_continuation
backslash_in_dquote-Advances lx [] t h = cc
backslash_in_dquote-Advances lx (d ∷ behind) t h = ground arith

backslash_in_whitespace-Advances :
    (lx : Lexer) (behind : Bytes) (t : Lexer)
    → backslash_in_whitespace lx behind ≡ ok t
    → Advances lx t
unfolding backslash_in_whitespace line_continuation
backslash_in_whitespace-Advances lx [] t h = cc
backslash_in_whitespace-Advances lx (d ∷ behind) t h = ground arith

pub step_in-Advances :
    (st : State) (lx : Lexer) (c : ℕ) (behind : Bytes) (t : Lexer)
    → step_in st lx c behind ≡ ok t
    → Advances lx t
unfolding step_in emit
step_in-Advances whitespace lx c behind t h =
    ground (arith, backslash_in_whitespace-Advances lx behind t)
step_in-Advances word lx c behind t h = ground (arith, backslash_unquoted-Advances lx behind t)
step_in-Advances single_quote lx c behind t h = ground arith
step_in-Advances double_quote lx c behind t h =
    ground (arith, backslash_in_dquote-Advances lx behind t)

pub proceed-eq-next : (r : Result Lexer QuoteError) (t : Lexer) → proceed r ≡ next t → r ≡ ok t
proceed-eq-next (ok u) t h = cc
proceed-eq-next (err e) t h = cc

round_at-lowers :
    (lx t : Lexer) (s : Bytes) → lx.rest ≡ s → round_at lx s ≡ next t → unread t < unread lx
unfolding round_at
round_at-lowers lx t [] e h = cc
round_at-lowers lx t (c ∷ behind) e h =
    let moved = step_in-Advances lx.state lx c behind t (proceed-eq-next _ t h) in
    let size : unread lx ≡ suc (length behind) = ap length e in
    ground (arith, length-drop 1 lx.rest, length-drop 2 lx.rest, length-drop 3 lx.rest, moved, size)

pub round-lowers : (lx t : Lexer) → round lx ≡ next t → unread t < unread lx
unfolding round
round-lowers lx t h = round_at-lowers lx t lx.rest refl h

-- The loop goes on behind a step that succeeds.
pub loop-step :
    (lx t : Lexer) (c : ℕ) (behind : Bytes)
    → lx.rest ≡ c ∷ behind
    → step_in lx.state lx c behind ≡ ok t
    → loop round unread lx ≡ loop round unread t
loop-step lx t c behind e h =
    loop-next round unread round-lowers lx t (unfold round in ap (round_at lx) e ∙ ap proceed h)

pub loop-end : (lx : Lexer) → lx.rest ≡ [] → loop round unread lx ≡ some (finish lx.state lx)
unfolding round
loop-end lx e = loop-halt round unread lx (ap (round_at lx) e)

-- `split` ends on every input.
pub split_total : (s : Bytes) → (r : Result (List Bytes) QuoteError) × (split s ≡ some r)
unfolding split
split_total s = loop_total round unread round-lowers (start s)
