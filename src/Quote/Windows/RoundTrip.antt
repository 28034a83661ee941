-- ===== src/Quote/Windows/RoundTrip.antt =====
-- `split_rest_wide` and `split_wide` read back what `join_wide` writes.
use subprocess.Prelude.{
  ℕ, ◌==◌, false, List, [], ◌∷◌, ◌++◌, append_assoc, append-nil, some, ◌≡◌, ◌≢◌, refl, ◌∙◌, arith,
  All,
}
use subprocess.Quote.Windows.{
  Units, space, quote_mark, is_blank, any_blank, join_wide, join_from, skip_blanks, read_quoted,
  read_bare, first_token_at, first_token_and_rest_wide, after_blank, at_blank, round_at,
  split_rest_from, split_rest_wide, split_wide,
}
use subprocess.Quote.Windows.Rounds.{loop-step, loop-end}
use subprocess.Quote.Windows.Pieces.{at, parsed}
use subprocess.Quote.Windows.Bodies.{read_written}
use subprocess.Quote.Windows.Written.{
  written, spaced, join_wide-written, StartsToken, written-StartsToken, skip_blanks-StartsToken,
  spaced-EndsQuotes,
}

-- The separator ends an argument, and the next one begins behind it.
read_separator :
    (s buf : Units) (out : List Units) (b : ℕ)
    → StartsToken s
    → parsed (at (space ∷ s) out buf 0 b) ≡ parsed (at s (out ++ buf ∷ []) [] 0 0)
unfolding round_at
read_separator s buf out b (c, r, e, k) =
    let skipped : skip_blanks s ≡ c ∷ r = skip_blanks-StartsToken s (c, r, e, k) ∙ e in
    loop-step _ _ (space ∷ s) refl
      (unfold at_blank skip_blanks is_blank after_blank in rw (skipped, at_blank) (rw e))

read_arguments :
    (args : List Units) (a : Units) (out : List Units) (b : ℕ)
    → parsed (at (spaced args) out a 0 b) ≡ some (out ++ a ∷ args)
unfolding spaced
read_arguments [] a out b = loop-end _ [] refl (unfold round_at in refl)
read_arguments (a' ∷ args) a out b =
    let (b', p) = read_written (out ++ a ∷ []) (spaced args) (spaced-EndsQuotes args) a' in
    read_separator (written a' ++ spaced args) a out b (written-StartsToken a' (spaced args))
    ∙ p
    ∙ read_arguments args a' (out ++ a ∷ []) b'
    ∙ rw append_assoc

split_rest_from-StartsToken :
    (s : Units) → StartsToken s → split_rest_from s ≡ parsed (at s [] [] 0 0)
unfolding split_rest_from
split_rest_from-StartsToken s (c, r, e, k) = rw (e, split_rest_from)

-- Parsing the arguments of a joined command line gives them back, whatever units they hold.
pub split_rest_wide-join_wide : (args : List Units) → split_rest_wide (join_wide args) ≡ some args
unfolding split_rest_wide
split_rest_wide-join_wide [] = unfold join_wide join_from skip_blanks split_rest_from in refl
split_rest_wide-join_wide (a ∷ args) =
    let line = written a ++ spaced args in
    let starts = written-StartsToken a (spaced args) in
    let (b, p) = read_written [] (spaced args) (spaced-EndsQuotes args) a in
    rw (join_wide-written, skip_blanks-StartsToken line starts)
      (split_rest_from-StartsToken line starts ∙ p ∙ read_arguments args a [] b)

skip_blanks-join_wide : (args : List Units) → skip_blanks (space ∷ join_wide args) ≡ join_wide args
skip_blanks-join_wide [] = unfold join_wide join_from skip_blanks is_blank in refl
skip_blanks-join_wide (a ∷ args) =
    unfold skip_blanks is_blank in
    rw join_wide-written (skip_blanks-StartsToken _ (written-StartsToken a (spaced args)))

read_quoted-append :
    (p s first : Units)
    → All (λ c. c ≢ quote_mark) p
    → read_quoted (p ++ (quote_mark ∷ s)) first ≡ (first ++ p, quote_mark ∷ s)
unfolding read_quoted
read_quoted-append [] s first h = rw append-nil
read_quoted-append (c ∷ p) s first h =
    ground (arith, read_quoted-append p s (first ++ c ∷ []) h.1, append_assoc first (c ∷ []) p)

read_bare-append :
    (p s first : Units)
    → any_blank p ≡ false
    → read_bare (p ++ (space ∷ s)) first ≡ (first ++ p, space ∷ s)
unfolding read_bare any_blank is_blank
read_bare-append [] s first h = rw append-nil
read_bare-append (c ∷ p) s first h =
    ground (arith, read_bare-append p s (first ++ c ∷ []), append_assoc first (c ∷ []) p)

split_wide_from :
    (cmd program : Units) (args : List Units)
    → first_token_and_rest_wide cmd ≡ some (program, join_wide args)
    → split_wide cmd ≡ some (program ∷ args)
unfolding split_wide
split_wide_from cmd program args e = rw (e, split_wide) (rw split_rest_wide-join_wide)

-- A command line made of a program in quotes and joined arguments is split into these, if no unit
-- of the program is a quote.
pub split_wide-quoted :
    (program : Units) (args : List Units)
    → All (λ c. c ≢ quote_mark) program
    → split_wide (quote_mark ∷ (program ++ (quote_mark ∷ space ∷ join_wide args)))
      ≡ some (program ∷ args)
split_wide-quoted program args h = split_wide_from _ program args (
    unfold first_token_and_rest_wide skip_blanks is_blank in
    rw (read_quoted-append program (space ∷ join_wide args) [] h) (rw (skip_blanks-join_wide args)))

-- So is one whose program stands bare, if the program is not empty, holds no blank and does not
-- begin with a quote.
pub split_wide-bare :
    (c : ℕ) (program : Units) (args : List Units)
    → c ≢ quote_mark
    → any_blank (c ∷ program) ≡ false
    → split_wide ((c ∷ program) ++ (space ∷ join_wide args)) ≡ some ((c ∷ program) ∷ args)
split_wide-bare c program args h free =
    let solid : is_blank c ≡ false = unfold any_blank in ground arith in
    let ordinary : (c == quote_mark) ≡ false = ground arith in
    split_wide_from _ (c ∷ program) args (
      unfold first_token_and_rest_wide skip_blanks in
      rw (solid, first_token_at)
        (rw (ordinary, read_bare-append (c ∷ program) (join_wide args) [] free)
          (rw (skip_blanks-join_wide args))))
