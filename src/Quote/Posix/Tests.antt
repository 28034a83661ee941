-- ===== src/Quote/Posix/Tests.antt =====
-- Runs of `split`, `quote` and `join`, and instances of the theorems about them.
use subprocess.Prelude.{Result, List, [], ◌∷◌, some, ◌≡◌, refl, ok, err, codes, loop}
use subprocess.Quote.Common.{QuoteError, unterminated_single_quote, trailing_backslash, Bytes}
use subprocess.Quote.Posix.{
  step_in, finish, emit, line_continuation, backslash_unquoted, backslash_in_dquote,
  backslash_in_whitespace, round, split, is_safe, all_safe, quote_bytes, quote, join_from, join,
}
use subprocess.Quote.Posix.RoundTrip.{split-join}
use subprocess.Quote.Posix.Errors.{failure, split-err}
use subprocess.Quote.Posix.Blame.{fault}

abbrev words : List Bytes
words = codes "it's" ∷ [] ∷ codes "a b" ∷ codes "x=1" ∷ []

join-words : join words ≡ codes "'it'\"'\"'s' '' 'a b' x=1"
unfolding join join_from quote quote_bytes all_safe is_safe
join-words = refl

split_mixed :
    split (codes " a\\ b\"c\\\"\\d\"'e' \\\n f") ≡ some (ok (codes "a bc\"\\de" ∷ codes "f" ∷ []))
unfolding split round loop step_in finish emit line_continuation backslash_unquoted
    backslash_in_dquote backslash_in_whitespace
split_mixed = refl

open_quote :
    split (codes "ab 'c") ≡ some (err (record { pos = 3; kind = unterminated_single_quote }))
unfolding split round loop step_in finish emit
open_quote = refl

last_backslash : split (codes "ab\\") ≡ some (err (record { pos = 2; kind = trailing_backslash }))
unfolding split round loop step_in finish emit backslash_unquoted
last_backslash = refl

split-join_example : split (join words) ≡ some (ok words)
split-join_example = split-join words

split-err_example :
    (r : Result (List Bytes) QuoteError) × (split (codes "'a' 'b") ≡ some r)
    × (failure r ≡ some (record { pos = 4; kind = unterminated_single_quote }))
unfolding fault
split-err_example = split-err (codes "'a' 'b")
