-- ===== src/Quote/Windows/Tests.antt =====
-- Runs of the splitter and of `join_wide`, and instances of the theorems about them.
use subprocess.Prelude.{List, [], ◌∷◌, ◌++◌, some, ◌≡◌, refl, arith, codes, loop}
use subprocess.Quote.Windows.RoundTrip.{split_rest_wide-join_wide, split_wide-quoted}
use subprocess.Quote.Windows.{
  Units, space, quote_mark, is_blank, any_blank, needs_quotes, write_unit, write_units, append_arg,
  join_from, join_wide, skip_blanks, read_quoted, first_token_and_rest_wide, count_quote,
  read_quotes, collapse, at_quote, at_blank, round, split_rest_wide, split_wide,
}

abbrev arguments : List Units
arguments = codes "a\\\"b" ∷ [] ∷ codes "c d\\" ∷ codes "\"" ∷ codes "e \"" ∷ []

join_arguments : join_wide arguments ≡ codes "a\\\\\\\"b \"\" \"c d\\\\\" \\\" \"e \\\"\""
unfolding join_wide join_from append_arg write_units write_unit needs_quotes any_blank is_blank
join_arguments = refl

-- The runs of quotes that the doc comment of `split_wide` explains.
run_of_two : split_rest_wide (codes "a\"\"b") ≡ some (codes "ab" ∷ [])
unfolding split_rest_wide round loop skip_blanks is_blank at_quote collapse read_quotes count_quote
run_of_two = refl

run_of_three : split_rest_wide (codes "\"a\"\"b\"") ≡ some (codes "a\"b" ∷ [])
unfolding split_rest_wide round loop skip_blanks is_blank at_quote collapse read_quotes count_quote
run_of_three = refl

split_line :
    split_wide (codes "  \"p q\"  x \\\\\"y z\" ")
    ≡ some (codes "p q" ∷ codes "x" ∷ codes "\\y z" ∷ [])
unfolding split_wide first_token_and_rest_wide read_quoted split_rest_wide round loop skip_blanks
    is_blank at_blank at_quote collapse read_quotes count_quote
split_line = refl

split_rest_wide-join_wide_example : split_rest_wide (join_wide arguments) ≡ some arguments
split_rest_wide-join_wide_example = split_rest_wide-join_wide arguments

split_wide-quoted_example :
    split_wide (quote_mark ∷ (codes "p q" ++ (quote_mark ∷ space ∷ join_wide arguments)))
    ≡ some (codes "p q" ∷ arguments)
split_wide-quoted_example = split_wide-quoted (codes "p q") arguments (omega arith)
