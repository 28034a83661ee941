-- ===== src/Identity/StatParse/Tests.antt =====
-- A stat line whose command name has brackets and blanks.
use subprocess.Prelude.{Bool, true, [], ◌∷◌, ◌++◌, some, ◌≡◌, refl, arith, codes}
use mathlib.Core.Option
use subprocess.Errors.{Text}
use subprocess.Identity.{Liveness}
use subprocess.Identity.StatParse.{
  after_last, is_space, flush, split_from, decoded, tail, field, parse_starttime_jiffies,
  parse_state, parse_pgrp, is_exited, running_state, running_token, running_from_stat, first_byte,
  parse_uint, digits, digits_from,
}
use subprocess.Identity.StatParse.Fields.{fields_text, field-fields_text}

abbrev any : Text → Bool
any t = true

abbrev line : Text
line = codes "42 (a) b (c)) S 7 42 0 0 0 0 0 0 0 0 0 0 0 0 0 0 0 0 990 0"

parse_pgrp-line : parse_pgrp any line ≡ some 42
unfolding parse_pgrp field tail decoded after_last split_from flush is_space Option.bind parse_uint
    digits digits_from
parse_pgrp-line = refl

running_from_stat-line : running_from_stat any line 990 ≡ Liveness.alive
unfolding running_from_stat running_token running_state is_exited parse_starttime_jiffies
    parse_state field tail decoded after_last split_from flush is_space Option.bind parse_uint
    digits digits_from first_byte
running_from_stat-line = refl

field-fields_text_example :
    field any 1 (codes "42 (a) b (c)" ++ 41 ∷ fields_text (codes "S" ∷ codes "7" ∷ codes "42" ∷ []))
    ≡ some (codes "7")
unfolding is_space
field-fields_text_example =
    field-fields_text any 1 (codes "42 (a) b (c)") (codes "S" ∷ codes "7" ∷ codes "42" ∷ [])
      (
        ((λ e. ground arith), ((refl, refl), tt)),
        (
          ((λ e. ground arith), ((refl, refl), tt)),
          (((λ e. ground arith), ((refl, refl), ((refl, refl), tt))), tt),
        ),
      )
      refl
