-- ===== src/Quote/Windows/Rounds.antt =====
-- Every round of the loop of `split_rest_wide` reads a unit at least, so the loop ends.
use subprocess.Prelude.{
  ℕ, suc, ◌<◌, ◌≤◌, ◌≡◌, refl, ap, ◌∙◌, true, List, [], ◌∷◌, some, arith, next, halt, length,
  loop_total, loop, loop-next, loop-halt,
}
use subprocess.Quote.Windows.{
  Units, Splitter, is_blank, skip_blanks, count_quote, read_quotes, collapse, at_quote, after_blank,
  at_blank, round_at, round, unread, split_rest_from, split_rest_wide,
}

pub skip_blanks-le : (s : Units) → length (skip_blanks s) ≤ length s
unfolding skip_blanks
skip_blanks-le [] = omega arith
skip_blanks-le (c ∷ s) = ground (arith, skip_blanks-le s)

read_quotes-le : (sp : Splitter) (s : Units) → unread (read_quotes sp s) ≤ length s
unfolding read_quotes
read_quotes-le sp [] = omega arith
read_quotes-le sp (c ∷ s) = ground (arith, read_quotes-le (count_quote sp) s)

at_quote-le : (sp : Splitter) (s : Units) → unread (at_quote sp s) ≤ length s
unfolding at_quote
at_quote-le sp s = ground (arith, read_quotes-le (record (collapse sp) { bcount = 0 }) s)

after_blank-le : (sp t : Splitter) (s : Units) → after_blank sp s ≡ next t → unread t ≤ length s
unfolding after_blank
after_blank-le sp t [] h = cc
after_blank-le sp t (c ∷ s) h = ground arith

at_blank-lowers :
    (sp t : Splitter) (c : ℕ) (s : Units)
    → sp.rest ≡ c ∷ s
    → is_blank c ≡ true
    → at_blank sp ≡ next t
    → unread t < unread sp
unfolding at_blank
at_blank-lowers sp t c s e b h =
    let size : unread sp ≡ suc (length s) = ap length e in
    let skipped : skip_blanks sp.rest ≡ skip_blanks s =
      ap skip_blanks e ∙ unfold skip_blanks in rw b in
    ground
      (arith, after_blank-le _ t (skip_blanks sp.rest) h, ap length skipped, skip_blanks-le s, size)

round_at-lowers :
    (sp t : Splitter) (s : Units) → sp.rest ≡ s → round_at sp s ≡ next t → unread t < unread sp
unfolding round_at
round_at-lowers sp t [] e h = cc
round_at-lowers sp t (c ∷ s) e h =
    let size : unread sp ≡ suc (length s) = ap length e in
    ground (arith, at_blank-lowers sp t c s e, at_quote-le sp s, size)

round-lowers : (sp t : Splitter) → round sp ≡ next t → unread t < unread sp
unfolding round
round-lowers sp t h = round_at-lowers sp t sp.rest refl h

pub loop-step :
    (sp t : Splitter) (s : Units)
    → sp.rest ≡ s
    → round_at sp s ≡ next t
    → loop round unread sp ≡ loop round unread t
loop-step sp t s e h =
    loop-next round unread round-lowers sp t (unfold round in ap (round_at sp) e ∙ h)

pub loop-end :
    (sp : Splitter) (s : Units) {r : List Units}
    → sp.rest ≡ s
    → round_at sp s ≡ halt r
    → loop round unread sp ≡ some r
unfolding round
loop-end sp s e h = loop-halt round unread sp (ap (round_at sp) e ∙ h)

split_rest_from_total : (s : Units) → (r : List Units) × (split_rest_from s ≡ some r)
unfolding split_rest_from
split_rest_from_total [] = ([], refl)
split_rest_from_total (c ∷ s) = loop_total round unread round-lowers _

pub split_rest_wide_total : (s : Units) → (r : List Units) × (split_rest_wide s ≡ some r)
unfolding split_rest_wide
split_rest_wide_total s = split_rest_from_total (skip_blanks s)
