-- ===== src/Quote/Windows/Written.antt =====
-- What `append_arg` and `join_wide` append, as recursive functions of the arguments.
use subprocess.Prelude.{
  ℕ, ◌+◌, ◌<◌, Bool, true, false, Bool-cases, inl, inr, List, [], ◌∷◌, ◌++◌, append_assoc,
  append-nil, replicate, ltb, ◌==◌, if◌then◌else◌, ◌≡◌, ◌≢◌, refl, sym, ◌∙◌, arith,
}
use subprocess.Quote.Windows.{
  Units, space, quote_mark, backslash, is_blank, any_blank, needs_quotes, Writer, write_unit,
  write_units, append_arg, join_from, join_wide, skip_blanks,
}

abbrev pub closing : Bool → ℕ → Units
closing true n = replicate n backslash ++ quote_mark ∷ []
closing false n = []

-- An argument's units behind `n` backslashes; the flag says whether a closing quote follows.
unfoldable pub encoded : Bool → Units → ℕ → Units
encoded q [] n = closing q n
encoded q (x ∷ xs) n =
    if x == backslash
    then x ∷ encoded q xs (n + 1)
    else if x == quote_mark
    then replicate (n + 1) backslash ++ (x ∷ encoded q xs 0)
    else x ∷ encoded q xs 0

unfoldable pub written : Units → Units
written arg = if needs_quotes arg then quote_mark ∷ encoded true arg 0 else encoded false arg 0

write_unit-encoded :
    (q : Bool) (x : ℕ) (arg : Units) (w : Writer)
    → (write_unit w x).cmd ++ encoded q arg (write_unit w x).backslashes
      ≡ w.cmd ++ encoded q (x ∷ arg) w.backslashes
unfolding write_unit encoded
write_unit-encoded q x arg w =
    let run = replicate (w.backslashes + 1) backslash in
    ground (
      arith,
      append_assoc w.cmd (x ∷ []) (encoded q arg (w.backslashes + 1)),
      append_assoc w.cmd (x ∷ []) (encoded q arg 0),
      append_assoc w.cmd run (x ∷ encoded q arg 0),
      append_assoc (w.cmd ++ run) (x ∷ []) (encoded q arg 0),
    )

write_units-encoded :
    (q : Bool) (arg : Units) (w : Writer)
    → (write_units w arg).cmd ++ closing q (write_units w arg).backslashes
      ≡ w.cmd ++ encoded q arg w.backslashes
unfolding write_units encoded
write_units-encoded q [] w = refl
write_units-encoded q (x ∷ arg) w =
    write_units-encoded q arg (write_unit w x) ∙ write_unit-encoded q x arg w

pub append_arg-written : (cmd arg : Units) → append_arg cmd arg ≡ cmd ++ written arg
unfolding append_arg written
append_arg-written cmd arg = elim (Bool-cases (needs_quotes arg)) [
  | inl e ↦
      let body =
        write_units-encoded true arg (record { cmd = cmd ++ quote_mark ∷ []; backslashes = 0 }) in
      simp e (append_assoc _ _ (quote_mark ∷ []) ∙ body ∙ append_assoc cmd (quote_mark ∷ []) _)
  | inr e ↦
      let body = write_units-encoded false arg (record { cmd = cmd; backslashes = 0 }) in
      simp e (sym (append-nil _) ∙ body)
]

-- The arguments behind the first, each behind its space.
unfoldable pub spaced : List Units → Units
spaced [] = []
spaced (a ∷ args) = space ∷ written a ++ spaced args

join_from-spaced :
    (idx : ℕ) (args : List Units) (cmd : Units)
    → 0 < idx
    → join_from idx args cmd ≡ cmd ++ spaced args
unfolding join_from spaced
join_from-spaced idx [] cmd h = sym (append-nil cmd)
join_from-spaced idx (a ∷ args) cmd h =
    let later : ltb 0 idx ≡ true = ground arith in
    rw later
      (join_from-spaced (idx + 1) args _ (omega arith) ∙ simp (append_arg-written, append_assoc))

pub join_wide-written :
    (a : Units) (args : List Units) → join_wide (a ∷ args) ≡ written a ++ spaced args
unfolding join_wide join_from
join_wide-written a args = join_from-spaced (0 + 1) args _ (omega arith) ∙ rw append_arg-written

-- The text begins with a unit that is not blank.
abbrev pub StartsToken : Units → Type 0
StartsToken s = (c : ℕ) × (r : Units) × (s ≡ c ∷ r) × (is_blank c ≡ false)

encoded-StartsToken :
    (x : ℕ) (a s : Units) → is_blank x ≡ false → StartsToken (encoded false (x ∷ a) 0 ++ s)
unfolding encoded is_blank
encoded-StartsToken x a s h = elim (Bool-cases (x == backslash)) [
  | inl e ↦ (x, encoded false a (0 + 1) ++ s, rw e, h)
  | inr e ↦ elim (Bool-cases (x == quote_mark)) [
    | inl e' ↦ (backslash, (x ∷ encoded false a 0) ++ s, simp (e, e'), refl)
    | inr e' ↦ (x, encoded false a 0 ++ s, simp (e, e'), h)
  ]
]

-- A written argument is never empty and begins with no blank, so the parser stops before it.
pub written-StartsToken : (a s : Units) → StartsToken (written a ++ s)
unfolding written needs_quotes is_blank
written-StartsToken [] s = (quote_mark, _, refl, refl)
written-StartsToken (x ∷ a) s = elim (Bool-cases (any_blank (x ∷ a))) [
  | inl e ↦ (quote_mark, encoded true (x ∷ a) 0 ++ s, rw e, refl)
  | inr e ↦ rw e (encoded-StartsToken x a s (unfold any_blank in ground arith))
]

pub skip_blanks-StartsToken : (s : Units) → StartsToken s → skip_blanks s ≡ s
unfolding skip_blanks
skip_blanks-StartsToken s (c, r, e, b) = rw (e, skip_blanks) (rw b)

-- What is not read as one more quote of a run.
abbrev pub EndsQuotes : Units → Type 0
EndsQuotes [] = Unit
EndsQuotes (c ∷ s) = c ≢ quote_mark

pub encoded-EndsQuotes : (q : Bool) (x : ℕ) (xs s : Units) → EndsQuotes (encoded q (x ∷ xs) 0 ++ s)
unfolding encoded
encoded-EndsQuotes q x xs s = ground arith

pub spaced-EndsQuotes : (args : List Units) → EndsQuotes (spaced args)
unfolding spaced
spaced-EndsQuotes [] = tt
spaced-EndsQuotes (a ∷ args) = omega arith
