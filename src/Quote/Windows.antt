-- ===== src/Quote/Windows.antt =====
-- `CommandLineToArgvW`-compatible command lines (src/quote/windows.rs), on UTF-16 code units.
--
-- An index into a slice is the list of the units not read yet. `Vec::truncate` is `take`.
pub mod Rounds
pub mod Written
pub mod Pieces
pub mod Bodies
pub mod RoundTrip
mod Tests
use subprocess.Prelude.{
  ℕ, ◌+◌, ◌-◌, ◌/◌, ◌%◌, Bool, true, false, not, ◌&&◌, ◌||◌, List, [], ◌∷◌, ◌++◌, Option, none,
  some, ltb, ◌==◌, if◌then◌else◌, length, take, drop, replicate, Round, next, halt, loop,
}

abbrev pub Units : Type 0
Units = List ℕ

abbrev pub space : ℕ
space = b' '

abbrev pub tab : ℕ
tab = b'\t'

abbrev pub quote_mark : ℕ
quote_mark = b'"'

abbrev pub backslash : ℕ
backslash = b'\\'

unfoldable pub is_blank : ℕ → Bool
is_blank c = c == space || c == tab

unfoldable pub any_blank : Units → Bool
any_blank [] = false
any_blank (c ∷ s) = is_blank c || any_blank s

unfoldable pub needs_quotes : Units → Bool
needs_quotes [] = true
needs_quotes (c ∷ s) = any_blank (c ∷ s)

-- The variables of the loop of `append_arg`: the command line so far, and the run of backslashes.
pub record Writer : Type 0 where
  pub cmd : Units
  pub backslashes : ℕ

unfoldable pub write_unit : Writer → ℕ → Writer
write_unit w x =
    if x == backslash
    then record { cmd = w.cmd ++ x ∷ []; backslashes = w.backslashes + 1 }
    else if x == quote_mark
    then record {
      cmd = (w.cmd ++ replicate (w.backslashes + 1) backslash) ++ x ∷ [];
      backslashes = 0;
    }
    else record { cmd = w.cmd ++ x ∷ []; backslashes = 0 }

unfoldable pub write_units : Writer → Units → Writer
write_units w [] = w
write_units w (x ∷ arg) = write_units (write_unit w x) arg

unfoldable pub append_arg : Units → Units → Units
append_arg cmd arg =
    let quoted = needs_quotes arg in
    let opened = if quoted then cmd ++ quote_mark ∷ [] else cmd in
    let w = write_units (record { cmd = opened; backslashes = 0 }) arg in
    if quoted then (w.cmd ++ replicate w.backslashes backslash) ++ quote_mark ∷ [] else w.cmd

-- The loop of `join_wide`, on `args.iter().enumerate()` from `idx` on.
unfoldable pub join_from : ℕ → List Units → Units → Units
join_from idx [] cmd = cmd
join_from idx (a ∷ args) cmd =
    join_from (idx + 1) args (append_arg (if ltb 0 idx then cmd ++ space ∷ [] else cmd) a)

unfoldable pub join_wide : List Units → Units
join_wide args = join_from 0 args []

-- `while i < n && is_blank(rest[i])`
unfoldable pub skip_blanks : Units → Units
skip_blanks [] = []
skip_blanks (c ∷ s) = if is_blank c then skip_blanks s else c ∷ s

-- The two loops that collect the first token, with what they leave unread.
unfoldable pub read_quoted : Units → Units → Units × Units
read_quoted [] first = (first, [])
read_quoted (c ∷ s) first =
    let more = read_quoted s (first ++ c ∷ []) in if c == quote_mark then (first, c ∷ s) else more

unfoldable pub read_bare : Units → Units → Units × Units
read_bare [] first = (first, [])
read_bare (c ∷ s) first =
    let more = read_bare s (first ++ c ∷ []) in if is_blank c then (first, c ∷ s) else more

-- Behind the leading blanks.
unfoldable pub first_token_at : Units → Option (Units × Units)
first_token_at [] = none
first_token_at (c ∷ s) =
    if c == quote_mark
    then (let (first, unread) = read_quoted s [] in some (first, skip_blanks (drop 1 unread)))
    else (let (first, unread) = read_bare (c ∷ s) [] in some (first, skip_blanks unread))

unfoldable pub first_token_and_rest_wide : Units → Option (Units × Units)
unfolding first_token_at
first_token_and_rest_wide cmd = first_token_at (skip_blanks cmd)

unfoldable pub first_token_wide : Units → Option Units
first_token_wide cmd = elim (first_token_and_rest_wide cmd) [
  | none ↦ none
  | some (first, _) ↦ some first
]

-- The variables of the loop of `split_rest_wide`; `rest` is `rest[i..]`.
pub record Splitter : Type 0 where
  pub rest : Units
  pub out : List Units
  pub buf : Units
  pub qcount : ℕ
  pub bcount : ℕ

abbrev pub truncate : ℕ → Units → Units
truncate = take

unfoldable pub count_quote : Splitter → Splitter
count_quote sp =
    if sp.qcount + 1 == 3
    then record sp { buf = sp.buf ++ quote_mark ∷ []; qcount = 0 }
    else record sp { qcount = sp.qcount + 1 }

-- `while i < n && rest[i] == QUOTE`
unfoldable pub read_quotes : Splitter → Units → Splitter
read_quotes sp [] = record sp { rest = [] }
read_quotes sp (c ∷ s) =
    let more = read_quotes (count_quote sp) s in
    if c == quote_mark then more else record sp { rest = c ∷ s }

-- The branch of a quote: what the backslashes before it stand for.
unfoldable pub collapse : Splitter → Splitter
collapse sp =
    if sp.bcount % 2 == 0
    then record sp { buf = truncate (length sp.buf - sp.bcount / 2) sp.buf; qcount = sp.qcount + 1 }
    else record sp {
      buf = truncate (length sp.buf - (sp.bcount / 2 + 1)) sp.buf ++ quote_mark ∷ [];
    }

unfoldable pub at_quote : Splitter → Units → Splitter
at_quote sp behind =
    let read = read_quotes (record (collapse sp) { bcount = 0 }) behind in
    if read.qcount == 2 then record read { qcount = 0 } else read

-- The branch of a separator.
unfoldable pub after_blank : Splitter → Units → Round Splitter (List Units)
after_blank sp [] = halt sp.out
after_blank sp (c ∷ s) = next (record sp { rest = c ∷ s })

unfoldable pub at_blank : Splitter → Round Splitter (List Units)
unfolding after_blank
at_blank sp =
    after_blank (record sp { out = sp.out ++ sp.buf ∷ []; buf = []; bcount = 0 })
      (skip_blanks sp.rest)

unfoldable pub round_at : Splitter → Units → Round Splitter (List Units)
round_at sp [] = halt (sp.out ++ sp.buf ∷ [])
round_at sp (c ∷ behind) =
    if is_blank c && sp.qcount == 0
    then at_blank sp
    else if c == backslash
    then next (record sp { rest = behind; buf = sp.buf ++ c ∷ []; bcount = sp.bcount + 1 })
    else if c == quote_mark
    then next (at_quote sp behind)
    else next (record sp { rest = behind; buf = sp.buf ++ c ∷ []; bcount = 0 })

-- One round of `while i < n`, with what follows the loop.
unfoldable pub round : Splitter → Round Splitter (List Units)
unfolding round_at
round sp = round_at sp sp.rest

abbrev pub unread : Splitter → ℕ
unread sp = length sp.rest

unfoldable pub split_rest_from : Units → Option (List Units)
split_rest_from [] = some []
split_rest_from (c ∷ s) =
    loop round unread (record { rest = c ∷ s; out = []; buf = []; qcount = 0; bcount = 0 })

-- `none` would mean that the loop does not end.
unfoldable pub split_rest_wide : Units → Option (List Units)
unfolding split_rest_from
split_rest_wide rest = split_rest_from (skip_blanks rest)

-- The result is always `Ok`.
unfoldable pub split_wide : Units → Option (List Units)
split_wide cmd = elim (first_token_and_rest_wide cmd) [
  | none ↦ some []
  | some (first, rest) ↦ elim (split_rest_wide rest) [
    | none ↦ none
    | some args ↦ some (first ∷ args)
  ]
]
