-- ===== src/Identity/StatParse/Fields.antt =====
-- What the fields of a stat line are, whatever the command's name (src/identity/stat_parse.rs).
use subprocess.Prelude.{
  ℕ, Bool, true, false, List, [], ◌∷◌, ◌++◌, Option, some, none, ◌==◌, if◌then◌else◌, ◌≡◌, ◌≢◌,
  refl, ap, ◌∙◌, arith, All, has, append_assoc, append-nil, get_elem?, inl, inr, ◌⊎◌,
}
use mathlib.Core.Option
use subprocess.Errors.{Text}
use subprocess.Identity.{Liveness}
use subprocess.Identity.StatParse.{
  after_last, is_space, flush, split_from, decoded, tail, field, parse_starttime_jiffies,
  parse_state, is_exited, running_state, running_token, running_from_stat,
}

-- A byte of a word: no white space, and no closing bracket.
abbrev pub IsPlain : ℕ → Type 0
IsPlain b = (is_space b ≡ false) × ((b == 41) ≡ false)

abbrev pub IsWord : Text → Type 0
IsWord word = (word ≢ []) × All IsPlain word

-- How the kernel writes the fields behind the name: each after a blank, and a newline.
unfoldable pub fields_text : List Text → Text
fields_text [] = 10 ∷ []
fields_text (w ∷ ws) = 32 ∷ (w ++ fields_text ws)

has_plain :
    (word : Text) (rest : Text)
    → All IsPlain word
    → has rest 41 ≡ false
    → has (word ++ rest) 41 ≡ false
has_plain [] rest p h = h
has_plain (b ∷ word) rest p h = ground (arith, has_plain word rest p.1 h)

has-fields_text : (ws : List Text) → All IsWord ws → has (fields_text ws) 41 ≡ false
unfolding fields_text
has-fields_text [] p = refl
has-fields_text (w ∷ ws) p = has_plain w (fields_text ws) p.0.1 (has-fields_text ws p.1)

after_last-none : (rest : Text) → has rest 41 ≡ false → after_last rest ≡ none
unfolding after_last
after_last-none [] h = refl
after_last-none (b ∷ rest) h =
    let one : (b == 41) ≡ false = ground arith in
    let more : has rest 41 ≡ false = ground arith in rw (after_last-none rest more, one) refl

-- The tail begins at the last closing bracket: those in the command's name do not matter.
after_last_bracket :
    (name : Text) (rest : Text) → has rest 41 ≡ false → after_last (name ++ 41 ∷ rest) ≡ some rest
unfolding after_last
after_last_bracket [] rest h = rw (after_last-none rest h) refl
after_last_bracket (b ∷ name) rest h = rw (after_last_bracket name rest h) refl

split_from_word :
    (word : Text) (seen : Text) (rest : Text)
    → All IsPlain word
    → split_from seen (word ++ rest) ≡ split_from (seen ++ word) rest
unfolding split_from
split_from_word [] seen rest p = rw (append-nil seen) refl
split_from_word (b ∷ word) seen rest p = rw p.0.0 (
    split_from_word word (seen ++ b ∷ []) rest p.1
    ∙ ap (λ w. split_from w rest) (append_assoc seen (b ∷ []) word))

flush_word : (word : Text) (ws : List Text) → word ≢ [] → flush word ws ≡ word ∷ ws
unfolding flush
flush_word [] ws h = elim (h refl) [ ]
flush_word (b ∷ word) ws h = refl

split_from-fields_text :
    (ws : List Text) (seen : Text)
    → All IsWord ws
    → split_from seen (fields_text ws) ≡ flush seen ws
unfolding split_from fields_text is_space flush
split_from-fields_text [] seen p = refl
split_from-fields_text (w ∷ ws) seen p = ap (flush seen) (
    split_from_word w [] (fields_text ws) p.0.1
    ∙ (split_from-fields_text ws w p.1 ∙ flush_word w ws p.0.0))

flush_nil : (ws : List Text) → flush [] ws ≡ ws
unfolding flush
flush_nil ws = refl

module _ (is_utf8 : Text → Bool) where
  -- The fields of a stat line are the words behind the last bracket, in order, whatever bytes the
  -- command's name has, brackets, blanks and newlines among them.
  pub field-fields_text :
      (n : ℕ) (name : Text) (ws : List Text)
      → All IsWord ws
      → is_utf8 (fields_text ws) ≡ true
      → field is_utf8 n (name ++ 41 ∷ fields_text ws) ≡ get_elem? ws n
  unfolding field tail decoded Option.bind
  field-fields_text n name ws p u =
      let read : tail is_utf8 (name ++ 41 ∷ fields_text ws) ≡ some (fields_text ws) =
        ap (decoded is_utf8) (after_last_bracket name (fields_text ws) (has-fields_text ws p))
        ∙ rw u refl in
      ap (λ o. Option.bind o (λ t. get_elem? (split_from [] t) n)) read
      ∙ ap (λ l. get_elem? l n) (split_from-fields_text ws [] p ∙ flush_nil ws)

  -- What the liveness of a stat line says of its two fields.
  abbrev pub IsVerdict : Text → ℕ → Liveness → Type 0
  IsVerdict stat start Liveness.alive =
      (parse_starttime_jiffies is_utf8 stat ≡ some start)
      × ((c : ℕ) × (parse_state is_utf8 stat ≡ some c) × (is_exited c ≡ false))
  IsVerdict stat start Liveness.dead =
      ((token : ℕ) × (parse_starttime_jiffies is_utf8 stat ≡ some token) × (token ≢ start))
      ⊎ ((parse_starttime_jiffies is_utf8 stat ≡ some start)
          × ((c : ℕ) × (parse_state is_utf8 stat ≡ some c) × (is_exited c ≡ true)))
  IsVerdict stat start Liveness.unknown =
      (parse_starttime_jiffies is_utf8 stat ≡ none)
      ⊎ ((parse_starttime_jiffies is_utf8 stat ≡ some start) × (parse_state is_utf8 stat ≡ none))

  state-IsVerdict :
      (stat : Text) (start : ℕ) (state : Option ℕ)
      → parse_starttime_jiffies is_utf8 stat ≡ some start
      → parse_state is_utf8 stat ≡ state
      → IsVerdict stat start (running_state state)
  unfolding running_state
  state-IsVerdict stat start none t e = inr (t, e)
  state-IsVerdict stat start (some c) t e = go (is_exited c) refl
    where
      go :
          (b : Bool)
          → is_exited c ≡ b
          → IsVerdict stat start (if b then Liveness.dead else Liveness.alive)
      go true x = inr (t, (c, e, x))
      go false x = (t, (c, e, x))

  token-IsVerdict :
      (stat : Text) (start : ℕ) (token : Option ℕ)
      → parse_starttime_jiffies is_utf8 stat ≡ token
      → IsVerdict stat start (running_token token start (parse_state is_utf8 stat))
  unfolding running_token
  token-IsVerdict stat start none t = inl t
  token-IsVerdict stat start (some j) t = go (j == start) refl
    where
      go :
          (b : Bool)
          → (j == start) ≡ b
          → IsVerdict stat start
              (if b then running_state (parse_state is_utf8 stat) else Liveness.dead)
      go true x =
          let same : j ≡ start = ground arith in
          state-IsVerdict stat start _ (t ∙ ap some same) refl
      go false x = inl (j, t, ground arith)

  -- A stat line says alive only of a process with the very start token and a state that is none of Z, X
  -- and x; dead only of another token, or of the same token with such a state; and unknown only where
  -- the token, or the state, cannot be read.
  pub running_from_stat-IsVerdict :
      (stat : Text) (start : ℕ) → IsVerdict stat start (running_from_stat is_utf8 stat start)
  unfolding running_from_stat
  running_from_stat-IsVerdict stat start = token-IsVerdict stat start _ refl
