-- ===== src/Containment/Cgroup/Events.antt =====
-- What the drain of a control group rests on, and how the events file is read.
use mathlib.Core.Option
use subprocess.Prelude.{
  List, [], ◌∷◌, ◌++◌, ◌≢◌, ◌∙◌, ap, All, codes, ◌==◌, Option-cases, ℕ, zero, suc, Bool, true,
  false, Option, some, none, next, halt, Round-cases, on_next, on_halt, Result, ok, err, ◌≡◌, refl,
  subst, arith, Bool-cases, inl, inr, ◌⊎◌,
}
use subprocess.Errors.{Text, Error, text_eq, text_eq-eq}
use subprocess.Containment.Dispatch.{TreeDrain}
use subprocess.Containment.Cgroup.{
  lines, trim, strip_prefix, first_with, populated_value, parse_populated, Polled, timed_out, ready,
  interrupted, poll_failed, EventsSystem, read_failed, populated_in, populated_read, rewound,
  read_populated, DrainRound, polled, drain_within, drain_populated, drain_round, drain,
  drain_opened, wait_drained,
}

-- The contents say that a group is not populated: the first line with the key has the value 0, but for
-- whitespace around it.
pub data Unpopulated (contents : Text) : Type 0 where
  line :
      (before : List Text) (value : Text) (after : List Text)
      → lines contents ≡ before ++ (codes "populated " ++ value) ∷ after
      → All (λ l. (v : Text) → l ≢ codes "populated " ++ v) before
      → trim value ≡ codes "0"
      → Unpopulated contents

strip_prefix-append : (p s v : Text) → strip_prefix p s ≡ some v → s ≡ p ++ v
unfolding strip_prefix
strip_prefix-append [] s v h = cc
strip_prefix-append (c ∷ p) [] v h = absurd (cc h)
strip_prefix-append (c ∷ p) (d ∷ s) v h = elim (Bool-cases (c == d)) [
  | inl b ↦
      let same : c ≡ d = ground (arith, b) in
      let rest : strip_prefix p s ≡ some v = rw b at h in
      rw (same, strip_prefix-append p s v rest) refl
  | inr b ↦ let gone : none ≡ some v = rw b at h in absurd (cc gone)
]

strip_prefix-none : (p v : Text) → strip_prefix p (p ++ v) ≡ some v
unfolding strip_prefix
strip_prefix-none [] v = refl
strip_prefix-none (c ∷ p) v =
    let same : (c == c) ≡ true = ground arith in rw same (strip_prefix-none p v)

-- Where a line with a prefix is found.
abbrev FirstWith : Text → List Text → Text → Type 0
FirstWith p ls v =
    (before : List Text) × (after : List Text) × (ls ≡ before ++ (p ++ v) ∷ after)
    × All (λ l. (u : Text) → l ≢ p ++ u) before

first_with-FirstWith :
    (p : Text) (ls : List Text) (v : Text) → first_with p ls ≡ some v → FirstWith p ls v
unfolding first_with
first_with-FirstWith p [] v h = absurd (cc h)
first_with-FirstWith p (l ∷ ls) v h = elim (Option-cases (strip_prefix p l)) [
  | inl e ↦
      let later : first_with p ls ≡ some v = rw (e, first_with) at h in
      let (before, after, q, others) = first_with-FirstWith p ls v later in
      (
        l ∷ before,
        after,
        ap (λ r. l ∷ r) q,
        (
          λ u same. let found = ap (strip_prefix p) same ∙ strip_prefix-none p u in absurd (cc),
          others,
        ),
      )
  | inr (u, e) ↦
      let here : some u ≡ some v = rw (e, first_with) at h in
      let same : u ≡ v = cc here in
      ([], ls, ap (λ x. x ∷ ls) (strip_prefix-append p l u e ∙ ap (λ x. p ++ x) same), tt)
]

populated_value-zero : (v : Text) → populated_value v ≡ some false → v ≡ codes "0"
unfolding populated_value
populated_value-zero v h = elim (Bool-cases (text_eq v (codes "0"))) [
  | inl b ↦ text_eq-eq v (codes "0") b
  | inr b ↦ absurd (ground (arith, h, b))
]

parse_populated-Unpopulated :
    (contents : Text) → parse_populated contents ≡ some false → Unpopulated contents
unfolding parse_populated Option.bind
parse_populated-Unpopulated contents h =
    elim (Option-cases (first_with (codes "populated ") (lines contents))) [
      | inl e ↦ let no : none ≡ some false = rw e at h in absurd (cc no)
      | inr (value, e) ↦
          let said : populated_value (trim value) ≡ some false = rw e at h in
          let (before, after, q, others) = first_with-FirstWith _ _ value e in
          Unpopulated.line before value after q others (populated_value-zero _ said)
    ]

module _ (S : Type 0) (I : Type 0) (sys : EventsSystem S I) where
  -- How it comes to be known that a group has no members: its file says so, or it is no longer there.
  pub data Empty : Type 0 where
    said :
        (u : S) (contents : Text) → (sys.read_all u).0 ≡ ok contents → Unpopulated contents → Empty
    unopened : (u : S) (e : I) → (sys.open_events u).0 ≡ some e → sys.removed e ≡ true → Empty
    unwound : (u : S) (e : I) → (sys.rewind u).0 ≡ some e → sys.removed e ≡ true → Empty
    unread : (u : S) (e : I) → (sys.read_all u).0 ≡ err e → sys.removed e ≡ true → Empty

  -- What an answer rests on.
  abbrev pub Rests : Result TreeDrain (Error I) → Type 0
  Rests (ok TreeDrain.all_members_exited) = Empty
  Rests (ok TreeDrain.members_remain) =
      ((u : S) × ((sys.remaining u).0 ≡ some 0))
      ⊎ ((u : S) × (left : Option ℕ) × ((sys.poll u left).0 ≡ timed_out))
  Rests (ok TreeDrain.all_markers_closed) = ⊥
  Rests (err e) = Unit

  read_failed-removed : (e : I) → read_failed sys e ≡ ok false → sys.removed e ≡ true
  unfolding read_failed
  read_failed-removed e h = ground arith

  populated_in-false : (o : Option Bool) → populated_in sys o ≡ ok false → o ≡ some false
  unfolding populated_in
  populated_in-false (some b) h = ground arith
  populated_in-false none h = absurd (cc h)

  read-Empty :
      (u : S) (a : Result Text I) → (sys.read_all u).0 ≡ a → populated_read sys a ≡ ok false → Empty
  unfolding populated_read
  read-Empty u (ok contents) q h =
      Empty.said u contents q (parse_populated-Unpopulated contents (populated_in-false _ h))
  read-Empty u (err e) q h = Empty.unread u e q (read_failed-removed e h)

  rewound-Empty :
      (u : S) (a : Option I) (t : S) → (sys.rewind u).0 ≡ a → (rewound sys a t).0 ≡ ok false → Empty
  unfolding rewound
  rewound-Empty u none t q h = read-Empty t _ refl h
  rewound-Empty u (some e) t q h = Empty.unwound u e q (read_failed-removed e h)

  abbrev Says : DrainRound sys → Type 0
  Says (next t) = Unit
  Says (halt r) = Rests r.0

  polled-Says :
      (u : S) (left : Option ℕ) (a : Polled I) (t : S)
      → (sys.poll u left).0 ≡ a
      → Says (polled sys a t)
  unfolding polled
  polled-Says u left timed_out t q = inr (u, left, q)
  polled-Says u left ready t q = tt
  polled-Says u left interrupted t q = tt
  polled-Says u left (poll_failed e) t q = tt

  drain_within-Says :
      (u : S) (left : Option ℕ) (t : S)
      → (sys.remaining u).0 ≡ left
      → Says (drain_within sys left t)
  unfolding drain_within
  drain_within-Says u none t q = polled-Says t none _ _ refl
  drain_within-Says u (some zero) t q = inl (u, q)
  drain_within-Says u (some (suc d)) t q = polled-Says t (some (suc d)) _ _ refl

  drain_populated-Says :
      (u : S) (a : Result Bool (Error I)) (t : S)
      → (a ≡ ok false → Empty)
      → Says (drain_populated sys a t)
  unfolding drain_populated
  drain_populated-Says u (ok false) t empty = empty refl
  drain_populated-Says u (ok true) t empty = drain_within-Says t _ _ refl
  drain_populated-Says u (err e) t empty = tt

  drain_round-Says : (s : S) → Says (drain_round sys s)
  unfolding drain_round read_populated
  drain_round-Says s = drain_populated-Says s _ _ (λ h. rewound-Empty s _ _ refl h)

  drain-Rests :
      (rounds : ℕ) (s : S) (r : Result TreeDrain (Error I) × S)
      → drain sys rounds s ≡ some r
      → Rests r.0
  unfolding drain
  drain-Rests zero s r h = absurd (cc h)
  drain-Rests (suc rounds) s r h = elim (Round-cases (drain_round sys) s) [
    | on_next t e ↦ drain-Rests rounds t r (rw (e, drain) at h)
    | on_halt q e ↦
        let same : some q ≡ some r = rw (e, drain) at h in
        let equal : q ≡ r = cc same in
        subst (λ x. Rests x.0) equal (subst Says e (drain_round-Says s))
  ]

  opened-Rests :
      (rounds : ℕ) (s : S) (a : Option I) (t : S) (r : Result TreeDrain (Error I) × S)
      → (sys.open_events s).0 ≡ a
      → drain_opened sys rounds a t ≡ some r
      → Rests r.0
  unfolding drain_opened
  opened-Rests rounds s none t r q h = drain-Rests rounds t r h
  opened-Rests rounds s (some e) t r q h = elim (Bool-cases (sys.removed e)) [
    | inl b ↦
        let same : some (ok TreeDrain.all_members_exited, t) ≡ some r = rw b at h in
        let equal : (ok TreeDrain.all_members_exited, t) ≡ r = cc same in
        subst (λ x. Rests x.0) equal (Empty.unopened s e q b)
    | inr b ↦
        let same : some (err (Error.io e), t) ≡ some r = rw b at h in
        let equal : (err (Error.io e), t) ≡ r = cc same in subst (λ x. Rests x.0) equal tt
  ]

  -- A drain of a control group says that all members have exited only if the events file was read and its
  -- first line with the key "populated" has the value 0, or the file could not be opened, rewound or read since the group
  -- is no longer there. It says that members remain only if no time was left or the poll timed out.
  pub wait_drained-Rests :
      (rounds : ℕ) (s : S) (r : Result TreeDrain (Error I) × S)
      → wait_drained sys rounds s ≡ some r
      → Rests r.0
  unfolding wait_drained
  wait_drained-Rests rounds s r h = opened-Rests rounds s _ _ r refl h
