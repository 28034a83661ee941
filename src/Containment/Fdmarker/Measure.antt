-- ===== src/Containment/Fdmarker/Measure.antt =====
-- How far the identities of a list have been met (src/containment/fdmarker.rs).
use subprocess.Prelude.{
  ℕ, ◌+◌, ◌≤◌, ◌<◌, Bool, true, false, not, List, [], ◌∷◌, ◌++◌, Option, some, ◌≡◌, refl, sym, ap,
  ◌∙◌, subst, arith, if◌then◌else◌, All, Bool-cases, inl, inr, map, length, length-append, count,
}
use subprocess.Identity.{ProcessId, Resolved, same_id, same_id-eq}
use subprocess.Containment.Treewalk.{resolve_or_drop}
use subprocess.Containment.Fdmarker.Sweep.{Fresh, is_in, meet, meet_all}

-- The identities of a list that have not been met.
abbrev pub left_of : List ProcessId → List ProcessId → ℕ
left_of ids seen = count (λ u. not (is_in u seen)) ids

left_of_le :
    (ids : List ProcessId) (id : ProcessId) (seen : List ProcessId)
    → left_of ids (id ∷ seen) ≤ left_of ids seen
unfolding is_in
left_of_le [] id seen = omega arith
left_of_le (u ∷ ids) id seen = ground (arith, left_of_le ids id seen)

same_id_refl : (id : ProcessId) → same_id id id ≡ true
same_id_refl id = ground arith

left_of_lt :
    (ids : List ProcessId) (id : ProcessId) (seen : List ProcessId)
    → is_in id ids ≡ true
    → is_in id seen ≡ false
    → left_of ids (id ∷ seen) < left_of ids seen
unfolding is_in
left_of_lt [] id seen h k = ground arith
left_of_lt (u ∷ ids) id seen h k = elim (Bool-cases (same_id u id)) [
  | inl e ↦
      let same : u ≡ id = same_id-eq u id e in
      let out : is_in u seen ≡ false = ap (λ x. is_in x seen) same ∙ k in
      let back : same_id id u ≡ true =
        subst (λ x. same_id id x ≡ true) (sym same) (same_id_refl id) in
      ground (arith, left_of_le ids id seen)
  | inr e ↦
      let inside : is_in id ids ≡ true = ground arith in
      ground (arith, left_of_lt ids id seen inside k)
]

module _ (ids : List ProcessId) where
  abbrev pub Known : ProcessId → Type 0
  Known id = is_in id ids ≡ true

  -- Each identity that is new takes one off those that are left.
  pub meet_spends :
      (bound : ℕ) (id : ProcessId) (f : Fresh)
      → Known id
      → left_of ids f.seen + length f.fresh ≤ bound
      → left_of ids (meet id f).seen + length (meet id f).fresh ≤ bound
  unfolding meet
  meet_spends bound id f known h = go (is_in id f.seen) refl
    where
      go :
          (b : Bool)
          → is_in id f.seen ≡ b
          → left_of ids
                (if b then f else record { seen = id ∷ f.seen; fresh = f.fresh ++ id ∷ [] }).seen
              + length
                  (if b then f else record { seen = id ∷ f.seen; fresh = f.fresh ++ id ∷ [] }).fresh
            ≤ bound
      go true e = h
      go false e =
          let less = left_of_lt ids id f.seen known e in
          let more = length-append f.fresh (id ∷ []) in omega arith

  pub meet_all_spends :
      (bound : ℕ) (new : List ProcessId) (f : Fresh)
      → All Known new
      → left_of ids f.seen + length f.fresh ≤ bound
      → left_of ids (meet_all new f).seen + length (meet_all new f).fresh ≤ bound
  unfolding meet_all
  meet_all_spends bound [] f known h = h
  meet_all_spends bound (id ∷ new) f known h =
      meet_all_spends bound new (meet id f) known.1 (meet_spends bound id f known.0 h)

  -- What a list of answers holds, each answer does.
  pub resolved-All :
      (resolve : ℕ → Option ProcessId)
      → ((pid : ℕ) (id : ProcessId) → resolve pid ≡ some id → Known id)
      → (found : List ProcessId) (pids : List ℕ) → map some found ≡ map resolve pids
      → All Known found
  resolved-All resolve all [] pids e = tt
  resolved-All resolve all (id ∷ found) [] e = ground arith
  resolved-All resolve all (id ∷ found) (pid ∷ pids) e =
      let head : some id ≡ resolve pid =
        ap
          (λ (l : List (Option ProcessId)). elim l as (λ x. Option ProcessId) [
            | x ∷ xs ↦ x
            | [] ↦ some id
          ])
          e in
      let tail : map some found ≡ map resolve pids =
        ap
          (λ (l : List (Option ProcessId)). elim l as (λ x. List (Option ProcessId)) [
            | x ∷ xs ↦ xs
            | [] ↦ []
          ])
          e in
      (all pid id (sym head), resolved-All resolve all found pids tail)

  pub resolve_or_drop-found :
      (answer : Resolved ProcessId) (id : ProcessId)
      → resolve_or_drop answer ≡ some id
      → answer ≡ Resolved.found id
  unfolding resolve_or_drop
  resolve_or_drop-found (Resolved.found x) id h = ground arith
  resolve_or_drop-found Resolved.gone id h = ground arith
  resolve_or_drop-found Resolved.unknown id h = ground arith
