-- ===== src/Prelude/Loop.antt =====
-- `while` loops. A round of a loop is a function from the loop's variables to the next ones or to
-- the result. A loop runs on fuel, one more than a measure that every round lowers; such a loop
-- always ends, and it obeys the equations of a recursion without fuel.
use Prim.Native.Nat.{ℕ, zero, suc, ◌<◌}
use mathlib.Core.Path.{◌≡◌, refl, subst}
use mathlib.Core.Option.{Option, none, some}
use native.Mathlib.Omega.{arith}

pub data Round {ℓ κ} (S : Type ℓ) (R : Type κ) : Type (ℓ ⊔ κ) where
  next : S → Round S R
  halt : R → Round S R

module _ {ℓ κ} {S : Type ℓ} {R : Type κ} (round : S → Round S R) where
  run : ℕ → S → Option R
  run zero s = none
  run (suc fuel) s = elim (round s) [ next t ↦ run fuel t | halt r ↦ some r ]

  unfoldable pub loop : (S → ℕ) → S → Option R
  unfolding run
  loop measure s = run (suc (measure s)) s

  pub data RoundCase (s : S) : Type (ℓ ⊔ κ) where
    on_next : (t : S) → round s ≡ next t → RoundCase s
    on_halt : (r : R) → round s ≡ halt r → RoundCase s

  pub Round-cases : (s : S) → RoundCase s
  Round-cases s = go (round s) refl
    where
      go : (x : Round S R) → round s ≡ x → RoundCase s
      go (next t) e = on_next t e
      go (halt r) e = on_halt r e

  module _ (measure : S → ℕ) (lowers : (s t : S) → round s ≡ next t → measure t < measure s) where
    run_fuel : (f g : ℕ) (s : S) → measure s < f → measure s < g → run f s ≡ run g s
    unfolding run
    run_fuel zero g s hf hg = absurd (omega arith)
    run_fuel (suc f) zero s hf hg = absurd (omega arith)
    run_fuel (suc f) (suc g) s hf hg = elim (Round-cases s) [
      | on_next t e ↦
          let l = lowers s t e in rw (e, run) (run_fuel f g t (omega arith) (omega arith))
      | on_halt r e ↦ rw (e, run)
    ]

    pub loop-next : (s t : S) → round s ≡ next t → loop measure s ≡ loop measure t
    unfolding loop
    loop-next s t e =
        let l = lowers s t e in
        rw (e, run) (run_fuel (measure s) (suc (measure t)) t (omega arith) (omega arith))

    pub loop_total : (s : S) → (r : R) × (loop measure s ≡ some r)
    unfolding loop
    loop_total s = go (suc (measure s)) s (omega arith)
      where
        go : (f : ℕ) (s : S) → measure s < f → (r : R) × (run f s ≡ some r)
        go zero s h = absurd (omega arith)
        go (suc f) s h = elim (Round-cases s) [
          | on_next t e ↦
              let l = lowers s t e in let (r, p) = go f t (omega arith) in (r, rw (e, run) p)
          | on_halt r e ↦ (r, rw (e, run))
        ]

  -- A loop whose rounds lower the measure only while an invariant holds ends from there too.
  pub loop_ends {ι} :
      (measure : S → ℕ) (P : S → Type ι)
      → ((s t : S) → P s → round s ≡ next t → P t)
      → ((s t : S) → P s → round s ≡ next t → measure t < measure s)
      → (s : S) → P s
      → (r : R) × (loop measure s ≡ some r)
  unfolding loop
  loop_ends measure P keep lowers s h = go (suc (measure s)) s h (omega arith)
    where
      go : (f : ℕ) (s : S) → P s → measure s < f → (r : R) × (run f s ≡ some r)
      go zero s h below = absurd (omega arith)
      go (suc f) s h below = elim (Round-cases s) [
        | on_next t e ↦
            let l = lowers s t h e in
            let (r, p) = go f t (keep s t h e) (omega arith) in (r, rw (e, run) p)
        | on_halt r e ↦ (r, rw (e, run))
      ]

  pub loop-halt : (measure : S → ℕ) (s : S) {r : R} → round s ≡ halt r → loop measure s ≡ some r
  unfolding loop
  loop-halt measure s e = rw (e, run)

  module _ {ι ρ} (P : S → Type ι) (Q : R → Type ρ) (keep : (s t : S) → P s → round s ≡ next t → P t)
      (end : (s : S) (r : R) → P s → round s ≡ halt r → Q r) where
    run_inv : (fuel : ℕ) (s : S) {r : R} → P s → run fuel s ≡ some r → Q r
    unfolding run
    run_inv zero s h e = cc
    run_inv (suc fuel) s {r} h e = elim (Round-cases s) [
      | on_next t p ↦ run_inv fuel t (keep s t h p) (rw (p, run) at e)
      | on_halt q p ↦
          let same : some q ≡ some r = rw (p, run) at e in
          let returned : q ≡ r = cc same in subst Q returned (end s q h p)
    ]

    -- What every round keeps holds where the loop ends.
    pub loop_inv : (measure : S → ℕ) (s : S) {r : R} → P s → loop measure s ≡ some r → Q r
    unfolding loop
    loop_inv measure s h e = run_inv (suc (measure s)) s h e
