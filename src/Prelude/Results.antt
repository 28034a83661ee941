-- ===== src/Prelude/Results.antt =====
use mathlib.Core.Path.{◌≡◌, refl}

-- `Result<T, E>` of the source.
pub data Result {ℓ κ} (A : Type ℓ) (E : Type κ) : Type (ℓ ⊔ κ) where
  ok : A → Result A E
  err : E → Result A E

infixl 5 ◌>>=◌
abbrev pub ◌>>=◌ {ℓ κ ι} :
    {A : Type ℓ} {B : Type κ} {E : Type ι} → Result A E → (A → Result B E) → Result B E
ok a >>= f = f a
err e >>= f = err e

-- The next step of a stateful computation, where this one has succeeded.
module _ {ℓ κ ι σ} {A : Type ℓ} {B : Type κ} {E : Type ι} {S : Type σ} where
  unfoldable pub and_then : Result A E → (A → S → Result B E × S) → S → Result B E × S
  and_then (ok a) f s = f a s
  and_then (err e) f s = (err e, s)

  pub and_then-ok :
      (r : Result A E) (f : A → S → Result B E × S) (s : S) {b : B}
      → (and_then r f s).0 ≡ ok b
      → (a : A) × (r ≡ ok a) × ((f a s).0 ≡ ok b)
  unfolding and_then
  and_then-ok (ok a) f s h = (a, refl, h)
  and_then-ok (err e) f s h = absurd (cc h)

pub >>=-ok {ℓ κ ι} :
    {A : Type ℓ} {B : Type κ} {E : Type ι} (r : Result A E) (f : A → Result B E) {b : B}
    → (r >>= f) ≡ ok b
    → (a : A) × (r ≡ ok a) × (f a ≡ ok b)
>>=-ok (ok a) f h = (a, refl, h)
>>=-ok (err e) f h = absurd (cc h)
