-- ===== src/Elevation/Sanitize/Sorting.antt =====
-- The sort of `apply` permutes and orders.
use subprocess.Prelude.{
  true, false, List, [], ◌∷◌, ◌≡◌, refl, arith, Bool-cases, inl, inr, All, subst,
}
use mathlib.Core.List.{Permᴰ}
use mathlib.Core.List.Permᴰ
use subprocess.Errors.{Text}
use subprocess.Elevation.Sanitize.{text_leb, insert, sort}

pub text_leb_total : (s t : Text) → text_leb s t ≡ false → text_leb t s ≡ true
text_leb_total [] t h = ground arith
text_leb_total (a ∷ s) [] h = refl
text_leb_total (a ∷ s) (b ∷ t) h = ground (arith, text_leb_total s t)

pub text_leb_trans :
    (s t u : Text) → text_leb s t ≡ true → text_leb t u ≡ true → text_leb s u ≡ true
text_leb_trans [] t u h k = refl
text_leb_trans (a ∷ s) [] u h k = ground arith
text_leb_trans (a ∷ s) (b ∷ t) [] h k = ground arith
text_leb_trans (a ∷ s) (b ∷ t) (c ∷ u) h k = ground (arith, text_leb_trans s t u)

module _ {ℓ} {A : Type ℓ} (key : A → Text) where
  -- The key `s` is at most every key of the list.
  abbrev pub Below : Text → List A → Type 0
  Below s xs = All (λ x. text_leb s (key x) ≡ true) xs

  abbrev pub Sorted : List A → Type 0
  Sorted [] = Unit
  Sorted (x ∷ xs) = Below (key x) xs × Sorted xs

  Below-trans : (s t : Text) (xs : List A) → text_leb s t ≡ true → Below t xs → Below s xs
  Below-trans s t [] h b = b
  Below-trans s t (x ∷ xs) h (bx, b) = (text_leb_trans s t (key x) h bx, Below-trans s t xs h b)

  Below-insert :
      (s : Text) (a : A) (xs : List A)
      → text_leb s (key a) ≡ true
      → Below s xs
      → Below s (insert key a xs)
  unfolding insert
  Below-insert s a [] h b = (h, b)
  Below-insert s a (x ∷ xs) h (bx, b) = elim (Bool-cases (text_leb (key a) (key x))) [
    | inl e ↦ rw e (h, (bx, b))
    | inr e ↦ rw e (bx, Below-insert s a xs h b)
  ]

  insert-Sorted : (a : A) (xs : List A) → Sorted xs → Sorted (insert key a xs)
  unfolding insert
  insert-Sorted a [] s = (tt, tt)
  insert-Sorted a (x ∷ xs) (b, s) = elim (Bool-cases (text_leb (key a) (key x))) [
    | inl e ↦ rw e ((e, Below-trans (key a) (key x) xs e b), (b, s))
    | inr e ↦
        rw e (Below-insert (key x) a xs (text_leb_total (key a) (key x) e) b, insert-Sorted a xs s)
  ]

  pub sort-Sorted : (xs : List A) → Sorted (sort key xs)
  unfolding sort
  sort-Sorted [] = tt
  sort-Sorted (x ∷ xs) = insert-Sorted x (sort key xs) (sort-Sorted xs)

  insert-Perm : (a : A) (xs : List A) → Permᴰ (insert key a xs) (a ∷ xs)
  unfolding insert
  insert-Perm a [] = Permᴰ.refl (a ∷ [])
  insert-Perm a (x ∷ xs) = elim (Bool-cases (text_leb (key a) (key x))) [
    | inl e ↦ rw e (Permᴰ.refl (a ∷ x ∷ xs))
    | inr e ↦ rw e (Permᴰ.trans (Permᴰ.cons refl (insert-Perm a xs)) (Permᴰ.swap refl refl))
  ]

  pub sort-Perm : (xs : List A) → Permᴰ (sort key xs) xs
  unfolding sort
  sort-Perm [] = Permᴰ.nil
  sort-Perm (x ∷ xs) = Permᴰ.trans (insert-Perm x (sort key xs)) (Permᴰ.cons refl (sort-Perm xs))

module _ {ℓ κ} {A : Type ℓ} (P : A → Type κ) where
  pub All-Perm : {xs ys : List A} → Permᴰ xs ys → All P xs → All P ys
  All-Perm Permᴰ.nil h = h
  All-Perm (Permᴰ.cons e d) (hx, h) = (subst P e hx, All-Perm d h)
  All-Perm (Permᴰ.swap e f) (hx, (hy, h)) = (subst P f hy, (subst P e hx, h))
  All-Perm (Permᴰ.trans d c) h = All-Perm c (All-Perm d h)
