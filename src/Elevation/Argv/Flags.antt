-- ===== src/Elevation/Argv/Flags.antt =====
-- The flags of each backend: their form, and the names that `--preserve-env` lists.
use subprocess.Prelude.{
  ℕ, Bool, true, false, not, ◌&&◌, List, [], ◌∷◌, ◌++◌, map, ◌≡◌, refl, sym, ap, ◌∙◌, arith,
  Bool-cases, inl, inr, All, ◌==◌, if◌then◌else◌, codes, Result, ok, err, ◌>>=◌, append_assoc,
  append-nil,
}
use subprocess.Errors.{Text, text_eq}
use subprocess.Elevation.Common.{Auth}
use subprocess.Elevation.Sanitize.{EnvVar, env_key, starts_with}
use subprocess.Elevation.Argv.{
  all_name, valid_env_name, terminator, sudo_auth, preserve_rest, preserve_env_flag, sudo_env,
  setenv,
}

-- An option of the backend: it begins with a dash and does not end the options.
abbrev pub is_flag : Text → Bool
is_flag t = starts_with t (codes "-") && not (text_eq t terminator)

abbrev pub Flags : List Text → Type 0
Flags flags = All (λ t. is_flag t ≡ true) flags

abbrev pub valid_names : List EnvVar → Bool
valid_names [] = true
valid_names ((k, v) ∷ env) = valid_env_name k && valid_names env

-- A result that has `P`, or an error for which there is the cause `Q`.
abbrev pub Yields {ℓ κ ι} : {A : Type ℓ} {E : Type κ} → (A → Type ι) → Type ι → Result A E → Type ι
Yields P Q (ok a) = P a
Yields P Q (err e) = Q

pub Yields-weaken {ℓ κ ι} :
    {A : Type ℓ} {E : Type κ} {P : A → Type ι} {P' : A → Type ι} {Q : Type ι} {Q' : Type ι}
    → ((a : A) → P a → P' a)
    → (Q → Q')
    → (r : Result A E) → Yields P Q r
    → Yields P' Q' r
Yields-weaken f g (ok a) y = f a y
Yields-weaken f g (err e) y = g y

pub Yields-bind {ℓ κ ι} :
    {A : Type ℓ} {B : Type ℓ} {E : Type κ} {P : A → Type ι} (P' : B → Type ι) (Q : Type ι)
    (f : A → B)
    → ((a : A) → P a → P' (f a))
    → (r : Result A E) → Yields P Q r
    → Yields P' Q (r >>= λ a. ok (f a))
Yields-bind P' Q f g (ok a) y = g a y
Yields-bind P' Q f g (err e) y = y

-- The text up to each comma, and behind the last.
abbrev pub cons_head : ℕ → List Text → List Text
cons_head c [] = (c ∷ []) ∷ []
cons_head c (t ∷ names) = (c ∷ t) ∷ names

abbrev pub split_commas : Text → List Text
split_commas [] = [] ∷ []
split_commas (c ∷ t) =
    let rest = split_commas t in if c == b',' then [] ∷ rest else cons_head c rest

abbrev pub commas : List EnvVar → Text
commas [] = []
commas ((k, v) ∷ env) = b',' ∷ k ++ commas env

split_commas-name :
    (k : Text) (t : Text) → all_name k ≡ true → split_commas (k ++ b',' ∷ t) ≡ k ∷ split_commas t
split_commas-name [] t h = refl
split_commas-name (c ∷ k) t h =
    let other : (c == b',') ≡ false = ground arith in
    let rest : all_name k ≡ true = ground arith in rw (other, split_commas-name k t rest) refl

split_commas-last : (k : Text) → all_name k ≡ true → split_commas k ≡ k ∷ []
split_commas-last [] h = refl
split_commas-last (c ∷ k) h =
    let other : (c == b',') ≡ false = ground arith in
    let rest : all_name k ≡ true = ground arith in rw (other, split_commas-last k rest) refl

valid-all_name : (k : Text) → valid_env_name k ≡ true → all_name k ≡ true
unfolding valid_env_name
valid-all_name [] h = refl
valid-all_name (c ∷ k) h = ground arith

pub split_commas-commas :
    (k : Text) (env : List EnvVar)
    → valid_env_name k ≡ true
    → valid_names env ≡ true
    → split_commas (k ++ commas env) ≡ k ∷ map env_key env
split_commas-commas k [] h hs = rw (append-nil k) (split_commas-last k (valid-all_name k h))
split_commas-commas k ((l, v) ∷ env) h hs =
    split_commas-name k (l ++ commas env) (valid-all_name k h)
    ∙ ap (λ r. k ∷ r) (split_commas-commas l env (ground arith) (ground arith))

pub sudo_auth-Flags : (auth : Auth) → Flags (sudo_auth auth)
unfolding sudo_auth
sudo_auth-Flags Auth.interactive = tt
sudo_auth-Flags Auth.non_interactive = (refl, tt)
sudo_auth-Flags (Auth.askpass p) = (refl, tt)
sudo_auth-Flags (Auth.stdin s) = (refl, tt)
sudo_auth-Flags Auth.gui = tt

-- Flags that were made of variables with valid names.
abbrev pub Named : List EnvVar → List Text → Type 0
Named env flags = Flags flags × (valid_names env ≡ true)

-- The flag lists the keys of the environment between its commas.
abbrev pub Lists : List EnvVar → Text → Type 0
Lists env flag =
    (names : Text) × (flag ≡ codes "--preserve-env=" ++ names)
    × (split_commas names ≡ map env_key env)

module _ (I : Type 0) (debug_name : Text → Text) where
  preserve_rest-commas :
      (flag : Text) (env : List EnvVar)
      → Yields
          (λ r. (r ≡ flag ++ commas env) × (valid_names env ≡ true))
          (valid_names env ≡ false)
          (preserve_rest {I = I} debug_name flag env)
  unfolding preserve_rest
  preserve_rest-commas flag [] = (sym (append-nil flag), refl)
  preserve_rest-commas flag ((k, v) ∷ env) =
      let rec = preserve_rest-commas (flag ++ b',' ∷ k) env in
      elim (Bool-cases (valid_env_name k)) [
        | inl e ↦ rw e (
            Yields-weaken (λ r (q, h). (q ∙ append_assoc flag (b',' ∷ k) (commas env), h)) (λ h. h)
              (preserve_rest debug_name (flag ++ b',' ∷ k) env) rec)
        | inr e ↦ rw e refl
      ]

  -- The names that `--preserve-env` lists, read between its commas, are the keys of the environment.
  -- An error is returned if and only if one of them is not a valid name.
  pub preserve_env_flag-Lists :
      (e : EnvVar) (env : List EnvVar)
      → Yields
          (λ flag. Lists (e ∷ env) flag × (valid_names (e ∷ env) ≡ true))
          (valid_names (e ∷ env) ≡ false)
          (preserve_env_flag {I = I} debug_name (e ∷ env))
  unfolding preserve_env_flag
  preserve_env_flag-Lists (k, v) env =
      let flag = codes "--preserve-env=" ++ k in
      elim (Bool-cases (valid_env_name k)) [
        | inl e ↦ rw e (
            Yields-weaken
              (λ r (q, h). (
                (
                  k ++ commas env,
                  q ∙ append_assoc (codes "--preserve-env=") k (commas env),
                  split_commas-commas k env e h,
                ),
                ground (arith, e, h),
              ))
              (λ h. h) (preserve_rest debug_name flag env) (preserve_rest-commas flag env))
        | inr e ↦ rw e refl
      ]

  pub sudo_env-Flags :
      (env : List EnvVar)
      → Yields (Named env) (valid_names env ≡ false) (sudo_env {I = I} debug_name env)
  unfolding sudo_env
  sudo_env-Flags [] = (tt, refl)
  sudo_env-Flags (e ∷ env) =
      Yields-bind (Named (e ∷ env)) _ (λ flag. flag ∷ [])
        (λ flag ((names, q, h), v). ((rw q refl, tt), v)) (preserve_env_flag debug_name (e ∷ env))
        (preserve_env_flag-Lists e env)

  pub setenv-Flags :
      (env : List EnvVar)
      → Yields (Named env) (valid_names env ≡ false) (setenv {I = I} debug_name env)
  unfolding setenv
  setenv-Flags [] = (tt, refl)
  setenv-Flags ((k, v) ∷ env) = elim (Bool-cases (valid_env_name k)) [
    | inl e ↦ rw e (
        Yields-bind (Named ((k, v) ∷ env)) _ (λ flags. (codes "--setenv=" ++ k ++ b'=' ∷ v) ∷ flags)
          (λ flags (h, q). ((refl, h), ground (arith, e, q))) (setenv debug_name env)
          (setenv-Flags env))
    | inr e ↦ rw e refl
  ]
