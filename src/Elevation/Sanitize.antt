-- ===== src/Elevation/Sanitize.antt =====
-- The sanitizer of a forwarded environment (src/elevation/sanitize.rs).
pub mod Sorting
pub mod Laws
mod Tests
use subprocess.Prelude.{
  ℕ, zero, suc, Bool, true, false, not, ◌&&◌, ◌||◌, List, [], ◌∷◌, ◌==◌, ◌++◌, ltb, if◌then◌else◌,
  codes,
}
use subprocess.Errors.{Text, text_eq}

-- The order of OsStrings, byte by byte.
abbrev pub text_leb : Text → Text → Bool
text_leb [] t = true
text_leb (a ∷ s) [] = false
text_leb (a ∷ s) (b ∷ t) = ltb a b || a == b && text_leb s t

abbrev pub starts_with : Text → Text → Bool
starts_with s [] = true
starts_with [] (b ∷ p) = false
starts_with (a ∷ s) (b ∷ p) = a == b && starts_with s p

abbrev pub contains : List Text → Text → Bool
contains [] k = false
contains (s ∷ set) k = text_eq s k || contains set k

abbrev any_prefix : List Text → Text → Bool
any_prefix [] k = false
any_prefix (p ∷ prefixes) k = starts_with k p || any_prefix prefixes k

abbrev pub default_denylist : List Text
default_denylist =
    codes "IFS"
    ∷ codes "BASH_ENV"
    ∷ codes "ENV"
    ∷ codes "PS4"
    ∷ codes "TERMINFO"
    ∷ codes "TERMCAP"
    ∷ codes "HOSTALIASES"
    ∷ codes "RES_OPTIONS"
    ∷ codes "LIBPATH"
    ∷ codes "SHLIB_PATH"
    ∷ codes "GCONV_PATH"
    ∷ codes "PYTHONPATH"
    ∷ codes "PERL5LIB"
    ∷ codes "NODE_OPTIONS"
    ∷ []

abbrev pub denylist_prefixes : List Text
denylist_prefixes = codes "LD_" ∷ codes "DYLD_" ∷ codes "_RLD" ∷ codes "LDR_" ∷ []

-- A variable: its key and its value.
abbrev pub EnvVar : Type 0
EnvVar = Text × Text

-- A BTreeSet of keys is the list of its elements: only membership is asked of it.
pub data Policy : Type 0 where
  denylist : List Text → Policy
  allowlist : List Text → Policy
  filter : (Text → Text → Bool) → Policy
  forward_all : Policy

abbrev pub extend : List Text → List Text → List Text
extend [] set = set
extend (k ∷ extra) set = if contains set k then extend extra set else k ∷ extend extra set

unfoldable pub keep : Policy → List Text → Policy
keep (Policy.denylist kept) extra = Policy.denylist (extend extra kept)
keep (Policy.allowlist allow) extra = Policy.allowlist (extend extra allow)
keep (Policy.filter f) extra = Policy.filter (λ k v. contains extra k || f k v)
keep Policy.forward_all extra = Policy.forward_all

unfoldable pub default : Policy
default = Policy.denylist []

-- `lossy` is `to_string_lossy`.
module _ (lossy : Text → Text) where
  unfoldable pub is_denied : Text → Bool
  is_denied key = let k = lossy key in any_prefix denylist_prefixes k || contains default_denylist k

  -- The test of one variable in the loop of `apply`.
  unfoldable pub keeps : Policy → EnvVar → Bool
  keeps Policy.forward_all (k, v) = true
  keeps (Policy.allowlist allow) (k, v) = contains allow k
  keeps (Policy.filter f) (k, v) = f k v
  keeps (Policy.denylist kept) (k, v) = contains kept k || not (is_denied k)

-- Stable insertion sort by a key stands for `sort_by` and `sort`.
module _ {ℓ} {A : Type ℓ} (key : A → Text) where
  unfoldable pub insert : A → List A → List A
  insert a [] = a ∷ []
  insert a (b ∷ xs) = if text_leb (key a) (key b) then a ∷ b ∷ xs else b ∷ insert a xs

  unfoldable pub sort : List A → List A
  sort [] = []
  sort (a ∷ xs) = insert a (sort xs)

-- The two vectors that `apply` pushes to.
pub record Partition : Type 0 where
  pub kept : List EnvVar
  pub stripped : List Text

abbrev pub env_key : EnvVar → Text
env_key e = e.0

module _ (lossy : Text → Text) (policy : Policy) where
  unfoldable pub push : EnvVar → Bool → Partition → Partition
  push e true p = record { kept = p.kept ++ e ∷ []; stripped = p.stripped }
  push e false p = record { kept = p.kept; stripped = p.stripped ++ env_key e ∷ [] }

  unfoldable pub partition : List EnvVar → Partition → Partition
  partition [] p = p
  partition (e ∷ env) p = partition env (push e (keeps lossy policy e) p)

  unfoldable pub apply : List EnvVar → Partition
  apply env =
      let p = partition env (record { kept = []; stripped = [] }) in
      record { kept = sort env_key p.kept; stripped = sort (λ k. k) p.stripped }
