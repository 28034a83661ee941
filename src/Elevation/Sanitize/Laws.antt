-- ===== src/Elevation/Sanitize/Laws.antt =====
-- What `apply` keeps and strips, and what `keep` adds to a policy.
use subprocess.Prelude.{
  true, not, false, ◌||◌, List, [], ◌∷◌, ◌++◌, map, append_assoc, append-nil, ◌≡◌, refl, sym, ap,
  arith, All, subst, Bool, ◌∙◌,
}
use mathlib.Core.List.{Permᴰ}
use mathlib.Core.List.Permᴰ
use subprocess.Errors.{Text, text_eq, text_eq-eq}
use subprocess.Elevation.Sanitize.{
  contains, EnvVar, Policy, Partition, extend, keep, keeps, push, partition, apply, sort, env_key,
  is_denied, default,
}
use subprocess.Elevation.Sanitize.Sorting.{Sorted, sort-Sorted, sort-Perm, All-Perm}

pub contains-extend :
    (extra : List Text) (set : List Text) (k : Text)
    → contains (extend extra set) k ≡ (contains set k || contains extra k)
contains-extend [] set k = ground arith
contains-extend (e ∷ extra) set k =
    let same : text_eq e k ≡ true → contains set e ≡ contains set k =
      λ h. ap (contains set) (text_eq-eq e k h) in
    ground (arith, contains-extend extra set k, same)

module _ (lossy : Text → Text) where
  -- The keys given to `keep` are kept, and the verdict on every other variable is as before, under
  -- each of the four policies.
  pub keeps-keep :
      (policy : Policy) (extra : List Text) (k : Text) (v : Text)
      → keeps lossy (keep policy extra) (k, v) ≡ (keeps lossy policy (k, v) || contains extra k)
  unfolding keep keeps
  keeps-keep (Policy.denylist kept) extra k v = ground (arith, contains-extend extra kept k)
  keeps-keep (Policy.allowlist allow) extra k v = contains-extend extra allow k
  keeps-keep (Policy.filter f) extra k v = ground arith
  keeps-keep Policy.forward_all extra k v = refl

  module _ (policy : Policy) where
    -- `kept` and `stripped` part the environment by the test of the policy.
    pub record Parts (env : List EnvVar) (kept : List EnvVar) (stripped : List Text) : Type 0 where
      pub dropped : List EnvVar
      pub whole : Permᴰ (kept ++ dropped) env
      pub keys : Permᴰ stripped (map env_key dropped)
      pub passed : All (λ e. keeps lossy policy e ≡ true) kept
      pub failed : All (λ e. keeps lossy policy e ≡ false) dropped

    record Pushed (env : List EnvVar) (p : Partition) (q : Partition) : Type 0 where
      kept : List EnvVar
      dropped : List EnvVar
      kept_eq : q.kept ≡ p.kept ++ kept
      stripped_eq : q.stripped ≡ p.stripped ++ map env_key dropped
      whole : Permᴰ (kept ++ dropped) env
      passed : All (λ e. keeps lossy policy e ≡ true) kept
      failed : All (λ e. keeps lossy policy e ≡ false) dropped

    push-Pushed :
        (e : EnvVar) (env : List EnvVar) (p : Partition) (q : Partition) (b : Bool)
        → keeps lossy policy e ≡ b
        → Pushed env (push lossy policy e b p) q
        → Pushed (e ∷ env) p q
    unfolding push
    push-Pushed e env p q true h r = record {
      kept = e ∷ r.kept;
      dropped = r.dropped;
      kept_eq = r.kept_eq ∙ append_assoc p.kept (e ∷ []) r.kept;
      stripped_eq = r.stripped_eq;
      whole = Permᴰ.cons refl r.whole;
      passed = (h, r.passed);
      failed = r.failed;
    }
    push-Pushed e env p q false h r = record {
      kept = r.kept;
      dropped = e ∷ r.dropped;
      kept_eq = r.kept_eq;
      stripped_eq =
          r.stripped_eq ∙ append_assoc p.stripped (env_key e ∷ []) (map env_key r.dropped);
      whole = Permᴰ.trans (Permᴰ.middle e r.kept r.dropped) (Permᴰ.cons refl r.whole);
      passed = r.passed;
      failed = (h, r.failed);
    }

    partition-Pushed :
        (env : List EnvVar) (p : Partition) → Pushed env p (partition lossy policy env p)
    unfolding partition
    partition-Pushed [] p = record {
      kept = [];
      dropped = [];
      kept_eq = sym (append-nil p.kept);
      stripped_eq = sym (append-nil p.stripped);
      whole = Permᴰ.nil;
      passed = tt;
      failed = tt;
    }
    partition-Pushed (e ∷ env) p =
        push-Pushed e env p _ (keeps lossy policy e) refl
          (partition-Pushed env (push lossy policy e (keeps lossy policy e) p))

    -- `apply` parts the environment by the policy's test: what is kept passes it, the keys that are
    -- stripped are those of the variables that fail it, and nothing is lost or doubled. Both lists
    -- are in the order of their keys.
    pub apply-Parts :
        (env : List EnvVar)
        → Parts env (apply lossy policy env).kept (apply lossy policy env).stripped
          × Sorted env_key (apply lossy policy env).kept
          × Sorted (λ k. k) (apply lossy policy env).stripped
    unfolding apply
    apply-Parts env =
        let r = partition-Pushed env (record { kept = []; stripped = [] }) in
        let q = partition lossy policy env (record { kept = []; stripped = [] }) in
        let order : Permᴰ (sort env_key q.kept) r.kept =
          subst (Permᴰ (sort env_key q.kept)) r.kept_eq (sort-Perm env_key q.kept) in
        (
          record {
            dropped = r.dropped;
            whole = Permᴰ.trans (Permᴰ.append_right r.dropped order) r.whole;
            keys =
                subst (Permᴰ (sort (λ k. k) q.stripped)) r.stripped_eq
                  (sort-Perm (λ k. k) q.stripped);
            passed = All-Perm _ (Permᴰ.symm order) r.passed;
            failed = r.failed;
          },
          sort-Sorted env_key q.kept,
          sort-Sorted (λ k. k) q.stripped,
        )

  passes-is_denied :
      (k : Text) → (contains [] k || not (is_denied lossy k)) ≡ true → is_denied lossy k ≡ false
  passes-is_denied k h = ground arith

  All-is_denied :
      (xs : List EnvVar)
      → All (λ e. keeps lossy default e ≡ true) xs
      → All (λ e. is_denied lossy (env_key e) ≡ false) xs
  unfolding keeps default
  All-is_denied [] h = tt
  All-is_denied ((k, v) ∷ xs) (hx, h) = (passes-is_denied k hx, All-is_denied xs h)

  -- Under the default policy no variable of the denylist is kept.
  pub apply-default :
      (env : List EnvVar)
      → All (λ e. is_denied lossy (env_key e) ≡ false) (apply lossy default env).kept
  apply-default env = let (r, s, t) = apply-Parts default env in All-is_denied _ r.passed
