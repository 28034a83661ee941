-- ===== src/Identity/Persist/Laws.antt =====
-- Which records are restored, and to which identity.
use subprocess.Prelude.{
  ℕ, Bool, true, false, not, Option, some, none, ◌≡◌, refl, sym, ap, ◌∙◌, arith, Bool-cases, inl,
  inr, ◌==◌, Result, ok, err, ◌>>=◌, [], ◌∷◌, ◌≤◌, if◌then◌else◌, codes,
}
use subprocess.Errors.{Text, text_eq, text_eq-eq, RecordErrorKind}
use subprocess.Identity.{ProcessId, signal_target, max_pid}
use subprocess.Identity.Persist.{
  Done, record_version, Platform, ProcessIdRecord, Scope, same_platform, pid_is_addressable,
  check_boot, check_ns, validate, record_from, restore, rebuilt, as_str, from_wire,
}

pub text_eq_refl : (s : Text) → text_eq s s ≡ true
text_eq_refl [] = refl
text_eq_refl (a ∷ s) = ground (arith, text_eq_refl s)

same_platform-eq : (p : Platform) (q : Platform) → same_platform p q ≡ true → p ≡ q
same_platform-eq Platform.linux Platform.linux h = refl
same_platform-eq Platform.mac_os Platform.mac_os h = refl
same_platform-eq Platform.windows Platform.windows h = refl
same_platform-eq (Platform.other s) (Platform.other t) h = ap Platform.other (text_eq-eq s t h)
same_platform-eq p q h = ground arith

-- The wire name of a platform read from a wire name is that name, be it known or not.
pub as_str-from_wire : (s : Text) → as_str (from_wire s) ≡ s
unfolding as_str from_wire
as_str-from_wire s = elim (Bool-cases (text_eq s (codes "linux"))) [
  | inl e ↦ rw e (sym (text_eq-eq s (codes "linux") e))
  | inr e ↦ rw e (elim (Bool-cases (text_eq s (codes "macos"))) [
    | inl f ↦ rw f (sym (text_eq-eq s (codes "macos") f))
    | inr f ↦ rw f (elim (Bool-cases (text_eq s (codes "windows"))) [
      | inl g ↦ rw g (sym (text_eq-eq s (codes "windows") g))
      | inr g ↦ rw g refl
    ])
  ])
]

-- What a live part of the scope asks of the saved one.
abbrev pub Matches {ℓ} : {A : Type ℓ} → Option A → Option A → Type ℓ
Matches none saved = Unit
Matches (some live) saved = saved ≡ some live

abbrev pub IsAddress : ℕ → Platform → Type 0
IsAddress pid Platform.windows = 1 ≤ pid
IsAddress pid _ = (1 ≤ pid) × (pid ≤ max_pid)

-- The record is of this format, this platform, this boot session and this pid namespace, and its pid
-- names a single process.
pub record Belongs (saved : ProcessIdRecord) (here : Platform) (scope : Scope) : Type 0 where
  pub version : saved.version ≡ record_version
  pub platform : saved.platform ≡ here
  pub address : IsAddress saved.pid here
  pub boot : Matches scope.boot_id saved.boot_id
  pub namespace : Matches scope.pid_ns saved.pid_ns

IsAddress-true :
    (pid : ℕ) (here : Platform) → pid_is_addressable pid here ≡ true → IsAddress pid here
unfolding pid_is_addressable signal_target
IsAddress-true pid Platform.linux h = (ground arith, ground arith)
IsAddress-true pid Platform.mac_os h = (ground arith, ground arith)
IsAddress-true pid Platform.windows h = ground arith
IsAddress-true pid (Platform.other s) h = (ground arith, ground arith)

IsAddress-false :
    (pid : ℕ) (here : Platform)
    → pid_is_addressable pid here ≡ false
    → IsAddress pid here
    → false ≡ true
unfolding pid_is_addressable signal_target
IsAddress-false pid Platform.linux h (l, u) = ground arith
IsAddress-false pid Platform.mac_os h (l, u) = ground arith
IsAddress-false pid Platform.windows h l = ground arith
IsAddress-false pid (Platform.other s) h (l, u) = ground arith

-- A check passes if its scope matches, and fails only if it does not.
abbrev Checked {ℓ} : {A : Type ℓ} → Option A → Option A → Result Done RecordErrorKind → Type ℓ
Checked live saved (ok u) = Matches live saved
Checked live saved (err kind) = Matches live saved → false ≡ true

some-text : (s : Text) (t : Text) → text_eq s t ≡ false → some s ≡ some t → false ≡ true
some-text s t h e = ground (arith, text_eq_refl s)

check_boot-Checked :
    (live : Option Text) (saved : Option Text) → Checked live saved (check_boot live saved)
unfolding check_boot
check_boot-Checked none saved = tt
check_boot-Checked (some live) none = λ h. ground arith
check_boot-Checked (some live) (some saved) = elim (Bool-cases (text_eq saved live)) [
  | inl e ↦ rw e (ap some (text_eq-eq saved live e))
  | inr e ↦ rw e (some-text saved live e)
]

check_ns-Checked : (live : Option ℕ) (saved : Option ℕ) → Checked live saved (check_ns live saved)
unfolding check_ns
check_ns-Checked none saved = tt
check_ns-Checked (some live) none = λ h. ground arith
check_ns-Checked (some live) (some saved) = elim (Bool-cases (saved == live)) [
  | inl e ↦ rw e (ground arith)
  | inr e ↦ rw e (λ h. ground arith)
]

version-false : (v : ℕ) → (v == record_version) ≡ false → v ≡ record_version → false ≡ true
version-false v h e = ground arith

-- A verdict of `validate`.
abbrev pub Judged : ProcessIdRecord → Platform → Scope → Result (ℕ × ℕ) RecordErrorKind → Type 0
Judged saved here scope (ok (pid, token)) =
    (pid ≡ saved.pid) × (token ≡ saved.token) × Belongs saved here scope
Judged saved here scope (err kind) = Belongs saved here scope → false ≡ true

scope-Judged :
    (saved : ProcessIdRecord) (here : Platform) (scope : Scope) (boot : Result Done RecordErrorKind)
    (ns : Result Done RecordErrorKind)
    → saved.version ≡ record_version
    → saved.platform ≡ here
    → IsAddress saved.pid here
    → Checked scope.boot_id saved.boot_id boot
    → Checked scope.pid_ns saved.pid_ns ns
    → Judged saved here scope (boot >>= λ b. (ns >>= λ n. ok (saved.pid, saved.token)))
scope-Judged saved here scope (err kind) ns v p a b n = λ h. b h.boot
scope-Judged saved here scope (ok u) (err kind) v p a b n = λ h. n h.namespace
scope-Judged saved here scope (ok u) (ok w) v p a b n =
    (refl, refl, record { version = v; platform = p; address = a; boot = b; namespace = n })

same_platform_refl : (p : Platform) → same_platform p p ≡ true
same_platform_refl Platform.linux = refl
same_platform_refl Platform.mac_os = refl
same_platform_refl Platform.windows = refl
same_platform_refl (Platform.other s) = text_eq_refl s

guards-Judged :
    (saved : ProcessIdRecord) (here : Platform) (scope : Scope) (v : Bool) (p : Bool) (a : Bool)
    → (saved.version == record_version) ≡ v
    → same_platform saved.platform here ≡ p
    → pid_is_addressable saved.pid here ≡ a
    → Judged saved here scope (
        if not v
        then err RecordErrorKind.unknown_version
        else if not p
        then err RecordErrorKind.foreign_platform
        else if not a
        then err RecordErrorKind.invalid_pid
        else check_boot scope.boot_id saved.boot_id >>= λ boot.
            (check_ns scope.pid_ns saved.pid_ns >>= λ ns. ok (saved.pid, saved.token)))
guards-Judged saved here scope false p a ev ep ea = λ h. version-false saved.version ev h.version
guards-Judged saved here scope true false a ev ep ea =
    λ h. sym ep ∙ (ap (λ q. same_platform q here) h.platform ∙ same_platform_refl here)
guards-Judged saved here scope true true false ev ep ea =
    λ h. IsAddress-false saved.pid here ea h.address
guards-Judged saved here scope true true true ev ep ea =
    scope-Judged saved here scope (check_boot scope.boot_id saved.boot_id)
      (check_ns scope.pid_ns saved.pid_ns) (ground arith) (same_platform-eq saved.platform here ep)
      (IsAddress-true saved.pid here ea) (check_boot-Checked scope.boot_id saved.boot_id)
      (check_ns-Checked scope.pid_ns saved.pid_ns)

-- A record is accepted, with its pid and its token, if it belongs here: it is of this format, this
-- platform, and of each of the boot session and the pid namespace that this host has, and its pid
-- names a single process. It is rejected only if it does not.
pub validate-Judged :
    (saved : ProcessIdRecord) (here : Platform) (scope : Scope)
    → Judged saved here scope (validate saved here scope)
unfolding validate
validate-Judged saved here scope = guards-Judged saved here scope _ _ _ refl refl refl

Matches-refl {ℓ} : {A : Type ℓ} (o : Option A) → Matches o o
Matches-refl none = tt
Matches-refl (some a) = refl

module _ (I : Type 0) (display : I → Text) (describe : ProcessIdRecord → Scope → Text) where
  rebuilt-Judged :
      (saved : ProcessIdRecord) (here : Platform) (scope : Scope)
      (verdict : Result (ℕ × ℕ) RecordErrorKind)
      → Judged saved here scope verdict
      → Belongs saved here scope
      → rebuilt {I = I} display describe saved scope verdict
        ≡ ok (record { pid = saved.pid; start = saved.token })
  unfolding rebuilt
  rebuilt-Judged saved here scope (ok (pid, token)) (p, t, b) h = rw (p, t) refl
  rebuilt-Judged saved here scope (err kind) j h = let absurd : false ≡ true = j h in ground arith

  -- An identity whose pid names a single process, written to a record, is restored as it was on the
  -- same platform, in the same boot session and pid namespace.
  pub restore-record_from :
      (here : Platform) (id : ProcessId) (scope : Scope)
      → IsAddress id.pid here
      → (record_from {I = I} display describe here id (ok scope) >>= λ saved.
          restore display describe saved here (ok scope))
        ≡ ok id
  unfolding record_from restore
  restore-record_from here id scope a =
      rebuilt-Judged _ here scope _ (validate-Judged _ here scope) (record {
        version = refl;
        platform = refl;
        address = a;
        boot = Matches-refl scope.boot_id;
        namespace = Matches-refl scope.pid_ns;
      })
