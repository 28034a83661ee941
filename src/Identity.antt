-- ===== src/Identity.antt =====
-- Process identities (src/identity.rs, src/identity/state.rs, src/identity/probe.rs).
pub mod Persist
pub mod StatParse
use subprocess.Prelude.{
  ℕ, Bool, true, ◌&&◌, Option, some, none, leb, ltb, ◌==◌, ◌≤◌, ◌≡◌, if◌then◌else◌, arith,
}

-- A pid with the start token of the process that holds it.
pub record ProcessId : Type 0 where
  pub pid : ℕ
  pub start : ℕ

-- What a query by pid answers.
pub data Resolved {ℓ} (A : Type ℓ) : Type ℓ where
  found : A → Resolved A
  gone unknown : Resolved A

-- `i32::MAX`.
abbrev pub max_pid : ℕ
max_pid = 2147483647

unfoldable pub signal_target : ℕ → Option ℕ
signal_target pid = if leb pid max_pid then (if ltb 0 pid then some pid else none) else none

pub data Existence : Type 0 where
  present gone unknown : Existence

pub data Liveness : Type 0 where
  alive dead unknown : Liveness

-- The derived equality of ProcessId.
abbrev pub same_id : ProcessId → ProcessId → Bool
same_id a b = a.pid == b.pid && a.start == b.start

pub same_id-eq : (a : ProcessId) (b : ProcessId) → same_id a b ≡ true → a ≡ b
same_id-eq a b h = ground arith

pub signal_target-bounds :
    (pid : ℕ) (target : ℕ)
    → signal_target pid ≡ some target
    → (target ≡ pid) × (1 ≤ pid) × (pid ≤ max_pid)
unfolding signal_target
signal_target-bounds pid target h = (ground arith, ground arith, ground arith)
