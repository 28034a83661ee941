-- ===== src/Identity/Persist.antt =====
-- Persisted process identities (src/identity/persist.rs).
pub mod Laws
mod Tests
use subprocess.Prelude.{
  ℕ, Bool, true, false, not, ◌&&◌, ◌++◌, Option, some, none, ◌==◌, if◌then◌else◌, codes, Result, ok,
  err, ◌>>=◌,
}
use subprocess.Errors.{Text, text_eq, RecordErrorKind, Error}
use subprocess.Identity.{ProcessId, signal_target}

abbrev pub record_version : ℕ
record_version = 1

pub data Platform : Type 0 where
  linux mac_os windows : Platform
  other : Text → Platform

unfoldable pub as_str : Platform → Text
as_str Platform.linux = codes "linux"
as_str Platform.mac_os = codes "macos"
as_str Platform.windows = codes "windows"
as_str (Platform.other s) = s

unfoldable pub from_wire : Text → Platform
from_wire s =
    if text_eq s (codes "linux")
    then Platform.linux
    else if text_eq s (codes "macos")
    then Platform.mac_os
    else if text_eq s (codes "windows")
    then Platform.windows
    else Platform.other s

-- The derived equality.
abbrev pub same_platform : Platform → Platform → Bool
same_platform Platform.linux Platform.linux = true
same_platform Platform.mac_os Platform.mac_os = true
same_platform Platform.windows Platform.windows = true
same_platform (Platform.other s) (Platform.other t) = text_eq s t
same_platform _ _ = false

pub record ProcessIdRecord : Type 0 where
  pub version : ℕ
  pub platform : Platform
  pub pid : ℕ
  pub token : ℕ
  pub boot_id : Option Text
  pub pid_ns : Option ℕ

pub record Scope : Type 0 where
  pub boot_id : Option Text
  pub pid_ns : Option ℕ

pub record ScopeReadError (I : Type 0) : Type 0 where
  pub path : Text
  pub source : I

abbrev is_some {ℓ} : {A : Type ℓ} → Option A → Bool
is_some (some a) = true
is_some none = false

unfoldable pub pid_is_addressable : ℕ → Platform → Bool
pid_is_addressable pid Platform.windows = not (pid == 0)
pid_is_addressable pid here = is_some (signal_target pid)

-- Rust's unit type.
abbrev pub Done : Type 0
Done = Unit

-- The two checks of the scope: what is live here, and what was saved.
unfoldable pub check_boot : Option Text → Option Text → Result Done RecordErrorKind
check_boot none saved = ok tt
check_boot (some live) none = err RecordErrorKind.missing_boot_session
check_boot (some live) (some saved) =
    if not (text_eq saved live) then err RecordErrorKind.foreign_boot_session else ok tt

unfoldable pub check_ns : Option ℕ → Option ℕ → Result Done RecordErrorKind
check_ns none saved = ok tt
check_ns (some live) none = err RecordErrorKind.missing_pid_namespace
check_ns (some live) (some saved) =
    if not (saved == live) then err RecordErrorKind.foreign_pid_namespace else ok tt

unfoldable pub validate : ProcessIdRecord → Platform → Scope → Result (ℕ × ℕ) RecordErrorKind
validate saved_record here scope =
    if not (saved_record.version == record_version)
    then err RecordErrorKind.unknown_version
    else if not (same_platform saved_record.platform here)
    then err RecordErrorKind.foreign_platform
    else if not (pid_is_addressable saved_record.pid here)
    then err RecordErrorKind.invalid_pid
    else check_boot scope.boot_id saved_record.boot_id >>= λ boot.
        (check_ns scope.pid_ns saved_record.pid_ns >>= λ ns.
        ok (saved_record.pid, saved_record.token))

-- `display` is std's Display of an io::Error, and `describe` the formatted text of `reject`.
module _ {I : Type 0} (display : I → Text) (describe : ProcessIdRecord → Scope → Text) where
  unfoldable pub scope_error : ScopeReadError I → Error I
  scope_error e =
      Error.identity_record RecordErrorKind.scope_unreadable
        (e.path ++ codes " could not be read: " ++ display e.source) (some e.source)

  unfoldable pub reject : ProcessIdRecord → Scope → RecordErrorKind → Error I
  reject saved_record scope kind = Error.identity_record kind (describe saved_record scope) none

  unfoldable pub record_from :
      Platform → ProcessId → Result Scope (ScopeReadError I) → Result ProcessIdRecord (Error I)
  record_from here id (err e) = err (scope_error e)
  record_from here id (ok scope) = ok (record {
    version = record_version;
    platform = here;
    pid = id.pid;
    token = id.start;
    boot_id = scope.boot_id;
    pid_ns = scope.pid_ns;
  })

  unfoldable pub rebuilt :
      ProcessIdRecord → Scope → Result (ℕ × ℕ) RecordErrorKind → Result ProcessId (Error I)
  rebuilt saved_record scope (ok (pid, token)) = ok (record { pid = pid; start = token })
  rebuilt saved_record scope (err kind) = err (reject saved_record scope kind)

  unfoldable pub restore :
      ProcessIdRecord → Platform → Result Scope (ScopeReadError I) → Result ProcessId (Error I)
  restore saved_record here (err e) = err (scope_error e)
  restore saved_record here (ok scope) =
      rebuilt saved_record scope (validate saved_record here scope)
