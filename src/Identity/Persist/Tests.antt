-- ===== src/Identity/Persist/Tests.antt =====
-- Records of a Linux process, restored in the same boot session and in another one.
use subprocess.Prelude.{ℕ, some, ◌≡◌, refl, codes, ok, err, ◌>>=◌, arith}
use subprocess.Errors.{Text, RecordErrorKind}
use subprocess.Identity.{signal_target}
use subprocess.Identity.Persist.{
  Platform, ProcessIdRecord, Scope, validate, check_boot, check_ns, pid_is_addressable, record_from,
  restore,
}
use subprocess.Identity.Persist.Laws.{Judged, validate-Judged, restore-record_from}

abbrev scope : Scope
scope = record { boot_id = some (codes "boot-1"); pid_ns = some 4026531836 }

abbrev later : Scope
later = record { boot_id = some (codes "boot-2"); pid_ns = some 4026531836 }

abbrev saved_record : ProcessIdRecord
saved_record = record {
  version = 1;
  platform = Platform.linux;
  pid = 42;
  token = 777;
  boot_id = some (codes "boot-1");
  pid_ns = some 4026531836;
}

validate_rebooted :
    validate saved_record Platform.linux later ≡ err RecordErrorKind.foreign_boot_session
unfolding validate check_boot check_ns pid_is_addressable signal_target
validate_rebooted = refl

abbrev no_text : ℕ → Text
no_text n = codes "error"

abbrev no_description : ProcessIdRecord → Scope → Text
no_description saved s = codes "rejected"

validate-Judged_example :
    Judged saved_record Platform.linux scope (validate saved_record Platform.linux scope)
validate-Judged_example = validate-Judged saved_record Platform.linux scope

restore-record_from_example :
    (record_from {I = ℕ} no_text no_description Platform.linux
        (record { pid = 42; start = 777 })
        (ok scope)
      >>= λ saved. restore no_text no_description saved Platform.linux (ok scope))
    ≡ ok (record { pid = 42; start = 777 })
restore-record_from_example =
    restore-record_from ℕ no_text no_description Platform.linux (record { pid = 42; start = 777 })
      scope (omega arith, omega arith)
