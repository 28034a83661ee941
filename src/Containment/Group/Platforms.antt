-- ===== src/Containment/Group/Platforms.antt =====
-- The teardown of a group on each platform (src/containment/unix.rs, src/containment/unix/group.rs), and
-- the process file descriptors of Linux (src/wait/linux.rs).
use subprocess.Prelude.{ℕ, ◌++◌, Option, some, none, codes, Result, ok, err, ℤ}
use subprocess.Errors.{Text, Error, Done}
use subprocess.Identity.{ProcessId, Existence}
use subprocess.Containment.Group.{
  Signal, Reached, Answer, GroupSystem, Formats, reached_of, check_or_signal,
}
use subprocess.Containment.Group.Teardown.{signal_group}

-- What `pidfd_open` answers, for descriptors in `F`.
pub data Opening (F : Type 0) (I : Type 0) : Type 0 where
  opened : F → Opening F I
  srch nosys : Opening F I
  failed : I → Opening F I

-- The calls on process descriptors. Both signals are sent through one call.
pub record PidfdSystem (S : Type 0) (F : Type 0) (I : Type 0) : Type 0 where
  pub pidfd_open : S → ℕ → Opening F I × S
  pub exists : S → ProcessId → Existence × S
  pub send_signal : S → F → Signal → Answer I × S
  pub eperm_error : I

module _ {S : Type 0} {F : Type 0} {I : Type 0} (formats : Formats) (fds : PidfdSystem S F I) where
  unfoldable pub confirm_opened : ProcessId → Text → F → Existence → Result (Option F) (Error I)
  confirm_opened id what fd Existence.present = ok (some fd)
  confirm_opened id what fd Existence.gone = ok none
  confirm_opened id what fd Existence.unknown = err (
      Error.unassessable
        (codes "pid "
          ++ (formats.decimal id.pid ++ (codes " identity could not be confirmed; " ++ what)))
        none)

  unfoldable pub opened_verified :
      ProcessId → Text → Opening F I → S → Result (Option F) (Error I) × S
  opened_verified id what (Opening.opened fd) s =
      let (existence, t) = fds.exists s id in (confirm_opened id what fd existence, t)
  opened_verified id what Opening.srch s = (ok none, s)
  opened_verified id what Opening.nosys s = (
    err (
        Error.unsupported (codes "foreign process wait/kill") (codes "linux")
          (codes "pidfd_open requires Linux kernel >= 5.3")),
    s,
  )
  opened_verified id what (Opening.failed e) s = (err (Error.io e), s)

  -- For an identity whose pid is from 1 to `i32::MAX`: the source panics on pid 0, and asserts the bound
  -- before its cast.
  unfoldable pub open_verified : ProcessId → Text → S → Result (Option F) (Error I) × S
  open_verified id what s =
      let (opening, t) = fds.pidfd_open s id.pid in opened_verified id what opening t

  -- `pidfd_send_signal` as an answer to the caller: an exit in between is success.
  unfoldable pub sent_result : Answer I → Result Done (Error I)
  sent_result Answer.delivered = ok tt
  sent_result Answer.esrch = ok tt
  sent_result Answer.eperm = err (Error.io fds.eperm_error)
  sent_result (Answer.failed e) = err (Error.io e)

  unfoldable pub send_verified :
      Signal → Result (Option F) (Error I) → S → Result Done (Error I) × S
  send_verified sig (ok (some fd)) s =
      let (answer, t) = fds.send_signal s fd sig in (sent_result answer, t)
  send_verified sig (ok none) s = (ok tt, s)
  send_verified sig (err e) s = (err e, s)

  -- `kill` and `terminate` of the wait backend.
  unfoldable pub send_by_identity : Signal → ProcessId → S → Result Done (Error I) × S
  send_by_identity sig id s =
      let (fd, t) = open_verified id (codes "no signal was sent") s in send_verified sig fd t

  module _ (sys : GroupSystem S I) where
    -- `check_or_signal_linux_sigkill` from the answer of `open_verified` on.
    unfoldable pub linux_sigkill_opened :
        ℕ → ProcessId → Result (Option F) (Error I) → S → Reached × S
    linux_sigkill_opened pid id (ok none) s = (Reached.reached, s)
    linux_sigkill_opened pid id (ok (some fd)) s =
        let (answer, t) = fds.send_signal s fd Signal.sigkill in (reached_of answer, t)
    linux_sigkill_opened pid id (err (Error.unsupported op platform detail)) s =
        check_or_signal sys pid id (some Signal.sigkill) s
    linux_sigkill_opened pid id (err (Error.io e)) s =
        check_or_signal sys pid id (some Signal.sigkill) s
    linux_sigkill_opened pid id (err e) s = (Reached.uncertain, s)

    unfoldable pub check_or_signal_linux_sigkill : ℕ → ProcessId → S → Reached × S
    check_or_signal_linux_sigkill pid id s =
        let (fd, t) = open_verified id (codes "process-group teardown verification") s in
        linux_sigkill_opened pid id fd t

    abbrev pub linux_signal_group : ℤ → Signal → S → Result Done (Error I) × S
    linux_signal_group pgid sig s =
        signal_group sys check_or_signal_linux_sigkill formats pgid sig s

-- The SIGKILL of the check where there are no process descriptors.
abbrev pub plain_sigkill :
    {S : Type 0} → {I : Type 0} → GroupSystem S I → ℕ → ProcessId → S → Reached × S
plain_sigkill sys pid id s = check_or_signal sys pid id (some Signal.sigkill) s

abbrev pub plain_signal_group :
    {S : Type 0}
    → {I : Type 0} → Formats
    → GroupSystem S I
    → ℤ
    → Signal
    → S
    → Result Done (Error I) × S
plain_signal_group formats sys pgid sig s = signal_group sys (plain_sigkill sys) formats pgid sig s
