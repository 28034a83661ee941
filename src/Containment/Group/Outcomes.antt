-- ===== src/Containment/Group/Outcomes.antt =====
-- What the teardown of a group has achieved, on each platform, when it reports success.
use subprocess.Prelude.{
  Result, err, none, sym, subst, codes, ℕ, true, some, ◌≡◌, refl, arith, ok, ℤ, is_positive,
  magnitude,
}
use subprocess.Errors.{Text, Error, Done}
use subprocess.Identity.{ProcessId, Existence}
use subprocess.Containment.Group.{Signal, Reached, Answer, GroupSystem, Formats}
use subprocess.Containment.Group.Members.{Took, Touched, reached_of-Took, check_or_signal-Touched}
use subprocess.Containment.Group.Teardown.{signalled_from}
use subprocess.Containment.Group.Verdict.{Torn, signal_group-Torn}
use subprocess.Containment.Group.Platforms.{
  Opening, PidfdSystem, confirm_opened, opened_verified, open_verified, sent_result, send_verified,
  send_by_identity, linux_sigkill_opened, check_or_signal_linux_sigkill, linux_signal_group,
  plain_sigkill, plain_signal_group,
}

-- If the teardown of a group reports success where there are no process descriptors, the group id was
-- positive, and each member listed after the signal is confirmed: dead; or its pid was found free or
-- with another process; or the very process listed was found there, its pid from 1 to `i32::MAX`, and
-- the kernel took SIGKILL (the probe, for SIGTERM) or knew of no process; or it was dead when asked for
-- again. Neither pid 1 nor a process of the system counts as reached by SIGKILL.
pub plain_signal_group-Torn :
    (S : Type 0) (I : Type 0) (sys : GroupSystem S I) (formats : Formats) (pgid : ℤ) (sig : Signal)
    (s : S)
    → (plain_signal_group formats sys pgid sig s).0 ≡ ok tt
    → (is_positive pgid ≡ true)
      × Torn S I sys
          (plain_sigkill sys)
          (λ pid id t. Touched S I sys pid id (some Signal.sigkill) t)
          sig
          (magnitude pgid)
          (signalled_from sys
            (sys.killpg s (magnitude pgid) sig).0
            (magnitude pgid)
            sig
            (sys.killpg s (magnitude pgid) sig).1)
plain_signal_group-Torn S I sys formats pgid sig s h =
    signal_group-Torn S I sys _ _
      (λ pid id t e. check_or_signal-Touched S I sys pid id (some Signal.sigkill) t e) formats pgid
      sig s h

-- No process descriptor was opened, though the pid is not free.
pub data Unavailable {F : Type 0} {I : Type 0} : Opening F I → Type 0 where
  nosys : Unavailable Opening.nosys
  failed : (e : I) → Unavailable (Opening.failed e)

module _ (S : Type 0) (F : Type 0) (I : Type 0) (formats : Formats) (fds : PidfdSystem S F I)
    (sys : GroupSystem S I) where
  -- What is known once SIGKILL through a process descriptor counts as having reached a process: the pid
  -- was free when it was opened; or it was opened and the identity is gone; or the identity was present
  -- behind the descriptor and the kernel took the signal or knew of no process; or no descriptor could be
  -- opened, and the check by `kill(2)` reached it.
  pub data Pinned (pid : ℕ) (id : ProcessId) (s : S) : Type 0 where
    free : (fds.pidfd_open s id.pid).0 ≡ Opening.srch → Pinned pid id s
    left :
        (fd : F)
        → (fds.pidfd_open s id.pid).0 ≡ Opening.opened fd
        → (fds.exists (fds.pidfd_open s id.pid).1 id).0 ≡ Existence.gone
        → Pinned pid id s
    sent :
        (fd : F)
        → (fds.pidfd_open s id.pid).0 ≡ Opening.opened fd
        → (fds.exists (fds.pidfd_open s id.pid).1 id).0 ≡ Existence.present
        → Took (fds.send_signal (fds.exists (fds.pidfd_open s id.pid).1 id).1 fd Signal.sigkill).0
        → Pinned pid id s
    without :
        Unavailable (fds.pidfd_open s id.pid).0
        → Touched S I sys pid id (some Signal.sigkill) (fds.pidfd_open s id.pid).1
        → Pinned pid id s

  opened-Pinned :
      (pid : ℕ) (id : ProcessId) (s : S) (what : Text) (fd : F) (e : Existence)
      → (fds.pidfd_open s id.pid).0 ≡ Opening.opened fd
      → (fds.exists (fds.pidfd_open s id.pid).1 id).0 ≡ e
      → (linux_sigkill_opened formats fds sys pid id
          (confirm_opened formats fds id what fd e)
          (fds.exists (fds.pidfd_open s id.pid).1 id).1).0
        ≡ Reached.reached
      → Pinned pid id s
  unfolding confirm_opened linux_sigkill_opened
  opened-Pinned pid id s what fd Existence.present o q h = Pinned.sent fd o q (reached_of-Took _ h)
  opened-Pinned pid id s what fd Existence.gone o q h = Pinned.left fd o q
  opened-Pinned pid id s what fd Existence.unknown o q h = ground arith

  answer-Pinned :
      (pid : ℕ) (id : ProcessId) (s : S) (what : Text) (opening : Opening F I)
      → (fds.pidfd_open s id.pid).0 ≡ opening
      → (linux_sigkill_opened formats fds sys pid id
          (opened_verified formats fds id what opening (fds.pidfd_open s id.pid).1).0
          (opened_verified formats fds id what opening (fds.pidfd_open s id.pid).1).1).0
        ≡ Reached.reached
      → Pinned pid id s
  unfolding opened_verified linux_sigkill_opened
  answer-Pinned pid id s what (Opening.opened fd) o h = opened-Pinned pid id s what fd _ o refl h
  answer-Pinned pid id s what Opening.srch o h = Pinned.free o
  answer-Pinned pid id s what Opening.nosys o h =
      Pinned.without (subst Unavailable (sym o) Unavailable.nosys)
        (check_or_signal-Touched S I sys pid id (some Signal.sigkill) _ h)
  answer-Pinned pid id s what (Opening.failed e) o h =
      Pinned.without (subst Unavailable (sym o) (Unavailable.failed e))
        (check_or_signal-Touched S I sys pid id (some Signal.sigkill) _ h)

  check_or_signal_linux_sigkill-Pinned :
      (pid : ℕ) (id : ProcessId) (s : S)
      → (check_or_signal_linux_sigkill formats fds sys pid id s).0 ≡ Reached.reached
      → Pinned pid id s
  unfolding check_or_signal_linux_sigkill open_verified
  check_or_signal_linux_sigkill-Pinned pid id s h = answer-Pinned pid id s _ _ refl h

  -- If the teardown of a group reports success on Linux, the group id was positive, and each member
  -- listed after the signal is confirmed: dead; or SIGKILL reached it through a descriptor behind which
  -- the very identity was present (or it was found gone, or `kill(2)` did, where no descriptor
  -- could be opened); or the probe found it reachable, for SIGTERM; or it was dead when asked for again.
  pub linux_signal_group-Torn :
      (pgid : ℤ) (sig : Signal) (s : S)
      → (linux_signal_group formats fds sys pgid sig s).0 ≡ ok tt
      → (is_positive pgid ≡ true)
        × Torn S I sys (check_or_signal_linux_sigkill formats fds sys) Pinned sig (magnitude pgid) (
            signalled_from sys
              (sys.killpg s (magnitude pgid) sig).0
              (magnitude pgid)
              sig
              (sys.killpg s (magnitude pgid) sig).1)
  linux_signal_group-Torn pgid sig s h =
      signal_group-Torn S I sys _ _ check_or_signal_linux_sigkill-Pinned formats pgid sig s h

  -- What the answer of the kernel to a signal means to the caller.
  pub data Sent : Answer I → Result Done (Error I) → Type 0 where
    took : (a : Answer I) → Took a → Sent a (ok tt)
    forbidden : Sent Answer.eperm (err (Error.io fds.eperm_error))
    failed : (e : I) → Sent (Answer.failed e) (err (Error.io e))

  -- How `kill` and `terminate` by identity end, and in which state. No signal is sent but in `sent`: the
  -- other states are those in which the descriptor was opened or the identity asked for.
  pub data Delivered (sig : Signal) (id : ProcessId) (s : S)
      : Result Done (Error I) → S → Type 0 where
    free :
        (fds.pidfd_open s id.pid).0 ≡ Opening.srch
        → Delivered sig id s (ok tt) (fds.pidfd_open s id.pid).1
    left :
        (fd : F)
        → (fds.pidfd_open s id.pid).0 ≡ Opening.opened fd
        → (fds.exists (fds.pidfd_open s id.pid).1 id).0 ≡ Existence.gone
        → Delivered sig id s (ok tt) (fds.exists (fds.pidfd_open s id.pid).1 id).1
    sent :
        (fd : F) (r : Result Done (Error I))
        → (fds.pidfd_open s id.pid).0 ≡ Opening.opened fd
        → (fds.exists (fds.pidfd_open s id.pid).1 id).0 ≡ Existence.present
        → Sent (fds.send_signal (fds.exists (fds.pidfd_open s id.pid).1 id).1 fd sig).0 r
        → Delivered sig id s r
            (fds.send_signal (fds.exists (fds.pidfd_open s id.pid).1 id).1 fd sig).1
    unassessable :
        (fd : F) (detail : Text)
        → (fds.pidfd_open s id.pid).0 ≡ Opening.opened fd
        → (fds.exists (fds.pidfd_open s id.pid).1 id).0 ≡ Existence.unknown
        → Delivered sig id s
            (err (Error.unassessable detail none))
            (fds.exists (fds.pidfd_open s id.pid).1 id).1
    unsupported :
        (detail : Text)
        → (fds.pidfd_open s id.pid).0 ≡ Opening.nosys
        → Delivered sig id s
            (err (Error.unsupported (codes "foreign process wait/kill") (codes "linux") detail))
            (fds.pidfd_open s id.pid).1
    unopened :
        (e : I)
        → (fds.pidfd_open s id.pid).0 ≡ Opening.failed e
        → Delivered sig id s (err (Error.io e)) (fds.pidfd_open s id.pid).1

  sent_result-Sent : (a : Answer I) → Sent a (sent_result formats fds a)
  unfolding sent_result
  sent_result-Sent Answer.delivered = Sent.took _ Took.delivered
  sent_result-Sent Answer.esrch = Sent.took _ Took.absent
  sent_result-Sent Answer.eperm = Sent.forbidden
  sent_result-Sent (Answer.failed e) = Sent.failed e

  opened-Delivered :
      (sig : Signal) (id : ProcessId) (s : S) (what : Text) (fd : F) (e : Existence)
      → (fds.pidfd_open s id.pid).0 ≡ Opening.opened fd
      → (fds.exists (fds.pidfd_open s id.pid).1 id).0 ≡ e
      → let r =
          send_verified formats fds sig
            (confirm_opened formats fds id what fd e)
            (fds.exists (fds.pidfd_open s id.pid).1 id).1 in
        Delivered sig id s r.0 r.1
  unfolding confirm_opened send_verified
  opened-Delivered sig id s what fd Existence.present o q =
      Delivered.sent fd _ o q (sent_result-Sent _)
  opened-Delivered sig id s what fd Existence.gone o q = Delivered.left fd o q
  opened-Delivered sig id s what fd Existence.unknown o q = Delivered.unassessable fd _ o q

  answer-Delivered :
      (sig : Signal) (id : ProcessId) (s : S) (what : Text) (opening : Opening F I)
      → (fds.pidfd_open s id.pid).0 ≡ opening
      → let v = opened_verified formats fds id what opening (fds.pidfd_open s id.pid).1 in
        let r = send_verified formats fds sig v.0 v.1 in Delivered sig id s r.0 r.1
  unfolding opened_verified send_verified
  answer-Delivered sig id s what (Opening.opened fd) o = opened-Delivered sig id s what fd _ o refl
  answer-Delivered sig id s what Opening.srch o = Delivered.free o
  answer-Delivered sig id s what Opening.nosys o = Delivered.unsupported _ o
  answer-Delivered sig id s what (Opening.failed e) o = Delivered.unopened e o

  -- How `kill` and `terminate` by identity end. A signal is sent only through a descriptor that was opened
  -- for the pid and behind which the identity was then present, and the result tells its answer: success
  -- where the kernel took it or knew of no process. Without a signal, success is reported where the pid
  -- was free or the identity was gone once the descriptor was open, and an error where the identity
  -- could not be confirmed, the kernel has no descriptors or the opening failed.
  pub send_by_identity-Delivered :
      (sig : Signal) (id : ProcessId) (s : S)
      → let r = send_by_identity formats fds sig id s in Delivered sig id s r.0 r.1
  unfolding send_by_identity open_verified
  send_by_identity-Delivered sig id s = answer-Delivered sig id s _ _ refl
