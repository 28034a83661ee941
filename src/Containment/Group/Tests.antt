-- ===== src/Containment/Group/Tests.antt =====
-- Teardowns of a group of three: one member dies at the signal, one is dead already, one is alive.
use subprocess.Prelude.{
  ℕ, codes, ◌+◌, true, false, ◌==◌, if◌then◌else◌, List, [], ◌∷◌, some, ◌≡◌, refl, pos, is_positive,
  magnitude, ok,
}
use subprocess.Identity.{Resolved, Liveness, Existence, signal_target}
use subprocess.Containment.Group.{
  Signal, Member, GroupState, Answer, GroupSystem, Formats, tally, decide, report, examine,
  listed_id, outcome_reached, outcome_rechecked, send_to, check_answered, check_or_signal,
  reach_member, classify_member, reconfirm_survivor, excluded_from_sigkill_resend,
}
use subprocess.Containment.Group.Teardown.{
  signalled_from, converge_from, converge, state, verify, signal_group_answered, signal_group,
}
use subprocess.Containment.Group.Members.{Touched}
use subprocess.Containment.Group.Verdict.{Torn}
use subprocess.Containment.Group.Platforms.{
  Opening, PidfdSystem, send_by_identity, plain_sigkill, plain_signal_group,
}
use subprocess.Containment.Group.Listing.{ProcFiles}
use subprocess.Containment.Group.Outcomes.{
  plain_signal_group-Torn, Delivered, send_by_identity-Delivered,
}

abbrev member : ℕ → Member
member n = record { pid = n; token = 100 + n; system = false }

-- The state counts the signals. Pid 33 refuses them; pid 32 is dead.
abbrev host : List Member → GroupSystem ℕ ℕ
host listed = record {
  members = λ s pgid. (ok listed, s);
  is_alive = λ s id. (if id.pid == 32 then Liveness.dead else Liveness.alive, s);
  query = λ s pid. (Resolved.found (record { pid = pid; start = 100 + pid }), s);
  kill = λ s pid sig. (if pid == 33 then Answer.eperm else Answer.delivered, s + 1);
  killpg = λ s pgid sig. (Answer.delivered, s + 1);
}

abbrev fds : PidfdSystem ℕ ℕ ℕ
fds = record {
  pidfd_open = λ s pid. (if pid == 34 then Opening.nosys else Opening.opened pid, s);
  exists = λ s id. (if id.pid == 35 then Existence.gone else Existence.present, s);
  send_signal = λ s fd sig. (Answer.delivered, s + 10);
  eperm_error = 1;
}

abbrev formats : Formats
formats = record { decimal = λ n. n ∷ []; integer = λ n. magnitude n ∷ []; signal = λ sig. [] }

plain-cleared :
    plain_signal_group formats (host (member 31 ∷ member 32 ∷ [])) (pos 30) Signal.sigkill 0
    ≡ (ok tt, 2)
unfolding signal_group signal_group_answered verify state converge converge_from examine tally
    decide report classify_member reach_member check_or_signal check_answered send_to
    reconfirm_survivor outcome_reached outcome_rechecked excluded_from_sigkill_resend listed_id
    signal_target
plain-cleared = refl

-- A member that refuses makes the teardown an error, though the others were reached.
state-refused :
    (state
      (host (member 33 ∷ member 31 ∷ member 1 ∷ []))
      (plain_sigkill (host []))
      formats
      30
      Signal.sigkill
      0).0
    ≡ GroupState.refused (33 ∷ []) (1 ∷ [])
unfolding state converge converge_from examine tally decide classify_member reach_member
    check_or_signal check_answered send_to reconfirm_survivor outcome_reached outcome_rechecked
    excluded_from_sigkill_resend listed_id signal_target
state-refused = refl

plain_signal_group-Torn_example :
    (is_positive (pos 30) ≡ true)
    × Torn ℕ ℕ
        (host (member 31 ∷ member 32 ∷ []))
        (plain_sigkill (host (member 31 ∷ member 32 ∷ [])))
        (λ pid id t. Touched ℕ ℕ (host (member 31 ∷ member 32 ∷ [])) pid id (some Signal.sigkill) t)
        Signal.sigkill
        30
        (signalled_from (host (member 31 ∷ member 32 ∷ [])) Answer.delivered 30 Signal.sigkill 1)
unfolding signal_group signal_group_answered verify state converge converge_from examine tally
    decide report classify_member reach_member check_or_signal check_answered send_to
    reconfirm_survivor outcome_reached outcome_rechecked excluded_from_sigkill_resend listed_id
    signal_target
plain_signal_group-Torn_example =
    plain_signal_group-Torn ℕ ℕ (host (member 31 ∷ member 32 ∷ [])) formats (pos 30) Signal.sigkill
      0 refl

send_by_identity-Delivered_example :
    let r = send_by_identity formats fds Signal.sigterm (record { pid = 31; start = 131 }) 0 in
    Delivered ℕ ℕ ℕ formats fds
      (host [])
      Signal.sigterm
      (record { pid = 31; start = 131 })
      0
      r.0
      r.1
send_by_identity-Delivered_example =
    send_by_identity-Delivered ℕ ℕ ℕ formats fds (host []) Signal.sigterm
      (record { pid = 31; start = 131 }) 0

-- Of three entries of /proc, one is no process and one is in another group.
abbrev files : ProcFiles ℕ
files = record {
  is_utf8 = λ t. true;
  read_dir = ok (ok (codes "self") ∷ ok (codes "31") ∷ ok (codes "32") ∷ []);
  read_stat = λ pid. ok (
      if pid == 31
      then codes "31 (a) b) S 1 30 0 0 0 0 0 0 0 0 0 0 0 0 0 0 0 0 131 0"
      else codes "32 (c) S 1 32 0 0 0 0 0 0 0 0 0 0 0 0 0 0 0 0 132 0");
}
