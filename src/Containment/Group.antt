-- ===== src/Containment/Group.antt =====
-- Signals to a process group, confirmed against its members (src/containment/unix.rs and
-- src/containment/unix/group.rs).
pub mod Teardown
pub mod Members
pub mod Verdict
pub mod Platforms
pub mod Outcomes
pub mod Listing
mod Tests
use subprocess.Prelude.{
  ℕ, Bool, true, false, ◌&&◌, ◌||◌, not, List, [], ◌∷◌, ◌++◌, map, Option, some, none, ◌==◌,
  if◌then◌else◌, codes, Result, ok, err, ℤ, pos, negsuc, is_positive, magnitude, length,
}
use subprocess.Errors.{Text, Error, Done}
use subprocess.Identity.{ProcessId, Resolved, Liveness, same_id, signal_target}

pub data Signal : Type 0 where
  sigkill sigterm : Signal

abbrev pub is_sigkill : Signal → Bool
is_sigkill Signal.sigkill = true
is_sigkill Signal.sigterm = false

pub record Member : Type 0 where
  pub pid : ℕ
  pub token : ℕ
  pub system : Bool

pub data GroupState (I : Type 0) : Type 0 where
  cleared : GroupState I
  refused : List ℕ → List ℕ → GroupState I
  unlistable : Text → Option I → GroupState I

pub data Reached : Type 0 where
  reached missed uncertain : Reached

pub data MemberOutcome : Type 0 where
  not_a_survivor : MemberOutcome
  survivor unassessable : ℕ → MemberOutcome

-- What `kill(2)` and `killpg(2)` answer: success, or an errno, as far as the code tells them apart.
pub data Answer (I : Type 0) : Type 0 where
  delivered esrch eperm : Answer I
  failed : I → Answer I

-- The system, under a state `S`. `kill` with no signal is the probe; `members` lists the group.
pub record GroupSystem (S : Type 0) (I : Type 0) : Type 0 where
  pub members : S → ℕ → Result (List Member) I × S
  pub is_alive : S → ProcessId → Liveness × S
  pub query : S → ℕ → Resolved ProcessId × S
  pub kill : S → ℕ → Option Signal → Answer I × S
  pub killpg : S → ℕ → Signal → Answer I × S

-- How std and nix write a number and a signal.
pub record Formats : Type 0 where
  pub decimal : ℕ → Text
  pub integer : ℤ → Text
  pub signal : Signal → Text

abbrev pub reached_of : {I : Type 0} → Answer I → Reached
reached_of Answer.delivered = Reached.reached
reached_of Answer.esrch = Reached.reached
reached_of Answer.eperm = Reached.missed
reached_of (Answer.failed e) = Reached.uncertain

unfoldable pub excluded_from_sigkill_resend : ℕ → Bool → Bool
excluded_from_sigkill_resend pid system = pid == 1 || system

unfoldable pub listed_id : Member → ProcessId
listed_id m = record { pid = m.pid; start = m.token }

unfoldable pub outcome_reached : ℕ → Reached → MemberOutcome
outcome_reached pid Reached.reached = MemberOutcome.not_a_survivor
outcome_reached pid Reached.missed = MemberOutcome.survivor pid
outcome_reached pid Reached.uncertain = MemberOutcome.unassessable pid

unfoldable pub outcome_rechecked : ℕ → Liveness → MemberOutcome
outcome_rechecked pid Liveness.dead = MemberOutcome.not_a_survivor
outcome_rechecked pid _ = MemberOutcome.survivor pid

unfoldable pub tally : MemberOutcome → List ℕ → List ℕ → List ℕ × List ℕ
tally MemberOutcome.not_a_survivor rs us = (rs, us)
tally (MemberOutcome.survivor pid) rs us = (rs ++ pid ∷ [], us)
tally (MemberOutcome.unassessable pid) rs us = (rs, us ++ pid ∷ [])

-- `map(to_string)` and `join(", ")`.
unfoldable pub join_pids : Formats → List ℕ → Text
join_pids formats [] = []
join_pids formats (p ∷ []) = formats.decimal p
join_pids formats (p ∷ q ∷ pids) = formats.decimal p ++ (codes ", " ++ join_pids formats (q ∷ pids))

unfoldable pub decide : {I : Type 0} → Formats → ℕ → Signal → List ℕ → List ℕ → GroupState I
decide formats pgid sig (p ∷ rs) us = GroupState.refused (p ∷ rs) us
decide formats pgid sig [] (p ∷ us) =
    GroupState.unlistable
      (formats.decimal (length (p ∷ us))
        ++ (codes " member(s) of process group "
            ++ (formats.decimal pgid
                ++ (codes " could not be assessed after "
                    ++ (formats.signal sig
                        ++ (codes " (pid " ++ (join_pids formats (p ∷ us) ++ codes ")")))))))
      none
decide formats pgid sig [] [] = GroupState.cleared

-- The further text of `verify` on members that could not be assessed.
unfoldable pub unassessed_text : Formats → List ℕ → Text
unassessed_text formats [] = []
unassessed_text formats (p ∷ us) =
    codes "; additionally, "
    ++ (formats.decimal (length (p ∷ us))
        ++ (codes " member(s) could not be assessed at all (pid "
            ++ (join_pids formats (p ∷ us) ++ codes ")")))

unfoldable pub report : {I : Type 0} → Formats → ℕ → Signal → GroupState I → Result Done (Error I)
report formats pgid sig GroupState.cleared = ok tt
report formats pgid sig (GroupState.refused rs us) = err (
    Error.containment (
      formats.signal sig
      ++ (codes " did not clear "
          ++ (formats.decimal (length rs)
              ++ (codes " member(s) of process group "
                  ++ (formats.decimal pgid
                      ++ (codes " (pid "
                          ++ (join_pids formats rs
                              ++ (codes
                                    "); the tree is still up and this process cannot bring it down"
                                  ++ unassessed_text formats us)))))))))
report formats pgid sig (GroupState.unlistable detail source) =
    err (Error.unassessable detail source)

module _ {S : Type 0} {I : Type 0} (sys : GroupSystem S I) where
  unfoldable pub send_to : Option ℕ → Option Signal → S → Reached × S
  send_to none sig s = (Reached.uncertain, s)
  send_to (some target) sig s = let (answer, t) = sys.kill s target sig in (reached_of answer, t)

  unfoldable pub check_answered :
      ℕ → ProcessId → Option Signal → Resolved ProcessId → S → Reached × S
  check_answered pid id sig (Resolved.found live) s =
      if same_id live id then send_to (signal_target pid) sig s else (Reached.reached, s)
  check_answered pid id sig Resolved.gone s = (Reached.reached, s)
  check_answered pid id sig Resolved.unknown s = (Reached.uncertain, s)

  unfoldable pub check_or_signal : ℕ → ProcessId → Option Signal → S → Reached × S
  check_or_signal pid id sig s =
      let (answer, t) = sys.query s pid in check_answered pid id sig answer t

  -- `resend` is the check with SIGKILL of the platform.
  module _ (resend : ℕ → ProcessId → S → Reached × S) where
    -- The closure that `converge` gives to `classify_member`.
    unfoldable pub reach_member : Signal → Member → S → Reached × S
    reach_member sig m s =
        if is_sigkill sig && excluded_from_sigkill_resend m.pid m.system
        then (Reached.uncertain, s)
        else if is_sigkill sig
        then resend m.pid (listed_id m) s
        else check_or_signal m.pid (listed_id m) none s

    unfoldable pub classify_member : Signal → Member → Liveness → S → MemberOutcome × S
    classify_member sig m Liveness.dead s = (MemberOutcome.not_a_survivor, s)
    classify_member sig m liveness s =
        let (answer, t) = reach_member sig m s in (outcome_reached m.pid answer, t)

    unfoldable pub reconfirm_survivor : ProcessId → MemberOutcome → S → MemberOutcome × S
    reconfirm_survivor id (MemberOutcome.survivor pid) s =
        let (liveness, t) = sys.is_alive s id in (outcome_rechecked pid liveness, t)
    reconfirm_survivor id outcome s = (outcome, s)

    -- One round of the loop of `converge`.
    unfoldable pub examine : Signal → Member → S → MemberOutcome × S
    examine sig m s =
        let (liveness, t) = sys.is_alive s (listed_id m) in
        let (outcome, u) = classify_member sig m liveness t in
        reconfirm_survivor (listed_id m) outcome u
