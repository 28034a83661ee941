-- ===== src/Containment/Group/Teardown.antt =====
-- The teardown of a group: the loop over its members, and the verdict (src/containment/unix.rs and
-- src/containment/unix/group.rs).
use subprocess.Prelude.{
  ℕ, not, List, [], ◌∷◌, ◌++◌, some, none, if◌then◌else◌, codes, Result, ok, err, ℤ, is_positive,
  magnitude,
}
use subprocess.Errors.{Error, Done}
use subprocess.Identity.{ProcessId}
use subprocess.Containment.Group.{
  Signal, Member, GroupState, Reached, Answer, GroupSystem, Formats, tally, decide, report, examine,
}

-- The state in which the members are listed: after `killpg`, and after the signal to the leader if
-- `killpg` was refused.
unfoldable pub signalled_from :
    {S : Type 0} → {I : Type 0} → GroupSystem S I → Answer I → ℕ → Signal → S → S
signalled_from sys Answer.eperm pgid sig s = (sys.kill s pgid (some sig)).1
signalled_from sys answer pgid sig s = s

module _ {S : Type 0} {I : Type 0} (sys : GroupSystem S I)
    (resend : ℕ → ProcessId → S → Reached × S) where
  -- The loop: the survivors and the unassessable members so far.
  unfoldable pub converge_from : Signal → List Member → List ℕ → List ℕ → S → (List ℕ × List ℕ) × S
  converge_from sig [] rs us s = ((rs, us), s)
  converge_from sig (m ∷ listed) rs us s =
      let (outcome, t) = examine sys resend sig m s in
      let (r, u) = tally outcome rs us in converge_from sig listed r u t

  unfoldable pub converge : Formats → ℕ → Signal → S → Result (GroupState I) I × S
  converge formats pgid sig s =
      let (listing, t) = sys.members s pgid in
      elim listing [
        | ok listed ↦
            let ((rs, us), u) = converge_from sig listed [] [] t in
            (ok (decide formats pgid sig rs us), u)
        | err e ↦ (err e, t)
      ]

  unfoldable pub state : Formats → ℕ → Signal → S → GroupState I × S
  state formats pgid sig s =
      let (result, t) = converge formats pgid sig s in
      (
        elim result [
          | ok gs ↦ gs
          | err e ↦
              GroupState.unlistable
                (codes "process group "
                  ++ (formats.decimal pgid
                      ++ (codes " could not be listed after " ++ formats.signal sig)))
                (some e)
        ],
        t,
      )

  -- `verify` on the state of the group.
  unfoldable pub verify : Formats → ℕ → Signal → S → Result Done (Error I) × S
  verify formats pgid sig s =
      let (gs, t) = state formats pgid sig s in (report formats pgid sig gs, t)

  unfoldable pub signal_group_answered :
      Formats → ℕ → Signal → Answer I → S → Result Done (Error I) × S
  signal_group_answered formats pgid sig Answer.delivered s = verify formats pgid sig s
  signal_group_answered formats pgid sig Answer.esrch s = verify formats pgid sig s
  signal_group_answered formats pgid sig Answer.eperm s =
      verify formats pgid sig (sys.kill s pgid (some sig)).1
  signal_group_answered formats pgid sig (Answer.failed e) s = (err (Error.io e), s)

  unfoldable pub signal_group : Formats → ℤ → Signal → S → Result Done (Error I) × S
  signal_group formats pgid sig s =
      if not (is_positive pgid)
      then (
        err (
            Error.unassessable
              (codes "process group "
                ++ (formats.integer pgid
                    ++ codes
                        " is not a valid group id to signal (0 addresses this process's own group; negative wraps to a broadcast or double-negation hazard)"))
              none),
        s,
      )
      else let (answer, t) = sys.killpg s (magnitude pgid) sig in
        signal_group_answered formats (magnitude pgid) sig answer t
