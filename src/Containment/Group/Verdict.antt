-- ===== src/Containment/Group/Verdict.antt =====
-- When the teardown of a group reports success.
use subprocess.Prelude.{
  ℕ, Bool, true, false, not, List, [], ◌∷◌, ◌++◌, some, ◌≡◌, refl, sym, ap, ◌∙◌, arith,
  if◌then◌else◌, codes, Result, ok, err, ℤ, is_positive, magnitude,
}
use subprocess.Errors.{Error, Done}
use subprocess.Identity.{ProcessId}
use subprocess.Containment.Group.{
  Signal, Member, GroupState, Reached, MemberOutcome, Answer, GroupSystem, Formats, tally, decide,
  report, examine,
}
use subprocess.Containment.Group.Teardown.{
  signalled_from, converge_from, converge, state, verify, signal_group_answered, signal_group,
}
use subprocess.Containment.Group.Members.{Confirmed, examine-Confirmed}

-- A member that is counted leaves a list that is not empty.
append-single_lem : (rs : List ℕ) (pid : ℕ) → rs ++ pid ∷ [] ≡ [] → ⊥
append-single_lem [] pid h = ground arith
append-single_lem (r ∷ rs) pid h = ground arith

tally-nil :
    (o : MemberOutcome) (rs : List ℕ) (us : List ℕ)
    → (tally o rs us).0 ≡ []
    → (tally o rs us).1 ≡ []
    → (rs ≡ []) × (us ≡ []) × (o ≡ MemberOutcome.not_a_survivor)
unfolding tally
tally-nil MemberOutcome.not_a_survivor rs us h k = (h, k, refl)
tally-nil (MemberOutcome.survivor pid) rs us h k = elim (append-single_lem rs pid h) [ ]
tally-nil (MemberOutcome.unassessable pid) rs us h k = elim (append-single_lem us pid k) [ ]

-- Past a guard that would have given another result.
not_guarded :
    {A : Type 0}
    → {B : Type 0} → (b : Bool) (x : A × B) (y : A × B) (z : A) → (if not b then x else y).0 ≡ z
    → ¬ (x.0 ≡ z)
    → (b ≡ true) × (y.0 ≡ z)
not_guarded true x y z h n = (refl, h)
not_guarded false x y z h n = elim (n h) [ ]

module _ (S : Type 0) (I : Type 0) (sys : GroupSystem S I)
    (resend : ℕ → ProcessId → S → Reached × S) (Hit : ℕ → ProcessId → S → Type 0) where
  -- Every member is confirmed, one after another.
  abbrev pub Confirms : Signal → List Member → S → Type 0
  Confirms sig [] s = Unit
  Confirms sig (m ∷ listed) s =
      Confirmed S I sys resend Hit sig m s × Confirms sig listed (examine sys resend sig m s).1

  -- The members of a group that a listing, taken from a state, gives, and what the teardown has of
  -- each of them.
  pub record Torn (sig : Signal) (pgid : ℕ) (s : S) : Type 0 where
    pub listed : List Member
    pub was_listed : (sys.members s pgid).0 ≡ ok listed
    pub confirms : Confirms sig listed (sys.members s pgid).1

  module _
      (resend-Hit : (pid : ℕ) (id : ProcessId) (s : S)
        → (resend pid id s).0 ≡ Reached.reached
        → Hit pid id s) where
    -- What the loop has counted stays counted.
    converge_from-grows :
        (sig : Signal) (listed : List Member) (rs : List ℕ) (us : List ℕ) (s : S)
        → (converge_from sys resend sig listed rs us s).0 ≡ ([], [])
        → (rs ≡ []) × (us ≡ [])
    unfolding converge_from
    converge_from-grows sig [] rs us s h = (ap (λ p. p.0) h, ap (λ p. p.1) h)
    converge_from-grows sig (m ∷ listed) rs us s h =
        let both = converge_from-grows sig listed _ _ _ h in
        let all = tally-nil (examine sys resend sig m s).0 rs us both.0 both.1 in (all.0, all.1)

    converge_from-Confirms :
        (sig : Signal) (listed : List Member) (rs : List ℕ) (us : List ℕ) (s : S)
        → (converge_from sys resend sig listed rs us s).0 ≡ ([], [])
        → Confirms sig listed s
    unfolding converge_from
    converge_from-Confirms sig [] rs us s h = tt
    converge_from-Confirms sig (m ∷ listed) rs us s h =
        let both = converge_from-grows sig listed _ _ _ h in
        let all = tally-nil (examine sys resend sig m s).0 rs us both.0 both.1 in
        (
          examine-Confirmed S I sys resend Hit resend-Hit sig m s all.2,
          converge_from-Confirms sig listed _ _ _ h,
        )

    report-decide :
        (formats : Formats) (pgid : ℕ) (sig : Signal) (rs : List ℕ) (us : List ℕ)
        → report {I = I} formats pgid sig (decide formats pgid sig rs us) ≡ ok tt
        → (rs ≡ []) × (us ≡ [])
    unfolding report decide
    report-decide formats pgid sig [] [] h = (refl, refl)
    report-decide formats pgid sig [] (u ∷ us) h = ground arith
    report-decide formats pgid sig (r ∷ rs) us h = ground arith

    -- What `verify` reports on a listing.
    abbrev verdict : Formats → ℕ → Signal → S → Result (List Member) I → Result Done (Error I)
    verdict formats pgid sig t (ok listed) = report formats pgid sig (
        decide formats pgid sig (converge_from sys resend sig listed [] [] t).0.0
          (converge_from sys resend sig listed [] [] t).0.1)
    verdict formats pgid sig t (err i) = report formats pgid sig (
        GroupState.unlistable
          (codes "process group "
            ++ (formats.decimal pgid
                ++ (codes " could not be listed after " ++ formats.signal sig)))
          (some i))

    verify-verdict :
        (formats : Formats) (pgid : ℕ) (sig : Signal) (s : S) (listing : Result (List Member) I)
        → (sys.members s pgid).0 ≡ listing
        → (verify sys resend formats pgid sig s).0
          ≡ verdict formats pgid sig (sys.members s pgid).1 listing
    unfolding verify state converge
    verify-verdict formats pgid sig s (ok listed) e = rw (e, verify, state, converge) refl
    verify-verdict formats pgid sig s (err i) e = rw (e, verify, state, converge) refl

    verdict-Torn :
        (formats : Formats) (pgid : ℕ) (sig : Signal) (s : S) (listing : Result (List Member) I)
        → (sys.members s pgid).0 ≡ listing
        → verdict formats pgid sig (sys.members s pgid).1 listing ≡ ok tt
        → Torn sig pgid s
    unfolding report
    verdict-Torn formats pgid sig s (ok listed) e h =
        let both = report-decide formats pgid sig _ _ h in
        record {
          listed = listed;
          was_listed = e;
          confirms = converge_from-Confirms sig listed [] [] _ (λ i. (both.0 i, both.1 i));
        }
    verdict-Torn formats pgid sig s (err i) e h = ground arith

    pub verify-Torn :
        (formats : Formats) (pgid : ℕ) (sig : Signal) (s : S)
        → (verify sys resend formats pgid sig s).0 ≡ ok tt
        → Torn sig pgid s
    verify-Torn formats pgid sig s h =
        verdict-Torn formats pgid sig s _ refl (sym (verify-verdict formats pgid sig s _ refl) ∙ h)

    answered-Torn :
        (formats : Formats) (pgid : ℕ) (sig : Signal) (answer : Answer I) (s : S)
        → (signal_group_answered sys resend formats pgid sig answer s).0 ≡ ok tt
        → Torn sig pgid (signalled_from sys answer pgid sig s)
    unfolding signal_group_answered signalled_from
    answered-Torn formats pgid sig Answer.delivered s h = verify-Torn formats pgid sig s h
    answered-Torn formats pgid sig Answer.esrch s h = verify-Torn formats pgid sig s h
    answered-Torn formats pgid sig Answer.eperm s h = verify-Torn formats pgid sig _ h
    answered-Torn formats pgid sig (Answer.failed e) s h = ground arith

    -- If the teardown of a group reports success, the group id was positive, and every member that the
    -- listing after the signal gives is confirmed: dead, reached by the check, or dead when asked for
    -- again. A listing that failed, or a member that could not be assessed, never reports success.
    pub signal_group-Torn :
        (formats : Formats) (pgid : ℤ) (sig : Signal) (s : S)
        → (signal_group sys resend formats pgid sig s).0 ≡ ok tt
        → (is_positive pgid ≡ true)
          × Torn sig (magnitude pgid) (
              signalled_from sys
                (sys.killpg s (magnitude pgid) sig).0
                (magnitude pgid)
                sig
                (sys.killpg s (magnitude pgid) sig).1)
    unfolding signal_group
    signal_group-Torn formats pgid sig s h =
        let both = not_guarded (is_positive pgid) _ _ _ h (ground arith) in
        (both.0, answered-Torn formats (magnitude pgid) sig _ _ both.1)
