-- ===== src/Containment/Group/Listing.antt =====
-- The members of a process group on Linux, from /proc (src/containment/unix/group.rs).
use subprocess.Prelude.{
  ℕ, Bool, true, false, List, [], ◌∷◌, Option, some, none, ◌==◌, if◌then◌else◌, ◌≡◌, refl, ap, ◌∙◌,
  arith, Result, ok, err, All,
}
use subprocess.Errors.{Text}
use subprocess.Identity.StatParse.{parse_pgrp, parse_starttime_jiffies, parse_uint, u32_max}
use subprocess.Containment.Group.{Member}

-- `/proc`: its entries' names, as `read_dir` gives them, and the stat file of a pid.
pub record ProcFiles (I : Type 0) : Type 0 where
  pub is_utf8 : Text → Bool
  pub read_dir : Result (List (Result Text I)) I
  pub read_stat : ℕ → Result Text I

module _ {I : Type 0} (files : ProcFiles I) (pgid : ℕ) where
  unfoldable pub pid_of_name : Text → Option ℕ
  pid_of_name name = if files.is_utf8 name then parse_uint u32_max name else none

  unfoldable pub member_with : ℕ → Option ℕ → Option Member
  member_with pid none = none
  member_with pid (some token) = some (record { pid = pid; token = token; system = false })

  unfoldable pub member_in : ℕ → Text → Option ℕ → Option Member
  member_in pid stat none = none
  member_in pid stat (some g) =
      if g == pgid then member_with pid (parse_starttime_jiffies files.is_utf8 stat) else none

  unfoldable pub member_read : ℕ → Result Text I → Option Member
  member_read pid (err e) = none
  member_read pid (ok stat) = member_in pid stat (parse_pgrp files.is_utf8 stat)

  unfoldable pub member_at : Option ℕ → Option Member
  member_at none = none
  member_at (some pid) = member_read pid (files.read_stat pid)

  unfoldable pub push_member : Option Member → Result (List Member) I → Result (List Member) I
  push_member none rest = rest
  push_member (some m) (ok ms) = ok (m ∷ ms)
  push_member (some m) (err e) = err e

  -- The loop over the entries: a failure of the iteration fails the listing.
  unfoldable pub members_from : List (Result Text I) → Result (List Member) I
  members_from [] = ok []
  members_from (err e ∷ entries) = err e
  members_from (ok name ∷ entries) =
      push_member (member_at (pid_of_name name)) (members_from entries)

  unfoldable pub members_in : Result (List (Result Text I)) I → Result (List Member) I
  members_in (err e) = err e
  members_in (ok entries) = members_from entries

  unfoldable pub members : Result (List Member) I
  members = members_in files.read_dir

-- A listed process was read as a member of the group, with its start token.
pub record IsMember {I : Type 0} (files : ProcFiles I) (pgid : ℕ) (m : Member) : Type 0 where
  pub stat : Text
  pub was_read : files.read_stat m.pid ≡ ok stat
  pub in_group : parse_pgrp files.is_utf8 stat ≡ some pgid
  pub has_token : parse_starttime_jiffies files.is_utf8 stat ≡ some m.token
  pub ordinary : m.system ≡ false

module _ (I : Type 0) (files : ProcFiles I) (pgid : ℕ) where
  -- Where a member is found, it is one.
  abbrev IsFound : Option Member → Type 0
  IsFound none = Unit
  IsFound (some m) = IsMember files pgid m

  member_with-IsFound :
      (pid : ℕ) (stat : Text) (token : Option ℕ)
      → files.read_stat pid ≡ ok stat
      → parse_pgrp files.is_utf8 stat ≡ some pgid
      → parse_starttime_jiffies files.is_utf8 stat ≡ token
      → IsFound (member_with files pgid pid token)
  unfolding member_with
  member_with-IsFound pid stat none r g t = tt
  member_with-IsFound pid stat (some token) r g t = record {
    stat = stat;
    was_read = r;
    in_group = g;
    has_token = t;
    ordinary = refl;
  }

  member_in-IsFound :
      (pid : ℕ) (stat : Text) (g : Option ℕ)
      → files.read_stat pid ≡ ok stat
      → parse_pgrp files.is_utf8 stat ≡ g
      → IsFound (member_in files pgid pid stat g)
  unfolding member_in
  member_in-IsFound pid stat none r e = tt
  member_in-IsFound pid stat (some g) r e = go (g == pgid) refl
    where
      go :
          (b : Bool)
          → (g == pgid) ≡ b
          → IsFound (
              if b
              then member_with files pgid pid (parse_starttime_jiffies files.is_utf8 stat)
              else none)
      go true x =
          let same : g ≡ pgid = ground arith in
          member_with-IsFound pid stat _ r (e ∙ ap some same) refl
      go false x = tt

  member_at-IsFound : (pid : Option ℕ) → IsFound (member_at files pgid pid)
  unfolding member_at member_read
  member_at-IsFound none = tt
  member_at-IsFound (some pid) = go (files.read_stat pid) refl
    where
      go : (r : Result Text I) → files.read_stat pid ≡ r → IsFound (member_read files pgid pid r)
      go (ok stat) e = member_in-IsFound pid stat _ e refl
      go (err i) e = tt

  abbrev AreFound : Result (List Member) I → Type 0
  AreFound (ok ms) = All (IsMember files pgid) ms
  AreFound (err e) = Unit

  push_member-AreFound :
      (o : Option Member) (r : Result (List Member) I)
      → IsFound o
      → AreFound r
      → AreFound (push_member files pgid o r)
  unfolding push_member
  push_member-AreFound none r h k = k
  push_member-AreFound (some m) (ok ms) h k = (h, k)
  push_member-AreFound (some m) (err e) h k = tt

  members_from-AreFound :
      (entries : List (Result Text I)) → AreFound (members_from files pgid entries)
  unfolding members_from
  members_from-AreFound [] = tt
  members_from-AreFound (err e ∷ entries) = tt
  members_from-AreFound (ok name ∷ entries) =
      push_member-AreFound _ _ (member_at-IsFound _) (members_from-AreFound entries)

  -- Each member that the listing of a group returns has a stat line that could be read, whose group is
  -- the one listed and whose start token is the member's.
  pub members-AreFound : AreFound (members files pgid)
  unfolding members members_in
  members-AreFound = go files.read_dir
    where
      go : (r : Result (List (Result Text I)) I) → AreFound (members_in files pgid r)
      go (ok entries) = members_from-AreFound entries
      go (err e) = tt
