-- ===== src/Containment/Cgroup.antt =====
-- Control groups on Linux: the parsers of the control files and the drain
-- (src/containment/cgroup.rs).
pub mod Events
pub mod Leaf
mod Tests
use subprocess.Prelude.{
  ℕ, zero, suc, ◌+◌, Bool, true, false, ◌||◌, List, [], ◌∷◌, ◌++◌, Option, some, none, ◌==◌,
  if◌then◌else◌, Round, next, halt, Result, ok, err, codes,
}
use mathlib.Core.Option
use subprocess.Errors.{Text, Error, text_eq, em_dash}
use subprocess.Identity.StatParse.{is_space, parse_uint, u32_max}
use subprocess.Containment.Dispatch.{TreeDrain}

-- A carriage return at the end of a line is a part of its end.
unfoldable pub without_return : Text → Text
without_return [] = []
without_return (c ∷ []) = if c == 13 then [] else c ∷ []
without_return (c ∷ d ∷ s) = c ∷ without_return (d ∷ s)

-- `str::lines`, with what is read of the line.
unfoldable pub lines_from : Text → Text → List Text
lines_from [] [] = []
lines_from (c ∷ line) [] = (c ∷ line) ∷ []
lines_from line (c ∷ s) =
    let ended = lines_from [] s in
    let goes_on = lines_from (line ++ c ∷ []) s in
    if c == 10 then without_return line ∷ ended else goes_on

abbrev pub lines : Text → List Text
lines = lines_from []

unfoldable pub strip_prefix : Text → Text → Option Text
strip_prefix [] s = some s
strip_prefix (p ∷ prefix) [] = none
strip_prefix (p ∷ prefix) (c ∷ s) = if p == c then strip_prefix prefix s else none

unfoldable pub trim_start : Text → Text
trim_start [] = []
trim_start (c ∷ s) = if is_space c then trim_start s else c ∷ s

unfoldable pub trim_end : Text → Text
trim_end [] = []
trim_end (c ∷ s) =
    let rest = trim_end s in
    elim rest [ [] ↦ if is_space c then [] else c ∷ [] | d ∷ t ↦ c ∷ d ∷ t ]

abbrev pub trim : Text → Text
trim s = trim_end (trim_start s)

-- The first line with a prefix, without it.
unfoldable pub first_with : Text → List Text → Option Text
first_with prefix [] = none
first_with prefix (line ∷ rest) =
    let later = first_with prefix rest in
    elim (strip_prefix prefix line) [ some s ↦ some s | none ↦ later ]

unfoldable pub parse_v2_relative_path : Text → Option Text
parse_v2_relative_path proc_self_cgroup = first_with (codes "0::") (lines proc_self_cgroup)

abbrev is_pid : ℕ → Option ℕ → Bool
is_pid pid (some p) = p == pid
is_pid pid none = false

unfoldable pub any_pid : ℕ → List Text → Bool
any_pid pid [] = false
any_pid pid (line ∷ rest) = is_pid pid (parse_uint u32_max (trim line)) || any_pid pid rest

unfoldable pub cgroup_procs_contains : Text → ℕ → Bool
cgroup_procs_contains contents pid = any_pid pid (lines contents)

unfoldable pub populated_value : Text → Option Bool
populated_value v =
    if text_eq v (codes "0") then some false else if text_eq v (codes "1") then some true else none

unfoldable pub parse_populated : Text → Option Bool
parse_populated contents =
    Option.bind (first_with (codes "populated ") (lines contents))
      (λ rest. populated_value (trim rest))

-- What `poll` answers.
pub data Polled (I : Type 0) : Type 0 where
  timed_out ready interrupted : Polled I
  poll_failed : I → Polled I

-- The calls on the events file of a leaf, and the clock; `removed` tells ENODEV and ENOENT.
pub record EventsSystem (S : Type 0) (I : Type 0) : Type 0 where
  pub open_events : S → Option I × S
  pub rewind : S → Option I × S
  pub read_all : S → Result Text I × S
  pub remaining : S → Option ℕ × S
  pub poll : S → Option ℕ → Polled I × S
  pub removed : I → Bool
  pub other : Text → I

module _ {S : Type 0} {I : Type 0} (sys : EventsSystem S I) where
  -- An error of the file: a removed leaf has no members.
  unfoldable pub read_failed : I → Result Bool (Error I)
  read_failed e = if sys.removed e then ok false else err (Error.io e)

  unfoldable pub populated_in : Option Bool → Result Bool (Error I)
  populated_in (some b) = ok b
  populated_in none = err (
      Error.io (
        sys.other (
          codes "cgroup.events has no 'populated' field "
          ++ em_dash
          ++ codes " unexpected kernel format")))

  unfoldable pub populated_read : Result Text I → Result Bool (Error I)
  populated_read (ok contents) = populated_in (parse_populated contents)
  populated_read (err e) = read_failed e

  unfoldable pub rewound : Option I → S → Result Bool (Error I) × S
  rewound none s = let (answer, t) = sys.read_all s in (populated_read answer, t)
  rewound (some e) s = (read_failed e, s)

  unfoldable pub read_populated : S → Result Bool (Error I) × S
  read_populated s = let (answer, t) = sys.rewind s in rewound answer t

  abbrev pub DrainRound : Type 0
  DrainRound = Round S (Result TreeDrain (Error I) × S)

  unfoldable pub polled : Polled I → S → DrainRound
  polled timed_out s = halt (ok TreeDrain.members_remain, s)
  polled ready s = next s
  polled interrupted s = next s
  polled (poll_failed e) s = halt (err (Error.io e), s)

  unfoldable pub drain_within : Option ℕ → S → DrainRound
  drain_within (some zero) s = halt (ok TreeDrain.members_remain, s)
  drain_within (some (suc d)) s = let (answer, t) = sys.poll s (some (suc d)) in polled answer t
  drain_within none s = let (answer, t) = sys.poll s none in polled answer t

  unfoldable pub drain_populated : Result Bool (Error I) → S → DrainRound
  drain_populated (ok false) s = halt (ok TreeDrain.all_members_exited, s)
  drain_populated (ok true) s = let (left, t) = sys.remaining s in drain_within left t
  drain_populated (err e) s = halt (err e, s)

  unfoldable pub drain_round : S → DrainRound
  drain_round s = let (answer, t) = read_populated s in drain_populated answer t

  -- The loop on a number of rounds; `none` where these are not enough.
  unfoldable pub drain : ℕ → S → Option (Result TreeDrain (Error I) × S)
  drain zero s = none
  drain (suc rounds) s = elim (drain_round s) [ next t ↦ drain rounds t | halt r ↦ some r ]

  unfoldable pub drain_opened : ℕ → Option I → S → Option (Result TreeDrain (Error I) × S)
  drain_opened rounds none s = drain rounds s
  drain_opened rounds (some e) s =
      some (if sys.removed e then ok TreeDrain.all_members_exited else err (Error.io e), s)

  unfoldable pub wait_drained : ℕ → S → Option (Result TreeDrain (Error I) × S)
  wait_drained rounds s = let (answer, t) = sys.open_events s in drain_opened rounds answer t
