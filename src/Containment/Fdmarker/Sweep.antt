-- ===== src/Containment/Fdmarker/Sweep.antt =====
-- The teardown of a tree by its marker, on macOS (src/containment/fdmarker.rs, second half).
use subprocess.Prelude.{
  ℕ, Bool, true, false, not, ◌&&◌, ◌||◌, List, [], ◌∷◌, ◌++◌, Option, some, none, ltb, ◌==◌,
  if◌then◌else◌, Result, ok, err, codes, ℤ, pos, negsuc,
}
use subprocess.Errors.{Text, Error, Done}
use subprocess.Identity.{ProcessId, Resolved, same_id}
use subprocess.Containment.Treewalk.{Edge, resolve_or_drop, descendants_with}
use subprocess.Containment.Kill.{System, KillOutcome, kill_by_identity}
use subprocess.Containment.Group.{Signal, GroupSystem, Formats}
use subprocess.Containment.Group.Platforms.{plain_signal_group}
use subprocess.Containment.Fdmarker.{MarkerQuery, Holder, ProcSystem}
use subprocess.Containment.Fdmarker.Holding.{holders, holds_marker_query}

-- `Marker`; the read end by its number.
pub record Marker : Type 0 where
  pub read : ℕ
  pub handle : ℕ
  pub read_handle : ℕ
  pub root : Option ProcessId
  pub root_denied : Bool
  pub pgid : Option ℤ

-- The system: libproc, the process table, identities, signals, groups. `answers` is what the walk hears,
-- which asks for each pid once. `display` and `other` are those of errors and of io::Error.
pub record MarkerSystem (S : Type 0) (I : Type 0) : Type 0 where
  pub procs : ProcSystem S
  pub snapshot : S → (List ℕ × List Edge) × S
  pub answers : S → ℕ → Resolved ProcessId
  pub query : S → ℕ → Resolved ProcessId × S
  pub kills : Signal → System S
  pub group : GroupSystem S I
  pub getpgid : S → ℕ → Option ℤ × S
  pub own_pid : ℕ
  pub formats : Formats
  pub display : Error I → Text
  pub hex : ℕ → Text
  pub other : Text → I

-- `is_signalable`.
unfoldable pub is_signalable : ℕ → ℕ → Bool
is_signalable own_pid pid = ltb 1 pid && not (pid == own_pid)

unfoldable pub is_teardown_mechanism_failure : {I : Type 0} → Error I → Bool
is_teardown_mechanism_failure (Error.io e) = true
is_teardown_mechanism_failure (Error.unsupported op platform detail) = true
is_teardown_mechanism_failure (Error.unassessable detail (some source)) = true
is_teardown_mechanism_failure _ = false

-- `HashSet::insert` on a list: whether the identity was not there.
unfoldable pub is_in : ProcessId → List ProcessId → Bool
is_in id [] = false
is_in id (x ∷ xs) = same_id x id || is_in id xs

-- The identities met so far, and those that are new in this pass.
pub record Fresh : Type 0 where
  pub seen : List ProcessId
  pub fresh : List ProcessId

unfoldable pub meet : ProcessId → Fresh → Fresh
meet id f = if is_in id f.seen then f else record { seen = id ∷ f.seen; fresh = f.fresh ++ id ∷ [] }

unfoldable pub meet_all : List ProcessId → Fresh → Fresh
meet_all [] f = f
meet_all (id ∷ ids) f = meet_all ids (meet id f)

abbrev pub same_int : ℤ → ℤ → Bool
same_int (pos a) (pos b) = a == b
same_int (negsuc a) (negsuc b) = a == b
same_int _ _ = false

-- What a sweep carries from pass to pass.
pub record Sweeping (S : Type 0) (I : Type 0) : Type 0 where
  pub seen : List ProcessId
  pub group_result : Result Done (Error I)
  pub incomplete : Bool
  pub host : S

-- The variables of the loop over the holders, and of the loops that kill.
pub record Meeting (S : Type 0) : Type 0 where
  pub met : Fresh
  pub incomplete : Bool
  pub host : S

pub record Killing (S : Type 0) : Type 0 where
  pub progressed : Bool
  pub incomplete : Bool
  pub host : S

-- What a kill that was left undone, or not, makes of the flags.
unfoldable pub after_kill : {S : Type 0} → Bool → S → Killing S → Killing S
after_kill true t k = record { progressed = k.progressed; incomplete = true; host = t }
after_kill false t k = record { progressed = true; incomplete = k.incomplete; host = t }

unfoldable pub is_not_attempted : KillOutcome → Bool
is_not_attempted KillOutcome.not_attempted = true
is_not_attempted KillOutcome.terminated = false
is_not_attempted KillOutcome.already_gone = false

-- Whether the process table could not be read.
abbrev pub is_blind : List ℕ → Bool
is_blind [] = true
is_blind (p ∷ pids) = false

module _ {S : Type 0} {I : Type 0} (sys : MarkerSystem S I) where
  unfoldable pub combine_group_errors : Error I → Error I → Error I
  combine_group_errors first latest =
      let detail : Text = sys.display first ++ (codes "; " ++ sys.display latest) in
      if is_teardown_mechanism_failure first || is_teardown_mechanism_failure latest
      then Error.io (sys.other detail)
      else Error.containment detail

  unfoldable pub merge_group : Result Done (Error I) → Result Done (Error I) → Result Done (Error I)
  merge_group (ok done) latest = latest
  merge_group (err first) (ok done) = err first
  merge_group (err first) (err latest) = err (combine_group_errors first latest)

  unfoldable pub descendants : S → ProcessId → List Edge → List ProcessId
  descendants s root parents =
      elim (descendants_with root parents true (λ pid. resolve_or_drop (sys.answers s pid))) [
        | some ids ↦ ids
        | none ↦ []
      ]

  -- The walk of a pass: the root, and its descendants if the table was read.
  unfoldable pub walk_from : Option ProcessId → Bool → List Edge → S → Fresh → Fresh
  walk_from none blind parents s f = f
  walk_from (some root) true parents s f = meet root f
  walk_from (some root) false parents s f = meet_all (descendants s root parents) (meet root f)

  unfoldable pub meet_answered : Resolved ProcessId → S → Meeting S → Meeting S
  meet_answered (Resolved.found id) t m = record {
    met = meet id m.met;
    incomplete = m.incomplete;
    host = t;
  }
  meet_answered Resolved.gone t m = record { met = m.met; incomplete = m.incomplete; host = t }
  meet_answered Resolved.unknown t m = record { met = m.met; incomplete = true; host = t }

  unfoldable pub meet_holder : Holder → Meeting S → Meeting S
  meet_holder h m =
      if not (is_signalable sys.own_pid h.pid)
      then m
      else let (answer, t) = sys.query m.host h.pid in meet_answered answer t m

  unfoldable pub meet_holders : List Holder → Meeting S → Meeting S
  meet_holders [] m = m
  meet_holders (h ∷ hs) m = meet_holders hs (meet_holder h m)

  -- `any`, which stops at the first live member.
  unfoldable pub confirms_pgid : ℤ → List Holder → S → Bool × S
  confirms_pgid pgid [] s = (false, s)
  confirms_pgid pgid (h ∷ hs) s =
      let (answer, t) = sys.getpgid s h.pid in
      let skipped = confirms_pgid pgid hs s in
      let rest = confirms_pgid pgid hs t in
      if not (is_signalable sys.own_pid h.pid)
      then skipped
      else elim answer [ some g ↦ if same_int g pgid then (true, t) else rest | none ↦ rest ]

  unfoldable pub live_holder : Bool → Option ℤ → List Holder → S → Bool × S
  live_holder true pgid hs s = (false, s)
  live_holder false none hs s = (false, s)
  live_holder false (some pgid) hs s = confirms_pgid pgid hs s

  unfoldable pub fire_group : Option ℤ → Signal → S → Result Done (Error I) × S
  fire_group none sig s = (ok tt, s)
  fire_group (some pgid) sig s = plain_signal_group sys.formats sys.group pgid sig s

  unfoldable pub group_pass :
      Bool → Option ℤ → Signal → Result Done (Error I) → S → Result Done (Error I) × S
  group_pass false pgid sig before s = (before, s)
  group_pass true pgid sig before s =
      let (latest, t) = fire_group pgid sig s in (merge_group before latest, t)

  unfoldable pub kill_walk : Signal → List ProcessId → Killing S → Killing S
  kill_walk sig [] k = k
  kill_walk sig (id ∷ ids) k =
      let killing = kill_by_identity (sys.kills sig) id k.host in
      kill_walk sig ids (after_kill (is_not_attempted killing.outcome) killing.left k)

  -- `kill_holder`: whether the holder was left as it is for want of an answer or of leave.
  unfoldable pub kill_holder_asked : Signal → ProcessId → MarkerQuery → S → Bool × S
  kill_holder_asked sig id MarkerQuery.not_held s = (false, s)
  kill_holder_asked sig id MarkerQuery.denied s = (true, s)
  kill_holder_asked sig id MarkerQuery.held s =
      let killing = kill_by_identity (sys.kills sig) id s in
      (is_not_attempted killing.outcome, killing.left)

  unfoldable pub kill_holder : ℕ → Signal → ProcessId → S → Bool × S
  kill_holder handle sig id s =
      let (answer, t) = holds_marker_query sys.procs id.pid handle s in
      kill_holder_asked sig id answer t

  unfoldable pub kill_holders : ℕ → Signal → List ProcessId → Killing S → Killing S
  kill_holders handle sig [] k = k
  kill_holders handle sig (id ∷ ids) k =
      let (left_undone, t) = kill_holder handle sig id k.host in
      kill_holders handle sig ids (after_kill left_undone t k)

  unfoldable pub pass_holders : Marker → Bool → List ℕ → S → List Holder × S
  pass_holders marker true pids s = ([], s)
  pass_holders marker false pids s = holders sys.procs marker.handle pids s
