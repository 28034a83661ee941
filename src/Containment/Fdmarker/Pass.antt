-- ===== src/Containment/Fdmarker/Pass.antt =====
-- A pass of the sweep, and the teardowns made of passes (src/containment/fdmarker.rs).
use subprocess.Prelude.{
  ℕ, zero, suc, Bool, true, false, ◌||◌, List, [], ◌++◌, Option, some, none, ◌==◌, if◌then◌else◌,
  Result, ok, err, codes,
}
use subprocess.Errors.{em_dash, Error, Done}
use subprocess.Identity.{ProcessId}
use subprocess.Containment.Treewalk.{Edge}
use subprocess.Containment.Group.{Signal}
use subprocess.Containment.Fdmarker.{FdPipeInfoQuery, Holder, fd_pipe_info}
use subprocess.Containment.Fdmarker.Sweep.{
  Marker, MarkerSystem, Fresh, Sweeping, Meeting, Killing, combine_group_errors, walk_from,
  meet_holders, live_holder, group_pass, kill_walk, kill_holders, is_blind, pass_holders,
}

module _ {S : Type 0} {I : Type 0} (sys : MarkerSystem S I) (marker : Marker) where
  -- The end of a pass: whether it has got on, and what it leaves.
  unfoldable pub killed : List ProcessId → Result Done (Error I) → Killing S → Bool × Sweeping S I
  killed seen group k = (
    k.progressed,
    record { seen = seen; group_result = group; incomplete = k.incomplete; host = k.host },
  )

  unfoldable pub kill_met :
      Signal
      → List ProcessId
      → List ProcessId
      → List ProcessId
      → Result Done (Error I)
      → Bool
      → S
      → Bool × Sweeping S I
  kill_met sig [] [] seen group incomplete s =
      (false, record { seen = seen; group_result = group; incomplete = incomplete; host = s })
  kill_met sig walk met seen group incomplete s = killed seen group (
      kill_holders sys marker.handle sig met
        (kill_walk sys sig walk (record { progressed = false; incomplete = incomplete; host = s })))

  -- The identities that the walk of a pass meets.
  unfoldable pub pass_walk : Sweeping S I → List ℕ → List Edge → S → Fresh
  pass_walk w pids parents s =
      walk_from sys marker.root (is_blind pids) parents s (record { seen = w.seen; fresh = [] })

  -- The identities of the holders that a pass finds, after its walk.
  unfoldable pub pass_meeting : Sweeping S I → List ℕ → List Edge → S → List Holder → S → Meeting S
  pass_meeting w pids parents s hs t = meet_holders sys hs (record {
    met = record { seen = (pass_walk w pids parents s).seen; fresh = [] };
    incomplete = (w.incomplete || is_blind pids) || marker.root_denied;
    host = t;
  })

  unfoldable pub pass_read :
      Signal → Bool → Sweeping S I → List ℕ → List Edge → S → Bool × Sweeping S I
  pass_read sig first_pass w pids parents s =
      let (hs, t) = pass_holders sys marker (is_blind pids) pids s in
      let m = pass_meeting w pids parents s hs t in
      let (confirmed, u) = live_holder sys (is_blind pids) marker.pgid hs m.host in
      let (group, v) = group_pass sys (first_pass || confirmed) marker.pgid sig w.group_result u in
      kill_met sig (pass_walk w pids parents s).fresh m.met.fresh m.met.seen group m.incomplete v

  unfoldable pub sweep_pass : Signal → Bool → Sweeping S I → Bool × Sweeping S I
  sweep_pass sig first_pass w =
      let ((pids, parents), s) = sys.snapshot w.host in pass_read sig first_pass w pids parents s

  -- The loop of `hard_kill`, on fuel: it goes on as long as a pass gets on.
  unfoldable pub sweep_passes : ℕ → Bool → Sweeping S I → Option (Sweeping S I)
  sweep_passes zero first_pass w = none
  sweep_passes (suc fuel) first_pass w =
      let (progressed, v) = sweep_pass Signal.sigkill first_pass w in
      let rest = sweep_passes fuel false v in if progressed then rest else some v

  unfoldable pub incomplete_error : Error I
  incomplete_error =
      Error.unassessable
        (codes "fd marker "
          ++ (sys.hex marker.handle
              ++ (codes ": teardown may be incomplete "
                  ++ (em_dash
                      ++ codes
                          " the host process table was unreadable on at least one pass, or at least one known/suspected member could not be assessed or signalled"))))
        none

  unfoldable pub finish_sweep : Result Done (Error I) → Bool → Result Done (Error I)
  finish_sweep group_result false = group_result
  finish_sweep (ok done) true = err incomplete_error
  finish_sweep (err group_err) true = err (combine_group_errors sys incomplete_error group_err)

  unfoldable pub read_end_error : Error I
  read_end_error = Error.io (
      sys.other (
        codes "fd marker "
        ++ (sys.hex marker.handle
            ++ (codes ": the read end no longer names its recorded pipe object at sweep entry "
                ++ (em_dash
                    ++ codes
                        " refusing to sweep rather than signal against a handle that may now name an unrelated live pipe")))))

  unfoldable pub valid_answer : FdPipeInfoQuery → Bool
  valid_answer (FdPipeInfoQuery.found info) = info.pipe_handle == marker.read_handle
  valid_answer FdPipeInfoQuery.absent = false
  valid_answer FdPipeInfoQuery.denied = false

  -- The state in which a sweep begins.
  unfoldable pub start_sweep : S → Sweeping S I
  start_sweep s = record { seen = []; group_result = ok tt; incomplete = false; host = s }

  unfoldable pub finished : Option (Sweeping S I) → Option (Result Done (Error I) × S)
  finished none = none
  finished (some v) = some (finish_sweep v.group_result v.incomplete, v.host)

  unfoldable pub hard_kill : ℕ → S → Option (Result Done (Error I) × S)
  hard_kill fuel s =
      let (answer, t) = fd_pipe_info sys.procs sys.own_pid marker.read s in
      let swept = finished (sweep_passes fuel true (start_sweep t)) in
      if valid_answer answer then swept else some (err read_end_error, t)

  unfoldable pub terminate : S → Result Done (Error I) × S
  terminate s =
      let (answer, t) = fd_pipe_info sys.procs sys.own_pid marker.read s in
      let (progressed, v) = sweep_pass Signal.sigterm true (start_sweep t) in
      if valid_answer answer
      then (finish_sweep v.group_result v.incomplete, v.host)
      else (err read_end_error, t)
