-- ===== src/Containment/Windows.antt =====
-- The drain of a job object on Windows (src/containment/windows.rs).
pub mod Drain
pub mod Balance
mod Tests
use subprocess.Prelude.{
  ℕ, zero, suc, ◌+◌, ◌-◌, ◌/◌, Bool, true, false, ◌&&◌, List, [], ◌∷◌, ◌++◌, Option, some, none,
  ◌==◌, ltb, leb, length, take, if◌then◌else◌, Round, next, halt, loop, Result, ok, err, codes,
}
use subprocess.Errors.{Error}
use subprocess.Containment.Dispatch.{TreeDrain}

-- What `OpenProcess` answers, for handles in `H`; `invalid` is ERROR_INVALID_PARAMETER.
pub data Opening (H : Type 0) (I : Type 0) : Type 0 where
  opened : H → Opening H I
  invalid : Opening H I
  failed : I → Opening H I

-- What `WaitForMultipleObjects` answers, with the index of the handle.
pub data Waited (I : Type 0) : Type 0 where
  timed_out : Waited I
  wait_failed : I → Waited I
  at : ℕ → Waited I

-- What a query for the pids of a job answers: the list, or a failure with the number of members that the
-- kernel reports.
pub data Listing (I : Type 0) : Type 0 where
  listed : List ℕ → Listing I
  refused : ℕ → I → Listing I

-- The calls. `cancelled` is the state of the cancel event, if there is one; `remaining` is what is left
-- until the deadline, in nanoseconds, and `wait_any` takes milliseconds.
pub record JobSystem (S : Type 0) (H : Type 0) (I : Type 0) : Type 0 where
  pub cancelled : S → Bool × S
  pub query_list : S → ℕ → Listing I × S
  pub open_process : S → ℕ → Opening H I × S
  pub in_job : S → H → Result Bool I × S
  pub close : S → H → S
  pub remaining : S → Option ℕ × S
  pub wait_any : S → List H → Bool → Option ℕ → Waited I × S

-- The members that are watched, and the last refusal.
pub record Watch (H : Type 0) (I : Type 0) : Type 0 where
  pub handles : List H
  pub denied : Option I

abbrev pub maximum_wait_objects : ℕ
maximum_wait_objects = 64

unfoldable pub budget : Bool → ℕ
budget cancel = maximum_wait_objects - 1 - (if cancel then 1 else 0)

-- INFINITE is 2^32 - 1, and what is longer than the longest wait below it is cut.
unfoldable pub wait_ms : Option ℕ → Option ℕ
wait_ms none = none
wait_ms (some d) = some (if leb (d / 1000000) 4294967294 then d / 1000000 else 4294967294)

module _ {S : Type 0} {H : Type 0} {I : Type 0} (sys : JobSystem S H I) where
  -- A round of the listing: the capacity and the state.
  unfoldable pub list_answered : ℕ → Listing I → S → Round (ℕ × S) (Result (List ℕ) I × S)
  list_answered capacity (listed pids) s = halt (ok (take capacity pids), s)
  list_answered capacity (refused assigned e) s =
      if ltb capacity assigned then next (assigned, s) else halt (err e, s)

  unfoldable pub list_round : ℕ × S → Round (ℕ × S) (Result (List ℕ) I × S)
  list_round (capacity, s) =
      let (answer, t) = sys.query_list s capacity in list_answered capacity answer t

  -- The kernel's number of members is a u32, so a capacity that grows with each round ends the loop.
  abbrev pub room : ℕ × S → ℕ
  room (capacity, s) = 4294967296 - capacity

  unfoldable pub query_job_pid_list : S → Option (Result (List ℕ) I × S)
  query_job_pid_list s = loop list_round room (64, s)

  -- A member's handle is kept if the process is in the job, and closed if not.
  unfoldable pub confirmed : H → Watch H I → Result Bool I → S → Watch H I × S
  confirmed h w (ok true) s = (record w { handles = w.handles ++ h ∷ [] }, s)
  confirmed h w (ok false) s = (w, sys.close s h)
  confirmed h w (err e) s = (record w { denied = some e }, sys.close s h)

  unfoldable pub open_answered : Watch H I → Opening H I → S → Watch H I × S
  open_answered w (opened h) s = let (answer, t) = sys.in_job s h in confirmed h w answer t
  open_answered w invalid s = (w, s)
  open_answered w (failed e) s = (record w { denied = some e }, s)

  unfoldable pub open_member : ℕ → Watch H I → S → Watch H I × S
  open_member pid w s = let (answer, t) = sys.open_process s pid in open_answered w answer t

  unfoldable pub open_members : List ℕ → Watch H I → S → Watch H I × S
  open_members [] w s = (w, s)
  open_members (pid ∷ pids) w s = let (v, t) = open_member pid w s in open_members pids v t

  unfoldable pub close_all : List H → S → S
  close_all [] s = s
  close_all (h ∷ hs) s = close_all hs (sys.close s h)

  module _ (cancel : Bool) where
    -- `none` where the listing would not end.
    abbrev pub DrainRound : Type 0
    DrainRound = Round S (Option (Result TreeDrain (Error I) × S))

    abbrev pub done : Result TreeDrain (Error I) → S → DrainRound
    done r s = halt (some (r, s))

    unfoldable pub wait_answered : ℕ → Waited I → S → DrainRound
    wait_answered n timed_out s = done (ok TreeDrain.members_remain) s
    wait_answered n (wait_failed e) s = done (err (Error.io e)) s
    wait_answered n (at i) s =
        if cancel && i == n then done (ok TreeDrain.members_remain) s else next s

    -- No member could be opened.
    unfoldable pub unwatched : Option I → Option ℕ → S → DrainRound
    unwatched (some e) left s =
        done
          (err (
            Error.unassessable
              (codes
                "could not open a handle to any live member of the contained tree to observe its exit")
              (some e)))
          s
    unwatched none (some zero) s = done (ok TreeDrain.members_remain) s
    unwatched none (some (suc d)) s = next s
    unwatched none none s = next s

    unfoldable pub watched : List H → Option I → Option ℕ → S → DrainRound
    watched [] denied left s = unwatched denied left s
    watched (h ∷ hs) denied left s =
        let (answer, t) = sys.wait_any s (h ∷ hs) cancel (wait_ms left) in
        wait_answered (length (h ∷ hs)) answer (close_all (h ∷ hs) t)

    unfoldable pub watch_members : List ℕ → S → DrainRound
    watch_members pids s =
        let (w, t) =
          open_members (take (budget cancel) pids) (record { handles = []; denied = none }) s in
        let (left, u) = sys.remaining t in watched w.handles w.denied left u

    unfoldable pub drain_listed : Result (List ℕ) I → S → DrainRound
    drain_listed (ok []) s = done (ok TreeDrain.all_members_exited) s
    drain_listed (ok (pid ∷ pids)) s = watch_members (pid ∷ pids) s
    drain_listed (err e) s = done (err (Error.io e)) s

    unfoldable pub drain_answered : Option (Result (List ℕ) I × S) → DrainRound
    drain_answered none = halt none
    drain_answered (some (answer, s)) = drain_listed answer s

    unfoldable pub drain_polled : Bool → S → DrainRound
    drain_polled fired s =
        if cancel && fired
        then done (ok TreeDrain.members_remain) s
        else drain_answered (query_job_pid_list s)

    -- The cancel event is looked at only where there is one.
    unfoldable pub drain_round : S → DrainRound
    drain_round s =
        if cancel
        then (let (fired, t) = sys.cancelled s in drain_polled fired t)
        else drain_polled false s

    -- `wait_drained_raw` on a number of rounds; `none` where these are not enough.
    unfoldable pub drain : ℕ → S → Option (Result TreeDrain (Error I) × S)
    drain zero s = none
    drain (suc rounds) s = elim (drain_round s) [ next t ↦ drain rounds t | halt r ↦ r ]
