-- ===== src/Containment/Fdmarker/Success.antt =====
-- The passes of a sweep that reports success (src/containment/fdmarker.rs).
use subprocess.Prelude.{ℕ, Bool, true, false, some, ◌≡◌, ok, All}
use subprocess.Containment.Group.{Signal}
use subprocess.Containment.Fdmarker.{fd_pipe_info}
use subprocess.Containment.Fdmarker.Sweep.{Marker, MarkerSystem, Sweeping}
use subprocess.Containment.Fdmarker.Pass.{sweep_pass, sweep_passes, valid_answer, start_sweep}
use subprocess.Containment.Fdmarker.Handling.{Handled}
use subprocess.Containment.Fdmarker.Swept.{Quiet}

module _ (S : Type 0) (I : Type 0) (sys : MarkerSystem S I) (marker : Marker) where
  -- The passes of a sweep: each but the last gets on, and the next begins with what it leaves; the last
  -- does not get on, and leaves the end. `last` begins it.
  pub data Run : Bool → Sweeping S I → Bool → Sweeping S I → Sweeping S I → Type 0 where
    ends :
        (first_pass : Bool) (last v : Sweeping S I)
        → sweep_pass sys marker Signal.sigkill first_pass last ≡ (false, v)
        → Run first_pass last first_pass last v
    goes_on :
        (first_pass : Bool) (w u : Sweeping S I) (b : Bool) (last v : Sweeping S I)
        → sweep_pass sys marker Signal.sigkill first_pass w ≡ (true, u)
        → Run false u b last v
        → Run first_pass w b last v

  -- The last pass of a sweep, and what came of the processes met before.
  pub record Cleared (first_pass : Bool) (w v : Sweeping S I) : Type 0 where
    pub only : Bool
    pub last : Sweeping S I
    pub run : Run first_pass w only last v
    pub quiet : Quiet S I sys marker last
    pub handled : All (Handled S I sys marker Signal.sigkill) last.seen
    pub all_handled : All (Handled S I sys marker Signal.sigkill) v.seen

  -- The whole of a successful sweep: the read end named its pipe, and the passes end as they should.
  pub record Succeeded (fuel : ℕ) (s : S) (t : S) : Type 0 where
    pub valid : valid_answer sys marker (fd_pipe_info sys.procs sys.own_pid marker.read s).0 ≡ true
    pub left : Sweeping S I
    pub swept :
        sweep_passes sys marker fuel true
          (start_sweep sys marker (fd_pipe_info sys.procs sys.own_pid marker.read s).1)
        ≡ some left
    pub same_state : left.host ≡ t
    pub group_ok : left.group_result ≡ ok tt
    pub cleared :
        Cleared true
          (start_sweep sys marker (fd_pipe_info sys.procs sys.own_pid marker.read s).1)
          left
