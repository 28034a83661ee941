-- ===== src/Child/Spawn/Tests.antt =====
-- A command line that is spawned in a process group, and one whose identity cannot be read.
use subprocess.Prelude.{
  ℕ, ◌+◌, ◌==◌, true, false, if◌then◌else◌, [], ◌∷◌, some, none, ok, err, ◌≡◌, refl, codes,
  and_then,
}
use subprocess.Errors.{Error}
use subprocess.Identity.{Resolved}
use subprocess.Graceful.{GracefulMechanism}
use subprocess.Command.{
  Direction, ResolvedStdio, Command, CommandInput, ContainMode, Nesting, new, insert_fd,
}
use subprocess.Containment.Dispatch.{Containment, Attached, unix_setup_for}
use subprocess.Containment.Dispatch.Attach.{
  Platform, AttachSystem, prepare, prepare_linux, attach_tree, attach_mode, attach_linux,
  attach_leaf,
}
use subprocess.Child.Stdio.{
  ParentEnd, Fault, StdioSystem, resolve_stdio, opened_ends, merged_ends, merge_slots, merge_at,
  open_slots, open_slot, put_ends, check_chains, check_slot, resolve_non_merge, inherit_end,
  make_pipe, pipe_ends, lookup_fd,
}
use subprocess.Quote.Posix.{join}
use subprocess.Child.Build.{
  Paths, build_std_command, build_input, build_from_argv, resolve_program, reject_batch_path,
  reject_extension, build_std_command-join,
}
use subprocess.Child.Spawn.{
  SpawnSystem, all_slots, tear_down, from_parts, spawn_identity_error, adopted, identified,
  contained, started, start, built, spawn_unelevated,
}

abbrev streams : StdioSystem ℕ ℕ ℕ ℕ ℕ ℕ
streams = record {
  os = codes "linux";
  family = codes "unix";
  decimal = λ n. n ∷ [];
  pipe = λ s. (ok (s, s + 1), s + 2);
  of_reader = λ r. r;
  of_writer = λ w. w;
  open_null = λ s. (ok s, s + 1);
  clone_file = λ s f. (ok f, s);
  clone_end = λ s e. (ok (e + 100), s);
  clone_std = λ s slot. (ok (slot + 50), s);
}

-- Pid 20 has an identity, and pid 21 has none that the system would tell.
abbrev containing : AttachSystem ℕ ℕ ℕ ℕ
containing = record {
  try_create_leaf = λ s. (none, s);
  install_marker = λ s. (none, s);
  contains_pid = λ s leaf pid. (false, s);
  drop_leaf = λ s leaf. s;
  query = λ s pid.
      (if pid == 20 then Resolved.found (record { pid = 20; start = 7 }) else Resolved.unknown, s);
  attach_job = λ s. (ok none, s);
  io_text = λ e. [];
  decimal = λ n. n ∷ [];
}

abbrev paths : Paths ℕ
paths = record { other = λ t. 1; extension = λ t. none; lossy = λ t. t; display = λ t. t }

-- A kill adds 1000 to the state, and a wait 10000.
abbrev host : ℕ → SpawnSystem ℕ ℕ ℕ ℕ ℕ ℕ ℕ ℕ ℕ
host pid = record {
  stdio = streams;
  containing = containing;
  paths = paths;
  platform = Platform.linux;
  nested = false;
  spawn_std = λ s std ends prepared. (ok pid, s + 1);
  kill_std = λ s pid. (ok tt, s + 1000);
  wait_std = λ s pid. (ok 0, s + 10000);
  adopt = λ s pid. (ok tt, s);
}

abbrev empty : Command ℕ
empty = new

abbrev command : Command ℕ
command = record empty {
  input = CommandInput.argv (codes "cat" ∷ codes "-n" ∷ []);
  fds = (0, ResolvedStdio.pipe Direction.in_) ∷ [];
  contain = record { mode = some ContainMode.strongest; nesting = Nesting.mark };
}

spawned : (spawn_unelevated (host 20) true command 0).1 ≡ (
  ok (record {
    child = record {
      id = record { pid = 20; start = 7 };
      kill_on_drop = true;
      containment = Containment.process_group;
      attached = Attached.process_group 20;
      graceful = GracefulMechanism.process;
      elevation = none;
    };
    pipes = (0, ParentEnd.writer 1) ∷ [];
  }),
  3,
)
unfolding spawn_unelevated new built build_std_command build_input build_from_argv resolve_program
    reject_batch_path reject_extension all_slots resolve_stdio opened_ends merged_ends merge_slots
    merge_at open_slots open_slot put_ends check_chains check_slot resolve_non_merge inherit_end
    make_pipe pipe_ends lookup_fd insert_fd and_then start prepare prepare_linux unix_setup_for
    started attach_tree attach_mode attach_linux attach_leaf contained identified from_parts adopted
spawned = refl

-- A child whose identity cannot be read is killed and waited for.
spawned-torn_down : (spawn_unelevated (host 21) true command 0).1 ≡ (
  err (
      Fault.refused
        (Error.unassessable (codes "the OS refused to report the spawned child's identity") none)),
  11003,
)
unfolding spawn_unelevated new built build_std_command build_input build_from_argv resolve_program
    reject_batch_path reject_extension all_slots resolve_stdio opened_ends merged_ends merge_slots
    merge_at open_slots open_slot put_ends check_chains check_slot resolve_non_merge inherit_end
    make_pipe pipe_ends lookup_fd insert_fd and_then start prepare prepare_linux unix_setup_for
    started attach_tree attach_mode attach_linux attach_leaf contained identified tear_down
    spawn_identity_error
spawned-torn_down = refl

build_std_command-join_example :
    build_std_command paths
      (record empty { input = CommandInput.command_line (join (codes "a b" ∷ codes "$c" ∷ [])) })
    ≡ build_std_command paths
        (record empty { input = CommandInput.argv (codes "a b" ∷ codes "$c" ∷ []) })
build_std_command-join_example = build_std_command-join paths empty (codes "a b") (codes "$c" ∷ [])
