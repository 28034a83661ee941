-- ===== src/Lib.antt =====
-- subprocess (cosca): spawning, splitting command lines, elevating and containing process trees.
--
-- The program's parts and where they are modelled:
--
--   src/error.rs                    Quote/Common (QuoteError, QuoteErrorKind)
--   src/quote/posix.rs              Quote/Posix: split, quote, join on bytes
--   src/quote/windows.rs            Quote/Windows: join_wide, split_wide, split_rest_wide and the
--                                   program token, on UTF-16 code units
--   src/quote/applescript.rs        Quote/Applescript: escape_literal, over from_utf8
--   src/identity.rs, identity/state.rs
--                                   Identity: ProcessId (pid and start token), Resolved
--   src/containment/treewalk.rs     Containment/Treewalk: keeps_token, descendants_with,
--                                   children_of_with
--   src/error.rs                    Errors: Error, over a parameter for std's io::Error
--   src/elevation.rs                Elevation/Common: Backend, Auth, Privilege, Secret
--   src/elevation/plan.rs           Elevation/Plan: Host::plan and the structural matrices
--   src/elevation/sanitize.rs       Elevation/Sanitize: the policies, keep and apply
--   src/elevation/posix.rs          Elevation/Argv: build_argv; debug assertions are an argument
--   src/command.rs, src/stdio.rs    Command: the state of a Command, over a parameter for File
--   src/elevation/posix.rs          Elevation/Rewrite: the structural gate; Elevation/Rewrite/Arms:
--                                   two arms of rewrite_with_host, over what io::pipe answers
--   src/containment/treewalk.rs, src/identity/probe.rs
--                                   Containment/Kill: kill_by_identity, hard_kill and terminate on
--                                   Unix, over a system that answers queries and signals
--   src/containment/unix.rs, src/containment/unix/group.rs
--                                   Containment/Group: the check and the verdict on one member;
--                                   Containment/Group/Teardown: signal_group, verify, converge
--   src/containment/fdmarker.rs     Containment/Fdmarker: pipe_fds_of, fd_pipe_info, safe_marker_fd;
--                                   Containment/Fdmarker/Holding: holders, holds_marker_query;
--                                   Containment/Fdmarker/Sweep, Containment/Fdmarker/Pass: sweep_pass,
--                                   hard_kill and terminate of a Marker
--   src/containment/marker_eof.rs   Containment/Fdmarker/Holding: write_end_check
--   src/containment.rs, src/containment/dispatch.rs
--                                   Containment/Dispatch: Containment, Attached and the guards;
--                                   Containment/Dispatch/Attach: prepare and attach_tree
--   src/identity/stat_parse.rs      Identity/StatParse: the field parsers, running_from_stat
--   src/containment/unix/group.rs   Containment/Group/Listing: members on Linux
--   src/wait/linux.rs               Containment/Group/Platforms: open_verified, kill, terminate
--   src/tokio/child/reaper.rs       Tokio/Reaper: LazyPool, submit_to, run_teardown;
--                                   Tokio/Reaper/World: the pool and its workers as a step relation
--   src/tokio/child.rs              Tokio/Reaper/Dropped: the Drop of a child
--   src/identity/persist.rs         Identity/Persist: records, validate, record_from, restore
--   src/containment/dispatch.rs     Containment/Dispatch/Mechanisms: the teardown of an Attached, and
--                                   its dispatch to the mechanism
--   src/containment/windows.rs      Containment/Windows: the drain of a job object and the listing of
--                                   its members
--   src/containment/cgroup.rs       Containment/Cgroup: the parsers of the control files, the wait
--                                   until a control group is empty;
--                                   Containment/Cgroup/Leaf: the life of a leaf
--   src/command/flags.rs            Command/Flags: windows_spawn, over a test of a number's flags;
--                                   windows_contain_setup and mechanism_from_flags
--   src/graceful.rs                 Graceful: the outcomes of a graceful shutdown
--   src/child.rs, src/child/lifecycle.rs, src/child/proc_handle.rs
--                                   Child: the operations on a spawned process and on its tree
--   src/child/graceful.rs           Child/Shutdown: graceful_shutdown and graceful_shutdown_tree;
--                                   Child/Grouped: the latter over the teardown of Containment/Group
--   src/child/spawn.rs              Child/Stdio: resolve_stdio; Child/Build: build_std_command on
--                                   Unix; Child/Spawn: spawn_unelevated
--   src/child/spawn/windows_raw/crt_fds.rs
--                                   Child/CrtFds: the table of inherited descriptors
--
-- How the code corresponds to the model. A byte, a code unit, a pid and a start token are natural
-- numbers; the code does no arithmetic on them that could wrap. An index into a slice is the list of
-- the elements not read yet, in `split` with the number beside it. The vectors that a loop mutates are
-- the fields of a record (Lexer, Writer, Splitter, Scan, Walk), and a `while` loop is a function
-- `round` from that record to the next one or to the result. Prelude/Loop runs such a round on fuel,
-- one more than a measure of the record; it shows that a loop whose rounds lower the measure ends, so
-- the fuel is enough: the measure is the number of unread bytes or units in the splitters, and the
-- number of pending edges and frontier pids in the walk, and the buffer sizes left below 2^31 in the
-- listing of descriptors; for the listing of a job it is what the capacity lacks of 2^32. `hard_kill`
-- of a Marker takes its fuel as an argument, the number of passes, and so do the drains of a job
-- object and of a control group, which may wait for ever, with the number of their rounds. A `HashSet`
-- is a list, a `HashMap` an association list. `resolve`, the answer of the operating system to "which
-- process holds this pid", is an argument of the walk, as it is in the source. Where an operation
-- calls the system more than once, the system is a record of functions over a state (System,
-- GroupSystem, PidfdSystem, ReaperHost, ChildHost, ChildSystem, SpawnSystem, JobSystem, EventsSystem,
-- LeafSystem), and the operation passes the state on from call to call. The reaper's submissions hold
-- a lock from the test of the cell to its publication, so each of them is one step; the steps of
-- submitting threads and workers come in any order.
--
-- Child is the model of a release build: the debug assertions of kill_tree and of its twins are left
-- out.
--
-- Not modelled: the elevated arm of the spawn and the spawn by CreateProcessW on Windows; the
-- asynchronous twins (src/tokio, but for its reaper); the assignment of a process to a job object and
-- the life of its handle; the signals to the members of a control group; the installation of the
-- descriptor marker; the waits on kqueue; the effects of elevation. These are calls of one operating
-- system each. Log messages are left out, but for the reaper's teardown, where a logger may unwind.
pub mod Prelude
pub mod Errors
pub mod Quote
pub mod Identity
pub mod Containment
pub mod Command
pub mod Elevation
pub mod Graceful
pub mod Child
pub mod Tokio
