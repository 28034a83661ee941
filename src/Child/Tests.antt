-- ===== src/Child/Tests.antt =====
-- A child in a process group of two members, and one in a control group that drains in time.
use subprocess.Prelude.{
  ℕ, ◌+◌, ◌==◌, true, false, if◌then◌else◌, [], ◌∷◌, some, none, ok, ◌≡◌, refl, magnitude, codes,
}
use subprocess.Identity.{Resolved, Liveness, Existence, signal_target}
use subprocess.Graceful.{GracefulMechanism}
use subprocess.Containment.Group.{
  Member, Answer, GroupSystem, Formats, tally, decide, report, examine, listed_id, outcome_reached,
  outcome_rechecked, send_to, check_answered, check_or_signal, reach_member, classify_member,
  reconfirm_survivor, excluded_from_sigkill_resend,
}
use subprocess.Containment.Group.Teardown.{
  converge_from, converge, state, verify, signal_group_answered, signal_group,
}
use subprocess.Containment.Group.Platforms.{
  Opening, PidfdSystem, confirm_opened, opened_verified, open_verified, linux_sigkill_opened,
  check_or_signal_linux_sigkill,
}
use subprocess.Containment.Dispatch.{
  Containment, Attached, TreeDrain, is_actionable, require_contained, reports_drain,
  permits_skipping_sweep,
}
use subprocess.Containment.Dispatch.Mechanisms.{Mechanisms, hard_kill, wait_drained}
use subprocess.Containment.Dispatch.Mechanisms
use subprocess.Child.{
  Child, ChildSystem, kill, wait, guarded, kill_attached, kill_tree, terminate_tree,
  block_until_exit, drained_within,
}
use subprocess.Child.Shutdown.{
  reap_after, seen_root, watch_root, seen_tree, watch_tree, reap, after_sweep, sweep,
  watch_and_sweep, tree_signalled, terminate_and_sweep, tree_guarded, graceful_shutdown_tree,
}
use subprocess.Child.Escalation.{ShutsDown, graceful_shutdown_tree-ShutsDown}
use subprocess.Child.Grouped.{TornFrom, graceful_shutdown_tree-TornFrom}

abbrev member : ℕ → Member
member n = record { pid = n; token = 100 + n; system = false }

abbrev group : GroupSystem ℕ ℕ
group = record {
  members = λ s pgid. (ok (member 31 ∷ member 32 ∷ []), s);
  is_alive = λ s id. (if id.pid == 32 then Liveness.dead else Liveness.alive, s);
  query = λ s pid. (Resolved.found (record { pid = pid; start = 100 + pid }), s);
  kill = λ s pid sig. (Answer.delivered, s + 1);
  killpg = λ s pgid sig. (Answer.delivered, s + 1);
}

abbrev fds : PidfdSystem ℕ ℕ ℕ
fds = record {
  pidfd_open = λ s pid. (Opening.opened pid, s);
  exists = λ s id. (Existence.present, s);
  send_signal = λ s fd sig. (Answer.delivered, s + 10);
  eperm_error = 1;
}

abbrev formats : Formats
formats = record { decimal = λ n. n ∷ []; integer = λ n. magnitude n ∷ []; signal = λ sig. [] }

-- The state counts what is done. A leaf and a marker refuse nothing; leaf 5 drains within the grace.
abbrev mechanisms : Mechanisms ℕ ℕ ℕ ℕ
mechanisms = record {
  kill_group = λ s pgid. (ok tt, s + 1);
  term_group = λ s pgid. (ok tt, s + 1);
  kill_leaf = λ s leaf. s + 100;
  term_leaf = λ s leaf. (ok tt, s + 1);
  drain_leaf = λ s leaf deadline.
      (ok (if leaf == 5 then TreeDrain.all_members_exited else TreeDrain.members_remain), s);
  kill_job = λ s job. (ok tt, s);
  break_job = λ s pid. (ok tt, s);
  disarm_job = λ s job. s;
  drain_job = λ s job deadline. (ok TreeDrain.members_remain, s);
  kill_marker = λ s m. (ok tt, s);
  term_marker = λ s m. (ok tt, s);
  drain_marker = λ s m deadline. (ok TreeDrain.all_markers_closed, s);
  kill_walk = λ s root. s;
  term_walk = λ s root. (ok tt, s);
}

-- The root exits with the number of things done so far; the watch of it times out.
abbrev rest : ChildSystem ℕ ℕ ℕ ℕ ℕ
rest = record {
  os = codes "linux";
  proc_id = 30;
  kill_proc = λ s. (ok tt, s + 1);
  wait_proc = λ s. (ok s, s);
  try_wait_proc = λ s. (ok none, s);
  wait_proc_until = λ s deadline. (ok none, s);
  after = λ s timeout. (some (s + timeout), s);
  watch = λ s id deadline. (ok false, s);
  permission_denied = λ e. e == 1;
  io_text = λ e. e ∷ [];
  mechanisms = mechanisms;
  signals = record {
    windows = false;
    by_identity = λ s id. (ok tt, s + 1);
    to_console = λ s pid. (ok tt, s + 1);
  };
}

abbrev contained : Containment → Attached ℕ ℕ → Child ℕ ℕ
contained containment attached = record {
  id = record { pid = 30; start = 130 };
  kill_on_drop = true;
  containment = containment;
  attached = attached;
  graceful = GracefulMechanism.process;
  elevation = none;
}

abbrev drained : Child ℕ ℕ
drained = contained Containment.cgroup_v2 (Attached.cgroup 5)

-- No sweep is run on a tree that has drained; a tree that has not is swept and its root killed.
shutdown-drained : graceful_shutdown_tree rest drained 7 0 ≡ (ok 1, 1)
unfolding graceful_shutdown_tree require_contained is_actionable tree_guarded terminate_and_sweep
    terminate_tree guarded Mechanisms.terminate tree_signalled watch_and_sweep watch_tree
    reports_drain drained_within wait_drained seen_tree permits_skipping_sweep sweep reap reap_after
    wait
shutdown-drained = refl

shutdown-swept :
    graceful_shutdown_tree rest (contained Containment.cgroup_v2 (Attached.cgroup 6)) 7 0
    ≡ (ok 102, 102)
unfolding graceful_shutdown_tree require_contained is_actionable tree_guarded terminate_and_sweep
    terminate_tree guarded Mechanisms.terminate tree_signalled watch_and_sweep watch_tree
    reports_drain drained_within wait_drained seen_tree permits_skipping_sweep sweep reap reap_after
    wait watch_root block_until_exit seen_root after_sweep kill_tree kill_attached hard_kill kill
shutdown-swept = refl

graceful_shutdown_tree-ShutsDown_example : ShutsDown rest drained 7 0 (ok 1)
unfolding graceful_shutdown_tree require_contained is_actionable tree_guarded terminate_and_sweep
    terminate_tree guarded Mechanisms.terminate tree_signalled watch_and_sweep watch_tree
    reports_drain drained_within wait_drained seen_tree permits_skipping_sweep sweep reap reap_after
    wait
graceful_shutdown_tree-ShutsDown_example = graceful_shutdown_tree-ShutsDown rest drained 7 0

abbrev grouped : Child ℕ ℕ
grouped = contained Containment.process_group (Attached.process_group 30)

graceful_shutdown_tree-TornFrom_example : TornFrom ℕ ℕ ℕ ℕ ℕ ℕ group fds formats rest grouped 30 2
unfolding graceful_shutdown_tree require_contained is_actionable tree_guarded terminate_and_sweep
    terminate_tree guarded Mechanisms.terminate tree_signalled watch_and_sweep watch_tree
    reports_drain sweep reap reap_after wait watch_root block_until_exit seen_root after_sweep
    kill_tree kill_attached hard_kill kill signal_group signal_group_answered verify state converge
    converge_from examine tally decide report classify_member reach_member check_or_signal
    check_answered send_to reconfirm_survivor outcome_reached outcome_rechecked
    excluded_from_sigkill_resend listed_id signal_target check_or_signal_linux_sigkill
    linux_sigkill_opened open_verified opened_verified confirm_opened
graceful_shutdown_tree-TornFrom_example =
    graceful_shutdown_tree-TornFrom ℕ ℕ ℕ ℕ ℕ ℕ group fds formats rest grouped 30 7 0 14 refl refl
      refl
