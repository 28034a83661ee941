-- ===== src/Containment/Cgroup/Tests.antt =====
-- An events file that is populated at first, and not after the first poll.
use subprocess.Prelude.{ℕ, ◌==◌, ◌+◌, if◌then◌else◌, true, some, none, ok, ◌≡◌, refl, codes}
use mathlib.Core.Option
use subprocess.Identity.StatParse.{is_space, parse_uint, digits, digits_from}
use subprocess.Containment.Dispatch.{TreeDrain}
use subprocess.Containment.Cgroup.{
  without_return, lines_from, strip_prefix, first_with, trim_start, trim_end, populated_value,
  parse_populated, any_pid, cgroup_procs_contains, parse_v2_relative_path, ready, EventsSystem,
  populated_in, populated_read, rewound, read_populated, polled, drain_within, drain_populated,
  drain_round, drain, drain_opened, wait_drained,
}
use subprocess.Containment.Cgroup.Events.{Rests, wait_drained-Rests}

abbrev host : EventsSystem ℕ ℕ
host = record {
  open_events = λ s. (none, s);
  rewind = λ s. (none, s);
  read_all = λ s.
      (ok (if s == 0 then codes "frozen 0\npopulated 1\n" else codes "populated 0\nfrozen 0\n"), s);
  remaining = λ s. (none, s);
  poll = λ s left. (ready, s + 1);
  removed = λ e. e == 19;
  other = λ t. 0;
}

drained : wait_drained host 3 0 ≡ some (ok TreeDrain.all_members_exited, 1)
unfolding wait_drained drain_opened drain drain_round read_populated rewound populated_read
    populated_in parse_populated first_with strip_prefix lines_from without_return trim_start
    trim_end is_space populated_value Option.bind drain_populated drain_within polled
drained = refl

contains-trimmed : cgroup_procs_contains (codes "12\r\n 34 \nx\n") 34 ≡ true
unfolding cgroup_procs_contains any_pid lines_from without_return trim_start trim_end is_space
    parse_uint digits digits_from
contains-trimmed = refl

relative_path :
    parse_v2_relative_path (codes "1:name=x:/a\n0::/user.slice\n") ≡ some (codes "/user.slice")
unfolding parse_v2_relative_path first_with strip_prefix lines_from without_return
relative_path = refl

wait_drained-Rests_example : Rests ℕ ℕ host (ok TreeDrain.all_members_exited)
unfolding wait_drained drain_opened drain drain_round read_populated rewound populated_read
    populated_in parse_populated first_with strip_prefix lines_from without_return trim_start
    trim_end is_space populated_value Option.bind drain_populated drain_within polled
wait_drained-Rests_example =
    wait_drained-Rests ℕ ℕ host 3 0 (ok TreeDrain.all_members_exited, 1) refl
