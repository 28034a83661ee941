-- ===== src/Containment/Cgroup/Leaf.antt =====
-- The life of a control group leaf: its creation, the placement of the child, the kill and the removal
-- (src/containment/cgroup.rs).
pub mod Created
mod Tests
use subprocess.Prelude.{
  ℕ, Bool, true, false, List, [], ◌∷◌, Option, some, none, ◌==◌, if◌then◌else◌, Result, ok, err,
  codes,
}
use subprocess.Errors.{Text, Done}
use subprocess.Containment.Cgroup.{parse_v2_relative_path, cgroup_procs_contains}

pub record CgroupLeaf : Type 0 where
  pub leaf_path : Text
  pub procs_fd : ℕ

-- The calls of std and libc on files; those that fail answer an error. `name` formats the name of a leaf
-- out of the process's pid and a sequence number, and `without_cloexec` clears FD_CLOEXEC.
pub record LeafSystem (S : Type 0) (I : Type 0) : Type 0 where
  pub read_to_string : S → Text → Result Text I × S
  pub join : Text → Text → Text
  pub next_seq : S → ℕ × S
  pub name : ℕ → Text
  pub create_dir : S → Text → Result Done I × S
  pub exists : S → Text → Bool × S
  pub remove_dir : S → Text → Result Done I × S
  pub open_write : S → Text → Result ℕ I × S
  pub get_flags : S → ℕ → Option ℕ × S
  pub without_cloexec : ℕ → ℕ
  pub set_flags : S → ℕ → ℕ → Bool × S
  pub close : S → ℕ → S
  pub write_file : S → Text → Text → Result Done I × S
  pub write_fd : S → ℕ → Text → Result Done I × S

unfoldable pub trim_slashes : Text → Text
trim_slashes [] = []
trim_slashes (c ∷ s) = let rest = trim_slashes s in if c == 47 then rest else c ∷ s

module _ {S : Type 0} {I : Type 0} (sys : LeafSystem S I) where
  abbrev procs_path : Text → Text
  procs_path leaf = sys.join leaf (codes "cgroup.procs")

  abbrev kill_path : Text → Text
  kill_path leaf = sys.join leaf (codes "cgroup.kill")

  -- The descriptor is closed before the directory goes.
  unfoldable pub give_up : Text → ℕ → S → Option CgroupLeaf × S
  give_up leaf fd s = (none, (sys.remove_dir (sys.close s fd) leaf).1)

  unfoldable pub flags_set : Text → ℕ → Bool → S → Option CgroupLeaf × S
  flags_set leaf fd true s = (some record { leaf_path = leaf; procs_fd = fd }, s)
  flags_set leaf fd false s = give_up leaf fd s

  unfoldable pub flags_read : Text → ℕ → Option ℕ → S → Option CgroupLeaf × S
  flags_read leaf fd none s = give_up leaf fd s
  flags_read leaf fd (some flags) s =
      let (done, t) = sys.set_flags s fd (sys.without_cloexec flags) in flags_set leaf fd done t

  unfoldable pub procs_opened : Text → Result ℕ I → S → Option CgroupLeaf × S
  procs_opened leaf (err e) s = (none, s)
  procs_opened leaf (ok fd) s = let (flags, t) = sys.get_flags s fd in flags_read leaf fd flags t

  unfoldable pub kill_tested : Text → Bool → S → Option CgroupLeaf × S
  kill_tested leaf false s = (none, (sys.remove_dir s leaf).1)
  kill_tested leaf true s =
      let (opened, t) = sys.open_write s (procs_path leaf) in procs_opened leaf opened t

  unfoldable pub dir_created : Text → Result Done I → S → Option CgroupLeaf × S
  dir_created leaf (err e) s = (none, s)
  dir_created leaf (ok done) s =
      let (there, t) = sys.exists s (kill_path leaf) in kill_tested leaf there t

  unfoldable pub create_at : Text → S → Option CgroupLeaf × S
  create_at leaf s = let (made, t) = sys.create_dir s leaf in dir_created leaf made t

  unfoldable pub create_below : Option Text → S → Option CgroupLeaf × S
  create_below none s = (none, s)
  create_below (some rel_path) s =
      let (seq, t) = sys.next_seq s in
      let current = sys.join (codes "/sys/fs/cgroup") (trim_slashes rel_path) in
      create_at (sys.join current (sys.name seq)) t

  unfoldable pub cgroup_file_read : Result Text I → S → Option CgroupLeaf × S
  cgroup_file_read (err e) s = (none, s)
  cgroup_file_read (ok cgroup_file) s = create_below (parse_v2_relative_path cgroup_file) s

  unfoldable pub try_create_leaf : S → Option CgroupLeaf × S
  try_create_leaf s =
      let (read, t) = sys.read_to_string s (codes "/proc/self/cgroup") in cgroup_file_read read t

  unfoldable pub place_self_in_cgroup_pre_exec : ℕ → S → Result Done I × S
  place_self_in_cgroup_pre_exec procs_fd s =
      let (answer, t) = sys.write_fd s procs_fd (codes "0") in (answer, sys.close t procs_fd)

  unfoldable pub contents_contain : Result Text I → ℕ → Bool
  contents_contain (ok contents) pid = cgroup_procs_contains contents pid
  contents_contain (err e) pid = false

  unfoldable pub contains_pid : CgroupLeaf → ℕ → S → Bool × S
  contains_pid leaf pid s =
      let (read, t) = sys.read_to_string s (procs_path leaf.leaf_path) in
      (contents_contain read pid, t)

  unfoldable pub hard_kill : CgroupLeaf → S → S
  hard_kill leaf s = (sys.write_file s (kill_path leaf.leaf_path) (codes "1")).1

  unfoldable pub removal_tried : CgroupLeaf → Result Done I → S → S
  removal_tried leaf (ok done) s = s
  removal_tried leaf (err e) s = (sys.remove_dir (hard_kill leaf s) leaf.leaf_path).1

  -- `Drop` of a leaf.
  unfoldable pub drop : CgroupLeaf → S → S
  drop leaf s =
      let (answer, t) = sys.remove_dir (sys.close s leaf.procs_fd) leaf.leaf_path in
      removal_tried leaf answer t
