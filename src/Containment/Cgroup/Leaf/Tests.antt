-- ===== src/Containment/Cgroup/Leaf/Tests.antt =====
-- A state that lists the directories of leaves, in a file system whose every call succeeds but, as asked for,
-- that which opens the list of processes.
use subprocess.Prelude.{
  ℕ, true, List, [], ◌∷◌, ◌++◌, if◌then◌else◌, some, none, ok, err, ◌≡◌, refl, codes, Bool,
}
use subprocess.Errors.{Text}
use subprocess.Containment.Cgroup.{
  without_return, lines_from, strip_prefix, first_with, parse_v2_relative_path,
}
use subprocess.Containment.Cgroup.Leaf.{
  CgroupLeaf, LeafSystem, trim_slashes, give_up, flags_set, flags_read, procs_opened, kill_tested,
  dir_created, create_at, create_below, cgroup_file_read, try_create_leaf, hard_kill, removal_tried,
  drop,
}
use subprocess.Containment.Cgroup.Leaf.Created.{Creates, try_create_leaf-Creates}

abbrev host : Bool → LeafSystem (List Text) ℕ
host opens = record {
  read_to_string = λ s path. (ok (codes "0::/a\n"), s);
  join = λ a b. a ++ 47 ∷ b;
  next_seq = λ s. (7, s);
  name = λ seq. codes "cosca-1-7";
  create_dir = λ s path. (ok tt, path ∷ s);
  exists = λ s path. (true, s);
  remove_dir = λ s path. (ok tt, []);
  open_write = λ s path. (if opens then ok 3 else err 13, s);
  get_flags = λ s fd. (some 1, s);
  without_cloexec = λ flags. 0;
  set_flags = λ s fd flags. (true, s);
  close = λ s fd. s;
  write_file = λ s path text. (ok tt, s);
  write_fd = λ s fd text. (ok tt, s);
}

abbrev leaf : CgroupLeaf
leaf = record { leaf_path = codes "/sys/fs/cgroup/a/cosca-1-7"; procs_fd = 3 }

created : try_create_leaf (host true) [] ≡ (some leaf, leaf.leaf_path ∷ [])
unfolding try_create_leaf cgroup_file_read create_below create_at dir_created kill_tested
    procs_opened flags_read flags_set give_up trim_slashes parse_v2_relative_path first_with
    strip_prefix lines_from without_return
created = refl

-- The directory is left behind.
unopened : try_create_leaf (host Bool.false) [] ≡ (none, leaf.leaf_path ∷ [])
unfolding try_create_leaf cgroup_file_read create_below create_at dir_created kill_tested
    procs_opened trim_slashes parse_v2_relative_path first_with strip_prefix lines_from
    without_return
unopened = refl

dropped : drop (host true) leaf (leaf.leaf_path ∷ []) ≡ []
unfolding drop removal_tried hard_kill
dropped = refl

try_create_leaf-Creates_example :
    Creates (List Text) ℕ (host true) [] (some leaf) (leaf.leaf_path ∷ [])
unfolding try_create_leaf cgroup_file_read create_below create_at dir_created kill_tested
    procs_opened flags_read flags_set give_up trim_slashes parse_v2_relative_path first_with
    strip_prefix lines_from without_return
try_create_leaf-Creates_example = try_create_leaf-Creates (List Text) ℕ (host true) []
