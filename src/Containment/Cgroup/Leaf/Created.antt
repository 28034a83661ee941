-- ===== src/Containment/Cgroup/Leaf/Created.antt =====
-- How the creation of a leaf ends (src/containment/cgroup.rs).
use subprocess.Prelude.{ℕ, Bool, true, false, Option, some, none, Result, ok, err, codes, ◌≡◌, refl}
use subprocess.Errors.{Text, Done}
use subprocess.Containment.Cgroup.{parse_v2_relative_path}
use subprocess.Containment.Cgroup.Leaf.{
  CgroupLeaf, LeafSystem, trim_slashes, give_up, flags_set, flags_read, procs_opened, kill_tested,
  dir_created, create_at, create_below, cgroup_file_read, try_create_leaf,
}

module _ (S : Type 0) (I : Type 0) (sys : LeafSystem S I) where
  -- What becomes of a directory that was made, and of the descriptor `fd` opened in it.
  pub data Opened (leaf : Text) (fd : ℕ) (u : S) : Option CgroupLeaf → S → Type 0 where
    placed :
        (flags : ℕ) (v : S) (t : S)
        → sys.get_flags u fd ≡ (some flags, v)
        → sys.set_flags v fd (sys.without_cloexec flags) ≡ (true, t)
        → Opened leaf fd u (some record { leaf_path = leaf; procs_fd = fd }) t
    unread :
        (t : S)
        → sys.get_flags u fd ≡ (none, t)
        → Opened leaf fd u none (sys.remove_dir (sys.close t fd) leaf).1
    unset :
        (flags : ℕ) (v : S) (t : S)
        → sys.get_flags u fd ≡ (some flags, v)
        → sys.set_flags v fd (sys.without_cloexec flags) ≡ (false, t)
        → Opened leaf fd u none (sys.remove_dir (sys.close t fd) leaf).1

  pub data Made (leaf : Text) (u : S) : Option CgroupLeaf → S → Type 0 where
    too_old :
        (sys.exists u (sys.join leaf (codes "cgroup.kill"))).0 ≡ false
        → Made leaf u none
            (sys.remove_dir (sys.exists u (sys.join leaf (codes "cgroup.kill"))).1 leaf).1
    left_behind :
        (e : I) (t : S)
        → (sys.exists u (sys.join leaf (codes "cgroup.kill"))).0 ≡ true
        → sys.open_write
            (sys.exists u (sys.join leaf (codes "cgroup.kill"))).1
            (sys.join leaf (codes "cgroup.procs"))
          ≡ (err e, t)
        → Made leaf u none t
    opened :
        (fd : ℕ) (t : S) (r : Option CgroupLeaf) (v : S)
        → (sys.exists u (sys.join leaf (codes "cgroup.kill"))).0 ≡ true
        → sys.open_write
            (sys.exists u (sys.join leaf (codes "cgroup.kill"))).1
            (sys.join leaf (codes "cgroup.procs"))
          ≡ (ok fd, t)
        → Opened leaf fd t r v
        → Made leaf u r v

  flags_set-Opened :
      (leaf : Text) (fd : ℕ) (u : S) (flags : ℕ) (v : S) (done : Bool) (t : S)
      → sys.get_flags u fd ≡ (some flags, v)
      → sys.set_flags v fd (sys.without_cloexec flags) ≡ (done, t)
      → let r = flags_set sys leaf fd done t in Opened leaf fd u r.0 r.1
  unfolding flags_set give_up
  flags_set-Opened leaf fd u flags v true t f q = Opened.placed flags v t f q
  flags_set-Opened leaf fd u flags v false t f q = Opened.unset flags v t f q

  flags_read-Opened :
      (leaf : Text) (fd : ℕ) (u : S) (a : Option ℕ) (t : S)
      → sys.get_flags u fd ≡ (a, t)
      → let r = flags_read sys leaf fd a t in Opened leaf fd u r.0 r.1
  unfolding flags_read give_up
  flags_read-Opened leaf fd u none t q = Opened.unread t q
  flags_read-Opened leaf fd u (some flags) t q = flags_set-Opened leaf fd u flags t _ _ q refl

  procs_opened-Made :
      (leaf : Text) (u : S) (a : Result ℕ I) (t : S)
      → (sys.exists u (sys.join leaf (codes "cgroup.kill"))).0 ≡ true
      → sys.open_write
          (sys.exists u (sys.join leaf (codes "cgroup.kill"))).1
          (sys.join leaf (codes "cgroup.procs"))
        ≡ (a, t)
      → let r = procs_opened sys leaf a t in Made leaf u r.0 r.1
  unfolding procs_opened
  procs_opened-Made leaf u (ok fd) t k q =
      Made.opened fd t _ _ k q (flags_read-Opened leaf fd t _ _ refl)
  procs_opened-Made leaf u (err e) t k q = Made.left_behind e t k q

  kill_tested-Made :
      (leaf : Text) (u : S) (there : Bool)
      → (sys.exists u (sys.join leaf (codes "cgroup.kill"))).0 ≡ there
      → let r = kill_tested sys leaf there (sys.exists u (sys.join leaf (codes "cgroup.kill"))).1 in
        Made leaf u r.0 r.1
  unfolding kill_tested
  kill_tested-Made leaf u true q = procs_opened-Made leaf u _ _ q refl
  kill_tested-Made leaf u false q = Made.too_old q

  -- How the creation of a leaf ends.
  pub data Creates (s : S) : Option CgroupLeaf → S → Type 0 where
    unreadable :
        (e : I) (t : S)
        → sys.read_to_string s (codes "/proc/self/cgroup") ≡ (err e, t)
        → Creates s none t
    not_v2 :
        (contents : Text) (t : S)
        → sys.read_to_string s (codes "/proc/self/cgroup") ≡ (ok contents, t)
        → parse_v2_relative_path contents ≡ none
        → Creates s none t
    unmade :
        (contents : Text) (rel_path : Text) (t : S) (seq : ℕ) (v : S) (leaf : Text) (e : I) (u : S)
        → sys.read_to_string s (codes "/proc/self/cgroup") ≡ (ok contents, t)
        → parse_v2_relative_path contents ≡ some rel_path
        → sys.next_seq t ≡ (seq, v)
        → leaf ≡ sys.join (sys.join (codes "/sys/fs/cgroup") (trim_slashes rel_path)) (sys.name seq)
        → sys.create_dir v leaf ≡ (err e, u)
        → Creates s none u
    made :
        (contents : Text) (rel_path : Text) (t : S) (seq : ℕ) (v : S) (leaf : Text) (u : S)
        (r : Option CgroupLeaf) (w : S)
        → sys.read_to_string s (codes "/proc/self/cgroup") ≡ (ok contents, t)
        → parse_v2_relative_path contents ≡ some rel_path
        → sys.next_seq t ≡ (seq, v)
        → leaf ≡ sys.join (sys.join (codes "/sys/fs/cgroup") (trim_slashes rel_path)) (sys.name seq)
        → sys.create_dir v leaf ≡ (ok tt, u)
        → Made leaf u r w
        → Creates s r w

  create_at-Creates :
      (s : S) (contents rel_path : Text) (t : S) (leaf : Text) (a : Result Done I) (u : S)
      → sys.read_to_string s (codes "/proc/self/cgroup") ≡ (ok contents, t)
      → parse_v2_relative_path contents ≡ some rel_path
      → leaf
        ≡ sys.join
            (sys.join (codes "/sys/fs/cgroup") (trim_slashes rel_path))
            (sys.name (sys.next_seq t).0)
      → sys.create_dir (sys.next_seq t).1 leaf ≡ (a, u)
      → let r = dir_created sys leaf a u in Creates s r.0 r.1
  unfolding dir_created
  create_at-Creates s contents rel_path t leaf (ok tt) u h p l q =
      Creates.made contents rel_path t _ _ leaf u _ _ h p refl l q (kill_tested-Made leaf u _ refl)
  create_at-Creates s contents rel_path t leaf (err e) u h p l q =
      Creates.unmade contents rel_path t _ _ leaf e u h p refl l q

  create_below-Creates :
      (s : S) (contents : Text) (a : Option Text) (t : S)
      → sys.read_to_string s (codes "/proc/self/cgroup") ≡ (ok contents, t)
      → parse_v2_relative_path contents ≡ a
      → let r = create_below sys a t in Creates s r.0 r.1
  unfolding create_below create_at
  create_below-Creates s contents none t h p = Creates.not_v2 contents t h p
  create_below-Creates s contents (some rel_path) t h p =
      create_at-Creates s contents rel_path t _ _ _ h p refl refl

  read-Creates :
      (s : S) (a : Result Text I) (t : S)
      → sys.read_to_string s (codes "/proc/self/cgroup") ≡ (a, t)
      → let r = cgroup_file_read sys a t in Creates s r.0 r.1
  unfolding cgroup_file_read
  read-Creates s (ok contents) t h = create_below-Creates s contents _ t h refl
  read-Creates s (err e) t h = Creates.unreadable e t h

  -- How the creation of a leaf ends. Without a leaf: the list of the process's groups cannot be read or
  -- names no v2 group, the directory cannot be made, or it was made and removed again since it has no kill
  -- file or the flags of the descriptor, which is closed before, cannot be read or set; or it was made and is
  -- left behind, where its list of processes cannot be opened. With a leaf: its directory was made below
  -- the process's own group, has a kill file, and the leaf's descriptor is that of its list of processes,
  -- with FD_CLOEXEC cleared last of all.
  pub try_create_leaf-Creates : (s : S) → let r = try_create_leaf sys s in Creates s r.0 r.1
  unfolding try_create_leaf
  try_create_leaf-Creates s = read-Creates s _ _ refl
