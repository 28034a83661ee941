-- ===== src/Containment/Dispatch/Tests.antt =====
-- A root on Linux whose control group leaf holds it, and one on macOS with a marker.
use subprocess.Prelude.{ℕ, true, false, [], ◌∷◌, some, none, ok, ◌≡◌, refl, ◌==◌, pos}
use subprocess.Identity.{Resolved}
use subprocess.Command.{ContainMode}
use subprocess.Containment.Dispatch.{Containment, Attached, marker_wanted}
use subprocess.Containment.Dispatch.Attach.{
  Prepared, Platform, AttachSystem, attach_tree, attach_mode, attach_linux, attach_leaf,
  attach_unix, marker_root, marker_pgid, new_marker, prepare, prepare_macos,
}
use subprocess.Containment.Dispatch.Agreement.{Matches, attach_tree-Agrees}

abbrev host : AttachSystem ℕ ℕ ℕ ℕ
host = record {
  try_create_leaf = λ s. (some 5, s);
  install_marker = λ s. (some (record { read = 3; handle = 7; read_handle = 9 }), s);
  contains_pid = λ s leaf pid. (pid == 20, s);
  drop_leaf = λ s leaf. s;
  query = λ s pid. (Resolved.unknown, s);
  attach_job = λ s. (ok none, s);
  io_text = λ e. [];
  decimal = λ n. n ∷ [];
}

abbrev with_leaf : Prepared ℕ
with_leaf = record {
  mode = some ContainMode.strongest;
  is_root = true;
  cgroup_leaf = some 5;
  marker = none;
}

attach_tree-marker :
    (attach_tree host Platform.macos 20
      (prepare host Platform.macos false false (some ContainMode.strongest) 0).0
      0).0
    ≡ ok (
      Containment.fd_marker,
      Attached.fd_marker (record {
        read = 3;
        handle = 7;
        read_handle = 9;
        root = none;
        root_denied = true;
        pgid = some (pos 20);
      }),
    )
unfolding attach_tree attach_mode attach_unix marker_root marker_pgid new_marker prepare
    prepare_macos marker_wanted
attach_tree-marker = refl

attach_tree-Agrees_example : Matches ℕ ℕ ℕ ℕ host (Containment.cgroup_v2, Attached.cgroup 5)
unfolding attach_tree attach_mode attach_linux attach_leaf
attach_tree-Agrees_example = attach_tree-Agrees ℕ ℕ ℕ ℕ host Platform.linux 20 with_leaf 0
