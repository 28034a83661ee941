-- ===== src/Child/Stdio/Lookups.antt =====
-- Lookups in the maps keyed by descriptors.
use subprocess.Prelude.{List, [], ◌∷◌, some, ◌==◌, if◌then◌else◌, ◌≡◌, refl, arith}
use subprocess.Command.{Fd, insert_fd}
use subprocess.Child.Stdio.{lookup_fd}

pub lookup_fd-insert_fd :
    {A : Type 0} (k : Fd) (j : Fd) (a : A) (fds : List (Fd × A))
    → lookup_fd j (insert_fd k a fds) ≡ (if k == j then some a else lookup_fd j fds)
unfolding lookup_fd insert_fd
lookup_fd-insert_fd k j a [] = refl
lookup_fd-insert_fd k j a ((m, b) ∷ fds) = ground (arith, lookup_fd-insert_fd k j a fds)
