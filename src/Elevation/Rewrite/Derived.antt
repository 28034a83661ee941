-- ===== src/Elevation/Rewrite/Derived.antt =====
-- The derived command, and what the rewrite leaves of the caller's
-- (src/elevation/posix.rs, lines 532 to 538 and 626 to 663).
use subprocess.Prelude.{
  zero, suc, ◌∷◌, ◌==◌, ◌≢◌, ◌∙◌, arith, false, true, List, [], Option, some, none, ◌≡◌, refl,
  if◌then◌else◌,
}
use subprocess.Errors.{Text}
use subprocess.Command.{Fd, ResolvedStdio, EnvOp, CommandInput, Command, new, insert_fd}
use subprocess.Child.Stdio.{lookup_fd}
use subprocess.Child.Stdio.Lookups.{lookup_fd-insert_fd}
use subprocess.Elevation.Rewrite.{is_some}
use subprocess.Elevation.Rewrite.Arms.{derive, transfer_process_attrs, take_fds, move_fds}

-- The derived command runs the command line with the directory, the containment and kill-on-drop of
-- the caller's, and without the descriptor marker.
pub record Derived {F : Type 0} (cmd : Command F) (argv : List Text) (ops : List EnvOp)
    (d : Command F) : Type 0 where
  pub input : d.input ≡ CommandInput.argv argv
  pub executable : d.executable ≡ none
  pub cwd : d.cwd ≡ cmd.cwd
  pub contain : d.contain ≡ cmd.contain
  pub kill_on_drop : d.kill_on_drop ≡ cmd.kill_on_drop
  pub env_ops : d.env_ops ≡ ops
  pub suppressed : d.fd_marker_suppressed ≡ true

-- The caller's command has lost its descriptors, and nothing else.
pub record Taken {F : Type 0} (cmd : Command F) (left : Command F) : Type 0 where
  pub input : left.input ≡ cmd.input
  pub executable : left.executable ≡ cmd.executable
  pub env_ops : left.env_ops ≡ cmd.env_ops
  pub fds : left.fds ≡ []
  pub cwd : left.cwd ≡ cmd.cwd
  pub kill_on_drop : left.kill_on_drop ≡ cmd.kill_on_drop
  pub contain : left.contain ≡ cmd.contain
  pub elevation : left.elevation ≡ cmd.elevation
  pub fd_marker_suppressed : left.fd_marker_suppressed ≡ cmd.fd_marker_suppressed
  pub flags : left.flags ≡ cmd.flags

cwd-kept : (o : Option Text) → (if is_some o then o else none) ≡ o
cwd-kept none = refl
cwd-kept (some d) = refl

pub derive-Derived :
    {F : Type 0} (argv : List Text) (ops : List EnvOp) (fds : List (Fd × ResolvedStdio F))
    (cmd : Command F)
    → Derived cmd argv ops (derive argv ops fds true cmd)
unfolding derive transfer_process_attrs new
derive-Derived argv ops fds cmd = record {
  input = refl;
  executable = refl;
  cwd = cwd-kept cmd.cwd;
  contain = refl;
  kill_on_drop = refl;
  env_ops = refl;
  suppressed = refl;
}

pub take_fds-Taken : {F : Type 0} (cmd : Command F) → Taken cmd (take_fds cmd)
unfolding take_fds
take_fds-Taken cmd = record {
  input = refl;
  executable = refl;
  env_ops = refl;
  fds = refl;
  cwd = refl;
  kill_on_drop = refl;
  contain = refl;
  elevation = refl;
  fd_marker_suppressed = refl;
  flags = refl;
}

-- The last entry of a descriptor.
abbrev pub last_entry : {A : Type 0} → Fd → List (Fd × A) → Option A
last_entry n [] = none
last_entry n ((m, a) ∷ fds) = elim (last_entry n fds) [
  | some b ↦ some b
  | none ↦ if m == n then some a else none
]

-- The descriptor of a derived command, where `stdin` is the file that the password comes from.
abbrev pub descriptor :
    {F : Type 0} → Option F → Fd → List (Fd × ResolvedStdio F) → Option (ResolvedStdio F)
descriptor (some reader) zero fds = some (ResolvedStdio.file reader)
descriptor stdin n fds = last_entry n fds

moved :
    {F : Type 0} (n : Fd) (fds into : List (Fd × ResolvedStdio F))
    → lookup_fd n (move_fds false fds into)
      ≡ (elim (last_entry n fds) [ some a ↦ some a | none ↦ lookup_fd n into ])
unfolding move_fds
moved n [] into = refl
moved n ((m, a) ∷ fds) into =
    moved n fds (insert_fd m a into) ∙ ground (arith, lookup_fd-insert_fd m n a into)

moved_past :
    {F : Type 0} (n : Fd) (fds into : List (Fd × ResolvedStdio F))
    → n ≢ 0
    → lookup_fd n (move_fds true fds into)
      ≡ (elim (last_entry n fds) [ some a ↦ some a | none ↦ lookup_fd n into ])
unfolding move_fds
moved_past n [] into ne = refl
moved_past n ((zero, a) ∷ fds) into ne = moved_past n fds into ne ∙ ground (arith, ne)
moved_past n ((suc m, a) ∷ fds) into ne =
    let other : (suc m == 0) ≡ false = ground arith in
    rw other (
      moved_past n fds (insert_fd (suc m) a into) ne
      ∙ ground (arith, ne, lookup_fd-insert_fd (suc m) n a into))

moved_none :
    {F : Type 0} (fds into : List (Fd × ResolvedStdio F))
    → lookup_fd 0 (move_fds true fds into) ≡ lookup_fd 0 into
unfolding move_fds
moved_none [] into = refl
moved_none ((zero, a) ∷ fds) into = moved_none fds into
moved_none ((suc m, a) ∷ fds) into =
    let other : (suc m == 0) ≡ false = ground arith in
    rw other (
      moved_none fds (insert_fd (suc m) a into)
      ∙ lookup_fd-insert_fd (suc m) 0 a into
      ∙ ground arith)

or_none : {A : Type 0} (o : Option A) → (elim o [ some a ↦ some a | none ↦ none ]) ≡ o
or_none none = refl
or_none (some a) = refl

-- The descriptors of a derived command without a password, and with one.
pub moved-descriptor :
    {F : Type 0} (n : Fd) (fds : List (Fd × ResolvedStdio F))
    → lookup_fd n (move_fds false fds []) ≡ descriptor none n fds
unfolding lookup_fd
moved-descriptor n fds = moved n fds [] ∙ or_none (last_entry n fds)

pub moved_past-descriptor :
    {F : Type 0} (reader : F) (n : Fd) (fds : List (Fd × ResolvedStdio F))
    → lookup_fd n (move_fds true fds (insert_fd 0 (ResolvedStdio.file reader) []))
      ≡ descriptor (some reader) n fds
unfolding lookup_fd
moved_past-descriptor reader zero fds =
    moved_none fds (insert_fd 0 (ResolvedStdio.file reader) [])
    ∙ lookup_fd-insert_fd 0 0 (ResolvedStdio.file reader) []
moved_past-descriptor reader (suc n) fds =
    let other : suc n ≢ 0 = omega arith in
    moved_past (suc n) fds (insert_fd 0 (ResolvedStdio.file reader) []) other
    ∙ ground (
      arith,
      lookup_fd-insert_fd 0 (suc n) (ResolvedStdio.file reader) [],
      or_none (last_entry (suc n) fds),
    )
