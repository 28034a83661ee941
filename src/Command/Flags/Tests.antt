-- ===== src/Command/Flags/Tests.antt =====
-- A contained and detached spawn.
use subprocess.Prelude.{ℕ, ◌==◌, true, false, some, ok, ◌≡◌, refl}
use subprocess.Command.{ContainMode, Nesting, ContainRequest, FlagsRequest}
use subprocess.Command.Flags.{
  Flag, Word, SpawnBackend, reserved_table, bits_of, reserved_bits_in, is_some, composed,
  unreserved, refused_bits, windows_spawn, WindowsSpawn,
}
use subprocess.Command.Flags.Composed.{Composes, windows_spawn-Composes}

-- Of the flags only this one is read off a number, as the third bit.
abbrev has : ℕ → Word
has n Flag.create_suspended = n == 4
has n _ = false

abbrev contained : ContainRequest
contained = record { mode = some ContainMode.strongest; nesting = Nesting.mark }

abbrev detached : FlagsRequest
detached = record { no_window = false; detached = true; breakaway_from_job = false; raw = 0 }

abbrev spawn : WindowsSpawn
spawn = composed has contained detached true SpawnBackend.raw

supplied : windows_spawn {I = ℕ} has contained detached true SpawnBackend.raw ≡ ok spawn
unfolding windows_spawn refused_bits reserved_bits_in bits_of reserved_table unreserved is_some
supplied = refl

windows_spawn-Composes_example : Composes has contained detached true SpawnBackend.raw spawn
windows_spawn-Composes_example =
    windows_spawn-Composes ℕ has contained detached true SpawnBackend.raw spawn supplied
