-- ===== src/Command/Flags.antt =====
-- The creation flags of a Windows spawn (src/command/flags.rs, src/containment/dispatch.rs,
-- src/containment/windows.rs).
pub mod Composed
mod Tests
use subprocess.Prelude.{
  ℕ, Bool, true, false, not, ◌&&◌, ◌||◌, List, [], ◌∷◌, ◌++◌, Option, some, none, if◌then◌else◌,
  Result, ok, err, codes,
}
use subprocess.Graceful.{GracefulMechanism}
use subprocess.Errors.{Text, Error, em_dash}
use subprocess.Command.{ContainMode, Nesting, ContainRequest, FlagsRequest}

-- The flags that the code names: distinct single bits of the word, in ascending order.
pub data Flag : Type 0 where
  debug_process debug_only_this_process create_suspended detached_process create_new_console
        create_new_process_group create_unicode_environment extended_startupinfo_present
        create_breakaway_from_job create_no_window :
      Flag

-- The word of creation flags is the set of its bits; those that have no name here are left as they are.
abbrev pub Word : Type 0
Word = Flag → Bool

pub data SpawnBackend : Type 0 where
  std raw : SpawnBackend

pub record Reserved : Type 0 where
  pub bit : Flag
  pub name : Text
  pub remedy : Text

unfoldable pub reserved_table : List Reserved
reserved_table =
    record {
      bit = Flag.debug_process;
      name = codes "DEBUG_PROCESS";
      remedy =
          codes
            "no replacement: it makes the spawner a debugger, and the child stops on debug events nothing here services, so wait()/wait_tree() would hang";
    }
    ∷ record {
      bit = Flag.debug_only_this_process;
      name = codes "DEBUG_ONLY_THIS_PROCESS";
      remedy = codes "no replacement: same reason as DEBUG_PROCESS";
    }
    ∷ record {
      bit = Flag.create_suspended;
      name = codes "CREATE_SUSPENDED";
      remedy =
          codes
            "no replacement today, a suspended-spawn window is being designed in cosca#49: cosca suspends and resumes a contained root itself, so a caller's suspend would be resumed silently on a contained spawn and never resumed at all on an uncontained one";
    }
    ∷ record {
      bit = Flag.detached_process;
      name = codes "DETACHED_PROCESS";
      remedy = codes "use detached()";
    }
    ∷ record {
      bit = Flag.create_new_console;
      name = codes "CREATE_NEW_CONSOLE";
      remedy =
          codes
            "no replacement: measured to give the child its own VISIBLE console window, overriding a requested window suppression";
    }
    ∷ record {
      bit = Flag.create_new_process_group;
      name = codes "CREATE_NEW_PROCESS_GROUP";
      remedy = codes "use contain(), which is what makes the child's group addressable";
    }
    ∷ record {
      bit = Flag.create_unicode_environment;
      name = codes "CREATE_UNICODE_ENVIRONMENT";
      remedy =
          codes "no replacement: both backends supply it structurally "
          ++ em_dash
          ++ codes
              " the raw one always builds a UTF-16 environment block, and std ORs the bit in regardless of what it was given";
    }
    ∷ record {
      bit = Flag.extended_startupinfo_present;
      name = codes "EXTENDED_STARTUPINFO_PRESENT";
      remedy = codes "no replacement: it announces a structure only the spawn backend can supply";
    }
    ∷ record {
      bit = Flag.create_breakaway_from_job;
      name = codes "CREATE_BREAKAWAY_FROM_JOB";
      remedy =
          codes
            "use breakaway_from_job(), which also classifies the failure a forbidding ambient job produces";
    }
    ∷ record {
      bit = Flag.create_no_window;
      name = codes "CREATE_NO_WINDOW";
      remedy = codes "use no_window()";
    }
    ∷ []

unfoldable pub bits_of : List Reserved → Word → List Reserved
bits_of [] word = []
bits_of (r ∷ table) word = let rest = bits_of table word in if word r.bit then r ∷ rest else rest

-- The table is sorted by bits.
unfoldable pub reserved_bits_in : Word → List Reserved
reserved_bits_in word = bits_of reserved_table word

unfoldable pub described : Reserved → Text
described r = r.name ++ codes " (" ++ r.remedy ++ codes ")"

unfoldable pub named : List Reserved → Text
named [] = []
named (r ∷ []) = described r
named (r ∷ q ∷ hits) = described r ++ codes "; " ++ named (q ∷ hits)

unfoldable pub or : Word → Word → Word
or a b f = a f || b f

unfoldable pub no_flags : Word
no_flags f = false

unfoldable pub root_flags : Word
root_flags Flag.create_suspended = true
root_flags Flag.create_new_process_group = true
root_flags _ = false

unfoldable pub group_flags : Word
group_flags Flag.create_new_process_group = true
group_flags _ = false

unfoldable pub no_window_flag : Word
no_window_flag Flag.create_no_window = true
no_window_flag _ = false

unfoldable pub detached_flag : Word
detached_flag Flag.detached_process = true
detached_flag _ = false

unfoldable pub breakaway_flag : Word
breakaway_flag Flag.create_breakaway_from_job = true
breakaway_flag _ = false

unfoldable pub raw_backend_flags : Word
raw_backend_flags Flag.create_unicode_environment = true
raw_backend_flags Flag.extended_startupinfo_present = true
raw_backend_flags _ = false

pub record WindowsSpawn : Type 0 where
  pub creation_flags : Word
  pub marker_env : Bool

unfoldable pub is_tree_walk : ContainMode → Bool
is_tree_walk ContainMode.tree_walk = true
is_tree_walk ContainMode.strongest = false
is_tree_walk ContainMode.session = false

unfoldable pub is_mark : Nesting → Bool
is_mark Nesting.mark = true
is_mark Nesting.opaque = false

unfoldable pub contained_flags : Bool → Word
contained_flags true = root_flags
contained_flags false = group_flags

unfoldable pub setup_in : Option ContainMode → Nesting → Bool → WindowsSpawn
setup_in none nesting is_root = record { creation_flags = no_flags; marker_env = false }
setup_in (some mode) nesting is_root = record {
  creation_flags = contained_flags (is_root && not (is_tree_walk mode));
  marker_env = is_root && is_mark nesting;
}

unfoldable pub windows_contain_setup : ContainRequest → Bool → WindowsSpawn
windows_contain_setup req is_root = setup_in req.mode req.nesting is_root

unfoldable pub is_raw : SpawnBackend → Bool
is_raw SpawnBackend.raw = true
is_raw SpawnBackend.std = false

unfoldable pub when : Bool → Word → Word → Word
when asked flag word f = if asked then or word flag f else word f

unfoldable pub is_some : Option ContainMode → Bool
is_some (some mode) = true
is_some none = false

-- `has` tells the flags that a number has set.
module _ (has : ℕ → Word) where
  unfoldable pub composed : ContainRequest → FlagsRequest → Bool → SpawnBackend → WindowsSpawn
  composed contain flags is_root backend =
      let setup = windows_contain_setup contain is_root in
      let supplied = or setup.creation_flags (has flags.raw) in
      let windowless = when flags.no_window no_window_flag supplied in
      let apart = when flags.detached detached_flag windowless in
      let away = when flags.breakaway_from_job breakaway_flag apart in
      record {
        creation_flags = when (is_raw backend) raw_backend_flags away;
        marker_env = setup.marker_env;
      }

abbrev windows : Text
windows = codes "windows"

module _ {I : Type 0} (has : ℕ → Word) where
  unfoldable pub unreserved :
      ContainRequest → FlagsRequest → Bool → SpawnBackend → Result WindowsSpawn (Error I)
  unreserved contain flags is_root backend =
      if flags.breakaway_from_job && is_some contain.mode
      then err (
          Error.unsupported (codes "breakaway_from_job() with contain()") windows (
            codes
              "cosca's containment is a job object the child must be inside for the tree teardown it reports to be true, and a nested contained spawn's containment IS inheriting the ancestor's job. Drop one of the two."))
      else ok (composed has contain flags is_root backend)

  unfoldable pub refused_bits :
      List Reserved → Result WindowsSpawn (Error I) → Result WindowsSpawn (Error I)
  refused_bits [] unreserved = unreserved
  refused_bits (r ∷ hits) unreserved = err (
      Error.unsupported (codes "creation_flags") windows (
        codes "creation flags cosca manages itself cannot be set through the raw hatch: "
        ++ named (r ∷ hits)))

  unfoldable pub windows_spawn :
      ContainRequest → FlagsRequest → Bool → SpawnBackend → Result WindowsSpawn (Error I)
  windows_spawn contain flags is_root backend =
      refused_bits (reserved_bits_in (has flags.raw)) (unreserved contain flags is_root backend)

unfoldable pub mechanism_from_flags : Word → GracefulMechanism
mechanism_from_flags word =
    if not (word Flag.create_new_process_group)
    then GracefulMechanism.nothing
    else if word Flag.detached_process || word Flag.create_new_console || word Flag.create_no_window
    then GracefulMechanism.other_console_group
    else GracefulMechanism.console_group
