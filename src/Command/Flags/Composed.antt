-- ===== src/Command/Flags/Composed.antt =====
-- Which flags a composed word has (src/command/flags.rs, src/containment/windows.rs).
use subprocess.Prelude.{
  subst, ℕ, Bool, true, false, not, ◌&&◌, ◌||◌, List, [], ◌∷◌, Option, some, none, if◌then◌else◌,
  ok, ◌≡◌, refl, arith, Bool-cases, ◌∙◌, inl, inr,
}
use subprocess.Graceful.{GracefulMechanism}
use subprocess.Command.{ContainMode, Nesting, ContainRequest, FlagsRequest}
use subprocess.Command.Flags.{
  Flag, Word, SpawnBackend, Reserved, reserved_table, bits_of, reserved_bits_in, or, no_flags,
  root_flags, group_flags, no_window_flag, detached_flag, breakaway_flag, raw_backend_flags,
  WindowsSpawn, is_tree_walk, contained_flags, setup_in, windows_contain_setup, is_raw, when,
  is_some, composed, unreserved, refused_bits, windows_spawn, mechanism_from_flags,
}

abbrev walks : Option ContainMode → Bool
walks (some mode) = is_tree_walk mode
walks none = false

-- The flags that a spawn asks for by the builder's settings.
unfoldable pub asked : ContainRequest → FlagsRequest → Bool → SpawnBackend → Word
asked contain flags is_root backend Flag.debug_process = false
asked contain flags is_root backend Flag.debug_only_this_process = false
asked contain flags is_root backend Flag.create_suspended =
    is_some contain.mode && is_root && not (walks contain.mode)
asked contain flags is_root backend Flag.detached_process = flags.detached
asked contain flags is_root backend Flag.create_new_console = false
asked contain flags is_root backend Flag.create_new_process_group = is_some contain.mode
asked contain flags is_root backend Flag.create_unicode_environment = is_raw backend
asked contain flags is_root backend Flag.extended_startupinfo_present = is_raw backend
asked contain flags is_root backend Flag.create_breakaway_from_job = flags.breakaway_from_job
asked contain flags is_root backend Flag.create_no_window = flags.no_window

-- The cooperative signal that such a spawn leaves.
unfoldable pub left : ContainRequest → FlagsRequest → GracefulMechanism
left contain flags =
    if not (is_some contain.mode)
    then GracefulMechanism.nothing
    else if flags.detached || flags.no_window
    then GracefulMechanism.other_console_group
    else GracefulMechanism.console_group

-- No flag of the table is in the word.
abbrev NoneOf : List Reserved → Word → Type 0
NoneOf [] word = Unit
NoneOf (r ∷ table) word = (word r.bit ≡ false) × NoneOf table word

bits_of-NoneOf : (table : List Reserved) (word : Word) → bits_of table word ≡ [] → NoneOf table word
unfolding bits_of
bits_of-NoneOf [] word h = tt
bits_of-NoneOf (r ∷ table) word h = elim (Bool-cases (word r.bit)) [
  | inl b ↦ absurd (ground (arith, h, b))
  | inr b ↦ (b, bits_of-NoneOf table word (rw b at h))
]

NoneOf-absent : (word : Word) → NoneOf reserved_table word → (f : Flag) → word f ≡ false
unfolding reserved_table
NoneOf-absent word h Flag.debug_process = h.0
NoneOf-absent word h Flag.debug_only_this_process = h.1.0
NoneOf-absent word h Flag.create_suspended = h.1.1.0
NoneOf-absent word h Flag.detached_process = h.1.1.1.0
NoneOf-absent word h Flag.create_new_console = h.1.1.1.1.0
NoneOf-absent word h Flag.create_new_process_group = h.1.1.1.1.1.0
NoneOf-absent word h Flag.create_unicode_environment = h.1.1.1.1.1.1.0
NoneOf-absent word h Flag.extended_startupinfo_present = h.1.1.1.1.1.1.1.0
NoneOf-absent word h Flag.create_breakaway_from_job = h.1.1.1.1.1.1.1.1.0
NoneOf-absent word h Flag.create_no_window = h.1.1.1.1.1.1.1.1.1.0

-- What holds of a word that a spawn supplies.
pub record Composes (has : ℕ → Word) (contain : ContainRequest) (flags : FlagsRequest)
    (is_root : Bool) (backend : SpawnBackend) (spawn : WindowsSpawn) : Type 0 where
  pub unset : (f : Flag) → has flags.raw f ≡ false
  pub inside : flags.breakaway_from_job && is_some contain.mode ≡ false
  pub exact : (f : Flag) → spawn.creation_flags f ≡ asked contain flags is_root backend f
  pub signalled : mechanism_from_flags spawn.creation_flags ≡ left contain flags

abbrev suspends : Word
suspends Flag.create_suspended = true
suspends _ = false

contained-flags : (b : Bool) (f : Flag) → contained_flags b f ≡ group_flags f || (b && suspends f)
unfolding contained_flags group_flags root_flags
contained-flags true Flag.debug_process = refl
contained-flags true Flag.debug_only_this_process = refl
contained-flags true Flag.create_suspended = refl
contained-flags true Flag.detached_process = refl
contained-flags true Flag.create_new_console = refl
contained-flags true Flag.create_new_process_group = refl
contained-flags true Flag.create_unicode_environment = refl
contained-flags true Flag.extended_startupinfo_present = refl
contained-flags true Flag.create_breakaway_from_job = refl
contained-flags true Flag.create_no_window = refl
contained-flags false Flag.debug_process = refl
contained-flags false Flag.debug_only_this_process = refl
contained-flags false Flag.create_suspended = refl
contained-flags false Flag.detached_process = refl
contained-flags false Flag.create_new_console = refl
contained-flags false Flag.create_new_process_group = refl
contained-flags false Flag.create_unicode_environment = refl
contained-flags false Flag.extended_startupinfo_present = refl
contained-flags false Flag.create_breakaway_from_job = refl
contained-flags false Flag.create_no_window = refl

-- The flags of the setup for containment.
setup_in-flags :
    (mode : Option ContainMode) (nesting : Nesting) (is_root : Bool) (f : Flag)
    → (setup_in mode nesting is_root).creation_flags f
      ≡ is_some mode && (group_flags f || (is_root && not (walks mode) && suspends f))
unfolding setup_in no_flags is_some
setup_in-flags none nesting is_root f = refl
setup_in-flags (some mode) nesting is_root f = contained-flags _ f ∙ ground arith

-- Every flag that cannot come from the raw word is one that was asked for.
composed-asked :
    (has : ℕ → Word) (contain : ContainRequest) (flags : FlagsRequest) (is_root : Bool)
    (backend : SpawnBackend) (f : Flag)
    → has flags.raw f ≡ false
    → (composed has contain flags is_root backend).creation_flags f
      ≡ asked contain flags is_root backend f
unfolding composed windows_contain_setup group_flags no_window_flag detached_flag breakaway_flag
    raw_backend_flags when or asked
composed-asked has contain flags is_root backend Flag.debug_process h =
    ground (arith, h, setup_in-flags contain.mode contain.nesting is_root Flag.debug_process)
composed-asked has contain flags is_root backend Flag.debug_only_this_process h =
    ground
      (arith, h, setup_in-flags contain.mode contain.nesting is_root Flag.debug_only_this_process)
composed-asked has contain flags is_root backend Flag.create_suspended h =
    ground (arith, h, setup_in-flags contain.mode contain.nesting is_root Flag.create_suspended)
composed-asked has contain flags is_root backend Flag.detached_process h =
    ground (arith, h, setup_in-flags contain.mode contain.nesting is_root Flag.detached_process)
composed-asked has contain flags is_root backend Flag.create_new_console h =
    ground (arith, h, setup_in-flags contain.mode contain.nesting is_root Flag.create_new_console)
composed-asked has contain flags is_root backend Flag.create_new_process_group h =
    ground
      (arith, h, setup_in-flags contain.mode contain.nesting is_root Flag.create_new_process_group)
composed-asked has contain flags is_root backend Flag.create_unicode_environment h =
    ground (
      arith,
      h,
      setup_in-flags contain.mode contain.nesting is_root Flag.create_unicode_environment,
    )
composed-asked has contain flags is_root backend Flag.extended_startupinfo_present h = ground (
  arith,
  h,
  setup_in-flags contain.mode contain.nesting is_root Flag.extended_startupinfo_present,
)
composed-asked has contain flags is_root backend Flag.create_breakaway_from_job h =
    ground
      (arith, h, setup_in-flags contain.mode contain.nesting is_root Flag.create_breakaway_from_job)
composed-asked has contain flags is_root backend Flag.create_no_window h =
    ground (arith, h, setup_in-flags contain.mode contain.nesting is_root Flag.create_no_window)

-- What the composed word tells of the cooperative signal.
mechanism-left :
    (word : Word) (contain : ContainRequest) (flags : FlagsRequest) (is_root : Bool)
    (backend : SpawnBackend)
    → ((f : Flag) → word f ≡ asked contain flags is_root backend f)
    → mechanism_from_flags word ≡ left contain flags
unfolding mechanism_from_flags left asked
mechanism-left word contain flags is_root backend h = ground (
  arith,
  h Flag.create_new_process_group,
  h Flag.detached_process,
  h Flag.create_new_console,
  h Flag.create_no_window,
)

composed-Composes :
    (has : ℕ → Word) (contain : ContainRequest) (flags : FlagsRequest) (is_root : Bool)
    (backend : SpawnBackend)
    → ((f : Flag) → has flags.raw f ≡ false)
    → flags.breakaway_from_job && is_some contain.mode ≡ false
    → Composes has contain flags is_root backend (composed has contain flags is_root backend)
composed-Composes has contain flags is_root backend unset inside = record {
  unset = unset;
  inside = inside;
  exact = λ f. composed-asked has contain flags is_root backend f (unset f);
  signalled =
      mechanism-left _ contain flags is_root backend
        (λ f. composed-asked has contain flags is_root backend f (unset f));
}

module _ (I : Type 0) (has : ℕ → Word) (contain : ContainRequest) (flags : FlagsRequest)
    (is_root : Bool) (backend : SpawnBackend) (spawn : WindowsSpawn) where
  unreserved-Composes :
      ((f : Flag) → has flags.raw f ≡ false)
      → unreserved {I = I} has contain flags is_root backend ≡ ok spawn
      → Composes has contain flags is_root backend spawn
  unfolding unreserved
  unreserved-Composes unset h =
      elim (Bool-cases (flags.breakaway_from_job && is_some contain.mode)) [
        | inl b ↦ absurd (cc (rw b at h))
        | inr b ↦
            let built : composed has contain flags is_root backend ≡ spawn = cc (rw b at h) in
            subst (λ x. Composes has contain flags is_root backend x) built
              (composed-Composes has contain flags is_root backend unset b)
      ]

  refused_bits-Composes :
      (hits : List Reserved)
      → reserved_bits_in (has flags.raw) ≡ hits
      → refused_bits has hits (unreserved {I = I} has contain flags is_root backend) ≡ ok spawn
      → Composes has contain flags is_root backend spawn
  unfolding refused_bits reserved_bits_in
  refused_bits-Composes [] q h =
      unreserved-Composes (NoneOf-absent _ (bits_of-NoneOf reserved_table _ q)) h
  refused_bits-Composes (r ∷ hits) q h = absurd (cc h)

  -- A word that windows_spawn supplies has no flag from the raw word among those that have a name, is not
  -- of a spawn that is both contained and breaks away, and has exactly the flags that the settings ask for.
  -- The mechanism read off it is none for a spawn that is not contained, that of another console for one
  -- that is contained and detached or without window, and else that of the console.
  pub windows_spawn-Composes :
      windows_spawn {I = I} has contain flags is_root backend ≡ ok spawn
      → Composes has contain flags is_root backend spawn
  unfolding windows_spawn
  windows_spawn-Composes h = refused_bits-Composes _ refl h
