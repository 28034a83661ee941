-- ===== src/Elevation/Plan/Matrix.antt =====
-- The structural matrix as a table of the requests that can work.
use subprocess.Prelude.{Bool, true, false, Option, some, none, ◌≡◌, refl}
use subprocess.Errors.{Text, Error}
use subprocess.Elevation.Common.{Auth, Backend}
use subprocess.Elevation.Plan.{
  BackendSet, Os, Host, structural, structural_posix, structural_windows, impossible_on_macos,
  gui_without_dialog, pkexec_without_gui, secret_without_sudo, secret_for, secret_op, effective,
  is_macos_gui_auto,
}

-- What takes a secret when nobody names the backend: sudo, also where neither is installed.
abbrev auto_is_sudo : Option Text → Option Text → Bool
auto_is_sudo (some p) doas = true
auto_is_sudo none (some p) = false
auto_is_sudo none none = true

abbrev pub supports_sudo : Auth → Bool
supports_sudo Auth.gui = false
supports_sudo _ = true

abbrev pub supports_prompt : Auth → Bool
supports_prompt Auth.interactive = true
supports_prompt Auth.non_interactive = true
supports_prompt _ = false

abbrev pub supports_auto : BackendSet → Auth → Bool
supports_auto available (Auth.askpass p) = auto_is_sudo available.sudo available.doas
supports_auto available (Auth.stdin s) = auto_is_sudo available.sudo available.doas
supports_auto available auth = supports_prompt auth

abbrev pub supports_gui : Auth → Bool
supports_gui Auth.gui = true
supports_gui _ = false

abbrev pub supports : BackendSet → Os → Backend → Auth → Bool
supports available Os.windows Backend.auto Auth.interactive = true
supports available Os.windows Backend.auto auth = supports_gui auth
supports available Os.windows _ auth = false
supports available Os.unix Backend.pkexec auth = supports_gui auth
supports available Os.unix Backend.run0 auth = supports_prompt auth
supports available Os.mac_os Backend.pkexec auth = false
supports available Os.mac_os Backend.run0 auth = false
supports available Os.mac_os Backend.auto Auth.gui = true
supports available os Backend.sudo auth = supports_sudo auth
supports available os Backend.doas auth = supports_prompt auth
supports available os Backend.auto auth = supports_auto available auth

module _ (I : Type 0) where
  -- Either the table has the request and the matrix is silent, or it lacks it and the matrix
  -- answers `unsupported`.
  abbrev pub Verdict : Bool → Option (Error I) → Type 0
  Verdict true o = o ≡ none
  Verdict false o =
      (op : Text) × (platform : Text) × (detail : Text) × (o
        ≡ some (Error.unsupported op platform detail))

  secret-Verdict :
      (os : Os) (auth : Auth) (run0 : Option Text) (sudo : Option Text) (doas : Option Text)
      (pkexec : Option Text) (osascript : Option Text)
      → Verdict (auto_is_sudo sudo doas) (
          secret_for os Backend.auto auth (
            effective
              (record {
                run0 = run0;
                sudo = sudo;
                doas = doas;
                pkexec = pkexec;
                osascript = osascript;
              })
              Backend.auto))
  unfolding secret_for secret_op effective
  secret-Verdict os auth run0 (some p) doas pkexec osascript = refl
  secret-Verdict os auth run0 none none pkexec osascript = refl
  secret-Verdict os (Auth.askpass p) run0 none (some d) pkexec osascript = (_, _, _, refl)
  secret-Verdict os Auth.interactive run0 none (some d) pkexec osascript = (_, _, _, refl)
  secret-Verdict os Auth.non_interactive run0 none (some d) pkexec osascript = (_, _, _, refl)
  secret-Verdict os Auth.gui run0 none (some d) pkexec osascript = (_, _, _, refl)
  secret-Verdict os (Auth.stdin s) run0 none (some d) pkexec osascript = (_, _, _, refl)

  -- The structural matrix answers nothing on a request that the table supports, and an `unsupported`
  -- error on every other.
  pub structural-Verdict :
      (host : Host) (os : Os) (backend : Backend) (auth : Auth)
      → Verdict (supports host.available os backend auth) (structural host os backend auth)
  unfolding structural structural_posix structural_windows impossible_on_macos gui_without_dialog
      pkexec_without_gui secret_without_sudo secret_for secret_op effective is_macos_gui_auto
  structural-Verdict host Os.unix Backend.auto Auth.interactive = refl
  structural-Verdict host Os.unix Backend.auto Auth.non_interactive = refl
  structural-Verdict host Os.unix Backend.auto (Auth.askpass p) =
      let a = host.available in
      secret-Verdict Os.unix (Auth.askpass p) a.run0 a.sudo a.doas a.pkexec a.osascript
  structural-Verdict host Os.unix Backend.auto (Auth.stdin s) =
      let a = host.available in
      secret-Verdict Os.unix (Auth.stdin s) a.run0 a.sudo a.doas a.pkexec a.osascript
  structural-Verdict host Os.unix Backend.auto Auth.gui = (_, _, _, refl)
  structural-Verdict host Os.unix Backend.run0 Auth.interactive = refl
  structural-Verdict host Os.unix Backend.run0 Auth.non_interactive = refl
  structural-Verdict host Os.unix Backend.run0 (Auth.askpass p) = (_, _, _, refl)
  structural-Verdict host Os.unix Backend.run0 (Auth.stdin s) = (_, _, _, refl)
  structural-Verdict host Os.unix Backend.run0 Auth.gui = (_, _, _, refl)
  structural-Verdict host Os.unix Backend.sudo Auth.interactive = refl
  structural-Verdict host Os.unix Backend.sudo Auth.non_interactive = refl
  structural-Verdict host Os.unix Backend.sudo (Auth.askpass p) = refl
  structural-Verdict host Os.unix Backend.sudo (Auth.stdin s) = refl
  structural-Verdict host Os.unix Backend.sudo Auth.gui = (_, _, _, refl)
  structural-Verdict host Os.unix Backend.doas Auth.interactive = refl
  structural-Verdict host Os.unix Backend.doas Auth.non_interactive = refl
  structural-Verdict host Os.unix Backend.doas (Auth.askpass p) = (_, _, _, refl)
  structural-Verdict host Os.unix Backend.doas (Auth.stdin s) = (_, _, _, refl)
  structural-Verdict host Os.unix Backend.doas Auth.gui = (_, _, _, refl)
  structural-Verdict host Os.unix Backend.pkexec Auth.interactive = (_, _, _, refl)
  structural-Verdict host Os.unix Backend.pkexec Auth.non_interactive = (_, _, _, refl)
  structural-Verdict host Os.unix Backend.pkexec (Auth.askpass p) = (_, _, _, refl)
  structural-Verdict host Os.unix Backend.pkexec (Auth.stdin s) = (_, _, _, refl)
  structural-Verdict host Os.unix Backend.pkexec Auth.gui = refl
  structural-Verdict host Os.mac_os Backend.auto Auth.interactive = refl
  structural-Verdict host Os.mac_os Backend.auto Auth.non_interactive = refl
  structural-Verdict host Os.mac_os Backend.auto (Auth.askpass p) =
      let a = host.available in
      secret-Verdict Os.mac_os (Auth.askpass p) a.run0 a.sudo a.doas a.pkexec a.osascript
  structural-Verdict host Os.mac_os Backend.auto (Auth.stdin s) =
      let a = host.available in
      secret-Verdict Os.mac_os (Auth.stdin s) a.run0 a.sudo a.doas a.pkexec a.osascript
  structural-Verdict host Os.mac_os Backend.auto Auth.gui = refl
  structural-Verdict host Os.mac_os Backend.run0 auth = (_, _, _, refl)
  structural-Verdict host Os.mac_os Backend.sudo Auth.interactive = refl
  structural-Verdict host Os.mac_os Backend.sudo Auth.non_interactive = refl
  structural-Verdict host Os.mac_os Backend.sudo (Auth.askpass p) = refl
  structural-Verdict host Os.mac_os Backend.sudo (Auth.stdin s) = refl
  structural-Verdict host Os.mac_os Backend.sudo Auth.gui = (_, _, _, refl)
  structural-Verdict host Os.mac_os Backend.doas Auth.interactive = refl
  structural-Verdict host Os.mac_os Backend.doas Auth.non_interactive = refl
  structural-Verdict host Os.mac_os Backend.doas (Auth.askpass p) = (_, _, _, refl)
  structural-Verdict host Os.mac_os Backend.doas (Auth.stdin s) = (_, _, _, refl)
  structural-Verdict host Os.mac_os Backend.doas Auth.gui = (_, _, _, refl)
  structural-Verdict host Os.mac_os Backend.pkexec auth = (_, _, _, refl)
  structural-Verdict host Os.windows Backend.auto Auth.interactive = refl
  structural-Verdict host Os.windows Backend.auto Auth.non_interactive = (_, _, _, refl)
  structural-Verdict host Os.windows Backend.auto (Auth.askpass p) = (_, _, _, refl)
  structural-Verdict host Os.windows Backend.auto (Auth.stdin s) = (_, _, _, refl)
  structural-Verdict host Os.windows Backend.auto Auth.gui = refl
  structural-Verdict host Os.windows Backend.run0 auth = (_, _, _, refl)
  structural-Verdict host Os.windows Backend.sudo auth = (_, _, _, refl)
  structural-Verdict host Os.windows Backend.doas auth = (_, _, _, refl)
  structural-Verdict host Os.windows Backend.pkexec auth = (_, _, _, refl)
