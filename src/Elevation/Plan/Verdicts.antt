-- ===== src/Elevation/Plan/Verdicts.antt =====
-- The verdicts of the planner meet their conditions.
use subprocess.Prelude.{
  Bool, true, false, ◌&&◌, ℕ, Option, some, none, ◌≡◌, refl, inl, inr, arith, sym, ap, subst, not,
  if◌then◌else◌,
}
use subprocess.Errors.{Text, Error, ElevationErrorKind}
use subprocess.Elevation.Common.{Auth, Backend, Privilege, is_auto, is_interactive}
use subprocess.Elevation.Plan.{
  BackendSet, Os, Host, Transition, structural, path, wrap, resolve, resolve_posix, resolve_auto,
  resolve_explicit, resolve_osascript, plan, plan_after, is_windows, is_mac_os, is_macos_gui_auto,
}
use subprocess.Elevation.Plan.Matrix.{supports, Verdict, structural-Verdict}
use subprocess.Elevation.Plan.Outcome.{Stands, Wraps, Tells, Meets}
use subprocess.Elevation.Plan.Requests.{
  supports-secret, no-path, doas-secret, gui_auto-not, supports-dialog,
}

abbrev pub host_of : BackendSet → Os → Bool → Bool → Option ℕ → Host
host_of available os privilege tty budget = record {
  has_privilege = privilege;
  has_tty = tty;
  available = available;
  os = os;
  arg_max = budget;
}

module _ (I : Type 0) where
  guard-Tells :
      (host : Host) (backend : Backend) (auth : Auth) (b : Backend) (p : Text) (detail : Text)
      (lost : Bool)
      → lost ≡ (is_interactive auth && not host.has_tty)
      → ((is_interactive auth ≡ true → host.has_tty ≡ true) → Wraps host backend auth b p)
      → Tells I host backend auth (
          if lost
          then Transition.reject (Error.elevation ElevationErrorKind.no_tty detail)
          else Transition.elevate_posix b p auth)
  guard-Tells host backend auth b p detail true e w = (ground arith, ground arith)
  guard-Tells host backend auth b p detail false e w = (refl, w (λ h. ground arith))

  wrap-Tells :
      (host : Host) (backend : Backend) (auth : Auth) (b : Backend) (p : Text)
      → ((is_interactive auth ≡ true → host.has_tty ≡ true) → Wraps host backend auth b p)
      → Tells I host backend auth (wrap host b p auth)
  unfolding wrap
  wrap-Tells host backend auth b p w = guard-Tells host backend auth b p _ _ refl w

  explicit-Tells :
      (host : Host) (backend : Backend) (auth : Auth) (o : Option Text)
      → path host.available backend ≡ o
      → is_windows host.os ≡ false
      → is_auto backend ≡ false
      → is_macos_gui_auto host.os backend auth ≡ false
      → supports host.available host.os backend auth ≡ true
      → Tells I host backend auth (resolve_explicit host backend auth o)
  unfolding resolve_explicit
  explicit-Tells host backend auth none e posix n d h = inr (d, e)
  explicit-Tells host backend auth (some p) e posix n d h =
      wrap-Tells host backend auth backend p (λ t. record {
        posix = posix;
        stands = Stands.named n;
        resolved = e;
        secret = supports-secret host.available host.os backend auth posix n h;
        dialog = supports-dialog host.available host.os backend auth posix d h;
        terminal = t;
      })

  auto-Tells :
      (host : Host) (auth : Auth) (s : Option Text) (o : Option Text)
      → host.available.sudo ≡ s
      → host.available.doas ≡ o
      → is_windows host.os ≡ false
      → is_macos_gui_auto host.os Backend.auto auth ≡ false
      → supports host.available host.os Backend.auto auth ≡ true
      → Tells I host Backend.auto auth (resolve_auto host auth s o)
  unfolding resolve_auto
  auto-Tells host auth none none es eo posix d h = inr (d, no-path host.available es eo)
  auto-Tells host auth (some p) o es eo posix d h =
      wrap-Tells host Backend.auto auth Backend.sudo p (λ t. record {
        posix = posix;
        stands = Stands.first;
        resolved = (unfold path in es);
        secret = (λ c. refl);
        dialog = supports-dialog host.available host.os Backend.auto auth posix d h;
        terminal = t;
      })
  auto-Tells host auth none (some p) es eo posix d h =
      wrap-Tells host Backend.auto auth Backend.doas p (λ t. record {
        posix = posix;
        stands = Stands.second es;
        resolved = (unfold path in eo);
        secret = doas-secret host.available host.os auth p es eo posix h;
        dialog = supports-dialog host.available host.os Backend.auto auth posix d h;
        terminal = t;
      })

  osascript-Tells :
      (host : Host) (backend : Backend) (auth : Auth) (o : Option Text)
      → host.available.osascript ≡ o
      → is_macos_gui_auto host.os backend auth ≡ true
      → Tells I host backend auth (resolve_osascript host o)
  unfolding resolve_osascript
  osascript-Tells host backend auth none e g = inl (g, e)
  osascript-Tells host backend auth (some p) e g = (g, e, refl)

  posix-Tells :
      (host : Host) (backend : Backend) (auth : Auth)
      → is_windows host.os ≡ false
      → is_macos_gui_auto host.os backend auth ≡ false
      → supports host.available host.os backend auth ≡ true
      → Tells I host backend auth (resolve_posix host backend auth)
  unfolding resolve_posix
  posix-Tells host Backend.auto auth posix d h =
      auto-Tells host auth host.available.sudo host.available.doas refl refl posix d h
  posix-Tells host Backend.sudo auth posix d h =
      explicit-Tells host Backend.sudo auth _ refl posix refl d h
  posix-Tells host Backend.doas auth posix d h =
      explicit-Tells host Backend.doas auth _ refl posix refl d h
  posix-Tells host Backend.run0 auth posix d h =
      explicit-Tells host Backend.run0 auth _ refl posix refl d h
  posix-Tells host Backend.pkexec auth posix d h =
      explicit-Tells host Backend.pkexec auth _ refl posix refl d h

  macos-Tells :
      (host : Host) (backend : Backend) (auth : Auth) (dialog : Bool)
      → is_macos_gui_auto host.os backend auth ≡ dialog
      → is_windows host.os ≡ false
      → supports host.available host.os backend auth ≡ true
      → Tells I host backend auth (
          if dialog
          then resolve_osascript host host.available.osascript
          else resolve_posix host backend auth)
  macos-Tells host backend auth true d posix h =
      osascript-Tells host backend auth host.available.osascript refl d
  macos-Tells host backend auth false d posix h = posix-Tells host backend auth posix d h

  resolve-Tells :
      (host : Host) (backend : Backend) (auth : Auth) (os : Os)
      → host.os ≡ os
      → supports host.available host.os backend auth ≡ true
      → Tells I host backend auth (resolve host os backend auth)
  unfolding resolve
  resolve-Tells host backend auth Os.windows e h = (refl, ap is_windows e)
  resolve-Tells host backend auth Os.unix e h =
      posix-Tells host backend auth (ap is_windows e)
        (gui_auto-not host.os backend auth (ap is_mac_os e)) h
  resolve-Tells host backend auth Os.mac_os e h =
      macos-Tells host backend auth (is_macos_gui_auto Os.mac_os backend auth)
        (ap (λ o. is_macos_gui_auto o backend auth) e) (ap is_windows e) h

  after-Meets :
      (host : Host) (backend : Backend) (auth : Auth) (privilege : Bool)
      → host.has_privilege ≡ privilege
      → supports host.available host.os backend auth ≡ true
      → Meets I host backend auth
          (if privilege then Transition.run_as_is else resolve host host.os backend auth)
  after-Meets host backend auth true e h = inl (e, refl)
  after-Meets host backend auth false e h = inr (e, resolve-Tells host backend auth host.os refl h)

  -- Every verdict on a supported request meets its conditions. One on a caller with the privilege
  -- is to run as is. Else the verdict is to wrap the command by the requested backend, or by the
  -- first of sudo and doas, at its path, and then the host is no Windows, a secret goes to sudo
  -- only, the graphical dialog goes with pkexec only, and a prompt has its terminal; or the UAC on
  -- Windows; or osascript for the macOS dialog; or a rejection since the program is missing or the
  -- terminal is.
  pub plan-Meets :
      (host : Host) (backend : Backend) (auth : Auth)
      → supports host.available host.os backend auth ≡ true
      → Meets I host backend auth (plan host Privilege.elevated backend auth)
  unfolding plan plan_after
  plan-Meets host backend auth h =
      let silent : structural {I = I} host host.os backend auth ≡ none =
        subst (λ b. Verdict I b (structural host host.os backend auth)) h
          (structural-Verdict I host host.os backend auth) in
      subst (λ o. Meets I host backend auth (plan_after host backend auth o)) (sym silent)
        (after-Meets host backend auth host.has_privilege refl h)

  unsupported-plan :
      (available : BackendSet) (os : Os) (backend : Backend) (auth : Auth) (e : Error I)
      → structural (host_of available os true true none) os backend auth ≡ some e
      → (privilege : Bool) (tty : Bool) (budget : Option ℕ)
      → plan (host_of available os privilege tty budget) Privilege.elevated backend auth
        ≡ Transition.reject e
  unfolding plan plan_after structural
  unsupported-plan available Os.unix backend auth e h privilege tty budget = rw h refl
  unsupported-plan available Os.mac_os backend auth e h privilege tty budget = rw h refl
  unsupported-plan available Os.windows backend auth e h privilege tty budget = rw h refl

  -- The request is rejected with one error, whatever the rest of the host is.
  abbrev pub Refused : BackendSet → Os → Backend → Auth → Type 0
  Refused available os backend auth =
      (op : Text) × (platform : Text) × (detail : Text) × ((privilege : Bool) (tty : Bool)
          (budget : Option ℕ)
        → plan {I = I} (host_of available os privilege tty budget) Privilege.elevated backend auth
          ≡ Transition.reject (Error.unsupported op platform detail))

  -- A request that is not supported is rejected as such, with one error whatever the privilege, the
  -- terminal and the argument budget of the host are.
  pub plan-unsupported :
      (available : BackendSet) (os : Os) (backend : Backend) (auth : Auth)
      → supports available os backend auth ≡ false
      → Refused available os backend auth
  plan-unsupported available os backend auth h =
      let spoken =
        subst (λ b. Verdict I b (structural (host_of available os true true none) os backend auth))
          h (structural-Verdict I (host_of available os true true none) os backend auth) in
      let (op, platform, detail, e) = spoken in
      (op, platform, detail, unsupported-plan available os backend auth _ e)
