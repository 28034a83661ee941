-- ===== src/Elevation/Plan/Requests.antt =====
-- What a supported request says of its backend.
use subprocess.Prelude.{true, false, some, none, ◌≡◌, arith}
use subprocess.Errors.{Text}
use subprocess.Elevation.Common.{Auth, Backend, is_auto, is_sudo, is_pkexec, is_gui, carries_secret}
use subprocess.Elevation.Plan.{BackendSet, Os, path, is_windows, is_mac_os, is_macos_gui_auto}
use subprocess.Elevation.Plan.Matrix.{supports}

pub supports-secret :
    (available : BackendSet) (os : Os) (b : Backend) (auth : Auth)
    → is_windows os ≡ false
    → is_auto b ≡ false
    → supports available os b auth ≡ true
    → carries_secret auth ≡ true
    → is_sudo b ≡ true
supports-secret available os b auth posix n h c = ground arith

pub no-path :
    (available : BackendSet)
    → available.sudo ≡ none
    → available.doas ≡ none
    → path available Backend.auto ≡ none
unfolding path
no-path available es eo = ground arith

pub doas-secret :
    (available : BackendSet) (os : Os) (auth : Auth) (p : Text)
    → available.sudo ≡ none
    → available.doas ≡ some p
    → is_windows os ≡ false
    → supports available os Backend.auto auth ≡ true
    → carries_secret auth ≡ true
    → false ≡ true
doas-secret available os auth p es eo posix h c = ground arith

pub gui_auto-not :
    (os : Os) (backend : Backend) (auth : Auth)
    → is_mac_os os ≡ false
    → is_macos_gui_auto os backend auth ≡ false
unfolding is_macos_gui_auto
gui_auto-not os backend auth h = ground arith

pub supports-dialog :
    (available : BackendSet) (os : Os) (b : Backend) (auth : Auth)
    → is_windows os ≡ false
    → is_macos_gui_auto os b auth ≡ false
    → supports available os b auth ≡ true
    → is_gui auth ≡ is_pkexec b
unfolding is_macos_gui_auto
supports-dialog available os b auth posix d h = ground arith
