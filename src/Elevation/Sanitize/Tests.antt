-- ===== src/Elevation/Sanitize/Tests.antt =====
-- A run of the sanitizer on ASCII keys, and instances of the theorems about it.
use subprocess.Prelude.{List, [], ◌∷◌, ◌≡◌, refl, codes}
use subprocess.Errors.{Text}
use subprocess.Elevation.Sanitize.{
  EnvVar, keep, keeps, push, partition, apply, insert, sort, env_key, is_denied, default,
}
use subprocess.Elevation.Sanitize.Sorting.{Sorted}
use subprocess.Elevation.Sanitize.Laws.{apply-Parts, Parts}

abbrev ascii : Text → Text
ascii k = k

abbrev variables : List EnvVar
variables =
    (codes "PATH", codes "/bin")
    ∷ (codes "LD_PRELOAD", codes "x.so")
    ∷ (codes "ENV", codes "e")
    ∷ (codes "LANG", codes "C")
    ∷ []

apply-keep : apply ascii (keep default (codes "ENV" ∷ [])) variables ≡ record {
  kept = (codes "ENV", codes "e") ∷ (codes "LANG", codes "C") ∷ (codes "PATH", codes "/bin") ∷ [];
  stripped = codes "LD_PRELOAD" ∷ [];
}
unfolding apply keep default partition push keeps is_denied sort insert
apply-keep = refl

apply-Parts_example :
    Parts ascii default variables
      (apply ascii default variables).kept
      (apply ascii default variables).stripped
    × Sorted env_key (apply ascii default variables).kept
    × Sorted (λ k. k) (apply ascii default variables).stripped
apply-Parts_example = apply-Parts ascii default variables
