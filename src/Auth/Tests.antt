-- ===== src/Auth/Tests.antt =====
-- The theorems about sessions at a concrete page load.
use why_not_grace_pos.Prelude.{String, false, none, some, [], ◌∷◌, ◌++◌, ◌≡◌, refl}
use why_not_grace_pos.Auth.{AuthStore, Tokens}
use why_not_grace_pos.Auth.Bootstrap.{
  effect, answer, on_load, boot_run, effects, done, boot_run-posts, boot_run_resumed,
}

abbrev reloaded : AuthStore String
reloaded = record {
  access_token = none;
  refresh_token = some "r1";
  user = some "owner";
  hydrated = false;
}

abbrev renewed : Tokens
renewed = record { access_token = "a2"; refresh_token = "r2" }

boot_run-posts_example :
    (boot_run (on_load reloaded) (effect ∷ effect ∷ answer none ∷ effect ∷ [])).posts ≡ "r1" ∷ []
boot_run-posts_example = boot_run-posts reloaded (effect ∷ answer none ∷ effect ∷ []) refl

boot_run_resumed_example :
    boot_run (on_load reloaded) (effects 2 ++ (answer (some renewed) ∷ effects 1))
    ≡ done (some renewed) reloaded "r1"
boot_run_resumed_example = boot_run_resumed reloaded "r1" (some renewed) 1 1 refl refl refl
