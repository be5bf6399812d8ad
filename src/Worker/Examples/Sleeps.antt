-- ===== src/Worker/Examples/Sleeps.antt =====
-- The sleeps of the workers of server/src/bin, run.
use trieve.Prelude.{◌≡◌, refl, [], ◌∷◌}
use trieve.Worker.Backoff.{sleeps}

sleeps_test : sleeps 1 0 10 ≡ 1 ∷ 2 ∷ 4 ∷ 8 ∷ 16 ∷ 32 ∷ 64 ∷ 128 ∷ 256 ∷ 300 ∷ []
sleeps_test = refl
