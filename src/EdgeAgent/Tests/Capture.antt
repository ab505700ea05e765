-- ===== src/EdgeAgent/Tests/Capture.antt =====
-- Two channels of which one is at its lowest.
use cricket_drs_system.Prelude.{◌≡◌, some, List, [], ◌∷◌, length, arith}
use cricket_drs_system.Prelude.Int.{ℤ, pos, negsuc}
use cricket_drs_system.EdgeAgent.Capture.{quotient, mix}
use cricket_drs_system.EdgeAgent.Capture.Mix.{Fits16, total, mix-exact}

abbrev values : List ℤ
values = negsuc 32767 ∷ pos 5 ∷ []

mix-exact_example :
    (m : ℤ) × (mix (length values) values ≡ some m)
    × (quotient (total values) (pos (length values)) ≡ some m)
    × Fits16 m
mix-exact_example =
    mix-exact values (omega arith) (omega arith)
      ((omega arith, omega arith), ((omega arith, omega arith), tt))
