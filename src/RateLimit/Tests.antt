-- ===== src/RateLimit/Tests.antt =====
-- Runs of the rate limiters, and their theorems at them.
use microservice_kit.Prelude.{ℕ, ◌+◌, ◌≤◌, ◌≡◌, refl, List, [], ◌∷◌, arith}
use microservice_kit.RateLimit.{FixedWindow, new_sliding_window, allow_fixed, turn}
use microservice_kit.RateLimit.Fixed
use microservice_kit.RateLimit.Sliding

abbrev calls : List (ℕ × ℕ)
calls = (8, 1) ∷ (9, 2) ∷ (10, 2) ∷ (11, 2) ∷ (17, 1) ∷ []

-- a burst at the turn of two windows
abbrev window : FixedWindow
window = record { limit = 3; window = 10; count = 0; window_start = 0 }

burst : Fixed.admitted window calls ≡ 6
unfolding Fixed.admitted allow_fixed turn
burst = refl

calls-Within : Fixed.Within 8 (8 + 10) calls
unfolding Fixed.Within
calls-Within = (
  omega arith,
  omega arith,
  (
    omega arith,
    omega arith,
    (omega arith, omega arith, (omega arith, omega arith, (omega arith, omega arith, tt))),
  ),
)

calls-Ordered : Sliding.Ordered 8 18 calls
unfolding Sliding.Ordered
calls-Ordered =
    (omega arith, (omega arith, (omega arith, (omega arith, (omega arith, omega arith)))))

recent-serve_example : Sliding.recent 10 18 (Sliding.serve (new_sliding_window 3 10) [] calls).1 ≤ 3
recent-serve_example = Sliding.recent-serve 3 10 8 18 calls calls-Ordered
