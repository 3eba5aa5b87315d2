-- ===== src/Slices/Tests.antt =====
-- Runs of the functions on slices over numbers, and their theorems at them.
use native.Mathlib.Decide.{ℕ_discrete}
use microservice_kit.Prelude.{ℕ, ◌%◌, ◌≡◌, refl, Bool, List, [], ◌∷◌, ◌==◌, get, put}
use microservice_kit.Prelude.Int.{pos}
use microservice_kit.Slices.{
  chunk, chunk_from, unique, unique_by, unique_into, is_seen, group_by, group_at, group_into,
}

abbrev five : List ℕ
five = 1 ∷ 2 ∷ 3 ∷ 4 ∷ 5 ∷ []

abbrev is_even : ℕ → Bool
is_even n = n % 2 == 0

chunks : chunk five (pos 2) ≡ (1 ∷ 2 ∷ []) ∷ (3 ∷ 4 ∷ []) ∷ (5 ∷ []) ∷ []
unfolding chunk chunk_from
chunks = refl

distinct : unique ℕ_discrete (1 ∷ 2 ∷ 2 ∷ 3 ∷ 1 ∷ []) ≡ 1 ∷ 2 ∷ 3 ∷ []
unfolding unique unique_by unique_into is_seen ℕ_discrete
distinct = refl

groups : group_by ℕ_discrete five (λ n. n % 2) ≡ (1, 1 ∷ 3 ∷ 5 ∷ []) ∷ (0, 2 ∷ 4 ∷ []) ∷ []
unfolding group_by group_into group_at get put ℕ_discrete
groups = refl
