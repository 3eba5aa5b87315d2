-- ===== src/Deque/Tests.antt =====
-- Runs of the double-ended queue over numbers, and its theorems at them.
use microservice_kit.Prelude.{ℕ, ◌≡◌, refl, List, [], ◌∷◌, length}
use microservice_kit.Prelude.Int.{negsuc}
use microservice_kit.Deque.{
  from, push_back, pop_front, rotate, reverse, to_slice, resize, new_with_capacity, double_until,
  push_all, grow_if_needed, shrink_if_needed, copy_at, rotate_by, reverse_from,
}
use microservice_kit.Deque.Ring.{IsValid}
use microservice_kit.Deque.Ends
use microservice_kit.Deque.Whole

abbrev nine : List ℕ
nine = 1 ∷ 2 ∷ 3 ∷ 4 ∷ 5 ∷ 6 ∷ 7 ∷ 8 ∷ 9 ∷ []

-- the ninth push doubles the buffer
grown : length (from 0 nine).buf ≡ 16
unfolding from new_with_capacity double_until push_all push_back grow_if_needed resize copy_at
grown = refl

turned : to_slice {T = ℕ} (rotate (from 0 (1 ∷ 2 ∷ 3 ∷ [])) (negsuc 0)) ≡ 3 ∷ 1 ∷ 2 ∷ []
unfolding rotate rotate_by from new_with_capacity double_until push_all push_back grow_if_needed
    resize copy_at to_slice pop_front shrink_if_needed
turned = refl

reversed : to_slice {T = ℕ} (reverse (from 0 (1 ∷ 2 ∷ 3 ∷ []))) ≡ 3 ∷ 2 ∷ 1 ∷ []
unfolding reverse reverse_from from new_with_capacity double_until push_all push_back grow_if_needed
    resize copy_at to_slice
reversed = refl

nine-IsValid : IsValid (from 0 nine)
nine-IsValid = (Whole.to_slice-from 0 nine).0

step-Refines_example :
    IsValid (Ends.step (Ends.push_first 4) (from 0 nine)).0
    × ((
      to_slice (Ends.step (Ends.push_first 4) (from 0 nine)).0,
      (Ends.step (Ends.push_first 4) (from 0 nine)).1,
    )
        ≡ Ends.list_step (Ends.push_first 4) (to_slice (from 0 nine)))
step-Refines_example = Ends.step-Refines (Ends.push_first 4) (from 0 nine) nine-IsValid
