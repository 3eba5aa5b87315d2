-- ===== src/PriorityQueue/Tests.antt =====
-- Runs of the priority queue over numbers, and its theorems at them.
use microservice_kit.Prelude.{
  ℕ, ◌≡◌, refl, false, some, [], ◌∷◌, Mem, Perm, Pairwise, subst, ltb, arith, swap,
}
use microservice_kit.PriorityQueue.{PriorityQueue, new, push, pop, to_slice}
use microservice_kit.PriorityQueue.Order.{IsWeakOrder}
use microservice_kit.PriorityQueue.Laws.{IsValid, new-IsValid}
use microservice_kit.PriorityQueue.Sorted

ltb-IsWeakOrder : IsWeakOrder ltb
ltb-IsWeakOrder = record { asym = λ a b h. ground arith; trans = λ a b c h k. ground arith }

abbrev empty : PriorityQueue ℕ
empty = record { items = []; less = ltb; default = 0 }

empty-IsValid : IsValid empty
unfolding new
empty-IsValid = new-IsValid ltb 0 ltb-IsWeakOrder

abbrev three : PriorityQueue ℕ
three = record { items = 1 ∷ 3 ∷ 2 ∷ []; less = ltb; default = 0 }

pushed : push empty (3 ∷ 1 ∷ 2 ∷ []) ≡ three
unfolding push swap
pushed = refl

sorted : (to_slice (push empty (5 ∷ 2 ∷ 9 ∷ 2 ∷ 7 ∷ []))).1 ≡ 2 ∷ 2 ∷ 5 ∷ 7 ∷ 9 ∷ []
unfolding push to_slice swap
sorted = refl

three-IsValid : IsValid three
three-IsValid = subst IsValid pushed (Sorted.push-perm empty (3 ∷ 1 ∷ 2 ∷ []) empty-IsValid).0

pop_least_example :
    (pq' : PriorityQueue ℕ) × (x : ℕ) × (pop three ≡ (pq', some x))
    × IsValid pq'
    × (pq'.less ≡ ltb)
    × Perm (x ∷ pq'.items) (1 ∷ 3 ∷ 2 ∷ [])
    × ((y : ℕ) → Mem y (1 ∷ 3 ∷ 2 ∷ []) → ltb y x ≡ false)
pop_least_example = Sorted.pop_least three three-IsValid (omega arith)

to_slice_sorted_example :
    ((to_slice three).0.items ≡ [])
    × Perm (to_slice three).1 (1 ∷ 3 ∷ 2 ∷ [])
    × Pairwise (λ a b. ltb b a ≡ false) (to_slice three).1
to_slice_sorted_example = Sorted.to_slice_sorted three three-IsValid
