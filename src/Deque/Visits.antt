-- ===== src/Deque/Visits.antt =====
-- util/collections/deque/deque.go: the visits of all elements, from the head and from the tail.
use microservice_kit.Prelude.{
  ℕ, zero, suc, ◌+◌, ◌≡◌, refl, sym, ◌∙◌, ap, List, [], ◌∷◌, ◌++◌, arith, tabulate, tabulate_snoc,
}
use microservice_kit.Deque.{Deque, item, to_slice, for_from, for_each, for_down, for_each_reverse}

module _ {ℓ} {T S : Type ℓ} (f : T → S → S) where
  pub visit : List T → S → S
  visit [] s = s
  visit (x ∷ xs) s = visit xs (f x s)

  pub visit_back : List T → S → S
  visit_back [] s = s
  visit_back (x ∷ xs) s = f x (visit_back xs s)

  visit_back-snoc :
      (xs : List T) (y : T) (s : S) → visit_back (xs ++ y ∷ []) s ≡ visit_back xs (f y s)
  unfolding visit_back
  visit_back-snoc [] y s = refl
  visit_back-snoc (x ∷ xs) y s = ap (f x) (visit_back-snoc xs y s)

  for_from-visit :
      (d : Deque T) (left i : ℕ) (s : S)
      → for_from f d left i s ≡ visit (tabulate i left (item d)) s
  unfolding for_from visit
  for_from-visit d zero i s = refl
  for_from-visit d (suc left) i s = for_from-visit d left (i + 1) (f (item d i) s)

  for_down-visit_back :
      (d : Deque T) (i : ℕ) (s : S) → for_down f d i s ≡ visit_back (tabulate 0 i (item d)) s
  unfolding for_down visit_back
  for_down-visit_back d zero s = refl
  for_down-visit_back d (suc i) s =
      let e : 0 + i ≡ i = omega arith in
      for_down-visit_back d i (f (item d i) s)
      ∙ ap (λ j. visit_back (tabulate 0 i (item d)) (f (item d j) s)) (sym e)
      ∙ sym (
          ap (λ xs. visit_back xs s) (tabulate_snoc 0 i (item d))
          ∙ visit_back-snoc (tabulate 0 i (item d)) (item d (0 + i)) s)

  -- ForEach visits the elements in the order of the queue, and ForEachReverse in the opposite order.
  pub for_each-to_slice :
      (d : Deque T) (s : S)
      → (for_each f d s ≡ visit (to_slice d) s)
        × (for_each_reverse f d s ≡ visit_back (to_slice d) s)
  unfolding for_each for_each_reverse to_slice
  for_each-to_slice d s = (for_from-visit d d.count 0 s, for_down-visit_back d d.count s)
