-- ===== src/Deque/Ends.antt =====
-- util/collections/deque: the operations at both ends refine those of a list.
use microservice_kit.Prelude.{
  ◌<◌, ◌≡◌, refl, sym, ◌∙◌, true, Bool-cases, inl, inr, Option, none, some, List, [], ◌∷◌, ◌++◌,
  length, get_or, nil_of_length, length-tabulate, arith, ◌==◌, ap,
}
use microservice_kit.Deque.{
  Deque, prev, item, grow_if_needed, push_front, push_back, pop_front, pop_back, to_slice,
}
use microservice_kit.Deque.Ring.{IsValid}
use microservice_kit.Deque.Capacity.{grow-Same, grow_room, shrink-Same}
use microservice_kit.Deque.Back.{
  pushed_back-IsValid, to_slice-pushed_back, popped_back, popped_back-IsValid, to_slice-popped_back,
}
use microservice_kit.Deque.Front.{
  pushed_front-IsValid, to_slice-pushed_front, popped_front, popped_front-IsValid,
  to_slice-popped_front,
}

-- The calls at the ends of a queue.
pub data Op {ℓ} (T : Type ℓ) : Type ℓ where
  push_first push_last : T → Op T
  pop_first pop_last : Op T

module _ {ℓ} {T : Type ℓ} where
  -- a list without its last element, and that element
  pub unsnoc : List T → List T × Option T
  unsnoc [] = ([], none)
  unsnoc (x ∷ []) = ([], some x)
  unsnoc (x ∷ y ∷ xs) = let (rest, last) = unsnoc (y ∷ xs) in (x ∷ rest, last)

  -- The calls on a list.
  unfoldable pub list_step : Op T → List T → List T × Option T
  unfolding unsnoc
  list_step (push_first x) xs = (x ∷ xs, none)
  list_step (push_last x) xs = (xs ++ x ∷ [], none)
  list_step pop_first [] = ([], none)
  list_step pop_first (x ∷ xs) = (xs, some x)
  list_step pop_last xs = unsnoc xs

  -- The calls on the queue.
  unfoldable pub step : Op T → Deque T → Deque T × Option T
  unfolding push_front push_back pop_front pop_back
  step (push_first x) d = (push_front d x, none)
  step (push_last x) d = (push_back d x, none)
  step pop_first d = pop_front d
  step pop_last d = pop_back d

  unsnoc-append : (xs : List T) (x : T) → unsnoc (xs ++ x ∷ []) ≡ (xs, some x)
  unfolding unsnoc
  unsnoc-append [] x = refl
  unsnoc-append (y ∷ []) x = refl
  unsnoc-append (y ∷ z ∷ xs) x = rw (unsnoc-append (z ∷ xs) x, unsnoc) refl

  empty_slice : (d : Deque T) → (d.count == 0) ≡ true → to_slice d ≡ []
  unfolding to_slice
  empty_slice d h = nil_of_length (to_slice d) (length-tabulate 0 d.count (item d) ∙ ground arith)

  -- what a call must give
  abbrev pub Refines : Op T → Deque T → Type ℓ
  Refines op d =
      IsValid (step op d).0 × ((to_slice (step op d).0, (step op d).1) ≡ list_step op (to_slice d))

  push_last-Refines : (d : Deque T) (x : T) → IsValid d → Refines (push_last x) d
  unfolding step list_step
  push_last-Refines d x v =
      let g = grow_if_needed d in
      let s = grow-Same d v in
      let r : g.count < length g.buf = omega (arith, grow_room d v, s.count) in
      (
        pushed_back-IsValid g s.valid r x,
        ap (λ l. (l, none)) (to_slice-pushed_back g s.valid r x ∙ ap (λ l. l ++ x ∷ []) s.slice),
      )

  push_first-Refines : (d : Deque T) (x : T) → IsValid d → Refines (push_first x) d
  unfolding step list_step
  push_first-Refines d x v =
      let g = grow_if_needed d in
      let s = grow-Same d v in
      let r : g.count < length g.buf = omega (arith, grow_room d v, s.count) in
      (
        pushed_front-IsValid g s.valid r x,
        ap (λ l. (l, none)) (to_slice-pushed_front g s.valid r x ∙ ap (◌∷◌ x) s.slice),
      )

  pop_first-Refines : (d : Deque T) → IsValid d → Refines pop_first d
  unfolding step list_step
  pop_first-Refines d v = elim (Bool-cases (d.count == 0)) [
    | inl e ↦ rw e (v, rw (empty_slice d e, list_step) refl)
    | inr e ↦
        let h : 0 < d.count = ground arith in
        let s = shrink-Same (popped_front d v h) (popped_front-IsValid d v h) in
        rw e (
          s.valid,
          ap (λ l. (l, some (get_or d.buf d.head d.zero_value))) s.slice
              ∙ ap (list_step pop_first) (sym (to_slice-popped_front d v h)),
        )
  ]

  pop_last-Refines : (d : Deque T) → IsValid d → Refines pop_last d
  unfolding step list_step
  pop_last-Refines d v = elim (Bool-cases (d.count == 0)) [
    | inl e ↦ rw e (v, rw (empty_slice d e, list_step) refl)
    | inr e ↦
        let h : 0 < d.count = ground arith in
        let s = shrink-Same (popped_back d v h) (popped_back-IsValid d v h) in
        let last = get_or d.buf (prev d d.tail) d.zero_value in
        rw e (
          s.valid,
          ap (λ l. (l, some last)) s.slice
              ∙ sym (unsnoc-append (to_slice (popped_back d v h)) last)
              ∙ ap unsnoc (sym (to_slice-popped_back d v h)),
        )
  ]

  -- On a valid queue each call at an end returns what the call on the list of the elements returns,
  -- none from an empty queue included, and leaves a valid queue with the elements of that list,
  -- whether or not the buffer grows or shrinks.
  pub step-Refines :
      (op : Op T) (d : Deque T)
      → IsValid d
      → IsValid (step op d).0
        × ((to_slice (step op d).0, (step op d).1) ≡ list_step op (to_slice d))
  step-Refines (push_first x) d v = push_first-Refines d x v
  step-Refines (push_last x) d v = push_last-Refines d x v
  step-Refines pop_first d v = pop_first-Refines d v
  step-Refines pop_last d v = pop_last-Refines d v
