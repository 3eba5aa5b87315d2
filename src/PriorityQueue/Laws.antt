-- ===== src/PriorityQueue/Laws.antt =====
-- util/collections/priorityqueue: `Push`, `Pop` and `ToSlice` as operations on a collection.
use mathlib.Core.List.Perm
use mathlib.Core.List.{perm_middle, append-nil}
use microservice_kit.Prelude.{
  ℕ, suc, ◌-◌, ◌<◌, ◌≡◌, refl, ◌∙◌, sym, subst, perm_last, List, [], ◌∷◌, ◌++◌, length, get_or, set,
  take, Perm, length-append, length-set, length-take, get_or-set, get_or-append_left, get_or-take,
  arith, Bool-cases, inl, inr, ltb, ltb→lt,
}
use microservice_kit.PriorityQueue.{Less, PriorityQueue, at, up, down, push_one, pop_items, new}
use microservice_kit.PriorityQueue.Order.{IsWeakOrder, IsHeap, IsHeapBut, IsHeapAbove, parent}
use microservice_kit.PriorityQueue.Up.{up_from-perm, up_from-IsHeap}
use microservice_kit.PriorityQueue.Down.{down_from-perm, down_from-IsHeap}

module _ {ℓ} {T : Type ℓ} where
  -- What every queue satisfies that the operations build: a comparison that orders, and a heap.
  pub record IsValid (pq : PriorityQueue T) : Type ℓ where
    pub order : IsWeakOrder pq.less
    pub heap : IsHeap pq.less pq.default pq.items

  module _ (less : Less T) (default : T) where
    IsHeapBut-append :
        (xs : List T) (item : T)
        → IsHeap less default xs
        → IsHeapBut less default (length xs) (xs ++ item ∷ [])
    IsHeapBut-append xs item h = record {
      other = λ k a b c.
          let l : k < length xs = omega (arith, length-append xs (item ∷ [])) in
          rw
            (
              get_or-append_left xs (item ∷ []) k default l,
              get_or-append_left xs (item ∷ []) (parent k) default (omega arith),
            )
            (h k a l);
      grand = λ k a b c d. absurd (omega (arith, length-append xs (item ∷ [])));
    }

    -- the slice that `Pop` hands to `down`
    abbrev cut : List T → List T
    cut xs = take (length xs - 1) (set xs 0 (get_or xs (length xs - 1) default))

    length-cut : (xs : List T) → length (cut xs) ≡ length xs - 1
    length-cut xs = omega (
      arith,
      length-take (length xs - 1) (set xs 0 (get_or xs (length xs - 1) default)),
      length-set xs 0 (get_or xs (length xs - 1) default),
    )

    cut-perm : (xs : List T) → 0 < length xs → Perm (get_or xs 0 default ∷ cut xs) xs
    cut-perm [] h = elim h [ ]
    cut-perm (x ∷ []) h = Perm.refl (x ∷ [])
    cut-perm (x ∷ y ∷ xs) h =
        let e : length (x ∷ y ∷ xs) - 1 ≡ suc (length xs) = omega arith in
        subst
          (λ n. Perm (x ∷ take n (set (x ∷ y ∷ xs) 0 (get_or (x ∷ y ∷ xs) n default))) (x ∷ y ∷ xs))
          (sym e) (Perm.cons x (perm_last (y ∷ xs) (length xs) default refl))

    get_or-cut :
        (xs : List T) (k : ℕ) → 0 < k → k < length xs - 1 → at default (cut xs) k ≡ at default xs k
    get_or-cut xs k h l =
        get_or-take (length xs - 1) (set xs 0 (get_or xs (length xs - 1) default)) k default l
        ∙ ground (arith, get_or-set xs 0 (get_or xs (length xs - 1) default) default k)

    IsHeapAbove-cut : (xs : List T) → IsHeap less default xs → IsHeapAbove less default 0 (cut xs)
    IsHeapAbove-cut xs h = record {
      other = λ k a b c.
          let l : k < length xs - 1 = omega (arith, length-cut xs) in
          rw (get_or-cut xs k a l, get_or-cut xs (parent k) (omega arith) (omega arith))
            (h k a (omega arith));
      grand = λ k a b c d. absurd (omega arith);
    }

    pub pop_items-perm :
        (xs : List T) → 0 < length xs → Perm (get_or xs 0 default ∷ pop_items less default xs) xs
    unfolding pop_items down
    pop_items-perm xs h = elim (Bool-cases (ltb 0 (length (cut xs)))) [
      | inr e ↦ rw e (cut-perm xs h)
      | inl e ↦ rw e (
          Perm.trans
            (Perm.cons (get_or xs 0 default)
              (down_from-perm less default (length (cut xs)) 0 (cut xs) (ltb→lt _ _ e)))
            (cut-perm xs h))
    ]

    pub pop_items-IsHeap :
        IsWeakOrder less
        → (xs : List T) → IsHeap less default xs
        → IsHeap less default (pop_items less default xs)
    unfolding pop_items down
    pop_items-IsHeap o xs h = elim (Bool-cases (ltb 0 (length (cut xs)))) [
      | inr e ↦ rw e (λ k p l. absurd (ground arith))
      | inl e ↦ rw e (
          down_from-IsHeap less default o (length (cut xs)) 0 (cut xs) (omega arith)
            (IsHeapAbove-cut xs h))
    ]

  pub new-IsValid : (less : Less T) (default : T) → IsWeakOrder less → IsValid (new less default)
  unfolding new
  new-IsValid less default o = record { order = o; heap = λ k p l. absurd (omega arith) }

  -- one round of `Push`
  pub push_one-IsValid : (pq : PriorityQueue T) (item : T) → IsValid pq → IsValid (push_one pq item)
  unfolding push_one up
  push_one-IsValid pq item v =
      let xs = pq.items ++ item ∷ [] in
      let e : length xs - 1 ≡ length pq.items = omega (arith, length-append pq.items (item ∷ [])) in
      record {
        order = v.order;
        heap = rw e (
            up_from-IsHeap pq.less pq.default v.order (length pq.items) (length pq.items) xs
              (omega arith) (omega (arith, length-append pq.items (item ∷ [])))
              (IsHeapBut-append pq.less pq.default pq.items item v.heap));
      }

  pub push_one-perm :
      (pq : PriorityQueue T) (item : T) → Perm (push_one pq item).items (item ∷ pq.items)
  unfolding push_one up
  push_one-perm pq item =
      let xs = pq.items ++ item ∷ [] in
      Perm.trans
        (up_from-perm pq.less pq.default (length xs - 1) (length xs - 1) xs
          (omega (arith, length-append pq.items (item ∷ []))))
        (let p : Perm (pq.items ++ item ∷ []) (item ∷ (pq.items ++ [])) = perm_middle pq.items [] in
          rw append-nil at p)
