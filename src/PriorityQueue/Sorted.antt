-- ===== src/PriorityQueue/Sorted.antt =====
-- util/collections/priorityqueue: what a client sees of `Push`, `Pop` and `ToSlice`.
use mathlib.Core.List.Perm
use mathlib.Core.List.{perm_middle, mem-cons_of_mem}
use microservice_kit.Prelude.{
  ℕ, zero, suc, ◌<◌, ◌≡◌, refl, sym, subst, nil_of_length, false, some, List, [], ◌∷◌, ◌++◌, length,
  get_or, Mem, Perm, Pairwise, length-perm, all_of_get_or, arith, ◌==◌,
}
use microservice_kit.PriorityQueue.{PriorityQueue, push_one, push, pop_items, pop, drain, to_slice}
use microservice_kit.PriorityQueue.Order.{root_least}
use microservice_kit.PriorityQueue.Laws.{
  IsValid, push_one-IsValid, push_one-perm, pop_items-perm, pop_items-IsHeap,
}

module _ {ℓ} {T : Type ℓ} where
  -- On a valid queue `Push` adds the given items to the elements, in some order, and the queue stays
  -- valid.
  pub push-perm :
      (pq : PriorityQueue T) (items : List T)
      → IsValid pq
      → IsValid (push pq items) × Perm (push pq items).items (items ++ pq.items)
  unfolding push
  push-perm pq [] v = (v, Perm.refl pq.items)
  push-perm pq (item ∷ items) v =
      let (w, p) = push-perm (push_one pq item) items (push_one-IsValid pq item v) in
      (
        w,
        Perm.trans p (
            Perm.trans (Perm.append_left items (push_one-perm pq item))
              (perm_middle items pq.items)),
      )

  -- On a valid queue with elements `Pop` returns an element that none of them goes before; the queue
  -- stays valid, and loses that element only.
  pub pop_least :
      (pq : PriorityQueue T)
      → IsValid pq
      → 0 < length pq.items
      → (pq' : PriorityQueue T) × (x : T) × (pop pq ≡ (pq', some x))
        × IsValid pq'
        × (pq'.less ≡ pq.less)
        × Perm (x ∷ pq'.items) pq.items
        × ((y : T) → Mem y pq.items → pq.less y x ≡ false)
  unfolding pop
  pop_least pq v h =
      let e : (length pq.items == 0) ≡ false = ground arith in
      (
        record pq { items = pop_items pq.less pq.default pq.items },
        get_or pq.items 0 pq.default,
        rw e,
        record {
          order = v.order;
          heap = pop_items-IsHeap pq.less pq.default v.order pq.items v.heap;
        },
        refl,
        pop_items-perm pq.less pq.default pq.items h,
        all_of_get_or (λ y. pq.less y (get_or pq.items 0 pq.default) ≡ false) pq.items pq.default
            (λ y. hlevel)
            (λ k l.
              root_least pq.less pq.default v.order pq.items v.heap (suc k) k (omega arith) l),
      )

  -- what a drain of a valid queue gives
  abbrev Drained : PriorityQueue T → PriorityQueue T × List T → Type ℓ
  Drained pq (pq', xs) =
      (pq'.items ≡ []) × Perm xs pq.items × Pairwise (λ a b. pq.less b a ≡ false) xs

  drain-suc :
      (fuel : ℕ) (pq pq₁ : PriorityQueue T) (x : T)
      → pop pq ≡ (pq₁, some x)
      → drain (suc fuel) pq ≡ ((drain fuel pq₁).0, x ∷ (drain fuel pq₁).1)
  unfolding drain
  drain-suc fuel pq pq₁ x e = ground arith

  drain-Drained :
      (fuel : ℕ) (pq : PriorityQueue T)
      → IsValid pq
      → length pq.items ≡ fuel
      → Drained pq (drain fuel pq)
  unfolding drain
  drain-Drained zero pq v h =
      let e = nil_of_length pq.items h in (e, subst (Perm []) (sym e) (Perm.refl []), Pairwise.nil)
  drain-Drained (suc fuel) pq v h =
      let (pq₁, x, e, v₁, l, p, least) = pop_least pq v (omega arith) in
      let (c, q, s) = drain-Drained fuel pq₁ v₁ (omega (arith, length-perm p)) in
      subst (Drained pq) (sym (drain-suc fuel pq pq₁ x e)) (
        c,
        Perm.trans (Perm.cons x q) p,
        Pairwise.cons
            (λ y m. least y ((Perm.mem_iff p).0 (mem-cons_of_mem x ((Perm.mem_iff q).0 m))))
            (subst (λ less. Pairwise (λ a b. less b a ≡ false) (drain fuel pq₁).1) l s),
      )

  -- On a valid queue `ToSlice` returns all the elements in priority order, none before one that it
  -- goes behind, and leaves the queue empty.
  pub to_slice_sorted :
      (pq : PriorityQueue T)
      → IsValid pq
      → ((to_slice pq).0.items ≡ [])
        × Perm (to_slice pq).1 pq.items
        × Pairwise (λ a b. pq.less b a ≡ false) (to_slice pq).1
  unfolding to_slice
  to_slice_sorted pq v = drain-Drained (length pq.items) pq v refl
