-- ===== src/PriorityQueue/Down.antt =====
-- util/collections/priorityqueue, `down`: it restores the heap order and keeps the elements.
use mathlib.Core.List.Perm
use microservice_kit.Prelude.{
  ℕ, zero, suc, ◌+◌, ◌*◌, ◌≤◌, ◌<◌, ◌≡◌, ◌≢◌, ◌⊎◌, true, false, List, length, swap, Perm,
  length-swap, get_or-swap, perm-swap, arith, Bool-cases, inl, inr, ◌==◌, ==_iff, ltb, ltb→lt,
}
use microservice_kit.PriorityQueue.{Less, at, smallest, down_from}
use microservice_kit.PriorityQueue.Order.{IsWeakOrder, IsHeap, IsHeapAbove, parent, irreflexive}

module _ {ℓ} {T : Type ℓ} (less : Less T) (default : T) where
  -- `smallest` is a child within bounds, if there is one
  pub smallest_child :
      (i : ℕ) (xs : List T)
      → 2 * i + 1 < length xs
      → (i < smallest less default i xs)
        × (smallest less default i xs < length xs)
        × (parent (smallest less default i xs) ≡ i)
  unfolding smallest
  smallest_child i xs h = (ground arith, ground arith, ground arith)

  pub down_from-perm :
      (fuel i : ℕ) (xs : List T) → i < length xs → Perm (down_from less default fuel i xs) xs
  unfolding down_from
  down_from-perm zero i xs h = Perm.refl xs
  down_from-perm (suc fuel) i xs h = elim (Bool-cases (ltb (2 * i + 1) (length xs))) [
    | inr e ↦ rw e (Perm.refl xs)
    | inl e ↦
        let s = smallest less default i xs in
        let c = smallest_child i xs (ltb→lt _ _ e) in
        elim (Bool-cases (less (at default xs i) (at default xs s))) [
          | inl k ↦ rw (e, k) (Perm.refl xs)
          | inr k ↦
              rw (e, k)
                (Perm.trans
                  (down_from-perm fuel s (swap default xs i s)
                    (omega (arith, c.1, length-swap default xs i s)))
                  (perm-swap default xs i s h c.1))
        ]
  ]

  module _ (o : IsWeakOrder less) where
    -- `smallest` goes before neither child
    smallest_least :
        (i k : ℕ) (xs : List T)
        → 0 < k
        → k < length xs
        → parent k ≡ i
        → less (at default xs k) (at default xs (smallest less default i xs)) ≡ false
    unfolding smallest
    smallest_least i k xs a b c = elim (children k i a c) [
      | inl e ↦ ground (arith, o.asym (at default xs (left + 1)) (at default xs left), tie left)
      | inr e ↦ ground (arith, tie (left + 1))
    ]
      where
        left : ℕ
        left = 2 * i + 1

        tie : (j : ℕ) → less (at default xs j) (at default xs j) ≡ false
        tie j = irreflexive o (at default xs j)

        children : (k i : ℕ) → 0 < k → parent k ≡ i → (k ≡ 2 * i + 1) ⊎ (k ≡ 2 * i + 1 + 1)
        children k i a c = omega arith

    -- an element that goes before its children completes the heap
    IsHeapAbove-done :
        (i : ℕ) (xs : List T)
        → IsHeapAbove less default i xs
        → ((k : ℕ)
            → 0 < k
            → k < length xs
            → parent k ≡ i
            → less (at default xs k) (at default xs (parent k)) ≡ false)
        → IsHeap less default xs
    IsHeapAbove-done i xs h e = λ k p l. elim (Bool-cases (parent k == i)) [
      | inl q ↦ e k p l ((==_iff (parent k) i).0 q)
      | inr q ↦ h.other k p l (ground arith)
    ]

    module _ (i : ℕ) (xs : List T) (l : 2 * i + 1 < length xs) (h : IsHeapAbove less default i xs)
        (e : less (at default xs i) (at default xs (smallest less default i xs)) ≡ false) where
      abbrev s : ℕ
      s = smallest less default i xs

      abbrev below : List T
      below = swap default xs i s

      swap_other :
          (k : ℕ)
          → 0 < k
          → k < length xs
          → parent k ≢ s
          → less (at default below k) (at default below (parent k)) ≡ false
      swap_other k a b c = ground (
        arith,
        smallest_child i xs l,
        get_or-swap default xs i s k,
        get_or-swap default xs i s (parent k),
        h.other k,
        h.grand k,
        h.grand s,
        smallest_least i k xs,
      )

      swap_grand :
          (k : ℕ)
          → 0 < k
          → k < length xs
          → parent k ≡ s
          → less (at default below k) (at default below (parent s)) ≡ false
      swap_grand k a b c = ground (
        arith,
        smallest_child i xs l,
        get_or-swap default xs i s k,
        get_or-swap default xs i s (parent s),
        h.other k,
      )

      IsHeapAbove-swap : IsHeapAbove less default s below
      IsHeapAbove-swap = record {
        other = λ k a b c. swap_other k a (omega (arith, length-swap default xs i s)) c;
        grand = λ k a b c d. swap_grand k a (omega (arith, length-swap default xs i s)) c;
      }

    -- with no child, or with children that it goes before
    stop_least :
        (i : ℕ) (xs : List T)
        → less (at default xs i) (at default xs (smallest less default i xs)) ≡ true
        → (k : ℕ) → 0 < k
        → k < length xs
        → parent k ≡ i
        → less (at default xs k) (at default xs (parent k)) ≡ false
    stop_least i xs e k a b c =
        let s = smallest less default i xs in
        rw c (
          o.trans (at default xs k) (at default xs s) (at default xs i)
            (smallest_least i k xs a b c) (o.asym (at default xs i) (at default xs s) e))

    pub down_from-IsHeap :
        (fuel i : ℕ) (xs : List T)
        → length xs ≤ i + fuel
        → IsHeapAbove less default i xs
        → IsHeap less default (down_from less default fuel i xs)
    unfolding down_from
    down_from-IsHeap zero i xs f h = IsHeapAbove-done i xs h (λ k a b c. absurd (omega arith))
    down_from-IsHeap (suc fuel) i xs f h = elim (Bool-cases (ltb (2 * i + 1) (length xs))) [
      | inr e ↦
          rw e (IsHeapAbove-done i xs h (λ k a b c. absurd (childless i k (length xs) a b c e)))
      | inl e ↦
          let l = ltb→lt (2 * i + 1) (length xs) e in
          let s = smallest less default i xs in
          elim (Bool-cases (less (at default xs i) (at default xs s))) [
            | inl k ↦ rw (e, k) (IsHeapAbove-done i xs h (stop_least i xs k))
            | inr k ↦
                rw (e, k)
                  (down_from-IsHeap fuel s (swap default xs i s)
                    (omega (arith, length-swap default xs i s, smallest_child i xs l))
                    (IsHeapAbove-swap i xs l h k))
          ]
    ]
      where
        childless : (i k n : ℕ) → 0 < k → k < n → parent k ≡ i → ltb (2 * i + 1) n ≡ false → ⊥
        childless i k n a b c e = ground arith
