-- ===== src/PriorityQueue/Up.antt =====
-- util/collections/priorityqueue, `up`: it restores the heap order and keeps the elements.
use mathlib.Core.List.Perm
use microservice_kit.Prelude.{
  ℕ, zero, suc, ◌≤◌, ◌<◌, ◌≡◌, ◌≢◌, true, false, List, length, swap, Perm, length-swap, get_or-swap,
  perm-swap, arith, Bool-cases, inl, inr, ◌==◌, ==_iff,
}
use microservice_kit.PriorityQueue.{Less, at, up_from}
use microservice_kit.PriorityQueue.Order.{IsWeakOrder, IsHeap, IsHeapBut, parent}

module _ {ℓ} {T : Type ℓ} (less : Less T) (default : T) where
  pub up_from-perm :
      (fuel i : ℕ) (xs : List T) → i < length xs → Perm (up_from less default fuel i xs) xs
  unfolding up_from
  up_from-perm zero i xs h = Perm.refl xs
  up_from-perm (suc fuel) i xs h = elim (Bool-cases (i == 0)) [
    | inl e ↦ rw e (Perm.refl xs)
    | inr e ↦ elim (Bool-cases (less (at default xs i) (at default xs (parent i)))) [
      | inr k ↦ rw (e, k) (Perm.refl xs)
      | inl k ↦
          let p : parent i < length xs = ground arith in
          rw (e, k)
            (Perm.trans
              (up_from-perm fuel (parent i) (swap default xs i (parent i))
                (omega (arith, length-swap default xs i (parent i))))
              (perm-swap default xs i (parent i) h p))
    ]
  ]

  module _ (o : IsWeakOrder less) where
    -- an element that may stay below its parent completes the heap
    IsHeapBut-done :
        (i : ℕ) (xs : List T)
        → IsHeapBut less default i xs
        → (0 < i → less (at default xs i) (at default xs (parent i)) ≡ false)
        → IsHeap less default xs
    IsHeapBut-done i xs h e = λ k p l. elim (Bool-cases (k == i)) [
      | inl q ↦ rw ((==_iff k i).0 q) (e (omega (arith, (==_iff k i).0 q)))
      | inr q ↦ h.other k p l (ground arith)
    ]

    module _ (i : ℕ) (xs : List T) (p : 0 < i) (l : i < length xs) (h : IsHeapBut less default i xs)
        (e : less (at default xs i) (at default xs (parent i)) ≡ true) where
      abbrev above : List T
      above = swap default xs i (parent i)

      abbrev x : T
      x = at default xs i

      abbrev y : T
      y = at default xs (parent i)

      swap_other :
          (k : ℕ)
          → 0 < k
          → k < length xs
          → k ≢ parent i
          → less (at default above k) (at default above (parent k)) ≡ false
      swap_other k a b c = ground (
        arith,
        get_or-swap default xs i (parent i) k,
        get_or-swap default xs i (parent i) (parent k),
        h.other k,
        h.grand k,
        o.asym x y,
        o.trans (at default xs k) y x,
      )

      swap_grand :
          (k : ℕ)
          → 0 < k
          → k < length xs
          → parent k ≡ parent i
          → 0 < parent i
          → less (at default above k) (at default above (parent (parent i))) ≡ false
      swap_grand k a b c d = ground (
        arith,
        get_or-swap default xs i (parent i) k,
        get_or-swap default xs i (parent i) (parent (parent i)),
        h.other k,
        h.other (parent i),
        o.trans (at default xs k) y (at default xs (parent (parent i))),
      )

      IsHeapBut-swap : IsHeapBut less default (parent i) above
      IsHeapBut-swap = record {
        other = λ k a b c. swap_other k a (omega (arith, length-swap default xs i (parent i))) c;
        grand =
            λ k a b c d. swap_grand k a (omega (arith, length-swap default xs i (parent i))) c d;
      }

    pub up_from-IsHeap :
        (fuel i : ℕ) (xs : List T)
        → i ≤ fuel
        → i < length xs
        → IsHeapBut less default i xs
        → IsHeap less default (up_from less default fuel i xs)
    unfolding up_from
    up_from-IsHeap zero i xs f l h = IsHeapBut-done i xs h (λ p. absurd (omega arith))
    up_from-IsHeap (suc fuel) i xs f l h = elim (Bool-cases (i == 0)) [
      | inl e ↦ rw e (IsHeapBut-done i xs h (λ p. absurd (ground arith)))
      | inr e ↦ elim (Bool-cases (less (at default xs i) (at default xs (parent i)))) [
        | inr k ↦ rw (e, k) (IsHeapBut-done i xs h (λ p. k))
        | inl k ↦
            let p : 0 < i = ground arith in
            rw (e, k)
              (up_from-IsHeap fuel (parent i) (swap default xs i (parent i)) (omega arith)
                (omega (arith, length-swap default xs i (parent i))) (IsHeapBut-swap i xs p l h k))
      ]
    ]
