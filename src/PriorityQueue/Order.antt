-- ===== src/PriorityQueue/Order.antt =====
-- util/collections/priorityqueue: the heap order of a slice, and what the comparison must satisfy.
use microservice_kit.Prelude.{
  ℕ, zero, suc, ◌-◌, ◌/◌, ◌<◌, ◌≡◌, ◌≢◌, true, false, List, length, arith,
}
use microservice_kit.PriorityQueue.{Less, at}

-- What `LessFunc` asks for: an order of priorities in which ties are allowed.
pub record IsWeakOrder {ℓ} {T : Type ℓ} (less : Less T) : Type ℓ where
  pub asym : (a b : T) → less a b ≡ true → less b a ≡ false
  pub trans : (a b c : T) → less a b ≡ false → less b c ≡ false → less a c ≡ false

pub irreflexive {ℓ} : {T : Type ℓ} {less : Less T} → IsWeakOrder less → (a : T) → less a a ≡ false
irreflexive o a = ground (arith, o.asym a a)

abbrev pub parent : ℕ → ℕ
parent i = (i - 1) / 2

module _ {ℓ} {T : Type ℓ} (less : Less T) (default : T) where
  -- No element goes before its parent.
  abbrev pub IsHeap : List T → Type 0
  IsHeap xs =
      (k : ℕ) → 0 < k → k < length xs → less (at default xs k) (at default xs (parent k)) ≡ false

  -- The heap order but at i, whose children do not go before its parent.
  pub record IsHeapBut (i : ℕ) (xs : List T) : Type 0 where
    pub other :
        (k : ℕ)
        → 0 < k
        → k < length xs
        → k ≢ i
        → less (at default xs k) (at default xs (parent k)) ≡ false
    pub grand :
        (k : ℕ)
        → 0 < k
        → k < length xs
        → parent k ≡ i
        → 0 < i
        → less (at default xs k) (at default xs (parent i)) ≡ false

  -- The heap order but between i and its children, which do not go before its parent.
  pub record IsHeapAbove (i : ℕ) (xs : List T) : Type 0 where
    pub other :
        (k : ℕ)
        → 0 < k
        → k < length xs
        → parent k ≢ i
        → less (at default xs k) (at default xs (parent k)) ≡ false
    pub grand :
        (k : ℕ)
        → 0 < k
        → k < length xs
        → parent k ≡ i
        → 0 < i
        → less (at default xs k) (at default xs (parent i)) ≡ false

  -- No element of a heap is less than the root.
  pub root_least :
      IsWeakOrder less
      → (xs : List T) → IsHeap xs
      → (fuel k : ℕ) → k < fuel
      → k < length xs
      → less (at default xs k) (at default xs 0) ≡ false
  root_least o xs h zero k f l = elim f [ ]
  root_least o xs h (suc fuel) zero f l = irreflexive o (at default xs 0)
  root_least o xs h (suc fuel) (suc k) f l =
      o.trans (at default xs (suc k)) (at default xs (parent (suc k))) (at default xs 0)
        (h (suc k) (omega arith) l)
        (root_least o xs h fuel (parent (suc k)) (omega arith) (omega arith))
