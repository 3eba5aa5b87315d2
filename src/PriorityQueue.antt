-- ===== src/PriorityQueue.antt =====
-- util/collections/priorityqueue/priority_queue.go: a binary heap in a slice.
mod Order
mod Up
mod Down
mod Laws
mod Sorted
mod Tests
use microservice_kit.Prelude.{
  ℕ, zero, suc, ◌+◌, ◌-◌, ◌*◌, ◌/◌, Bool, true, false, ◌&&◌, not, Option, none, some, List, [], ◌∷◌,
  ◌++◌, length, get_or, set, take, swap, ltb, ◌==◌, if◌then◌else◌,
}

-- `LessFunc`
abbrev pub Less {ℓ} : Type ℓ → Type ℓ
Less T = T → T → Bool

-- `data` and `less`; `default` is Go's zero value of the element type.
pub record PriorityQueue {ℓ} (T : Type ℓ) : Type ℓ where
  pub items : List T
  pub less : Less T
  pub default : T

module _ {ℓ} {T : Type ℓ} where
  pub new : Less T → T → PriorityQueue T
  new less default = record { items = []; less = less; default = default }

  -- `data[i]`; the code reads within bounds only
  abbrev pub at : T → List T → ℕ → T
  at default xs i = get_or xs i default

  module _ (less : Less T) (default : T) where
    -- `up`, with i as fuel: the parent's index is smaller
    pub up_from : ℕ → ℕ → List T → List T
    unfolding swap
    up_from zero i xs = xs
    up_from (suc fuel) i xs =
        let parent = (i - 1) / 2 in
        let rest = up_from fuel parent (swap default xs i parent) in
        if i == 0
        then xs
        else if not (less (at default xs i) (at default xs parent))
        then xs
        else rest

    pub up : ℕ → List T → List T
    unfolding up_from
    up i xs = up_from i i xs

    -- the child that the loop of `down` compares with: `left`, or `right` where that is less
    pub smallest : ℕ → List T → ℕ
    smallest i xs =
        let left = 2 * i + 1 in
        if ltb (left + 1) (length xs) && less (at default xs (left + 1)) (at default xs left)
        then left + 1
        else left

    -- `down`, with the length as fuel: the index grows, and the loop ends behind the last element
    pub down_from : ℕ → ℕ → List T → List T
    unfolding smallest swap
    down_from zero i xs = xs
    down_from (suc fuel) i xs =
        let s = smallest i xs in
        let rest = down_from fuel s (swap default xs i s) in
        if ltb (2 * i + 1) (length xs)
        then (if less (at default xs i) (at default xs s) then xs else rest)
        else xs

    pub down : ℕ → List T → List T
    unfolding down_from
    down i xs = down_from (length xs) i xs

  -- one round of `Push`
  pub push_one : PriorityQueue T → T → PriorityQueue T
  unfolding up
  push_one pq item =
      let xs = pq.items ++ item ∷ [] in
      record pq { items = up pq.less pq.default (length xs - 1) xs }

  pub push : PriorityQueue T → List T → PriorityQueue T
  unfolding push_one
  push pq [] = pq
  push pq (item ∷ rest) = push (push_one pq item) rest

  -- `Pop`: the last element takes the place of the first, the slice is cut, and `down` runs if
  -- anything is left
  pub pop_items : Less T → T → List T → List T
  unfolding down
  pop_items less default xs =
      let last = length xs - 1 in
      let cut = take last (set xs 0 (get_or xs last default)) in
      if ltb 0 (length cut) then down less default 0 cut else cut

  pub pop : PriorityQueue T → PriorityQueue T × Option T
  unfolding pop_items
  pop pq = if length pq.items == 0 then (pq, none) else (
    record pq { items = pop_items pq.less pq.default pq.items },
    some (get_or pq.items 0 pq.default),
  )

  pub peek : PriorityQueue T → Option T
  peek pq = if length pq.items == 0 then none else some (get_or pq.items 0 pq.default)

  pub len : PriorityQueue T → ℕ
  len pq = length pq.items

  pub is_empty : PriorityQueue T → Bool
  is_empty pq = length pq.items == 0

  pub clear : PriorityQueue T → PriorityQueue T
  clear pq = record pq { items = take 0 pq.items }

  -- the loop of `ToSlice`, with the length as fuel: each round pops one element
  pub drain : ℕ → PriorityQueue T → PriorityQueue T × List T
  drain zero pq = (pq, [])
  drain (suc fuel) pq =
      let (pq₁, top) = pop pq in
      elim top [
        | none ↦ (pq₁, [])
        | some item ↦ let (pq₂, rest) = drain fuel pq₁ in (pq₂, item ∷ rest)
      ]

  pub to_slice : PriorityQueue T → PriorityQueue T × List T
  unfolding drain pop
  to_slice pq = drain (length pq.items) pq

  pub clone : PriorityQueue T → PriorityQueue T
  clone pq = record { items = pq.items; less = pq.less; default = pq.default }
