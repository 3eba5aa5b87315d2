-- ===== src/Deque.antt =====
-- util/collections/deque/deque.go: a double-ended queue in a ring buffer. `x & (len(buf) - 1)` is
-- written as the remainder by the length, which is the same as the length is a power of two; that it
-- stays one is part of the invariant in Deque/Ring.
mod Ring
mod Resize
mod Capacity
mod Steps
mod Back
mod Front
mod Ends
mod Whole
mod Turns
mod Visits
mod Tests
use microservice_kit.Prelude.{
  ℕ, zero, suc, ◌+◌, ◌-◌, ◌*◌, ◌/◌, ◌%◌, Bool, true, false, ◌&&◌, ◌||◌, Option, none, some, List,
  [], ◌∷◌, ◌++◌, map, length, get_or, set, swap, take, drop, replicate, tabulate, ltb, leb, ◌==◌,
  if◌then◌else◌,
}
use microservice_kit.Prelude.Int.{ℤ, pos, negsuc, pos_part, ◌+ℤ◌, rem_ℤ, eqb_ℤ, leb_ℤ, ltb_ℤ}

abbrev pub min_capacity : ℕ
min_capacity = 8

-- `buf`, `head`, `tail` and `count`; `zero_value` is Go's zero value of the element type.
pub record Deque {ℓ} (T : Type ℓ) : Type ℓ where
  pub buf : List T
  pub head : ℕ
  pub tail : ℕ
  pub count : ℕ
  pub zero_value : T

-- Go's `copy(dst[at:], src)`, as the new contents of dst
pub copy_at {ℓ} : {A : Type ℓ} → List A → ℕ → List A → List A
copy_at [] at src = []
copy_at (x ∷ dst) (suc at) src = x ∷ copy_at dst at src
copy_at (x ∷ dst) zero [] = x ∷ dst
copy_at (x ∷ dst) zero (y ∷ src) = y ∷ copy_at dst zero src

-- the loop of `NewWithCapacity`; every round adds to `cap`, so the capacity is fuel enough
pub double_until : ℕ → ℕ → ℕ → ℕ
double_until zero cap capacity = cap
double_until (suc fuel) cap capacity =
    let rest = double_until fuel (cap * 2) capacity in if ltb cap capacity then rest else cap

module _ {ℓ} {T : Type ℓ} where
  pub new_with_capacity : T → ℕ → Deque T
  unfolding double_until
  new_with_capacity z capacity = record {
    buf = replicate (double_until capacity min_capacity capacity) z;
    head = 0;
    tail = 0;
    count = 0;
    zero_value = z;
  }

  pub new : T → Deque T
  new z = record { buf = replicate min_capacity z; head = 0; tail = 0; count = 0; zero_value = z }

  -- the index of the element number i, `(d.head + i) & (len(d.buf) - 1)`
  abbrev pub index : Deque T → ℕ → ℕ
  index d i = (d.head + i) % length d.buf

  abbrev pub item : Deque T → ℕ → T
  item d i = get_or d.buf (index d i) d.zero_value

  abbrev pub next : Deque T → ℕ → ℕ
  next d i = (i + 1) % length d.buf

  -- `(i - 1) & (len(d.buf) - 1)`, the last index for i = 0
  abbrev pub prev : Deque T → ℕ → ℕ
  prev d i = (i + length d.buf - 1) % length d.buf

  pub resize : Deque T → ℕ → Deque T
  unfolding copy_at
  resize d new_size =
      let empty = replicate new_size d.zero_value in
      let back = drop d.head d.buf in
      let n = if ltb (length back) new_size then length back else new_size in
      record d {
        buf =
            if ltb d.head d.tail
            then copy_at empty 0 (take (d.tail - d.head) back)
            else if ltb 0 d.count
            then copy_at (copy_at empty 0 back) n (take d.tail d.buf)
            else empty;
        head = 0;
        tail = d.count;
      }

  pub grow_if_needed : Deque T → Deque T
  unfolding resize
  grow_if_needed d = if d.count == length d.buf then resize d (length d.buf * 2) else d

  pub shrink_if_needed : Deque T → Deque T
  unfolding resize
  shrink_if_needed d =
      if ltb min_capacity (length d.buf) && leb d.count (length d.buf / 4)
      then resize d (length d.buf / 2)
      else d

  pub push_front : Deque T → T → Deque T
  unfolding grow_if_needed
  push_front d x =
      let g = grow_if_needed d in
      let head = prev g g.head in
      record g { head = head; buf = set g.buf head x; count = g.count + 1 }

  pub push_back : Deque T → T → Deque T
  unfolding grow_if_needed
  push_back d x =
      let g = grow_if_needed d in
      record g { buf = set g.buf g.tail x; tail = next g g.tail; count = g.count + 1 }

  pub pop_front : Deque T → Deque T × Option T
  unfolding shrink_if_needed
  pop_front d = if d.count == 0 then (d, none) else (
    shrink_if_needed (record d {
      buf = set d.buf d.head d.zero_value;
      head = next d d.head;
      count = d.count - 1;
    }),
    some (get_or d.buf d.head d.zero_value),
  )

  pub pop_back : Deque T → Deque T × Option T
  unfolding shrink_if_needed
  pop_back d =
      let tail = prev d d.tail in
      if d.count == 0 then (d, none) else (
        shrink_if_needed
            (record d { buf = set d.buf tail d.zero_value; tail = tail; count = d.count - 1 }),
        some (get_or d.buf tail d.zero_value),
      )

  pub peek_front : Deque T → Option T
  peek_front d = if d.count == 0 then none else some (get_or d.buf d.head d.zero_value)

  pub peek_back : Deque T → Option T
  peek_back d = if d.count == 0 then none else some (get_or d.buf (prev d d.tail) d.zero_value)

  pub at : Deque T → ℤ → Option T
  at d i = if ltb_ℤ i (pos 0) || leb_ℤ (pos d.count) i then none else some (item d (pos_part i))

  pub set_at : Deque T → ℤ → T → Deque T × Bool
  set_at d i x =
      if ltb_ℤ i (pos 0) || leb_ℤ (pos d.count) i
      then (d, false)
      else (record d { buf = set d.buf (index d (pos_part i)) x }, true)

  pub len : Deque T → ℕ
  len d = d.count

  pub is_empty : Deque T → Bool
  is_empty d = d.count == 0

  pub clear : Deque T → Deque T
  clear d = record d { buf = map (λ _. d.zero_value) d.buf; head = 0; tail = 0; count = 0 }

  -- the loop over i from 0 to count - 1
  pub to_slice : Deque T → List T
  to_slice d = tabulate 0 d.count (item d)

  pub clone : Deque T → Deque T
  clone d = record {
    buf = d.buf;
    head = d.head;
    tail = d.tail;
    count = d.count;
    zero_value = d.zero_value;
  }

  pub push_all : Deque T → List T → Deque T
  unfolding push_back
  push_all d [] = d
  push_all d (x ∷ xs) = push_all (push_back d x) xs

  -- `From`
  pub from : T → List T → Deque T
  unfolding new_with_capacity push_all
  from z items = push_all (new_with_capacity z (length items)) items

  -- `ForEach` and `ForEachReverse`, whose function changes a state, with their loops by the rounds left
  pub for_from : {S : Type ℓ} → (T → S → S) → Deque T → ℕ → ℕ → S → S
  for_from f d zero i s = s
  for_from f d (suc left) i s = for_from f d left (i + 1) (f (item d i) s)

  pub for_each : {S : Type ℓ} → (T → S → S) → Deque T → S → S
  for_each f d s = for_from f d d.count 0 s

  pub for_down : {S : Type ℓ} → (T → S → S) → Deque T → ℕ → S → S
  for_down f d zero s = s
  for_down f d (suc i) s = for_down f d i (f (item d i) s)

  pub for_each_reverse : {S : Type ℓ} → (T → S → S) → Deque T → S → S
  for_each_reverse f d s = for_down f d d.count s

  -- the loop of `Rotate`; a queue that is not empty always pops
  pub rotate_by : ℕ → Deque T → Deque T
  unfolding pop_front push_back
  rotate_by zero d = d
  rotate_by (suc n) d =
      let (d₁, x) = pop_front d in
      rotate_by n (push_back d₁ (elim x [ none ↦ d₁.zero_value | some v ↦ v ]))

  pub rotate : Deque T → ℤ → Deque T
  unfolding rotate_by ◌+ℤ◌
  rotate d n =
      let r = rem_ℤ n (pos d.count) in
      if leb d.count 1
      then d
      else if eqb_ℤ r (pos 0)
      then d
      else rotate_by (pos_part (if ltb_ℤ r (pos 0) then r +ℤ pos d.count else r)) d

  -- the loop of `Reverse`, with the count as fuel
  pub reverse_from : ℕ → ℕ → ℕ → Deque T → Deque T
  unfolding swap
  reverse_from zero i j d = d
  reverse_from (suc fuel) i j d =
      let rest =
        reverse_from fuel (i + 1) (j - 1)
          (record d { buf = swap d.zero_value d.buf (index d i) (index d j) }) in
      if ltb i j then rest else d

  pub reverse : Deque T → Deque T
  unfolding reverse_from
  reverse d = reverse_from d.count 0 (d.count - 1) d
