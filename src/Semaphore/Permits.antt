-- ===== src/Semaphore/Permits.antt =====
-- middleware/semaphore: what `TryAcquire`, `Acquire`, `Release` and `Available` do to a counter that counts.
use microservice_kit.Prelude.{
  ℕ, ◌+◌, ◌-◌, ◌<◌, ◌≡◌, true, none, some, List, [], ◌∷◌, ◌++◌, if◌then◌else◌, ltb, arith,
}
use microservice_kit.Prelude.Int.{pos, ◌-ℤ◌}
use microservice_kit.Semaphore.{
  Counter, Wait, cancelled, retry, try_acquire, acquire, release, available,
}

-- The documented behaviour of a `Counter`: each call is atomic and succeeds, and a time to live does not
-- run out.
pub record IsAtomic {S : Type 0} (counter : Counter S) (count : S → ℕ) : Type 0 where
  pub increments : (s : S) → (counter.increment s).0 ≡ some (pos (count s + 1))
  pub count-increment : (s : S) → count (counter.increment s).1 ≡ count s + 1
  pub decrements : (s : S) → 0 < count s → (counter.decrement s).0 ≡ some (pos (count s - 1))
  pub count-decrement : (s : S) → 0 < count s → count (counter.decrement s).1 ≡ count s - 1
  pub reads : (s : S) → (counter.current s).0 ≡ some (pos (count s))
  pub count-current : (s : S) → count (counter.current s).1 ≡ count s
  pub count-expire : (s : S) → count (counter.expire s) ≡ count s

module _ {S : Type 0} (counter : Counter S) (count : S → ℕ) (atomic : IsAtomic counter count) where
  -- `TryAcquire` takes a permit exactly where fewer than `size` are taken, and otherwise leaves the count
  -- as it was.
  pub try_acquire-count :
      (size : ℕ) (s : S)
      → ((try_acquire counter (pos size) s).0 ≡ ltb (count s) size)
        × (count (try_acquire counter (pos size) s).1
            ≡ (if ltb (count s) size then count s + 1 else count s))
  unfolding try_acquire
  try_acquire-count size s =
      let s₁ = (counter.increment s).1 in
      ground (
        arith,
        atomic.increments s,
        atomic.count-increment s,
        atomic.count-expire s₁,
        atomic.count-expire (counter.expire s₁),
        atomic.count-decrement s₁,
        atomic.count-decrement (counter.expire s₁),
      )

  -- With a permit taken, `Release` gives one back, without an error; `Available` answers the size less the
  -- permits taken, at least 0, and changes nothing.
  pub release-available :
      (size : ℕ) (s : S)
      → 0 < count s
      → ((release counter (pos size) s).0 ≡ true)
        × (count (release counter (pos size) s).1 + 1 ≡ count s)
        × ((available counter (pos size) s).0 ≡ pos (size - count s))
        × (count (available counter (pos size) s).1 ≡ count s)
  unfolding release available ◌-ℤ◌
  release-available size s h = ground (
    arith,
    h,
    atomic.decrements s,
    atomic.count-decrement s,
    atomic.reads s,
    atomic.count-current s,
  )

  acquire-now :
      (size : ℕ) (waits : List (Wait S)) (s : S)
      → count s < size
      → (acquire counter (pos size) waits s).0 ≡ some true
  unfolding acquire
  acquire-now size [] s h = ground (arith, try_acquire-count size s)
  acquire-now size (w ∷ waits) s h = ground (arith, try_acquire-count size s)

  -- no wait of a list is cut off
  abbrev pub Patient : List (Wait S) → Type 0
  Patient [] = Unit
  Patient (cancelled ∷ waits) = ⊥
  Patient (retry others ∷ waits) = Patient waits

  -- `Acquire` gets a permit, where its context lasts until some wait in which the others leave fewer than
  -- `size` permits taken.
  pub acquire-eventually :
      (size : ℕ) (waits more : List (Wait S)) (others : S → S) (s : S)
      → Patient waits
      → ((s : S) → count (others s) < size)
      → (acquire counter (pos size) (waits ++ retry others ∷ more) s).0 ≡ some true
  unfolding acquire
  acquire-eventually size [] more others s p free = ground (
    arith,
    acquire-now size more (others (try_acquire counter (pos size) s).1)
        (free (try_acquire counter (pos size) s).1),
  )
  acquire-eventually size (cancelled ∷ waits) more others s p free = absurd p
  acquire-eventually size (retry o ∷ waits) more others s p free = ground (
    arith,
    acquire-eventually size waits more others (o (try_acquire counter (pos size) s).1) p free,
  )

  -- an answer of `Acquire` without a permit leaves the count, where the others leave it in each wait
  abbrev pub Still : List (Wait S) → Type 0
  Still [] = Unit
  Still (cancelled ∷ waits) = Still waits
  Still (retry others ∷ waits) = ((s : S) → count (others s) ≡ count s) × Still waits

  pub acquire-count :
      (size : ℕ) (waits : List (Wait S)) (s : S)
      → Still waits
      → count (acquire counter (pos size) waits s).1
        ≡ (elim (acquire counter (pos size) waits s).0 [
          | some b ↦ (if b then count s + 1 else count s)
          | none ↦ count s
        ])
  unfolding acquire
  acquire-count size [] s h = ground (arith, try_acquire-count size s)
  acquire-count size (cancelled ∷ waits) s h = ground (arith, try_acquire-count size s)
  acquire-count size (retry o ∷ waits) s (e, h) =
      let t = try_acquire counter (pos size) s in
      ground (arith, try_acquire-count size s, e t.1, acquire-count size waits (o t.1) h)
