-- ===== src/Semaphore/Guard.antt =====
-- middleware/semaphore/middleware.go: the middleware gives back the permit that it takes, also where the
-- call panics.
use microservice_kit.Prelude.{ℕ, ◌≡◌, Bool, true, false, List, arith}
use microservice_kit.Prelude.Int.{pos}
use microservice_kit.Semaphore.{Counter, Wait, Outcome, Refusal, try_acquire, acquire, guarded}
use microservice_kit.Semaphore.Permits.{
  IsAtomic, Still, try_acquire-count, acquire-count, release-available,
}

module _ {S A : Type 0} (counter : Bool → Counter S) (count : S → ℕ)
    (atomic : IsAtomic (counter false) count) where
  -- Over a counter that counts, and does not fail as long as the context of the request is not done: a
  -- guarded call that does not end with the context done, and leaves the count as it finds it, and waits in
  -- which the others do so, leave the count as it was, whether the call returned or panicked, was refused
  -- or still waits.
  pub guarded-count :
      (size : ℕ) (refusal : Refusal) (block : Bool) (waits : List (Wait S))
      (next : S → Outcome A × Bool × S) (s : S)
      → Still (counter false) count atomic waits
      → ((s : S) → (next s).1 ≡ false)
      → ((s : S) → count (next s).2 ≡ count s)
      → count (guarded counter (pos size) refusal block waits next s).1 ≡ count s
  unfolding guarded
  guarded-count size refusal true waits next s still lasts keeps =
      let t = (acquire (counter false) (pos size) waits s).1 in
      ground (
        arith,
        acquire-count (counter false) count atomic size waits s still,
        lasts t,
        keeps t,
        release-available (counter false) count atomic size (next t).2,
      )
  guarded-count size refusal false waits next s still lasts keeps =
      let t = (try_acquire (counter false) (pos size) s).1 in
      ground (
        arith,
        try_acquire-count (counter false) count atomic size s,
        lasts t,
        keeps t,
        release-available (counter false) count atomic size (next t).2,
      )
