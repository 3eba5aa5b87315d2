-- ===== src/Semaphore.antt =====
-- middleware/semaphore: the semaphore over a shared counter (distributed.go), and the middleware that
-- takes a permit around a call (middleware.go). What other clients do to the counter between two attempts
-- is part of the wait for the next one.
mod Permits
mod Guard
mod Steps
mod Alone
pub mod Tests
use microservice_kit.Prelude.{
  ℕ, zero, ◌≡◌, Bool, true, false, Option, none, some, List, [], ◌∷◌, if◌then◌else◌, ◌==◌,
}
use microservice_kit.Prelude.Int.{ℤ, pos, ◌+ℤ◌, ◌-ℤ◌, ltb_ℤ, eqb_ℤ}
use microservice_kit.Cache.{MemoryCache, Go, Result, ok, fail}
use microservice_kit.Cache

-- `Counter` at the semaphore's key, over the state of what stands behind it; an error is none
pub record Counter (S : Type 0) : Type 0 where
  pub increment : S → Option ℤ × S
  pub decrement : S → Option ℤ × S
  pub current : S → Option ℤ × S
  pub expire : S → S

-- One turn of the select in `Acquire`: the context is done, or the wait is over and the others have done
-- this.
pub data Wait (S : Type 0) : Type 0 where
  cancelled : Wait S
  retry : (S → S) → Wait S

-- how a guarded call ends
pub data Outcome (A : Type 0) : Type 0 where
  returned : A → Outcome A
  panicked : Outcome A

-- what the middleware answers without a permit: `ErrNoPermit`, the status 503, the gRPC code
pub data Refusal : Type 0 where
  err_no_permit service_unavailable resource_exhausted : Refusal

pub data Answer (A : Type 0) : Type 0 where
  answer : Outcome A → Answer A
  refused : Refusal → Answer A

module _ {S : Type 0} (counter : Counter S) (size : ℤ) where
  -- `TryAcquire`
  pub try_acquire : S → Bool × S
  try_acquire s =
      let (result, s₁) = counter.increment s in
      elim result [
        | none ↦ (false, s₁)
        | some count ↦
            let s₂ = if eqb_ℤ count (pos 1) then counter.expire s₁ else s₁ in
            if ltb_ℤ size count
            then (false, (counter.decrement s₂).1)
            else (true, counter.expire s₂)
      ]

  -- `Acquire`: whether there is no error; none where it still waits
  pub acquire : List (Wait S) → S → Option Bool × S
  acquire [] s = let (acquired, s₁) = try_acquire s in (if acquired then some true else none, s₁)
  acquire (wait ∷ waits) s =
      let (acquired, s₁) = try_acquire s in
      elim acquired [
        | true ↦ (some true, s₁)
        | false ↦ elim wait [
          | cancelled ↦ (some false, s₁)
          | retry others ↦ acquire waits (others s₁)
        ]
      ]

  pub release : S → Bool × S
  release s =
      let (result, s₁) = counter.decrement s in (elim result [ none ↦ false | some _ ↦ true ], s₁)

  pub available : S → ℤ × S
  available s =
      let (result, s₁) = counter.current s in
      elim result [
        | none ↦ (size, s₁)
        | some current ↦
            let rest = size -ℤ current in (if ltb_ℤ rest (pos 0) then pos 0 else rest, s₁)
      ]

-- The middleware. The counter gets the context of the request: it is given by whether that is done, since a
-- call with a context that is done may fail. A request begins with a context that is not done, and the call
-- answers with whether it is done by then.
module _ {S : Type 0} (counter : Bool → Counter S) (size : ℤ) where
  -- the body that the four kinds of middleware share: a permit, the call, and the deferred release with the
  -- context of the request, which also runs where the call panics, and whose error is dropped
  pub guarded :
      {A : Type 0}
      → Refusal
      → Bool
      → List (Wait S)
      → (S → Outcome A × Bool × S)
      → S
      → Option (Answer A) × S
  guarded refusal block waits next s =
      let (permit, s₁) : Option Bool × S = if block then acquire (counter false) size waits s else (
        some (try_acquire (counter false) size s).0,
        (try_acquire (counter false) size s).1,
      ) in
      elim permit [
        | none ↦ (none, s₁)
        | some false ↦ (some (refused refusal), s₁)
        | some true ↦
            let (outcome, done, s₂) = next s₁ in
            (some (answer outcome), (release (counter done) size s₂).1)
      ]

  pub endpoint_middleware :
      {A : Type 0} → Bool → List (Wait S) → (S → Outcome A × Bool × S) → S → Option (Answer A) × S
  endpoint_middleware block waits next s = guarded err_no_permit block waits next s

  pub http_middleware :
      {A : Type 0} → Bool → List (Wait S) → (S → Outcome A × Bool × S) → S → Option (Answer A) × S
  http_middleware block waits next s = guarded service_unavailable block waits next s

  pub unary_server_interceptor :
      {A : Type 0} → Bool → List (Wait S) → (S → Outcome A × Bool × S) → S → Option (Answer A) × S
  unary_server_interceptor block waits next s = guarded resource_exhausted block waits next s

  pub stream_server_interceptor :
      {A : Type 0} → Bool → List (Wait S) → (S → Outcome A × Bool × S) → S → Option (Answer A) × S
  stream_server_interceptor block waits next s = guarded resource_exhausted block waits next s

abbrev result_of : Result ℤ → Option ℤ
result_of (ok n) = some n
result_of (fail e) = none

-- `CacheCounter` over the cache in memory, at a time and for a key and a time to live; `ParseInt` is a
-- parameter
module _ {Text Any : Type 0} (go : Go Text Any) (parse_int : Text → Option ℤ) where
  -- `cacheCounter.Get`, of what the cache answers
  number_of : Result Text → Option ℤ
  number_of (fail e) = none
  number_of (ok val) = elim (go.same val go.empty) [ yes _ ↦ some (pos 0) | no _ ↦ parse_int val ]

  pub cache_counter : ℕ → Text → ℤ → Counter (MemoryCache Text)
  cache_counter now key ttl = record {
    increment = λ m. (result_of (Cache.increment go now m key).1, (Cache.increment go now m key).0);
    decrement = λ m. (result_of (Cache.decrement go now m key).1, (Cache.decrement go now m key).0);
    current = λ m. (number_of (Cache.get_value go now m key).1, (Cache.get_value go now m key).0);
    expire = λ m. (Cache.expire go now m key ttl).0;
  }
