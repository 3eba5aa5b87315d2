-- ===== src/Retry/Bounds.antt =====
-- middleware/retry: how often the endpoint is called, and what a result without an error means.
use microservice_kit.Prelude.{
  ℕ, zero, suc, ◌+◌, ◌≤◌, ◌≡◌, refl, Option, Option-cases, none, arith, ltb, inl, inr, Bool-cases,
}
use microservice_kit.Prelude.Int.{ℤ, pos, negsuc, ◌≤ℤ◌}
use microservice_kit.Retry.{Env, rounds, run_from, run, endpoint_from, endpoint_middleware}

rounds-pos : (attempts : ℤ) (n : ℕ) → attempts ≤ℤ pos n → rounds attempts ≤ n
unfolding rounds
rounds-pos (pos m) n h = omega (arith, h)
rounds-pos (negsuc m) n h = omega arith

module _ {W R Err : Type 0} (env : Env W R Err) (calls : W → ℕ) where
  -- A count of the calls of the endpoint in the state of the world: a call adds one, and the
  -- context and the timers add none.
  pub record IsCount : Type 0 where
    pub next_adds : (w : W) → calls (env.next w).2 ≡ calls w + 1
    pub check_keeps : (w : W) → calls (env.check w).1 ≡ calls w
    pub await_keeps : (t : ℤ) (w : W) → calls (env.await_delay t w).1 ≡ calls w

  module _ (count : IsCount) where
    endpoint_from-calls :
        (left attempt : ℕ) (r : R) (e : Option Err) (w : W)
        → calls (endpoint_from env left attempt r e w).2 ≤ calls w + left
    unfolding endpoint_from
    endpoint_from-calls zero attempt r e w = omega arith
    endpoint_from-calls (suc left) attempt r e w = ground (
      arith,
      count.check_keeps w,
      count.next_adds (env.check w).1,
      count.await_keeps (env.backoff attempt) (env.next (env.check w).1).2,
      endpoint_from-calls left (attempt + 1) (env.next (env.check w).1).0
          (env.next (env.check w).1).1 (env.next (env.check w).1).2,
      endpoint_from-calls left (attempt + 1) (env.next (env.check w).1).0
          (env.next (env.check w).1).1
          (env.await_delay (env.backoff attempt) (env.next (env.check w).1).2).1,
    )

    run_from-calls :
        (left attempt : ℕ) (w : W) → calls (run_from env left attempt w).1 ≤ calls w + left
    unfolding run_from
    run_from-calls zero attempt w = omega arith
    run_from-calls (suc left) attempt w = ground (
      arith,
      count.check_keeps w,
      count.next_adds (env.check w).1,
      count.await_keeps (env.backoff attempt) (env.next (env.check w).1).2,
      run_from-calls left (attempt + 1) (env.next (env.check w).1).2,
      run_from-calls left (attempt + 1)
          (env.await_delay (env.backoff attempt) (env.next (env.check w).1).2).1,
    )

    -- Neither `Run` nor the middleware calls more than n times, where the number of attempts is at most n;
    -- so for a number that is not positive, not at all.
    pub run-calls :
        (n : ℕ) (w : W)
        → env.max_attempts ≤ℤ pos n
        → (calls (run env w).1 ≤ calls w + n) × (calls (endpoint_middleware env w).2 ≤ calls w + n)
    unfolding run endpoint_middleware
    run-calls n w h =
        let most = rounds-pos env.max_attempts n h in
        (
          omega (arith, run_from-calls (rounds env.max_attempts) 0 w),
          omega (arith, endpoint_from-calls (rounds env.max_attempts) 0 env.nil_response none w),
        )

module _ {W R Err : Type 0} (env : Env W R Err) where
  -- `Run` ends without an error only behind a call that gave none
  run_from-success :
      (left attempt : ℕ) (w : W)
      → (run_from env left attempt w).0 ≡ none
      → (w' : W) × ((env.next w').1 ≡ none) × ((env.next w').2 ≡ (run_from env left attempt w).1)
  unfolding run_from
  run_from-success zero attempt w h = absurd (ground arith)
  run_from-success (suc left) attempt w h = elim (Option-cases (env.check w).0) [
    | inr (e, c) ↦ absurd (ground arith)
    | inl c ↦
        let w₁ : W = (env.check w).1 in
        let w₂ : W = (env.next w₁).2 in
        elim (Option-cases (env.next w₁).1) [
          | inl n ↦ (w₁, n, ground arith)
          | inr (e, n) ↦ elim (Bool-cases (ltb 0 left)) [
            | inl l ↦
                let w₃ : W = (env.await_delay (env.backoff attempt) w₂).1 in
                elim (Option-cases (env.await_delay (env.backoff attempt) w₂).0) [
                  | inr (x, s) ↦ absurd (ground arith)
                  | inl s ↦
                      let (w', p, q) = run_from-success left (attempt + 1) w₃ (ground arith) in
                      (w', p, ground arith)
                ]
            | inr l ↦
                let (w', p, q) = run_from-success left (attempt + 1) w₂ (ground arith) in
                (w', p, ground arith)
          ]
        ]
  ]

  -- If `Run` returns no error, then it has called the function, the last call gave none, and nothing
  -- came behind that call.
  pub run-success :
      (w : W)
      → (run env w).0 ≡ none
      → (w' : W) × ((env.next w').1 ≡ none) × ((env.next w').2 ≡ (run env w).1)
  unfolding run
  run-success w h = run_from-success (rounds env.max_attempts) 0 w h

  -- With a number of attempts that is not positive the middleware reports a success, although it has
  -- not called the endpoint: the response and the error are both nil.
  pub endpoint_middleware_no_attempts :
      (w : W)
      → rounds env.max_attempts ≡ 0
      → endpoint_middleware env w ≡ (env.nil_response, none, w)
  unfolding endpoint_middleware endpoint_from
  endpoint_middleware_no_attempts w h = rw h refl
