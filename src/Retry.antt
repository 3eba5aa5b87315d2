-- ===== src/Retry.antt =====
-- middleware/retry: `Retry.Run` and the endpoint middleware. A call takes the state of the world to its
-- results and the state after it. A `select` on the context and on a timer is a parameter, since it may
-- choose where both are ready: an error is that of the context.
mod Bounds
mod Tests
use microservice_kit.Prelude.{
  ℕ, zero, suc, ◌+◌, ◌-◌, Bool, Option, none, some, not, ltb, if◌then◌else◌,
}
use microservice_kit.Prelude.Int.{ℤ, pos, negsuc}

module _ (W R Err : Type 0) where
  -- `Config`, the endpoint and the context. `next` returns the response and the error.
  pub record Env : Type 0 where
    pub max_attempts : ℤ
    -- the `select` on `ctx.Done()` with a default
    pub check : W → Option Err × W
    pub next : W → R × Option Err × W
    pub retryable : Err → Bool
    -- `cfg.Backoff(attempt, cfg.Delay)`
    pub backoff : ℕ → ℤ
    -- the `select` on `time.After(wait)` and `ctx.Done()`
    pub await_delay : ℤ → W → Option Err × W
    -- Go's zero value of a response
    pub nil_response : R

-- the errors of `Run`: that of the context, or `ErrMaxAttempts`
pub data RunError (Err : Type 0) : Type 0 where
  context_error : Err → RunError Err
  err_max_attempts : RunError Err

-- the count of rounds of `for attempt := 0; attempt < maxAttempts; attempt++`
pub rounds : ℤ → ℕ
rounds (pos n) = n
rounds (negsuc _) = 0

module _ {W R Err : Type 0} (env : Env W R Err) where
  -- the loop of `Run`, by the rounds left; the last is the one with none behind it
  pub run_from : ℕ → ℕ → W → Option (RunError Err) × W
  run_from zero attempt w = (some err_max_attempts, w)
  run_from (suc left) attempt w =
      let (done, w₁) = env.check w in
      elim done [
        | some e ↦ (some (context_error e), w₁)
        | none ↦
            let (response, err, w₂) = env.next w₁ in
            elim err [
              | none ↦ (none, w₂)
              | some e ↦
                  let (stop, w₃) =
                    if ltb 0 left then env.await_delay (env.backoff attempt) w₂ else (none, w₂) in
                  elim stop [
                    | some c ↦ (some (context_error c), w₃)
                    | none ↦ run_from left (attempt + 1) w₃
                  ]
            ]
      ]

  pub run : W → Option (RunError Err) × W
  run w = run_from (rounds env.max_attempts) 0 w

  -- the loop of the endpoint middleware, with the response and the error so far
  pub endpoint_from : ℕ → ℕ → R → Option Err → W → R × Option Err × W
  endpoint_from zero attempt response err w = (response, err, w)
  endpoint_from (suc left) attempt response err w =
      let (done, w₁) = env.check w in
      elim done [
        | some e ↦ (env.nil_response, some e, w₁)
        | none ↦
            let (response', err', w₂) = env.next w₁ in
            elim err' [
              | none ↦ (response', none, w₂)
              | some e ↦
                  let (stop, w₃) =
                    if ltb 0 left then env.await_delay (env.backoff attempt) w₂ else (none, w₂) in
                  if not (env.retryable e) then (response', some e, w₂) else elim stop [
                    | some c ↦ (env.nil_response, some c, w₃)
                    | none ↦ endpoint_from left (attempt + 1) response' (some e) w₃
                  ]
            ]
      ]

  pub endpoint_middleware : W → R × Option Err × W
  endpoint_middleware w = endpoint_from (rounds env.max_attempts) 0 env.nil_response none w
