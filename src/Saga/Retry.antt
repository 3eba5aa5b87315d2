-- ===== src/Saga/Retry.antt =====
-- saga/saga.go, `executeStepWithRetry`: what a step with retries does, as a relation.
use mathlib.Core.Option.{some-injective}
use microservice_kit.Prelude.{
  ℕ, zero, suc, ◌+◌, ◌≡◌, refl, ◌↔◌, ◌⊎◌, Option, none, some, arith, inl, inr, sym, ◌∙◌, subst, ap,
  ◌≢◌,
}
use microservice_kit.Prelude.Int.{pos, negsuc}
use microservice_kit.Saga.{Step, Env, call, attempts, execute_step_with_retry, rounds}

-- The runs of a step that may still be retried n times, written without the loop: the action succeeds;
-- it fails and no retry is left; it fails and the context ends the wait; it fails, and the runs go on
-- after the wait.
pub data Runs {ℓ} {W Err : Type ℓ} (env : Env W Err) (step : Step W Err)
    : ℕ → W → Option Err → W → Type ℓ where
  succeeds : {n : ℕ} {w w₁ : W} → call step.action w ≡ some (none, w₁) → Runs env step n w none w₁
  exhausted :
      {w w₁ : W} {e : Err}
      → call step.action w ≡ some (some e, w₁)
      → Runs env step zero w (some e) w₁
  cancelled :
      {n : ℕ} {w w₁ w₂ : W} {e c : Err}
      → call step.action w ≡ some (some e, w₁)
      → env.await_retry w₁ ≡ (some c, w₂)
      → Runs env step (suc n) w (some c) w₂
  retried :
      {n : ℕ} {w w₁ w₂ w₃ : W} {e : Err} {r : Option Err}
      → call step.action w ≡ some (some e, w₁)
      → env.await_retry w₁ ≡ (none, w₂)
      → Runs env step n w₂ r w₃
      → Runs env step (suc n) w r w₃

-- To split on the result of a call, or of an action that may panic, and keep the equation.
pub Call-cases {ℓ} :
    {W Err : Type ℓ} (c : Option Err × W)
    → ((w : W) × (c ≡ (none, w))) ⊎ ((e : Err) × (w : W) × (c ≡ (some e, w)))
Call-cases (none, w) = inl (w, refl)
Call-cases (some e, w) = inr (e, w, refl)

pub Action-cases {ℓ} :
    {W Err : Type ℓ} (c : Option (Option Err × W))
    → (c ≡ none)
      ⊎ (((w : W) × (c ≡ some (none, w))) ⊎ ((e : Err) × (w : W) × (c ≡ some (some e, w))))
Action-cases none = inl refl
Action-cases (some (none, w)) = inr (inl (w, refl))
Action-cases (some (some e, w)) = inr (inr (e, w, refl))

pub none-ne_some {ℓ} : {A : Type ℓ} {a : A} → none ≢ some a
none-ne_some h = cc

module _ {ℓ} {W Err : Type ℓ} (env : Env W Err) (step : Step W Err) where
  -- a round of the loop behind its wait
  abbrev from_action : ℕ → ℕ → W → Option (Option Err × W)
  from_action n attempt w = elim (call step.action w) [
    | none ↦ none
    | some (err, w₁) ↦ elim err [
      | none ↦ some (none, w₁)
      | some e ↦ attempts env n (attempt + 1) step (some e) w₁
    ]
  ]

  from_action_lem :
      (n attempt : ℕ) {w w' : W} {r : Option Err}
      → Runs env step n w r w'
      → from_action n attempt w ≡ some (r, w')
  unfolding attempts
  from_action_lem n attempt (succeeds h) = ground arith
  from_action_lem zero attempt (exhausted h) = ground arith
  from_action_lem (suc n) attempt (cancelled h k) = ground arith
  from_action_lem (suc n) attempt (retried h k rest) =
      ground (arith, from_action_lem n (attempt + 1) rest)

  -- the action panics in some round, or there is a run
  runs :
      (n attempt : ℕ) (w : W)
      → (from_action n attempt w ≡ none) ⊎ ((r : Option Err) × (w' : W) × Runs env step n w r w')
  unfolding attempts
  runs zero attempt w = elim (Action-cases (call step.action w)) [
    | inl h ↦ inl (ground (arith, h))
    | inr (inl (w₁, h)) ↦ inr (none, w₁, Runs.succeeds h)
    | inr (inr (e, w₁, h)) ↦ inr (some e, w₁, Runs.exhausted h)
  ]
  runs (suc n) attempt w = elim (Action-cases (call step.action w)) [
    | inl h ↦ inl (ground (arith, h))
    | inr (inl (w₁, h)) ↦ inr (none, w₁, Runs.succeeds h)
    | inr (inr (e, w₁, h)) ↦ elim (Call-cases (env.await_retry w₁)) [
      | inl (w₂, k) ↦ elim (runs n (attempt + 1) w₂) [
        | inl panics ↦ inl (ground (arith, h, k, panics))
        | inr (r, w₃, rest) ↦ inr (r, w₃, Runs.retried h k rest)
      ]
      | inr (c, w₂, k) ↦ inr (some c, w₂, Runs.cancelled h k)
    ]
  ]

  Runs-of_eq :
      (n : ℕ) (w w' : W) (r : Option Err)
      → from_action n 0 w ≡ some (r, w')
      → Runs env step n w r w'
  Runs-of_eq n w w' r h = elim (runs n 0 w) [
    | inl panics ↦ absurd (none-ne_some (sym panics ∙ h))
    | inr (r₁, w₁, run) ↦
        subst (λ (c : Option Err × W). Runs env step n w c.0 c.1)
          (some-injective _ _ (sym (from_action_lem n 0 run) ∙ h)) run
  ]

  first_action : (n : ℕ) (w : W) → attempts env (rounds (pos n)) 0 step none w ≡ from_action n 0 w
  unfolding attempts rounds
  first_action n w = let e : n + 1 ≡ suc n = omega arith in rw e refl

  first_round :
      (n : ℕ) (w : W)
      → env.retry_count ≡ pos n
      → execute_step_with_retry env step w ≡ from_action n 0 w
  unfolding execute_step_with_retry
  first_round n w h = ap (λ c. attempts env (rounds c) 0 step none w) h ∙ first_action n w

  -- With a retry count of n, a step returns an error or its absence and leaves a world exactly as one
  -- of its runs with n retries does: the first success ends it, at most n waits separate the
  -- attempts, the last error is returned when the retries are used up, and the context's error when
  -- the context ends during a wait. An action that is nil or panics ends no run.
  pub execute_step_with_retry-Runs :
      (n : ℕ) (w w' : W) (r : Option Err)
      → env.retry_count ≡ pos n
      → (execute_step_with_retry env step w ≡ some (r, w')) ↔ Runs env step n w r w'
  execute_step_with_retry-Runs n w w' r h = (
    λ e. Runs-of_eq n w w' r (sym (first_round n w h) ∙ e),
    λ run. first_round n w h ∙ from_action_lem n 0 run,
  )

  -- With a negative retry count a step reports success without its action being run.
  pub execute_step_with_retry_negative :
      (n : ℕ) (w : W)
      → env.retry_count ≡ negsuc n
      → execute_step_with_retry env step w ≡ some (none, w)
  unfolding execute_step_with_retry attempts
  execute_step_with_retry_negative n w h = rw (h, rounds)
