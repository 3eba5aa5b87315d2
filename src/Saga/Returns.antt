-- ===== src/Saga/Returns.antt =====
-- saga/saga.go: where no function of a step is nil or panics, `ExecuteWithData` returns.
use Prim.Native.String.{String}
use microservice_kit.Prelude.{
  ℕ, zero, suc, ◌+◌, ◌≤◌, ◌≡◌, ◌≢◌, sym, ◌∙◌, inl, inr, Option, none, some, List, [], ◌∷◌, length,
  get_elem?, get_elem?-some, arith, subst, Option-cases, if◌then◌else◌, ltb,
}
use mathlib.Core.Option.{some-injective}
use microservice_kit.Saga.{
  SagaStatus, Step, State, Env, call, attempts, execute_step_with_retry, rounds, run_steps,
  compensate, finish, execute, new_state, save_state, update_result, with_status, StepStatus,
}
use microservice_kit.Saga.Retry.{Action-cases, none-ne_some}
use microservice_kit.Saga.Compensate.{undo, later, compensate_suc-some}
use microservice_kit.Saga.Statuses.{compensate_step-Assigned, run_step-Assigned}
use microservice_kit.Saga.Loops.{Ends, run_steps-Ran}
use microservice_kit.Saga.Execute.{new_state-Begun}

module _ {ℓ} {W Err : Type ℓ} where
  -- the action of a step is set and returns, and so does its compensation, if it is set
  abbrev pub Returns : Step W Err → Type ℓ
  Returns step = ((w : W) → call step.action w ≢ none) × ((w : W) → undo step w ≢ none)

  abbrev pub AllReturn : List (Step W Err) → Type ℓ
  AllReturn [] = Unit
  AllReturn (step ∷ steps) = Returns step × AllReturn steps

  AllReturn-get_elem? :
      (steps : List (Step W Err)) (i : ℕ) (step : Step W Err)
      → AllReturn steps
      → get_elem? steps i ≡ some step
      → Returns step
  AllReturn-get_elem? [] i step a e = absurd (none-ne_some e)
  AllReturn-get_elem? (x ∷ xs) zero step (h, a) e = subst Returns (some-injective _ _ e) h
  AllReturn-get_elem? (x ∷ xs) (suc i) step (h, a) e = AllReturn-get_elem? xs i step a e

module _ {ℓ} {W Err : Type ℓ} (env : Env W Err) where
  attempts-none :
      (n attempt : ℕ) (step : Step W Err) (last : Option Err) (w : W)
      → ((w : W) → call step.action w ≢ none)
      → attempts env n attempt step last w ≢ none
  unfolding attempts
  attempts-none zero attempt step last w h e = none-ne_some (sym e)
  attempts-none (suc n) attempt step last w h e =
      let (waited, w₁) = if ltb 0 attempt then env.await_retry w else (none, w) in
      elim (Option-cases waited) [
        | inr (x, k) ↦ absurd (ground (arith, k, e))
        | inl k ↦ elim (Action-cases (call step.action w₁)) [
          | inl l ↦ absurd (h w₁ l)
          | inr (inl (w₂, l)) ↦ absurd (ground (arith, k, l, e))
          | inr (inr (x, w₂, l)) ↦
              attempts-none n (attempt + 1) step (some x) w₂ h (ground (arith, k, l, e))
        ]
      ]

  execute_step-none :
      (step : Step W Err) (w : W) → Returns step → execute_step_with_retry env step w ≢ none
  unfolding execute_step_with_retry
  execute_step-none step w (h, _) = attempts-none (rounds env.retry_count) 0 step none w h

  run_steps-none :
      (steps : List (Step W Err)) (i : ℕ) (st : State Err) (w : W)
      → AllReturn steps
      → run_steps env steps i i st w ≢ none
  unfolding run_steps
  run_steps-none [] i st w a e = none-ne_some (sym e)
  run_steps-none (step ∷ steps) i st w (h, a) e = elim (Option-cases (env.ctx_err w)) [
    | inr (x, k) ↦ absurd (ground (arith, k, e))
    | inl k ↦ elim (run_step-Assigned env i step st w) [
      | inl (w₁, l, _) ↦ execute_step-none step w₁ h l
      | inr (some x, st₁, w₁, l, _) ↦ absurd (ground (arith, k, l, e))
      | inr (none, st₁, w₁, l, _) ↦
          run_steps-none steps (i + 1) (update_result i (with_status StepStatus.completed) st₁) w₁ a
            (ground (arith, k, l, e))
    ]
  ]

  module _ (steps : List (Step W Err)) (all : AllReturn steps) where
    compensate-none :
        (n : ℕ) (last : Option Err) (st : State Err) (w : W)
        → n ≤ length steps
        → compensate env steps n last st w ≢ none
    unfolding compensate
    compensate-none zero last st w h e = none-ne_some (sym e)
    compensate-none (suc n) last st w h e =
        let (step, q) = get_elem?-some steps n h in
        elim (compensate_step-Assigned env n step last st w) [
          | inl (p, _) ↦ (AllReturn-get_elem? steps n step all q).1 w p
          | inr (x, st₁, w₁, p, _) ↦
              compensate-none n (later x last) st₁ w₁ (omega arith)
                (sym (compensate_suc-some env steps n step last st w q p) ∙ e)
        ]

    finish-none :
        (r : Option Err × ℕ × State Err × W) → r.1 ≤ length steps → finish env steps r ≢ none
    unfolding finish
    finish-none (none, k, st, w) h e = none-ne_some (sym e)
    finish-none (some x, k, st, w) h e =
        let st₁ = record st { status = SagaStatus.compensating; error = some x } in
        let w₁ = save_state env st₁ w in
        elim (Option-cases (compensate env steps k none st₁ w₁)) [
          | inl c ↦ compensate-none k none st₁ w₁ h c
          | inr (t, c) ↦ absurd (ground (arith, c, e))
        ]

    -- Where no function of a step is nil or panics, executing the saga returns.
    pub execute-none : (name : String) (w : W) → execute env name steps w ≢ none
    unfolding execute
    execute-none name w e =
        let (id, w₁) = env.new_id w in
        let (started, w₂) = env.now w₁ in
        let st = record (new_state id name steps started) { status = SagaStatus.running } in
        let w₃ = env.with_timeout (save_state env st w₂) in
        let ran =
          run_steps-Ran env steps 0 (length steps) st w₃ (omega arith)
            (new_state-Begun env steps id name started) in
        elim (Option-cases (run_steps env steps 0 0 st w₃)) [
          | inl c ↦ run_steps-none steps 0 st w₃ all c
          | inr (t, c) ↦
              finish-none t (subst (Ends env (length steps)) c ran).bounded (ground (arith, c, e))
        ]
