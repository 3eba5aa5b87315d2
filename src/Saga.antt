-- ===== src/Saga.antt =====
-- saga/saga.go, saga/step.go, saga/state.go: the saga executor.
mod Retry
mod Compensate
mod Statuses
mod Loops
mod Execute
mod Returns
mod Outcomes
mod Tests
use Prim.Native.String.{String}
use microservice_kit.Prelude.{
  ℕ, zero, suc, ◌+◌, ◌-◌, Bool, true, false, Option, none, some, List, [], ◌∷◌, map, length,
  get_elem?, modify, ltb, if◌then◌else◌,
}
use microservice_kit.Prelude.Int.{ℤ, pos, negsuc}

pub data StepStatus : Type 0 where
  pending running completed failed compensating compensated compensate_failed : StepStatus

pub data SagaStatus : Type 0 where
  pending running completed failed compensating compensated compensate_failed : SagaStatus

-- `SagaStatus.IsTerminal`
pub is_terminal : SagaStatus → Bool
is_terminal SagaStatus.completed = true
is_terminal SagaStatus.compensated = true
is_terminal SagaStatus.compensate_failed = true
is_terminal _ = false

-- A state-changing call: it may return an error, and it leaves a world behind. The world holds the
-- shared data of the saga, the context, the clock, the store and all that the steps touch.
abbrev pub Call {ℓ} : Type ℓ → Type ℓ → Type ℓ
Call W Err = W → Option Err × W

-- an `Action` or `Compensate` of a step: none where it panics
abbrev pub Action {ℓ} : Type ℓ → Type ℓ → Type ℓ
Action W Err = W → Option (Option Err × W)

-- none is a nil function
pub record Step {ℓ} (W Err : Type ℓ) : Type ℓ where
  pub name : String
  pub action : Option (Action W Err)
  pub compensate : Option (Action W Err)

-- the call of a function that may be nil
abbrev pub call {ℓ} : {W Err : Type ℓ} → Option (Action W Err) → Action W Err
call none w = none
call (some f) w = f w

pub record StepResult {ℓ} (Err : Type ℓ) : Type ℓ where
  pub step_name : String
  pub status : StepStatus
  pub error : Option Err
  pub duration : ℕ

-- `State`, without the field `Data`, which the executor never writes
pub record State {ℓ} (Err : Type ℓ) : Type ℓ where
  pub id : String
  pub name : String
  pub status : SagaStatus
  pub current_step : ℕ
  pub step_results : List (StepResult Err)
  pub error : Option Err
  pub started_at : ℕ
  pub completed_at : Option ℕ

-- `options` and the calls that the executor makes of code outside the package. A hook that is not
-- set changes no world. These calls are taken to return. Times are milliseconds.
pub record Env {ℓ} (W Err : Type ℓ) : Type ℓ where
  -- `s.idGen()`
  pub new_id : W → String × W
  -- `time.Now()`
  pub now : W → ℕ × W
  -- `s.opts.store.Save`
  pub save : State Err → Call W Err
  -- `context.WithTimeout`, if `timeout > 0`
  pub with_timeout : W → W
  -- `ctx.Err()`
  pub ctx_err : W → Option Err
  -- the `select` on `ctx.Done()` and `time.After(retryDelay)`; an error is that of the context
  pub await_retry : Call W Err
  pub on_step_start : String → W → W
  pub on_step_end : String → Option Err → W → W
  pub retry_count : ℤ

-- `ErrSagaFailed` with the step's error, and the compensation's where that failed too
pub data SagaError {ℓ} (Err : Type ℓ) : Type ℓ where
  saga_failed : Err → SagaError Err
  compensation_failed : Err → Err → SagaError Err

-- `NewState`, with the names that `ExecuteWithData` fills in
pub pending_result {ℓ} : {W Err : Type ℓ} → Step W Err → StepResult Err
pending_result s = record {
  step_name = s.name;
  status = StepStatus.pending;
  error = none;
  duration = 0;
}

pub new_state {ℓ} : {W Err : Type ℓ} → String → String → List (Step W Err) → ℕ → State Err
unfolding pending_result
new_state id name steps started = record {
  id = id;
  name = name;
  status = SagaStatus.pending;
  current_step = 0;
  step_results = map pending_result steps;
  error = none;
  started_at = started;
  completed_at = none;
}

module _ {ℓ} {Err : Type ℓ} where
  -- the assignments to `state.StepResults[i]`
  abbrev pub with_status : StepStatus → StepResult Err → StepResult Err
  with_status s r = record r { status = s }

  abbrev pub with_error : StepStatus → Err → StepResult Err → StepResult Err
  with_error s e r = record r { status = s; error = some e }

  abbrev pub with_duration : ℕ → StepResult Err → StepResult Err
  with_duration d r = record r { duration = d }

  abbrev pub update_result : ℕ → (StepResult Err → StepResult Err) → State Err → State Err
  update_result i f st = record st { step_results = modify st.step_results i f }

-- the count of rounds of `for attempt := 0; attempt <= retryCount; attempt++`
pub rounds : ℤ → ℕ
rounds (pos n) = n + 1
rounds (negsuc n) = 0

module _ {ℓ} {W Err : Type ℓ} (env : Env W Err) where
  -- the loop of `executeStepWithRetry`: the rounds left, `attempt` and `lastErr`; none is a panic of the
  -- action
  pub attempts : ℕ → ℕ → Step W Err → Option Err → Action W Err
  attempts zero attempt step last_err w = some (last_err, w)
  attempts (suc n) attempt step last_err w =
      let (waited, w₁) = if ltb 0 attempt then env.await_retry w else (none, w) in
      elim waited [
        | some e ↦ some (some e, w₁)
        | none ↦ elim (call step.action w₁) [
          | none ↦ none
          | some (err, w₂) ↦ elim err [
            | none ↦ some (none, w₂)
            | some e ↦ attempts n (attempt + 1) step (some e) w₂
          ]
        ]
      ]

  pub execute_step_with_retry : Step W Err → Action W Err
  unfolding attempts rounds
  execute_step_with_retry step w = attempts (rounds env.retry_count) 0 step none w

  -- one round of the loop over the steps, up to the test of the step's error
  pub run_step : ℕ → Step W Err → State Err → W → Option (Option Err × State Err × W)
  unfolding execute_step_with_retry
  run_step i step st w =
      let st₁ = update_result i (with_status StepStatus.running) (record st { current_step = i }) in
      let w₁ = env.on_step_start step.name w in
      let (start, w₂) = env.now w₁ in
      elim (execute_step_with_retry step w₂) [
        | none ↦ none
        | some (err, w₃) ↦
            let (stop, w₄) = env.now w₃ in
            let st₂ = update_result i (with_duration (stop - start)) st₁ in
            some (err, st₂, env.on_step_end step.name err w₄)
      ]

  -- the loop over the steps: `i`, `completedSteps`, and the state. The result is `lastErr`,
  -- `completedSteps`, the state and the world.
  pub run_steps :
      List (Step W Err) → ℕ → ℕ → State Err → W → Option (Option Err × ℕ × State Err × W)
  unfolding run_step
  run_steps [] i completed_steps st w = some (none, completed_steps, st, w)
  run_steps (step ∷ steps) i completed_steps st w = elim (env.ctx_err w) [
    | some e ↦ some (some e, completed_steps, st, w)
    | none ↦ elim (run_step i step st w) [
      | none ↦ none
      | some (err, st₁, w₁) ↦ elim err [
        | some e ↦
            some (some e, completed_steps, update_result i (with_error StepStatus.failed e) st₁, w₁)
        | none ↦
            run_steps steps (i + 1) (i + 1) (update_result i (with_status StepStatus.completed) st₁)
              w₁
      ]
    ]
  ]

  -- one round of the loop of `compensate`: `lastErr`, the state and the world
  pub compensate_step :
      ℕ → Step W Err → Option Err → State Err → W → Option (Option Err × State Err × W)
  compensate_step i step last_err st w = elim step.compensate [
    | none ↦ some (last_err, update_result i (with_status StepStatus.compensated) st, w)
    | some undo ↦
        let st₁ = update_result i (with_status StepStatus.compensating) st in
        elim (undo w) [
          | none ↦ none
          | some (err, w₁) ↦ elim err [
            | some e ↦
                some (some e, update_result i (with_error StepStatus.compensate_failed e) st₁, w₁)
            | none ↦ some (last_err, update_result i (with_status StepStatus.compensated) st₁, w₁)
          ]
        ]
  ]

  -- `compensate`, from `completedSteps` down. `none` is a panic: of a compensation, or of `s.steps[i]`
  -- out of range.
  pub compensate :
      List (Step W Err) → ℕ → Option Err → State Err → W → Option (Option Err × State Err × W)
  unfolding compensate_step
  compensate steps zero last_err st w = some (last_err, st, w)
  compensate steps (suc i) last_err st w = elim (get_elem? steps i) [
    | none ↦ none
    | some step ↦ elim (compensate_step i step last_err st w) [
      | none ↦ none
      | some (err, st₁, w₁) ↦ compensate steps i err st₁ w₁
    ]
  ]

  -- `saveState`: an error of the store is only logged
  pub save_state : State Err → W → W
  save_state st w = (env.save st w).1

  -- `ExecuteWithData` behind the call of `compensate`: the step's error and the compensation's
  pub conclude : Err → Option Err → State Err → W → Option (SagaError Err) × State Err × W
  unfolding save_state
  conclude e (some u) st w =
      let (time, w₁) = env.now w in
      let st₁ = record st { status = SagaStatus.compensate_failed; completed_at = some time } in
      (some (compensation_failed e u), st₁, save_state st₁ w₁)
  conclude e none st w =
      let (time, w₁) = env.now w in
      let st₁ = record st { status = SagaStatus.compensated; completed_at = some time } in
      (some (saga_failed e), st₁, save_state st₁ w₁)

  -- `ExecuteWithData` behind the loop over the steps
  pub finish :
      List (Step W Err)
      → Option Err × ℕ × State Err × W
      → Option (Option (SagaError Err) × State Err × W)
  unfolding compensate save_state conclude
  finish steps (none, completed_steps, st, w) =
      let (time, w₁) = env.now w in
      let st₁ = record st { status = SagaStatus.completed; completed_at = some time } in
      some (none, st₁, save_state st₁ w₁)
  finish steps (some e, completed_steps, st, w) =
      let st₁ = record st { status = SagaStatus.compensating; error = some e } in
      elim (compensate steps completed_steps none st₁ (save_state st₁ w)) [
        | none ↦ none
        | some (undo_err, st₂, w₂) ↦ some (conclude e undo_err st₂ w₂)
      ]

  -- `ExecuteWithData` of the saga `name`: the error that it returns, the state as last saved, and
  -- the world. `none` is a panic, which goes on to the caller.
  pub execute : String → List (Step W Err) → W → Option (Option (SagaError Err) × State Err × W)
  unfolding new_state save_state run_steps finish
  execute name steps w =
      let (id, w₁) = env.new_id w in
      let (started, w₂) = env.now w₁ in
      let st = record (new_state id name steps started) { status = SagaStatus.running } in
      let w₃ = env.with_timeout (save_state st w₂) in
      elim (run_steps steps 0 0 st w₃) [ none ↦ none | some r ↦ finish steps r ]
