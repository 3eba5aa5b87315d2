-- ===== src/Saga/Outcomes.antt =====
-- saga/saga.go, `ExecuteWithData`: the contract of the executor, clause by clause.
use Prim.Native.String.{String}
use microservice_kit.Prelude.{
  ℕ, ◌<◌, ◌≡◌, ◌≢◌, ◌⊎◌, true, Option, none, some, List, length, inl, inr, subst, Option-cases,
}
use microservice_kit.Saga.{
  StepStatus, is_terminal, Step, State, SagaError, saga_failed, Env, execute,
}
use microservice_kit.Saga.Compensate.{status_at}
use microservice_kit.Saga.Statuses.{IsUndone}
use microservice_kit.Saga.Returns.{AllReturn, execute-none}
use microservice_kit.Saga.Execute.{status_for, Ended, Outcome, Outcome-is_terminal, execute-Ended}

module _ {ℓ} {W Err : Type ℓ} (env : Env W Err) (steps : List (Step W Err)) (name : String)
    (w : W) where
  -- Where no function of a step is nil or panics, executing a saga returns, whatever errors there are, and
  -- the state that it saves last has a terminal status, the one that belongs to the returned error:
  -- completed without an error, compensated for a failed step, compensate_failed if a compensation failed
  -- too.
  pub execute_total :
      AllReturn steps
      → (err : Option (SagaError Err)) × (st : State Err) × (w' : W) × (execute env name steps w
          ≡ some (err, st, w'))
        × (st.status ≡ status_for err)
        × (is_terminal st.status ≡ true)
  execute_total all = elim (Option-cases (execute env name steps w)) [
    | inl panics ↦ absurd (execute-none env steps all name w panics)
    | inr (t, e) ↦
        let o : Outcome (length steps) t.0 t.1 =
          subst (Ended env steps) e (execute-Ended env steps name w) in
        (t.0, t.1, t.2, e, o.agrees, Outcome-is_terminal o)
  ]

  module _ {err : Option (SagaError Err)} {st : State Err} {w' : W}
      (returned : execute env name steps w ≡ some (err, st, w')) where
    execute-Outcome : Outcome (length steps) err st
    execute-Outcome = subst (Ended env steps) returned (execute-Ended env steps name w)

    -- If a saga returns no error, every step is marked completed.
    pub execute_success :
        err ≡ none → (j : ℕ) → j < length steps → status_at st j ≡ some StepStatus.completed
    execute_success = execute-Outcome.success

    -- If a saga returns an error, the steps before some step k are compensated or their compensation
    -- failed, step k failed or was not begun, and the steps behind it are pending.
    pub execute_failure :
        err ≢ none
        → (k : ℕ) × (k < length steps)
          × ((j : ℕ) → j < k → (s : StepStatus) × (status_at st j ≡ some s) × IsUndone s)
          × ((status_at st k ≡ some StepStatus.failed) ⊎ (status_at st k ≡ some StepStatus.pending))
          × ((j : ℕ) → k < j → j < length steps → status_at st j ≡ some StepStatus.pending)
    execute_failure = execute-Outcome.failure

    -- If a saga returns the error of a step and none of a compensation, no step is left completed and
    -- none with a failed compensation.
    pub execute_rolled_back :
        (e : Err)
        → err ≡ some (saga_failed e)
        → (j : ℕ) → j < length steps
        → (status_at st j ≢ some StepStatus.completed)
          × (status_at st j ≢ some StepStatus.compensate_failed)
    execute_rolled_back = execute-Outcome.undone
