-- ===== src/Saga/Tests.antt =====
-- Runs of sagas whose world is the list of the calls made, newest first, and the theorems at them.
use Prim.Native.String.{String}
use mathlib.Core.List.{reverse}
use microservice_kit.Prelude.{
  ℕ, ◌<◌, ◌≡◌, ◌≢◌, refl, ◌⊎◌, ◌↔◌, true, Option, none, some, List, [], ◌∷◌, take, arith,
}
use microservice_kit.Prelude.Int.{pos, negsuc}
use microservice_kit.Saga.{
  StepStatus, is_terminal, Action, Step, State, SagaError, saga_failed, Env,
  execute_step_with_retry, compensate, execute, new_state,
}
use microservice_kit.Saga.Compensate.{status_at, results, undo, undo_all, compensate-undo_all}
use microservice_kit.Saga.Returns.{AllReturn}
use microservice_kit.Saga.Execute.{status_for}
use microservice_kit.Saga.Outcomes
use microservice_kit.Saga.Retry
use microservice_kit.Saga.Retry.{Runs}
use microservice_kit.Saga.Statuses.{IsUndone}

abbrev World : Type 0
World = List String

-- a call that succeeds, one that fails with a code, and one that panics
abbrev does : String → Action World ℕ
does s w = some (none, s ∷ w)

abbrev fails : String → ℕ → Action World ℕ
fails s e w = some (some e, s ∷ w)

abbrev panics : Action World ℕ
panics w = none

abbrev quiet : Env World ℕ
quiet = record {
  new_id = λ w. ("7", w);
  now = λ w. (0, w);
  save = λ st w. (none, w);
  with_timeout = λ w. w;
  ctx_err = λ w. none;
  await_retry = λ w. (none, "wait" ∷ w);
  on_step_start = λ s w. w;
  on_step_end = λ s e w. w;
  retry_count = pos 1;
}

abbrev reserve : Step World ℕ
reserve = record {
  name = "reserve";
  action = some (does "reserve");
  compensate = some (does "release");
}

abbrev charge : Step World ℕ
charge = record {
  name = "charge";
  action = some (does "charge");
  compensate = some (does "refund");
}

abbrev ship : Step World ℕ
ship = record { name = "ship"; action = some (fails "ship" 4); compensate = none }

abbrev order : List (Step World ℕ)
order = reserve ∷ charge ∷ ship ∷ []

-- The calls of a run: two attempts of the last step, then the compensations in reverse order.
order_run :
    (st : State ℕ) × (execute quiet "order" order []
      ≡ some (
        some (saga_failed 4),
        st,
        "release" ∷ "refund" ∷ "ship" ∷ "wait" ∷ "ship" ∷ "charge" ∷ "reserve" ∷ [],
      ))
unfolding execute
order_run = (_, refl)

small_run :
    (st : State ℕ) × (execute quiet "small" (reserve ∷ charge ∷ []) []
      ≡ some (none, st, "charge" ∷ "reserve" ∷ []))
unfolding execute
small_run = (_, refl)

-- a step with a nil action, and one whose action panics, take the saga with them
nil_action :
    execute quiet "nil" (record { name = "nil"; action = none; compensate = none } ∷ []) [] ≡ none
unfolding execute
nil_action = refl

panicking_action :
    execute quiet "p"
      (reserve ∷ record { name = "p"; action = some panics; compensate = none } ∷ [])
      []
    ≡ none
unfolding execute
panicking_action = refl

order-AllReturn : AllReturn order
unfolding undo
order-AllReturn = ((λ w h. cc, λ w h. cc), ((λ w h. cc, λ w h. cc), ((λ w h. cc, λ w h. cc), tt)))

execute_total_example :
    (err : Option (SagaError ℕ)) × (st : State ℕ) × (w' : World) × (execute quiet "order" order []
      ≡ some (err, st, w'))
    × (st.status ≡ status_for err)
    × (is_terminal st.status ≡ true)
execute_total_example = Outcomes.execute_total quiet order "order" [] order-AllReturn

execute_success_example : status_at small_run.0 1 ≡ some StepStatus.completed
execute_success_example =
    Outcomes.execute_success quiet (reserve ∷ charge ∷ []) "small" [] small_run.1 refl 1
      (omega arith)

execute_failure_example :
    (k : ℕ) × (k < 3)
    × ((j : ℕ) → j < k → (s : StepStatus) × (status_at order_run.0 j ≡ some s) × IsUndone s)
    × ((status_at order_run.0 k ≡ some StepStatus.failed)
        ⊎ (status_at order_run.0 k ≡ some StepStatus.pending))
    × ((j : ℕ) → k < j → j < 3 → status_at order_run.0 j ≡ some StepStatus.pending)
execute_failure_example = Outcomes.execute_failure quiet order "order" [] order_run.1 (cc)

execute_rolled_back_example :
    (status_at order_run.0 0 ≢ some StepStatus.completed)
    × (status_at order_run.0 0 ≢ some StepStatus.compensate_failed)
execute_rolled_back_example =
    Outcomes.execute_rolled_back quiet order "order" [] order_run.1 4 refl 0 (omega arith)

compensate-undo_all_example :
    results (compensate quiet order 2 none (new_state "7" "order" order 0) [])
    ≡ undo_all (reverse (take 2 order)) none []
compensate-undo_all_example =
    compensate-undo_all quiet order 2 (new_state "7" "order" order 0) [] (omega arith)

execute_step_with_retry-Runs_example :
    (execute_step_with_retry quiet ship [] ≡ some (some 4, "ship" ∷ "wait" ∷ "ship" ∷ []))
    ↔ Runs quiet ship 1 [] (some 4) ("ship" ∷ "wait" ∷ "ship" ∷ [])
execute_step_with_retry-Runs_example =
    Retry.execute_step_with_retry-Runs quiet ship 1 [] ("ship" ∷ "wait" ∷ "ship" ∷ []) (some 4) refl

abbrev hasty : Env World ℕ
hasty = record quiet { retry_count = negsuc 0 }
