-- ===== src/Saga/Statuses.antt =====
-- saga/saga.go: the status of each step's result, through the loops of `ExecuteWithData` and
-- `compensate`.
use microservice_kit.Prelude.{
  ℕ, ◌-◌, ◌<◌, ◌≡◌, ◌≢◌, refl, ◌⊎◌, inl, inr, Option, none, some, length, get_elem?, length-modify,
  modify-modify, modify, ◌∙◌, ap, Option-cases,
}
use microservice_kit.Saga.Retry.{Action-cases}
use microservice_kit.Saga.{
  StepStatus, Step, StepResult, State, Env, compensate_step, with_status, with_error, with_duration,
  update_result, run_step, execute_step_with_retry,
}
use microservice_kit.Saga.Compensate.{
  status_at, status_at-update_self, status_at-update_ne, undo, Sets, status_of, later,
}

-- a step that compensation is done with
abbrev pub IsUndone : StepStatus → Type 0
IsUndone s = (s ≡ StepStatus.compensated) ⊎ (s ≡ StepStatus.compensate_failed)

module _ {ℓ κ} {Err : Type ℓ} where
  -- One assignment to the result of step i leads from a state to the next, and sets a status with Q.
  pub record Assigned (i : ℕ) (Q : StepStatus → Type κ) (st st' : State Err) : Type (ℓ ⊔ κ) where
    pub status : StepStatus
    pub assign : StepResult Err → StepResult Err
    pub sets : Sets status assign
    pub step : st'.step_results ≡ modify st.step_results i assign
    pub meets : Q status

  module _ {i : ℕ} {Q : StepStatus → Type κ} {st st' : State Err} (a : Assigned i Q st st') where
    pub length-Assigned : length st'.step_results ≡ length st.step_results
    length-Assigned = ap length a.step ∙ length-modify st.step_results i a.assign

    pub status_at-Assigned_self : i < length st.step_results → status_at st' i ≡ some a.status
    status_at-Assigned_self h =
        ap (λ r. status_of (get_elem? r i)) a.step
        ∙ status_at-update_self st i a.assign a.status a.sets h

    pub status_at-Assigned_ne : (j : ℕ) → i ≢ j → status_at st' j ≡ status_at st j
    status_at-Assigned_ne j h =
        ap (λ r. status_of (get_elem? r j)) a.step ∙ status_at-update_ne st i a.assign j h

module _ {ℓ} {W Err : Type ℓ} (env : Env W Err) (i : ℕ) (step : Step W Err) where
  -- One round of compensation: it panics, or its result gets a status, which is always an undone one, and
  -- `compensated` without an error.
  pub compensate_step-Assigned :
      (last : Option Err) (st : State Err) (w : W)
      → ((undo step w ≡ none) × (compensate_step env i step last st w ≡ none))
        ⊎ ((e : Option Err) × (st₁ : State Err) × (w₁ : W) × (compensate_step env i step last st w
              ≡ some (later e last, st₁, w₁))
            × Assigned i (λ s. IsUndone s × (e ≡ none → s ≡ StepStatus.compensated)) st st₁)
  unfolding compensate_step undo
  compensate_step-Assigned last st w =
      let undoing = update_result i (with_status StepStatus.compensating) st in
      let undone = update_result i (with_status StepStatus.compensated) undoing in
      elim (Option-cases step.compensate) [
        | inl h ↦ inr (
          none,
          update_result i (with_status StepStatus.compensated) st,
          w,
          rw h refl,
          record {
            status = StepStatus.compensated;
            assign = with_status StepStatus.compensated;
            sets = λ r. refl;
            step = refl;
            meets = (inl refl, λ h. refl);
          },
        )
        | inr (f, h) ↦ elim (Action-cases (f w)) [
          | inl k ↦ inl (rw (h, k) refl, rw (h, k) refl)
          | inr (inl (w₁, k)) ↦ inr (
            none,
            undone,
            w₁,
            rw (h, k) refl,
            record {
              status = StepStatus.compensated;
              assign =
                  λ r. with_status StepStatus.compensated (with_status StepStatus.compensating r);
              sets = λ r. refl;
              step =
                  modify-modify st.step_results i (with_status StepStatus.compensating)
                    (with_status StepStatus.compensated);
              meets = (inl refl, λ h. refl);
            },
          )
          | inr (inr (e, w₁, k)) ↦ inr (
            some e,
            update_result i (with_error StepStatus.compensate_failed e) undoing,
            w₁,
            rw (h, k) refl,
            record {
              status = StepStatus.compensate_failed;
              assign = λ r.
                  with_error StepStatus.compensate_failed e (with_status StepStatus.compensating r);
              sets = λ r. refl;
              step =
                  modify-modify st.step_results i (with_status StepStatus.compensating)
                    (with_error StepStatus.compensate_failed e);
              meets = (inr refl, λ h. absurd (cc));
            },
          )
        ]
      ]

  -- One round of the loop over the steps: it panics, or its last assignment goes to the result of the
  -- step, where any further one has the last word.
  pub run_step-Assigned :
      (st : State Err) (w : W)
      → ((w₁ : W) × (execute_step_with_retry env step w₁ ≡ none)
          × (run_step env i step st w ≡ none))
        ⊎ ((err : Option Err) × (st₁ : State Err) × (w₁ : W) × (run_step env i step st w
              ≡ some (err, st₁, w₁))
            × ((s : StepStatus) (f : StepResult Err → StepResult Err)
                → Sets s f
                → Assigned i (λ t. t ≡ s) st (update_result i f st₁)))
  unfolding run_step
  run_step-Assigned st w =
      let (start, w₂) = env.now (env.on_step_start step.name w) in
      elim (Option-cases (execute_step_with_retry env step w₂)) [
        | inl h ↦ inl (w₂, h, rw (h, run_step) refl)
        | inr (r, h) ↦
            let d = (env.now r.1).0 - start in
            let g = λ (t : StepResult Err). with_duration d (with_status StepStatus.running t) in
            inr (
              r.0,
              update_result i (with_duration d) (
                  update_result i (with_status StepStatus.running)
                    (record st { current_step = i })),
              env.on_step_end step.name r.0 (env.now r.1).1,
              rw (h, run_step) refl,
              λ s f q. record {
                status = s;
                assign = λ t. f (g t);
                sets = λ t. q (g t);
                step =
                    ap (λ l. modify l i f)
                      (modify-modify st.step_results i (with_status StepStatus.running)
                        (with_duration d))
                    ∙ modify-modify st.step_results i g f;
                meets = refl;
              },
            )
      ]
