-- ===== src/Saga/Execute.antt =====
-- saga/saga.go, `ExecuteWithData` as a whole: where it returns, its status agrees with the
-- returned error, and leaves no completed step behind a failure.
use Prim.Native.String.{String}
use mathlib.Core.Option
use microservice_kit.Prelude.{
  ℕ, ◌<◌, ◌≡◌, ◌≢◌, refl, ◌⊎◌, inl, inr, true, Option, none, some, List, length, get_elem?-map,
  get_elem?-some, length-map, arith, ◌∙◌, ap, Option-cases,
}
use microservice_kit.Saga.{
  StepStatus, SagaStatus, is_terminal, Step, State, SagaError, saga_failed, compensation_failed,
  Env, pending_result, new_state, save_state, compensate, run_steps, conclude, finish, execute,
}
use microservice_kit.Saga.Compensate.{status_at, status_of}
use microservice_kit.Saga.Statuses.{IsUndone}
use microservice_kit.Saga.Loops.{Undone, compensate-Undone, Ran, Begun, Ends, run_steps-Ran}

-- no completed step, and no step whose compensation failed
settled :
    (s t : Option StepStatus)
    → s ≡ t
    → (t ≡ some StepStatus.compensated)
      ⊎ (t ≡ some StepStatus.failed)
      ⊎ (t ≡ some StepStatus.pending)
    → (s ≢ some StepStatus.completed) × (s ≢ some StepStatus.compensate_failed)
settled s t e h = (λ p. ground arith, λ p. ground arith)

-- only the steps' results count
Undone-same_steps {ℓ} :
    {Err : Type ℓ} (st : State Err) {k : ℕ} {st' : State Err} {last err e : Option Err}
    {s : SagaStatus}
    → Undone k (record st { status = s; error = e }) st' last err
    → Undone k st st' last err
Undone-same_steps st u = record {
  kept = u.kept;
  behind = u.behind;
  undone = u.undone;
  clean = u.clean;
}

module _ {ℓ} {Err : Type ℓ} where
  -- the status that belongs to a returned error
  pub status_for : Option (SagaError Err) → SagaStatus
  status_for none = SagaStatus.completed
  status_for (some (saga_failed e)) = SagaStatus.compensated
  status_for (some (compensation_failed e u)) = SagaStatus.compensate_failed

  -- How a run of a saga of `total` steps ends.
  pub record Outcome (total : ℕ) (err : Option (SagaError Err)) (st : State Err) : Type ℓ where
    pub kept : length st.step_results ≡ total
    pub agrees : st.status ≡ status_for err
    pub success : err ≡ none → (j : ℕ) → j < total → status_at st j ≡ some StepStatus.completed
    pub failure :
        err ≢ none
        → (k : ℕ) × (k < total)
          × ((j : ℕ) → j < k → (s : StepStatus) × (status_at st j ≡ some s) × IsUndone s)
          × ((status_at st k ≡ some StepStatus.failed) ⊎ (status_at st k ≡ some StepStatus.pending))
          × ((j : ℕ) → k < j → j < total → status_at st j ≡ some StepStatus.pending)
    pub undone :
        (e : Err)
        → err ≡ some (saga_failed e)
        → (j : ℕ) → j < total
        → (status_at st j ≢ some StepStatus.completed)
          × (status_at st j ≢ some StepStatus.compensate_failed)

  module _ (total k : ℕ) (st st' : State Err) (e : Err) (undo_err : Option Err)
      (r : Ran total k st (some e)) (u : Undone k st st' none undo_err) where
    failed_at :
        (status_at st' k ≡ some StepStatus.failed) ⊎ (status_at st' k ≡ some StepStatus.pending)
    failed_at = elim (r.reached (r.short (λ h. cc))) [
      | inl p ↦ inl (u.behind k (omega arith) ∙ p)
      | inr p ↦ inr (u.behind k (omega arith) ∙ p)
    ]

    pending_behind : (j : ℕ) → k < j → j < total → status_at st' j ≡ some StepStatus.pending
    pending_behind j h l = u.behind j (omega arith) ∙ r.behind j h l

    settled_at :
        undo_err ≡ none
        → (j : ℕ) → j < total
        → (status_at st' j ≢ some StepStatus.completed)
          × (status_at st' j ≢ some StepStatus.compensate_failed)
    settled_at h j l = elim (order j k) [
      | inl p ↦ settled (status_at st' j) _ ((u.clean h).1 j p) (inl refl)
      | inr (inl p) ↦ rw p (settled_failed failed_at)
      | inr (inr p) ↦ settled (status_at st' j) _ (pending_behind j p l) (inr (inr refl))
    ]
      where
        order : (a b : ℕ) → (a < b) ⊎ ((a ≡ b) ⊎ (b < a))
        order a b = ground arith

        settled_failed :
            (status_at st' k ≡ some StepStatus.failed) ⊎ (status_at st' k ≡ some StepStatus.pending)
            → (status_at st' k ≢ some StepStatus.completed)
              × (status_at st' k ≢ some StepStatus.compensate_failed)
        settled_failed (inl p) = settled (status_at st' k) _ p (inr (inl refl))
        settled_failed (inr p) = settled (status_at st' k) _ p (inr (inr refl))

    -- The outcome of a failed run, whose last assignments leave the steps alone.
    failed_Outcome :
        (err : Option (SagaError Err)) (time : Option ℕ)
        → err ≢ none
        → ((e : Err) → err ≡ some (saga_failed e) → undo_err ≡ none)
        → Outcome total err (record st' { status = status_for err; completed_at = time })
    failed_Outcome err time h c = record {
      kept = u.kept ∙ r.counted;
      agrees = refl;
      success = λ k. absurd (h k);
      failure = λ _. (k, r.short (λ p. cc), u.undone, failed_at, pending_behind);
      undone = λ e p. settled_at (c e p);
    }

module _ {ℓ} {W Err : Type ℓ} (env : Env W Err) (steps : List (Step W Err)) where
  -- the call panicked, or it returned and ended so
  abbrev pub Ended : Option (Option (SagaError Err) × State Err × W) → Type ℓ
  Ended none = Unit
  Ended (some r) = Outcome (length steps) r.0 r.1

  finish_success :
      (k : ℕ) (st : State Err) (w : W)
      → Ran (length steps) k st none
      → Ended (finish env steps (none, k, st, w))
  unfolding finish status_for
  finish_success k st w r = record {
    kept = r.counted;
    agrees = refl;
    success = λ h j l. r.before j (omega (arith, r.full refl));
    failure = λ h. absurd (h refl);
    undone = λ e h. absurd (cc);
  }

  conclude-Ended :
      (e : Err) (k : ℕ) (st st' : State Err) (undo_err : Option Err) (w : W)
      → Ran (length steps) k st (some e)
      → Undone k st st' none undo_err
      → Ended (some (conclude env e undo_err st' w))
  unfolding conclude status_for
  conclude-Ended e k st st' none w r u =
      failed_Outcome (length steps) k st st' e none r u (some (saga_failed e)) (some (env.now w).0)
        (λ p. cc) (λ e p. refl)
  conclude-Ended e k st st' (some x) w r u =
      failed_Outcome (length steps) k st st' e (some x) r u (some (compensation_failed e x))
        (some (env.now w).0) (λ p. cc) (λ e p. absurd (cc))

  finish_failure :
      (e : Err) (k : ℕ) (st : State Err) (w : W)
      → Ran (length steps) k st (some e)
      → Ended (finish env steps (some e, k, st, w))
  unfolding finish
  finish_failure e k st w r =
      let st₁ = record st { status = SagaStatus.compensating; error = some e } in
      let w₁ = save_state env st₁ w in
      elim (Option-cases (compensate env steps k none st₁ w₁)) [
        | inl c ↦ rw (c, finish) tt
        | inr (t, c) ↦
            rw (c, finish)
              (conclude-Ended e k st t.1 t.0 t.2 r (
                Undone-same_steps st
                  (compensate-Undone env steps k none st₁ w₁ r.bounded r.counted c)))
      ]

  status_at-new_state :
      (id name : String) (started j : ℕ)
      → j < length steps
      → status_at (new_state id name steps started) j ≡ some StepStatus.pending
  unfolding new_state pending_result
  status_at-new_state id name started j h =
      let (step, e) = get_elem?-some steps j h in
      ap status_of (get_elem?-map steps pending_result j ∙ ap (Option.map pending_result) e)

  pub new_state-Begun :
      (id name : String) (started : ℕ)
      → Begun
          (length steps)
          0
          (record (new_state id name steps started) { status = SagaStatus.running })
  unfolding new_state
  new_state-Begun id name started = record {
    counted = length-map steps pending_result;
    before = λ j h. absurd (omega arith);
    behind = λ j _ h. status_at-new_state id name started j h;
  }

  finish-Ended :
      (err : Option Err) (k : ℕ) (st : State Err) (w : W)
      → Ran (length steps) k st err
      → Ended (finish env steps (err, k, st, w))
  finish-Ended none k st w r = finish_success k st w r
  finish-Ended (some e) k st w r = finish_failure e k st w r

  -- Where executing a saga returns, it ends in an `Outcome`: the saved status is the one for the returned
  -- error; without an error every step is completed; with one, the steps before some step are compensated
  -- or their compensation failed, that step failed or was not begun, and the later ones are pending. Where
  -- no compensation error is reported, no step is left completed and none with a failed compensation.
  pub execute-Ended : (name : String) (w : W) → Ended (execute env name steps w)
  unfolding execute new_state
  execute-Ended name w =
      let (id, w₁) = env.new_id w in
      let (started, w₂) = env.now w₁ in
      let st = record (new_state id name steps started) { status = SagaStatus.running } in
      let w₃ = env.with_timeout (save_state env st w₂) in
      after_loop (run_steps env steps 0 0 st w₃) (
        run_steps-Ran env steps 0 (length steps) st w₃ (omega arith)
          (new_state-Begun id name started))
    where
      after_loop :
          (r : Option (Option Err × ℕ × State Err × W))
          → Ends env (length steps) r
          → Ended (elim r [ none ↦ none | some t ↦ finish env steps t ])
      after_loop none h = tt
      after_loop (some t) h = finish-Ended t.0 t.1 t.2 t.3 h

module _ {ℓ} {Err : Type ℓ} {total : ℕ} {err : Option (SagaError Err)} {st : State Err} where
  -- The status of the outcome is terminal.
  pub Outcome-is_terminal : Outcome total err st → is_terminal st.status ≡ true
  unfolding is_terminal status_for
  Outcome-is_terminal o = rw o.agrees (cases err)
    where
      cases : (e : Option (SagaError Err)) → is_terminal (status_for e) ≡ true
      cases none = refl
      cases (some (saga_failed e)) = refl
      cases (some (compensation_failed e u)) = refl
