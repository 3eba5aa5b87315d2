-- ===== src/Saga/Compensate.antt =====
-- saga/saga.go, `compensate`: the compensations run in reverse order, each once, and a failed one
-- does not stop the others.
use mathlib.Core.Option
use mathlib.Core.List.{reverse, reverse-append}
use microservice_kit.Prelude.{
  ℕ, zero, suc, ◌≤◌, ◌<◌, ◌≡◌, ◌≢◌, refl, Option, none, some, List, [], ◌∷◌, length, get_elem?,
  take, take-suc, sym, ◌⊎◌, inl, inr, Option-cases, get_elem?-some, get_elem?-modify_self,
  get_elem?-modify_ne, arith, ◌∙◌, ap,
}
use microservice_kit.Saga.Retry.{Action-cases}
use microservice_kit.Saga.{
  StepStatus, Step, StepResult, State, Action, Env, compensate, compensate_step, update_result,
  with_status, with_error,
}

module _ {ℓ} {Err : Type ℓ} where
  -- the error noted last
  abbrev pub later : Option Err → Option Err → Option Err
  later none last = last
  later (some e) last = some e

  -- the status of a step, by its index
  abbrev pub status_of : Option (StepResult Err) → Option StepStatus
  status_of = Option.map (λ (r : StepResult Err). r.status)

  abbrev pub status_at : State Err → ℕ → Option StepStatus
  status_at st j = status_of (get_elem? st.step_results j)

  -- an assignment to a step's result that sets its status
  abbrev pub Sets : StepStatus → (StepResult Err → StepResult Err) → Type ℓ
  Sets s f = (r : StepResult Err) → (f r).status ≡ s

  status_of-map :
      (o : Option (StepResult Err)) (f : StepResult Err → StepResult Err) (s : StepStatus)
      → Sets s f
      → o ≢ none
      → status_of (Option.map f o) ≡ some s
  status_of-map none f s h k = absurd (k refl)
  status_of-map (some r) f s h k = ap some (h r)

  pub status_at-update_self :
      (st : State Err) (i : ℕ) (f : StepResult Err → StepResult Err) (s : StepStatus)
      → Sets s f
      → i < length st.step_results
      → status_at (update_result i f st) i ≡ some s
  status_at-update_self st i f s h k =
      let (r, e) = get_elem?-some st.step_results i k in
      ap status_of (get_elem?-modify_self st.step_results i f)
      ∙ status_of-map (get_elem? st.step_results i) f s h (λ n. cc)

  pub status_at-update_ne :
      (st : State Err) (i : ℕ) (f : StepResult Err → StepResult Err) (j : ℕ)
      → i ≢ j
      → status_at (update_result i f st) j ≡ status_at st j
  status_at-update_ne st i f j h = ap status_of (get_elem?-modify_ne st.step_results i f j h)

module _ {ℓ} {W Err : Type ℓ} where
  -- A step without a compensation needs none.
  unfoldable pub undo : Step W Err → Action W Err
  undo step w = elim step.compensate [ none ↦ some (none, w) | some f ↦ f w ]

  -- The compensations of a list of steps, one after another, to the end or to a panic: the last error and
  -- the world.
  pub undo_all : List (Step W Err) → Option Err → Action W Err
  undo_all [] last w = some (last, w)
  undo_all (step ∷ steps) last w = elim (undo step w) [
    | none ↦ none
    | some (err, w₁) ↦ undo_all steps (later err last) w₁
  ]

  -- the error and the world of a result
  abbrev pub results : Option (Option Err × State Err × W) → Option (Option Err × W)
  results = Option.map (λ (c : Option Err × State Err × W). (c.0, c.2))

  reverse-take-suc :
      (steps : List (Step W Err)) (i : ℕ) (step : Step W Err)
      → get_elem? steps i ≡ some step
      → reverse (take (suc i) steps) ≡ step ∷ reverse (take i steps)
  reverse-take-suc steps i step h =
      ap reverse (take-suc steps i step h) ∙ reverse-append (take i steps) (step ∷ [])

module _ {ℓ} {W Err : Type ℓ} (env : Env W Err) where
  -- what one round does: it panics with its compensation, or notes its error
  compensate_step-undo :
      (i : ℕ) (step : Step W Err) (last : Option Err) (st : State Err) (w : W)
      → ((undo step w ≡ none) × (compensate_step env i step last st w ≡ none))
        ⊎ ((e : Option Err) × (st₁ : State Err) × (w₁ : W) × (undo step w ≡ some (e, w₁))
            × (compensate_step env i step last st w ≡ some (later e last, st₁, w₁)))
  unfolding compensate_step undo
  compensate_step-undo i step last st w =
      let undoing = update_result i (with_status StepStatus.compensating) st in
      let undone = update_result i (with_status StepStatus.compensated) undoing in
      elim (Option-cases step.compensate) [
        | inl h ↦
            inr (
              none,
              update_result i (with_status StepStatus.compensated) st,
              w,
              rw h refl,
              rw h refl,
            )
        | inr (f, h) ↦ elim (Action-cases (f w)) [
          | inl k ↦ inl (rw (h, k) refl, rw (h, k) refl)
          | inr (inl (w₁, k)) ↦ inr (none, undone, w₁, rw (h, k) refl, rw (h, k) refl)
          | inr (inr (e, w₁, k)) ↦ inr (
            some e,
            update_result i (with_error StepStatus.compensate_failed e) undoing,
            w₁,
            rw (h, k) refl,
            rw (h, k) refl,
          )
        ]
      ]

  pub compensate_suc-none :
      (steps : List (Step W Err)) (i : ℕ) (step : Step W Err) (last : Option Err) (st : State Err)
      (w : W)
      → get_elem? steps i ≡ some step
      → compensate_step env i step last st w ≡ none
      → compensate env steps (suc i) last st w ≡ none
  unfolding compensate
  compensate_suc-none steps i step last st w h k = rw (h, k, compensate) refl

  pub compensate_suc-some :
      (steps : List (Step W Err)) (i : ℕ) (step : Step W Err) (last : Option Err) (st : State Err)
      (w : W) {e : Option Err} {st₁ : State Err} {w₁ : W}
      → get_elem? steps i ≡ some step
      → compensate_step env i step last st w ≡ some (e, st₁, w₁)
      → compensate env steps (suc i) last st w ≡ compensate env steps i e st₁ w₁
  unfolding compensate
  compensate_suc-some steps i step last st w h k = rw (h, k, compensate) refl

  undo_all-none :
      (step : Step W Err) (steps : List (Step W Err)) (last : Option Err) (w : W)
      → undo step w ≡ none
      → undo_all (step ∷ steps) last w ≡ none
  unfolding undo_all
  undo_all-none step steps last w h = rw (h, undo_all) refl

  undo_all-some :
      (step : Step W Err) (steps : List (Step W Err)) (last : Option Err) (w : W) {e : Option Err}
      {w₁ : W}
      → undo step w ≡ some (e, w₁)
      → undo_all (step ∷ steps) last w ≡ undo_all steps (later e last) w₁
  unfolding undo_all
  undo_all-some step steps last w h = rw (h, undo_all) refl

  compensate-undo_all_from :
      (steps : List (Step W Err)) (n : ℕ) (last : Option Err) (st : State Err) (w : W)
      → n ≤ length steps
      → results (compensate env steps n last st w) ≡ undo_all (reverse (take n steps)) last w
  unfolding compensate undo_all
  compensate-undo_all_from steps zero last st w h = refl
  compensate-undo_all_from steps (suc n) last st w h =
      let (step, e) = get_elem?-some steps n h in
      let before = reverse (take n steps) in
      let reversed =
        ap (λ (l : List (Step W Err)). undo_all l last w) (reverse-take-suc steps n step e) in
      elim (compensate_step-undo n step last st w) [
        | inl (p, q) ↦
            ap results (compensate_suc-none steps n step last st w e q)
            ∙ sym (undo_all-none step before last w p)
            ∙ sym reversed
        | inr (x, st₁, w₁, p, q) ↦
            ap results (compensate_suc-some steps n step last st w e q)
            ∙ compensate-undo_all_from steps n (later x last) st₁ w₁ (omega arith)
            ∙ sym (undo_all-some step before last w p)
            ∙ sym reversed
      ]

  -- The compensations of the completed steps run in reverse order, each once, whether others fail or
  -- not, unless one panics, which ends them; the error returned is the last one that occurred, none if
  -- none did.
  pub compensate-undo_all :
      (steps : List (Step W Err)) (completed_steps : ℕ) (st : State Err) (w : W)
      → completed_steps ≤ length steps
      → results (compensate env steps completed_steps none st w)
        ≡ undo_all (reverse (take completed_steps steps)) none w
  compensate-undo_all steps n st w h = compensate-undo_all_from steps n none st w h
