-- ===== src/Saga/Loops.antt =====
-- saga/saga.go: what the loop of `ExecuteWithData` and the loop of `compensate` leave in the state.
use mathlib.Core.Option.{some-injective}
use microservice_kit.Prelude.{
  ℕ, zero, suc, ◌+◌, ◌≤◌, ◌<◌, ◌≡◌, ◌≢◌, refl, ◌⊎◌, inl, inr, Option, none, some, List, [], ◌∷◌,
  length, arith, ◌∙◌, ap, sym, get_elem?-some, subst, Option-cases,
}
use microservice_kit.Saga.{
  StepStatus, Step, State, Env, compensate, with_status, with_error, update_result, run_steps,
}
use microservice_kit.Saga.Compensate.{status_at, compensate_suc-none, compensate_suc-some, later}
use microservice_kit.Saga.Retry.{none-ne_some}
use microservice_kit.Saga.Statuses.{
  IsUndone, Assigned, length-Assigned, status_at-Assigned_self, status_at-Assigned_ne,
  compensate_step-Assigned, run_step-Assigned,
}

-- The first n steps are undone, and the others are as before; without an error all are compensated.
pub record Undone {ℓ} {Err : Type ℓ} (n : ℕ) (st st' : State Err) (last err : Option Err)
    : Type ℓ where
  pub kept : length st'.step_results ≡ length st.step_results
  pub behind : (j : ℕ) → n ≤ j → status_at st' j ≡ status_at st j
  pub undone : (j : ℕ) → j < n → (s : StepStatus) × (status_at st' j ≡ some s) × IsUndone s
  pub clean :
      err ≡ none → (last ≡ none) × ((j : ℕ) → j < n → status_at st' j ≡ some StepStatus.compensated)

later-none {ℓ} : {Err : Type ℓ} (e l : Option Err) → later e l ≡ none → (e ≡ none) × (l ≡ none)
later-none none l h = (refl, h)
later-none (some e) l h = absurd (cc)

-- to split on whether j is the last below suc n
below_suc : (j n : ℕ) → j < suc n → (j < n) ⊎ (j ≡ n)
below_suc j n h = omega arith

module _ {ℓ} {W Err : Type ℓ} (env : Env W Err) (steps : List (Step W Err)) where
  Undone-suc :
      (n : ℕ) {st st₁ st' : State Err} {e last err : Option Err}
      → n < length st.step_results
      → Assigned n (λ s. IsUndone s × (e ≡ none → s ≡ StepStatus.compensated)) st st₁
      → Undone n st₁ st' (later e last) err
      → Undone (suc n) st st' last err
  Undone-suc n {st} {st₁} {st'} {e} {last} {err} h a u = record {
    kept = u.kept ∙ length-Assigned a;
    behind = λ j k. u.behind j (omega arith) ∙ status_at-Assigned_ne a j (omega arith);
    undone = λ j k. elim (below_suc j n k) [
      | inl p ↦ u.undone j p
      | inr p ↦ (a.status, rw p (u.behind n (omega arith) ∙ status_at-Assigned_self a h), a.meets.0)
    ];
    clean = λ k.
        let (e₀, l₀) = later-none e last (u.clean k).0 in
        (
          l₀,
          λ j q. elim (below_suc j n q) [
            | inl p ↦ (u.clean k).1 j p
            | inr p ↦
                rw p
                  (u.behind n (omega arith) ∙ status_at-Assigned_self a h ∙ ap some (a.meets.1 e₀))
          ],
        );
  }

  Undone-zero : (last : Option Err) (st : State Err) → Undone 0 st st last last
  Undone-zero last st = record {
    kept = refl;
    behind = λ j h. refl;
    undone = λ j h. absurd (omega arith);
    clean = λ h. (h, λ j k. absurd (omega arith));
  }

  pub compensate-Undone :
      (n : ℕ) (last : Option Err) (st : State Err) (w : W) {err : Option Err} {st' : State Err}
      {w' : W}
      → n ≤ length steps
      → length st.step_results ≡ length steps
      → compensate env steps n last st w ≡ some (err, st', w')
      → Undone n st st' last err
  unfolding compensate
  compensate-Undone zero last st w h k c =
      subst (λ (t : Option Err × State Err × W). Undone 0 st t.1 last t.0) (some-injective _ _ c)
        (Undone-zero last st)
  compensate-Undone (suc n) last st w h k c =
      let (step, e) = get_elem?-some steps n h in
      elim (compensate_step-Assigned env n step last st w) [
        | inl (p, q) ↦
            absurd (none-ne_some (sym (compensate_suc-none env steps n step last st w e q) ∙ c))
        | inr (x, st₁, w₁, q, a) ↦ Undone-suc n (omega arith) a (
            compensate-Undone n (later x last) st₁ w₁ (omega arith) (length-Assigned a ∙ k)
              (sym (compensate_suc-some env steps n step last st w e q) ∙ c))
      ]

-- The steps before `completed_steps` are completed, the next one failed or was not begun, and the ones
-- behind it are pending. Without an error all are completed; with one, some step is not.
pub record Ran {ℓ} {Err : Type ℓ} (total completed_steps : ℕ) (st : State Err) (err : Option Err)
    : Type ℓ where
  pub counted : length st.step_results ≡ total
  pub bounded : completed_steps ≤ total
  pub before : (j : ℕ) → j < completed_steps → status_at st j ≡ some StepStatus.completed
  pub reached :
      completed_steps < total
      → (status_at st completed_steps ≡ some StepStatus.failed)
        ⊎ (status_at st completed_steps ≡ some StepStatus.pending)
  pub behind : (j : ℕ) → completed_steps < j → j < total → status_at st j ≡ some StepStatus.pending
  pub full : err ≡ none → completed_steps ≡ total
  pub short : err ≢ none → completed_steps < total

-- what holds before the round of step i
pub record Begun {ℓ} {Err : Type ℓ} (total i : ℕ) (st : State Err) : Type ℓ where
  pub counted : length st.step_results ≡ total
  pub before : (j : ℕ) → j < i → status_at st j ≡ some StepStatus.completed
  pub behind : (j : ℕ) → i ≤ j → j < total → status_at st j ≡ some StepStatus.pending

module _ {ℓ} {Err : Type ℓ} {total i : ℕ} {st : State Err} where
  Ran-end : Begun total i st → i ≡ total → Ran total i st none
  Ran-end b e = record {
    counted = b.counted;
    bounded = omega arith;
    before = b.before;
    reached = λ h. absurd (omega arith);
    behind = λ j h k. absurd (omega arith);
    full = λ h. e;
    short = λ h. absurd (h refl);
  }

  Ran-cancelled : Begun total i st → i < total → (e : Err) → Ran total i st (some e)
  Ran-cancelled b h e = record {
    counted = b.counted;
    bounded = omega arith;
    before = b.before;
    reached = λ k. inr (b.behind i (omega arith) k);
    behind = λ j k l. b.behind j (omega arith) l;
    full = λ k. absurd (cc);
    short = λ k. h;
  }

  Ran-failed :
      {st' : State Err}
      → Begun total i st
      → i < total
      → Assigned i (λ t. t ≡ StepStatus.failed) st st'
      → (e : Err) → Ran total i st' (some e)
  Ran-failed b h a e = record {
    counted = length-Assigned a ∙ b.counted;
    bounded = omega arith;
    before = λ j k. status_at-Assigned_ne a j (omega arith) ∙ b.before j k;
    reached = λ k. inl (status_at-Assigned_self a (omega (arith, b.counted)) ∙ ap some a.meets);
    behind = λ j k l. status_at-Assigned_ne a j (omega arith) ∙ b.behind j (omega arith) l;
    full = λ k. absurd (cc);
    short = λ k. h;
  }

  Begun-suc :
      {st' : State Err}
      → Begun total i st
      → i < total
      → Assigned i (λ t. t ≡ StepStatus.completed) st st'
      → Begun total (i + 1) st'
  Begun-suc b h a = record {
    counted = length-Assigned a ∙ b.counted;
    before = λ j k. elim (below_suc j i (omega arith)) [
      | inl p ↦ status_at-Assigned_ne a j (omega arith) ∙ b.before j p
      | inr p ↦ rw p (status_at-Assigned_self a (omega (arith, b.counted)) ∙ ap some a.meets)
    ];
    behind = λ j k l. status_at-Assigned_ne a j (omega arith) ∙ b.behind j (omega arith) l;
  }

module _ {ℓ} {W Err : Type ℓ} (env : Env W Err) where
  -- the result of the loop, as one statement about a tuple; a panic has none
  abbrev pub Ends : ℕ → Option (Option Err × ℕ × State Err × W) → Type ℓ
  Ends total none = Unit
  Ends total (some r) = Ran total r.1 r.2 r.0

  pub run_steps-Ran :
      (steps : List (Step W Err)) (i total : ℕ) (st : State Err) (w : W)
      → i + length steps ≡ total
      → Begun total i st
      → Ends total (run_steps env steps i i st w)
  unfolding run_steps
  run_steps-Ran [] i total st w h b = Ran-end b (omega arith)
  run_steps-Ran (step ∷ steps) i total st w h b = elim (Option-cases (env.ctx_err w)) [
    | inr (e, k) ↦ rw (k, run_steps) (Ran-cancelled b (omega arith) e)
    | inl k ↦ elim (run_step-Assigned env i step st w) [
      | inl (_, _, l) ↦ rw (k, l, run_steps) tt
      | inr (some e, st₁, w₁, l, a) ↦
          rw (k, l, run_steps)
            (Ran-failed b (omega arith)
              (a StepStatus.failed (with_error StepStatus.failed e) (λ r. refl)) e)
      | inr (none, st₁, w₁, l, a) ↦
          rw (k, l, run_steps)
            (run_steps-Ran steps (i + 1) total
              (update_result i (with_status StepStatus.completed) st₁) w₁ (omega arith)
              (Begun-suc b (omega arith)
                (a StepStatus.completed (with_status StepStatus.completed) (λ r. refl))))
    ]
  ]
