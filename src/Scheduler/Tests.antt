-- ===== src/Scheduler/Tests.antt =====
-- Runs of a job whose handler fails twice, and the theorems on executions at it.
use microservice_kit.Prelude.{
  ℕ, ◌+◌, ◌-◌, ◌≡◌, refl, ap, subst, ◌^◌, true, Option, none, some, [], if◌then◌else◌, arith, ltb,
}
use microservice_kit.Prelude.Int.{pos, ◌+ℤ◌, wrap64}
use microservice_kit.Scheduler.{
  idle, JobStats, Job, acquired, Locker, Env, execute_job, run_locked, run_hooked, run_with_retry,
  attempts, run_before_hooks, run_hooks, try_start, finish, record_start, record_success,
  record_fail,
}
use microservice_kit.Scheduler.Execution

abbrev no_runs : JobStats ℕ
no_runs = record {
  run_count = 0;
  success_count = 0;
  fail_count = 0;
  skip_count = 0;
  last_error = none;
}

abbrev pub nightly : Job ℕ ℕ
nightly = record {
  name = 1;
  schedule = 2;
  has_handler = true;
  singleton = true;
  distributed = true;
  retry_count = pos 2;
  waits = true;
  entry_id = 0;
  state = idle;
  stats = no_runs;
}

abbrev grants : Locker (ℕ × ℕ) ℕ
grants = record { try_lock = λ w. (acquired, (w.0, w.1 + 1)); unlock = λ w. (w.0, w.1 - 1) }

-- a world with the failures that are left, and the locks taken
abbrev flaky : Env (ℕ × ℕ) ℕ
flaky = record {
  handler = λ w. if ltb 0 w.0 then (some (some 7), (w.0 - 1, w.1)) else (some none, w);
  before_job = [];
  after_job = [];
  on_error = [];
  on_skip = [];
  sleep = λ w. w;
  locker = some grants;
}

third_time :
    (execute_job flaky nightly (2, 0)).0.stats
    ≡ record { run_count = 3; success_count = 1; fail_count = 2; skip_count = 0; last_error = none }
unfolding execute_job run_locked run_hooked run_with_retry attempts run_before_hooks run_hooks
    try_start finish record_start record_success record_fail ◌+ℤ◌ wrap64
third_time = refl

-- the handler panics: the run is counted, the state is restored and the lock given back
abbrev panicking : Env (ℕ × ℕ) ℕ
panicking = record flaky { handler = λ w. (none, w) }

panics_once :
    execute_job panicking nightly (2, 0)
    ≡ (record nightly { stats = record no_runs { run_count = 1 } }, (2, 0), true)
unfolding execute_job run_locked run_hooked run_with_retry attempts run_before_hooks run_hooks
    try_start finish record_start ◌+ℤ◌ wrap64
panics_once = refl

-- behind the greatest retry count no attempt is made
never_runs :
    (execute_job flaky (record nightly { retry_count = pos (2 ^ 63 - 1) }) (2, 0)).0.stats ≡ no_runs
unfolding execute_job run_locked run_hooked run_with_retry attempts run_before_hooks run_hooks
    try_start finish ◌+ℤ◌ wrap64
never_runs = refl

execute_job-Ran_example :
    Execution.Ran 3 1
      (execute_job panicking nightly (2, 0)).2
      nightly
      (execute_job panicking nightly (2, 0)).0
unfolding ◌+ℤ◌
execute_job-Ran_example = Execution.execute_job-Ran panicking nightly (2, 0) (omega arith)

the_locker : (locker : Locker (ℕ × ℕ) ℕ) → some grants ≡ some locker → grants ≡ locker
the_locker locker e =
    ap (λ (o : Option (Locker (ℕ × ℕ) ℕ)). elim o [ none ↦ grants | some l ↦ l ]) e

flaky-Keeps : Execution.Keeps flaky (λ w. w.1)
unfolding run_before_hooks run_hooks
flaky-Keeps = record {
  handler = λ w. ground arith;
  sleep = λ w. refl;
  before_job = λ jc w. refl;
  after_job = λ jc w. refl;
  on_error = λ jc w. refl;
  on_skip = λ jc w. refl;
  locks = λ locker w e.
      subst
        (λ (l : Locker (ℕ × ℕ) ℕ).
          ((l.try_lock w).0 ≡ acquired → (l.try_lock w).1.1 ≡ w.1 + 1)
          × (((l.try_lock w).0 ≡ acquired → ⊥) → (l.try_lock w).1.1 ≡ w.1))
        (the_locker locker e) ((λ q. refl), (λ q. absurd (q refl)));
  unlocks = λ locker w e h.
      subst (λ (l : Locker (ℕ × ℕ) ℕ). (l.unlock w).1 + 1 ≡ w.1) (the_locker locker e)
        (omega (arith, h));
}

execute_job-count_example : (execute_job flaky nightly (2, 5)).1.1 ≡ 5
execute_job-count_example = Execution.execute_job-count flaky (λ w. w.1) flaky-Keeps nightly (2, 5)
