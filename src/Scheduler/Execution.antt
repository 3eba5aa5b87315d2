-- ===== src/Scheduler/Execution.antt =====
-- scheduler: what one execution of a job does to its state, its statistics and the distributed lock.
use microservice_kit.Prelude.{
  ℕ, zero, suc, ◌+◌, ◌≤◌, ◌<◌, ◌≡◌, ◌⊎◌, refl, Bool, ◌^◌, Option, none, some, if◌then◌else◌, arith,
  inl, inr, Option-cases,
}
use microservice_kit.Prelude.Int.{ℤ, pos, negsuc, ◌+ℤ◌, pos_part, neg_part, wrap64}
use microservice_kit.Scheduler.{
  running, SkipReason, Job, JobContext, LockAnswer, acquired, taken, failed, Locker, Env,
  record_start, record_success, record_fail, record_skip, run_before_hooks, run_hooks,
  first_attempt, attempts, run_with_retry, skip, run_hooked, run_locked, try_start, finish,
  execute_job,
}

module _ {Text E : Type 0} where
  -- Between two moments of a job: its runs went up by so many at most, each of them is a success or a
  -- failure, but for the last one behind a panic, and its skips went up by so many at most.
  pub record Ran (most skips : ℕ) (panicked : Bool) (job after : Job Text E) : Type 0 where
    pub same_state : after.state ≡ job.state
    pub runs : after.stats.run_count ≤ job.stats.run_count + most
    pub balanced :
        after.stats.run_count + (job.stats.success_count + job.stats.fail_count)
        ≡ job.stats.run_count
          + (after.stats.success_count + after.stats.fail_count)
          + (if panicked then 1 else 0)
    pub skipped : after.stats.skip_count ≤ job.stats.skip_count + skips

module _ {W E : Type 0} (env : Env W E) where
  -- a count that the calls of an execution leave, and a lock and its release move
  pub record Keeps (count : W → ℕ) : Type 0 where
    pub handler : (w : W) → count (env.handler w).1 ≡ count w
    pub sleep : (w : W) → count (env.sleep w) ≡ count w
    pub before_job :
        (jc : JobContext E) (w : W) → count (run_before_hooks env.before_job jc w).1 ≡ count w
    pub after_job : (jc : JobContext E) (w : W) → count (run_hooks env.after_job jc w) ≡ count w
    pub on_error : (jc : JobContext E) (w : W) → count (run_hooks env.on_error jc w) ≡ count w
    pub on_skip : (jc : JobContext E) (w : W) → count (run_hooks env.on_skip jc w) ≡ count w
    pub locks :
        (locker : Locker W E) (w : W)
        → env.locker ≡ some locker
        → ((locker.try_lock w).0 ≡ acquired → count (locker.try_lock w).1 ≡ count w + 1)
          × (((locker.try_lock w).0 ≡ acquired → ⊥) → count (locker.try_lock w).1 ≡ count w)
    pub unlocks :
        (locker : Locker W E) (w : W)
        → env.locker ≡ some locker
        → 0 < count w
        → count (locker.unlock w) + 1 ≡ count w

-- the wrapped number of attempts is no greater
wrapped_attempts :
    (n : ℤ) → neg_part n ≤ 2 ^ 63 → pos_part (wrap64 (n +ℤ pos 1)) ≤ pos_part (n +ℤ pos 1)
unfolding wrap64 ◌+ℤ◌
wrapped_attempts (pos n) h = ground arith
wrapped_attempts (negsuc zero) h = ground arith
wrapped_attempts (negsuc (suc n)) h = ground arith

-- to split on what a handler answers: a panic, success or an error
Handled :
    {E : Type 0} (o : Option (Option E))
    → (o ≡ none) ⊎ ((o ≡ some none) ⊎ ((x : E) × (o ≡ some (some x))))
Handled none = inl refl
Handled (some none) = inr (inl refl)
Handled (some (some x)) = inr (inr (x, refl))

module _ {Text W E : Type 0} (env : Env W E) where
  attempts-Ran :
      (left attempt : ℕ) (job : Job Text E) (w : W)
      → Ran left 0 (attempts env left attempt job w).2 job (attempts env left attempt job w).0
  unfolding attempts record_start record_success record_fail
  attempts-Ran zero attempt job w = record {
    same_state = refl;
    runs = omega arith;
    balanced = omega arith;
    skipped = omega arith;
  }
  attempts-Ran (suc zero) attempt job w = record {
    same_state = ground arith;
    runs = ground arith;
    balanced = ground arith;
    skipped = ground arith;
  }
  attempts-Ran (suc (suc left)) attempt job w = elim (Handled (env.handler w).0) [
    | inl e ↦ record {
      same_state = ground (arith, e);
      runs = ground (arith, e);
      balanced = ground (arith, e);
      skipped = ground (arith, e);
    }
    | inr (inl e) ↦ record {
      same_state = ground (arith, e);
      runs = ground (arith, e);
      balanced = ground (arith, e);
      skipped = ground (arith, e);
    }
    | inr (inr (x, e)) ↦
        let started = record job { stats = record_start job.stats } in
        let stopped = record started { stats = record_fail x started.stats } in
        let w₁ = (env.handler w).1 in
        let ih =
          attempts-Ran (suc left) (attempt + 1) stopped (if job.waits then env.sleep w₁ else w₁) in
        record {
          same_state = ground (arith, e, ih.same_state);
          runs = ground (arith, e, ih.runs);
          balanced = ground (arith, e, ih.balanced);
          skipped = ground (arith, e, ih.skipped);
        }
  ]

  run_hooked-Ran :
      (job : Job Text E) (w : W)
      → Ran
          (pos_part (wrap64 (job.retry_count +ℤ pos 1)))
          0
          (run_hooked env job w).2
          job
          (run_hooked env job w).0
  unfolding run_hooked run_with_retry
  run_hooked-Ran job w =
      let w₁ = (run_before_hooks env.before_job first_attempt w).1 in
      let ih = attempts-Ran (pos_part (wrap64 (job.retry_count +ℤ pos 1))) 1 job w₁ in
      record {
        same_state = ground (arith, ih.same_state);
        runs = ground (arith, ih.runs);
        balanced = ground (arith, ih.balanced);
        skipped = ground (arith, ih.skipped);
      }

  run_locked-Ran :
      (job : Job Text E) (w : W)
      → Ran
          (pos_part (wrap64 (job.retry_count +ℤ pos 1)))
          1
          (run_locked env job w).2
          job
          (run_locked env job w).0
  unfolding run_locked skip record_skip
  run_locked-Ran job w =
      let ih = run_hooked-Ran job w in
      elim (Option-cases env.locker) [
        | inl e ↦ record {
          same_state = ground (arith, e, ih.same_state);
          runs = ground (arith, e, ih.runs);
          balanced = ground (arith, e, ih.balanced);
          skipped = ground (arith, e, ih.skipped);
        }
        | inr (l, e) ↦
            let locked = run_hooked-Ran job (l.try_lock w).1 in
            record {
              same_state = ground (arith, e, ih.same_state, locked.same_state);
              runs = ground (arith, e, ih.runs, locked.runs);
              balanced = ground (arith, e, ih.balanced, locked.balanced);
              skipped = ground (arith, e, ih.skipped, locked.skipped);
            }
      ]

  -- One execution leaves the state of the job as it finds it, also of a singleton, which it marks as running
  -- in between. It adds one run more than the retry count at most, each of them a success or a failure, but
  -- for the last one where the handler panics, and one skip at most. The retry count is a 64-bit integer.
  pub execute_job-Ran :
      (job : Job Text E) (w : W)
      → neg_part job.retry_count ≤ 2 ^ 63
      → Ran
          (pos_part (job.retry_count +ℤ pos 1))
          1
          (execute_job env job w).2
          job
          (execute_job env job w).0
  unfolding execute_job try_start finish skip record_skip
  execute_job-Ran job w int =
      let ih = run_locked-Ran job w in
      let started = run_locked-Ran (record job { state = running }) w in
      record {
        same_state = ground (arith, ih.same_state, started.same_state);
        runs = ground (arith, ih.runs, started.runs, wrapped_attempts job.retry_count int);
        balanced = ground (arith, ih.balanced, started.balanced);
        skipped = ground (arith, ih.skipped, started.skipped);
      }

  attempts-count :
      (count : W → ℕ) (keeps : Keeps env count) (left attempt : ℕ) (job : Job Text E) (w : W)
      → count (attempts env left attempt job w).1 ≡ count w
  unfolding attempts
  attempts-count count keeps zero attempt job w = refl
  attempts-count count keeps (suc zero) attempt job w = elim (Handled (env.handler w).0) [
    | inl e ↦ ground (arith, e, keeps.handler w)
    | inr (inl e) ↦ ground (
      arith,
      e,
      keeps.handler w,
      keeps.after_job (record first_attempt { attempt = attempt; error = none }) (env.handler w).1,
    )
    | inr (inr (x, e)) ↦
        let jc = record first_attempt { attempt = attempt; error = some x } in
        let w₁ = (env.handler w).1 in
        ground (
          arith,
          e,
          keeps.handler w,
          keeps.on_error jc w₁,
          keeps.after_job jc (run_hooks env.on_error jc w₁),
        )
  ]
  attempts-count count keeps (suc (suc left)) attempt job w = elim (Handled (env.handler w).0) [
    | inl e ↦ ground (arith, e, keeps.handler w)
    | inr (inl e) ↦ ground (
      arith,
      e,
      keeps.handler w,
      keeps.after_job (record first_attempt { attempt = attempt; error = none }) (env.handler w).1,
    )
    | inr (inr (x, e)) ↦
        let started = record job { stats = record_start job.stats } in
        let stopped = record started { stats = record_fail x started.stats } in
        let w₁ = (env.handler w).1 in
        ground (
          arith,
          e,
          keeps.handler w,
          keeps.sleep w₁,
          attempts-count count keeps (suc left) (attempt + 1) stopped
              (if job.waits then env.sleep w₁ else w₁),
        )
  ]

  run_hooked-count :
      (count : W → ℕ) (keeps : Keeps env count) (job : Job Text E) (w : W)
      → count (run_hooked env job w).1 ≡ count w
  unfolding run_hooked run_with_retry
  run_hooked-count count keeps job w =
      let w₁ = (run_before_hooks env.before_job first_attempt w).1 in
      ground (
        arith,
        keeps.before_job first_attempt w,
        attempts-count count keeps (pos_part (wrap64 (job.retry_count +ℤ pos 1))) 1 job w₁,
      )

  -- the execution behind an answer of the locker
  skipped-count :
      (count : W → ℕ) (keeps : Keeps env count) (job : Job Text E) (answer : LockAnswer E) (w : W)
      → (answer ≡ acquired)
        ⊎ ((answer ≡ acquired → ⊥)
            × ((elim answer [
              | acquired ↦ count w
              | taken ↦ count (skip env SkipReason.lock_held none job w).1
              | failed e ↦ count (skip env SkipReason.lock_failed (some e) job w).1
            ])
                ≡ count w))
  unfolding skip
  skipped-count count keeps job acquired w = inl refl
  skipped-count count keeps job taken w = inr (
    (λ e. ground arith),
    keeps.on_skip (record first_attempt { skipped = some SkipReason.lock_held }) w,
  )
  skipped-count count keeps job (failed x) w = inr (
    (λ e. ground arith),
    keeps.on_skip (record first_attempt { error = some x; skipped = some SkipReason.lock_failed })
        w,
  )

  run_locked-count :
      (count : W → ℕ) (keeps : Keeps env count) (job : Job Text E) (w : W)
      → count (run_locked env job w).1 ≡ count w
  unfolding run_locked skip
  run_locked-count count keeps job w =
      let here = run_hooked-count count keeps job w in
      elim (Option-cases env.locker) [
        | inl e ↦ ground (arith, e, here)
        | inr (l, e) ↦
            let w₁ = (l.try_lock w).1 in
            let skipped = skipped-count count keeps job (l.try_lock w).0 w₁ in
            ground (
              arith,
              e,
              here,
              skipped,
              keeps.locks l w e,
              run_hooked-count count keeps job w₁,
              keeps.unlocks l (run_hooked env job w₁).1 e,
            )
      ]

  -- One execution gives back the distributed lock exactly where it has taken it: it leaves the count of
  -- locks as it was, however it ends.
  pub execute_job-count :
      (count : W → ℕ) (keeps : Keeps env count) (job : Job Text E) (w : W)
      → count (execute_job env job w).1 ≡ count w
  unfolding execute_job try_start skip
  execute_job-count count keeps job w = ground (
    arith,
    run_locked-count count keeps job w,
    run_locked-count count keeps (record job { state = running }) w,
    keeps.on_skip (record first_attempt { skipped = some SkipReason.still_running }) w,
  )
