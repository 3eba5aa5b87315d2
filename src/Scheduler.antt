-- ===== src/Scheduler.antt =====
-- scheduler: the jobs of the cron scheduler (cron.go) and one execution of a job (job.go, cron.go, hooks.go).
-- The package that parses schedules and calls the functions is the record `Cron`. Times and durations are
-- left out of the statistics.
mod Execution
pub mod Jobs
pub mod Tests
use microservice_kit.Prelude.{
  ℕ, zero, suc, ◌+◌, Bool, true, false, ◌&&◌, ◌||◌, not, Option, none, some, List, [], ◌∷◌,
  if◌then◌else◌, ltb, get, put, remove,
}
use microservice_kit.Prelude.Int.{ℤ, pos, ◌+ℤ◌, pos_part, wrap64}

pub data JobState : Type 0 where
  idle running paused : JobState

pub data SkipReason : Type 0 where
  still_running lock_failed lock_held : SkipReason

-- `JobStats`
pub record JobStats (E : Type 0) : Type 0 where
  pub run_count : ℕ
  pub success_count : ℕ
  pub fail_count : ℕ
  pub skip_count : ℕ
  pub last_error : Option E

-- `Job`; the handler is part of the environment of an execution, and `waits` is whether its retry interval
-- is positive
pub record Job (Text E : Type 0) : Type 0 where
  pub name : Text
  pub schedule : Text
  pub has_handler : Bool
  pub singleton : Bool
  pub distributed : Bool
  pub retry_count : ℤ
  pub waits : Bool
  pub entry_id : ℕ
  pub state : JobState
  pub stats : JobStats E

-- `JobContext`, as the hooks see it
pub record JobContext (E : Type 0) : Type 0 where
  pub attempt : ℕ
  pub error : Option E
  pub skipped : Option SkipReason

pub data LockAnswer (E : Type 0) : Type 0 where
  acquired taken : LockAnswer E
  failed : E → LockAnswer E

pub record Locker (W E : Type 0) : Type 0 where
  pub try_lock : W → LockAnswer E × W
  pub unlock : W → W

-- What an execution calls: the handler, the hooks, the wait between two attempts and the locker. The
-- handler answers none where it panics; the hooks and the locker are taken to return.
pub record Env (W E : Type 0) : Type 0 where
  pub handler : W → Option (Option E) × W
  pub before_job : List (JobContext E → W → Option E × W)
  pub after_job : List (JobContext E → W → W)
  pub on_error : List (JobContext E → W → W)
  pub on_skip : List (JobContext E → W → W)
  pub sleep : W → W
  pub locker : Option (Locker W E)

module _ {E : Type 0} where
  pub record_start : JobStats E → JobStats E
  record_start s = record s { run_count = s.run_count + 1 }

  pub record_success : JobStats E → JobStats E
  record_success s = record s { success_count = s.success_count + 1; last_error = none }

  pub record_fail : E → JobStats E → JobStats E
  record_fail err s = record s { fail_count = s.fail_count + 1; last_error = some err }

  pub record_skip : JobStats E → JobStats E
  record_skip s = record s { skip_count = s.skip_count + 1 }

  abbrev pub first_attempt : JobContext E
  first_attempt = record { attempt = 1; error = none; skipped = none }

module _ {W E : Type 0} where
  -- `runBeforeHooks`, which stops at the first error
  pub run_before_hooks : List (JobContext E → W → Option E × W) → JobContext E → W → Option E × W
  run_before_hooks [] jc w = (none, w)
  run_before_hooks (hook ∷ hooks) jc w =
      let (err, w₁) = hook jc w in
      elim err [ some e ↦ (some e, w₁) | none ↦ run_before_hooks hooks jc w₁ ]

  -- `runAfterHooks`, `runErrorHooks` and `runSkipHooks`
  pub run_hooks : List (JobContext E → W → W) → JobContext E → W → W
  run_hooks [] jc w = w
  run_hooks (hook ∷ hooks) jc w = run_hooks hooks jc (hook jc w)

module _ {Text W E : Type 0} (env : Env W E) where
  -- The loop of `runWithRetry`, with the attempts that are left behind this one. The last result is
  -- whether the handler has panicked.
  pub attempts : ℕ → ℕ → Job Text E → W → Job Text E × W × Bool
  attempts zero attempt job w = (job, w, false)
  attempts (suc left) attempt job w =
      let started = record job { stats = record_start job.stats } in
      let (result, w₁) = env.handler w in
      elim result [
        | none ↦ (started, w₁, true)
        | some err ↦
            let jc = record first_attempt { attempt = attempt; error = err } in
            elim err [
              | none ↦ (
                record started { stats = record_success started.stats },
                run_hooks env.after_job jc w₁,
                false,
              )
              | some e ↦
                  let stopped = record started { stats = record_fail e started.stats } in
                  elim left [
                    | zero ↦
                        (stopped, run_hooks env.after_job jc (run_hooks env.on_error jc w₁), false)
                    | suc _ ↦
                        attempts left (attempt + 1) stopped (if job.waits then env.sleep w₁ else w₁)
                  ]
            ]
      ]

  -- `job.RetryCount + 1` is an int, which wraps
  pub run_with_retry : Job Text E → W → Job Text E × W × Bool
  run_with_retry job w = attempts (pos_part (wrap64 (job.retry_count +ℤ pos 1))) 1 job w

  -- the hooks and the statistics of a skipped execution
  pub skip : SkipReason → Option E → Job Text E → W → Job Text E × W
  skip reason err job w = (
    record job { stats = record_skip job.stats },
    run_hooks env.on_skip (record first_attempt { error = err; skipped = some reason }) w,
  )

  -- `executeJob` from its third part on
  pub run_hooked : Job Text E → W → Job Text E × W × Bool
  run_hooked job w =
      let (err, w₁) = run_before_hooks env.before_job first_attempt w in
      elim err [ some e ↦ (job, w₁, false) | none ↦ run_with_retry job w₁ ]

  -- a skipped execution has not panicked
  abbrev without_panic : Job Text E × W → Job Text E × W × Bool
  without_panic (job, w) = (job, w, false)

  -- its second part: the distributed lock, and its deferred release, which also runs behind a panic
  pub run_locked : Job Text E → W → Job Text E × W × Bool
  run_locked job w = elim env.locker [
    | none ↦ run_hooked job w
    | some locker ↦
        if not job.distributed
        then run_hooked job w
        else (let (result, w₁) = locker.try_lock w in
            elim result [
              | failed e ↦ without_panic (skip lock_failed (some e) job w₁)
              | taken ↦ without_panic (skip lock_held none job w₁)
              | acquired ↦
                  let (job₁, w₂, panicked) = run_hooked job w₁ in (job₁, locker.unlock w₂, panicked)
            ])
  ]

  -- `tryStart`, which compares and swaps
  pub try_start : Job Text E → Bool × Job Text E
  try_start job = elim job.state [
    | idle ↦ (true, record job { state = running })
    | _ ↦ (false, job)
  ]

  pub finish : Job Text E → Job Text E
  finish job = record job { state = idle }

  -- the job and the world behind an execution, its deferred calls included, and whether the handler has
  -- panicked, which then goes on
  pub execute_job : Job Text E → W → Job Text E × W × Bool
  execute_job job w =
      if job.singleton
      then (let (started, job₁) = try_start job in
          if started
          then (let (job₂, w₁, panicked) = run_locked job₁ w in (finish job₂, w₁, panicked))
          else without_panic (skip still_running none job₁ w))
      else run_locked job w
