-- ===== src/Scheduler/Jobs.antt =====
-- scheduler/cron.go: the jobs of a scheduler and what it has registered with the cron package. The mutex
-- makes each method a step; `Stop` is here without the calls that others could make while it waits.
mod Registration
pub mod Tests
use microservice_kit.Prelude.{
  ℕ, Bool, true, false, Option, none, some, List, [], ◌∷◌, map, if◌then◌else◌, ltb, get, put,
  remove, ◌&&◌, ◌||◌, not,
}
use microservice_kit.Scheduler.{Job}

pub data SchedulerError : Type 0 where
  err_job_name_empty err_schedule_empty err_handler_nil err_schedule_invalid : SchedulerError
  err_scheduler_closed err_job_not_found err_job_exists err_timeout : SchedulerError

-- what the code calls of the cron package: `AddFunc` with a schedule and the name of the job that the
-- function executes, `Remove`, `Start` and `Stop`
pub record Cron (Text C : Type 0) : Type 0 where
  pub add_func : C → Text → Text → Option ℕ × C
  pub remove_entry : C → ℕ → C
  pub start_cron : C → C
  pub stop_cron : C → C

-- the equality of strings, the empty string, and the order of a loop over the map of jobs
pub record Go (Text E : Type 0) : Type 1 where
  pub same : Discrete Text
  pub empty : Text
  pub range : List (Text × Job Text E) → List (Text × Job Text E)

-- `cronScheduler`
pub record Scheduler (Text E C : Type 0) : Type 0 where
  pub cron : C
  pub jobs : List (Text × Job Text E)
  pub is_running : Bool
  pub closed : Bool

module _ {Text E C : Type 0} (go : Go Text E) (cron : Cron Text C) where
  -- `Validate`
  pub validate : Job Text E → Option SchedulerError
  validate job = elim (go.same job.name go.empty) [
    | yes _ ↦ some err_job_name_empty
    | no _ ↦ elim (go.same job.schedule go.empty) [
      | yes _ ↦ some err_schedule_empty
      | no _ ↦ if job.has_handler then none else some err_handler_nil
    ]
  ]

  -- `registerJob`: none is `ErrScheduleInvalid`
  pub register_job : C → Job Text E → Option (Job Text E) × C
  register_job c job =
      let (result, c₁) = cron.add_func c job.schedule job.name in
      (elim result [ none ↦ none | some id ↦ some (record job { entry_id = id }) ], c₁)

  pub add_job : Scheduler Text E C → Job Text E → Scheduler Text E C × Option SchedulerError
  add_job s job = elim (validate job) [
    | some err ↦ (s, some err)
    | none ↦
        if s.closed then (s, some err_scheduler_closed) else elim (get go.same s.jobs job.name) [
          | some _ ↦ (s, some err_job_exists)
          | none ↦
              if s.is_running
              then (let (result, c) = register_job s.cron job in
                  elim result [
                    | none ↦ (record s { cron = c }, some err_schedule_invalid)
                    | some registered ↦
                        (record s { cron = c; jobs = put go.same s.jobs job.name registered }, none)
                  ])
              else (record s { jobs = put go.same s.jobs job.name job }, none)
        ]
  ]

  pub remove_job : Scheduler Text E C → Text → Scheduler Text E C × Option SchedulerError
  remove_job s name = elim (get go.same s.jobs name) [
    | none ↦ (s, some err_job_not_found)
    | some job ↦
        let c =
          if s.is_running && ltb 0 job.entry_id
          then cron.remove_entry s.cron job.entry_id
          else s.cron in
        (record s { cron = c; jobs = remove go.same s.jobs name }, none)
  ]

  -- the loop of `Start` over the jobs; an error leaves what is registered so far
  pub register_all :
      List (Text × Job Text E) → Scheduler Text E C → Scheduler Text E C × Option SchedulerError
  register_all [] s = (s, none)
  register_all ((name, job) ∷ rest) s =
      let (result, c) = register_job s.cron job in
      elim result [
        | none ↦ (record s { cron = c }, some err_schedule_invalid)
        | some registered ↦
            register_all rest (record s { cron = c; jobs = put go.same s.jobs name registered })
      ]

  pub start : Scheduler Text E C → Scheduler Text E C × Option SchedulerError
  start s =
      if s.closed
      then (s, some err_scheduler_closed)
      else if s.is_running
      then (s, none)
      else (let (s₁, err) = register_all (go.range s.jobs) s in
          elim err [
            | some e ↦ (s₁, some e)
            | none ↦ (record s₁ { cron = cron.start_cron s₁.cron; is_running = true }, none)
          ])

  pub stop : Scheduler Text E C → Scheduler Text E C
  stop s =
      if not s.is_running || s.closed
      then s
      else record s { cron = cron.stop_cron s.cron; is_running = false }

  -- `Shutdown`, by whether cron has stopped and the executions have ended before the context is done
  pub shutdown : Bool → Bool → Scheduler Text E C → Scheduler Text E C × Option SchedulerError
  shutdown cron_stopped jobs_done s =
      if s.closed
      then (s, none)
      else (let s₁ = record s { closed = true; cron = cron.stop_cron s.cron } in
          if cron_stopped && jobs_done
          then (record s₁ { is_running = false }, none)
          else (s₁, some err_timeout))

  -- `Trigger`: the job that it executes
  pub trigger : Scheduler Text E C → Text → Option (Job Text E) × Option SchedulerError
  trigger s name =
      if s.closed then (none, some err_scheduler_closed) else elim (get go.same s.jobs name) [
        | none ↦ (none, some err_job_not_found)
        | some job ↦ (some job, none)
      ]
