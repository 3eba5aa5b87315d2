-- ===== src/Scheduler/Jobs/Registration.antt =====
-- scheduler/cron.go: what is registered with the cron package after a start.
use microservice_kit.Prelude.{ℕ, ◌≡◌, some, List, [], ◌∷◌, ◌++◌, map}
use microservice_kit.Scheduler.{Job}
use microservice_kit.Scheduler.Jobs.{Cron, Go, Scheduler}

-- The documented behaviour of the cron package: `AddFunc` adds an entry or refuses the schedule, and the
-- entries outlast `Start` and `Stop`.
pub record IsCron {Text C : Type 0} (cron : Cron Text C) (names : C → List Text) : Type 0 where
  pub adds :
      (c : C) (schedule name : Text) (id : ℕ)
      → (cron.add_func c schedule name).0 ≡ some id
      → names (cron.add_func c schedule name).1 ≡ names c ++ name ∷ []
  pub start-names : (c : C) → names (cron.start_cron c) ≡ names c
  pub stop-names : (c : C) → names (cron.stop_cron c) ≡ names c

module _ {Text E C : Type 0} (go : Go Text E) (cron : Cron Text C) (names : C → List Text)
    (law : IsCron cron names) where
  abbrev pub job_names : List (Text × Job Text E) → List Text
  job_names es = map (λ (e : Text × Job Text E). e.1.name) es
