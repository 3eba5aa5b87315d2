-- ===== src/Scheduler/Jobs/Tests.antt =====
-- A scheduler with one job, over a cron package that keeps a list of names.
use native.Mathlib.Decide.{ℕ_discrete}
use microservice_kit.Prelude.{ℕ, ◌+◌, ◌≡◌, refl, false, some, List, [], ◌∷◌, ◌++◌, length, put}
use microservice_kit.Scheduler.Tests.{nightly}
use microservice_kit.Scheduler.Jobs.{Cron, Go, Scheduler, start, stop, register_all, register_job}
use microservice_kit.Scheduler.Jobs.Registration

abbrev listing : Cron ℕ (List ℕ)
listing = record {
  add_func = λ c schedule name. (some (length c + 1), c ++ name ∷ []);
  remove_entry = λ c id. c;
  start_cron = λ c. c;
  stop_cron = λ c. c;
}

abbrev itself : List ℕ → List ℕ
itself c = c

abbrev numbers : Go ℕ ℕ
numbers = record { same = ℕ_discrete; empty = 0; range = λ js. js }

abbrev one_job : Scheduler ℕ ℕ (List ℕ)
one_job = record { cron = []; jobs = (1, nightly) ∷ []; is_running = false; closed = false }

-- after a start, a stop and a start the one job is registered twice
twice :
    (start numbers listing (stop numbers listing (start numbers listing one_job).0)).0.cron
    ≡ 1 ∷ 1 ∷ []
unfolding start stop register_all register_job put ℕ_discrete
twice = refl
