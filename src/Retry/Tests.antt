-- ===== src/Retry/Tests.antt =====
-- Runs of the retries, and their theorems at them. The world counts the calls; the third has success.
use microservice_kit.Prelude.{arith, ℕ, ◌+◌, ◌≤◌, ◌≡◌, refl, true, none, some, leb, if◌then◌else◌}
use microservice_kit.Prelude.Int.{ℤ, pos, negsuc}
use microservice_kit.Retry.{Env, rounds, run, run_from, endpoint_middleware, endpoint_from}
use microservice_kit.Retry.Bounds

abbrev env : ℤ → Env ℕ ℕ ℕ
env attempts = record {
  max_attempts = attempts;
  check = λ w. (none, w);
  next = λ w. (w, (if leb 2 w then none else some w), w + 1);
  retryable = λ e. true;
  backoff = λ attempt. pos attempt;
  await_delay = λ t w. (none, w);
  nil_response = 99;
}

third : endpoint_middleware (env (pos 5)) 0 ≡ (2, none, 3)
unfolding endpoint_middleware endpoint_from rounds
third = refl

env-IsCount : Bounds.IsCount (env (pos 5)) (λ w. w)
env-IsCount = record { next_adds = λ w. refl; check_keeps = λ w. refl; await_keeps = λ t w. refl }

run-calls_example :
    ((run (env (pos 5)) 0).1 ≤ 0 + 5) × ((endpoint_middleware (env (pos 5)) 0).2 ≤ 0 + 5)
run-calls_example = Bounds.run-calls (env (pos 5)) (λ w. w) env-IsCount 5 0 (omega arith)

succeeds : (run (env (pos 5)) 0).0 ≡ none
unfolding run run_from rounds
succeeds = refl

no_rounds : rounds (negsuc 0) ≡ 0
unfolding rounds
no_rounds = refl
