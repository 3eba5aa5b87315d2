-- ===== src/Idempotency/Tests.antt =====
-- A run of the idempotency middleware, and its theorems at it. The world is the result of the one key
-- and the count of the calls; the lock is never found taken.
use microservice_kit.Prelude.{ℕ, ◌+◌, ◌≤◌, ◌≡◌, refl, true, false, Option, none, some, [], ◌∷◌}
use microservice_kit.Idempotency.{Env, Saved, body, replayed, handle, execute_once, save_result}
use microservice_kit.Idempotency.Replay

abbrev World : Type 0
World = Option (Saved ℕ) × ℕ

abbrev env : Env World ℕ ℕ ℕ ℕ
env = record {
  key_of = λ req. some 1;
  skip_on_error = false;
  get = λ key w. (some w.0, w);
  set_nx = λ key w. (some true, w);
  set = λ key s w. (some true, (some s, w.1));
  next = λ req w. (req, none, (w.0, w.1 + 1));
  marshal = λ resp. resp;
  message = λ e. some e;
}

env-IsReliable : Replay.IsReliable env 1 (λ w. w.0) (λ w. w.1)
env-IsReliable = record {
  get_reads = λ w. refl;
  set_nx_locks = λ w. (true, refl);
  set_nx_keeps = λ w. (refl, refl);
  set_writes = λ s w. (refl, refl);
  next_counts = λ req w. refl;
}

second : (handle env 0 8 (handle env 0 7 (none, 0)).1).0 ≡ replayed (body 7)
unfolding handle execute_once save_result
second = refl

keyed : Replay.HaveKey env 1 (λ w. w.0) (λ w. w.1) (7 ∷ 8 ∷ 9 ∷ [])
unfolding Replay.HaveKey
keyed = (refl, (refl, (refl, tt)))

handle_all-once_example :
    (Replay.handle_all env 1 (λ w. w.0) (λ w. w.1) 0 (7 ∷ 8 ∷ 9 ∷ []) (none, 0)).1 ≤ 0 + 1
handle_all-once_example =
    Replay.handle_all-once env 1 (λ w. w.0) (λ w. w.1) env-IsReliable 0 (7 ∷ 8 ∷ 9 ∷ []) (none, 0)
      keyed refl
