-- ===== src/Semaphore/Alone.antt =====
-- middleware/semaphore/distributed.go: a `TryAcquire` that runs alone, as steps of a client.
use microservice_kit.Prelude.{ℕ, ◌+◌, Bool, true, false, Option, some, List}
use microservice_kit.Prelude.Int.{ℤ}
use microservice_kit.Semaphore.Steps.{
  Phase, idle, holding, Shared, at, Step, Steps, not_refreshed, not_down, not_back, lapse, stay,
  go_on,
}

-- no call of the counter fails, and the key is not lost
abbrev pub Succeeds : {size ttl : ℕ} {s t : Shared} → Step size ttl s t → Type 0
Succeeds (not_refreshed _ _ _ _ _) = ⊥
Succeeds (not_down _ _ _ _ _) = ⊥
Succeeds (not_back _ _ _ _ _) = ⊥
Succeeds (lapse _ _ _ _ _) = ⊥
Succeeds _ = Unit

abbrev pub AllSucceed : {size ttl : ℕ} {s t : Shared} → Steps size ttl s t → Type 0
AllSucceed (stay s) = Unit
AllSucceed (go_on s t u e f) = Succeeds e × AllSucceed f

abbrev pub Reaches : ℕ → ℕ → Shared → Shared → Type 0
Reaches size ttl s t = (e : Steps size ttl s t) × AllSucceed e

module _ (size ttl : ℕ) (d : Option ℕ) (t : ℕ) (xs ys : List Phase) where
  -- the client and the deadline behind a TryAcquire with this answer
  abbrev pub after : ℤ → Bool → Shared
  after n true = at n (some (t + ttl)) t xs holding ys
  after n false = at n d t xs idle ys
