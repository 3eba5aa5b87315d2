-- ===== src/Lock/Tests.antt =====
-- Two lockers at one lock of a cache, and the theorems on locks at them.
use microservice_kit.Prelude.{ℕ, ◌≡◌, true, false, List, [], ◌∷◌, arith}
use microservice_kit.Prelude.Int.{ℤ, pos}
use microservice_kit.Cache.{MemoryCache, Item, new_item, store, delete}
use microservice_kit.Cache.Tests.{go}
use microservice_kit.Cache.Locks.{new_item-fresh, new_item-value}
use microservice_kit.Cache.Values.{lookup-store}
use microservice_kit.Lock.{Locker, Outcome, panicked}
use microservice_kit.Lock.Exclusion
use microservice_kit.Lock.Exclusion.{Call, try_at, unlocked, extend_at, Until, run_calls}

abbrev second : ℤ → ℤ → ℤ
second a b = b

abbrev empty_cache : MemoryCache ℤ
empty_cache = record { data_of = []; max_size = 10 }

-- it notes to hold a lock that has expired since
abbrev stale : Locker ℤ
stale = record {
  key_prefix = pos 0;
  owner_id = pos 8;
  max_retries = pos 0;
  held = (pos 1, true) ∷ [];
}

abbrev item : Item ℤ
item = new_item 0 (pos 7) (pos 50)

abbrev held_by_seven : MemoryCache ℤ
held_by_seven = store go empty_cache (pos 1) item

abbrev tries : List Call
tries = try_at 10 (pos 5) ∷ extend_at 20 (pos 100) ∷ unlocked ∷ []

tries-Until : Until 50 tries
unfolding Until
tries-Until = (omega arith, (omega arith, tt))

calls-held_example :
    ((run_calls go second tries stale held_by_seven (pos 1)).1 ≡ held_by_seven)
    × ((run_calls go second tries stale held_by_seven (pos 1)).2 ≡ false)
calls-held_example =
    Exclusion.calls-held go second tries stale held_by_seven (pos 1) item 50
      (lookup-store go empty_cache (pos 1) item) (λ t h. new_item-fresh 0 (pos 7) 50 t h)
      (λ e. absurd (ground (arith, e, new_item-value 0 (pos 7) (pos 50)))) tries-Until

abbrev fresh_cache : MemoryCache ℤ
fresh_cache = delete go empty_cache (pos 1)

abbrev panics : Locker ℤ → MemoryCache ℤ → Locker ℤ × MemoryCache ℤ × Outcome ℕ
panics r m = (r, m, panicked)
