-- ===== src/Lock.antt =====
-- storage/lock: the lock over the cache (redis.go) and the calls under it (lock.go). A cache is that of
-- storage/cache/memory.go; every call takes its time.
mod Exclusion
pub mod Tests
use microservice_kit.Prelude.{
  ℕ, zero, suc, ◌+◌, Bool, true, false, Option, none, some, List, [], ◌∷◌, if◌then◌else◌, ◌&&◌, leb,
  get, put, remove, ◌⊎◌, inl, inr,
}
use microservice_kit.Prelude.Int.{ℤ, pos, ltb_ℤ, leb_ℤ}
use microservice_kit.Cache
use microservice_kit.Cache.{MemoryCache, Go, Result, ok, fail, CacheError, err_lock_not_held}

-- `Redis`; the cache that it points to is an argument of its methods
pub record Locker (Text : Type 0) : Type 0 where
  pub key_prefix : Text
  pub owner_id : Text
  pub max_retries : ℤ
  pub held : List (Text × Bool)

-- `ErrLockNotAcquired`, `ErrLockNotHeld`, `ErrLockExpired`, an error of the cache and one of the context
pub data LockError : Type 0 where
  not_acquired not_held expired context_done : LockError
  of_cache : CacheError → LockError

-- One turn of the select in `Lock`: the context is done, or it is this much later and the others have done
-- this to the cache.
pub data Wait (Text : Type 0) : Type 0 where
  cancelled : Wait Text
  retry : ℕ → (MemoryCache Text → MemoryCache Text) → Wait Text

pub data Outcome (A : Type 0) : Type 0 where
  returned : A → Outcome A
  panicked : Outcome A

module _ {Text Any : Type 0} (go : Go Text Any) (concat : Text → Text → Text) where
  abbrev pub full_key : Locker Text → Text → Text
  full_key r key = concat r.key_prefix key

  -- `IsHeld`, and `r.held[key]`
  pub is_held : Locker Text → Text → Bool
  is_held r key = elim (get go.same r.held key) [ none ↦ false | some held ↦ held ]

  pub try_lock :
      ℕ → Locker Text → MemoryCache Text → Text → ℤ → Locker Text × MemoryCache Text × Result Bool
  try_lock now r m key ttl =
      let (m₁, result) = Cache.try_lock go now m (full_key r key) r.owner_id ttl in
      elim result [
        | fail e ↦ (r, m₁, fail e)
        | ok acquired ↦ (
          if acquired then record r { held = put go.same r.held key true } else r,
          m₁,
          ok acquired,
        )
      ]

  -- `Lock`, with the retries so far; none where it still waits, and else its error
  pub lock :
      ℕ
      → List (Wait Text)
      → ℕ
      → Locker Text
      → MemoryCache Text
      → Text
      → ℤ
      → Locker Text × MemoryCache Text × Option (Option LockError)
  lock retries [] now r m key ttl =
      let (r₁, m₁, result) = try_lock now r m key ttl in
      elim result [
        | fail e ↦ (r₁, m₁, some (some (of_cache e)))
        | ok true ↦ (r₁, m₁, some none)
        | ok false ↦
            if ltb_ℤ (pos 0) r.max_retries && leb_ℤ r.max_retries (pos (retries + 1))
            then (r₁, m₁, some (some not_acquired))
            else (r₁, m₁, none)
      ]
  lock retries (wait ∷ waits) now r m key ttl =
      let (r₁, m₁, result) = try_lock now r m key ttl in
      elim result [
        | fail e ↦ (r₁, m₁, some (some (of_cache e)))
        | ok true ↦ (r₁, m₁, some none)
        | ok false ↦
            if ltb_ℤ (pos 0) r.max_retries && leb_ℤ r.max_retries (pos (retries + 1))
            then (r₁, m₁, some (some not_acquired))
            else elim wait [
              | cancelled ↦ (r₁, m₁, some (some context_done))
              | retry later others ↦ lock (retries + 1) waits (now + later) r₁ (others m₁) key ttl
            ]
      ]

  pub unlock :
      Locker Text → MemoryCache Text → Text → Locker Text × MemoryCache Text × Option LockError
  unlock r m key =
      if is_held r key
      then (let (m₁, err) = Cache.unlock go m (full_key r key) r.owner_id in
          let released = record r { held = remove go.same r.held key } in
          elim err [
            | none ↦ (released, m₁, none)
            | some err_lock_not_held ↦ (released, m₁, some not_held)
            | some e ↦ (r, m₁, some (of_cache e))
          ])
      else (r, m, some not_held)

  pub extend :
      ℕ
      → Locker Text
      → MemoryCache Text
      → Text
      → ℤ
      → Locker Text × MemoryCache Text × Option LockError
  extend now r m key ttl =
      if is_held r key
      then (let (m₁, val) = Cache.get_value go now m (full_key r key) in
          let released = record r { held = remove go.same r.held key } in
          elim val [
            | fail e ↦ (released, m₁, some expired)
            | ok v ↦ elim (go.same v r.owner_id) [
              | no _ ↦ (released, m₁, some not_held)
              | yes _ ↦
                  let (m₂, err) = Cache.expire go now m₁ (full_key r key) ttl in
                  (r, m₂, elim err [ none ↦ none | some e ↦ some (of_cache e) ])
            ]
          ])
      else (r, m, some not_held)

  -- `TryWithLock`: the call under the lock, and the deferred `Unlock`, which also runs where it panics
  pub try_with_lock :
      {A : Type 0}
      → ℕ
      → (Locker Text → MemoryCache Text → Locker Text × MemoryCache Text × Outcome A)
      → Locker Text
      → MemoryCache Text
      → Text
      → ℤ
      → Locker Text × MemoryCache Text × (LockError ⊎ Outcome A)
  try_with_lock now fn r m key ttl =
      let (r₁, m₁, result) = try_lock now r m key ttl in
      elim result [
        | fail e ↦ (r₁, m₁, inl (of_cache e))
        | ok false ↦ (r₁, m₁, inl not_acquired)
        | ok true ↦
            let (r₂, m₂, outcome) = fn r₁ m₁ in
            let (r₃, m₃, err) = unlock r₂ m₂ key in (r₃, m₃, inr outcome)
      ]

  -- `WithLock`; none where `Lock` still waits
  pub with_lock :
      {A : Type 0}
      → List (Wait Text)
      → ℕ
      → (Locker Text → MemoryCache Text → Locker Text × MemoryCache Text × Outcome A)
      → Locker Text
      → MemoryCache Text
      → Text
      → ℤ
      → Locker Text × MemoryCache Text × Option (LockError ⊎ Outcome A)
  with_lock waits now fn r m key ttl =
      let (r₁, m₁, result) = lock 0 waits now r m key ttl in
      elim result [
        | none ↦ (r₁, m₁, none)
        | some (some e) ↦ (r₁, m₁, some (inl e))
        | some none ↦
            let (r₂, m₂, outcome) = fn r₁ m₁ in
            let (r₃, m₃, err) = unlock r₂ m₂ key in (r₃, m₃, some (inr outcome))
      ]
