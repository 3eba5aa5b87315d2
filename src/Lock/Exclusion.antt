-- ===== src/Lock/Exclusion.antt =====
-- storage/lock: what the calls of one locker do to a lock that another holds, and the release of a lock
-- behind the call that it guards.
use mathlib.Core.Logic.{◌≢◌}
use microservice_kit.Prelude.{
  ℕ, ◌≤◌, ◌≡◌, ◌≢◌, refl, sym, ◌∙◌, ap, Bool, true, false, ◌||◌, none, some, List, [], ◌∷◌, arith,
}
use microservice_kit.Prelude.Int.{ℤ}
use microservice_kit.Cache
use microservice_kit.Cache.{
  MemoryCache, Go, Item, Result, ok, fail, err_lock_not_held, lookup, is_expired,
}
use microservice_kit.Cache.Locks.{try_lock-held, unlock-other}
use microservice_kit.Cache.Values.{get_value-held}
use microservice_kit.Lock.{Locker, Outcome, full_key, is_held, try_lock, unlock, extend}

-- a call of a locker for one key; a try and an extension have a time and a time to live
pub data Call : Type 0 where
  try_at : ℕ → ℤ → Call
  unlocked : Call
  extend_at : ℕ → ℤ → Call

-- the calls up to a time
unfoldable pub Until : ℕ → List Call → Type 0
Until until [] = Unit
Until until (try_at now ttl ∷ calls) = (now ≤ until) × Until until calls
Until until (unlocked ∷ calls) = Until until calls
Until until (extend_at now ttl ∷ calls) = (now ≤ until) × Until until calls

first_call :
    (until : ℕ) (c : Call) (calls : List Call) → Until until (c ∷ calls) → Until until (c ∷ [])
unfolding Until
first_call until (try_at now ttl) calls (a, b) = (a, tt)
first_call until unlocked calls a = tt
first_call until (extend_at now ttl) calls (a, b) = (a, tt)

later_calls :
    (until : ℕ) (c : Call) (calls : List Call) → Until until (c ∷ calls) → Until until calls
unfolding Until
later_calls until (try_at now ttl) calls (a, b) = b
later_calls until unlocked calls a = a
later_calls until (extend_at now ttl) calls (a, b) = b

module _ {Text Any : Type 0} (go : Go Text Any) (concat : Text → Text → Text) where
  -- a locker and the cache after one call, and whether it had success
  pub call : Call → Locker Text → MemoryCache Text → Text → Locker Text × MemoryCache Text × Bool
  call (try_at now ttl) r m key =
      let (r₁, m₁, result) = try_lock go concat now r m key ttl in
      (r₁, m₁, elim result [ ok b ↦ b | fail e ↦ false ])
  call unlocked r m key =
      let (r₁, m₁, err) = unlock go concat r m key in
      (r₁, m₁, elim err [ none ↦ true | some e ↦ false ])
  call (extend_at now ttl) r m key =
      let (r₁, m₁, err) = extend go concat now r m key ttl in
      (r₁, m₁, elim err [ none ↦ true | some e ↦ false ])

  pub run_calls :
      List Call → Locker Text → MemoryCache Text → Text → Locker Text × MemoryCache Text × Bool
  run_calls [] r m key = (r, m, false)
  run_calls (c ∷ calls) r m key =
      let (r₁, m₁, won) = call c r m key in
      let (r₂, m₂, won_later) = run_calls calls r₁ m₁ key in (r₂, m₂, won || won_later)

  -- the locker is the same but for what it notes to hold
  abbrev SameLocker : Locker Text → Locker Text → Type 0
  SameLocker r r₁ = (r₁.owner_id ≡ r.owner_id) × (r₁.key_prefix ≡ r.key_prefix)

  call-other :
      (c : Call) (r : Locker Text) (m : MemoryCache Text) (key : Text) (item : Item Text)
      (until : ℕ)
      → lookup go m (full_key go concat r key) ≡ some item
      → ((t : ℕ) → t ≤ until → is_expired t item ≡ false)
      → r.owner_id ≢ item.value
      → Until until (c ∷ [])
      → ((call c r m key).1 ≡ m) × ((call c r m key).2 ≡ false) × SameLocker r (call c r m key).0
  unfolding call try_lock unlock extend Until
  call-other (try_at now ttl) r m key item until h k o (a, _) =
      ground
        (arith, try_lock-held go (full_key go concat r key) now m item r.owner_id ttl h (k now a))
  call-other unlocked r m key item until h k o a =
      ground (arith, unlock-other go (full_key go concat r key) m item r.owner_id h o)
  call-other (extend_at now ttl) r m key item until h k o (a, _) =
      ground (arith, o, get_value-held go now m (full_key go concat r key) item h (k now a))

  -- While a lock is held under a value, and until its item expires, no call of a locker with another owner
  -- has success, whatever it notes to hold and in whatever order the calls come, and none of them changes
  -- the cache.
  pub calls-held :
      (calls : List Call) (r : Locker Text) (m : MemoryCache Text) (key : Text) (item : Item Text)
      (until : ℕ)
      → lookup go m (full_key go concat r key) ≡ some item
      → ((t : ℕ) → t ≤ until → is_expired t item ≡ false)
      → r.owner_id ≢ item.value
      → Until until calls
      → ((run_calls calls r m key).1 ≡ m) × ((run_calls calls r m key).2 ≡ false)
  unfolding run_calls
  calls-held [] r m key item until h k o a = (refl, refl)
  calls-held (c ∷ calls) r m key item until h k o a =
      let (e, f, (p, q)) = call-other c r m key item until h k o (first_call until c calls a) in
      let r₁ = (call c r m key).0 in
      let e₁ : lookup go m (concat r₁.key_prefix key) ≡ some item =
        ap (λ x. lookup go m (concat x key)) q ∙ h in
      let ih =
        calls-held calls r₁ m key item until e₁ k (λ x. o (sym p ∙ x))
          (later_calls until c calls a) in
      ground (arith, e, f, ih)

  -- what a guarded call must leave alone: the item of the lock, and what its locker notes of it
  pub record Keeps {A : Type 0}
      (fn : Locker Text → MemoryCache Text → Locker Text × MemoryCache Text × Outcome A)
      (key : Text) : Type 0 where
    pub keeps_item :
        (r : Locker Text) (m : MemoryCache Text)
        → lookup go (fn r m).1 (full_key go concat r key) ≡ lookup go m (full_key go concat r key)
    pub keeps_held :
        (r : Locker Text) (m : MemoryCache Text)
        → is_held go concat (fn r m).0 key ≡ is_held go concat r key
    pub keeps_owner : (r : Locker Text) (m : MemoryCache Text) → SameLocker r (fn r m).0
