-- ===== src/Cache/Locks.antt =====
-- storage/cache: `TryLock` and `Unlock`: a lock that is held is given to no other.
use microservice_kit.Prelude.{
  ℕ, ◌+◌, ◌≤◌, ◌≡◌, ◌≢◌, refl, sym, ◌∙◌, Bool, true, false, ◌||◌, none, some, List, [], ◌∷◌, arith,
  ap, subst, get-remove_self,
}
use microservice_kit.Prelude.Int.{ℤ, pos}
use microservice_kit.Cache.{
  Go, Item, MemoryCache, ok, fail, err_lock_not_held, is_expired, new_item, serialize, lookup, live,
  delete, store, set_nx, try_lock, unlock,
}
use microservice_kit.Cache.Values.{lookup-store}

-- A call on one lock: a try at a time, with a value and a time to live, or a release with a value.
pub data LockOp (Text : Type 0) : Type 0 where
  acquire : ℕ → Text → ℤ → LockOp Text
  release : Text → LockOp Text

module _ {Text : Type 0} where
  pub new_item-fresh :
      (now : ℕ) (v : Text) (ttl t : ℕ)
      → t ≤ now + ttl
      → is_expired t (new_item now v (pos ttl)) ≡ false
  unfolding is_expired new_item
  new_item-fresh now v ttl t h = ground arith

  pub new_item-value : (now : ℕ) (v : Text) (ttl : ℤ) → (new_item now v ttl).value ≡ v
  unfolding new_item
  new_item-value now v ttl = ground arith

module _ {Text Any : Type 0} (go : Go Text Any) (key : Text) where
  -- The cache after some calls, and whether one of them had success.
  unfoldable pub run : List (LockOp Text) → MemoryCache Text → MemoryCache Text × Bool
  run [] m = (m, false)
  run (acquire now value ttl ∷ ops) m =
      let (m', r) = try_lock go now m key value ttl in
      let (rest, won) = run ops m' in (rest, elim r [ ok b ↦ b || won | fail e ↦ won ])
  run (release value ∷ ops) m =
      let (m', r) = unlock go m key value in
      let (rest, won) = run ops m' in (rest, elim r [ none ↦ true | some e ↦ won ])

  -- the calls of other clients up to a time: none of them knows the value
  unfoldable pub Others : Text → ℕ → List (LockOp Text) → Type 0
  Others v until [] = Unit
  Others v until (acquire now value ttl ∷ ops) = (now ≤ until) × Others v until ops
  Others v until (release value ∷ ops) = (value ≢ v) × Others v until ops

  pub try_lock-held :
      (now : ℕ) (m : MemoryCache Text) (item : Item Text) (value : Text) (ttl : ℤ)
      → lookup go m key ≡ some item
      → is_expired now item ≡ false
      → try_lock go now m key value ttl ≡ (m, ok false)
  unfolding try_lock set_nx live
  try_lock-held now m item value ttl h k = ground arith

  pub unlock-other :
      (m : MemoryCache Text) (item : Item Text) (value : Text)
      → lookup go m key ≡ some item
      → value ≢ item.value
      → unlock go m key value ≡ (m, some err_lock_not_held)
  unfolding unlock
  unlock-other m item value h k = ground arith

  run-held :
      (ops : List (LockOp Text)) (m : MemoryCache Text) (item : Item Text) (until : ℕ)
      → lookup go m key ≡ some item
      → ((t : ℕ) → t ≤ until → is_expired t item ≡ false)
      → Others item.value until ops
      → run ops m ≡ (m, false)
  unfolding run Others
  run-held [] m item until h k o = refl
  run-held (acquire now value ttl ∷ ops) m item until h k (a, o) =
      ground
        (arith, try_lock-held now m item value ttl h (k now a), run-held ops m item until h k o)
  run-held (release value ∷ ops) m item until h k (a, o) =
      ground (arith, unlock-other m item value h a, run-held ops m item until h k o)

  pub lookup-delete : (m : MemoryCache Text) → lookup go (delete go m key) key ≡ none
  unfolding lookup delete
  lookup-delete m = get-remove_self go.same m.data_of key

  pub live-delete : (m : MemoryCache Text) (now : ℕ) → live go now (delete go m key) key ≡ none
  unfolding live
  live-delete m now = ground (arith, lookup-delete m)

  pub try_lock-free :
      (now : ℕ) (m : MemoryCache Text) (value : Text) (ttl : ℤ)
      → live go now m key ≡ none
      → try_lock go now m key value ttl ≡ (store go m key (new_item now value ttl), ok true)
  unfolding try_lock set_nx serialize
  try_lock-free now m value ttl h = ground (arith, h)

  -- a try that had success
  pub try_lock-won :
      (now : ℕ) (m m' : MemoryCache Text) (v : Text) (ttl : ℤ)
      → try_lock go now m key v ttl ≡ (m', ok true)
      → lookup go m' key ≡ some (new_item now v ttl)
  unfolding try_lock set_nx serialize
  try_lock-won now m m' v ttl h = ground (arith, lookup-store go m key (new_item now v ttl))

  pub unlock-own :
      (m : MemoryCache Text) (item : Item Text)
      → lookup go m key ≡ some item
      → unlock go m key item.value ≡ (delete go m key, none)
  unfolding unlock
  unlock-own m item h = ground arith

  -- After a `TryLock` with success, and until its time to live has passed, no call of another client
  -- has success, in whatever order they come, none of them changes the cache, and then the holder's
  -- `Unlock` removes the lock. The calls are `TryLock` and `Unlock` of this key with other values, and no
  -- other method of the cache is called in between.
  pub lock_exclusive :
      (now : ℕ) (m m' : MemoryCache Text) (v : Text) (ttl : ℕ) (ops : List (LockOp Text))
      → try_lock go now m key v (pos ttl) ≡ (m', ok true)
      → Others v (now + ttl) ops
      → (run ops m' ≡ (m', false)) × (unlock go (run ops m').0 key v ≡ (delete go m' key, none))
  lock_exclusive now m m' v ttl ops h o =
      let item = new_item now v (pos ttl) in
      let won = try_lock-won now m m' v (pos ttl) h in
      let fresh : (t : ℕ) → t ≤ now + ttl → is_expired t item ≡ false =
        λ t l. new_item-fresh now v ttl t l in
      let e : item.value ≡ v = new_item-value now v (pos ttl) in
      let held : run ops m' ≡ (m', false) =
        run-held ops m' item (now + ttl) won fresh
          (subst (λ w. Others w (now + ttl) ops) (sym e) o) in
      (
        held,
        ap (λ (p : MemoryCache Text × Bool). unlock go p.0 key v) held
            ∙ subst (λ w. unlock go m' key w ≡ (delete go m' key, none)) e (unlock-own m' item won),
      )
