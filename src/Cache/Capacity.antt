-- ===== src/Cache/Capacity.antt =====
-- storage/cache: `MaxSize`, which `Set` keeps and `SetNX` does not.
use mathlib.Core.List.{Memᴰ}
use microservice_kit.Prelude.{
  ℕ, suc, ◌≤◌, ◌<◌, ◌≡◌, refl, sym, Bool-cases, inl, inr, Option-cases, none, some, List, [], ◌∷◌,
  length, arith, leb, get, put, remove, ap,
}
use microservice_kit.Prelude.Int.{ℤ}
use microservice_kit.Cache.{
  Go, IsLawful, Item, MemoryCache, Value, is_expired, new_item, first_expired, first_key, serialize,
  lookup, live, store, delete, evict_one, set, set_nx, size,
}

module _ {Text V : Type 0} (eq : Discrete Text) where
  length-put : (m : List (Text × V)) (k : Text) (v : V) → length (put eq m k v) ≤ suc (length m)
  unfolding put
  length-put [] k v = omega arith
  length-put ((j, w) ∷ m) k v = ground (arith, length-put m k v)

  length-put_new :
      (m : List (Text × V)) (k : Text) (v : V)
      → get eq m k ≡ none
      → length (put eq m k v) ≡ suc (length m)
  unfolding put get
  length-put_new [] k v h = refl
  length-put_new ((j, w) ∷ m) k v h = ground (arith, length-put_new m k v)

  length-remove : (m : List (Text × V)) (k : Text) → length (remove eq m k) ≤ length m
  unfolding remove
  length-remove [] k = omega arith
  length-remove ((j, w) ∷ m) k = ground (arith, length-remove m k)

  length-remove_Mem :
      (m : List (Text × V)) (k : Text) (v : V)
      → Memᴰ (k, v) m
      → suc (length (remove eq m k)) ≤ length m
  unfolding remove
  length-remove_Mem [] k v h = elim h [ ]
  length-remove_Mem ((j, w) ∷ m) k v (Memᴰ.head e) =
      let f : k ≡ j = ap (λ (p : Text × V). p.0) e in ground (arith, length-remove m k)
  length-remove_Mem ((j, w) ∷ m) k v (Memᴰ.tail h) =
      ground (arith, length-remove_Mem m k v h, length-remove m k)

module _ {Text Any : Type 0} (go : Go Text Any) where
  first_expired-Mem :
      (now : ℕ) (xs : List (Text × Item Text)) (k : Text)
      → first_expired now xs ≡ some k
      → (item : Item Text) × Memᴰ (k, item) xs
  unfolding first_expired
  first_expired-Mem now [] k h = absurd (ground arith)
  first_expired-Mem now ((j, i) ∷ xs) k h = elim (Bool-cases (is_expired now i)) [
    | inl e ↦ let f : j ≡ k = ground arith in (i, Memᴰ.head (ap (λ x. (x, i)) (sym f)))
    | inr e ↦ let (i', p) = first_expired-Mem now xs k (ground arith) in (i', Memᴰ.tail p)
  ]

  first_key-Mem :
      (xs : List (Text × Item Text)) (k : Text)
      → first_key xs ≡ some k
      → (item : Item Text) × Memᴰ (k, item) xs
  unfolding first_key
  first_key-Mem [] k h = absurd (ground arith)
  first_key-Mem ((j, i) ∷ xs) k h =
      let f : j ≡ k = ground arith in (i, Memᴰ.head (ap (λ x. (x, i)) (sym f)))

  first_key-none : (xs : List (Text × Item Text)) → first_key xs ≡ none → length xs ≡ 0
  unfolding first_key
  first_key-none [] h = refl
  first_key-none ((j, i) ∷ xs) h = ground arith

  -- an eviction makes a cache with an item smaller
  evict_one-size :
      (law : IsLawful go) (now : ℕ) (m : MemoryCache Text)
      → 0 < size go m
      → (size go (evict_one go now m) < size go m) × ((evict_one go now m).max_size ≡ m.max_size)
  unfolding size evict_one delete
  evict_one-size law now m h = elim (Option-cases (first_expired now (go.range m.data_of))) [
    | inr (k, e) ↦
        let (i, p) = first_expired-Mem now (go.range m.data_of) k e in
        let q = length-remove_Mem go.same m.data_of k i (law.range-Mem m.data_of (k, i) p) in
        (ground arith, ground arith)
    | inl e ↦ elim (Option-cases (first_key (go.range_again m.data_of))) [
      | inr (k, f) ↦
          let (i, p) = first_key-Mem (go.range_again m.data_of) k f in
          let q =
            length-remove_Mem go.same m.data_of k i (law.range_again-Mem m.data_of (k, i) p) in
          (ground arith, ground arith)
      | inl f ↦ absurd (
          omega (
            arith,
            h,
            law.length-range_again m.data_of,
            first_key-none (go.range_again m.data_of) f,
          ))
    ]
  ]

  -- `Set` keeps the number of items in its bound, whatever order the loops over the map take.
  pub set-size :
      (law : IsLawful go) (now : ℕ) (m : MemoryCache Text) (key : Text) (value : Value Text Any)
      (ttl : ℤ)
      → 0 < m.max_size
      → size go m ≤ m.max_size
      → size go (set go now m key value ttl).0 ≤ m.max_size
  unfolding set size store
  set-size law now m key value ttl h k = elim (Option-cases (serialize go value)) [
    | inl e ↦ ground arith
    | inr (v, e) ↦ elim (Bool-cases (leb m.max_size (length m.data_of))) [
      | inl f ↦
          let (q, r) = evict_one-size law now m (ground arith) in
          ground (arith, length-put go.same (evict_one go now m).data_of key (new_item now v ttl))
      | inr f ↦ ground (arith, length-put go.same m.data_of key (new_item now v ttl))
    ]
  ]

  -- `SetNX` of a key that is not in the cache adds an item, however many there are.
  pub set_nx-size :
      (now : ℕ) (m : MemoryCache Text) (key : Text) (value : Value Text Any) (ttl : ℤ) (v : Text)
      → lookup go m key ≡ none
      → serialize go value ≡ some v
      → size go (set_nx go now m key value ttl).0 ≡ suc (size go m)
  unfolding size set_nx live store lookup
  set_nx-size now m key value ttl v h k =
      ground (arith, length-put_new go.same m.data_of key (new_item now v ttl) h)
