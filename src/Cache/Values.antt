-- ===== src/Cache/Values.antt =====
-- storage/cache: `Set` and `Get`, and what can come between the two parts of `Get`.
use microservice_kit.Prelude.{
  ℕ, ◌+◌, ◌≡◌, ◌∙◌, true, false, ◌&&◌, none, some, length, arith, ltb, leb, if◌then◌else◌,
  get-put_self, get-remove_self,
}
use microservice_kit.Prelude.Int.{ℤ, pos, pos_part, ltb_ℤ}
use microservice_kit.Cache.{
  Go, Item, MemoryCache, Value, ok, fail, err_not_found, is_expired, new_item, serialize, lookup,
  store, delete, evict_one, set, read_item, finish_get, get_value,
}

module _ {Text Any : Type 0} (go : Go Text Any) where
  -- the cache that `Set` writes to
  abbrev pub room : ℕ → MemoryCache Text → MemoryCache Text
  room now m = if leb m.max_size (length m.data_of) then evict_one go now m else m

  pub set-stores :
      (now : ℕ) (m : MemoryCache Text) (key : Text) (value : Value Text Any) (ttl : ℤ) (v : Text)
      → serialize go value ≡ some v
      → set go now m key value ttl ≡ (store go (room now m) key (new_item now v ttl), none)
  unfolding set
  set-stores now m key value ttl v h = ground arith

  pub lookup-store :
      (m : MemoryCache Text) (key : Text) (item : Item Text)
      → lookup go (store go m key item) key ≡ some item
  unfolding lookup store
  lookup-store m key item = get-put_self go.same m.data_of key item

  get-store :
      (later : ℕ) (m : MemoryCache Text) (key : Text) (item : Item Text)
      → (get_value go later (store go m key item) key).1
        ≡ (if is_expired later item then fail err_not_found else ok item.value)
  unfolding get_value read_item finish_get
  get-store later m key item = ground (arith, lookup-store m key item)

  pub get_value-held :
      (now : ℕ) (m : MemoryCache Text) (key : Text) (item : Item Text)
      → lookup go m key ≡ some item
      → is_expired now item ≡ false
      → get_value go now m key ≡ (m, ok item.value)
  unfolding get_value read_item finish_get
  get_value-held now m key item h e = ground (arith, h, e)

  -- After a `Set` that can be serialised, in a full cache too, `Get` returns the value as long as its
  -- time to live has not passed, and for ever if it has none; then it returns that there is no value.
  pub get-set :
      (now later : ℕ) (m : MemoryCache Text) (key : Text) (value : Value Text Any) (ttl : ℤ)
      (v : Text)
      → serialize go value ≡ some v
      → (get_value go later (set go now m key value ttl).0 key).1
        ≡ (if ltb_ℤ (pos 0) ttl && ltb (now + pos_part ttl) later then fail err_not_found else ok v)
  unfolding new_item is_expired
  get-set now later m key value ttl v h =
      rw (set-stores now m key value ttl v h)
        (get-store later (room now m) key (new_item now v ttl) ∙ ground arith)

  -- `Get` lets the lock go between its two parts: if it has read an expired item, and a `Set` of the
  -- same key comes before it removes the item, then the new value is removed.
  pub get-loses_set :
      (now later : ℕ) (m : MemoryCache Text) (key : Text) (item : Item Text)
      (value : Value Text Any) (ttl : ℤ)
      → lookup go m key ≡ some item
      → is_expired now item ≡ true
      → lookup go
          (finish_get go (set go later m key value ttl).0 key (read_item go now m key)).0
          key
        ≡ none
  unfolding finish_get read_item delete lookup
  get-loses_set now later m key item value ttl h k =
      ground (arith, h, k, get-remove_self go.same (set go later m key value ttl).0.data_of key)
