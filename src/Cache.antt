-- ===== src/Cache.antt =====
-- storage/cache/memory.go: the cache in memory. `data` is a Go map (Prelude/Maps). Every operation takes
-- the time of its call, in nanoseconds, as `time.Now()` gives it. The mutex makes an operation one step;
-- `Get` and `Exists` let it go between the reading and the removal of an expired item, and have two.
pub mod Values
pub mod Locks
pub mod Counters
mod Capacity
pub mod Tests
use mathlib.Core.List.{Memᴰ}
use microservice_kit.Prelude.{
  ℕ, ◌+◌, ◌≡◌, Bool, true, false, Option, none, some, List, [], ◌∷◌, length, ltb, leb,
  if◌then◌else◌, get, put, remove,
}
use microservice_kit.Prelude.Int.{ℤ, pos, negsuc, pos_part, ◌+ℤ◌, ◌-ℤ◌, ltb_ℤ, wrap64}

-- `cacheItem`; `expire_at` is 0 where the code leaves Go's zero time
pub record Item (Text : Type 0) : Type 0 where
  pub value : Text
  pub expire_at : ℕ
  pub no_expire : Bool

pub record MemoryCache (Text : Type 0) : Type 0 where
  pub data_of : List (Text × Item Text)
  pub max_size : ℕ

-- the values that `serialize` tells apart; the bytes of a `[]byte` are those of a string
pub data Value (Text Any : Type 0) : Type 0 where
  text : Text → Value Text Any
  bytes : Text → Value Text Any
  other : Any → Value Text Any

pub data CacheError : Type 0 where
  err_not_found err_not_integer err_lock_not_held err_serialize : CacheError

pub data Result (A : Type 0) : Type 0 where
  ok : A → Result A
  fail : CacheError → Result A

-- What the code takes from Go: the equality of strings, json.Marshal, the scan of an integer,
-- `Sprintf("%d")`, the empty string, and the orders of the two loops over a map in `evictOne`.
pub record Go (Text Any : Type 0) : Type 1 where
  pub same : Discrete Text
  pub marshal : Any → Option Text
  pub scan_int : Text → Option ℤ
  pub print_int : ℤ → Text
  pub empty : Text
  pub range : List (Text × Item Text) → List (Text × Item Text)
  pub range_again : List (Text × Item Text) → List (Text × Item Text)

-- A loop over a map visits each of its pairs, and nothing else; a printed integer can be read again.
pub record IsLawful {Text Any : Type 0} (go : Go Text Any) : Type 0 where
  pub range-Mem :
      (m : List (Text × Item Text)) (p : Text × Item Text) → Memᴰ p (go.range m) → Memᴰ p m
  pub range_again-Mem :
      (m : List (Text × Item Text)) (p : Text × Item Text) → Memᴰ p (go.range_again m) → Memᴰ p m
  pub length-range_again : (m : List (Text × Item Text)) → length (go.range_again m) ≡ length m
  pub scan_int-print_int : (n : ℤ) → go.scan_int (go.print_int n) ≡ some n

module _ {Text : Type 0} where
  pub is_expired : ℕ → Item Text → Bool
  is_expired now item = if item.no_expire then false else ltb item.expire_at now

  -- an item for `Set`, `SetNX` and `MSet`
  pub new_item : ℕ → Text → ℤ → Item Text
  new_item now value ttl =
      if ltb_ℤ (pos 0) ttl
      then record { value = value; expire_at = now + pos_part ttl; no_expire = false }
      else record { value = value; expire_at = 0; no_expire = true }

  pub first_expired : ℕ → List (Text × Item Text) → Option Text
  first_expired now [] = none
  first_expired now ((key, item) ∷ rest) =
      if is_expired now item then some key else first_expired now rest

  pub first_key : List (Text × Item Text) → Option Text
  first_key [] = none
  first_key ((key, item) ∷ rest) = some key

module _ {Text Any : Type 0} (go : Go Text Any) where
  pub new_memory_cache : ℕ → MemoryCache Text
  new_memory_cache max_size = record { data_of = []; max_size = max_size }

  pub serialize : Value Text Any → Option Text
  serialize (text v) = some v
  serialize (bytes v) = some v
  serialize (other v) = go.marshal v

  pub lookup : MemoryCache Text → Text → Option (Item Text)
  lookup m key = get go.same m.data_of key

  pub delete : MemoryCache Text → Text → MemoryCache Text
  delete m key = record m { data_of = remove go.same m.data_of key }

  pub store : MemoryCache Text → Text → Item Text → MemoryCache Text
  store m key item = record m { data_of = put go.same m.data_of key item }

  pub cleanup_all : ℕ → List (Text × Item Text) → MemoryCache Text → MemoryCache Text
  cleanup_all now [] m = m
  cleanup_all now ((key, item) ∷ rest) m =
      cleanup_all now rest (if is_expired now item then delete m key else m)

  pub cleanup : ℕ → MemoryCache Text → MemoryCache Text
  cleanup now m = cleanup_all now (go.range m.data_of) m

  pub evict_one : ℕ → MemoryCache Text → MemoryCache Text
  evict_one now m = elim (first_expired now (go.range m.data_of)) [
    | some key ↦ delete m key
    | none ↦ elim (first_key (go.range_again m.data_of)) [ none ↦ m | some key ↦ delete m key ]
  ]

  pub set : ℕ → MemoryCache Text → Text → Value Text Any → ℤ → MemoryCache Text × Option CacheError
  set now m key value ttl = elim (serialize value) [
    | none ↦ (m, some err_serialize)
    | some v ↦ (
      store (if leb m.max_size (length m.data_of) then evict_one now m else m) key
          (new_item now v ttl),
      none,
    )
  ]

  -- the first part of `Get` and `Exists`, under the read lock: the item, and whether it has expired
  pub read_item : ℕ → MemoryCache Text → Text → Option (Item Text × Bool)
  read_item now m key = elim (lookup m key) [
    | none ↦ none
    | some item ↦ some (item, is_expired now item)
  ]

  -- the rest of `Get`, from what was read
  pub finish_get :
      MemoryCache Text → Text → Option (Item Text × Bool) → MemoryCache Text × Result Text
  finish_get m key none = (m, fail err_not_found)
  finish_get m key (some (item, true)) = (delete m key, fail err_not_found)
  finish_get m key (some (item, false)) = (m, ok item.value)

  -- `Get`, when nothing comes between its two parts
  pub get_value : ℕ → MemoryCache Text → Text → MemoryCache Text × Result Text
  get_value now m key = finish_get m key (read_item now m key)

  pub del : MemoryCache Text → List Text → MemoryCache Text
  del m [] = m
  del m (key ∷ keys) = del (delete m key) keys

  pub finish_exists : MemoryCache Text → Text → Option (Item Text × Bool) → MemoryCache Text × Bool
  finish_exists m key none = (m, false)
  finish_exists m key (some (item, true)) = (delete m key, false)
  finish_exists m key (some (item, false)) = (m, true)

  pub exists : ℕ → MemoryCache Text → Text → MemoryCache Text × Bool
  exists now m key = finish_exists m key (read_item now m key)

  -- the item of a key, if it has not expired
  pub live : ℕ → MemoryCache Text → Text → Option (Item Text)
  live now m key = elim (lookup m key) [
    | none ↦ none
    | some item ↦ if is_expired now item then none else some item
  ]

  pub set_nx : ℕ → MemoryCache Text → Text → Value Text Any → ℤ → MemoryCache Text × Result Bool
  set_nx now m key value ttl = elim (live now m key) [
    | some item ↦ (m, ok false)
    | none ↦ elim (serialize value) [
      | none ↦ (m, fail err_serialize)
      | some v ↦ (store m key (new_item now v ttl), ok true)
    ]
  ]

  -- the count that `IncrementBy` starts from
  pub current : ℕ → MemoryCache Text → Text → Option ℤ
  current now m key = elim (live now m key) [
    | none ↦ some (pos 0)
    | some item ↦ go.scan_int item.value
  ]

  pub increment_by : ℕ → MemoryCache Text → Text → ℤ → MemoryCache Text × Result ℤ
  increment_by now m key value = elim (current now m key) [
    | none ↦ (m, fail err_not_integer)
    | some n ↦
        let sum = wrap64 (n +ℤ value) in
        (store m key (record { value = go.print_int sum; expire_at = 0; no_expire = true }), ok sum)
  ]

  pub increment : ℕ → MemoryCache Text → Text → MemoryCache Text × Result ℤ
  increment now m key = increment_by now m key (pos 1)

  pub decrement : ℕ → MemoryCache Text → Text → MemoryCache Text × Result ℤ
  decrement now m key = increment_by now m key (negsuc 0)

  -- the item changes in its place
  pub expire : ℕ → MemoryCache Text → Text → ℤ → MemoryCache Text × Option CacheError
  expire now m key ttl = elim (lookup m key) [
    | none ↦ (m, some err_not_found)
    | some item ↦ (
      store m key (
          if ltb_ℤ (pos 0) ttl
          then record item { expire_at = now + pos_part ttl; no_expire = false }
          else record item { no_expire = true }),
      none,
    )
  ]

  pub ttl_of : ℕ → MemoryCache Text → Text → ℤ
  ttl_of now m key = elim (lookup m key) [
    | none ↦ negsuc 1
    | some item ↦
        let ttl = pos item.expire_at -ℤ pos now in
        if item.no_expire then negsuc 0 else if ltb_ℤ ttl (pos 0) then negsuc 1 else ttl
  ]

  pub try_lock : ℕ → MemoryCache Text → Text → Text → ℤ → MemoryCache Text × Result Bool
  try_lock now m key value ttl = set_nx now m key (text value) ttl

  pub unlock : MemoryCache Text → Text → Text → MemoryCache Text × Option CacheError
  unlock m key value = elim (lookup m key) [
    | none ↦ (m, some err_lock_not_held)
    | some item ↦ elim (go.same item.value value) [
      | no _ ↦ (m, some err_lock_not_held)
      | yes _ ↦ (delete m key, none)
    ]
  ]

  pub m_get : ℕ → MemoryCache Text → List Text → List Text
  m_get now m [] = []
  m_get now m (key ∷ keys) =
      elim (live now m key) [ none ↦ go.empty | some item ↦ item.value ] ∷ m_get now m keys

  -- the pairs in the order of the loop over the map
  pub m_set :
      ℕ → MemoryCache Text → List (Text × Value Text Any) → ℤ → MemoryCache Text × Option CacheError
  m_set now m [] ttl = (m, none)
  m_set now m ((key, value) ∷ pairs) ttl = elim (serialize value) [
    | none ↦ (m, some err_serialize)
    | some v ↦ m_set now (store m key (new_item now v ttl)) pairs ttl
  ]

  pub size : MemoryCache Text → ℕ
  size m = length m.data_of
