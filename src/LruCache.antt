-- ===== src/LruCache.antt =====
-- util/collections/lrucache/lru_cache.go: a hash map over a doubly linked list in the order of use.
-- The nodes stand in a heap of entries at addresses, `head` and `tail` are the addresses of the two
-- sentinels, and a dereference of nil, which panics, has the result `none`. An operation runs under the
-- cache's mutex and is one step. A loop over the list runs on fuel, since it ends only on a list that
-- reaches `tail`.
mod Heap
mod Links
mod Spec
mod Keys
mod Chain
mod Unlink
mod Calls
mod Valid
mod Update
mod Evict
mod Walk
pub mod Refines
pub mod Runs
pub mod Recent
mod Tests
use microservice_kit.Prelude.{
  ℕ, zero, suc, ◌+◌, ◌≡◌, Bool, true, false, not, Option, none, some, List, [], ◌∷◌, length, ltb,
  leb, ◌==◌, if◌then◌else◌, get, put, remove,
}
use microservice_kit.Prelude.Int.{ℤ, pos, ltb_ℤ, pos_part}

abbrev pub Address : Type 0
Address = ℕ

-- Go's nil
abbrev pub nil : Address
nil = 0

pub record Entry (K V : Type 0) : Type 0 where
  pub key : K
  pub value : V
  pub prev : Address
  pub next : Address

abbrev pub Heap : Type 0 → Type 0 → Type 0
Heap K V = Address → Option (Entry K V)

pub record LruCache (K V : Type 0) : Type 0 where
  pub capacity : ℕ
  pub cache : List (K × Address)
  pub head : Address
  pub tail : Address
  pub heap : Heap K V
  pub next_address : Address

infixl 5 ◌>>=◌
abbrev pub ◌>>=◌ : {A B : Type 0} → Option A → (A → Option B) → Option B
none >>= f = none
some a >>= f = f a

-- a capacity that is not positive counts as 1
unfoldable pub at_least_one : ℤ → ℕ
at_least_one capacity = if ltb_ℤ (pos 0) capacity then pos_part capacity else 1

module _ {K V : Type 0} where
  unfoldable pub write : Heap K V → Address → Option (Entry K V) → Heap K V
  write h p e a = if a == p then e else h a

  -- `p.next = q`
  unfoldable pub set_next : Heap K V → Address → Address → Option (Heap K V)
  set_next h p q = do e ← h p; some (write h p (some (record e { next = q })))

  -- `p.prev = q`
  unfoldable pub set_prev : Heap K V → Address → Address → Option (Heap K V)
  set_prev h p q = do e ← h p; some (write h p (some (record e { prev = q })))

  -- `p.value = value`
  unfoldable pub set_value : Heap K V → Address → V → Option (Heap K V)
  set_value h p v = do e ← h p; some (write h p (some (record e { value = v })))

  -- `addToFront`
  unfoldable pub add_to_front : Address → Heap K V → Address → Option (Heap K V)
  add_to_front head h e = do
    h₁ ← set_prev h e head
    at_head ← h₁ head
    h₂ ← set_next h₁ e at_head.next
    at_head₂ ← h₂ head
    h₃ ← set_prev h₂ at_head₂.next e
    set_next h₃ head e

  -- `removeEntry`
  unfoldable pub remove_entry : Heap K V → Address → Option (Heap K V)
  remove_entry h e = do
    at_e ← h e
    h₁ ← set_next h at_e.prev at_e.next
    at_e₁ ← h₁ e
    set_prev h₁ at_e₁.next at_e₁.prev

  -- `moveToFront`
  unfoldable pub move_to_front : Address → Heap K V → Address → Option (Heap K V)
  move_to_front head h e = do h₁ ← remove_entry h e; add_to_front head h₁ e

  -- the sentinels that `New` makes
  unfoldable pub sentinels : K → V → Heap K V
  sentinels k v a =
      if a == 1
      then some (record { key = k; value = v; prev = nil; next = 2 })
      else if a == 2
      then some (record { key = k; value = v; prev = 1; next = nil })
      else none

  -- `New`; the first two arguments are the zero values of the types
  unfoldable pub new : K → V → ℤ → LruCache K V
  new k v capacity = record {
    capacity = at_least_one capacity;
    cache = [];
    head = 1;
    tail = 2;
    heap = sentinels k v;
    next_address = 3;
  }

  -- `Len`
  unfoldable pub len : LruCache K V → ℕ
  len c = length c.cache

  -- `Clear`
  unfoldable pub clear : LruCache K V → Option (LruCache K V)
  clear c = do
    h₁ ← set_next c.heap c.head c.tail
    h₂ ← set_prev h₁ c.tail c.head
    some (record c { cache = []; heap = h₂ })

  -- the loop of `Keys`
  unfoldable pub keys_from : ℕ → LruCache K V → Address → Option (List K)
  keys_from zero c e = none
  keys_from (suc fuel) c e =
      let rest = λ (at_e : Entry K V). keys_from fuel c at_e.next in
      if e == c.tail then some [] else do at_e ← c.heap e; ks ← rest at_e; some (at_e.key ∷ ks)

  -- `Keys`
  unfoldable pub keys : ℕ → LruCache K V → Option (List K)
  keys fuel c = do at_head ← c.heap c.head; keys_from fuel c at_head.next

module _ {K V : Type 0} (eq : Discrete K) where
  -- `Get`
  unfoldable pub get_value : LruCache K V → K → Option (LruCache K V × Option V)
  get_value c key = elim (get eq c.cache key) [
    | none ↦ some (c, none)
    | some e ↦ do
      h ← move_to_front c.head c.heap e
      at_e ← h e
      some (record c { heap = h }, some at_e.value)
  ]

  -- `removeLast`
  unfoldable pub remove_last : LruCache K V → Option (LruCache K V)
  remove_last c = do
    at_tail ← c.heap c.tail
    if at_tail.prev == c.head then some c else do
      h ← remove_entry c.heap at_tail.prev
      last ← h at_tail.prev
      some (record c { heap = h; cache = remove eq c.cache last.key })

  -- the test for a full cache, with the eviction
  unfoldable pub make_room : LruCache K V → Option (LruCache K V)
  make_room c = if leb c.capacity (len c) then remove_last c else some c

  -- the end of `Put` and of `GetOrPut`: a new entry
  unfoldable pub add_entry : LruCache K V → K → V → Option (LruCache K V)
  add_entry c key value =
      let entry : Option (Entry K V) =
        some (record { key = key; value = value; prev = nil; next = nil }) in
      do
        h ← add_to_front c.head (write c.heap c.next_address entry) c.next_address
        some (record c {
          cache = put eq c.cache key c.next_address;
          heap = h;
          next_address = c.next_address + 1;
        })

  -- `Put`
  unfoldable pub put_value : LruCache K V → K → V → Option (LruCache K V)
  put_value c key value = elim (get eq c.cache key) [
    | some e ↦ do
      h₁ ← set_value c.heap e value
      h₂ ← move_to_front c.head h₁ e
      some (record c { heap = h₂ })
    | none ↦ do c₁ ← make_room c; add_entry c₁ key value
  ]

  -- `GetOrPut`; `loader` is a function that does not call the cache, whose mutex is held
  unfoldable pub get_or_put : LruCache K V → K → (Unit {0} → V) → Option (LruCache K V × V)
  get_or_put c key loader = elim (get eq c.cache key) [
    | some e ↦ do
      h ← move_to_front c.head c.heap e
      at_e ← h e
      some (record c { heap = h }, at_e.value)
    | none ↦
        let value = loader tt in do c₁ ← make_room c; c₂ ← add_entry c₁ key value; some (c₂, value)
  ]

  -- `Peek`
  unfoldable pub peek : LruCache K V → K → Option (Option V)
  peek c key = elim (get eq c.cache key) [
    | none ↦ some none
    | some e ↦ do at_e ← c.heap e; some (some at_e.value)
  ]

  -- `Contains`
  unfoldable pub contains : LruCache K V → K → Bool
  contains c key = elim (get eq c.cache key) [ none ↦ false | some _ ↦ true ]

  -- `Remove`
  unfoldable pub remove_key : LruCache K V → K → Option (LruCache K V × Bool)
  remove_key c key = elim (get eq c.cache key) [
    | none ↦ some (c, false)
    | some e ↦ do
      h ← remove_entry c.heap e
      some (record c { heap = h; cache = remove eq c.cache key }, true)
  ]

  -- the loop of `Resize`
  unfoldable pub evict : ℕ → LruCache K V → Option (LruCache K V)
  evict zero c = none
  evict (suc fuel) c =
      let rest = λ (c₁ : LruCache K V). evict fuel c₁ in
      if ltb c.capacity (len c) then (do c₁ ← remove_last c; rest c₁) else some c

  -- `Resize`
  unfoldable pub resize : ℕ → LruCache K V → ℤ → Option (LruCache K V)
  resize fuel c capacity = evict fuel (record c { capacity = at_least_one capacity })
