-- ===== src/LruCache/Heap.antt =====
-- util/collections/lrucache/lru_cache.go: what the writes to the heap change, and what they leave.
use microservice_kit.Prelude.{◌≡◌, refl, Option, none, some, arith, ◌==◌, if◌then◌else◌}
use microservice_kit.LruCache.{Address, Entry, Heap, write, set_next, set_prev, set_value}

module _ {K V : Type 0} where
  abbrev pub next_of : Heap K V → Address → Option Address
  next_of h p = elim (h p) [ none ↦ none | some e ↦ some e.next ]

  abbrev pub prev_of : Heap K V → Address → Option Address
  prev_of h p = elim (h p) [ none ↦ none | some e ↦ some e.prev ]

  abbrev pub item_of : Heap K V → Address → Option (K × V)
  item_of h p = elim (h p) [ none ↦ none | some e ↦ some (e.key, e.value) ]

  abbrev to_next : Option (Entry K V) → Address → Option (Entry K V)
  to_next none q = none
  to_next (some e) q = some (record e { next = q })

  abbrev to_prev : Option (Entry K V) → Address → Option (Entry K V)
  to_prev none q = none
  to_prev (some e) q = some (record e { prev = q })

  abbrev to_value : Option (Entry K V) → V → Option (Entry K V)
  to_value none v = none
  to_value (some e) v = some (record e { value = v })

  pub write-at :
      (h : Heap K V) (p : Address) (c : Option (Entry K V)) (x : Address)
      → write h p c x ≡ (if x == p then c else h x)
  unfolding write
  write-at h p c x = refl

  -- the heap with one field of one entry replaced
  unfoldable pub with_next : Heap K V → Address → Address → Heap K V
  with_next h p q = write h p (to_next (h p) q)

  unfoldable pub with_prev : Heap K V → Address → Address → Heap K V
  with_prev h p q = write h p (to_prev (h p) q)

  unfoldable pub with_value : Heap K V → Address → V → Heap K V
  with_value h p v = write h p (to_value (h p) v)

  module _ (h : Heap K V) (p q : Address) where
    pub set_next-with_next :
        (r : Address) → next_of h p ≡ some r → set_next h p q ≡ some (with_next h p q)
    unfolding set_next with_next
    set_next-with_next r e = ground arith

    pub set_prev-with_prev :
        (r : Address) → prev_of h p ≡ some r → set_prev h p q ≡ some (with_prev h p q)
    unfolding set_prev with_prev
    set_prev-with_prev r e = ground arith

    pub next_of-with_next :
        (x r : Address)
        → next_of h p ≡ some r
        → next_of (with_next h p q) x ≡ (if x == p then some q else next_of h x)
    unfolding with_next
    next_of-with_next x r e = ground (arith, write-at h p (to_next (h p) q) x)

    pub prev_of-with_prev :
        (x r : Address)
        → prev_of h p ≡ some r
        → prev_of (with_prev h p q) x ≡ (if x == p then some q else prev_of h x)
    unfolding with_prev
    prev_of-with_prev x r e = ground (arith, write-at h p (to_prev (h p) q) x)

    module _ (x : Address) where
      pub prev_of-with_next : prev_of (with_next h p q) x ≡ prev_of h x
      unfolding with_next
      prev_of-with_next = ground (arith, write-at h p (to_next (h p) q) x)

      pub item_of-with_next : item_of (with_next h p q) x ≡ item_of h x
      unfolding with_next
      item_of-with_next = ground (arith, write-at h p (to_next (h p) q) x)

      pub next_of-with_prev : next_of (with_prev h p q) x ≡ next_of h x
      unfolding with_prev
      next_of-with_prev = ground (arith, write-at h p (to_prev (h p) q) x)

      pub item_of-with_prev : item_of (with_prev h p q) x ≡ item_of h x
      unfolding with_prev
      item_of-with_prev = ground (arith, write-at h p (to_prev (h p) q) x)

  module _ (h : Heap K V) (p : Address) (v : V) where
    pub set_value-with_value :
        (k : K) (w : V) → item_of h p ≡ some (k, w) → set_value h p v ≡ some (with_value h p v)
    unfolding set_value with_value
    set_value-with_value k w e = ground arith

    module _ (x : Address) where
      pub item_of-with_value :
          (k : K) (w : V)
          → item_of h p ≡ some (k, w)
          → item_of (with_value h p v) x ≡ (if x == p then some (k, v) else item_of h x)
      unfolding with_value
      item_of-with_value k w e = ground (arith, write-at h p (to_value (h p) v) x)

      pub next_of-with_value : next_of (with_value h p v) x ≡ next_of h x
      unfolding with_value
      next_of-with_value = ground (arith, write-at h p (to_value (h p) v) x)

      pub prev_of-with_value : prev_of (with_value h p v) x ≡ prev_of h x
      unfolding with_value
      prev_of-with_value = ground (arith, write-at h p (to_value (h p) v) x)
