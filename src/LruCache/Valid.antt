-- ===== src/LruCache/Valid.antt =====
-- util/collections/lrucache/lru_cache.go: the invariant that ties the map, the heap and the list
-- together, and what `removeEntry`, `moveToFront` and `addToFront` make of a cache that has it.
use microservice_kit.Prelude.{
  ◌+◌, ◌≤◌, ◌<◌, ◌≡◌, refl, false, Option, none, some, ◌∷◌, arith, length, ◌==◌, get, put, remove,
  get-put_self, get-put_ne, get-remove_self, get-remove_ne,
}
use microservice_kit.LruCache.{
  Address, nil, Entry, Heap, LruCache, write, remove_entry, move_to_front, add_entry,
}
use microservice_kit.LruCache.Heap.{write-at, next_of, prev_of, item_of}
use microservice_kit.LruCache.Links.{
  unlinked, linked, remove_entry-unlinked, add_to_front-linked, next_of-unlinked, prev_of-unlinked,
  item_of-unlinked, item_of-linked,
}
use microservice_kit.LruCache.Keys.{
  HasDistinctKeys, length-remove, length-put_absent, remove-HasDistinctKeys, put-HasDistinctKeys,
}
use microservice_kit.LruCache.Chain.{
  Cell, Cells, cell, has, Chain, next-Chain, head-Chain, Chain-linked, Chain-write, has-remove,
  has_of_get,
}
use microservice_kit.LruCache.Unlink.{Chain-unlinked, Around}

abbrev pub address_of : {V : Type 0} → Option (Cell V) → Option Address
address_of none = none
address_of (some c) = some c.address

module _ {K V : Type 0} (eq : Discrete K) where
  moved :
      (h : Heap K V) {stop head : Address} {xs : Cells K V} (k : K) (e : Address) (v : V)
      (a b d : Address) (r : Around eq h stop head xs k e a b)
      → next_of (unlinked h a b) head ≡ some d
      → item_of h e ≡ some (k, v)
      → (move_to_front head h e ≡ some (linked (unlinked h a b) head e d))
        × Chain (linked (unlinked h a b) head e d) stop head ((k, cell e v) ∷ remove eq xs k)
        × (item_of (linked (unlinked h a b) head e d) e ≡ some (k, v))
  unfolding move_to_front
  moved h {head} {xs} k e v a b d r nd item =
      let g : Heap K V = unlinked h a b in
      let first = head-Chain r.chain nd in
      let prev_e : prev_of g e ≡ some a =
        ground (arith, r.prev_at, r.ne_next, prev_of-unlinked h a b e e r.prev_behind) in
      let next_e : next_of g e ≡ some b =
        ground (arith, r.next_at, r.ne, next_of-unlinked h a b e e r.next_before) in
      let item_e : item_of g e ≡ some (k, v) = ground (arith, item_of-unlinked h a b e) in
      let e_d : (e == d) ≡ false = ground (arith, first.1, r.ne_stop, r.out) in
      (
        rw (remove_entry-unlinked h e a b r.prev_at r.next_at r.next_before r.prev_behind r.ne)
            (add_to_front-linked g head e d head a b nd first.0 prev_e next_e r.ne_start e_d),
        Chain-linked k v e d a b r.chain nd prev_e next_e item_e r.ne_start r.ne_stop r.out,
        ground (arith, item_of-linked g head e d e),
      )

  -- the cells `xs` are the entries of the cache in the order of the list
  pub record IsValid (c : LruCache K V) (xs : Cells K V) : Type 0 where
    pub chain : Chain c.heap c.tail c.head xs
    pub distinct : HasDistinctKeys eq xs
    pub cache_distinct : HasDistinctKeys eq c.cache
    pub index : (k : K) → get eq c.cache k ≡ address_of (get eq xs k)
    pub size : length c.cache ≡ length xs
    pub fresh : (x : Address) → c.next_address ≤ x → has x xs ≡ false
    pub head_old : c.head < c.next_address
    pub tail_old : c.tail < c.next_address
    pub positive : 0 < c.capacity

  module _ (c : LruCache K V) (xs : Cells K V) (k : K) (e : Address) (v : V) (valid : IsValid c xs)
      (found : get eq xs k ≡ some (cell e v)) where
    -- `removeEntry` on the entry of a key that the cache holds
    pub remove_entry-Chain :
        (h : Heap K V) × (remove_entry c.heap e ≡ some h)
        × Chain h c.tail c.head (remove eq xs k)
        × ((x : Address) → item_of h x ≡ item_of c.heap x)
    remove_entry-Chain =
        let (a, b, r) = Chain-unlinked eq k e v valid.chain valid.distinct found in
        (
          unlinked c.heap a b,
          remove_entry-unlinked c.heap e a b r.prev_at r.next_at r.next_before r.prev_behind r.ne,
          r.chain,
          λ x. item_of-unlinked c.heap a b x,
        )

    -- `moveToFront` on it
    pub move_to_front-Chain :
        item_of c.heap e ≡ some (k, v)
        → (h : Heap K V) × (move_to_front c.head c.heap e ≡ some h)
          × Chain h c.tail c.head ((k, cell e v) ∷ remove eq xs k)
          × (item_of h e ≡ some (k, v))
    unfolding move_to_front
    move_to_front-Chain item =
        let (a, b, r) = Chain-unlinked eq k e v valid.chain valid.distinct found in
        let (d, nd) = next-Chain r.chain in
        let m = moved c.heap k e v a b d r nd item in
        (linked (unlinked c.heap a b) c.head e d, m.0, m.1, m.2)

    -- the cache behind it
    pub moved-IsValid :
        (w : V) (h : Heap K V)
        → Chain h c.tail c.head ((k, cell e w) ∷ remove eq xs k)
        → IsValid (record c { heap = h }) ((k, cell e w) ∷ remove eq xs k)
    unfolding get HasDistinctKeys
    moved-IsValid w h s = record {
      chain = s;
      distinct = (get-remove_self eq xs k, remove-HasDistinctKeys eq xs k valid.distinct);
      cache_distinct = valid.cache_distinct;
      index = λ j. elim (eq k j) [
        | yes same ↦ ground (arith, valid.index j)
        | no other ↦ ground (arith, valid.index j, get-remove_ne eq xs k j other)
      ];
      size = ground (arith, valid.size, length-remove eq xs k (cell e v) valid.distinct found);
      fresh = λ x f. ground (arith, valid.fresh x f, has-remove eq x xs k, has_of_get eq xs k e v);
      head_old = valid.head_old;
      tail_old = valid.tail_old;
      positive = valid.positive;
    }

    -- the cache without the entry of the key
    pub removed-IsValid :
        (h : Heap K V)
        → Chain h c.tail c.head (remove eq xs k)
        → IsValid (record c { heap = h; cache = remove eq c.cache k }) (remove eq xs k)
    removed-IsValid h s = record {
      chain = s;
      distinct = remove-HasDistinctKeys eq xs k valid.distinct;
      cache_distinct = remove-HasDistinctKeys eq c.cache k valid.cache_distinct;
      index = λ j. elim (eq k j) [
        | yes same ↦ ground (arith, get-remove_self eq c.cache k, get-remove_self eq xs k)
        | no other ↦ ground (
          arith,
          valid.index j,
          get-remove_ne eq xs k j other,
          get-remove_ne eq c.cache k j other,
        )
      ];
      size = ground (
        arith,
        valid.size,
        valid.index k,
        length-remove eq xs k (cell e v) valid.distinct found,
        length-remove eq c.cache k e valid.cache_distinct,
      );
      fresh = λ x f. ground (arith, valid.fresh x f, has-remove eq x xs k);
      head_old = valid.head_old;
      tail_old = valid.tail_old;
      positive = valid.positive;
    }

  -- `addToFront` on a new entry, and the cache behind it
  pub added-IsValid :
      (c : LruCache K V) (xs : Cells K V) (k : K) (v : V)
      → IsValid c xs
      → get eq xs k ≡ none
      → (c' : LruCache K V) × (add_entry eq c k v ≡ some c')
        × (c'.capacity ≡ c.capacity)
        × IsValid c' ((k, cell c.next_address v) ∷ xs)
  unfolding add_entry get HasDistinctKeys
  added-IsValid c xs k v valid absent =
      let e = c.next_address in
      let entry : Option (Entry K V) =
        some (record { key = k; value = v; prev = nil; next = nil }) in
      let g : Heap K V = write c.heap e entry in
      let old : Chain g c.tail c.head xs =
        Chain-write e entry valid.chain (ground (arith, valid.head_old))
          (ground (arith, valid.tail_old)) (valid.fresh e (omega arith)) in
      let made : g e ≡ entry = ground (arith, write-at c.heap e entry e) in
      let prev_e : prev_of g e ≡ some nil = ground (arith, made) in
      let next_e : next_of g e ≡ some nil = ground (arith, made) in
      let item_e : item_of g e ≡ some (k, v) = ground (arith, made) in
      let (b, nb) = next-Chain old in
      let first = head-Chain old nb in
      let e_head : (e == c.head) ≡ false = ground (arith, valid.head_old) in
      let e_tail : (e == c.tail) ≡ false = ground (arith, valid.tail_old) in
      let e_b : (e == b) ≡ false = ground (arith, valid.fresh b, first.1, valid.tail_old) in
      (
        record c { cache = put eq c.cache k e; heap = linked g c.head e b; next_address = e + 1 },
        rw (add_to_front-linked g c.head e b c.head nil nil nb first.0 prev_e next_e e_head e_b)
            refl,
        refl,
        record {
          chain =
              Chain-linked k v e b nil nil old nb prev_e next_e item_e e_head e_tail
                (valid.fresh e (omega arith));
          distinct = (absent, valid.distinct);
          cache_distinct = put-HasDistinctKeys eq c.cache k e valid.cache_distinct;
          index = λ j. elim (eq k j) [
            | yes same ↦ ground (arith, get-put_self eq c.cache k e)
            | no other ↦ ground (arith, valid.index j, get-put_ne eq c.cache k j e other)
          ];
          size = ground (arith, valid.size, valid.index k, length-put_absent eq c.cache k e);
          fresh = λ x f. ground (arith, valid.fresh x);
          head_old = ground (arith, valid.head_old);
          tail_old = ground (arith, valid.tail_old);
          positive = valid.positive;
        },
      )
