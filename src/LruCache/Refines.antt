-- ===== src/LruCache/Refines.antt =====
-- util/collections/lrucache/lru_cache.go: the cache does what its specification says.
use microservice_kit.Prelude.{
  ℕ, ◌<◌, ◌≡◌, refl, inl, inr, none, some, [], ◌∷◌, arith, length, leb, take, if◌then◌else◌, get,
  put, remove, get-put_self, Option-cases,
}
use microservice_kit.Prelude.Int.{ℤ}
use microservice_kit.LruCache.{
  LruCache, get_value, peek, remove_key, contains, make_room, add_entry, put_value, get_or_put, len,
  clear, keys, resize, at_least_one,
}
use microservice_kit.LruCache.Heap.{with_value}
use microservice_kit.LruCache.Chain.{Cells, cell, item-Chain}
use microservice_kit.LruCache.Spec.{
  Call, get_call, peek_call, contains_call, remove_call, put_call, get_or_put_call, len_call,
  capacity_call, keys_call, clear_call, resize_call, but_last, answer, touch, admit,
}
use microservice_kit.LruCache.Calls.{
  call_cache, view, shown, take-view, length-view, but_last-view, get-view, remove-view,
}
use microservice_kit.LruCache.Evict.{evict-take, make_room-IsValid, get-but_last}
use microservice_kit.LruCache.Walk.{keys-keys_of, clear-IsValid}
use microservice_kit.LruCache.Update.{put-IsValid, remove-put}
use microservice_kit.LruCache.Valid.{
  IsValid, move_to_front-Chain, moved-IsValid, remove_entry-Chain, removed-IsValid, added-IsValid,
}

module _ {K V : Type 0} (eq : Discrete K) (fuel : ℕ) where
  -- a call ends, and what it returns and leaves is what the specification says of it
  abbrev pub Serves : Call K V → LruCache K V → Cells K V → Type 0
  Serves call c xs =
      (c' : LruCache K V) × (xs' : Cells K V) × (call_cache eq fuel call c
        ≡ some (c', (answer eq call (shown c xs)).1))
      × (shown c' xs' ≡ (answer eq call (shown c xs)).0)
      × IsValid eq c' xs'

  module _ (c : LruCache K V) (xs : Cells K V) (valid : IsValid eq c xs) where
    get-Serves : (k : K) → Serves (get_call k) c xs
    unfolding call_cache answer get_value touch view
    get-Serves k = elim (Option-cases (get eq xs k)) [
      | inl absent ↦ (
        c,
        xs,
        ground (arith, valid.index k, get-view eq xs k),
        ground (arith, get-view eq xs k),
        valid,
      )
      | inr (x, e) ↦
          let m =
            move_to_front-Chain eq c xs k x.address x.value valid e
              (item-Chain eq k x.address x.value valid.chain e) in
          (
            record c { heap = m.0 },
            (k, cell x.address x.value) ∷ remove eq xs k,
            ground (arith, valid.index k, get-view eq xs k, m.1, m.3),
            ground (arith, get-view eq xs k, remove-view eq xs k),
            moved-IsValid eq c xs k x.address x.value valid e x.value m.0 m.2,
          )
    ]

    peek-Serves : (k : K) → Serves (peek_call k) c xs
    unfolding call_cache answer peek
    peek-Serves k = elim (Option-cases (get eq xs k)) [
      | inl absent ↦ (c, xs, ground (arith, valid.index k, get-view eq xs k), refl, valid)
      | inr (x, e) ↦ (
        c,
        xs,
        ground (
          arith,
          valid.index k,
          get-view eq xs k,
          item-Chain eq k x.address x.value valid.chain e,
        ),
        refl,
        valid,
      )
    ]

    contains-Serves : (k : K) → Serves (contains_call k) c xs
    unfolding call_cache answer contains
    contains-Serves k = (c, xs, ground (arith, valid.index k, get-view eq xs k), refl, valid)

    remove-Serves : (k : K) → Serves (remove_call k) c xs
    unfolding call_cache answer remove_key
    remove-Serves k = elim (Option-cases (get eq xs k)) [
      | inl absent ↦ (
        c,
        xs,
        ground (arith, valid.index k, get-view eq xs k),
        ground (arith, get-view eq xs k),
        valid,
      )
      | inr (x, e) ↦
          let (h, ran, chain, _) = remove_entry-Chain eq c xs k x.address x.value valid e in
          (
            record c { heap = h; cache = remove eq c.cache k },
            remove eq xs k,
            ground (arith, valid.index k, get-view eq xs k),
            ground (arith, get-view eq xs k, remove-view eq xs k),
            removed-IsValid eq c xs k x.address x.value valid e h chain,
          )
    ]

    -- a new entry, with room made for it
    admitted :
        (k : K) (v : V)
        → get eq xs k ≡ none
        → (c₁ c₂ : LruCache K V) × (xs' : Cells K V) × (make_room eq c ≡ some c₁)
          × (add_entry eq c₁ k v ≡ some c₂)
          × (shown c₂ xs'
              ≡ record { capacity = c.capacity; items = admit eq c.capacity k v (view xs) })
          × IsValid eq c₂ xs'
    unfolding admit view
    admitted k v absent =
        let (c₁, made, same, valid₁) = make_room-IsValid eq c xs valid in
        let ys : Cells K V = if leb c.capacity (length xs) then but_last xs else xs in
        let (c₂, added, same₂, valid₂) =
          added-IsValid eq c₁ ys k v valid₁ (ground (arith, absent, get-but_last eq xs k)) in
        (
          c₁,
          c₂,
          (k, cell c₁.next_address v) ∷ ys,
          made,
          added,
          ground (arith, length-view xs, but_last-view xs),
          valid₂,
        )

    put-Serves : (k : K) (v : V) → Serves (put_call k v) c xs
    unfolding call_cache answer put_value touch view
    put-Serves k v = elim (Option-cases (get eq xs k)) [
      | inl absent ↦
          let (c₁, c₂, xs', made, added, same, valid') = admitted k v absent in
          (
            c₂,
            xs',
            ground (arith, valid.index k, get-view eq xs k),
            ground (arith, get-view eq xs k),
            valid',
          )
      | inr (x, e) ↦
          let p = x.address in
          let (set, valid₁) = put-IsValid eq c xs k p v x.value valid e in
          let c₁ : LruCache K V = record c { heap = with_value c.heap p v } in
          let ys : Cells K V = put eq xs k (cell p v) in
          let f : get eq ys k ≡ some (cell p v) = get-put_self eq xs k (cell p v) in
          let m =
            move_to_front-Chain eq c₁ ys k p v valid₁ f (item-Chain eq k p v valid₁.chain f) in
          (
            record c { heap = m.0 },
            (k, cell p v) ∷ remove eq ys k,
            ground (arith, valid.index k, get-view eq xs k, set, m.1),
            ground (arith, get-view eq xs k, remove-view eq xs k, remove-put eq xs k (cell p v)),
            moved-IsValid eq c₁ ys k p v valid₁ f v m.0 m.2,
          )
    ]

    get_or_put-Serves : (k : K) (loader : Unit {0} → V) → Serves (get_or_put_call k loader) c xs
    unfolding call_cache answer get_or_put touch view
    get_or_put-Serves k loader = elim (Option-cases (get eq xs k)) [
      | inl absent ↦
          let (c₁, c₂, xs', made, added, same, valid') = admitted k (loader tt) absent in
          (
            c₂,
            xs',
            ground (arith, valid.index k, get-view eq xs k),
            ground (arith, get-view eq xs k),
            valid',
          )
      | inr (x, e) ↦
          let m =
            move_to_front-Chain eq c xs k x.address x.value valid e
              (item-Chain eq k x.address x.value valid.chain e) in
          (
            record c { heap = m.0 },
            (k, cell x.address x.value) ∷ remove eq xs k,
            ground (arith, valid.index k, get-view eq xs k, m.1, m.3),
            ground (arith, get-view eq xs k, remove-view eq xs k),
            moved-IsValid eq c xs k x.address x.value valid e x.value m.0 m.2,
          )
    ]

    resized : (n : ℤ) → IsValid eq (record c { capacity = at_least_one n }) xs
    unfolding at_least_one
    resized n = record {
      chain = valid.chain;
      distinct = valid.distinct;
      cache_distinct = valid.cache_distinct;
      index = valid.index;
      size = valid.size;
      fresh = valid.fresh;
      head_old = valid.head_old;
      tail_old = valid.tail_old;
      positive = ground arith;
    }

    resize-Serves : (n : ℤ) → length xs < fuel → Serves (resize_call n) c xs
    unfolding call_cache answer resize at_least_one
    resize-Serves n h =
        let c₁ : LruCache K V = record c { capacity = at_least_one n } in
        let (c', ran, same, valid') = evict-take eq fuel c₁ xs (resized n) h in
        (
          c',
          take c₁.capacity xs,
          ground (arith, ran),
          ground (arith, take-view c₁.capacity xs),
          valid',
        )

    clear-Serves : Serves clear_call c xs
    unfolding call_cache answer clear view
    clear-Serves =
        let (c', ran, same, valid') = clear-IsValid eq c xs valid in
        (c', [], ground (arith, ran), ground (arith, same), valid')

    keys-Serves : length xs < fuel → Serves keys_call c xs
    unfolding call_cache answer keys
    keys-Serves h = (c, xs, ground (arith, keys-keys_of eq c xs valid fuel h), refl, valid)

    pub call-Serves : (call : Call K V) → length xs < fuel → Serves call c xs
    unfolding call_cache answer len
    call-Serves (get_call k) h = get-Serves k
    call-Serves (peek_call k) h = peek-Serves k
    call-Serves (contains_call k) h = contains-Serves k
    call-Serves (remove_call k) h = remove-Serves k
    call-Serves (put_call k v) h = put-Serves k v
    call-Serves (get_or_put_call k loader) h = get_or_put-Serves k loader
    call-Serves len_call h = (c, xs, ground (arith, valid.size, length-view xs), refl, valid)
    call-Serves capacity_call h = (c, xs, refl, refl, valid)
    call-Serves keys_call h = keys-Serves h
    call-Serves clear_call h = clear-Serves
    call-Serves (resize_call n) h = resize-Serves n h
