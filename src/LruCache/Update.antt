-- ===== src/LruCache/Update.antt =====
-- util/collections/lrucache/lru_cache.go: `Put` on a key that the cache holds, which replaces the value of
-- its entry.
use microservice_kit.Prelude.{
  ◌≡◌, sym, ap, ◌∙◌, subst, false, some, [], ◌∷◌, arith, length, get, put, remove, get-put_self,
  get-put_ne,
}
use microservice_kit.LruCache.{Address, Heap, LruCache, set_value}
use microservice_kit.LruCache.Heap.{
  item_of, with_value, set_value-with_value, item_of-with_value, next_of-with_value,
  prev_of-with_value,
}
use microservice_kit.LruCache.Keys.{put-HasDistinctKeys}
use microservice_kit.LruCache.Chain.{
  Cell, Cells, cell, has, Chain, done, link, frame, start-Chain, has_of_get, item-Chain,
}
use microservice_kit.LruCache.Valid.{IsValid}

module _ {K V : Type 0} (eq : Discrete K) where
  put_first :
      (k' k : K) (c d : Cell V) (xs : Cells K V) → k' ≡ k → put eq ((k', c) ∷ xs) k d ≡ (k', d) ∷ xs
  unfolding put
  put_first k' k c d xs same = ground arith

  put_other :
      (k' k : K) (c d : Cell V) (xs : Cells K V)
      → ¬ (k' ≡ k)
      → put eq ((k', c) ∷ xs) k d ≡ (k', c) ∷ put eq xs k d
  unfolding put
  put_other k' k c d xs other = ground arith

  has-put :
      (x : Address) (xs : Cells K V) (k : K) (e : Address) (v w : V)
      → get eq xs k ≡ some (cell e w)
      → has x (put eq xs k (cell e v)) ≡ has x xs
  unfolding get put
  has-put x [] k e v w f = cc
  has-put x ((k', c) ∷ xs) k e v w f = ground (arith, has-put x xs k e v w)

  length-put :
      (xs : Cells K V) (k : K) (c d : Cell V)
      → get eq xs k ≡ some c
      → length (put eq xs k d) ≡ length xs
  unfolding get put
  length-put [] k c d f = cc
  length-put ((k', c') ∷ xs) k c d f = ground (arith, length-put xs k c d)

  pub remove-put :
      (xs : Cells K V) (k : K) (c : Cell V) → remove eq (put eq xs k c) k ≡ remove eq xs k
  unfolding put remove
  remove-put [] k c = ground arith
  remove-put ((k', c') ∷ xs) k c = ground (arith, remove-put xs k c)

  Chain-with_value :
      {h : Heap K V} {stop p : Address} {xs : Cells K V} (e : Address) (v : V) (k : K) (w : V)
      → Chain h stop p xs
      → item_of h e ≡ some (k, w)
      → has e xs ≡ false
      → Chain (with_value h e v) stop p xs
  Chain-with_value {h} e v k w s i out =
      frame s (λ x f. next_of-with_value h e v x) (λ x f. prev_of-with_value h e v x)
        (λ x f. ground (arith, item_of-with_value h e v x k w i))

  Chain-put :
      {h : Heap K V} {stop start : Address} {xs : Cells K V} (k : K) (e : Address) (v w : V)
      → Chain h stop start xs
      → get eq xs k ≡ some (cell e w)
      → Chain (with_value h e v) stop start (put eq xs k (cell e v))
  unfolding get
  Chain-put k e v w (done n p ne) f = cc
  Chain-put {h} {stop} {start} k e v w (link {q} {k = k'} {v = v'} {xs} n p i ne out s) f =
      elim (eq k' k) [
        | yes same ↦
            let hit : q ≡ e = ground arith in
            subst (λ ys. Chain (with_value h e v) stop start ys)
              (sym (
                put_first k' k (cell q v') (cell e v) xs same
                ∙ ap (λ a. (k', cell a v) ∷ xs) (sym hit)))
              (link (next_of-with_value h e v start ∙ n) (prev_of-with_value h e v q ∙ p)
                (ground (arith, item_of-with_value h e v q k' v' (ground arith))) ne (ground arith)
                (Chain-with_value e v k' v' s (ground arith) (ground (arith, start-Chain s))))
        | no other ↦
            let e_xs = has_of_get eq xs k e w (ground arith) in
            subst (λ ys. Chain (with_value h e v) stop start ys)
              (sym (put_other k' k (cell q v') (cell e v) xs other))
              (link (next_of-with_value h e v start ∙ n) (prev_of-with_value h e v q ∙ p)
                (ground (
                  arith,
                  item_of-with_value h e v q k w (item-Chain eq k e w s (ground arith)),
                  start-Chain s,
                ))
                ne (ground (arith, has-put start xs k e v w)) (Chain-put k e v w s (ground arith)))
      ]

  -- the cache behind `e.value = value`
  pub put-IsValid :
      (c : LruCache K V) (xs : Cells K V) (k : K) (e : Address) (v w : V)
      → IsValid eq c xs
      → get eq xs k ≡ some (cell e w)
      → (set_value c.heap e v ≡ some (with_value c.heap e v))
        × IsValid eq (record c { heap = with_value c.heap e v }) (put eq xs k (cell e v))
  put-IsValid c xs k e v w valid f = (
    set_value-with_value c.heap e v k w (item-Chain eq k e w valid.chain f),
    record {
      chain = Chain-put k e v w valid.chain f;
      distinct = put-HasDistinctKeys eq xs k (cell e v) valid.distinct;
      cache_distinct = valid.cache_distinct;
      index = λ j. elim (eq k j) [
        | yes same ↦ ground (arith, valid.index j, valid.index k, get-put_self eq xs k (cell e v))
        | no other ↦ ground (arith, valid.index j, get-put_ne eq xs k j (cell e v) other)
      ];
      size = ground (arith, valid.size, length-put xs k (cell e w) (cell e v) f);
      fresh = λ x g. ground (arith, valid.fresh x g, has-put x xs k e v w f);
      head_old = valid.head_old;
      tail_old = valid.tail_old;
      positive = valid.positive;
    },
  )
