-- ===== src/LruCache/Walk.antt =====
-- util/collections/lrucache/lru_cache.go: `Keys` and `Clear`, which work on the list as a whole.
use microservice_kit.Prelude.{ℕ, zero, suc, ◌<◌, ◌≡◌, refl, ◌∙◌, some, [], arith, length, get}
use microservice_kit.LruCache.{Address, Heap, LruCache, keys_from, keys, clear}
use microservice_kit.LruCache.Heap.{
  next_of, prev_of, with_next, with_prev, set_next-with_next, set_prev-with_prev, next_of-with_next,
  next_of-with_prev, prev_of-with_next, prev_of-with_prev,
}
use microservice_kit.LruCache.Chain.{Cells, Chain, done, link, next-Chain, start-Chain}
use microservice_kit.LruCache.Spec.{keys_of}
use microservice_kit.LruCache.Calls.{view}
use microservice_kit.LruCache.Keys.{HasDistinctKeys}
use microservice_kit.LruCache.Valid.{IsValid}

module _ {K V : Type 0} where
  keys_from-keys_of :
      (fuel : ℕ) (c : LruCache K V) {p : Address} {xs : Cells K V} (q : Address)
      → Chain c.heap c.tail p xs
      → next_of c.heap p ≡ some q
      → length xs < fuel
      → keys_from fuel c q ≡ some (keys_of (view xs))
  unfolding keys_from keys_of view
  keys_from-keys_of zero c q s e h = absurd (omega arith)
  keys_from-keys_of (suc fuel) c q (done n b ne) e h = ground arith
  keys_from-keys_of (suc fuel) c q (link {q = q'} {k} n b i ne out s) e h =
      let (r, nr) = next-Chain s in
      let rest = keys_from-keys_of fuel c r s nr (omega arith) in ground (arith, start-Chain s)

  prev-Chain :
      {h : Heap K V} {stop p : Address} {xs : Cells K V}
      → Chain h stop p xs
      → (q : Address) × (prev_of h stop ≡ some q)
  prev-Chain (done {p} n b ne) = (p, b)
  prev-Chain (link n b i ne out s) = prev-Chain s

module _ {K V : Type 0} (eq : Discrete K) (c : LruCache K V) (xs : Cells K V)
    (valid : IsValid eq c xs) where
  pub keys-keys_of : (fuel : ℕ) → length xs < fuel → keys fuel c ≡ some (keys_of (view xs))
  unfolding keys
  keys-keys_of fuel h =
      let (q, n) = next-Chain valid.chain in
      ground (arith, keys_from-keys_of fuel c q valid.chain n h)

  pub clear-IsValid :
      (c' : LruCache K V) × (clear c ≡ some c') × (c'.capacity ≡ c.capacity) × IsValid eq c' []
  unfolding clear get HasDistinctKeys
  clear-IsValid =
      let (b, n) = next-Chain valid.chain in
      let (a, p) = prev-Chain valid.chain in
      let g : Heap K V = with_next c.heap c.head c.tail in
      let g' : Heap K V = with_prev g c.tail c.head in
      let p' : prev_of g c.tail ≡ some a = prev_of-with_next c.heap c.head c.tail c.tail ∙ p in
      let n' : next_of g c.head ≡ some c.tail =
        ground (arith, next_of-with_next c.heap c.head c.tail c.head b n) in
      (
        record c { cache = []; heap = g' },
        rw (set_next-with_next c.heap c.head c.tail b n)
            (rw (set_prev-with_prev g c.tail c.head a p') refl),
        refl,
        record {
          chain =
              done (next_of-with_prev g c.tail c.head c.head ∙ n')
                (ground (arith, prev_of-with_prev g c.tail c.head c.tail a p'))
                (start-Chain valid.chain).0;
          distinct = tt;
          cache_distinct = tt;
          index = λ k. refl;
          size = refl;
          fresh = λ x e. refl;
          head_old = valid.head_old;
          tail_old = valid.tail_old;
          positive = valid.positive;
        },
      )
