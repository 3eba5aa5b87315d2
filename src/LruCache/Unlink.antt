-- ===== src/LruCache/Unlink.antt =====
-- util/collections/lrucache/lru_cache.go: `removeEntry` takes one entry out of the list.
use microservice_kit.Prelude.{
  ◌≡◌, sym, subst, true, false, ◌||◌, none, some, ◌∷◌, arith, ◌==◌, get, remove,
}
use microservice_kit.LruCache.{Address, Heap}
use microservice_kit.LruCache.Keys.{HasDistinctKeys, remove_absent}
use microservice_kit.LruCache.Heap.{next_of, prev_of}
use microservice_kit.LruCache.Links.{unlinked, next_of-unlinked, prev_of-unlinked, item_of-unlinked}
use microservice_kit.LruCache.Chain.{
  Cell, Cells, cell, has, Chain, done, link, frame, next-Chain, head-Chain, start-Chain, has-remove,
  has_of_get,
}

module _ {K V : Type 0} where
  -- the first entry is passed by
  Chain-pass :
      {h : Heap K V} {stop start q : Address} {xs : Cells K V} (b : Address)
      → Chain h stop q xs
      → next_of h start ≡ some q
      → next_of h q ≡ some b
      → (start == stop) ≡ false
      → (start == q) ≡ false
      → has start xs ≡ false
      → Chain (unlinked h start b) stop start xs
  Chain-pass {h} {stop} {start} {q} b (done n p ne) ns nq s_stop s_q out =
      done (ground (arith, next_of-unlinked h start b start q ns))
        (ground (arith, prev_of-unlinked h start b stop q)) s_stop
  Chain-pass {h} {stop} {start} {q} b (link {q = r} n p i ne q_out s) ns nq s_stop s_q out =
      link (ground (arith, next_of-unlinked h start b start q ns))
        (ground (arith, prev_of-unlinked h start b r q))
        (ground (arith, item_of-unlinked h start b r)) s_stop out
        (frame s (λ x f. ground (arith, next_of-unlinked h start b x q ns))
          (λ x f. ground (arith, start-Chain s, prev_of-unlinked h start b x q))
          (λ x f. item_of-unlinked h start b x))

module _ {K V : Type 0} (eq : Discrete K) where
  -- the neighbours `a` and `b` of the entry `e` of the key `k`
  pub record Around (h : Heap K V) (stop start : Address) (xs : Cells K V) (k : K) (e : Address)
      (a b : Address) : Type 0 where
    pub prev_at : prev_of h e ≡ some a
    pub next_at : next_of h e ≡ some b
    pub next_before : next_of h a ≡ some e
    pub prev_behind : prev_of h b ≡ some e
    pub ne : (a == e) ≡ false
    pub ne_next : (b == e) ≡ false
    pub before : ((a == start) || has a xs) ≡ true
    pub behind : ((b == stop) || has b xs) ≡ true
    pub ne_start : (e == start) ≡ false
    pub ne_stop : (e == stop) ≡ false
    pub out : has e (remove eq xs k) ≡ false
    pub chain : Chain (unlinked h a b) stop start (remove eq xs k)

  remove_first :
      (k' k : K) (c : Cell V) (xs : Cells K V)
      → k' ≡ k
      → get eq xs k' ≡ none
      → remove eq ((k', c) ∷ xs) k ≡ xs
  unfolding remove
  remove_first k' k c xs same f = ground (arith, remove_absent eq xs k)

  remove_other :
      (k' k : K) (c : Cell V) (xs : Cells K V)
      → ¬ (k' ≡ k)
      → remove eq ((k', c) ∷ xs) k ≡ (k', c) ∷ remove eq xs k
  unfolding remove
  remove_other k' k c xs other = ground arith

  -- the removal of the entry of a key leaves the chain of the other keys
  pub Chain-unlinked :
      {h : Heap K V} {stop start : Address} {xs : Cells K V} (k : K) (e : Address) (v : V)
      → Chain h stop start xs
      → HasDistinctKeys eq xs
      → get eq xs k ≡ some (cell e v)
      → (a : Address) × (b : Address) × Around h stop start xs k e a b
  unfolding get HasDistinctKeys
  Chain-unlinked k e v (done n p ne) d f = cc
  Chain-unlinked {h} {stop} {start} k e v (link {q} {k = k'} {v = v'} {xs} n p i ne out s) d f =
      elim (eq k' k) [
        | yes same ↦
            let hit : q ≡ e = ground arith in
            let (b, nq) = next-Chain s in
            let first = head-Chain s nq in
            (
              start,
              b,
              record {
                prev_at = ground arith;
                next_at = ground arith;
                next_before = ground arith;
                prev_behind = ground (arith, first.0);
                ne = ground arith;
                ne_next = ground (arith, first.1, (start-Chain s).0, (start-Chain s).1);
                before = ground arith;
                behind = ground (arith, first.1);
                ne_start = ground arith;
                ne_stop = ground (arith, (start-Chain s).0);
                out = ground (arith, (start-Chain s).1, remove_first k' k (cell q v') xs same d.0);
                chain =
                    subst (λ ys. Chain (unlinked h start b) stop start ys)
                      (sym (remove_first k' k (cell q v') xs same d.0))
                      (Chain-pass b s n nq ne (ground arith) (ground arith));
              },
            )
        | no other ↦
            let (a, b, r) = Chain-unlinked k e v s d.1 (ground arith) in
            let start_s = start-Chain s in
            (
              a,
              b,
              record {
                prev_at = r.prev_at;
                next_at = r.next_at;
                next_before = r.next_before;
                prev_behind = r.prev_behind;
                ne = r.ne;
                ne_next = r.ne_next;
                before = ground (arith, r.before);
                behind = ground (arith, r.behind);
                ne_start = ground (arith, has_of_get eq xs k e v);
                ne_stop = r.ne_stop;
                out = ground (
                  arith,
                  start_s.1,
                  has_of_get eq xs k e v,
                  r.out,
                  remove_other k' k (cell q v') xs other,
                );
                chain =
                    subst (λ ys. Chain (unlinked h a b) stop start ys)
                      (sym (remove_other k' k (cell q v') xs other))
                      (link (ground (arith, next_of-unlinked h a b start e r.next_before, r.before))
                        (ground (
                          arith,
                          prev_of-unlinked h a b q e r.prev_behind,
                          r.behind,
                          start_s.0,
                          start_s.1,
                        ))
                        (ground (arith, item_of-unlinked h a b q)) ne
                        (ground (arith, has-remove eq start xs k)) r.chain);
              },
            )
      ]
