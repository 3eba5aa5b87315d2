-- ===== src/LruCache/Chain.antt =====
-- util/collections/lrucache/lru_cache.go: the doubly linked list, as a chain of links from an address to
-- another through the cells between them.
use microservice_kit.Prelude.{
  ◌≡◌, refl, Bool, true, false, ◌||◌, Option, some, List, [], ◌∷◌, arith, ◌==◌, get, remove,
}
use microservice_kit.LruCache.{Address, Entry, Heap, write}
use microservice_kit.LruCache.Spec.{but_last}
use microservice_kit.LruCache.Keys.{HasDistinctKeys}
use microservice_kit.LruCache.Heap.{write-at, next_of, prev_of, item_of}
use microservice_kit.LruCache.Links.{linked, next_of-linked, prev_of-linked, item_of-linked}

-- the keys of the list in order, each with the address of its entry and its value
pub record Cell (V : Type 0) : Type 0 where
  pub address : Address
  pub value : V

abbrev pub Cells : Type 0 → Type 0 → Type 0
Cells K V = List (K × Cell V)

abbrev pub cell : {V : Type 0} → Address → V → Cell V
cell p v = record { address = p; value = v }

module _ {K V : Type 0} where
  abbrev pub has : Address → Cells K V → Bool
  has a [] = false
  has a ((_, c) ∷ xs) = (a == c.address) || has a xs

  -- from `p`, the links of both directions lead through the distinct entries of the cells to `stop`
  pub data Chain (h : Heap K V) (stop : Address) : Address → Cells K V → Type 0 where
    done :
        {p : Address}
        → next_of h p ≡ some stop
        → prev_of h stop ≡ some p
        → (p == stop) ≡ false
        → Chain h stop p []
    link :
        {p q : Address} {k : K} {v : V} {xs : Cells K V}
        → next_of h p ≡ some q
        → prev_of h q ≡ some p
        → item_of h q ≡ some (k, v)
        → (p == stop) ≡ false
        → has p ((k, cell q v) ∷ xs) ≡ false
        → Chain h stop q xs
        → Chain h stop p ((k, cell q v) ∷ xs)

  pub frame :
      {h g : Heap K V} {stop p : Address} {xs : Cells K V}
      → Chain h stop p xs
      → ((x : Address) → ((x == p) || has x xs) ≡ true → next_of g x ≡ next_of h x)
      → ((x : Address) → ((x == stop) || has x xs) ≡ true → prev_of g x ≡ prev_of h x)
      → ((x : Address) → has x xs ≡ true → item_of g x ≡ item_of h x)
      → Chain g stop p xs
  frame {stop} {p} (done n b ne) next prev item =
      done (ground (arith, next p)) (ground (arith, prev stop)) ne
  frame {p} (link {q} n b i ne out s) next prev item =
      link (ground (arith, next p)) (ground (arith, prev q)) (ground (arith, item q)) ne out (
        frame s (λ x e. next x (ground arith)) (λ x e. prev x (ground arith))
          (λ x e. item x (ground arith)))

  -- a write to an address outside leaves the chain
  pub Chain-write :
      {h : Heap K V} {stop p : Address} {xs : Cells K V} (a : Address) (e : Option (Entry K V))
      → Chain h stop p xs
      → (a == p) ≡ false
      → (a == stop) ≡ false
      → has a xs ≡ false
      → Chain (write h a e) stop p xs
  Chain-write {h} a e s a_p a_stop out =
      frame s (λ x f. ground (arith, write-at h a e x)) (λ x f. ground (arith, write-at h a e x))
        (λ x f. ground (arith, write-at h a e x))

  pub next-Chain :
      {h : Heap K V} {stop p : Address} {xs : Cells K V}
      → Chain h stop p xs
      → (q : Address) × (next_of h p ≡ some q)
  next-Chain {stop} (done n b ne) = (stop, n)
  next-Chain (link {q} n b i ne out s) = (q, n)

  -- the first link
  pub head-Chain :
      {h : Heap K V} {stop p q : Address} {xs : Cells K V}
      → Chain h stop p xs
      → next_of h p ≡ some q
      → (prev_of h q ≡ some p)
        × (((q == stop) || has q xs) ≡ true)
        × ((p == stop) ≡ false)
        × (has p xs ≡ false)
  head-Chain (done n b ne) e = ground arith
  head-Chain (link n b i ne out s) e = ground arith

  -- the start stands neither at the end nor in between
  pub start-Chain :
      {h : Heap K V} {stop p : Address} {xs : Cells K V}
      → Chain h stop p xs
      → ((p == stop) ≡ false) × (has p xs ≡ false)
  start-Chain (done n b ne) = (ne, refl)
  start-Chain (link n b i ne out s) = (ne, out)

  -- a new first entry
  Chain-behind :
      {h : Heap K V} {stop head : Address} {xs : Cells K V} (e b c d : Address)
      → Chain h stop head xs
      → next_of h head ≡ some b
      → prev_of h e ≡ some c
      → next_of h e ≡ some d
      → (e == head) ≡ false
      → (e == stop) ≡ false
      → has e xs ≡ false
      → Chain (linked h head e b) stop e xs
  Chain-behind {h} {stop} {head} e b c d (done n p ne_stop) nh pe ne e_head e_stop out =
      done (ground (arith, next_of-linked h head e b e b d nh ne))
        (ground (arith, prev_of-linked h head e b stop head c)) e_stop
  Chain-behind {h} {stop} {head} e b c d (link {q} n p i ne_stop h_out s) nh pe ne e_head e_stop
        out =
      link (ground (arith, next_of-linked h head e b e b d nh ne))
        (ground (arith, prev_of-linked h head e b q head c))
        (ground (arith, item_of-linked h head e b q)) e_stop out
        (frame s (λ x f. ground (arith, next_of-linked h head e b x b d nh ne))
          (λ x f.
            ground
              (arith, (start-Chain s).0, (start-Chain s).1, prev_of-linked h head e b x head c))
          (λ x f. item_of-linked h head e b x))

  pub Chain-linked :
      {h : Heap K V} {stop head : Address} {xs : Cells K V} (k : K) (v : V) (e b c d : Address)
      → Chain h stop head xs
      → next_of h head ≡ some b
      → prev_of h e ≡ some c
      → next_of h e ≡ some d
      → item_of h e ≡ some (k, v)
      → (e == head) ≡ false
      → (e == stop) ≡ false
      → has e xs ≡ false
      → Chain (linked h head e b) stop head ((k, cell e v) ∷ xs)
  Chain-linked {h} {stop} {head} {xs} k v e b c d s nh pe ne item e_head e_stop out =
      let first = head-Chain s nh in
      link (ground (arith, next_of-linked h head e b head b d nh ne))
        (ground (arith, prev_of-linked h head e b e head c first.0 pe))
        (ground (arith, item_of-linked h head e b e)) first.2 (ground (arith, first.3))
        (Chain-behind e b c d s nh pe ne e_head e_stop out)

module _ {K V : Type 0} (eq : Discrete K) where
  pub has-remove :
      (a : Address) (xs : Cells K V) (k : K) → has a xs ≡ false → has a (remove eq xs k) ≡ false
  unfolding remove
  has-remove a [] k e = refl
  has-remove a ((k', c) ∷ xs) k e = ground (arith, has-remove a xs k)

  pub has_of_get :
      (xs : Cells K V) (k : K) (p : Address) (v : V)
      → get eq xs k ≡ some (cell p v)
      → has p xs ≡ true
  unfolding get
  has_of_get [] k p v e = cc
  has_of_get ((k', c) ∷ xs) k p v e = ground (arith, has_of_get xs k p v)

  -- what stands before `stop`: the start of an empty chain, or else the entry of the last key
  pub Chain-last :
      {h : Heap K V} {stop start : Address} (c : K × Cell V) (xs : Cells K V)
      → Chain h stop start (c ∷ xs)
      → HasDistinctKeys eq (c ∷ xs)
      → (k : K) × (p : Address) × (v : V) × (prev_of h stop ≡ some p)
        × (item_of h p ≡ some (k, v))
        × (get eq (c ∷ xs) k ≡ some (cell p v))
        × (remove eq (c ∷ xs) k ≡ but_last (c ∷ xs))
  unfolding get remove HasDistinctKeys but_last
  Chain-last (k, c) [] (link {q} {v} n p i ne out (done m b _)) d =
      (k, q, v, b, i, ground arith, ground arith)
  Chain-last (k, c) (c' ∷ xs) (link n p i ne out s) d =
      let (k', q, v, before, item, found, rest) = Chain-last c' xs s d.1 in
      (k', q, v, before, item, ground (arith, found), ground (arith, found, rest))

  -- the entry of a key holds what its cell says
  pub item-Chain :
      {h : Heap K V} {stop start : Address} {xs : Cells K V} (k : K) (e : Address) (v : V)
      → Chain h stop start xs
      → get eq xs k ≡ some (cell e v)
      → item_of h e ≡ some (k, v)
  unfolding get
  item-Chain k e v (done n p ne) f = cc
  item-Chain k e v (link n p i ne out s) f = ground (arith, item-Chain k e v s)
