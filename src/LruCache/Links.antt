-- ===== src/LruCache/Links.antt =====
-- util/collections/lrucache/lru_cache.go: `removeEntry` and `addToFront` as changes of the links of an
-- entry's neighbours.
use microservice_kit.Prelude.{◌≡◌, false, some, arith, ◌==◌, if◌then◌else◌}
use microservice_kit.LruCache.{Address, Heap, add_to_front, remove_entry}
use microservice_kit.LruCache.Heap.{
  next_of, prev_of, item_of, with_next, with_prev, set_next-with_next, set_prev-with_prev,
  next_of-with_next, prev_of-with_prev, prev_of-with_next, item_of-with_next, next_of-with_prev,
  item_of-with_prev,
}

module _ {K V : Type 0} where
  -- two neighbours that are linked past what stood between them
  abbrev pub unlinked : Heap K V → Address → Address → Heap K V
  unlinked h a b = with_prev (with_next h a b) b a

  -- `removeEntry` links the neighbours of an entry to each other
  pub remove_entry-unlinked :
      (h : Heap K V) (e a b : Address)
      → prev_of h e ≡ some a
      → next_of h e ≡ some b
      → next_of h a ≡ some e
      → prev_of h b ≡ some e
      → (a == e) ≡ false
      → remove_entry h e ≡ some (unlinked h a b)
  unfolding remove_entry
  remove_entry-unlinked h e a b pe ne na pb ae = ground (
    arith,
    set_next-with_next h a b e na,
    next_of-with_next h a b e e na,
    prev_of-with_next h a b e,
    prev_of-with_next h a b b,
    set_prev-with_prev (with_next h a b) b a e,
  )

  -- an entry that is linked in between `a` and `b`
  abbrev pub linked : Heap K V → Address → Address → Address → Heap K V
  linked h a e b = with_next (with_prev (with_next (with_prev h e a) e b) b e) a e

  -- `addToFront` links an entry in between `head` and what follows it
  pub add_to_front-linked :
      (h : Heap K V) (head e b a c d : Address)
      → next_of h head ≡ some b
      → prev_of h b ≡ some a
      → prev_of h e ≡ some c
      → next_of h e ≡ some d
      → (e == head) ≡ false
      → (e == b) ≡ false
      → add_to_front head h e ≡ some (linked h head e b)
  unfolding add_to_front
  add_to_front-linked h head e b a c d nh pb pe ne eh eb =
      let h₁ : Heap K V = with_prev h e head in
      let h₂ : Heap K V = with_next h₁ e b in
      let h₃ : Heap K V = with_prev h₂ b e in
      ground (
        arith,
        set_prev-with_prev h e head c pe,
        next_of-with_prev h e head head,
        next_of-with_prev h e head e,
        set_next-with_next h₁ e b d,
        next_of-with_next h₁ e b head d,
        prev_of-with_next h₁ e b b,
        prev_of-with_prev h e head b c pe,
        set_prev-with_prev h₂ b e a,
        next_of-with_prev h₂ b e head,
        set_next-with_next h₃ head e b,
      )

  module _ (h : Heap K V) (a b : Address) where
    module _ (x : Address) where
      pub next_of-unlinked :
          (r : Address)
          → next_of h a ≡ some r
          → next_of (unlinked h a b) x ≡ (if x == a then some b else next_of h x)
      next_of-unlinked r n =
          ground (arith, next_of-with_next h a b x r n, next_of-with_prev (with_next h a b) b a x)

      pub prev_of-unlinked :
          (r : Address)
          → prev_of h b ≡ some r
          → prev_of (unlinked h a b) x ≡ (if x == b then some a else prev_of h x)
      prev_of-unlinked r p = ground (
        arith,
        prev_of-with_next h a b b,
        prev_of-with_next h a b x,
        prev_of-with_prev (with_next h a b) b a x r,
      )

      pub item_of-unlinked : item_of (unlinked h a b) x ≡ item_of h x
      item_of-unlinked =
          ground (arith, item_of-with_next h a b x, item_of-with_prev (with_next h a b) b a x)

  module _ (h : Heap K V) (a e b : Address) (x : Address) where
    pub next_of-linked :
        (c d : Address)
        → next_of h a ≡ some c
        → next_of h e ≡ some d
        → next_of (linked h a e b) x
          ≡ (if x == a then some e else if x == e then some b else next_of h x)
    next_of-linked c d n m =
        let h₁ : Heap K V = with_prev h e a in
        let h₂ : Heap K V = with_next h₁ e b in
        ground (
          arith,
          next_of-with_prev h e a x,
          next_of-with_prev h e a a,
          next_of-with_prev h e a e,
          next_of-with_next h₁ e b x d,
          next_of-with_next h₁ e b a d,
          next_of-with_prev h₂ b e x,
          next_of-with_prev h₂ b e a,
          next_of-with_next (with_prev h₂ b e) a e x b,
          next_of-with_next (with_prev h₂ b e) a e x c,
        )

    pub prev_of-linked :
        (c d : Address)
        → prev_of h b ≡ some c
        → prev_of h e ≡ some d
        → prev_of (linked h a e b) x
          ≡ (if x == b then some e else if x == e then some a else prev_of h x)
    prev_of-linked c d n m =
        let h₁ : Heap K V = with_prev h e a in
        let h₂ : Heap K V = with_next h₁ e b in
        ground (
          arith,
          prev_of-with_prev h e a x d m,
          prev_of-with_prev h e a b d m,
          prev_of-with_next h₁ e b x,
          prev_of-with_next h₁ e b b,
          prev_of-with_prev h₂ b e x a,
          prev_of-with_prev h₂ b e x c,
          prev_of-with_next (with_prev h₂ b e) a e x,
        )

    pub item_of-linked : item_of (linked h a e b) x ≡ item_of h x
    item_of-linked =
        let h₁ : Heap K V = with_prev h e a in
        let h₂ : Heap K V = with_next h₁ e b in
        ground (
          arith,
          item_of-with_prev h e a x,
          item_of-with_next h₁ e b x,
          item_of-with_prev h₂ b e x,
          item_of-with_next (with_prev h₂ b e) a e x,
        )
