-- ===== src/TreeMap/DescentRemove.antt =====
-- util/collections/treemap: the way down of `Remove`, and its fixup, against the list of pairs.
use Prim.Native.Nat.Ordering.{lt, eq, gt}
use microservice_kit.Prelude.{
  ◌+◌, ◌≡◌, refl, sym, ◌∙◌, ap, Option, none, some, List, [], ◌∷◌, ◌++◌, arith, length,
  length-append,
}
use microservice_kit.Prelude.Int.{ℤ}
use microservice_kit.TreeMap.{
  Color, Node, nil, node, Parents, left_of, right_of, sign, inorder, remove_at, delete_node,
}
use microservice_kit.TreeMap.Spec.{
  less, alike, more, compared, IsWeakOrder, list_get, list_remove, IsSorted, Before, Behind,
  IsSorted-middle,
}
use microservice_kit.TreeMap.Around.{around}
use microservice_kit.TreeMap.AroundDelete.{delete_node-around}
use microservice_kit.TreeMap.Colours.{IsBalanced, Fits, Fits-left, Fits-right}
use microservice_kit.TreeMap.Delete.{delete_node-IsBalanced}
use microservice_kit.TreeMap.Descent.{
  remove_less, remove_same, remove_more, get_less, get_same, get_more,
}

module _ {K V : Type 0} (cmp : K → K → ℤ) (order : IsWeakOrder cmp) where
  -- What `remove_at` has to answer: nothing, where the list has no such key, and else the value and a
  -- red-black tree with the other pairs.
  abbrev pub Removes : K → List (K × V) → Parents K V → Option (V × Node K V) → Type 0
  Removes key xs p none = (list_get cmp key xs ≡ none) × (list_remove cmp key xs ≡ xs)
  Removes key xs p (some (v, t)) =
      (list_get cmp key xs ≡ some v)
      × (inorder t ≡ around p (list_remove cmp key xs))
      × IsBalanced t
      × (length xs ≡ length (list_remove cmp key xs) + 1)

  Removes-less :
      (key : K) (xs ys : List (K × V)) (k : K) (v : V) (p q : Parents K V)
      (o : Option (V × Node K V))
      → Behind cmp k ys
      → sign (cmp key k) ≡ lt
      → Removes key xs q o
      → around q (list_remove cmp key xs) ≡ around p (list_remove cmp key xs ++ (k, v) ∷ ys)
      → Removes key (xs ++ (k, v) ∷ ys) p o
  Removes-less key xs ys k v p q none b e (g, n) w = (
    get_less cmp order key xs ys k v b e ∙ g,
    remove_less cmp order key xs ys k v b e ∙ ap (λ zs. zs ++ (k, v) ∷ ys) n,
  )
  Removes-less key xs ys k v p q (some (u, t)) b e (g, a, m, n) w = (
    get_less cmp order key xs ys k v b e ∙ g,
    a ∙ w ∙ ap (around p) (sym (remove_less cmp order key xs ys k v b e)),
    m,
    omega (
      arith,
      n,
      length-append xs ((k, v) ∷ ys),
      length-append (list_remove cmp key xs) ((k, v) ∷ ys),
      ap length (remove_less cmp order key xs ys k v b e),
    ),
  )

  Removes-more :
      (key : K) (xs ys : List (K × V)) (k : K) (v : V) (p q : Parents K V)
      (o : Option (V × Node K V))
      → Before cmp k xs
      → sign (cmp key k) ≡ gt
      → Removes key ys q o
      → around q (list_remove cmp key ys) ≡ around p (xs ++ (k, v) ∷ list_remove cmp key ys)
      → Removes key (xs ++ (k, v) ∷ ys) p o
  Removes-more key xs ys k v p q none b e (g, n) w = (
    get_more cmp order key xs ys k v b e ∙ g,
    remove_more cmp order key xs ys k v b e ∙ ap (λ zs. xs ++ (k, v) ∷ zs) n,
  )
  Removes-more key xs ys k v p q (some (u, t)) b e (g, a, m, n) w = (
    get_more cmp order key xs ys k v b e ∙ g,
    a ∙ w ∙ ap (around p) (sym (remove_more cmp order key xs ys k v b e)),
    m,
    omega (
      arith,
      n,
      length-append xs ((k, v) ∷ ys),
      length-append xs ((k, v) ∷ list_remove cmp key ys),
      ap length (remove_more cmp order key xs ys k v b e),
    ),
  )

  remove_at-less :
      (key : K) (c : Color) (l : Node K V) (k : K) (v : V) (r : Node K V) (p : Parents K V)
      → sign (cmp key k) ≡ lt
      → remove_at cmp key (node c l k v r) p ≡ remove_at cmp key l (left_of c k v r p)
  unfolding remove_at
  remove_at-less key c l k v r p e = ground (arith, e)

  remove_at-same :
      (key : K) (c : Color) (l : Node K V) (k : K) (v : V) (r : Node K V) (p : Parents K V)
      → sign (cmp key k) ≡ eq
      → remove_at cmp key (node c l k v r) p ≡ some (v, delete_node c l r p)
  unfolding remove_at
  remove_at-same key c l k v r p e = ground (arith, e)

  remove_at-more :
      (key : K) (c : Color) (l : Node K V) (k : K) (v : V) (r : Node K V) (p : Parents K V)
      → sign (cmp key k) ≡ gt
      → remove_at cmp key (node c l k v r) p ≡ remove_at cmp key r (right_of c l k v p)
  unfolding remove_at
  remove_at-more key c l k v r p e = ground (arith, e)

  remove_at-end : (key : K) (p : Parents K V) → Removes key [] p (remove_at cmp key nil p)
  unfolding remove_at list_get list_remove
  remove_at-end key p = (refl, refl)

  pub remove_at-Removes :
      (key : K) (t : Node K V) (p : Parents K V)
      → IsSorted cmp (inorder t)
      → Fits t p
      → Removes key (inorder t) p (remove_at cmp key t p)
  unfolding inorder around
  remove_at-Removes key nil p s f = remove_at-end key p
  remove_at-Removes key (node c l k v r) p s f =
      let (a, b, y, z) = IsSorted-middle cmp order (inorder l) (inorder r) k v s in
      elim (compared (sign (cmp key k))) [
        | less e ↦ rw (remove_at-less key c l k v r p e) (
            Removes-less key (inorder l) (inorder r) k v p (left_of c k v r p) _ b e
              (remove_at-Removes key l (left_of c k v r p) y (Fits-left c l k v r p f)) refl)
        | alike e ↦
            let gone = remove_same cmp order key (inorder l) (inorder r) k v a e in
            rw (remove_at-same key c l k v r p e) (
              get_same cmp order key (inorder l) (inorder r) k v a e,
              delete_node-around c l r p ∙ ap (around p) (sym gone),
              delete_node-IsBalanced c l k v r p f,
              omega (
                arith,
                ap length gone,
                length-append (inorder l) ((k, v) ∷ inorder r),
                length-append (inorder l) (inorder r),
              ),
            )
        | more e ↦ rw (remove_at-more key c l k v r p e) (
            Removes-more key (inorder l) (inorder r) k v p (right_of c l k v p) _ a e
              (remove_at-Removes key r (right_of c l k v p) z (Fits-right c l k v r p k v f)) refl)
      ]
