-- ===== src/TreeMap/DescentPut.antt =====
-- util/collections/treemap: the way down of `Put`, and its fixup, against the list of pairs.
use Prim.Native.Nat.Ordering.{lt, eq, gt}
use microservice_kit.Prelude.{
  ◌+◌, ◌≡◌, refl, ◌∙◌, Bool, true, false, Option, none, some, List, [], ◌∷◌, if◌then◌else◌, arith,
  length, length-append,
}
use microservice_kit.Prelude.Int.{ℤ}
use microservice_kit.TreeMap.{
  Color, red, Node, nil, node, Parents, left_of, right_of, blacken, plug, sign, inorder,
  insert_fixup, put_at,
}
use microservice_kit.TreeMap.Spec.{
  less, alike, more, compared, IsWeakOrder, list_put, IsSorted, IsSorted-middle,
}
use microservice_kit.TreeMap.Around.{
  around, inorder-plug, inorder-blacken, Gives, insert_fixup-around,
}
use microservice_kit.TreeMap.Colours.{
  IsBalanced, Fits, Fits-left, Fits-right, Fits-value, Fits-IsBalanced,
}
use microservice_kit.TreeMap.Insert.{Survives, insert_fixup-Survives}
use microservice_kit.TreeMap.Descent.{put_less, put_same, put_more}

module _ {K V : Type 0} (cmp : K → K → ℤ) (order : IsWeakOrder cmp) where
  -- What `put_at` has to answer: the tree with the pairs put into the list, in a red-black tree, and
  -- whether there is a pair more.
  abbrev pub Puts : List (K × V) → List (K × V) → Parents K V → Option (Node K V × Bool) → Type 0
  Puts xs ys p none = ⊥
  Puts xs ys p (some (t, one_more)) =
      (inorder t ≡ around p ys)
      × IsBalanced t
      × ((if one_more then length xs + 1 else length xs) ≡ length ys)

  came_in :
      (key : K) (value : V) (p : Parents K V) (o : Option (Node K V))
      → Survives o
      → Gives (around p ((key, value) ∷ [])) o
      → Puts [] ((key, value) ∷ []) p (elim o [ none ↦ none | some t ↦ some (blacken t, true) ])
  came_in key value p none h g = h
  came_in key value p (some t) h g = (inorder-blacken t ∙ g, h, refl)

  -- the alike of a longer list, which the change makes longer by as much
  part_of :
      (xs ys ws zs : List (K × V)) (p q : Parents K V) (o : Option (Node K V × Bool))
      → Puts xs ys q o
      → around q ys ≡ around p zs
      → length ws + length ys ≡ length xs + length zs
      → Puts ws zs p o
  part_of xs ys ws zs p q none h e n = h
  part_of xs ys ws zs p q (some (t, one_more)) (a, m, f) e n = (a ∙ e, m, ground (arith, f, n))

  put_at-less :
      (key : K) (value : V) (c : Color) (l : Node K V) (k : K) (v : V) (r : Node K V)
      (p : Parents K V)
      → sign (cmp key k) ≡ lt
      → put_at cmp key value (node c l k v r) p ≡ put_at cmp key value l (left_of c k v r p)
  unfolding put_at
  put_at-less key value c l k v r p e = ground (arith, e)

  put_at-same :
      (key : K) (value : V) (c : Color) (l : Node K V) (k : K) (v : V) (r : Node K V)
      (p : Parents K V)
      → sign (cmp key k) ≡ eq
      → put_at cmp key value (node c l k v r) p ≡ some (plug (node c l k value r) p, false)
  unfolding put_at
  put_at-same key value c l k v r p e = ground (arith, e)

  put_at-more :
      (key : K) (value : V) (c : Color) (l : Node K V) (k : K) (v : V) (r : Node K V)
      (p : Parents K V)
      → sign (cmp key k) ≡ gt
      → put_at cmp key value (node c l k v r) p ≡ put_at cmp key value r (right_of c l k v p)
  unfolding put_at
  put_at-more key value c l k v r p e = ground (arith, e)

  put_at-end :
      (key : K) (value : V) (p : Parents K V)
      → Fits nil p
      → Puts [] (list_put cmp key value []) p (put_at cmp key value nil p)
  unfolding put_at list_put inorder
  put_at-end key value p (_, o, f) =
      came_in key value p (insert_fixup (node red nil key value nil) p)
        (insert_fixup-Survives nil key value nil p (refl, (refl, refl), tt, tt) o)
        (insert_fixup-around (node red nil key value nil) p)

  pub put_at-Puts :
      (key : K) (value : V) (t : Node K V) (p : Parents K V)
      → IsSorted cmp (inorder t)
      → Fits t p
      → Puts (inorder t) (list_put cmp key value (inorder t)) p (put_at cmp key value t p)
  unfolding inorder around
  put_at-Puts key value nil p s f = put_at-end key value p f
  put_at-Puts key value (node c l k v r) p s f =
      let (a, b, y, z) = IsSorted-middle cmp order (inorder l) (inorder r) k v s in
      elim (compared (sign (cmp key k))) [
        | less e ↦
            rw
              (
                put_less cmp order key value (inorder l) (inorder r) k v e,
                put_at-less key value c l k v r p e,
              )
              (part_of (inorder l) (list_put cmp key value (inorder l)) _ _ p (left_of c k v r p) _
                (put_at-Puts key value l (left_of c k v r p) y (Fits-left c l k v r p f)) refl
                (omega (
                  arith,
                  length-append (inorder l) ((k, v) ∷ inorder r),
                  length-append (list_put cmp key value (inorder l)) ((k, v) ∷ inorder r),
                )))
        | alike e ↦
            let t = node c l k value r in
            rw
              (
                put_same cmp order key value (inorder l) (inorder r) k v a e,
                put_at-same key value c l k v r p e,
              )
              (
                inorder-plug t p,
                Fits-IsBalanced t p (Fits-value c l k v value r p f),
                omega (
                  arith,
                  length-append (inorder l) ((k, v) ∷ inorder r),
                  length-append (inorder l) ((k, value) ∷ inorder r),
                ),
              )
        | more e ↦
            rw
              (
                put_more cmp order key value (inorder l) (inorder r) k v a e,
                put_at-more key value c l k v r p e,
              )
              (part_of (inorder r) (list_put cmp key value (inorder r)) _ _ p (right_of c l k v p) _
                (put_at-Puts key value r (right_of c l k v p) z (Fits-right c l k v r p k v f)) refl
                (omega (
                  arith,
                  length-append (inorder l) ((k, v) ∷ inorder r),
                  length-append (inorder l) ((k, v) ∷ list_put cmp key value (inorder r)),
                )))
      ]
