-- ===== src/TreeMap/Descent.antt =====
-- util/collections/treemap: the ways down of `Put`, `Remove` and `findNode` against the list of pairs.
use Prim.Native.Nat.Ordering.{lt, eq, gt}
use microservice_kit.Prelude.{◌≡◌, refl, ◌∙◌, some, List, ◌∷◌, ◌++◌, arith}
use microservice_kit.Prelude.Int.{ℤ}
use microservice_kit.TreeMap.{Node, nil, node, sign, inorder, find_node}
use microservice_kit.TreeMap.Spec.{
  less, alike, more, compared, IsWeakOrder, list_put, list_get, list_remove, IsSorted, Before,
  Behind, Before-trans, Before-eq, Behind-trans, IsSorted-middle, list_put-lt, list_put-gt,
  list_get-lt, list_get-gt, list_remove-lt, list_remove-gt,
}

module _ {K V : Type 0} (cmp : K → K → ℤ) (order : IsWeakOrder cmp) where
  -- what lies before a node lies before a key that is not before it
  Before-more :
      (key k : K) (xs : List (K × V)) → sign (cmp key k) ≡ gt → Before cmp k xs → Before cmp key xs
  Before-more key k xs e h = Before-trans cmp order key k xs (order.lt_of_gt key k e) h

  Before-same :
      (key k : K) (xs : List (K × V)) → sign (cmp key k) ≡ eq → Before cmp k xs → Before cmp key xs
  Before-same key k xs e h = Before-eq cmp order key k xs (order.eq_of_eq key k e) h

  -- the list operations at a pair, by the answer of the comparison with it
  pub put_less :
      (key : K) (value : V) (xs ys : List (K × V)) (k : K) (v : V)
      → sign (cmp key k) ≡ lt
      → list_put cmp key value (xs ++ (k, v) ∷ ys) ≡ list_put cmp key value xs ++ (k, v) ∷ ys
  put_less key value xs ys k v e = list_put-lt cmp order key value xs ys k v e

  pub put_same :
      (key : K) (value : V) (xs ys : List (K × V)) (k : K) (v : V)
      → Before cmp k xs
      → sign (cmp key k) ≡ eq
      → list_put cmp key value (xs ++ (k, v) ∷ ys) ≡ xs ++ (k, value) ∷ ys
  unfolding list_put
  put_same key value xs ys k v h e =
      list_put-gt cmp order key value xs ((k, v) ∷ ys) (Before-same key k xs e h) ∙ ground arith

  pub put_more :
      (key : K) (value : V) (xs ys : List (K × V)) (k : K) (v : V)
      → Before cmp k xs
      → sign (cmp key k) ≡ gt
      → list_put cmp key value (xs ++ (k, v) ∷ ys) ≡ xs ++ (k, v) ∷ list_put cmp key value ys
  unfolding list_put
  put_more key value xs ys k v h e =
      list_put-gt cmp order key value xs ((k, v) ∷ ys) (Before-more key k xs e h) ∙ ground arith

  pub get_less :
      (key : K) (xs ys : List (K × V)) (k : K) (v : V)
      → Behind cmp k ys
      → sign (cmp key k) ≡ lt
      → list_get cmp key (xs ++ (k, v) ∷ ys) ≡ list_get cmp key xs
  get_less key xs ys k v h e =
      list_get-lt cmp order key xs ((k, v) ∷ ys) (e, Behind-trans cmp order key k ys e h)

  pub get_same :
      (key : K) (xs ys : List (K × V)) (k : K) (v : V)
      → Before cmp k xs
      → sign (cmp key k) ≡ eq
      → list_get cmp key (xs ++ (k, v) ∷ ys) ≡ some v
  unfolding list_get
  get_same key xs ys k v h e =
      list_get-gt cmp order key xs ((k, v) ∷ ys) (Before-same key k xs e h) ∙ ground arith

  pub get_more :
      (key : K) (xs ys : List (K × V)) (k : K) (v : V)
      → Before cmp k xs
      → sign (cmp key k) ≡ gt
      → list_get cmp key (xs ++ (k, v) ∷ ys) ≡ list_get cmp key ys
  unfolding list_get
  get_more key xs ys k v h e =
      list_get-gt cmp order key xs ((k, v) ∷ ys) (Before-more key k xs e h) ∙ ground arith

  pub remove_less :
      (key : K) (xs ys : List (K × V)) (k : K) (v : V)
      → Behind cmp k ys
      → sign (cmp key k) ≡ lt
      → list_remove cmp key (xs ++ (k, v) ∷ ys) ≡ list_remove cmp key xs ++ (k, v) ∷ ys
  remove_less key xs ys k v h e =
      list_remove-lt cmp order key xs ((k, v) ∷ ys) (e, Behind-trans cmp order key k ys e h)

  pub remove_same :
      (key : K) (xs ys : List (K × V)) (k : K) (v : V)
      → Before cmp k xs
      → sign (cmp key k) ≡ eq
      → list_remove cmp key (xs ++ (k, v) ∷ ys) ≡ xs ++ ys
  unfolding list_remove
  remove_same key xs ys k v h e =
      list_remove-gt cmp order key xs ((k, v) ∷ ys) (Before-same key k xs e h) ∙ ground arith

  pub remove_more :
      (key : K) (xs ys : List (K × V)) (k : K) (v : V)
      → Before cmp k xs
      → sign (cmp key k) ≡ gt
      → list_remove cmp key (xs ++ (k, v) ∷ ys) ≡ xs ++ (k, v) ∷ list_remove cmp key ys
  unfolding list_remove
  remove_more key xs ys k v h e =
      list_remove-gt cmp order key xs ((k, v) ∷ ys) (Before-more key k xs e h) ∙ ground arith

  -- `findNode` finds what the list of pairs has
  pub find_node-list_get :
      (key : K) (t : Node K V)
      → IsSorted cmp (inorder t)
      → find_node cmp key t ≡ list_get cmp key (inorder t)
  unfolding find_node inorder list_get
  find_node-list_get key nil s = refl
  find_node-list_get key (node c l k v r) s =
      let (a, b, y, z) = IsSorted-middle cmp order (inorder l) (inorder r) k v s in
      elim (compared (sign (cmp key k))) [
        | less e ↦
            ground (arith, find_node-list_get key l y, get_less key (inorder l) (inorder r) k v b e)
        | alike e ↦ ground (arith, get_same key (inorder l) (inorder r) k v a e)
        | more e ↦
            ground (arith, find_node-list_get key r z, get_more key (inorder l) (inorder r) k v a e)
      ]
