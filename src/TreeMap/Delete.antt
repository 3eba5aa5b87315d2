-- ===== src/TreeMap/Delete.antt =====
-- util/collections/treemap: `deleteNode` leaves a red-black tree.
use mathlib.Core.Bool.{false≢true}
use microservice_kit.Prelude.{suc, sym, ◌∙◌, subst}
use microservice_kit.TreeMap.{
  Color, red, black, Node, nil, node, Parents, left_of, right_of, splice, minimum, splice_minimum,
  delete_node,
}
use microservice_kit.TreeMap.Colours.{
  ParentsOk, IsBalanced, Fits, Fits-left, Fits-right, blacken-IsRb, plug-IsBalanced,
}
use microservice_kit.TreeMap.DeleteFixup.{delete_fixup-IsBalanced}

module _ {K V : Type 0} where
  -- the removal of a node without a left child, or without a right one
  splice_left-IsBalanced :
      (c : Color) (k : K) (v : V) (r : Node K V) (p : Parents K V)
      → Fits (node c nil k v r) p
      → IsBalanced (splice c nil r p)
  unfolding splice
  splice_left-IsBalanced black k v r p ((e, _, _, m), o, f) =
      delete_fixup-IsBalanced r p (blacken-IsRb r m) (subst (λ h. ParentsOk (suc h) p) e o)
  splice_left-IsBalanced red k v r p ((e, (_, i), _, m), o, f) =
      plug-IsBalanced r p m (subst (λ h. ParentsOk h p) e o) (λ q. absurd (false≢true (sym i ∙ q)))

  splice_right-IsBalanced :
      (c : Color) (l : Node K V) (k : K) (v : V) (p : Parents K V)
      → Fits (node c l k v nil) p
      → IsBalanced (splice c l nil p)
  unfolding splice
  splice_right-IsBalanced black nil k v p (m, o, f) = delete_fixup-IsBalanced nil p tt o
  splice_right-IsBalanced red nil k v p (m, o, f) =
      plug-IsBalanced nil p tt o (λ q. absurd (false≢true q))
  splice_right-IsBalanced black (node d a j w b) k v p ((e, _, m, _), o, f) =
      delete_fixup-IsBalanced (node d a j w b) p (blacken-IsRb (node d a j w b) m) o
  splice_right-IsBalanced red (node d a j w b) k v p ((e, (i, _), m, _), o, f) =
      plug-IsBalanced (node d a j w b) p m o (λ q. absurd (false≢true (sym i ∙ q)))

  splice_minimum-IsBalanced :
      (c : Color) (l : Node K V) (k : K) (v : V) (r : Node K V) (p : Parents K V)
      → Fits (node c l k v r) p
      → IsBalanced (splice_minimum c l k v r p)
  unfolding splice_minimum
  splice_minimum-IsBalanced c nil k v r p h = splice_left-IsBalanced c k v r p h
  splice_minimum-IsBalanced c (node d l j w b) k v r p h =
      splice_minimum-IsBalanced d l j w b (left_of c k v r p)
        (Fits-left c (node d l j w b) k v r p h)

  -- `deleteNode` leaves a red-black tree
  pub delete_node-IsBalanced :
      (c : Color) (l : Node K V) (k : K) (v : V) (r : Node K V) (p : Parents K V)
      → Fits (node c l k v r) p
      → IsBalanced (delete_node c l r p)
  unfolding delete_node
  delete_node-IsBalanced c nil k v r p h = splice_left-IsBalanced c k v r p h
  delete_node-IsBalanced c (node d a j w b) k v nil p h =
      splice_right-IsBalanced c (node d a j w b) k v p h
  delete_node-IsBalanced c (node d a j w b) k v (node e rl rk rv rr) p h =
      let s = minimum rl rk rv in
      splice_minimum-IsBalanced e rl rk rv rr (right_of c (node d a j w b) s.0 s.1 p)
        (Fits-right c (node d a j w b) k v (node e rl rk rv rr) p s.0 s.1 h)
