-- ===== src/TreeMap/Around.antt =====
-- util/collections/treemap: the rotations, and with them `insertFixup`, keep the pairs in their order.
use mathlib.Core.List.{append_assoc, append-nil}
use microservice_kit.Prelude.{
  ◌≡◌, refl, ◌∙◌, Bool, true, false, Option, none, some, List, ◌∷◌, ◌++◌, ap, subst,
}
use microservice_kit.TreeMap.{
  red, black, Node, nil, node, Parents, top, left_of, right_of, is_red, blacken, plug, rotate_left,
  rotate_right, insert_fixup, inorder,
}

ruleset assoc = (append_assoc, append-nil)

module _ {K V : Type 0} where
  -- the pairs of a whole tree, from those of the subtree below `Parents`
  unfoldable pub around : Parents K V → List (K × V) → List (K × V)
  unfolding inorder
  around top xs = xs
  around (left_of c k v r p) xs = around p (xs ++ (k, v) ∷ inorder r)
  around (right_of c l k v p) xs = around p (inorder l ++ (k, v) ∷ xs)

  pub inorder-plug : (t : Node K V) (p : Parents K V) → inorder (plug t p) ≡ around p (inorder t)
  unfolding plug around inorder
  inorder-plug t top = refl
  inorder-plug t (left_of c k v r p) = inorder-plug (node c t k v r) p
  inorder-plug t (right_of c l k v p) = inorder-plug (node c l k v t) p

  pub inorder-blacken : (t : Node K V) → inorder (blacken t) ≡ inorder t
  unfolding inorder
  inorder-blacken nil = refl
  inorder-blacken (node c l k v r) = refl

  pub inorder-rotate_left : (t : Node K V) → inorder (rotate_left t) ≡ inorder t
  unfolding inorder
  inorder-rotate_left nil = refl
  inorder-rotate_left (node c a k v nil) = refl
  inorder-rotate_left (node c a k v (node d b j w e)) = simp assoc

  pub inorder-rotate_right : (t : Node K V) → inorder (rotate_right t) ≡ inorder t
  unfolding inorder
  inorder-rotate_right nil = refl
  inorder-rotate_right (node c nil k v e) = refl
  inorder-rotate_right (node c (node d a j w b) k v e) = simp assoc

  -- a result of `insert_fixup` with the given pairs
  abbrev pub Gives : List (K × V) → Option (Node K V) → Type 0
  Gives xs none = Unit
  Gives xs (some t) = inorder t ≡ xs

  -- to go on at a subtree, or to stop at one, with the pairs that it should have
  again :
      (n : Node K V) (p : Parents K V) {xs : List (K × V)}
      → inorder n ≡ xs
      → Gives (around p (inorder n)) (insert_fixup n p)
      → Gives (around p xs) (insert_fixup n p)
  again n p e h = subst (λ l. Gives (around p l) (insert_fixup n p)) e h

  pub plugged :
      (t : Node K V) (p : Parents K V) {xs : List (K × V)}
      → inorder t ≡ xs
      → inorder (plug t p) ≡ around p xs
  plugged t p e = inorder-plug t p ∙ ap (around p) e

  -- a test that chooses between two results
  either :
      (b : Bool) (xs : List (K × V)) (y z : Option (Node K V))
      → Gives xs y
      → Gives xs z
      → Gives xs (elim b [ true ↦ y | false ↦ z ])
  either true xs y z h j = h
  either false xs y z h j = j

  -- `insertFixup` keeps the pairs, where it does not panic
  pub insert_fixup-around :
      (n : Node K V) (p : Parents K V) → Gives (around p (inorder n)) (insert_fixup n p)
  unfolding insert_fixup around inorder
  insert_fixup-around n top = refl
  insert_fixup-around n (left_of black k v r p) = plugged (node black n k v r) p refl
  insert_fixup-around n (right_of black l k v p) = plugged (node black l k v n) p refl
  insert_fixup-around n (left_of red k v r top) = tt
  insert_fixup-around n (right_of red l k v top) = tt
  insert_fixup-around n (left_of red k v s (left_of c gk gv uncle p)) =
      let up = node red (node black n k v s) gk gv (blacken uncle) in
      either (is_red uncle) _ _ _ (again up p (simp inorder-blacken) (insert_fixup-around up p))
        (plugged (rotate_right (node red (node black n k v s) gk gv uncle)) p (simp assoc))
  insert_fixup-around n (right_of red s k v (left_of c gk gv uncle p)) =
      let up = node red (node black s k v n) gk gv (blacken uncle) in
      let in_line = node red (blacken (rotate_left (node red s k v n))) gk gv uncle in
      either (is_red uncle) _ _ _ (again up p (simp inorder-blacken) (insert_fixup-around up p)) (
        plugged (rotate_right in_line) p
          (inorder-rotate_right in_line ∙ simp (inorder-blacken, inorder-rotate_left, assoc)))
  insert_fixup-around n (left_of red k v s (right_of c uncle gk gv p)) =
      let up = node red (blacken uncle) gk gv (node black n k v s) in
      let in_line = node red uncle gk gv (blacken (rotate_right (node red n k v s))) in
      either (is_red uncle) _ _ _ (again up p (simp inorder-blacken) (insert_fixup-around up p)) (
        plugged (rotate_left in_line) p
          (inorder-rotate_left in_line ∙ simp (inorder-blacken, inorder-rotate_right, assoc)))
  insert_fixup-around n (right_of red s k v (right_of c uncle gk gv p)) =
      let up = node red (blacken uncle) gk gv (node black s k v n) in
      either (is_red uncle) _ _ _ (again up p (simp inorder-blacken) (insert_fixup-around up p))
        (plugged (rotate_left (node red uncle gk gv (node black s k v n))) p (simp assoc))
