-- ===== src/TreeMap/AroundDelete.antt =====
-- util/collections/treemap: `deleteFixup` and `deleteNode` keep the order of the pairs, and take one out.
use mathlib.Core.List.{append_assoc, append-nil}
use microservice_kit.Prelude.{◌≡◌, refl, sym, ◌∙◌, Bool, true, false, List, ◌∷◌, ◌++◌, arith, ap}
use microservice_kit.TreeMap.{
  Color, red, black, Node, nil, node, Parents, top, left_of, right_of, Round, climb, done, is_red,
  blacken, plug, rotate_left, rotate_right, borrow_left, borrow_right, settle_left, settle_right,
  settled, delete_fixup, splice, minimum, splice_minimum, delete_node, inorder,
}
use microservice_kit.TreeMap.Around.{
  around, plugged, inorder-plug, inorder-blacken, inorder-rotate_left, inorder-rotate_right,
}

ruleset assoc = (append_assoc, append-nil)

module _ {K V : Type 0} where
  -- the pairs of the subtree that a round of `deleteFixup` leaves
  abbrev round_pairs : Round K V → List (K × V)
  round_pairs (climb t) = inorder t
  round_pairs (done t) = inorder t

  inorder-borrow_right :
      (c : Color) (n : Node K V) (k : K) (v : V) (s : Node K V)
      → inorder (borrow_right c n k v s) ≡ inorder n ++ (k, v) ∷ inorder s
  unfolding inorder
  inorder-borrow_right c n k v nil = refl
  inorder-borrow_right c n k v (node d a j w b) = simp (inorder-blacken, assoc)

  inorder-borrow_left :
      (c : Color) (s : Node K V) (k : K) (v : V) (n : Node K V)
      → inorder (borrow_left c s k v n) ≡ inorder s ++ (k, v) ∷ inorder n
  unfolding inorder
  inorder-borrow_left c nil k v n = refl
  inorder-borrow_left c (node d a j w b) k v n = simp (inorder-blacken, assoc)

  pairs-settle_left :
      (c : Color) (n : Node K V) (k : K) (v : V) (s : Node K V)
      → round_pairs (settle_left c n k v s) ≡ inorder n ++ (k, v) ∷ inorder s
  unfolding settle_left inorder
  pairs-settle_left c n k v nil = refl
  pairs-settle_left c n k v (node d a j w b) = ground (
    arith,
    inorder-borrow_right c n k v (node d a j w b),
    inorder-borrow_right c n k v (rotate_right (node red (blacken a) j w b)),
    inorder-rotate_right (node red (blacken a) j w b),
    inorder-blacken a,
  )

  pairs-settle_right :
      (c : Color) (s : Node K V) (k : K) (v : V) (n : Node K V)
      → round_pairs (settle_right c s k v n) ≡ inorder s ++ (k, v) ∷ inorder n
  unfolding settle_right inorder
  pairs-settle_right c nil k v n = refl
  pairs-settle_right c (node d a j w b) k v n = ground (
    arith,
    inorder-borrow_left c (node d a j w b) k v n,
    inorder-borrow_left c (rotate_left (node red a j w (blacken b))) k v n,
    inorder-rotate_left (node red a j w (blacken b)),
    inorder-blacken b,
  )

  inorder-settled :
      (r : Round K V) (p : Parents K V) → inorder (settled r p) ≡ around p (round_pairs r)
  inorder-settled (climb t) p = plugged (blacken t) p (inorder-blacken t)
  inorder-settled (done t) p = inorder-blacken (plug t p) ∙ inorder-plug t p

  -- a test that chooses between two trees
  whichever :
      (b : Bool) (xs : List (K × V)) (y z : Node K V)
      → inorder y ≡ xs
      → inorder z ≡ xs
      → inorder (elim b [ true ↦ y | false ↦ z ]) ≡ xs
  whichever true xs y z h j = h
  whichever false xs y z h j = j

  after_round :
      (r : Round K V) (p : Parents K V) (xs : List (K × V))
      → round_pairs r ≡ xs
      → ((t : Node K V) → inorder (delete_fixup t p) ≡ around p (inorder t))
      → inorder (elim r [ climb t ↦ delete_fixup t p | done t ↦ blacken (plug t p) ]) ≡ around p xs
  after_round (climb t) p xs e h = h t ∙ ap (around p) e
  after_round (done t) p xs e h = inorder-blacken (plug t p) ∙ inorder-plug t p ∙ ap (around p) e

  -- `deleteFixup` keeps the pairs
  pub delete_fixup-around :
      (n : Node K V) (p : Parents K V) → inorder (delete_fixup n p) ≡ around p (inorder n)
  unfolding delete_fixup around inorder
  delete_fixup-around n top = inorder-blacken n
  delete_fixup-around n (left_of c k v nil p) =
      whichever (is_red n) _ _ _ (plugged (blacken n) (left_of c k v nil p) (inorder-blacken n)) (
        after_round (settle_left c n k v nil) p _ (pairs-settle_left c n k v nil)
          (λ t. delete_fixup-around t p))
  delete_fixup-around n (left_of c k v (node black a j w b) p) =
      let s = node black a j w b in
      whichever (is_red n) _ _ _ (plugged (blacken n) (left_of c k v s p) (inorder-blacken n)) (
        after_round (settle_left c n k v s) p _ (pairs-settle_left c n k v s)
          (λ t. delete_fixup-around t p))
  delete_fixup-around n (left_of c k v (node red a j w b) p) =
      whichever (is_red n) _ _ _
        (plugged (blacken n) (left_of c k v (node red a j w b) p) (inorder-blacken n))
        (inorder-settled (settle_left red n k v a) (left_of black j w b p)
          ∙ ap (around (left_of black j w b p)) (pairs-settle_left red n k v a)
          ∙ ap (around p) (simp assoc))
  delete_fixup-around n (right_of c nil k v p) =
      whichever (is_red n) _ _ _ (plugged (blacken n) (right_of c nil k v p) (inorder-blacken n)) (
        after_round (settle_right c nil k v n) p _ (pairs-settle_right c nil k v n)
          (λ t. delete_fixup-around t p))
  delete_fixup-around n (right_of c (node black a j w b) k v p) =
      let s = node black a j w b in
      whichever (is_red n) _ _ _ (plugged (blacken n) (right_of c s k v p) (inorder-blacken n)) (
        after_round (settle_right c s k v n) p _ (pairs-settle_right c s k v n)
          (λ t. delete_fixup-around t p))
  delete_fixup-around n (right_of c (node red a j w b) k v p) =
      whichever (is_red n) _ _ _
        (plugged (blacken n) (right_of c (node red a j w b) k v p) (inorder-blacken n))
        (inorder-settled (settle_right red b k v n) (right_of black a j w p)
          ∙ ap (around (right_of black a j w p)) (pairs-settle_right red b k v n)
          ∙ ap (around p) (simp assoc))

  -- the removal of a node without a left child, or without a right one
  splice_left-around :
      (c : Color) (r : Node K V) (p : Parents K V)
      → inorder (splice c nil r p) ≡ around p (inorder r)
  unfolding splice
  splice_left-around black r p = delete_fixup-around r p
  splice_left-around red r p = inorder-plug r p

  splice_right-around :
      (c : Color) (l : Node K V) (p : Parents K V)
      → inorder (splice c l nil p) ≡ around p (inorder l)
  unfolding splice
  splice_right-around black nil p = delete_fixup-around nil p
  splice_right-around red nil p = inorder-plug nil p
  splice_right-around black (node d a j w b) p = delete_fixup-around (node d a j w b) p
  splice_right-around red (node d a j w b) p = inorder-plug (node d a j w b) p

  -- the pairs behind the least one
  abbrev pub behind_minimum : Node K V → K → V → Node K V → List (K × V)
  behind_minimum nil k v r = inorder r
  behind_minimum (node d l j w b) k v r = behind_minimum l j w b ++ (k, v) ∷ inorder r

  pub minimum-behind :
      (l : Node K V) (k : K) (v : V) (r : Node K V)
      → minimum l k v ∷ behind_minimum l k v r ≡ inorder l ++ (k, v) ∷ inorder r
  unfolding minimum inorder
  minimum-behind nil k v r = refl
  minimum-behind (node d l j w b) k v r =
      ap (λ xs. xs ++ (k, v) ∷ inorder r) (minimum-behind l j w b)

  splice_minimum-around :
      (c : Color) (l : Node K V) (k : K) (v : V) (r : Node K V) (p : Parents K V)
      → inorder (splice_minimum c l k v r p) ≡ around p (behind_minimum l k v r)
  unfolding splice_minimum around
  splice_minimum-around c nil k v r p = splice_left-around c r p
  splice_minimum-around c (node d l j w b) k v r p =
      splice_minimum-around d l j w b (left_of c k v r p)

  -- `deleteNode` takes out the pair of its node, and no other
  pub delete_node-around :
      (c : Color) (l r : Node K V) (p : Parents K V)
      → inorder (delete_node c l r p) ≡ around p (inorder l ++ inorder r)
  unfolding delete_node around inorder
  delete_node-around c nil r p = splice_left-around c r p
  delete_node-around c (node d a j w b) nil p =
      splice_right-around c (node d a j w b) p
      ∙ ap (around p) (sym (append-nil (inorder (node d a j w b))))
  delete_node-around c (node d a j w b) (node e rl rk rv rr) p =
      let l = node d a j w b in
      let m = minimum rl rk rv in
      splice_minimum-around e rl rk rv rr (right_of c l m.0 m.1 p)
      ∙ ap (λ xs. around p (inorder l ++ xs)) (minimum-behind rl rk rv rr)
