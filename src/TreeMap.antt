-- ===== src/TreeMap.antt =====
-- util/collections/treemap: a sorted map in a red-black tree. A node with its parent pointers is the
-- subtree below it and `Parents`, the way from it up to the root with what hangs beside the way; a step
-- of `n = n.parent` takes one off. A rotation and a change of colour act at the end of that way.
pub mod Spec
mod Around
mod AroundDelete
mod Colours
mod Insert
mod DeleteFixup
mod Delete
mod Descent
mod DescentPut
mod DescentRemove
pub mod Laws
pub mod Walk
pub mod Lookup
pub mod Tests
use Prim.Native.Nat.{Ordering}
use Prim.Native.Nat.Ordering.{lt, eq, gt}
use microservice_kit.Prelude.{
  ℕ, zero, suc, ◌+◌, ◌-◌, Bool, true, false, not, ◌&&◌, Option, none, some, List, [], ◌∷◌, ◌++◌,
  map, ◌==◌, if◌then◌else◌,
}
use microservice_kit.Prelude.Int.{ℤ, pos, negsuc}

pub data Color : Type 0 where
  red black : Color

-- The sign of what a `Comparator` returns, as the code tests it.
abbrev pub sign : ℤ → Ordering
sign (negsuc _) = lt
sign (pos zero) = eq
sign (pos (suc _)) = gt

module _ (K V : Type 0) where
  pub data Node : Type 0 where
    nil : Node
    node : Color → Node → K → V → Node → Node

  -- `left_of`: the node is the left child of a parent with this colour, key, value and right child.
  pub data Parents : Type 0 where
    top : Parents
    left_of : Color → K → V → Node → Parents → Parents
    right_of : Color → Node → K → V → Parents → Parents

  -- What a round of `deleteFixup` comes to: it goes on at the parent, or it breaks off, and the subtree
  -- of the parent is this.
  pub data Round : Type 0 where
    climb done : Node → Round

  pub record TreeMap : Type 0 where
    pub root : Node
    pub cmp : K → K → ℤ
    pub size : ℕ

module _ {K V : Type 0} where
  abbrev pub is_red : Node K V → Bool
  is_red (node red l k v r) = true
  is_red _ = false

  -- `n.color = black`, where n is not nil
  abbrev pub blacken : Node K V → Node K V
  blacken nil = nil
  blacken (node c l k v r) = node black l k v r

  -- the whole tree around a node
  pub plug : Node K V → Parents K V → Node K V
  plug t top = t
  plug t (left_of c k v r p) = plug (node c t k v r) p
  plug t (right_of c l k v p) = plug (node c l k v t) p

  -- A rotation at a node; it wants the child that comes up, and the code has one wherever it rotates.
  abbrev pub rotate_left : Node K V → Node K V
  rotate_left (node c a k v (node d b j w e)) = node d (node c a k v b) j w e
  rotate_left t = t

  abbrev pub rotate_right : Node K V → Node K V
  rotate_right (node c (node d a j w b) k v e) = node d a j w (node c b k v e)
  rotate_right t = t

  -- `insertFixup`, but for its last line. A red parent that is the root is the panic of
  -- `n.parent.parent.left`, none.
  pub insert_fixup : Node K V → Parents K V → Option (Node K V)
  insert_fixup n top = some n
  insert_fixup n (left_of black k v r p) = some (plug (node black n k v r) p)
  insert_fixup n (right_of black l k v p) = some (plug (node black l k v n) p)
  insert_fixup n (left_of red k v r top) = none
  insert_fixup n (right_of red l k v top) = none
  insert_fixup n (left_of red k v s (left_of c gk gv uncle p)) = elim (is_red uncle) [
    | true ↦ insert_fixup (node red (node black n k v s) gk gv (blacken uncle)) p
    | false ↦ some (plug (rotate_right (node red (node black n k v s) gk gv uncle)) p)
  ]
  insert_fixup n (right_of red s k v (left_of c gk gv uncle p)) = elim (is_red uncle) [
    | true ↦ insert_fixup (node red (node black s k v n) gk gv (blacken uncle)) p
    | false ↦
        some
          (plug (rotate_right (node red (blacken (rotate_left (node red s k v n))) gk gv uncle)) p)
  ]
  insert_fixup n (left_of red k v s (right_of c uncle gk gv p)) = elim (is_red uncle) [
    | true ↦ insert_fixup (node red (blacken uncle) gk gv (node black n k v s)) p
    | false ↦
        some
          (plug (rotate_left (node red uncle gk gv (blacken (rotate_right (node red n k v s))))) p)
  ]
  insert_fixup n (right_of red s k v (right_of c uncle gk gv p)) = elim (is_red uncle) [
    | true ↦ insert_fixup (node red (blacken uncle) gk gv (node black s k v n)) p
    | false ↦ some (plug (rotate_left (node red uncle gk gv (node black s k v n))) p)
  ]

  -- the last four assignments before the break, and the rotation: the sibling is black's right
  abbrev pub borrow_right : Color → Node K V → K → V → Node K V → Node K V
  borrow_right c n k v (node d a j w b) = rotate_left (node black n k v (node c a j w (blacken b)))
  borrow_right c n k v nil = node c n k v nil

  abbrev pub borrow_left : Color → Node K V → K → V → Node K V → Node K V
  borrow_left c (node d a j w b) k v n = rotate_right (node black (node c (blacken a) j w b) k v n)
  borrow_left c nil k v n = node c nil k v n

  -- the round from the test of the sibling's children on, with the sibling on the right
  pub settle_left : Color → Node K V → K → V → Node K V → Round K V
  settle_left c n k v nil = climb (node c n k v nil)
  settle_left c n k v (node d a j w b) =
      if not (is_red a) && not (is_red b)
      then climb (node c n k v (node red a j w b))
      else if not (is_red b)
      then done (borrow_right c n k v (rotate_right (node red (blacken a) j w b)))
      else done (borrow_right c n k v (node d a j w b))

  pub settle_right : Color → Node K V → K → V → Node K V → Round K V
  settle_right c nil k v n = climb (node c nil k v n)
  settle_right c (node d a j w b) k v n =
      if not (is_red b) && not (is_red a)
      then climb (node c (node red a j w b) k v n)
      else if not (is_red a)
      then done (borrow_left c (rotate_left (node red a j w (blacken b))) k v n)
      else done (borrow_left c (node d a j w b) k v n)

  -- the end of a round behind a red sibling, which is now the black grandparent: the parent is red, so
  -- to go on at it ends the loop, and makes it black
  abbrev pub settled : Round K V → Parents K V → Node K V
  settled (climb t) p = plug (blacken t) p
  settled (done t) p = blacken (plug t p)

  -- `deleteFixup`: n and the way up from it
  pub delete_fixup : Node K V → Parents K V → Node K V
  delete_fixup n top = blacken n
  delete_fixup n (left_of c k v s p) = elim (is_red n) [
    | true ↦ plug (blacken n) (left_of c k v s p)
    | false ↦ elim s [
      | node red a j w b ↦ settled (settle_left red n k v a) (left_of black j w b p)
      | other ↦ elim (settle_left c n k v other) [
        | climb t ↦ delete_fixup t p
        | done t ↦ blacken (plug t p)
      ]
    ]
  ]
  delete_fixup n (right_of c s k v p) = elim (is_red n) [
    | true ↦ plug (blacken n) (right_of c s k v p)
    | false ↦ elim s [
      | node red a j w b ↦ settled (settle_right red b k v n) (right_of black a j w p)
      | other ↦ elim (settle_right c other k v n) [
        | climb t ↦ delete_fixup t p
        | done t ↦ blacken (plug t p)
      ]
    ]
  ]

  -- `deleteNode` from `if n.left != nil { child = n.left }` on: the node has one child at most
  pub splice : Color → Node K V → Node K V → Parents K V → Node K V
  splice c l r p =
      let child : Node K V = elim l [ nil ↦ r | node d a j w b ↦ node d a j w b ] in
      elim c [ black ↦ delete_fixup child p | red ↦ plug child p ]

  -- `minimum` of a node that is not nil, by its left child, key and value
  pub minimum : Node K V → K → V → K × V
  minimum nil k v = (k, v)
  minimum (node c l j w r) k v = minimum l j w

  pub maximum : K → V → Node K V → K × V
  maximum k v nil = (k, v)
  maximum k v (node c l j w r) = maximum j w r

  -- the removal of the node that `minimum` finds
  pub splice_minimum : Color → Node K V → K → V → Node K V → Parents K V → Node K V
  splice_minimum c nil k v r p = splice c nil r p
  splice_minimum c (node d l j w b) k v r p = splice_minimum d l j w b (left_of c k v r p)

  pub delete_node : Color → Node K V → Node K V → Parents K V → Node K V
  delete_node c (node d a j w b) (node e rl rk rv rr) p =
      let (sk, sv) = minimum rl rk rv in
      splice_minimum e rl rk rv rr (right_of c (node d a j w b) sk sv p)
  delete_node c nil r p = splice c nil r p
  delete_node c (node d a j w b) nil p = splice c (node d a j w b) nil p

module _ {K V : Type 0} (cmp : K → K → ℤ) where
  -- `findNode`, and the value there
  pub find_node : K → Node K V → Option V
  find_node key nil = none
  find_node key (node c l k v r) = elim (sign (cmp key k)) [
    | lt ↦ find_node key l
    | gt ↦ find_node key r
    | eq ↦ some v
  ]

  -- the loop of `Put`, with what follows it: the root before its last recolouring, and whether a node
  -- came in
  pub put_at : K → V → Node K V → Parents K V → Option (Node K V × Bool)
  put_at key value nil p = elim (insert_fixup (node red nil key value nil) p) [
    | none ↦ none
    | some t ↦ some (blacken t, true)
  ]
  put_at key value (node c l k v r) p = elim (sign (cmp key k)) [
    | lt ↦ put_at key value l (left_of c k v r p)
    | gt ↦ put_at key value r (right_of c l k v p)
    | eq ↦ some (plug (node c l k value r) p, false)
  ]

  -- `findNode` and `deleteNode` in `Remove`
  pub remove_at : K → Node K V → Parents K V → Option (V × Node K V)
  remove_at key nil p = none
  remove_at key (node c l k v r) p = elim (sign (cmp key k)) [
    | lt ↦ remove_at key l (left_of c k v r p)
    | gt ↦ remove_at key r (right_of c l k v p)
    | eq ↦ some (v, delete_node c l r p)
  ]

module _ {K V : Type 0} where
  pub new : (K → K → ℤ) → TreeMap K V
  new cmp = record { root = nil; cmp = cmp; size = 0 }

  -- `Put`; none is a panic
  pub put : TreeMap K V → K → V → Option (TreeMap K V)
  put m key value = elim m.root [
    | nil ↦ some (record m { root = node black nil key value nil; size = 1 })
    | node c l k v r ↦ elim (put_at m.cmp key value (node c l k v r) top) [
      | none ↦ none
      | some (t, grown) ↦ some (record m { root = t; size = if grown then m.size + 1 else m.size })
    ]
  ]

  pub get_value : TreeMap K V → K → Option V
  get_value m key = find_node m.cmp key m.root

  pub get_or_default : TreeMap K V → K → V → V
  get_or_default m key default = elim (get_value m key) [ none ↦ default | some v ↦ v ]

  pub remove_key : TreeMap K V → K → TreeMap K V × Option V
  remove_key m key = elim (remove_at m.cmp key m.root top) [
    | none ↦ (m, none)
    | some (v, t) ↦ (record m { root = t; size = m.size - 1 }, some v)
  ]

  pub contains_key : TreeMap K V → K → Bool
  contains_key m key = elim (find_node m.cmp key m.root) [ none ↦ false | some v ↦ true ]

  pub len : TreeMap K V → ℕ
  len m = m.size

  pub is_empty : TreeMap K V → Bool
  is_empty m = m.size == 0

  pub clear : TreeMap K V → TreeMap K V
  clear m = record m { root = nil; size = 0 }

  -- `inorderTraversal` with a function that goes on: the pairs in the order of the calls
  unfoldable pub inorder : Node K V → List (K × V)
  inorder nil = []
  inorder (node c l k v r) = inorder l ++ (k, v) ∷ inorder r

  -- `inorderTraversal` with a function that may stop, over the state that it changes
  pub traverse {ℓ} : {S : Type ℓ} → (K → V → S → Bool × S) → Node K V → S → Bool × S
  traverse fn nil s = (true, s)
  traverse fn (node c l k v r) s =
      let (on, s₁) = traverse fn l s in
      let (more, s₂) = fn k v s₁ in
      if not on then (false, s₁) else if not more then (false, s₂) else traverse fn r s₂

  unfoldable pub entries : TreeMap K V → List (K × V)
  entries m = inorder m.root

  pub keys : TreeMap K V → List K
  keys m = map (λ (e : K × V). e.0) (inorder m.root)

  pub values : TreeMap K V → List V
  values m = map (λ (e : K × V). e.1) (inorder m.root)

  pub first : TreeMap K V → Option (K × V)
  first m = elim m.root [ nil ↦ none | node c l k v r ↦ some (minimum l k v) ]

  pub last : TreeMap K V → Option (K × V)
  last m = elim m.root [ nil ↦ none | node c l k v r ↦ some (maximum k v r) ]

  -- the calls of `Put` for each pair
  pub put_all : TreeMap K V → List (K × V) → Option (TreeMap K V)
  put_all m [] = some m
  put_all m ((k, v) ∷ es) = elim (put m k v) [ none ↦ none | some m₁ ↦ put_all m₁ es ]

  pub clone : TreeMap K V → Option (TreeMap K V)
  clone m = put_all (new m.cmp) (inorder m.root)
