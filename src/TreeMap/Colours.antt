-- ===== src/TreeMap/Colours.antt =====
-- util/collections/treemap: the red-black condition of a tree, and of the way up from a subtree.
use mathlib.Core.Bool.{false≢true}
use microservice_kit.Prelude.{ℕ, suc, ◌≡◌, refl, sym, ◌∙◌, subst, Bool, true, false}
use microservice_kit.TreeMap.{
  Color, red, black, Node, nil, node, Parents, top, left_of, right_of, is_red, blacken, plug,
}

-- the height in black nodes, above a node of a colour
abbrev pub grown : Color → ℕ → ℕ
grown red h = h
grown black h = suc h

not_so : (b : Bool) → (b ≡ true → false ≡ true) → b ≡ false
not_so true f = sym (f refl)
not_so false f = refl

module _ {K V : Type 0} where
  abbrev pub height : Node K V → ℕ
  height nil = 0
  height (node c l k v r) = grown c (height l)

  -- a red node has no red child
  abbrev pub NoRed : Color → Node K V → Node K V → Type 0
  NoRed red l r = (is_red l ≡ false) × (is_red r ≡ false)
  NoRed black l r = Unit

  -- below each node, both sides have the same height, and no red node has a red child
  abbrev pub IsRb : Node K V → Type 0
  IsRb nil = Unit
  IsRb (node c l k v r) = (height l ≡ height r) × NoRed c l r × IsRb l × IsRb r

  -- a red node may hang there: below a black one
  abbrev pub takes_red : Parents K V → Bool
  takes_red (left_of black k v r p) = true
  takes_red (right_of black l k v p) = true
  takes_red _ = false

  abbrev pub SideOk : Color → Node K V → Parents K V → Type 0
  SideOk red s p = (is_red s ≡ false) × (takes_red p ≡ true)
  SideOk black s p = Unit

  -- The way up has the condition, for a subtree of the height; its root, where it has one, is black.
  abbrev pub ParentsOk : ℕ → Parents K V → Type 0
  ParentsOk h top = Unit
  ParentsOk h (left_of c k v s p) = (h ≡ height s) × IsRb s × SideOk c s p × ParentsOk (grown c h) p
  ParentsOk h (right_of c s k v p) =
      (height s ≡ h) × IsRb s × SideOk c s p × ParentsOk (grown c h) p

  pub blacken-not_red : (t : Node K V) → is_red (blacken t) ≡ false
  blacken-not_red nil = refl
  blacken-not_red (node c l k v r) = refl

  pub blacken-IsRb : (t : Node K V) → IsRb t → IsRb (blacken t)
  blacken-IsRb nil h = tt
  blacken-IsRb (node c l k v r) (h, n, a, b) = (h, tt, a, b)

  -- a tree with the condition, and a black root
  abbrev pub IsBalanced : Node K V → Type 0
  IsBalanced t = (is_red t ≡ false) × IsRb t

  pub blacken-IsBalanced : (t : Node K V) → IsRb t → IsBalanced (blacken t)
  blacken-IsBalanced t h = (blacken-not_red t, blacken-IsRb t h)

  pub plug-IsBalanced :
      (t : Node K V) (p : Parents K V)
      → IsRb t
      → ParentsOk (height t) p
      → (is_red t ≡ true → takes_red p ≡ true)
      → IsBalanced (plug t p)
  unfolding plug
  plug-IsBalanced nil top h o f = (refl, h)
  plug-IsBalanced (node black l k v r) top h o f = (refl, h)
  plug-IsBalanced (node red l k v r) top h o f = absurd (false≢true (f refl))
  plug-IsBalanced t (left_of black k v r p) h (e, s, i, o) f =
      plug-IsBalanced (node black t k v r) p (e, tt, h, s) o (λ q. absurd (false≢true q))
  plug-IsBalanced t (left_of red k v r p) h (e, s, (i, j), o) f =
      plug-IsBalanced (node red t k v r) p (e, (not_so (is_red t) f, i), h, s) o (λ q. j)
  plug-IsBalanced t (right_of black l k v p) h (e, s, i, o) f =
      plug-IsBalanced (node black l k v t) p (e, tt, s, h)
        (subst (λ m. ParentsOk (suc m) p) (sym e) o) (λ q. absurd (false≢true q))
  plug-IsBalanced t (right_of red l k v p) h (e, s, (i, j), o) f =
      plug-IsBalanced (node red l k v t) p (e, (i, not_so (is_red t) f), s, h)
        (subst (λ m. ParentsOk m p) (sym e) o) (λ q. j)

  -- a subtree with the condition, in a tree that has it
  abbrev pub Fits : Node K V → Parents K V → Type 0
  Fits t p = IsRb t × ParentsOk (height t) p × (is_red t ≡ true → takes_red p ≡ true)

  pub Fits-left :
      (c : Color) (l : Node K V) (k : K) (v : V) (r : Node K V) (p : Parents K V)
      → Fits (node c l k v r) p
      → Fits l (left_of c k v r p)
  Fits-left black l k v r p ((e, _, m, y), o, f) = (m, (e, y, tt, o), λ q. refl)
  Fits-left red l k v r p ((e, (i, j), m, y), o, f) =
      (m, (e, y, (j, f refl), o), λ q. absurd (false≢true (sym i ∙ q)))

  -- also under another pair in the parent
  pub Fits-right :
      (c : Color) (l : Node K V) (k : K) (v : V) (r : Node K V) (p : Parents K V) (j : K) (w : V)
      → Fits (node c l k v r) p
      → Fits r (right_of c l j w p)
  Fits-right black l k v r p j w ((e, _, m, y), o, f) =
      (y, (e, m, tt, subst (λ h. ParentsOk (suc h) p) e o), λ q. refl)
  Fits-right red l k v r p j w ((e, (i, b), m, y), o, f) =
      (y, (e, m, (i, f refl), subst (λ h. ParentsOk h p) e o), λ q. absurd (false≢true (sym b ∙ q)))

  pub Fits-value :
      (c : Color) (l : Node K V) (k : K) (v w : V) (r : Node K V) (p : Parents K V)
      → Fits (node c l k v r) p
      → Fits (node c l k w r) p
  Fits-value black l k v w r p (m, o, f) = (m, o, f)
  Fits-value red l k v w r p (m, o, f) = (m, o, f)

  pub Fits-IsBalanced : (t : Node K V) (p : Parents K V) → Fits t p → IsBalanced (plug t p)
  Fits-IsBalanced t p (m, o, f) = plug-IsBalanced t p m o f
