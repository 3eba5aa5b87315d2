-- ===== src/TreeMap/DeleteFixup.antt =====
-- util/collections/treemap: `deleteFixup` makes up for the black node that `deleteNode` took out.
use mathlib.Core.Bool.{false≢true}
use microservice_kit.Prelude.{ℕ, suc, ◌≡◌, refl, sym, ◌∙◌, subst, Bool, true, false, arith}
use microservice_kit.TreeMap.{
  Color, red, black, Node, nil, node, Parents, top, left_of, right_of, Round, climb, done, is_red,
  blacken, plug, settle_left, settle_right, settled, delete_fixup,
}
use microservice_kit.TreeMap.Colours.{
  grown, height, IsRb, SideOk, ParentsOk, takes_red, IsBalanced, blacken-IsBalanced,
  plug-IsBalanced,
}

abbrev is_red_color : Color → Bool
is_red_color red = true
is_red_color black = false

module _ {K V : Type 0} where
  -- What a round leaves at a parent of a colour, where the subtree had lost one from the height suc h: a
  -- tree that still lacks one, or one that lacks nothing.
  abbrev RoundOk : Color → ℕ → Round K V → Type 0
  RoundOk c h (climb t) = IsRb (blacken t) × (height t ≡ grown c h) × (height (blacken t) ≡ suc h)
  RoundOk c h (done t) = IsRb t × (height t ≡ grown c (suc h)) × (is_red t ≡ is_red_color c)

  settle_left-RoundOk :
      (c : Color) (n : Node K V) (k : K) (v : V) (s : Node K V)
      → IsRb n
      → is_red n ≡ false
      → IsRb s
      → is_red s ≡ false
      → suc (height n) ≡ height s
      → RoundOk c (height n) (settle_left c n k v s)
  unfolding settle_left
  settle_left-RoundOk c n k v nil a b m d e = absurd (omega arith)
  settle_left-RoundOk c n k v (node red x j w y) a b m d e = absurd (false≢true (sym d))
  settle_left-RoundOk red n k v (node black x j w (node red p q r s)) a b
        (m, _, mx, (my, (ny, nz), mp, ms)) d e =
      ground arith
  settle_left-RoundOk black n k v (node black x j w (node red p q r s)) a b
        (m, _, mx, (my, (ny, nz), mp, ms)) d e =
      ground arith
  settle_left-RoundOk red n k v (node black (node red p q r s) j w nil) a b
        (m, _, (my, (ny, nz), mp, ms), mx) d e =
      ground arith
  settle_left-RoundOk black n k v (node black (node red p q r s) j w nil) a b
        (m, _, (my, (ny, nz), mp, ms), mx) d e =
      ground arith
  settle_left-RoundOk red n k v (node black (node red p q r s) j w (node black f g h i)) a b
        (m, _, (my, (ny, nz), mp, ms), mx) d e =
      ground arith
  settle_left-RoundOk black n k v (node black (node red p q r s) j w (node black f g h i)) a b
        (m, _, (my, (ny, nz), mp, ms), mx) d e =
      ground arith
  settle_left-RoundOk red n k v (node black nil j w nil) a b (m, _, x, y) d e = ground arith
  settle_left-RoundOk black n k v (node black nil j w nil) a b (m, _, x, y) d e = ground arith
  settle_left-RoundOk c n k v (node black nil j w (node black f g h i)) a b (m, _, x, y) d e =
      absurd (omega arith)
  settle_left-RoundOk c n k v (node black (node black p q r s) j w nil) a b (m, _, x, y) d e =
      absurd (omega arith)
  settle_left-RoundOk red n k v (node black (node black p q r s) j w (node black f g h i)) a b
        (m, _, x, y) d e =
      ground arith
  settle_left-RoundOk black n k v (node black (node black p q r s) j w (node black f g h i)) a b
        (m, _, x, y) d e =
      ground arith

  settle_right-RoundOk :
      (c : Color) (s : Node K V) (k : K) (v : V) (n : Node K V)
      → IsRb n
      → is_red n ≡ false
      → IsRb s
      → is_red s ≡ false
      → height s ≡ suc (height n)
      → RoundOk c (height n) (settle_right c s k v n)
  unfolding settle_right
  settle_right-RoundOk c nil k v n a b m d e = absurd (omega arith)
  settle_right-RoundOk c (node red x j w y) k v n a b m d e = absurd (false≢true (sym d))
  settle_right-RoundOk red (node black (node red p q r s) j w x) k v n a b
        (m, _, (my, (ny, nz), mp, ms), mx) d e =
      ground arith
  settle_right-RoundOk black (node black (node red p q r s) j w x) k v n a b
        (m, _, (my, (ny, nz), mp, ms), mx) d e =
      ground arith
  settle_right-RoundOk red (node black nil j w (node red p q r s)) k v n a b
        (m, _, mx, (my, (ny, nz), mp, ms)) d e =
      ground arith
  settle_right-RoundOk black (node black nil j w (node red p q r s)) k v n a b
        (m, _, mx, (my, (ny, nz), mp, ms)) d e =
      ground arith
  settle_right-RoundOk red (node black (node black f g h i) j w (node red p q r s)) k v n a b
        (m, _, mx, (my, (ny, nz), mp, ms)) d e =
      ground arith
  settle_right-RoundOk black (node black (node black f g h i) j w (node red p q r s)) k v n a b
        (m, _, mx, (my, (ny, nz), mp, ms)) d e =
      ground arith
  settle_right-RoundOk red (node black nil j w nil) k v n a b (m, _, x, y) d e = ground arith
  settle_right-RoundOk black (node black nil j w nil) k v n a b (m, _, x, y) d e = ground arith
  settle_right-RoundOk c (node black nil j w (node black f g h i)) k v n a b (m, _, x, y) d e =
      absurd (omega arith)
  settle_right-RoundOk c (node black (node black p q r s) j w nil) k v n a b (m, _, x, y) d e =
      absurd (omega arith)
  settle_right-RoundOk red (node black (node black p q r s) j w (node black f g h i)) k v n a b
        (m, _, x, y) d e =
      ground arith
  settle_right-RoundOk black (node black (node black p q r s) j w (node black f g h i)) k v n a b
        (m, _, x, y) d e =
      ground arith

  -- the end of a round at a parent of a colour: `deleteFixup` goes on, or stops
  after_round :
      (c : Color) (h : ℕ) (r : Round K V) (s : Node K V) (p : Parents K V)
      → RoundOk c h r
      → SideOk c s p
      → ParentsOk (grown c (suc h)) p
      → ((t : Node K V)
          → IsRb (blacken t)
          → ParentsOk (suc (height t)) p
          → IsBalanced (delete_fixup t p))
      → IsBalanced (elim r [ climb t ↦ delete_fixup t p | done t ↦ blacken (plug t p) ])
  after_round red h (climb t) s p (a, e, f) i o go =
      go t a (subst (λ m. ParentsOk (suc m) p) (sym e) o)
  after_round black h (climb t) s p (a, e, f) i o go =
      go t a (subst (λ m. ParentsOk (suc m) p) (sym e) o)
  after_round red h (done t) s p (a, e, f) (i, q) o go =
      blacken-IsBalanced (plug t p)
        (plug-IsBalanced t p a (subst (λ m. ParentsOk m p) (sym e) o) (λ _. q)).1
  after_round black h (done t) s p (a, e, f) i o go =
      blacken-IsBalanced (plug t p)
        (plug-IsBalanced t p a (subst (λ m. ParentsOk m p) (sym e) o)
          (λ q. absurd (false≢true (sym f ∙ q)))).1

  -- the end of a round behind a red sibling
  settled-IsBalanced :
      (h : ℕ) (r : Round K V) (p : Parents K V)
      → RoundOk red h r
      → takes_red p ≡ true
      → ParentsOk (suc h) p
      → IsBalanced (settled r p)
  settled-IsBalanced h (climb t) p (a, e, f) q o =
      plug-IsBalanced (blacken t) p a (subst (λ m. ParentsOk m p) (sym f) o) (λ _. q)
  settled-IsBalanced h (done t) p (a, e, f) q o =
      blacken-IsBalanced (plug t p)
        (plug-IsBalanced t p a (subst (λ m. ParentsOk m p) (sym e) o) (λ _. q)).1

  red_or_not :
      (b : Bool) (y z : Node K V)
      → (b ≡ true → IsBalanced y)
      → (b ≡ false → IsBalanced z)
      → IsBalanced (elim b [ true ↦ y | false ↦ z ])
  red_or_not true y z h j = h refl
  red_or_not false y z h j = j refl

  unblackened : (n : Node K V) → is_red n ≡ false → IsRb (blacken n) → IsRb n
  unblackened nil e h = tt
  unblackened (node red l k v r) e h = absurd (false≢true (sym e))
  unblackened (node black l k v r) e h = h

  -- a red node takes the black of the lost one
  blackened :
      (n : Node K V) (p : Parents K V)
      → is_red n ≡ true
      → IsRb (blacken n)
      → ParentsOk (suc (height n)) p
      → IsBalanced (plug (blacken n) p)
  blackened nil p e h o = absurd (false≢true e)
  blackened (node black l k v r) p e h o = absurd (false≢true e)
  blackened (node red l k v r) p e h o =
      plug-IsBalanced (node black l k v r) p h o (λ q. absurd (false≢true q))

  -- The tree after `deleteFixup` has the condition, where all but the lost black node had it.
  pub delete_fixup-IsBalanced :
      (n : Node K V) (p : Parents K V)
      → IsRb (blacken n)
      → ParentsOk (suc (height n)) p
      → IsBalanced (delete_fixup n p)
  unfolding delete_fixup
  delete_fixup-IsBalanced nil top a o = (refl, tt)
  delete_fixup-IsBalanced (node c l k v r) top a o = (refl, a)
  delete_fixup-IsBalanced n (left_of c k v nil p) a (e, m, i, o) = absurd (omega arith)
  delete_fixup-IsBalanced n (left_of c k v (node black f j w g) p) a (e, m, i, o) =
      let s = node black f j w g in
      red_or_not (is_red n) _ _ (λ q. blackened n (left_of c k v s p) q a (e, m, i, o))
        (λ q.
          after_round c (height n) (settle_left c n k v s) s p
            (settle_left-RoundOk c n k v s (unblackened n q a) q m refl e) i o
            (λ t. delete_fixup-IsBalanced t p))
  delete_fixup-IsBalanced n (left_of red k v (node red f j w g) p) a (e, m, (i, q), o) =
      absurd (false≢true (sym i))
  delete_fixup-IsBalanced n (left_of black k v (node red f j w g) p) a
        (e, (d, (i, x), y, z), u, o) =
      red_or_not (is_red n) _ _
        (λ q. blackened n (left_of black k v (node red f j w g) p) q a (e, (d, (i, x), y, z), u, o))
        (λ q.
          settled-IsBalanced (height n) (settle_left red n k v f) (left_of black j w g p)
            (settle_left-RoundOk red n k v f (unblackened n q a) q y i e) refl (e ∙ d, z, tt, o))
  delete_fixup-IsBalanced n (right_of c nil k v p) a (e, m, i, o) = absurd (omega arith)
  delete_fixup-IsBalanced n (right_of c (node black f j w g) k v p) a (e, m, i, o) =
      let s = node black f j w g in
      red_or_not (is_red n) _ _ (λ q. blackened n (right_of c s k v p) q a (e, m, i, o))
        (λ q.
          after_round c (height n) (settle_right c s k v n) s p
            (settle_right-RoundOk c s k v n (unblackened n q a) q m refl e) i o
            (λ t. delete_fixup-IsBalanced t p))
  delete_fixup-IsBalanced n (right_of red (node red f j w g) k v p) a (e, m, (i, q), o) =
      absurd (false≢true (sym i))
  delete_fixup-IsBalanced n (right_of black (node red f j w g) k v p) a
        (e, (d, (i, x), y, z), u, o) =
      red_or_not (is_red n) _ _
        (λ q.
          blackened n (right_of black (node red f j w g) k v p) q a (e, (d, (i, x), y, z), u, o))
        (λ q.
          settled-IsBalanced (height n) (settle_right red g k v n) (right_of black f j w p)
            (settle_right-RoundOk red g k v n (unblackened n q a) q z x (sym d ∙ e)) refl
            (e, y, tt, o))
