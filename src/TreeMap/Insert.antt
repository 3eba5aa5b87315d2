-- ===== src/TreeMap/Insert.antt =====
-- util/collections/treemap: `insertFixup` does not panic, and leaves a red-black tree.
use mathlib.Core.Bool.{false≢true}
use microservice_kit.Prelude.{suc, ◌≡◌, refl, sym, ◌∙◌, ap, subst, false, Option, none, some}
use microservice_kit.TreeMap.{
  red, black, Node, nil, node, Parents, top, left_of, right_of, is_red, blacken, plug, insert_fixup,
}
use microservice_kit.TreeMap.Colours.{
  height, IsRb, IsBalanced, ParentsOk, blacken-IsBalanced, plug-IsBalanced,
}

module _ {K V : Type 0} where
  -- there is a tree, and it has the condition once its root is black
  abbrev pub Survives : Option (Node K V) → Type 0
  Survives none = ⊥
  Survives (some t) = IsBalanced (blacken t)

  hung_black :
      (t : Node K V) (p : Parents K V)
      → is_red t ≡ false
      → IsRb t
      → ParentsOk (height t) p
      → IsBalanced (blacken (plug t p))
  hung_black t p e h o =
      blacken-IsBalanced (plug t p)
        (plug-IsBalanced t p h o (λ q. absurd (false≢true (sym e ∙ q)))).1

  -- a rotation, where the uncle is not red: the node has the side of its parent, or the other one
  outer_left :
      (n : Node K V) (k : K) (v : V) (s : Node K V) (x : K) (y : V) (u : Node K V) (p : Parents K V)
      → IsRb n
      → is_red s ≡ false
      → is_red u ≡ false
      → IsRb s
      → IsRb u
      → height n ≡ height s
      → height n ≡ height u
      → ParentsOk (suc (height n)) p
      → IsBalanced (blacken (plug (node black n k v (node red s x y u)) p))
  outer_left n k v s x y u p h i q g m e f o =
      hung_black (node black n k v (node red s x y u)) p refl (e, tt, h, (sym e ∙ f, (i, q), g, m))
        o

  outer_right :
      (u : Node K V) (x : K) (y : V) (s : Node K V) (k : K) (v : V) (n : Node K V) (p : Parents K V)
      → IsRb n
      → is_red s ≡ false
      → is_red u ≡ false
      → IsRb s
      → IsRb u
      → height s ≡ height n
      → height u ≡ height n
      → ParentsOk (suc (height n)) p
      → IsBalanced (blacken (plug (node black (node red u x y s) k v n) p))
  outer_right u x y s k v n p h i q g m e f o =
      hung_black (node black (node red u x y s) k v n) p refl (f, tt, (f ∙ sym e, (q, i), m, g), h)
        (subst (λ m. ParentsOk (suc m) p) (sym f) o)

  inner :
      (s : Node K V) (k : K) (v : V) (a : Node K V) (j : K) (w : V) (b : Node K V) (x : K) (y : V)
      (u : Node K V) (p : Parents K V)
      → IsRb (node red a j w b)
      → is_red s ≡ false
      → is_red u ≡ false
      → IsRb s
      → IsRb u
      → height s ≡ height a
      → height a ≡ height u
      → ParentsOk (suc (height a)) p
      → IsBalanced (blacken (plug (node black (node red s k v a) j w (node red b x y u)) p))
  inner s k v a j w b x y u p (l, (na, nb), ra, rb) i q g m e f o =
      hung_black (node black (node red s k v a) j w (node red b x y u)) p refl
        (e ∙ l, tt, (e, (i, na), g, ra), (sym l ∙ f, (nb, q), rb, m))
        (subst (λ m. ParentsOk (suc m) p) (sym e) o)

  inner_right :
      (u : Node K V) (x : K) (y : V) (a : Node K V) (j : K) (w : V) (b : Node K V) (k : K) (v : V)
      (s : Node K V) (p : Parents K V)
      → IsRb (node red a j w b)
      → is_red s ≡ false
      → is_red u ≡ false
      → IsRb s
      → IsRb u
      → height a ≡ height s
      → height u ≡ height a
      → ParentsOk (suc (height a)) p
      → IsBalanced (blacken (plug (node black (node red u x y a) j w (node red b k v s)) p))
  inner_right u x y a j w b k v s p (l, (na, nb), ra, rb) i q g m e f o =
      hung_black (node black (node red u x y a) j w (node red b k v s)) p refl
        (f ∙ l, tt, (f, (q, na), m, ra), (sym l ∙ e, (nb, i), rb, g))
        (subst (λ m. ParentsOk (suc m) p) (sym f) o)

  pub insert_fixup-Survives :
      (a : Node K V) (j : K) (w : V) (b : Node K V) (p : Parents K V)
      → IsRb (node red a j w b)
      → ParentsOk (height a) p
      → Survives (insert_fixup (node red a j w b) p)
  unfolding insert_fixup
  insert_fixup-Survives a j w b top h o = blacken-IsBalanced (node red a j w b) h
  insert_fixup-Survives a j w b (left_of black k v r p) h (e, s, i, o) =
      hung_black (node black (node red a j w b) k v r) p refl (e, tt, h, s) o
  insert_fixup-Survives a j w b (right_of black l k v p) h (e, s, i, o) =
      hung_black (node black l k v (node red a j w b)) p refl (e, tt, s, h)
        (subst (λ m. ParentsOk (suc m) p) (sym e) o)
  insert_fixup-Survives a j w b (left_of red k v s top) h (e, g, (i, q), o) = absurd (false≢true q)
  insert_fixup-Survives a j w b (right_of red s k v top) h (e, g, (i, q), o) = absurd (false≢true q)
  insert_fixup-Survives a j w b (left_of red k v s (left_of red x y u p)) h (e, g, (i, q), o) =
      absurd (false≢true q)
  insert_fixup-Survives a j w b (right_of red s k v (left_of red x y u p)) h (e, g, (i, q), o) =
      absurd (false≢true q)
  insert_fixup-Survives a j w b (left_of red k v s (right_of red u x y p)) h (e, g, (i, q), o) =
      absurd (false≢true q)
  insert_fixup-Survives a j w b (right_of red s k v (right_of red u x y p)) h (e, g, (i, q), o) =
      absurd (false≢true q)
  insert_fixup-Survives a j w b (left_of red k v s (left_of black x y (node red c m z d) p)) h
        (e, g, (i, q), (f, (n₀, n₁, n₂, n₃), _, o)) =
      insert_fixup-Survives (node black (node red a j w b) k v s) x y (node black c m z d) p
        (ap suc f, (refl, refl), (e, tt, h, g), (n₀, tt, n₂, n₃)) o
  insert_fixup-Survives a j w b (left_of red k v s (left_of black x y nil p)) h
        (e, g, (i, q), (f, m, _, o)) =
      outer_left (node red a j w b) k v s x y nil p h i refl g m e f o
  insert_fixup-Survives a j w b (left_of red k v s (left_of black x y (node black c n z d) p)) h
        (e, g, (i, q), (f, m, _, o)) =
      outer_left (node red a j w b) k v s x y (node black c n z d) p h i refl g m e f o
  insert_fixup-Survives a j w b (right_of red s k v (left_of black x y (node red c m z d) p)) h
        (e, g, (i, q), (f, (n₀, n₁, n₂, n₃), _, o)) =
      insert_fixup-Survives (node black s k v (node red a j w b)) x y (node black c m z d) p
        (ap suc (e ∙ f), (refl, refl), (e, tt, g, h), (n₀, tt, n₂, n₃))
        (subst (λ m. ParentsOk (suc m) p) (sym e) o)
  insert_fixup-Survives a j w b (right_of red s k v (left_of black x y nil p)) h
        (e, g, (i, q), (f, m, _, o)) =
      inner s k v a j w b x y nil p h i refl g m e f o
  insert_fixup-Survives a j w b (right_of red s k v (left_of black x y (node black c n z d) p)) h
        (e, g, (i, q), (f, m, _, o)) =
      inner s k v a j w b x y (node black c n z d) p h i refl g m e f o
  insert_fixup-Survives a j w b (left_of red k v s (right_of black (node red c m z d) x y p)) h
        (e, g, (i, q), (f, (n₀, n₁, n₂, n₃), _, o)) =
      insert_fixup-Survives (node black c m z d) x y (node black (node red a j w b) k v s) p
        (ap suc f, (refl, refl), (n₀, tt, n₂, n₃), (e, tt, h, g))
        (subst (λ m. ParentsOk (suc m) p) (sym f) o)
  insert_fixup-Survives a j w b (left_of red k v s (right_of black nil x y p)) h
        (e, g, (i, q), (f, m, _, o)) =
      inner_right nil x y a j w b k v s p h i refl g m e f o
  insert_fixup-Survives a j w b (left_of red k v s (right_of black (node black c n z d) x y p)) h
        (e, g, (i, q), (f, m, _, o)) =
      inner_right (node black c n z d) x y a j w b k v s p h i refl g m e f o
  insert_fixup-Survives a j w b (right_of red s k v (right_of black (node red c m z d) x y p)) h
        (e, g, (i, q), (f, (n₀, n₁, n₂, n₃), _, o)) =
      insert_fixup-Survives (node black c m z d) x y (node black s k v (node red a j w b)) p
        (ap suc (f ∙ sym e), (refl, refl), (n₀, tt, n₂, n₃), (e, tt, g, h))
        (subst (λ m. ParentsOk (suc m) p) (sym f) o)
  insert_fixup-Survives a j w b (right_of red s k v (right_of black nil x y p)) h
        (e, g, (i, q), (f, m, _, o)) =
      outer_right nil x y s k v (node red a j w b) p h i refl g m e f o
  insert_fixup-Survives a j w b (right_of red s k v (right_of black (node black c n z d) x y p)) h
        (e, g, (i, q), (f, m, _, o)) =
      outer_right (node black c n z d) x y s k v (node red a j w b) p h i refl g m e f o
