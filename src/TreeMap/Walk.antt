-- ===== src/TreeMap/Walk.antt =====
-- util/collections/treemap: the traversals, and `Clone`, which puts what one of them calls with.
use mathlib.Core.List.{append_assoc, append-nil}
use microservice_kit.Prelude.{
  ◌-◌, ◌≡◌, refl, sym, ◌∙◌, ap, subst, Bool, true, false, Option, none, some, List, [], ◌∷◌, ◌++◌,
  if◌then◌else◌, arith, length, length-append, get_elem?,
}
use Prim.Native.Nat.Ordering.{lt}
use microservice_kit.Prelude.Int.{ℤ}
use microservice_kit.TreeMap.{
  Node, nil, node, TreeMap, inorder, new, traverse, entries, first, last, minimum, maximum, put_all,
  clone, sign,
}
use microservice_kit.TreeMap.Spec.{IsWeakOrder, list_put, Before, Behind, IsSorted, list_put-gt}
use microservice_kit.TreeMap.AroundDelete.{minimum-behind}
use microservice_kit.TreeMap.Laws.{IsValid, put-list_put}

-- the calls of a function for each pair of a list, until it stops
unfoldable pub walk : {K V S : Type 0} → (K → V → S → Bool × S) → List (K × V) → S → Bool × S
walk fn [] s = (true, s)
walk fn ((k, v) ∷ xs) s = let (more, s₁) = fn k v s in if more then walk fn xs s₁ else (false, s₁)

module _ {K V S : Type 0} (fn : K → V → S → Bool × S) where
  walk-append :
      (xs ys : List (K × V)) (s : S)
      → walk fn (xs ++ ys) s
        ≡ (if (walk fn xs s).0 then walk fn ys (walk fn xs s).1 else (false, (walk fn xs s).1))
  unfolding walk
  walk-append [] ys s = refl
  walk-append ((k, v) ∷ xs) ys s = ground (arith, walk-append xs ys (fn k v s).1)

  traverse-walk : (t : Node K V) (s : S) → traverse fn t s ≡ walk fn (inorder t) s
  unfolding traverse inorder walk
  traverse-walk nil s = refl
  traverse-walk (node c l k v r) s = ground (
    arith,
    traverse-walk l s,
    traverse-walk r (fn k v (traverse fn l s).1).1,
    walk-append (inorder l) ((k, v) ∷ inorder r) s,
  )

-- `Range` calls the function for each pair in their order, with the state that the calls before left,
-- until it stops.
pub traverse-entries :
    {K V S : Type 0} (fn : K → V → S → Bool × S) (m : TreeMap K V) (s : S)
    → traverse fn m.root s ≡ walk fn (entries m) s
unfolding entries
traverse-entries fn m s = traverse-walk fn m.root s

pub new-cmp : {K : Type 0} (V : Type 0) (cmp : K → K → ℤ) → (new {V = V} cmp).cmp ≡ cmp
unfolding new
new-cmp V cmp = refl

pub new-entries : {K : Type 0} (V : Type 0) (cmp : K → K → ℤ) → entries (new {V = V} cmp) ≡ []
unfolding new entries inorder
new-entries V cmp = refl

module _ {K V : Type 0} where
  elem_behind : (xs : List (K × V)) (e : K × V) → get_elem? (xs ++ e ∷ []) (length xs) ≡ some e
  elem_behind [] e = refl
  elem_behind (x ∷ xs) e = elem_behind xs e

  last_elem :
      (xs : List (K × V)) (e : K × V)
      → get_elem? (xs ++ e ∷ []) (length (xs ++ e ∷ []) - 1) ≡ some e
  last_elem xs e =
      ap (get_elem? (xs ++ e ∷ [])) (omega (arith, length-append xs (e ∷ []))) ∙ elem_behind xs e

  -- the pairs before the greatest one
  abbrev before_maximum : Node K V → K → V → Node K V → List (K × V)
  before_maximum l k v nil = inorder l
  before_maximum l k v (node c a j w b) = inorder l ++ (k, v) ∷ before_maximum a j w b

  before-maximum :
      (l : Node K V) (k : K) (v : V) (r : Node K V)
      → inorder l ++ (k, v) ∷ inorder r ≡ before_maximum l k v r ++ maximum k v r ∷ []
  unfolding maximum inorder
  before-maximum l k v nil = refl
  before-maximum l k v (node c a j w b) =
      ap (λ xs. inorder l ++ (k, v) ∷ xs) (before-maximum a j w b)
      ∙ sym (append_assoc (inorder l) ((k, v) ∷ before_maximum a j w b) _)

  ends :
      (t : Node K V)
      → ((elim t [ nil ↦ none | node c l k v r ↦ some (minimum l k v) ]) ≡ get_elem? (inorder t) 0)
        × ((elim t [ nil ↦ none | node c l k v r ↦ some (maximum k v r) ])
            ≡ get_elem? (inorder t) (length (inorder t) - 1))
  unfolding inorder
  ends nil = (refl, refl)
  ends (node c l k v r) = (
    ap (λ xs. get_elem? xs 0) (minimum-behind l k v r),
    sym (last_elem (before_maximum l k v r) (maximum k v r))
        ∙ ap (λ xs. get_elem? xs (length xs - 1)) (sym (before-maximum l k v r)),
  )

  -- `First` and `Last` of a valid map are the first of its pairs and the last, and there is none in an
  -- empty map.
  pub first-last :
      (m : TreeMap K V)
      → IsValid m
      → (first m ≡ get_elem? (entries m) 0) × (last m ≡ get_elem? (entries m) (m.size - 1))
  unfolding first last entries
  first-last m h =
      ((ends m.root).0, (ends m.root).1 ∙ ap (λ n. get_elem? (entries m) (n - 1)) (sym h.sized))

  -- every key of a list lies before every key of another
  abbrev Precede : (K → K → ℤ) → List (K × V) → List (K × V) → Type 0
  Precede cmp xs [] = Unit
  Precede cmp xs ((k, v) ∷ ys) = Before cmp k xs × Precede cmp xs ys

  Before-snoc :
      (cmp : K → K → ℤ) (xs : List (K × V)) (j k : K) (v : V)
      → Before cmp j xs
      → sign (cmp k j) ≡ lt
      → Before cmp j (xs ++ (k, v) ∷ [])
  Before-snoc cmp [] j k v h e = (e, tt)
  Before-snoc cmp ((i, w) ∷ xs) j k v (a, h) e = (a, Before-snoc cmp xs j k v h e)

  Precede-snoc :
      (cmp : K → K → ℤ) (xs es : List (K × V)) (k : K) (v : V)
      → Precede cmp xs es
      → Behind cmp k es
      → Precede cmp (xs ++ (k, v) ∷ []) es
  Precede-snoc cmp xs [] k v p b = tt
  Precede-snoc cmp xs ((j, w) ∷ es) k v (p, q) (e, b) =
      (Before-snoc cmp xs j k v p e, Precede-snoc cmp xs es k v q b)

  put_behind :
      (cmp : K → K → ℤ) (order : IsWeakOrder cmp) (xs : List (K × V)) (k : K) (v : V)
      → Before cmp k xs
      → list_put cmp k v xs ≡ xs ++ (k, v) ∷ []
  unfolding list_put
  put_behind cmp order xs k v b =
      ap (list_put cmp k v) (sym (append-nil xs)) ∙ list_put-gt cmp order k v xs [] b

  -- what `Clone` comes to from a map with the first of the pairs on
  abbrev Copied : TreeMap K V → List (K × V) → (K → K → ℤ) → Option (TreeMap K V) → Type 0
  Copied m es cmp o =
      (m₁ : TreeMap K V) × (o ≡ some m₁)
      × (IsValid m₁ × (entries m₁ ≡ entries m ++ es) × (m₁.cmp ≡ cmp))

  put_all-append :
      (cmp : K → K → ℤ) (order : IsWeakOrder cmp) (es : List (K × V)) (m : TreeMap K V)
      → IsValid m
      → m.cmp ≡ cmp
      → IsSorted cmp es
      → Precede cmp (entries m) es
      → Copied m es cmp (put_all m es)
  unfolding put_all
  put_all-append cmp order [] m h c s p = (m, refl, (h, sym (append-nil (entries m)), c))
  put_all-append cmp order ((k, v) ∷ es) m h c (b, s) (p, q) =
      let (m₁, e, (h₁, f, c₁)) = put-list_put m k v h in
      let g : entries m₁ ≡ entries m ++ (k, v) ∷ [] =
        f ∙ ap (λ f. list_put f k v (entries m)) c ∙ put_behind cmp order (entries m) k v p in
      let (m₂, e₂, (h₂, f₂, c₂)) =
        put_all-append cmp order es m₁ h₁ (c₁ ∙ c) s
          (subst (λ xs. Precede cmp xs es) (sym g) (Precede-snoc cmp (entries m) es k v q b)) in
      (
        m₂,
        ap (λ (o : Option (TreeMap K V)). elim o [ none ↦ none | some m' ↦ put_all m' es ]) e ∙ e₂,
        (h₂, f₂ ∙ ap (λ xs. xs ++ es) g ∙ append_assoc (entries m) ((k, v) ∷ []) es, c₂),
      )

  pub new-IsValid : (cmp : K → K → ℤ) → IsWeakOrder cmp → IsValid (new {V = V} cmp)
  unfolding new entries inorder
  new-IsValid cmp order = record { order = order; balanced = (refl, tt); sorted = tt; sized = refl }

  nothing_before : (cmp : K → K → ℤ) (es : List (K × V)) → Precede cmp [] es
  nothing_before cmp [] = tt
  nothing_before cmp ((k, v) ∷ es) = (tt, nothing_before cmp es)

  -- `Clone` of a valid map never panics: it answers with a valid map with the same pairs.
  pub clone-entries :
      (m : TreeMap K V)
      → IsValid m
      → (m₁ : TreeMap K V) × (clone m ≡ some m₁)
        × (IsValid m₁ × (entries m₁ ≡ entries m) × (m₁.cmp ≡ m.cmp))
  unfolding clone entries inorder new
  clone-entries m h =
      put_all-append m.cmp h.order (entries m) (new m.cmp) (new-IsValid m.cmp h.order) refl h.sorted
        (nothing_before m.cmp (entries m))
