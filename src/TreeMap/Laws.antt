-- ===== src/TreeMap/Laws.antt =====
-- util/collections/treemap: what the operations of a TreeMap do to the list of its pairs.
use mathlib.Core.Bool.{false≢true}
use microservice_kit.Prelude.{
  ℕ, ◌+◌, ◌-◌, ◌≡◌, refl, sym, ◌∙◌, ap, subst, Bool, true, false, Option, none, some, List, ◌==◌,
  if◌then◌else◌, arith, length,
}
use microservice_kit.Prelude.Int.{ℤ}
use microservice_kit.TreeMap.{
  black, Node, nil, node, top, TreeMap, inorder, put_at, remove_at, put, get_value, get_or_default,
  remove_key, contains_key, len, is_empty, entries,
}
use microservice_kit.TreeMap.Spec.{
  IsWeakOrder, list_put, list_get, list_remove, IsSorted, list_put-IsSorted, list_remove-IsSorted,
}
use microservice_kit.TreeMap.Around.{around}
use microservice_kit.TreeMap.Colours.{IsBalanced, Fits}
use microservice_kit.TreeMap.Descent.{find_node-list_get}
use microservice_kit.TreeMap.DescentPut.{Puts, put_at-Puts}
use microservice_kit.TreeMap.DescentRemove.{Removes, remove_at-Removes}

module _ {K V : Type 0} where
  -- a red-black tree with a black root, its keys in the comparator's order and its size right
  pub record IsValid (m : TreeMap K V) : Type 0 where
    pub order : IsWeakOrder m.cmp
    pub balanced : IsBalanced m.root
    pub sorted : IsSorted m.cmp (entries m)
    pub sized : m.size ≡ length (entries m)

  -- the map that an operation makes: a valid one with these pairs
  abbrev pub Holds : TreeMap K V → List (K × V) → (K → K → ℤ) → Type 0
  Holds m es cmp = IsValid m × (entries m ≡ es) × (m.cmp ≡ cmp)

  abbrev pub Answers : List (K × V) → (K → K → ℤ) → Option (TreeMap K V) → Type 0
  Answers es cmp none = ⊥
  Answers es cmp (some m) = Holds m es cmp

  put_tree :
      (m : TreeMap K V) (key : K) (value : V) (o : Option (Node K V × Bool)) (h : IsValid m)
      → Puts m.cmp h.order (entries m) (list_put m.cmp key value (entries m)) top o
      → Answers (list_put m.cmp key value (entries m)) m.cmp (elim o [
        | none ↦ none
        | some (t, grown) ↦
            some (record m { root = t; size = if grown then m.size + 1 else m.size })
      ])
  unfolding around entries
  put_tree m key value none h p = p
  put_tree m key value (some (t, b)) h (a, q, n) = (
    record {
      order = h.order;
      balanced = q;
      sorted =
          subst (IsSorted m.cmp) (sym a)
            (list_put-IsSorted m.cmp h.order key value (entries m) h.sorted);
      sized =
          subst (λ s. (if b then s + 1 else s) ≡ length (list_put m.cmp key value (entries m)))
            (sym h.sized) n
          ∙ ap length (sym a);
    },
    a,
    refl,
  )

  one_pair :
      (cmp : K → K → ℤ) (order : IsWeakOrder cmp) (key : K) (value : V)
      → Holds
          (record { root = node black nil key value nil; cmp = cmp; size = 1 })
          (list_put cmp key value (inorder nil))
          cmp
  unfolding entries inorder list_put
  one_pair cmp order key value = (
    record {
      order = order;
      balanced = (refl, (refl, tt, tt, tt));
      sorted = (tt, tt);
      sized = refl;
    },
    refl,
    refl,
  )

  root-Fits : (t : Node K V) → IsBalanced t → Fits t top
  root-Fits t (e, b) = (b, tt, λ q. absurd (false≢true (sym e ∙ q)))

  put-Answers :
      (t : Node K V) (cmp : K → K → ℤ) (size : ℕ) (key : K) (value : V)
      → (h : IsValid (record { root = t; cmp = cmp; size = size }))
      → Answers
          (list_put cmp key value (inorder t))
          cmp
          (put (record { root = t; cmp = cmp; size = size }) key value)
  unfolding put entries
  put-Answers nil cmp size key value h = one_pair cmp h.order key value
  put-Answers (node c l k v r) cmp size key value h =
      put_tree (record { root = node c l k v r; cmp = cmp; size = size }) key value
        (put_at cmp key value (node c l k v r) top) h
        (put_at-Puts cmp h.order key value (node c l k v r) top h.sorted
          (root-Fits (node c l k v r) h.balanced))

  answered :
      (es : List (K × V)) (cmp : K → K → ℤ) (o : Option (TreeMap K V))
      → Answers es cmp o
      → (m : TreeMap K V) × (o ≡ some m) × Holds m es cmp
  answered es cmp none a = absurd a
  answered es cmp (some m) a = (m, refl, a)

  -- `Put` never panics on a valid map: it answers with a valid map, whose pairs are those of the map with
  -- the value put under the key, in the place that the comparator gives it.
  pub put-list_put :
      (m : TreeMap K V) (key : K) (value : V)
      → IsValid m
      → (m₁ : TreeMap K V) × (put m key value ≡ some m₁)
        × (IsValid m₁ × (entries m₁ ≡ list_put m.cmp key value (entries m)) × (m₁.cmp ≡ m.cmp))
  unfolding entries
  put-list_put m key value h =
      answered (list_put m.cmp key value (entries m)) m.cmp (put m key value)
        (put-Answers m.root m.cmp m.size key value h)

  remove_tree :
      (m : TreeMap K V) (key : K) (o : Option (V × Node K V)) (h : IsValid m)
      → Removes m.cmp h.order key (entries m) top o
      → (let r : TreeMap K V × Option V = elim o [
        | none ↦ (m, none)
        | some (v, t) ↦ (record m { root = t; size = m.size - 1 }, some v)
      ] in
          Holds r.0 (list_remove m.cmp key (entries m)) m.cmp
          × (r.1 ≡ list_get m.cmp key (entries m)))
  unfolding around entries
  remove_tree m key none h (g, e) = ((h, sym e, refl), sym g)
  remove_tree m key (some (v, t)) h (g, a, q, n) = (
    (
      record {
        order = h.order;
        balanced = q;
        sorted =
            subst (IsSorted m.cmp) (sym a)
              (list_remove-IsSorted m.cmp h.order key (entries m) h.sorted);
        sized = omega (arith, n, h.sized, ap length a);
      },
      a,
      refl,
    ),
    sym g,
  )

  -- `Remove` on a valid map answers with the value that the list of pairs has under the key, where it has
  -- one, and leaves a valid map, whose pairs are those of the map without that key.
  pub remove_key-list_remove :
      (m : TreeMap K V) (key : K)
      → IsValid m
      → IsValid (remove_key m key).0
        × (entries (remove_key m key).0 ≡ list_remove m.cmp key (entries m))
        × ((remove_key m key).0.cmp ≡ m.cmp)
        × ((remove_key m key).1 ≡ list_get m.cmp key (entries m))
  unfolding remove_key entries
  remove_key-list_remove m key h =
      let (a, g) =
        remove_tree m key (remove_at m.cmp key m.root top) h
          (remove_at-Removes m.cmp h.order key m.root top h.sorted (root-Fits m.root h.balanced)) in
      (a.0, a.1, a.2, g)

  pub len-length : (m : TreeMap K V) → IsValid m → len m ≡ length (entries m)
  unfolding len
  len-length m h = h.sized

  -- The lookups of a valid map are those of the list of its pairs: `Get`, `GetOrDefault` and `ContainsKey`
  -- by the key, and `Len` and `IsEmpty` by the length.
  pub get_value-list_get :
      (m : TreeMap K V) (key : K) (default : V)
      → IsValid m
      → (get_value m key ≡ list_get m.cmp key (entries m))
        × (get_or_default m key default
            ≡ (elim (list_get m.cmp key (entries m)) [ none ↦ default | some v ↦ v ]))
        × (contains_key m key
            ≡ (elim (list_get m.cmp key (entries m)) [ none ↦ false | some v ↦ true ]))
        × (len m ≡ length (entries m))
        × (is_empty m ≡ (length (entries m) == 0))
  unfolding get_value get_or_default contains_key entries len is_empty
  get_value-list_get m key default h =
      let e = find_node-list_get m.cmp h.order key m.root h.sorted in
      (
        e,
        ap (λ (o : Option V). elim o [ none ↦ default | some v ↦ v ]) e,
        ap (λ (o : Option V). elim o [ none ↦ false | some v ↦ true ]) e,
        h.sized,
        ap (λ n. n == 0) h.sized,
      )
