-- ===== src/TreeMap/Tests.antt =====
-- Runs of a TreeMap over numbers, and its theorems at them.
use microservice_kit.Prelude.{ℕ, ◌*◌, ◌≡◌, refl, some, [], ◌∷◌, ltb, if◌then◌else◌, arith}
use microservice_kit.Prelude.Int.{ℤ, pos, negsuc}
use microservice_kit.TreeMap.{
  Color, red, black, Node, nil, node, TreeMap, plug, insert_fixup, splice, splice_minimum, minimum,
  delete_node, put_at, remove_at, new, put, put_all, get_value, remove_key, entries, inorder,
}
use microservice_kit.TreeMap.Spec.{IsWeakOrder, list_put, list_get, list_remove}
use microservice_kit.TreeMap.Laws
use microservice_kit.TreeMap.Lookup

-- the order of numbers, as a comparator
abbrev pub by_size : ℕ → ℕ → ℤ
by_size a b = if ltb a b then negsuc 0 else if ltb b a then pos 1 else pos 0

pub by_size-IsWeakOrder : IsWeakOrder by_size
by_size-IsWeakOrder = record {
  eq_self = λ a. ground arith;
  gt_of_lt = λ a b h. ground arith;
  lt_of_gt = λ a b h. ground arith;
  eq_of_eq = λ a b h. ground arith;
  lt_trans = λ a b c h i. ground arith;
  lt_eq = λ a b c h i. ground arith;
  eq_lt = λ a b c h i. ground arith;
}

abbrev leaf : Color → ℕ → Node ℕ ℕ
leaf c n = node c nil n (n * n) nil

abbrev three : TreeMap ℕ ℕ
three = record { root = node black (leaf red 1) 2 4 (leaf red 3); cmp = by_size; size = 3 }

three-IsValid : Laws.IsValid three
unfolding entries inorder
three-IsValid = record {
  order = by_size-IsWeakOrder;
  balanced = (refl, (refl, tt, (refl, (refl, refl), tt, tt), (refl, (refl, refl), tt, tt)));
  sorted = ((refl, (refl, tt)), ((refl, tt), (tt, tt)));
  sized = refl;
}

-- six keys in their order
climbing :
    put_all {V = ℕ} (new by_size) ((1, 0) ∷ (2, 0) ∷ (3, 0) ∷ (4, 0) ∷ (5, 0) ∷ (6, 0) ∷ [])
    ≡ some (record {
      root =
          node black
            (node black nil 1 0 nil)
            2
            0
            (node red (node black nil 3 0 nil) 4 0 (node black nil 5 0 (node red nil 6 0 nil)));
      cmp = by_size;
      size = 6;
    })
unfolding put_all put put_at insert_fixup plug new
climbing = refl

removal : (remove_key three 2).0.root ≡ node black (leaf red 1) 3 9 nil
unfolding remove_key remove_at delete_node splice_minimum splice minimum plug
removal = refl

put-list_put_example :
    (m₁ : TreeMap ℕ ℕ) × (put three 4 16 ≡ some m₁)
    × (Laws.IsValid m₁ × (entries m₁ ≡ list_put by_size 4 16 (entries three)) × (m₁.cmp ≡ by_size))
put-list_put_example = Laws.put-list_put three 4 16 three-IsValid

remove_key-list_remove_example :
    Laws.IsValid (remove_key three 2).0
    × (entries (remove_key three 2).0 ≡ list_remove by_size 2 (entries three))
    × ((remove_key three 2).0.cmp ≡ by_size)
    × ((remove_key three 2).1 ≡ list_get by_size 2 (entries three))
remove_key-list_remove_example = Laws.remove_key-list_remove three 2 three-IsValid

get_value-put_example :
    (m₁ : TreeMap ℕ ℕ) × (put three 4 16 ≡ some m₁)
    × ((other : ℕ)
        → get_value m₁ other ≡ Lookup.at_key by_size other 4 (some 16) (get_value three other))
get_value-put_example = Lookup.get_value-put three 4 16 three-IsValid
