-- ===== src/TreeMap/Lookup.antt =====
-- util/collections/treemap: what `Get` finds after `Put` and after `Remove`.
use Prim.Native.Nat.Ordering.{eq}
use microservice_kit.Prelude.{◌≡◌, sym, ◌∙◌, ap, ap₂, Option, none, some, List, [], ◌∷◌, arith}
use microservice_kit.Prelude.Int.{ℤ}
use microservice_kit.TreeMap.{sign, TreeMap, put, get_value, remove_key, entries}
use microservice_kit.TreeMap.Spec.{
  IsWeakOrder, list_put, list_get, list_remove, IsSorted, Behind, Behind-eq, list_get-lt,
}
use microservice_kit.TreeMap.Laws.{IsValid, put-list_put, remove_key-list_remove}
use microservice_kit.TreeMap.Descent.{find_node-list_get}

-- one value for the keys that count as a key, and another for the rest
abbrev pub at_key : {K V : Type 0} → (K → K → ℤ) → K → K → Option V → Option V → Option V
at_key cmp other key a b = elim (sign (cmp other key)) [ eq ↦ a | _ ↦ b ]

pub eq_trans :
    {K : Type 0} (cmp : K → K → ℤ) (order : IsWeakOrder cmp) (a b c : K)
    → sign (cmp a b) ≡ eq
    → sign (cmp b c) ≡ eq
    → sign (cmp a c) ≡ eq
eq_trans cmp order a b c e f = ground (
  arith,
  e,
  f,
  order.lt_eq a c b,
  order.eq_of_eq b c,
  order.lt_of_gt a c,
  order.eq_lt b c a,
  order.gt_of_lt b a,
  order.eq_of_eq a b,
)

module _ {K V : Type 0} (cmp : K → K → ℤ) (order : IsWeakOrder cmp) where
  pub list_get-list_put :
      (other key : K) (value : V) (xs : List (K × V))
      → list_get cmp other (list_put cmp key value xs)
        ≡ at_key cmp other key (some value) (list_get cmp other xs)
  unfolding list_get list_put
  list_get-list_put other key value [] = ground arith
  list_get-list_put other key value ((k, v) ∷ xs) = ground (
    arith,
    list_get-list_put other key value xs,
    eq_trans cmp order other k key,
    eq_trans cmp order other key k,
    eq_trans cmp order key other k,
    order.eq_of_eq key k,
    order.eq_of_eq other key,
  )

  pub Behind-none :
      (other : K) (xs : List (K × V)) → Behind cmp other xs → list_get cmp other xs ≡ none
  unfolding list_get
  Behind-none other xs b = list_get-lt cmp order other [] xs b

  pub list_get-list_remove :
      (other key : K) (xs : List (K × V))
      → IsSorted cmp xs
      → list_get cmp other (list_remove cmp key xs)
        ≡ at_key cmp other key none (list_get cmp other xs)
  unfolding list_get list_remove
  list_get-list_remove other key [] s = ground arith
  list_get-list_remove other key ((k, v) ∷ xs) (b, s) = ground (
    arith,
    list_get-list_remove other key xs s,
    Behind-none other xs,
    Behind-eq cmp order other k xs,
    eq_trans cmp order other k key,
    eq_trans cmp order other key k,
    eq_trans cmp order key other k,
    order.eq_of_eq key k,
    order.eq_of_eq other key,
  )

module _ {K V : Type 0} where
  looked_up :
      (m : TreeMap K V) (key : K) → IsValid m → get_value m key ≡ list_get m.cmp key (entries m)
  unfolding get_value entries
  looked_up m key h = find_node-list_get m.cmp h.order key m.root h.sorted

  -- After `Put` on a valid map, `Get` finds the value under every key that counts as the key, and what it
  -- found before under every other.
  pub get_value-put :
      (m : TreeMap K V) (key : K) (value : V)
      → IsValid m
      → (m₁ : TreeMap K V) × (put m key value ≡ some m₁)
        × ((other : K)
            → get_value m₁ other ≡ at_key m.cmp other key (some value) (get_value m other))
  get_value-put m key value h =
      let (m₁, e, (h₁, f, c)) = put-list_put m key value h in
      (
        m₁,
        e,
        (λ other.
            looked_up m₁ other h₁
            ∙ ap₂ (λ cmp xs. list_get cmp other xs) c f
            ∙ list_get-list_put m.cmp h.order other key value (entries m)
            ∙ ap (at_key m.cmp other key (some value)) (sym (looked_up m other h))),
      )

  -- After `Remove` on a valid map, `Get` finds nothing under a key that counts as the key, and what it
  -- found before under every other.
  pub get_value-remove_key :
      (m : TreeMap K V) (key other : K)
      → IsValid m
      → get_value (remove_key m key).0 other ≡ at_key m.cmp other key none (get_value m other)
  get_value-remove_key m key other h =
      let (h₁, f, c, g) = remove_key-list_remove m key h in
      looked_up (remove_key m key).0 other h₁
      ∙ ap₂ (λ cmp xs. list_get cmp other xs) c f
      ∙ list_get-list_remove m.cmp h.order other key (entries m) h.sorted
      ∙ ap (at_key m.cmp other key none) (sym (looked_up m other h))
