-- ===== src/TreeSet/Subset.antt =====
-- util/collections/treeset: `IsSubset` looks at the sizes first, and may: the items of a sorted list that
-- are all in another are no more than the items of that.
use microservice_kit.Prelude.{
  ◌↔◌, ◌≡◌, ◌≤◌, refl, sym, ◌∙◌, ap, fun_ext, Bool, true, false, ◌&&◌, List, [], ◌∷◌, arith,
  Bool-cases, inl, inr, length,
}
use microservice_kit.Prelude.Int.{ℤ}
use microservice_kit.TreeMap.{sign, entries}
use microservice_kit.TreeMap.Spec.{
  less, alike, more, compared, IsWeakOrder, Behind, IsSorted, Behind-trans, Behind-eq,
}
use microservice_kit.TreeMap.Walk.{walk}
use microservice_kit.TreeMap.Lookup.{Behind-none}
use microservice_kit.TreeSet.{TreeSet, contains, len, checking, is_subset}
use microservice_kit.TreeSet.Members.{
  is_some, same, member, member-empty, member-cons, IsValidSet, contains-member, contains-same,
  ordered, sorted, len-length,
}
use microservice_kit.TreeSet.Loops.{looped, range-looped}

module _ {T : Type 0} where
  pub all_of : (T → Bool) → List (T × Unit {0}) → Bool
  all_of p [] = true
  all_of p ((item, u) ∷ es) = p item && all_of p es

  -- `IsSubset` answers whether the other set contains each item
  looped-checking :
      (other : TreeSet T) (es : List (T × Unit {0}))
      → looped (checking other) es true ≡ all_of (contains other) es
  unfolding looped walk all_of
  looped-checking other [] = refl
  looped-checking other ((item, u) ∷ es) = ground (arith, looped-checking other es)

  all_of-same :
      (p q : T → Bool) (es : List (T × Unit {0}))
      → ((item : T) → p item ≡ q item)
      → all_of p es ≡ all_of q es
  all_of-same p q es e = ap (λ f. all_of f es) (fun_ext e)

module _ {T : Type 0} (cmp : T → T → ℤ) where
  member-Behind :
      (order : IsWeakOrder cmp) (item : T) (es : List (T × Unit {0}))
      → Behind cmp item es
      → member cmp item es ≡ false
  unfolding member
  member-Behind order item es b = ap is_some (Behind-none cmp order item es b)

  -- the items behind another do not need it
  without_first :
      (order : IsWeakOrder cmp) (item : T) (u : Unit {0}) (xs ys : List (T × Unit {0}))
      → Behind cmp item xs
      → all_of (λ i. member cmp i ((item, u) ∷ ys)) xs ≡ true
      → all_of (λ i. member cmp i ys) xs ≡ true
  unfolding all_of
  without_first order item u [] ys b a = refl
  without_first order item u ((i, w) ∷ xs) ys (e, b) a = ground (
    arith,
    a,
    order.gt_of_lt item i e,
    member-cons cmp i item u ys,
    without_first order item u xs ys b,
  )

  pub length-all_of :
      (order : IsWeakOrder cmp) (ys xs : List (T × Unit {0}))
      → IsSorted cmp xs
      → IsSorted cmp ys
      → all_of (λ i. member cmp i ys) xs ≡ true
      → length xs ≤ length ys
  unfolding all_of
  length-all_of order [] [] s t a = omega arith
  length-all_of order [] ((i, w) ∷ xs) s t a = ground (arith, a, member-empty cmp i)
  length-all_of order ((y, u) ∷ ys) [] s t a = omega arith
  length-all_of order ((y, u) ∷ ys) ((i, w) ∷ xs) (b, s) (c, t) a =
      elim (compared (sign (cmp i y))) [
        | less e ↦ absurd (
            ground (
              arith,
              a,
              member-Behind order i ((y, u) ∷ ys) (e, Behind-trans cmp order i y ys e c),
            ))
        | alike e ↦
            let d : Behind cmp y xs = Behind-eq cmp order y i xs (order.eq_of_eq i y e) b in
            omega (
              arith,
              length-all_of order ys xs s t (without_first order y u xs ys d (ground (arith, a))),
            )
        | more e ↦
            let f = order.lt_of_gt i y e in
            omega (
              arith,
              length-all_of order ys ((i, w) ∷ xs) (b, s) t
                  (without_first order y u ((i, w) ∷ xs) ys (f, Behind-trans cmp order y i xs f b)
                    a),
            )
      ]

  -- fewer items cannot be all of more
  few_of :
      (s other : TreeSet T)
      → IsValidSet cmp s
      → IsValidSet cmp other
      → all_of (contains other) (entries s.tm) ≡ true
      → len s ≤ len other
  few_of s other h g a = omega (
    arith,
    len-length cmp s h,
    len-length cmp other g,
    length-all_of (ordered cmp s h) (entries other.tm) (entries s.tm) (sorted cmp s h)
        (sorted cmp other g)
        (sym (
            all_of-same (contains other) (λ i. member cmp i (entries other.tm)) (entries s.tm)
              (λ i. contains-member cmp other i g))
          ∙ a),
  )

  pub is_subset-all_of :
      (s other : TreeSet T)
      → IsValidSet cmp s
      → IsValidSet cmp other
      → is_subset s other ≡ all_of (contains other) (entries s.tm)
  unfolding is_subset
  is_subset-all_of s other h g = ground (
    arith,
    few_of s other h g,
    range-looped (checking other) s true,
    looped-checking other (entries s.tm),
  )

  pub few :
      (s other : TreeSet T)
      → IsValidSet cmp s
      → IsValidSet cmp other
      → is_subset s other ≡ true
      → len s ≤ len other
  few s other h g e = few_of s other h g (sym (is_subset-all_of s other h g) ∙ e)

  all_of-member :
      (p : T → Bool) (es : List (T × Unit {0}))
      → ((a b : T) → same cmp a b ≡ true → p a ≡ p b)
      → all_of p es ≡ true
      → (item : T) → member cmp item es ≡ true
      → p item ≡ true
  unfolding all_of
  all_of-member p [] q a item m = ground (arith, m, member-empty cmp item)
  all_of-member p ((i, u) ∷ es) q a item m =
      let r : all_of p es ≡ true = ground (arith, a) in
      elim (Bool-cases (member cmp item es)) [
        | inl n ↦ all_of-member p es q r item n
        | inr n ↦ ground (arith, a, m, n, member-cons cmp item i u es, q item i)
      ]

  member-all_of :
      (order : IsWeakOrder cmp) (p : T → Bool) (es : List (T × Unit {0}))
      → ((item : T) → member cmp item es ≡ true → p item ≡ true)
      → all_of p es ≡ true
  unfolding all_of
  member-all_of order p [] q = refl
  member-all_of order p ((i, u) ∷ es) q =
      let rest =
        member-all_of order p es
          (λ item m. q item (member-cons cmp item i u es ∙ ground (arith, m))) in
      ground (arith, rest, q i (member-cons cmp i i u es ∙ ground (arith, order.eq_self i)))

  -- On valid sets under one comparator, `IsSubset` answers true exactly where the other set contains each
  -- item that the set contains.
  pub is_subset-contains :
      (s other : TreeSet T)
      → IsValidSet cmp s
      → IsValidSet cmp other
      → (is_subset s other ≡ true)
        ↔ ((item : T) → contains s item ≡ true → contains other item ≡ true)
  is_subset-contains s other h g = (
    (λ e item m.
        all_of-member (contains other) (entries s.tm) (λ a b q. contains-same cmp other a b g q)
          (sym (is_subset-all_of s other h g) ∙ e) item (sym (contains-member cmp s item h) ∙ m)),
    (λ q.
        is_subset-all_of s other h g
        ∙ member-all_of (ordered cmp s h) (contains other) (entries s.tm)
            (λ item m. q item (contains-member cmp s item h ∙ m))),
  )
