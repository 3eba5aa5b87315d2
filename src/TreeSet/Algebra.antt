-- ===== src/TreeSet/Algebra.antt =====
-- util/collections/treeset: what the sets that the operations on two sets make contain.
use microservice_kit.Prelude.{
  ◌↔◌, ◌≡◌, sym, ◌∙◌, ap, subst, true, false, not, ◌&&◌, ◌||◌, Option, none, some, [], ◌∷◌, arith,
  Bool-cases, inl, inr, ltb,
}
use microservice_kit.Prelude.Int.{ℤ}
use microservice_kit.TreeMap.{TreeMap, entries}
use microservice_kit.TreeMap.Walk.{clone-entries}
use microservice_kit.TreeSet.{
  TreeSet, new, remove, contains, clone, len, range, adding, adding_common, removing, union,
  intersection, difference, is_subset, equal,
}
use microservice_kit.TreeSet.Members.{
  member, IsValidSet, contains-member, contains-same, Made, new-Made, remove_one, remove_one-len,
}
use microservice_kit.TreeSet.Loops.{
  range-looped, Answers, Answers-same, Made-same, adding_loop, adding_common_loop, removing_loop,
  answered,
}
use microservice_kit.TreeSet.Subset.{is_subset-contains, few}

module _ {T : Type 0} (cmp : T → T → ℤ) where
  clone-Made :
      (s : TreeSet T)
      → IsValidSet cmp s
      → (s₁ : TreeSet T) × (clone s ≡ some s₁) × Made cmp (contains s) s₁
  unfolding clone
  clone-Made s h =
      let (m, e, (v, f, c)) = clone-entries s.tm h.valid in
      let w : IsValidSet cmp (record { tm = m }) = record {
        valid = v;
        ordered_by = c ∙ h.ordered_by;
      } in
      (
        record { tm = m },
        ap
            (λ (o : Option (TreeMap T Unit)). elim o [
              | none ↦ none
              | some m' ↦ some (record { tm = m' })
            ])
            e,
        (
          w,
          (λ other.
              contains-member cmp (record { tm = m }) other w
              ∙ ap (member cmp other) f
              ∙ sym (contains-member cmp s other h)),
        ),
      )

  -- `Union` of valid sets under one comparator never panics: it is a valid set, and contains what one of
  -- them contains.
  union-contains :
      (s other : TreeSet T)
      → IsValidSet cmp s
      → IsValidSet cmp other
      → (r : TreeSet T) × (union s other ≡ some r)
        × Made cmp (λ item. contains other item || contains s item) r
  unfolding union
  union-contains s other h g =
      let (c, e, (w, f)) = clone-Made s h in
      answered cmp _ (range adding other (clone s)) (
        rw (e, range-looped adding other (some c))
          (Answers-same cmp _ _ _ (λ item. ground (arith, f item, contains-member cmp other item g))
            (adding_loop cmp (entries other.tm) c w)))

  -- `Difference` of valid sets under one comparator never panics: it is a valid set, and contains what the
  -- first contains and the second does not.
  difference-contains :
      (s other : TreeSet T)
      → IsValidSet cmp s
      → IsValidSet cmp other
      → (r : TreeSet T) × (difference s other ≡ some r)
        × Made cmp (λ item. not (contains other item) && contains s item) r
  unfolding difference
  difference-contains s other h g =
      let (c, e, (w, f)) = clone-Made s h in
      (
        range removing other c,
        ap
            (λ (o : Option (TreeSet T)). elim o [
              | none ↦ none
              | some r ↦ some (range removing other r)
            ])
            e,
        rw (range-looped removing other c) (
            Made-same cmp _ _ _ (λ item. ground (arith, f item, contains-member cmp other item g))
              (removing_loop cmp (entries other.tm) c w)),
      )

  common :
      (larger smaller : TreeSet T) (r : TreeSet T)
      → IsValidSet cmp larger
      → IsValidSet cmp smaller
      → Made cmp (λ _. false) r
      → Answers cmp
          (λ item. contains smaller item && contains larger item)
          (range (adding_common larger) smaller (some r))
  common larger smaller r h g (w, f) = rw (range-looped (adding_common larger) smaller (some r)) (
      Answers-same cmp _ _ _ (λ item. ground (arith, f item, contains-member cmp smaller item g))
        (adding_common_loop cmp larger (entries smaller.tm) r h w))

  -- `Intersection` of valid sets under one comparator never panics, whichever of them it ranges over: it is
  -- a valid set, and contains what both contain.
  intersection-contains :
      (s other : TreeSet T)
      → IsValidSet cmp s
      → IsValidSet cmp other
      → (r : TreeSet T) × (intersection s other ≡ some r)
        × Made cmp (λ item. contains s item && contains other item) r
  unfolding intersection
  intersection-contains s other h g =
      let r = new s.tm.cmp in
      let m = subst (λ c. Made c (λ _. false) r) h.ordered_by (new-Made s.tm.cmp h.valid.order) in
      answered cmp _ (intersection s other) (elim (Bool-cases (ltb (len other) (len s))) [
        | inl e ↦ rw e (Answers-same cmp _ _ _ (λ item. ground arith) (common s other r h g m))
        | inr e ↦ rw e (common other s r g h m)
      ])

  contained :
      (s other : TreeSet T) (item : T)
      → IsValidSet cmp s
      → IsValidSet cmp other
      → len s ≡ len other
      → is_subset s other ≡ true
      → contains s item ≡ contains other item
  contained s other item h g n e =
      let q = (is_subset-contains cmp s other h g).0 e in
      elim (Bool-cases (contains s item)) [
        | inl a ↦ a ∙ sym (q item a)
        | inr a ↦ elim (Bool-cases (contains other item)) [
          | inl b ↦
              let (w, f) = remove_one cmp other item g in
              let o = remove other (item ∷ []) in
              let d : is_subset s o ≡ true =
                (is_subset-contains cmp s o h w).1
                  (λ i m. ground (arith, a, m, f i, q i m, contains-same cmp s i item h)) in
              absurd (omega (arith, n, remove_one-len cmp other item g b, few cmp s o h w d))
          | inr b ↦ a ∙ sym b
        ]
      ]

  -- On valid sets under one comparator, `Equal` answers true exactly where the sets contain the same items.
  pub equal-contains :
      (s other : TreeSet T)
      → IsValidSet cmp s
      → IsValidSet cmp other
      → (equal s other ≡ true) ↔ ((item : T) → contains s item ≡ contains other item)
  unfolding equal
  equal-contains s other h g = (
    (λ e item. contained s other item h g (ground (arith, e)) (ground (arith, e))),
    (λ q.
        let a : is_subset s other ≡ true =
          (is_subset-contains cmp s other h g).1 (λ item m. sym (q item) ∙ m) in
        let b : is_subset other s ≡ true =
          (is_subset-contains cmp other s g h).1 (λ item m. q item ∙ m) in
        ground (arith, a, few cmp s other h g a, few cmp other s g h b)),
  )

  -- `Union`, `Intersection` and `Difference` of valid sets under one comparator never panic. They are valid
  -- sets and contain what one of the sets contains, what both contain, and what the first contains and the
  -- second does not.
  pub operations-contains :
      (s other : TreeSet T)
      → IsValidSet cmp s
      → IsValidSet cmp other
      → ((r : TreeSet T) × (union s other ≡ some r)
          × Made cmp (λ item. contains other item || contains s item) r)
        × ((r : TreeSet T) × (intersection s other ≡ some r)
            × Made cmp (λ item. contains s item && contains other item) r)
        × ((r : TreeSet T) × (difference s other ≡ some r)
            × Made cmp (λ item. not (contains other item) && contains s item) r)
  operations-contains s other h g = (
    union-contains s other h g,
    intersection-contains s other h g,
    difference-contains s other h g,
  )
