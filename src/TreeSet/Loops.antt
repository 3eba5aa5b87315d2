-- ===== src/TreeSet/Loops.antt =====
-- util/collections/treeset: the loops of `Union`, `Intersection` and `Difference` over the items of a set.
use microservice_kit.Prelude.{
  ◌≡◌, refl, ◌∙◌, ap, Bool, not, ◌&&◌, ◌||◌, Option, none, some, List, [], ◌∷◌, arith, Bool-cases,
  inl, inr,
}
use microservice_kit.Prelude.Int.{ℤ}
use microservice_kit.TreeMap.{entries}
use microservice_kit.TreeMap.Walk.{walk, traverse-entries}
use microservice_kit.TreeSet.{TreeSet, remove, contains, range, adding, adding_common, removing}
use microservice_kit.TreeSet.Members.{
  member, member-empty, member-cons, IsValidSet, contains-same, Made, add_one, remove_one,
}

module _ {T : Type 0} where
  -- the loop over the items of a list, from a set on
  unfoldable pub looped : {S : Type 0} → (T → S → Bool × S) → List (T × Unit {0}) → S → S
  looped fn es state = (walk (λ item _ state. fn item state) es state).1

  pub range-looped :
      {S : Type 0} (fn : T → S → Bool × S) (s : TreeSet T) (state : S)
      → range fn s state ≡ looped fn (entries s.tm) state
  unfolding range looped
  range-looped fn s state =
      ap (λ r. r.1) (traverse-entries (λ item _ state. fn item state) s.tm state)

module _ {T : Type 0} (cmp : T → T → ℤ) where
  -- an answer that there is, with the items that it should have
  abbrev pub Answers : (T → Bool) → Option (TreeSet T) → Type 0
  Answers has none = ⊥
  Answers has (some s) = Made cmp has s

  pub Made-same :
      (has has₁ : T → Bool) (s : TreeSet T)
      → ((other : T) → has other ≡ has₁ other)
      → Made cmp has s
      → Made cmp has₁ s
  Made-same has has₁ s e (w, f) = (w, λ other. f other ∙ e other)

  pub Answers-same :
      (has has₁ : T → Bool) (o : Option (TreeSet T))
      → ((other : T) → has other ≡ has₁ other)
      → Answers has o
      → Answers has₁ o
  Answers-same has has₁ none e a = a
  Answers-same has has₁ (some s) e a = Made-same has has₁ s e a

  pub adding_loop :
      (es : List (T × Unit {0})) (s : TreeSet T)
      → IsValidSet cmp s
      → Answers (λ other. member cmp other es || contains s other) (looped adding es (some s))
  unfolding looped walk
  adding_loop [] s h = (h, λ other. ground (arith, member-empty cmp other))
  adding_loop ((item, u) ∷ es) s h =
      let (s₁, e, (w, f)) = add_one cmp s item h in
      rw e (
        Answers-same _ _ _ (λ other. ground (arith, f other, member-cons cmp other item u es))
          (adding_loop es s₁ w))

  pub removing_loop :
      (es : List (T × Unit {0})) (s : TreeSet T)
      → IsValidSet cmp s
      → Made cmp (λ other. not (member cmp other es) && contains s other) (looped removing es s)
  unfolding looped walk
  removing_loop [] s h = (h, λ other. ground (arith, member-empty cmp other))
  removing_loop ((item, u) ∷ es) s h =
      let (w, f) = remove_one cmp s item h in
      Made-same _ _ _ (λ other. ground (arith, f other, member-cons cmp other item u es))
        (removing_loop es (remove s (item ∷ [])) w)

  pub adding_common_loop :
      (larger : TreeSet T) (es : List (T × Unit {0})) (s : TreeSet T)
      → IsValidSet cmp larger
      → IsValidSet cmp s
      → Answers
          (λ other. (member cmp other es && contains larger other) || contains s other)
          (looped (adding_common larger) es (some s))
  unfolding looped walk
  adding_common_loop larger [] s g h = (h, λ other. ground (arith, member-empty cmp other))
  adding_common_loop larger ((item, u) ∷ es) s g h = elim (Bool-cases (contains larger item)) [
    | inl q ↦
        let (s₁, e, (w, f)) = add_one cmp s item h in
        rw (q, e)
          (Answers-same _ _ _
            (λ other. ground (
              arith,
              q,
              f other,
              member-cons cmp other item u es,
              contains-same cmp larger other item g,
            ))
            (adding_common_loop larger es s₁ g w))
    | inr q ↦ rw q (
        Answers-same _ _ _
          (λ other.
            ground
              (arith, q, member-cons cmp other item u es, contains-same cmp larger other item g))
          (adding_common_loop larger es s g h))
  ]

  pub answered :
      (has : T → Bool) (o : Option (TreeSet T))
      → Answers has o
      → (s : TreeSet T) × (o ≡ some s) × Made cmp has s
  answered has none a = absurd a
  answered has (some s) a = (s, refl, a)
