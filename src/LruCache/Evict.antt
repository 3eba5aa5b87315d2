-- ===== src/LruCache/Evict.antt =====
-- util/collections/lrucache/lru_cache.go: `removeLast` and its callers take the pair away that was used
-- least recently.
use microservice_kit.Prelude.{
  ℕ, zero, suc, ◌≤◌, ◌<◌, ◌≡◌, refl, inl, inr, false, none, some, List, [], ◌∷◌, arith, length,
  ◌==◌, ltb, leb, take, ap, ◌∙◌, subst, if◌then◌else◌, get, remove, Bool-cases,
}
use microservice_kit.LruCache.{LruCache, len, remove_last, make_room, evict}
use microservice_kit.LruCache.Chain.{Cell, Cells, Chain-last, start-Chain, has_of_get}
use microservice_kit.LruCache.Spec.{but_last}
use microservice_kit.LruCache.Calls.{length-but_last}
use microservice_kit.LruCache.Valid.{IsValid, remove_entry-Chain, removed-IsValid}

pub take-but_last :
    {A : Type 0} (n : ℕ) (x : A) (xs : List A)
    → n < length (x ∷ xs)
    → take n (but_last (x ∷ xs)) ≡ take n (x ∷ xs)
unfolding but_last
take-but_last zero x xs h = refl
take-but_last (suc n) x [] h = absurd (omega arith)
take-but_last (suc n) x (y ∷ xs) h = ap (λ ys. x ∷ ys) (take-but_last n y xs (omega arith))

take_all : {A : Type 0} (n : ℕ) (xs : List A) → length xs ≤ n → take n xs ≡ xs
take_all zero [] h = refl
take_all zero (x ∷ xs) h = absurd (omega arith)
take_all (suc n) [] h = refl
take_all (suc n) (x ∷ xs) h = ap (λ ys. x ∷ ys) (take_all n xs (omega arith))

pub get-but_last :
    {K A : Type 0} (eq : Discrete K) (xs : List (K × A)) (k : K)
    → get eq xs k ≡ none
    → get eq (but_last xs) k ≡ none
unfolding get but_last
get-but_last eq [] k e = refl
get-but_last eq (x ∷ []) k e = refl
get-but_last eq ((k', a) ∷ y ∷ xs) k e = ground (arith, get-but_last eq (y ∷ xs) k)

module _ {K V : Type 0} (eq : Discrete K) where
  pub remove_last-but_last :
      (c : LruCache K V) (x : K × Cell V) (xs : Cells K V)
      → IsValid eq c (x ∷ xs)
      → (c' : LruCache K V) × (remove_last eq c ≡ some c')
        × (c'.capacity ≡ c.capacity)
        × IsValid eq c' (but_last (x ∷ xs))
  unfolding remove_last
  remove_last-but_last c x xs valid =
      let (k, p, v, before, item, found, rest) = Chain-last eq x xs valid.chain valid.distinct in
      let (h, ran, chain, same) = remove_entry-Chain eq c (x ∷ xs) k p v valid found in
      let ne : (p == c.head) ≡ false =
        ground (arith, start-Chain valid.chain, has_of_get eq (x ∷ xs) k p v found) in
      (
        record c { heap = h; cache = remove eq c.cache k },
        ground (arith, before, item, ran, same p, ne),
        refl,
        subst (λ ys. IsValid eq (record c { heap = h; cache = remove eq c.cache k }) ys) rest
            (removed-IsValid eq c (x ∷ xs) k p v valid found h chain),
      )

  -- a full cache loses its last pair, and room is left where there was some
  pub make_room-IsValid :
      (c : LruCache K V) (xs : Cells K V)
      → IsValid eq c xs
      → (c' : LruCache K V) × (make_room eq c ≡ some c')
        × (c'.capacity ≡ c.capacity)
        × IsValid eq c' (if leb c.capacity (length xs) then but_last xs else xs)
  unfolding make_room len
  make_room-IsValid c [] valid =
      (c, ground (arith, valid.size, valid.positive), refl, ground (arith, valid))
  make_room-IsValid c (x ∷ xs) valid = elim (Bool-cases (leb c.capacity (length (x ∷ xs)))) [
    | inl full ↦
        let (c', ran, same, valid') = remove_last-but_last c x xs valid in
        (c', ground (arith, valid.size), same, rw full valid')
    | inr room ↦ (c, ground (arith, valid.size), refl, rw room valid)
  ]

  -- the loop of `Resize` ends, with as many pairs as the capacity allows
  pub evict-take :
      (fuel : ℕ) (c : LruCache K V) (xs : Cells K V)
      → IsValid eq c xs
      → length xs < fuel
      → (c' : LruCache K V) × (evict eq fuel c ≡ some c')
        × (c'.capacity ≡ c.capacity)
        × IsValid eq c' (take c.capacity xs)
  unfolding evict len
  evict-take zero c xs valid h = absurd (omega arith)
  evict-take (suc fuel) c [] valid h = (
    c,
    ground (arith, valid.size),
    refl,
    rw (take_all {A = K × Cell V} c.capacity [] (omega arith)) valid,
  )
  evict-take (suc fuel) c (x ∷ xs) valid h = elim (Bool-cases (ltb c.capacity (length (x ∷ xs)))) [
    | inl over ↦
        let (c₁, ran, same, valid₁) = remove_last-but_last c x xs valid in
        let less = length-but_last x xs in
        let (c₂, ran₂, same₂, valid₂) =
          evict-take fuel c₁ (but_last (x ∷ xs)) valid₁ (omega arith) in
        let kept : take c₁.capacity (but_last (x ∷ xs)) ≡ take c.capacity (x ∷ xs) =
          rw same (take-but_last c.capacity x xs (ground arith)) in
        (c₂, ground (arith, valid.size), same₂ ∙ same, subst (λ ys. IsValid eq c₂ ys) kept valid₂)
    | inr fits ↦ (
      c,
      ground (arith, valid.size),
      refl,
      rw (take_all c.capacity (x ∷ xs) (ground arith)) valid,
    )
  ]
