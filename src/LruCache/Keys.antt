-- ===== src/LruCache/Keys.antt =====
-- Association lists in which no key stands twice, and what a removal and an assignment do to them.
use microservice_kit.Prelude.{
  suc, ◌≡◌, refl, none, some, List, [], ◌∷◌, arith, length, get, put, remove, get-put_ne,
}

module _ {K A : Type 0} (eq : Discrete K) where
  -- no key stands twice
  unfoldable pub HasDistinctKeys : List (K × A) → Type 0
  HasDistinctKeys [] = Unit
  HasDistinctKeys ((k, _) ∷ xs) = (get eq xs k ≡ none) × HasDistinctKeys xs

  pub remove_absent : (xs : List (K × A)) (k : K) → get eq xs k ≡ none → remove eq xs k ≡ xs
  unfolding get remove
  remove_absent [] k e = refl
  remove_absent ((k', c) ∷ xs) k e = ground (arith, remove_absent xs k)

  pub length-remove :
      (xs : List (K × A)) (k : K) (a : A)
      → HasDistinctKeys xs
      → get eq xs k ≡ some a
      → suc (length (remove eq xs k)) ≡ length xs
  unfolding get remove HasDistinctKeys
  length-remove [] k a d e = cc
  length-remove ((k', c) ∷ xs) k a d e = ground (arith, length-remove xs k a, remove_absent xs k)

  pub length-put_absent :
      (xs : List (K × A)) (k : K) (a : A)
      → get eq xs k ≡ none
      → length (put eq xs k a) ≡ suc (length xs)
  unfolding get put
  length-put_absent [] k a e = refl
  length-put_absent ((k', c) ∷ xs) k a e = ground (arith, length-put_absent xs k a)

  get-remove-none :
      (xs : List (K × A)) (j k : K) → get eq xs j ≡ none → get eq (remove eq xs k) j ≡ none
  unfolding get remove
  get-remove-none [] j k e = refl
  get-remove-none ((k', c) ∷ xs) j k e = ground (arith, get-remove-none xs j k)

  pub remove-HasDistinctKeys :
      (xs : List (K × A)) (k : K) → HasDistinctKeys xs → HasDistinctKeys (remove eq xs k)
  unfolding remove HasDistinctKeys
  remove-HasDistinctKeys [] k d = d
  remove-HasDistinctKeys ((k', c) ∷ xs) k (e, d) =
      elim (eq k' k)
        as (λ x.
          HasDistinctKeys (elim x [ yes _ ↦ remove eq xs k | no _ ↦ (k', c) ∷ remove eq xs k ])) [
            | yes _ ↦ remove-HasDistinctKeys xs k d
            | no _ ↦ (get-remove-none xs k' k e, remove-HasDistinctKeys xs k d)
          ]

  pub put-HasDistinctKeys :
      (xs : List (K × A)) (k : K) (a : A) → HasDistinctKeys xs → HasDistinctKeys (put eq xs k a)
  unfolding get put HasDistinctKeys
  put-HasDistinctKeys [] k a d = ground arith
  put-HasDistinctKeys ((k', c) ∷ xs) k a (e, d) =
      elim (eq k' k)
        as (λ x.
          HasDistinctKeys (elim x [ yes _ ↦ (k', a) ∷ xs | no _ ↦ (k', c) ∷ put eq xs k a ])) [
            | yes _ ↦ (e, d)
            | no ne ↦ (ground (arith, get-put_ne eq xs k k' a), put-HasDistinctKeys xs k a d)
          ]
