-- ===== src/Slices/Search.antt =====
-- util/collections/slices: `FindIndex`, `Find` and `None` agree on the first element of a kind.
use microservice_kit.Prelude.{
  ℕ, suc, ◌+◌, ◌≡◌, refl, ◌∙◌, Bool, true, Bool-cases, inl, inr, ◌⊎◌, none, some, List, [], ◌∷◌,
  take, get_elem?, arith, ap,
}
use microservice_kit.Prelude.Int.{pos, negsuc}
use microservice_kit.Slices.{find, find_index, find_index_from, any, none_of}

module _ {ℓ} {T : Type ℓ} where
  -- what a search reports whose first element has the index k
  abbrev pub Search : ℕ → List T → (T → Bool) → Type ℓ
  Search k slice fn =
      ((find_index_from k slice fn ≡ negsuc 0) × (find slice fn ≡ none) × (none_of slice fn ≡ true))
      ⊎ ((i : ℕ) × (x : T) × (find_index_from k slice fn ≡ pos (k + i))
          × (find slice fn ≡ some x)
          × (get_elem? slice i ≡ some x)
          × (fn x ≡ true)
          × (none_of (take i slice) fn ≡ true))

  search : (k : ℕ) (slice : List T) (fn : T → Bool) → Search k slice fn
  unfolding find_index_from find none_of any
  search k [] fn = inl (refl, refl, refl)
  search k (y ∷ slice) fn = elim (Bool-cases (fn y)) [
    | inl e ↦ rw e (inr (0, y, ap pos (omega arith), refl, refl, e, refl))
    | inr e ↦ rw e (elim (search (k + 1) slice fn) [
      | inl s ↦ inl s
      | inr (i, x, p, q, r, f, n) ↦ inr (suc i, x, p ∙ ap pos (omega arith), q, r, f, rw e n)
    ])
  ]

  -- Either no element satisfies the test, `FindIndex` returns -1 and `Find` nothing; or both report
  -- the same element, it satisfies the test, and no element before it does.
  pub find_index-find :
      (slice : List T) (fn : T → Bool)
      → ((find_index slice fn ≡ negsuc 0) × (find slice fn ≡ none) × (none_of slice fn ≡ true))
        ⊎ ((i : ℕ) × (x : T) × (find_index slice fn ≡ pos (0 + i))
            × (find slice fn ≡ some x)
            × (get_elem? slice i ≡ some x)
            × (fn x ≡ true)
            × (none_of (take i slice) fn ≡ true))
  unfolding find_index
  find_index-find slice fn = search 0 slice fn
