-- ===== src/LruCache/Runs.antt =====
-- util/collections/lrucache/lru_cache.go: any calls, one behind the other, on a new cache.
use microservice_kit.Prelude.{
  ℕ, suc, ◌+◌, ◌≤◌, ◌<◌, ◌≡◌, refl, ap, ◌∙◌, inl, inr, some, List, [], ◌∷◌, arith, length, get,
  remove, Option-cases, length-take,
}
use microservice_kit.Prelude.Int.{ℤ}
use microservice_kit.LruCache.{LruCache, new, len, at_least_one, sentinels}
use microservice_kit.LruCache.Keys.{HasDistinctKeys}
use microservice_kit.LruCache.Chain.{Cells, done}
use microservice_kit.LruCache.Spec.{
  Call, get_call, peek_call, contains_call, remove_call, put_call, get_or_put_call, len_call,
  capacity_call, keys_call, clear_call, resize_call, Recency, answer, answers, touch, admit,
  but_last,
}
use microservice_kit.LruCache.Calls.{call_all, view, shown, length-view, length-but_last}
use microservice_kit.LruCache.Valid.{IsValid}
use microservice_kit.LruCache.Refines.{call-Serves}

module _ {K V : Type 0} (eq : Discrete K) where
  length-remove_le : (xs : List (K × V)) (k : K) → length (remove eq xs k) ≤ length xs
  unfolding remove
  length-remove_le [] k = omega arith
  length-remove_le ((k', v) ∷ xs) k = ground (arith, length-remove_le xs k)

  length-remove_lt :
      (xs : List (K × V)) (k : K) (v : V)
      → get eq xs k ≡ some v
      → length (remove eq xs k) < length xs
  unfolding get remove
  length-remove_lt [] k v e = cc
  length-remove_lt ((k', w) ∷ xs) k v e =
      ground (arith, length-remove_lt xs k v, length-remove_le xs k)

  -- no more pairs than the capacity, which is positive
  abbrev pub IsBounded : Recency K V → Type 0
  IsBounded s = (length s.items ≤ s.capacity) × (0 < s.capacity)

  admit_le :
      (n : ℕ) (k : K) (v : V) (xs : List (K × V))
      → length xs ≤ n
      → 0 < n
      → length (admit eq n k v xs) ≤ n
  unfolding admit
  admit_le n k v [] h p = ground arith
  admit_le n k v (x ∷ xs) h p = ground (arith, length-but_last x xs)

  length-admit :
      (n : ℕ) (k : K) (v : V) (xs : List (K × V)) → length (admit eq n k v xs) ≤ suc (length xs)
  unfolding admit but_last
  length-admit n k v [] = ground arith
  length-admit n k v (x ∷ xs) = ground (arith, length-but_last x xs)

  -- every call keeps to the capacity, and adds at most one pair
  pub answer-IsBounded :
      (call : Call K V) (s : Recency K V) → IsBounded s → IsBounded (answer eq call s).0
  unfolding answer touch at_least_one
  answer-IsBounded (get_call k) s h = elim (Option-cases (get eq s.items k)) [
    | inl e ↦ ground arith
    | inr (v, e) ↦ ground (arith, length-remove_lt s.items k v e)
  ]
  answer-IsBounded (put_call k w) s h = elim (Option-cases (get eq s.items k)) [
    | inl e ↦ ground (arith, admit_le s.capacity k w s.items)
    | inr (v, e) ↦ ground (arith, length-remove_lt s.items k v e)
  ]
  answer-IsBounded (get_or_put_call k loader) s h = elim (Option-cases (get eq s.items k)) [
    | inl e ↦ ground (arith, admit_le s.capacity k (loader tt) s.items)
    | inr (v, e) ↦ ground (arith, length-remove_lt s.items k v e)
  ]
  answer-IsBounded (resize_call n) s h = ground (arith, length-take (at_least_one n) s.items)
  answer-IsBounded (remove_call k) s h = ground (arith, length-remove_le s.items k)
  answer-IsBounded clear_call s h = ground arith
  answer-IsBounded (peek_call k) s h = h
  answer-IsBounded (contains_call k) s h = h
  answer-IsBounded len_call s h = h
  answer-IsBounded capacity_call s h = h
  answer-IsBounded keys_call s h = h

  length-answer :
      (call : Call K V) (s : Recency K V) → length (answer eq call s).0.items ≤ suc (length s.items)
  unfolding answer touch
  length-answer (get_call k) s = ground (arith, length-remove_le s.items k)
  length-answer (put_call k w) s =
      ground (arith, length-admit s.capacity k w s.items, length-remove_le s.items k)
  length-answer (get_or_put_call k loader) s =
      ground (arith, length-admit s.capacity k (loader tt) s.items, length-remove_le s.items k)
  length-answer (resize_call n) s = ground (arith, length-take (at_least_one n) s.items)
  length-answer (remove_call k) s = ground (arith, length-remove_le s.items k)
  length-answer clear_call s = ground arith
  length-answer (peek_call k) s = omega arith
  length-answer (contains_call k) s = omega arith
  length-answer len_call s = omega arith
  length-answer capacity_call s = omega arith
  length-answer keys_call s = omega arith

  pub answers_le :
      (calls : List (Call K V)) (s : Recency K V)
      → length (answers eq calls s).0.items ≤ length s.items + length calls
  unfolding answers
  answers_le [] s = omega arith
  answers_le (call ∷ calls) s =
      let grown = length-answer call s in
      let rest = answers_le calls (answer eq call s).0 in omega arith

  pub answers-IsBounded :
      (calls : List (Call K V)) (s : Recency K V) → IsBounded s → IsBounded (answers eq calls s).0
  unfolding answers
  answers-IsBounded [] s h = h
  answers-IsBounded (call ∷ calls) s h =
      answers-IsBounded calls (answer eq call s).0 (answer-IsBounded call s h)

  -- the cache that `New` makes
  pub new-IsValid : (k : K) (v : V) (capacity : ℤ) → IsValid eq (new k v capacity) []
  unfolding new sentinels at_least_one get HasDistinctKeys
  new-IsValid k v capacity = record {
    chain = done refl refl refl;
    distinct = tt;
    cache_distinct = tt;
    index = λ j. refl;
    size = refl;
    fresh = λ x e. refl;
    head_old = omega arith;
    tail_old = omega arith;
    positive = ground arith;
  }

  -- From a valid cache, any calls end without a panic and return what the specification says, and they
  -- leave a valid cache with the pairs that it says, when the fuel of each call is more than the pairs and
  -- the calls together.
  pub call_all-answers :
      (fuel : ℕ) (calls : List (Call K V)) (c : LruCache K V) (xs : Cells K V)
      → IsValid eq c xs
      → length xs + length calls < fuel
      → (c' : LruCache K V) × (xs' : Cells K V) × (call_all eq fuel calls c
          ≡ some (c', (answers eq calls (shown c xs)).1))
        × (shown c' xs' ≡ (answers eq calls (shown c xs)).0)
        × IsValid eq c' xs'
  unfolding call_all answers
  call_all-answers fuel [] c xs valid h = (c, xs, refl, refl, valid)
  call_all-answers fuel (call ∷ calls) c xs valid h =
      let (c₁, xs₁, ran, same, valid₁) = call-Serves eq fuel c xs valid call (omega arith) in
      let grown : length xs₁ ≤ suc (length xs) = ground (
        arith,
        length-answer call (shown c xs),
        length-view xs,
        length-view xs₁,
        ap (λ s. length s.items) same,
      ) in
      let (c₂, xs₂, ran₂, same₂, valid₂) =
        call_all-answers fuel calls c₁ xs₁ valid₁ (omega arith) in
      (
        c₂,
        xs₂,
        ground (arith, ran, ran₂, ap (λ s. answers eq calls s) same),
        same₂ ∙ ap (λ s. (answers eq calls s).0) same,
        valid₂,
      )

  -- On a new cache, any calls end without a panic, return what the specification says of an empty one, and
  -- leave no more entries than the capacity, when the fuel of each is more than their number.
  pub new-answers :
      (k : K) (v : V) (capacity : ℤ) (fuel : ℕ) (calls : List (Call K V))
      → length calls < fuel
      → (c : LruCache K V) × (call_all eq fuel calls (new k v capacity)
          ≡ some
              (c, (answers eq calls (record { capacity = at_least_one capacity; items = [] })).1))
        × (len c ≤ c.capacity)
  unfolding new view at_least_one len
  new-answers k v capacity fuel calls h =
      let c₀ : LruCache K V = new k v capacity in
      let (c, xs, ran, same, valid) =
        call_all-answers fuel calls c₀ [] (new-IsValid k v capacity) (omega arith) in
      let bound = answers-IsBounded calls (shown c₀ []) (omega arith, ground arith) in
      (c, ran, ground (arith, same, length-view xs, valid.size))
