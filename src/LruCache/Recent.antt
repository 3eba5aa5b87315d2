-- ===== src/LruCache/Recent.antt =====
-- util/collections/lrucache/lru_cache.go: what was used lately stays in the cache.
use microservice_kit.Prelude.{
  ℕ, zero, suc, ◌+◌, ◌≤◌, ◌<◌, ◌≡◌, ◌≢◌, refl, ap, ◌∙◌, inl, inr, some, List, [], ◌∷◌, arith,
  length, take, get, remove, Option-cases,
}
use microservice_kit.LruCache.{LruCache}
use microservice_kit.LruCache.Chain.{Cells}
use microservice_kit.LruCache.Spec.{
  Call, get_call, peek_call, contains_call, remove_call, put_call, get_or_put_call, len_call,
  capacity_call, keys_call, clear_call, resize_call, Reply, found, Recency, answer, answers, touch,
  admit,
}
use microservice_kit.LruCache.Calls.{call_cache, call_all, shown, length-view}
use microservice_kit.LruCache.Valid.{IsValid}
use microservice_kit.LruCache.Refines.{call-Serves}
use microservice_kit.LruCache.Runs.{call_all-answers, answers_le}
use microservice_kit.LruCache.Evict.{take-but_last}

module _ {K V : Type 0} (eq : Discrete K) where
  get-take-suc :
      (n : ℕ) (xs : List (K × V)) (k : K) (v : V)
      → get eq (take n xs) k ≡ some v
      → get eq (take (suc n) xs) k ≡ some v
  unfolding get
  get-take-suc zero xs k v e = cc
  get-take-suc (suc n) [] k v e = e
  get-take-suc (suc n) ((k', w) ∷ xs) k v e = ground (arith, get-take-suc n xs k v)

  get-take-remove :
      (n : ℕ) (xs : List (K × V)) (k other : K) (v : V)
      → other ≢ k
      → get eq (take n xs) k ≡ some v
      → get eq (take n (remove eq xs other)) k ≡ some v
  unfolding get remove
  get-take-remove zero xs k other v ne e = cc
  get-take-remove (suc n) [] k other v ne e = e
  get-take-remove (suc n) ((k', w) ∷ xs) k other v ne e =
      ground (arith, get-take-remove n xs k other v ne, get-take-suc n (remove eq xs other) k v)

  get_of_take :
      (n : ℕ) (xs : List (K × V)) (k : K) (v : V)
      → get eq (take n xs) k ≡ some v
      → get eq xs k ≡ some v
  unfolding get
  get_of_take zero xs k v e = cc
  get_of_take (suc n) [] k v e = e
  get_of_take (suc n) ((k', w) ∷ xs) k v e = ground (arith, get_of_take n xs k v)

  -- the call neither assigns to the key nor takes it away, nor changes the capacity
  unfoldable pub Spares : K → Call K V → Type 0
  Spares k (put_call other _) = other ≢ k
  Spares k (remove_call other) = other ≢ k
  Spares k clear_call = ⊥
  Spares k (resize_call _) = ⊥
  Spares k _ = Unit

  unfoldable pub AllSpare : K → List (Call K V) → Type 0
  AllSpare k [] = Unit
  AllSpare k (call ∷ calls) = Spares k call × AllSpare k calls

  touch_within :
      (n : ℕ) (xs : List (K × V)) (k other : K) (v w : V)
      → get eq (take n xs) k ≡ some v
      → get eq xs other ≡ some w
      → get eq (take (suc n) (touch eq other w xs)) k ≡ some v
  unfolding touch get
  touch_within n xs k other v w e f = elim (eq other k) [
    | yes same ↦ ground (arith, get_of_take n xs k v e)
    | no ne ↦ ground (arith, get-take-remove n xs k other v ne e)
  ]

  admit_within :
      (n cap : ℕ) (xs : List (K × V)) (k other : K) (v w : V)
      → get eq (take n xs) k ≡ some v
      → n < cap
      → other ≢ k
      → get eq (take (suc n) (admit eq cap other w xs)) k ≡ some v
  unfolding admit get
  admit_within n cap [] k other v w e h ne = ground arith
  admit_within n cap (x ∷ xs) k other v w e h ne = ground (arith, take-but_last n x xs)

  -- one call moves a pair back by one place at most
  answer_within :
      (call : Call K V) (s : Recency K V) (n : ℕ) (k : K) (v : V)
      → Spares k call
      → get eq (take n s.items) k ≡ some v
      → n < s.capacity
      → (get eq (take (suc n) (answer eq call s).0.items) k ≡ some v)
        × ((answer eq call s).0.capacity ≡ s.capacity)
  unfolding answer Spares touch get
  answer_within (get_call other) s n k v h e p = elim (Option-cases (get eq s.items other)) [
    | inl f ↦ ground (arith, get-take-suc n s.items k v)
    | inr (w, f) ↦ ground (arith, touch_within n s.items k other v w)
  ]
  answer_within (put_call other w) s n k v h e p = elim (Option-cases (get eq s.items other)) [
    | inl f ↦ ground (arith, admit_within n s.capacity s.items k other v w)
    | inr (w', f) ↦ ground (arith, get-take-remove n s.items k other v h e)
  ]
  answer_within (get_or_put_call other loader) s n k v h e p =
      elim (Option-cases (get eq s.items other)) [
        | inl f ↦ ground (
          arith,
          admit_within n s.capacity s.items k other v (loader tt),
          get_of_take n s.items k v e,
        )
        | inr (w, f) ↦ ground (arith, touch_within n s.items k other v w)
      ]
  answer_within (remove_call other) s n k v h e p = ground (
    arith,
    get-take-suc n s.items k v,
    get-take-suc n (remove eq s.items other) k v,
    get-take-remove n s.items k other v h e,
  )
  answer_within clear_call s n k v h e p = absurd h
  answer_within (resize_call m) s n k v h e p = absurd h
  answer_within (peek_call other) s n k v h e p = (get-take-suc n s.items k v e, refl)
  answer_within (contains_call other) s n k v h e p = (get-take-suc n s.items k v e, refl)
  answer_within len_call s n k v h e p = (get-take-suc n s.items k v e, refl)
  answer_within capacity_call s n k v h e p = (get-take-suc n s.items k v e, refl)
  answer_within keys_call s n k v h e p = (get-take-suc n s.items k v e, refl)

  answers_within :
      (calls : List (Call K V)) (s : Recency K V) (n : ℕ) (k : K) (v : V)
      → AllSpare k calls
      → get eq (take n s.items) k ≡ some v
      → n + length calls ≤ s.capacity
      → get eq (answers eq calls s).0.items k ≡ some v
  unfolding answers AllSpare
  answers_within [] s n k v h e p = get_of_take n s.items k v e
  answers_within (call ∷ calls) s n k v (h, hs) e p =
      let (e', same) = answer_within call s n k v h e (omega arith) in
      answers_within calls (answer eq call s).0 (suc n) k v hs e' (rw same (omega arith))

  put_within :
      (s : Recency K V) (k : K) (v : V)
      → (get eq (take 1 (answer eq (put_call k v) s).0.items) k ≡ some v)
        × ((answer eq (put_call k v) s).0.capacity ≡ s.capacity)
  unfolding answer touch admit get
  put_within s k v = ground arith

  -- A value that `Put` has stored is what `Get` returns behind fewer calls than the capacity that neither
  -- assign to the key, nor remove it, nor clear or resize the cache.
  pub put_call-kept :
      (fuel : ℕ) (c : LruCache K V) (xs : Cells K V) (k : K) (v : V) (calls : List (Call K V))
      → IsValid eq c xs
      → AllSpare k calls
      → length calls < c.capacity
      → length xs + length calls + 1 < fuel
      → (c₁ c₂ : LruCache K V) × (rs : List (Reply K V)) × (call_all eq fuel
            (put_call k v ∷ calls)
            c
          ≡ some (c₁, rs))
        × (call_cache eq fuel (get_call k) c₁ ≡ some (c₂, found (some v)))
  unfolding answer answers
  put_call-kept fuel c xs k v calls valid spare short enough =
      let s = shown c xs in
      let (c₁, xs₁, ran, same, valid₁) =
        call_all-answers eq fuel (put_call k v ∷ calls) c xs valid (omega arith) in
      let (front, cap) = put_within s k v in
      let kept : get eq (answers eq (put_call k v ∷ calls) s).0.items k ≡ some v =
        answers_within calls (answer eq (put_call k v) s).0 1 k v spare front
          (rw cap (omega arith)) in
      let here : get eq (shown c₁ xs₁).items k ≡ some v = ap (λ t. get eq t.items k) same ∙ kept in
      let (c₂, _, got, _, _) = call-Serves eq fuel c₁ xs₁ valid₁ (get_call k) (
        ground (
          arith,
          answers_le eq (put_call k v ∷ calls) s,
          length-view xs,
          length-view xs₁,
          ap (λ t. length t.items) same,
        )) in
      (c₁, c₂, (answers eq (put_call k v ∷ calls) s).1, ran, ground (arith, got))
