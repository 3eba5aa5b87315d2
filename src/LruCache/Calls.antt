-- ===== src/LruCache/Calls.antt =====
-- util/collections/lrucache/lru_cache.go: any call of a method, sequences of calls, and the pairs that a
-- cache shows.
use microservice_kit.Prelude.{
  ℕ, zero, suc, ◌≡◌, refl, ap, Option, none, some, List, [], ◌∷◌, arith, length, take, get, remove,
}
use microservice_kit.LruCache.{
  LruCache, ◌>>=◌, get_value, put_value, get_or_put, peek, contains, remove_key, len, keys, clear,
  resize,
}
use microservice_kit.LruCache.Spec.{
  Call, get_call, peek_call, contains_call, remove_call, put_call, get_or_put_call, len_call,
  capacity_call, keys_call, clear_call, resize_call, Reply, found, flag, count, listed, nothing,
  but_last, Recency,
}
use microservice_kit.LruCache.Chain.{Cell, Cells}

module _ {K V : Type 0} (eq : Discrete K) where
  -- the calls on the cache itself; `none` is a panic or a loop that has not ended on the fuel
  unfoldable pub call_cache : ℕ → Call K V → LruCache K V → Option (LruCache K V × Reply K V)
  call_cache fuel (get_call k) c = do (c₁, v) ← get_value eq c k; some (c₁, found v)
  call_cache fuel (put_call k v) c = do c₁ ← put_value eq c k v; some (c₁, nothing)
  call_cache fuel (get_or_put_call k loader) c = do
    (c₁, v) ← get_or_put eq c k loader
    some (c₁, found (some v))
  call_cache fuel (peek_call k) c = do v ← peek eq c k; some (c, found v)
  call_cache fuel (contains_call k) c = some (c, flag (contains eq c k))
  call_cache fuel (remove_call k) c = do (c₁, b) ← remove_key eq c k; some (c₁, flag b)
  call_cache fuel len_call c = some (c, count (len c))
  call_cache fuel capacity_call c = some (c, count c.capacity)
  call_cache fuel keys_call c = do ks ← keys fuel c; some (c, listed ks)
  call_cache fuel clear_call c = do c₁ ← clear c; some (c₁, nothing)
  call_cache fuel (resize_call n) c = do c₁ ← resize eq fuel c n; some (c₁, nothing)

  unfoldable pub call_all :
      ℕ → List (Call K V) → LruCache K V → Option (LruCache K V × List (Reply K V))
  call_all fuel [] c = some (c, [])
  call_all fuel (call ∷ calls) c = do
    (c₁, r) ← call_cache fuel call c
    (c₂, rs) ← call_all fuel calls c₁
    some (c₂, r ∷ rs)

pub length-but_last :
    {A : Type 0} (x : A) (xs : List A) → suc (length (but_last (x ∷ xs))) ≡ length (x ∷ xs)
unfolding but_last
length-but_last x [] = refl
length-but_last x (y ∷ xs) = ap suc (length-but_last y xs)

abbrev pub value_of : {V : Type 0} → Option (Cell V) → Option V
value_of none = none
value_of (some c) = some c.value

module _ {K V : Type 0} where
  -- the pairs of the cells
  unfoldable pub view : Cells K V → List (K × V)
  view [] = []
  view ((k, c) ∷ xs) = (k, c.value) ∷ view xs

  abbrev pub shown : LruCache K V → Cells K V → Recency K V
  shown c xs = record { capacity = c.capacity; items = view xs }

  pub length-view : (xs : Cells K V) → length (view xs) ≡ length xs
  unfolding view
  length-view [] = refl
  length-view (x ∷ xs) = ap suc (length-view xs)

  pub take-view : (n : ℕ) (xs : Cells K V) → take n (view xs) ≡ view (take n xs)
  unfolding view
  take-view zero xs = ground arith
  take-view (suc n) [] = refl
  take-view (suc n) ((k, c) ∷ xs) = ap (λ ys. (k, c.value) ∷ ys) (take-view n xs)

  pub but_last-view : (xs : Cells K V) → but_last (view xs) ≡ view (but_last xs)
  unfolding view but_last
  but_last-view [] = refl
  but_last-view (x ∷ []) = refl
  but_last-view ((k, c) ∷ y ∷ xs) = ap (λ ys. (k, c.value) ∷ ys) (but_last-view (y ∷ xs))

  module _ (eq : Discrete K) where
    pub get-view : (xs : Cells K V) (k : K) → get eq (view xs) k ≡ value_of (get eq xs k)
    unfolding view get
    get-view [] k = refl
    get-view ((k', c) ∷ xs) k = ground (arith, get-view xs k)

    pub remove-view : (xs : Cells K V) (k : K) → remove eq (view xs) k ≡ view (remove eq xs k)
    unfolding view remove
    remove-view [] k = refl
    remove-view ((k', c) ∷ xs) k = ground (arith, remove-view xs k)
