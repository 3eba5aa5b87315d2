-- ===== src/LruCache/Spec.antt =====
-- What the package promises of a cache: its pairs in the order of their last use, the capacity, and the
-- pair that was used least recently gives way to a new one.
use microservice_kit.Prelude.{
  ℕ, Bool, true, false, Option, none, some, List, [], ◌∷◌, length, leb, take, if◌then◌else◌, get,
  remove,
}
use microservice_kit.Prelude.Int.{ℤ}
use microservice_kit.LruCache.{at_least_one}

unfoldable pub but_last : {A : Type 0} → List A → List A
but_last [] = []
but_last (x ∷ []) = []
but_last (x ∷ y ∷ xs) = x ∷ but_last (y ∷ xs)

pub record Recency (K V : Type 0) : Type 0 where
  pub capacity : ℕ
  pub items : List (K × V)

-- the calls of the methods; the loader of `GetOrPut` is a function that does not call the cache
pub data Call (K V : Type 0) : Type 0 where
  get_call peek_call contains_call remove_call : K → Call K V
  put_call : K → V → Call K V
  get_or_put_call : K → (Unit {0} → V) → Call K V
  len_call capacity_call keys_call clear_call : Call K V
  resize_call : ℤ → Call K V

-- what they return
pub data Reply (K V : Type 0) : Type 0 where
  found : Option V → Reply K V
  flag : Bool → Reply K V
  count : ℕ → Reply K V
  listed : List K → Reply K V
  nothing : Reply K V

unfoldable pub keys_of : {K V : Type 0} → List (K × V) → List K
keys_of [] = []
keys_of ((k, _) ∷ xs) = k ∷ keys_of xs

module _ {K V : Type 0} (eq : Discrete K) where
  -- the pair of the key goes to the front
  unfoldable pub touch : K → V → List (K × V) → List (K × V)
  touch k v xs = (k, v) ∷ remove eq xs k

  -- a new pair goes to the front, and in a full cache the last one goes
  unfoldable pub admit : ℕ → K → V → List (K × V) → List (K × V)
  admit n k v xs = (k, v) ∷ (if leb n (length xs) then but_last xs else xs)

  unfoldable pub answer : Call K V → Recency K V → Recency K V × Reply K V
  answer (get_call k) s = elim (get eq s.items k) [
    | none ↦ (s, found none)
    | some v ↦ (record s { items = touch k v s.items }, found (some v))
  ]
  answer (put_call k v) s = elim (get eq s.items k) [
    | none ↦ (record s { items = admit s.capacity k v s.items }, nothing)
    | some _ ↦ (record s { items = touch k v s.items }, nothing)
  ]
  answer (get_or_put_call k loader) s = elim (get eq s.items k) [
    | none ↦ (record s { items = admit s.capacity k (loader tt) s.items }, found (some (loader tt)))
    | some v ↦ (record s { items = touch k v s.items }, found (some v))
  ]
  answer (peek_call k) s = (s, found (get eq s.items k))
  answer (contains_call k) s = (s, flag (elim (get eq s.items k) [ none ↦ false | some _ ↦ true ]))
  answer (remove_call k) s = elim (get eq s.items k) [
    | none ↦ (s, flag false)
    | some _ ↦ (record s { items = remove eq s.items k }, flag true)
  ]
  answer len_call s = (s, count (length s.items))
  answer capacity_call s = (s, count s.capacity)
  answer keys_call s = (s, listed (keys_of s.items))
  answer clear_call s = (record s { items = [] }, nothing)
  answer (resize_call n) s =
      (record { capacity = at_least_one n; items = take (at_least_one n) s.items }, nothing)

  -- the calls one behind the other
  unfoldable pub answers : List (Call K V) → Recency K V → Recency K V × List (Reply K V)
  answers [] s = (s, [])
  answers (call ∷ calls) s =
      let step = answer call s in let rest = answers calls step.0 in (rest.0, step.1 ∷ rest.1)
