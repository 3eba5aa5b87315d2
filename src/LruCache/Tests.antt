-- ===== src/LruCache/Tests.antt =====
-- Runs of a cache for two pairs, and the theorems on the cache at them.
use native.Mathlib.Decide.{ℕ_discrete}
use microservice_kit.Prelude.{
  ℕ, ◌≤◌, ◌≡◌, refl, Option, some, none, List, [], ◌∷◌, true, arith, get, put, remove,
}
use microservice_kit.Prelude.Int.{pos, negsuc}
use microservice_kit.LruCache.{
  LruCache, new, len, at_least_one, keys, set_next, set_prev, put_value, make_room, add_entry,
  add_to_front, write, sentinels, get_value, contains, evict, get_or_put, keys_from, move_to_front,
  remove_entry, remove_key, remove_last, resize, set_value,
}
use microservice_kit.LruCache.Spec.{
  Call, get_call, remove_call, put_call, get_or_put_call, len_call, keys_call, resize_call, Reply,
  found, flag, count, listed, nothing, answers,
}
use microservice_kit.LruCache.Calls.{call_cache, call_all, shown}
use microservice_kit.LruCache.Chain.{Cells}
use microservice_kit.LruCache.Valid.{IsValid}
use microservice_kit.LruCache.Runs.{new-IsValid, call_all-answers, new-answers}
use microservice_kit.LruCache.Recent.{AllSpare, Spares, put_call-kept}

abbrev empty_cache : LruCache ℕ ℕ
empty_cache = new 0 0 (pos 2)

-- the read of 1 leaves 2 to be evicted
abbrev session : List (Call ℕ ℕ)
session =
    put_call 1 10
    ∷ put_call 2 20
    ∷ get_call 1
    ∷ put_call 3 30
    ∷ get_call 2
    ∷ keys_call
    ∷ get_or_put_call 1 (λ _. 7)
    ∷ resize_call (negsuc 4)
    ∷ keys_call
    ∷ remove_call 1
    ∷ len_call
    ∷ []

abbrev replies : Option (LruCache ℕ ℕ × List (Reply ℕ ℕ)) → List (Reply ℕ ℕ)
replies none = []
replies (some (_, rs)) = rs

replies-session :
    replies (call_all ℕ_discrete 20 session empty_cache)
    ≡ nothing
      ∷ nothing
      ∷ found (some 10)
      ∷ nothing
      ∷ found none
      ∷ listed (3 ∷ 1 ∷ [])
      ∷ found (some 10)
      ∷ nothing
      ∷ listed (1 ∷ [])
      ∷ flag true
      ∷ count 0
      ∷ []
unfolding call_all call_cache put_value get new make_room at_least_one len add_entry add_to_front
    set_prev write sentinels set_next put ℕ_discrete get_value contains evict get_or_put keys
    keys_from move_to_front remove_entry remove_key remove_last resize set_value remove
replies-session = refl

-- the reads of other keys between the assignment to 3 and its read
abbrev others : List (Call ℕ ℕ)
others = get_call 1 ∷ []

call_all-answers_example :
    (c' : LruCache ℕ ℕ) × (xs' : Cells ℕ ℕ) × (call_all ℕ_discrete 20 session empty_cache
      ≡ some (c', (answers ℕ_discrete session (shown empty_cache [])).1))
    × (shown c' xs' ≡ (answers ℕ_discrete session (shown empty_cache [])).0)
    × IsValid ℕ_discrete c' xs'
call_all-answers_example =
    call_all-answers ℕ_discrete 20 session empty_cache [] (new-IsValid ℕ_discrete 0 0 (pos 2))
      (omega arith)

new-answers_example :
    (c : LruCache ℕ ℕ) × (call_all ℕ_discrete 20 session (new 0 0 (pos 2))
      ≡ some (
        c,
        (answers ℕ_discrete session (record { capacity = at_least_one (pos 2); items = [] })).1,
      ))
    × (len c ≤ c.capacity)
new-answers_example = new-answers ℕ_discrete 0 0 (pos 2) 20 session (omega arith)

others-AllSpare : AllSpare ℕ_discrete 3 others
unfolding AllSpare Spares
others-AllSpare = (tt, tt)

put_call-kept_example :
    (c₁ c₂ : LruCache ℕ ℕ) × (rs : List (Reply ℕ ℕ)) × (call_all ℕ_discrete 10
        (put_call 3 30 ∷ others)
        empty_cache
      ≡ some (c₁, rs))
    × (call_cache ℕ_discrete 10 (get_call 3) c₁ ≡ some (c₂, found (some 30)))
unfolding new at_least_one
put_call-kept_example =
    put_call-kept ℕ_discrete 10 empty_cache [] 3 30 others (new-IsValid ℕ_discrete 0 0 (pos 2))
      others-AllSpare (omega arith) (omega arith)
