-- ===== src/Cache/Counters.antt =====
-- storage/cache: `IncrementBy`, and the times to live that it does not keep.
use microservice_kit.Prelude.{ℕ, ◌+◌, ◌<◌, ◌^◌, ◌≡◌, ◌∙◌, true, some, arith, ap}
use microservice_kit.Prelude.Int.{ℤ, pos, negsuc, ◌+ℤ◌, wrap64, wrap64_small}
use microservice_kit.Cache.{
  Go, IsLawful, Item, MemoryCache, ok, is_expired, lookup, live, store, current, increment_by,
  ttl_of,
}
use microservice_kit.Cache.Values.{lookup-store}

add-pos : (a b : ℕ) → pos a +ℤ pos b ≡ pos (a + b)
unfolding ◌+ℤ◌
add-pos a b = ground arith

module _ {Text Any : Type 0} (go : Go Text Any) where
  -- the item that `IncrementBy` leaves
  abbrev pub counter : ℤ → Item Text
  counter n = record { value = go.print_int n; expire_at = 0; no_expire = true }

  pub increment_by-counter :
      (m m' : MemoryCache Text) (now : ℕ) (key : Text) (value n : ℤ)
      → increment_by go now m key value ≡ (m', ok n)
      → m' ≡ store go m key (counter n)
  unfolding increment_by
  increment_by-counter m m' now key value n h = ground arith

  -- After an `IncrementBy` with success the key never expires, whatever time to live it had.
  pub increment_by-forgets_ttl :
      (m m' : MemoryCache Text) (now later : ℕ) (key : Text) (value n : ℤ)
      → increment_by go now m key value ≡ (m', ok n)
      → (ttl_of go later m' key ≡ negsuc 0) × (live go later m' key ≡ some (counter n))
  unfolding ttl_of live is_expired
  increment_by-forgets_ttl m m' now later key value n h =
      let e : lookup go m' key ≡ some (counter n) =
        ap (λ x. lookup go x key) (increment_by-counter m m' now key value n h)
        ∙ lookup-store go m key (counter n) in
      (ground arith, ground arith)

  current-counter :
      (law : IsLawful go) (m : MemoryCache Text) (now : ℕ) (key : Text) (c : ℤ)
      → lookup go m key ≡ some (counter c)
      → current go now m key ≡ some c
  unfolding current live is_expired
  current-counter law m now key c h = ground (arith, law.scan_int-print_int c)

  -- counting on from a number
  pub increment_by-counts :
      (law : IsLawful go) (m : MemoryCache Text) (now : ℕ) (key : Text) (c n : ℕ)
      → lookup go m key ≡ some (counter (pos c))
      → c + n < 2 ^ 63
      → increment_by go now m key (pos n)
        ≡ (store go m key (counter (pos (c + n))), ok (pos (c + n)))
  unfolding increment_by
  increment_by-counts law m now key c n h k =
      let e = current-counter law m now key (pos c) h in
      let f : wrap64 (pos c +ℤ pos n) ≡ pos (c + n) =
        ap wrap64 (add-pos c n) ∙ wrap64_small (c + n) k in
      ground arith
