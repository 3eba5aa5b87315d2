-- ===== src/Slices/Keys.antt =====
-- util/collections/slices: `UniqueBy`, `GroupBy` and `KeyBy`, by what they give for each key.
use mathlib.Core.List.{append_assoc, append-nil}
use microservice_kit.Prelude.{
  ◌≡◌, refl, sym, ◌∙◌, true, false, Bool-cases, inl, inr, Option, none, some, List, [], ◌∷◌, ◌++◌,
  arith, if◌then◌else◌, ap, get, put, get-put_self, get-put_ne,
}
use microservice_kit.Slices.{
  is_seen, unique_into, unique_by, group_at, group_into, group_by, key_into, key_by,
}

module _ {ℓ} {T : Type ℓ} where
  -- the first element of a list, as a list
  unfoldable pub head_of : List T → List T
  head_of [] = []
  head_of (x ∷ xs) = x ∷ []

  -- the last element of a list
  unfoldable pub last_of : Option T → List T → Option T
  last_of o [] = o
  last_of o (x ∷ xs) = last_of (some x) xs

module _ {ℓ κ} {T : Type ℓ} {K : Type κ} (eq : Discrete K) (key_fn : T → K) where
  -- the elements of a key, in their order
  unfoldable pub of_key : List T → K → List T
  of_key [] k = []
  of_key (x ∷ xs) k = elim (eq (key_fn x) k) [ yes _ ↦ x ∷ of_key xs k | no _ ↦ of_key xs k ]

  group_at-put :
      (r : List (K × List T)) (x : T) (xs : List T) (k : K)
      → group_at eq (put eq r (key_fn x) (group_at eq r (key_fn x) ++ x ∷ [])) k ++ of_key xs k
        ≡ group_at eq r k ++ of_key (x ∷ xs) k
  unfolding of_key group_at
  group_at-put r x xs k = ground (
    arith,
    get-put_self eq r (key_fn x) (group_at eq r (key_fn x) ++ x ∷ []),
    get-put_ne eq r (key_fn x) k (group_at eq r (key_fn x) ++ x ∷ []),
    append_assoc (group_at eq r k) (x ∷ []) (of_key xs k),
  )

  group_into-of_key :
      (r : List (K × List T)) (xs : List T) (k : K)
      → group_at eq (group_into eq r xs key_fn) k ≡ group_at eq r k ++ of_key xs k
  unfolding group_into of_key
  group_into-of_key r [] k = sym (append-nil (group_at eq r k))
  group_into-of_key r (x ∷ xs) k =
      group_into-of_key (put eq r (key_fn x) (group_at eq r (key_fn x) ++ x ∷ [])) xs k
      ∙ group_at-put r x xs k

  -- The group of a key holds the elements with that key, in the order of the slice; a key of no
  -- element reads as an empty group.
  pub group_by-of_key :
      (slice : List T) (k : K) → group_at eq (group_by eq slice key_fn) k ≡ of_key slice k
  unfolding group_by group_at of_key get
  group_by-of_key slice k = group_into-of_key [] slice k

  -- an element of none of the keys seen, and of no key of an earlier element
  unfoldable pub firsts : List K → List T → List T
  firsts seen [] = []
  firsts seen (x ∷ xs) =
      if is_seen eq seen (key_fn x) then firsts seen xs else x ∷ firsts (key_fn x ∷ seen) xs

  unique_into-firsts :
      (seen : List K) (r xs : List T) → unique_into eq seen r xs key_fn ≡ r ++ firsts seen xs
  unfolding unique_into firsts
  unique_into-firsts seen r [] = sym (append-nil r)
  unique_into-firsts seen r (x ∷ xs) = elim (Bool-cases (is_seen eq seen (key_fn x))) [
    | inl e ↦ rw e (unique_into-firsts seen r xs)
    | inr e ↦ rw e (
        unique_into-firsts (key_fn x ∷ seen) (r ++ x ∷ []) xs
        ∙ append_assoc r (x ∷ []) (firsts (key_fn x ∷ seen) xs))
  ]

  of_key-firsts_seen :
      (seen : List K) (xs : List T) (k : K)
      → is_seen eq seen k ≡ true
      → of_key (firsts seen xs) k ≡ []
  unfolding of_key firsts is_seen
  of_key-firsts_seen seen [] k h = refl
  of_key-firsts_seen seen (x ∷ xs) k h =
      ground (arith, of_key-firsts_seen seen xs k h, of_key-firsts_seen (key_fn x ∷ seen) xs k)

  of_key-firsts :
      (seen : List K) (xs : List T) (k : K)
      → is_seen eq seen k ≡ false
      → of_key (firsts seen xs) k ≡ head_of (of_key xs k)
  unfolding of_key firsts is_seen head_of
  of_key-firsts seen [] k h = refl
  of_key-firsts seen (x ∷ xs) k h = ground (
    arith,
    of_key-firsts seen xs k h,
    of_key-firsts (key_fn x ∷ seen) xs k,
    of_key-firsts_seen (key_fn x ∷ seen) xs k,
  )

  -- Of the elements with any one key, `UniqueBy` keeps the first and no other.
  pub unique_by-of_key :
      (slice : List T) (k : K) → of_key (unique_by eq slice key_fn) k ≡ head_of (of_key slice k)
  unfolding unique_by
  unique_by-of_key slice k =
      ap (λ xs. of_key xs k) (unique_into-firsts [] [] slice) ∙ of_key-firsts [] slice k refl

  key_into-last :
      (r : List (K × T)) (xs : List T) (k : K)
      → get eq (key_into eq r xs key_fn) k ≡ last_of (get eq r k) (of_key xs k)
  unfolding key_into last_of of_key
  key_into-last r [] k = refl
  key_into-last r (x ∷ xs) k =
      key_into-last (put eq r (key_fn x) x) xs k
      ∙ ground (arith, get-put_self eq r (key_fn x) x, get-put_ne eq r (key_fn x) k x)

  -- In the map of `KeyBy` a key has the last element with that key, and nothing if there is none.
  pub key_by-last :
      (slice : List T) (k : K) → get eq (key_by eq slice key_fn) k ≡ last_of none (of_key slice k)
  unfolding key_by get
  key_by-last slice k = key_into-last [] slice k
