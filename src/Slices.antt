-- ===== src/Slices.antt =====
-- util/collections/slices/slices.go: functions on slices. A Go slice is a list, a map is a list of
-- pairs (Prelude/Maps), and a result with `ok` is an Option. A loop that appends to its result has the
-- result so far as an argument. That the capacity of a new slice is a number is taken for granted.
mod Split
mod Search
mod Keys
mod Tests
use microservice_kit.Prelude.{
  ℕ, zero, suc, ◌+◌, ◌-◌, Bool, true, false, not, Option, none, some, List, [], ◌∷◌, ◌++◌, length,
  get_elem?, take, drop, ltb, leb, ◌==◌, if◌then◌else◌, get, put,
}
use microservice_kit.Prelude.Int.{ℤ, pos, negsuc}

module _ {ℓ} {T : Type ℓ} where
  pub filter_into : List T → List T → (T → Bool) → List T
  filter_into result [] fn = result
  filter_into result (item ∷ slice) fn =
      filter_into (if fn item then result ++ item ∷ [] else result) slice fn

  pub filter : List T → (T → Bool) → List T
  unfolding filter_into
  filter slice fn = filter_into [] slice fn

  pub map_items {κ} : {R : Type κ} → List T → (T → R) → List R
  map_items [] fn = []
  map_items (item ∷ slice) fn = fn item ∷ map_items slice fn

  pub reduce {κ} : {R : Type κ} → List T → R → (R → T → R) → R
  reduce [] result fn = result
  reduce (item ∷ slice) result fn = reduce slice (fn result item) fn

  -- the loop of `Chunk`, for a positive size; every round adds to i, so the length is fuel enough
  pub chunk_from : ℕ → ℕ → List T → ℕ → List (List T)
  chunk_from zero i slice size = []
  chunk_from (suc fuel) i slice size =
      let end = if ltb (length slice) (i + size) then length slice else i + size in
      let rest = chunk_from fuel (i + size) slice size in
      if ltb i (length slice) then take (end - i) (drop i slice) ∷ rest else []

  pub chunk : List T → ℤ → List (List T)
  unfolding chunk_from
  chunk slice (negsuc _) = []
  chunk slice (pos zero) = []
  chunk slice (pos (suc size)) = chunk_from (length slice) 0 slice (suc size)

  pub partition_into : List T → List T → List T → (T → Bool) → List T × List T
  partition_into matched unmatched [] fn = (matched, unmatched)
  partition_into matched unmatched (item ∷ slice) fn =
      if fn item
      then partition_into (matched ++ item ∷ []) unmatched slice fn
      else partition_into matched (unmatched ++ item ∷ []) slice fn

  pub partition : List T → (T → Bool) → List T × List T
  unfolding partition_into
  partition slice fn = partition_into [] [] slice fn

  pub find : List T → (T → Bool) → Option T
  find [] fn = none
  find (item ∷ slice) fn = if fn item then some item else find slice fn

  pub find_index_from : ℕ → List T → (T → Bool) → ℤ
  find_index_from i [] fn = negsuc 0
  find_index_from i (item ∷ slice) fn = if fn item then pos i else find_index_from (i + 1) slice fn

  pub find_index : List T → (T → Bool) → ℤ
  unfolding find_index_from
  find_index slice fn = find_index_from 0 slice fn

  pub any : List T → (T → Bool) → Bool
  any [] fn = false
  any (item ∷ slice) fn = if fn item then true else any slice fn

  pub all : List T → (T → Bool) → Bool
  all [] fn = true
  all (item ∷ slice) fn = if not (fn item) then false else all slice fn

  -- `None`
  pub none_of : List T → (T → Bool) → Bool
  unfolding any
  none_of slice fn = not (any slice fn)

  pub count_from : ℕ → List T → (T → Bool) → ℕ
  count_from count [] fn = count
  count_from count (item ∷ slice) fn = count_from (if fn item then count + 1 else count) slice fn

  pub count : List T → (T → Bool) → ℕ
  unfolding count_from
  count slice fn = count_from 0 slice fn

  pub flatten_into : List T → List (List T) → List T
  flatten_into result [] = result
  flatten_into result (s ∷ slices) = flatten_into (result ++ s) slices

  pub flatten : List (List T) → List T
  unfolding flatten_into
  flatten slices = flatten_into [] slices

  -- `First`
  pub first : List T → Option T
  first slice = if length slice == 0 then none else get_elem? slice 0

  -- `Last`
  pub last : List T → Option T
  last slice = if length slice == 0 then none else get_elem? slice (length slice - 1)

  -- `Take`
  pub take_first : List T → ℤ → List T
  take_first slice (negsuc _) = []
  take_first slice (pos n) =
      let m = if ltb (length slice) n then length slice else n in
      if leb n 0 then [] else take m slice

  -- `Skip`
  pub skip : List T → ℤ → List T
  skip slice (negsuc _) = slice
  skip slice (pos n) = if leb n 0 then slice else if leb (length slice) n then [] else drop n slice

  pub take_while : List T → (T → Bool) → List T
  take_while [] fn = []
  take_while (item ∷ slice) fn = if not (fn item) then [] else item ∷ take_while slice fn

  pub skip_while : List T → (T → Bool) → List T
  skip_while [] fn = []
  skip_while (item ∷ slice) fn = if not (fn item) then item ∷ slice else skip_while slice fn

-- `Zip`
pub zip {ℓ κ} : {K : Type ℓ} {V : Type κ} → List K → List V → List (K × V)
zip [] values = []
zip (key ∷ keys) [] = []
zip (key ∷ keys) (value ∷ values) = (key, value) ∷ zip keys values

-- whether a key is in `seen`, a map with empty values
pub is_seen {κ} : {K : Type κ} → Discrete K → List K → K → Bool
is_seen eq [] key = false
is_seen eq (k ∷ seen) key = elim (eq k key) [ yes _ ↦ true | no _ ↦ is_seen eq seen key ]

-- The functions that compare their elements or keys.
module _ {ℓ κ} {T : Type ℓ} {K : Type κ} (eq : Discrete K) where
  pub unique_into : List K → List T → List T → (T → K) → List T
  unfolding is_seen
  unique_into seen result [] key_fn = result
  unique_into seen result (item ∷ slice) key_fn =
      let key = key_fn item in
      if not (is_seen eq seen key)
      then unique_into (key ∷ seen) (result ++ item ∷ []) slice key_fn
      else unique_into seen result slice key_fn

  pub unique_by : List T → (T → K) → List T
  unfolding unique_into
  unique_by slice key_fn = unique_into [] [] slice key_fn

  -- a missing key reads as the nil slice
  pub group_at : List (K × List T) → K → List T
  group_at groups key = elim (get eq groups key) [ none ↦ [] | some group ↦ group ]

  pub group_into : List (K × List T) → List T → (T → K) → List (K × List T)
  group_into result [] key_fn = result
  group_into result (item ∷ slice) key_fn =
      let key = key_fn item in
      group_into (put eq result key (group_at result key ++ item ∷ [])) slice key_fn

  pub group_by : List T → (T → K) → List (K × List T)
  unfolding group_into
  group_by slice key_fn = group_into [] slice key_fn

  pub key_into : List (K × T) → List T → (T → K) → List (K × T)
  key_into result [] key_fn = result
  key_into result (item ∷ slice) key_fn = key_into (put eq result (key_fn item) item) slice key_fn

  pub key_by : List T → (T → K) → List (K × T)
  unfolding key_into
  key_by slice key_fn = key_into [] slice key_fn

  pub to_map_into : List (K × T) → List (K × T) → List (K × T)
  to_map_into result [] = result
  to_map_into result ((k, v) ∷ pairs) = to_map_into (put eq result k v) pairs

  pub to_map : List (K × T) → List (K × T)
  unfolding to_map_into
  to_map pairs = to_map_into [] pairs

module _ {ℓ} {T : Type ℓ} (eq : Discrete T) where
  pub unique : List T → List T
  unfolding unique_by
  unique slice = unique_by eq slice (λ item. item)

  pub compact_into : T → List T → List T → List T
  compact_into z result [] = result
  compact_into z result (item ∷ slice) = elim (eq item z) [
    | yes _ ↦ compact_into z result slice
    | no _ ↦ compact_into z (result ++ item ∷ []) slice
  ]

  -- `Compact`; z is the zero value of the type
  pub compact : T → List T → List T
  unfolding compact_into
  compact z slice = compact_into z [] slice
