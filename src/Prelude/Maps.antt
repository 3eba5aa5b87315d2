-- ===== src/Prelude/Maps.antt =====
-- Go's maps as association lists: a key has at most one value, which the first pair of the key holds.
use native.Mathlib.Omega.{arith}
use mathlib.Core.Path.{◌≡◌, refl}
use mathlib.Core.Logic.{◌≢◌}
use mathlib.Core.Option.{Option, none, some}
use mathlib.Core.List.{List, [], ◌∷◌}

module _ {ℓ κ} {K : Type ℓ} {V : Type κ} (eq : Discrete K) where
  unfoldable pub get : List (K × V) → K → Option V
  get [] k = none
  get ((k', v) ∷ m) k = elim (eq k' k) [ yes _ ↦ some v | no _ ↦ get m k ]

  -- the assignment `m[k] = v`
  unfoldable pub put : List (K × V) → K → V → List (K × V)
  put [] k v = (k, v) ∷ []
  put ((k', w) ∷ m) k v = elim (eq k' k) [ yes _ ↦ (k', v) ∷ m | no _ ↦ (k', w) ∷ put m k v ]

  -- `delete(m, k)`
  unfoldable pub remove : List (K × V) → K → List (K × V)
  remove [] k = []
  remove ((k', v) ∷ m) k = elim (eq k' k) [ yes _ ↦ remove m k | no _ ↦ (k', v) ∷ remove m k ]

  pub get-put_self : (m : List (K × V)) (k : K) (v : V) → get (put m k v) k ≡ some v
  unfolding get put
  get-put_self [] k v = ground arith
  get-put_self ((k', w) ∷ m) k v = ground (arith, get-put_self m k v)

  pub get-put_ne : (m : List (K × V)) (k j : K) (v : V) → k ≢ j → get (put m k v) j ≡ get m j
  unfolding get put
  get-put_ne [] k j v h = ground arith
  get-put_ne ((k', w) ∷ m) k j v h = ground (arith, get-put_ne m k j v h)

  pub get-remove_self : (m : List (K × V)) (k : K) → get (remove m k) k ≡ none
  unfolding get remove
  get-remove_self [] k = refl
  get-remove_self ((k', v) ∷ m) k = ground (arith, get-remove_self m k)

  pub get-remove_ne : (m : List (K × V)) (k j : K) → k ≢ j → get (remove m k) j ≡ get m j
  unfolding get remove
  get-remove_ne [] k j h = refl
  get-remove_ne ((k', v) ∷ m) k j h = ground (arith, get-remove_ne m k j h)
