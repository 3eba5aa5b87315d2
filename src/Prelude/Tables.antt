-- ===== src/Prelude/Tables.antt =====
-- The list of a function's values at consecutive numbers, and lists cut at an index.
use Prim.Native.Nat.{ℕ, zero, suc, ◌+◌, ◌≤◌, ◌<◌}
use mathlib.Core.Path.{◌≡◌, refl, ap, ap₂, ◌∙◌}
use mathlib.Core.List.{List, [], ◌∷◌, ◌++◌}
use mathlib.Core.Option.{none, some}
use native.Mathlib.Omega.{arith}
use microservice_kit.Prelude.Lists.{length, get_elem?, get_or, take, drop}

module _ {ℓ} {A : Type ℓ} where
  -- f i, f (i + 1), ... of a length
  abbrev pub tabulate : ℕ → ℕ → (ℕ → A) → List A
  tabulate i zero f = []
  tabulate i (suc n) f = f i ∷ tabulate (i + 1) n f

  pub tabulate_ext :
      (i n : ℕ) (f g : ℕ → A)
      → ((k : ℕ) → i ≤ k → k < i + n → f k ≡ g k)
      → tabulate i n f ≡ tabulate i n g
  tabulate_ext i zero f g h = refl
  tabulate_ext i (suc n) f g h =
      ap₂ (◌∷◌) (h i (omega arith) (omega arith))
        (tabulate_ext (i + 1) n f g (λ k a b. h k (omega arith) (omega arith)))

  pub tabulate_shift : (i n : ℕ) (f : ℕ → A) → tabulate (i + 1) n f ≡ tabulate i n (λ k. f (k + 1))
  tabulate_shift i zero f = refl
  tabulate_shift i (suc n) f = ap (◌∷◌ (f (i + 1))) (tabulate_shift (i + 1) n f)

  pub tabulate_snoc :
      (i n : ℕ) (f : ℕ → A) → tabulate i (suc n) f ≡ tabulate i n f ++ f (i + n) ∷ []
  tabulate_snoc i zero f = let e : i + 0 ≡ i = omega arith in rw e refl
  tabulate_snoc i (suc n) f =
      let e : i + 1 + n ≡ i + suc n = omega arith in
      ap (◌∷◌ (f i)) (tabulate_snoc (i + 1) n f ∙ rw e refl)

  pub get_elem?-tabulate :
      (i n : ℕ) (f : ℕ → A) (k : ℕ) → k < n → get_elem? (tabulate i n f) k ≡ some (f (i + k))
  get_elem?-tabulate i zero f k h = elim h [ ]
  get_elem?-tabulate i (suc n) f zero h = let e : i + 0 ≡ i = omega arith in rw e refl
  get_elem?-tabulate i (suc n) f (suc k) h =
      let e : i + 1 + k ≡ i + suc k = omega arith in
      rw (← e) (get_elem?-tabulate (i + 1) n f k (omega arith))

  pub length-tabulate : (i n : ℕ) (f : ℕ → A) → length (tabulate i n f) ≡ n
  length-tabulate i zero f = refl
  length-tabulate i (suc n) f = ap suc (length-tabulate (i + 1) n f)

  pub get_or-drop :
      (n : ℕ) (xs : List A) (k : ℕ) (d : A) → get_or (drop n xs) k d ≡ get_or xs (n + k) d
  get_or-drop zero xs k d = let e : 0 + k ≡ k = omega arith in rw e refl
  get_or-drop (suc n) [] k d = refl
  get_or-drop (suc n) (x ∷ xs) k d =
      let e : suc n + k ≡ suc (n + k) = omega arith in rw e (get_or-drop n xs k d)

  pub get_elem?-none : (xs : List A) (i : ℕ) → length xs ≤ i → get_elem? xs i ≡ none
  get_elem?-none [] i h = refl
  get_elem?-none (x ∷ xs) zero h = absurd (omega arith)
  get_elem?-none (x ∷ xs) (suc i) h = get_elem?-none xs i (omega arith)

  pub drop-append : (n : ℕ) (xs ys : List A) → n ≤ length xs → drop n (xs ++ ys) ≡ drop n xs ++ ys
  drop-append zero xs ys h = refl
  drop-append (suc n) [] ys h = absurd (omega arith)
  drop-append (suc n) (x ∷ xs) ys h = drop-append n xs ys (omega arith)

  pub take-append : (n : ℕ) (xs ys : List A) → n ≤ length xs → take n (xs ++ ys) ≡ take n xs
  take-append zero xs ys h = refl
  take-append (suc n) [] ys h = absurd (omega arith)
  take-append (suc n) (x ∷ xs) ys h = ap (◌∷◌ x) (take-append n xs ys (omega arith))
