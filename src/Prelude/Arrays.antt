-- ===== src/Prelude/Arrays.antt =====
-- Lists as arrays: reads with a default, writes and exchanges, and what they keep.
use Prim.Native.Nat.{ℕ, zero, suc, ◌<◌}
use mathlib.Core.Path.{◌≡◌, refl, ap, ◌∙◌}
use mathlib.Core.Logic.{∥∥₁_elim}
use mathlib.Core.List.Perm
use mathlib.Core.Logic.Or
use mathlib.Core.List.{Mem, mem-cons, not-mem-nil, Perm, Permᴰ, List, [], ◌∷◌, ◌++◌}
use native.Mathlib.Nat.{ℕ_set}
use native.Mathlib.Omega.{arith}
use microservice_kit.Prelude.Tests.{◌==◌, if◌then◌else◌}
use microservice_kit.Prelude.Lists.{length, set, get_or, take, length-set}

module _ {ℓ} {A : Type ℓ} where
  pub get_or-set :
      (xs : List A) (i : ℕ) (v d : A) (k : ℕ)
      → i < length xs
      → get_or (set xs i v) k d ≡ (if k == i then v else get_or xs k d)
  get_or-set [] i v d k h = elim h [ ]
  get_or-set (x ∷ xs) zero v d zero h = refl
  get_or-set (x ∷ xs) zero v d (suc k) h = ground arith
  get_or-set (x ∷ xs) (suc i) v d zero h = ground arith
  get_or-set (x ∷ xs) (suc i) v d (suc k) h = ground (arith, get_or-set xs i v d k)

  -- Exchanges two elements, with the default `d` out of bounds.
  unfoldable pub swap : A → List A → ℕ → ℕ → List A
  swap d xs i j = set (set xs i (get_or xs j d)) j (get_or xs i d)

  pub length-swap : (d : A) (xs : List A) (i j : ℕ) → length (swap d xs i j) ≡ length xs
  unfolding swap
  length-swap d xs i j =
      length-set (set xs i (get_or xs j d)) j (get_or xs i d) ∙ length-set xs i (get_or xs j d)

  pub get_or-swap :
      (d : A) (xs : List A) (i j k : ℕ)
      → i < length xs
      → j < length xs
      → get_or (swap d xs i j) k d
        ≡ (if k == j then get_or xs i d else if k == i then get_or xs j d else get_or xs k d)
  unfolding swap
  get_or-swap d xs i j k h l = ground (
    arith,
    get_or-set (set xs i (get_or xs j d)) j (get_or xs i d) d k,
    get_or-set xs i (get_or xs j d) d k,
    length-set xs i (get_or xs j d),
  )

  -- Taking an element out of a list, and the head in.
  perm-set :
      (xs : List A) (j : ℕ) (x d : A) → j < length xs → Perm (get_or xs j d ∷ set xs j x) (x ∷ xs)
  perm-set [] j x d h = elim h [ ]
  perm-set (y ∷ ys) zero x d h = Perm.swap x y ys
  perm-set (y ∷ ys) (suc j) x d h =
      Perm.trans (Perm.swap y (get_or ys j d) (set ys j x))
        (Perm.trans (Perm.cons y (perm-set ys j x d (omega arith))) (Perm.swap x y ys))

  pub perm-swap :
      (d : A) (xs : List A) (i j : ℕ) → i < length xs → j < length xs → Perm (swap d xs i j) xs
  unfolding swap
  perm-swap d [] i j h l = elim h [ ]
  perm-swap d (x ∷ xs) zero zero h l = Perm.refl (x ∷ xs)
  perm-swap d (x ∷ xs) zero (suc j) h l = perm-set xs j x d (omega arith)
  perm-swap d (x ∷ xs) (suc i) zero h l = perm-set xs i x d (omega arith)
  perm-swap d (x ∷ xs) (suc i) (suc j) h l =
      Perm.cons x (perm-swap d xs i j (omega arith) (omega arith))

  pub get_or-append_left :
      (xs ys : List A) (k : ℕ) (d : A) → k < length xs → get_or (xs ++ ys) k d ≡ get_or xs k d
  get_or-append_left [] ys k d h = elim h [ ]
  get_or-append_left (x ∷ xs) ys zero d h = refl
  get_or-append_left (x ∷ xs) ys (suc k) d h = get_or-append_left xs ys k d (omega arith)

  pub get_or-take :
      (n : ℕ) (xs : List A) (k : ℕ) (d : A) → k < n → get_or (take n xs) k d ≡ get_or xs k d
  get_or-take zero xs k d h = elim h [ ]
  get_or-take (suc n) [] k d h = refl
  get_or-take (suc n) (x ∷ xs) zero d h = refl
  get_or-take (suc n) (x ∷ xs) (suc k) d h = get_or-take n xs k d (omega arith)

  length-permᴰ : {xs ys : List A} → Permᴰ xs ys → length xs ≡ length ys
  length-permᴰ Permᴰ.nil = refl
  length-permᴰ (Permᴰ.cons x p) = ap suc (length-permᴰ p)
  length-permᴰ (Permᴰ.swap x y) = refl
  length-permᴰ (Permᴰ.trans p q) = length-permᴰ p ∙ length-permᴰ q

  pub length-perm : {xs ys : List A} → Perm xs ys → length xs ≡ length ys
  length-perm p = ∥∥₁_elim p (ℕ_set _ _) length-permᴰ

  -- The last element moved to the front.
  pub perm_last :
      (xs : List A) (n : ℕ) (d : A) → length xs ≡ suc n → Perm (get_or xs n d ∷ take n xs) xs
  perm_last [] n d h = absurd (omega arith)
  perm_last (x ∷ []) zero d h = Perm.refl (x ∷ [])
  perm_last (x ∷ y ∷ xs) zero d h = absurd (omega arith)
  perm_last (x ∷ xs) (suc n) d h =
      Perm.trans (Perm.swap x (get_or xs n d) (take n xs))
        (Perm.cons x (perm_last xs n d (omega arith)))

  -- A property of the elements at all indices is one of all members.
  pub all_of_get_or {κ} :
      (P : A → Type κ) (xs : List A) (d : A)
      → ((x : A) → IsProp (P x))
      → ((k : ℕ) → k < length xs → P (get_or xs k d))
      → (x : A) → Mem x xs
      → P x
  all_of_get_or P [] d p h x m = absurd (not-mem-nil m)
  all_of_get_or P (y ∷ xs) d p h x m =
      Or.elim (p x) (mem-cons.0 m) (λ e. rw e (h 0 (omega arith)))
        (all_of_get_or P xs d p (λ k l. h (suc k) (omega arith)) x)

  pub nil_of_length : (xs : List A) → length xs ≡ 0 → xs ≡ []
  nil_of_length [] h = refl
  nil_of_length (x ∷ xs) h = absurd (omega arith)
