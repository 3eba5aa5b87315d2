-- ===== src/Deque/Turns.antt =====
-- util/collections/deque, `Rotate`: it turns the list of the elements.
use native.Mathlib.Nat.{mod-lt}
use mathlib.Core.List.{append_assoc, append-nil}
use microservice_kit.Prelude.{
  ℕ, zero, suc, ◌-◌, ◌%◌, ◌≤◌, ◌<◌, ◌≡◌, refl, sym, ◌∙◌, true, false, Bool-cases, inl, inr, Option,
  none, some, List, [], ◌∷◌, ◌++◌, length, take, drop, drop-append, take-append, length-tabulate,
  arith, leb, ◌==◌, if◌then◌else◌, ap, length-append, subst,
}
use microservice_kit.Prelude.Int.{ℤ, pos, negsuc, pos_part, ◌+ℤ◌, rem_ℤ, ltb_ℤ, eqb_ℤ}
use microservice_kit.Deque.{Deque, item, pop_front, push_back, rotate_by, rotate, to_slice}
use microservice_kit.Deque.Ring.{IsValid}
use microservice_kit.Deque.Ends.{push_last, pop_first, step, list_step, step-Refines}

-- An integer as a number of turns to the left of a list with c elements.
unfoldable pub turns : ℤ → ℕ → ℕ
turns (pos n) c = n % c
turns (negsuc n) c = if suc n % c == 0 then 0 else c - suc n % c

-- the number of turns that the code finds
abbrev shift : ℤ → ℕ → ℕ
shift z c = let r = rem_ℤ z (pos c) in pos_part (if ltb_ℤ r (pos 0) then r +ℤ pos c else r)

turns_zero : (z : ℤ) (c : ℕ) → eqb_ℤ (rem_ℤ z (pos c)) (pos 0) ≡ true → turns z c ≡ 0
unfolding turns
turns_zero (pos n) c h = ground arith
turns_zero (negsuc n) c h = ground arith

turns-shift :
    (z : ℤ) (c : ℕ)
    → 0 < c
    → eqb_ℤ (rem_ℤ z (pos c)) (pos 0) ≡ false
    → (shift z c ≡ turns z c) × (turns z c < c)
unfolding turns ◌+ℤ◌
turns-shift (pos n) c h k = let l = mod-lt n h in (ground arith, ground arith)
turns-shift (negsuc n) c h k = let l = mod-lt (suc n) h in (ground arith, ground arith)

module _ {ℓ} {T : Type ℓ} where
  -- The first n elements moved behind the others.
  abbrev pub turn_left : ℕ → List T → List T
  turn_left n xs = drop n xs ++ take n xs

  turn_left_short : (n : ℕ) (xs : List T) → length xs ≤ 1 → turn_left n xs ≡ xs
  turn_left_short zero xs h = append-nil xs
  turn_left_short (suc n) [] h = refl
  turn_left_short (suc zero) (x ∷ []) h = refl
  turn_left_short (suc (suc n)) (x ∷ []) h = refl
  turn_left_short (suc n) (x ∷ y ∷ xs) h = absurd (omega arith)

  turn_left-suc :
      (n : ℕ) (x : T) (xs : List T)
      → n ≤ length xs
      → turn_left n (xs ++ x ∷ []) ≡ turn_left (suc n) (x ∷ xs)
  turn_left-suc n x xs h =
      rw (drop-append n xs (x ∷ []) h, take-append n xs (x ∷ []) h)
        (append_assoc (drop n xs) (x ∷ []) (take n xs))

  count_slice : (d : Deque T) → length (to_slice d) ≡ d.count
  unfolding to_slice
  count_slice d = length-tabulate 0 d.count (item d)

  rotate_by-suc :
      (n : ℕ) (d d₁ : Deque T) (y : T)
      → pop_front d ≡ (d₁, some y)
      → rotate_by (suc n) d ≡ rotate_by n (push_back d₁ y)
  unfolding rotate_by
  rotate_by-suc n d d₁ y e =
      ap
        (λ (p : Deque T × Option T).
          rotate_by n (push_back p.0 (elim p.1 [ none ↦ p.0.zero_value | some v ↦ v ])))
        e

  popped :
      (d : Deque T) (y : T) (ys : List T)
      → IsValid d
      → to_slice d ≡ y ∷ ys
      → (d₁ : Deque T) × (pop_front d ≡ (d₁, some y)) × IsValid d₁ × (to_slice d₁ ≡ ys)
  unfolding step list_step
  popped d y ys v h =
      let (w, e) = step-Refines pop_first d v in
      let f = e ∙ ap (list_step pop_first) h in
      (
        (pop_front d).0,
        ap (λ (p : List T × Option T). ((pop_front d).0, p.1)) f,
        w,
        ap (λ (p : List T × Option T). p.0) f,
      )

  rotate_by_slice :
      (n : ℕ) (d : Deque T) (xs : List T)
      → IsValid d
      → to_slice d ≡ xs
      → n ≤ length xs
      → IsValid (rotate_by n d) × (to_slice (rotate_by n d) ≡ turn_left n xs)
  unfolding rotate_by step list_step
  rotate_by_slice zero d xs v e h = (v, e ∙ sym (append-nil xs))
  rotate_by_slice (suc n) d [] v e h = absurd (omega arith)
  rotate_by_slice (suc n) d (y ∷ ys) v e h =
      let (d₁, p, w, q) = popped d y ys v e in
      let (u, r) = step-Refines (push_last y) d₁ w in
      let f : to_slice (push_back d₁ y) ≡ ys ++ y ∷ [] =
        ap (λ (o : List T × Option T). o.0) r ∙ ap (λ l. l ++ y ∷ []) q in
      let k : n ≤ length ys = omega arith in
      let l : n ≤ length (ys ++ y ∷ []) = omega (arith, length-append ys (y ∷ [])) in
      let (a, b) = rotate_by_slice n (push_back d₁ y) (ys ++ y ∷ []) u f l in
      subst (λ (D : Deque T). IsValid D × (to_slice D ≡ turn_left (suc n) (y ∷ ys)))
        (sym (rotate_by-suc n d d₁ y p)) (a, b ∙ turn_left-suc n y ys k)

  -- On a valid queue `Rotate` turns the list of the elements to the left, for a negative number to
  -- the right, by that number modulo the count, and the queue stays valid.
  pub rotate-turns :
      (d : Deque T) (z : ℤ)
      → IsValid d
      → IsValid (rotate d z) × (to_slice (rotate d z) ≡ turn_left (turns z d.count) (to_slice d))
  unfolding rotate
  rotate-turns d z v = elim (Bool-cases (leb d.count 1)) [
    | inl e ↦
        rw e
          (v, sym (turn_left_short (turns z d.count) (to_slice d) (ground (arith, count_slice d))))
    | inr e ↦ elim (Bool-cases (eqb_ℤ (rem_ℤ z (pos d.count)) (pos 0))) [
      | inl f ↦
          rw (e, f)
            (
              v,
              sym (
                  ap (λ k. turn_left k (to_slice d)) (turns_zero z d.count f)
                  ∙ append-nil (to_slice d)),
            )
      | inr f ↦
          let (p, q) = turns-shift z d.count (ground arith) f in
          rw (e, f, p)
            (rotate_by_slice (turns z d.count) d (to_slice d) v refl
              (omega (arith, count_slice d, q)))
    ]
  ]
