-- ===== src/Deque/Capacity.antt =====
-- util/collections/deque, `growIfNeeded` and `shrinkIfNeeded`: they keep the elements and the invariant.
use native.Mathlib.Nat.{pow-suc}
use microservice_kit.Prelude.{
  ℕ, zero, suc, ◌*◌, ◌/◌, ◌^◌, ◌<◌, ◌≡◌, refl, Bool-cases, inl, inr, ◌&&◌, length, arith, ltb, leb,
  ◌==◌,
}
use microservice_kit.Deque.{Deque, resize, grow_if_needed, shrink_if_needed, to_slice, min_capacity}
use microservice_kit.Deque.Ring.{IsValid}
use microservice_kit.Deque.Resize.{length-resize, to_slice-resize, resize-IsValid}

-- half of a larger power of two
half_sized : (n k : ℕ) → n ≡ 8 * 2 ^ k → 8 < n → (j : ℕ) × (n / 2 ≡ 8 * 2 ^ j)
half_sized n zero e h = absurd (omega arith)
half_sized n (suc k) e h = (k, omega (arith, pow-suc 2 k))

module _ {ℓ} {T : Type ℓ} where
  -- Another buffer for the same elements.
  pub record Same (d g : Deque T) : Type ℓ where
    pub valid : IsValid g
    pub count : g.count ≡ d.count
    pub slice : to_slice g ≡ to_slice d

  Same-refl : (d : Deque T) → IsValid d → Same d d
  Same-refl d v = record { valid = v; count = refl; slice = refl }

  Same-resize :
      (d : Deque T) (v : IsValid d) (size k : ℕ)
      → d.count < size
      → size ≡ 8 * 2 ^ k
      → Same d (resize d size)
  unfolding resize
  Same-resize d v size k h e = record {
    valid = resize-IsValid d v size h k e;
    count = refl;
    slice = to_slice-resize d v size h;
  }

  pub grow-Same : (d : Deque T) (v : IsValid d) → Same d (grow_if_needed d)
  unfolding grow_if_needed
  grow-Same d v = elim (Bool-cases (d.count == length d.buf)) [
    | inr e ↦ rw e (Same-refl d v)
    | inl e ↦
        let (k, p) = v.sized in
        rw e (
          Same-resize d v (length d.buf * 2) (suc k) (ground (arith, v.head_in))
            (omega (arith, p, pow-suc 2 k)))
  ]

  pub grow_room : (d : Deque T) (v : IsValid d) → d.count < length (grow_if_needed d).buf
  unfolding grow_if_needed
  grow_room d v = elim (Bool-cases (d.count == length d.buf)) [
    | inr e ↦ rw e (ground (arith, v.fits))
    | inl e ↦ rw e (ground (arith, v.head_in, length-resize d v (length d.buf * 2)))
  ]

  pub shrink-Same : (d : Deque T) (v : IsValid d) → Same d (shrink_if_needed d)
  unfolding shrink_if_needed
  shrink-Same d v =
      elim (Bool-cases (ltb min_capacity (length d.buf) && leb d.count (length d.buf / 4))) [
        | inr e ↦ rw e (Same-refl d v)
        | inl e ↦
            let l : 8 < length d.buf = ground arith in
            let (j, p) = half_sized (length d.buf) v.sized.0 v.sized.1 l in
            rw e (Same-resize d v (length d.buf / 2) j (ground arith) p)
      ]
