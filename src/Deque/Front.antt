-- ===== src/Deque/Front.antt =====
-- util/collections/deque: `PushFront` and `PopFront` on a buffer with room, element by element.
use microservice_kit.Prelude.{
  ℕ, suc, ◌+◌, ◌-◌, ◌%◌, ◌<◌, ◌≡◌, refl, sym, ◌∙◌, false, ◌∷◌, length, get_or, set, length-set,
  tabulate, tabulate_ext, tabulate_shift, arith, ◌==◌, if◌then◌else◌, ap, ap₂,
}
use microservice_kit.Deque.{Deque, index, item, next, prev, to_slice}
use microservice_kit.Deque.Ring.{IsValid, mod_cases}
use microservice_kit.Deque.Steps.{next_step, prev_step, prev_in, item_of_set}

module _ {ℓ} {T : Type ℓ} (d : Deque T) (v : IsValid d) (room : d.count < length d.buf)
    (x : T) where
  -- the queue with the place of the new element, before the write
  abbrev shifted : Deque T
  shifted = record d { head = prev d d.head; count = d.count + 1 }

  shifted-IsValid : IsValid shifted
  shifted-IsValid = record {
    sized = v.sized;
    head_in = prev_in d v;
    tail_at = v.tail_at ∙ sym (prev_step d v d.count room);
    fits = omega arith;
  }

  first_place : prev d d.head ≡ index shifted 0
  first_place = ground (arith, prev_in d v, mod_cases (prev d d.head + 0) (length d.buf))

  -- `PushFront` behind `growIfNeeded`
  abbrev pub pushed_front : Deque T
  pushed_front = record d {
    buf = set d.buf (prev d d.head) x;
    head = prev d d.head;
    count = d.count + 1;
  }

  pub pushed_front-IsValid : IsValid pushed_front
  pushed_front-IsValid =
      let e = length-set d.buf (prev d d.head) x in
      record {
        sized = (v.sized.0, e ∙ v.sized.1);
        head_in = omega (arith, e, prev_in d v);
        tail_at = shifted-IsValid.tail_at ∙ ap (λ m. (prev d d.head + (d.count + 1)) % m) (sym e);
        fits = omega (arith, e);
      }

  item-pushed_front :
      (k : ℕ) → k < d.count + 1 → item pushed_front k ≡ (if 0 == k then x else item shifted k)
  item-pushed_front k h =
      ap (λ t. get_or (set d.buf t x) ((prev d d.head + k) % length (set d.buf t x)) d.zero_value)
        first_place
      ∙ item_of_set shifted shifted-IsValid 0 k k (prev d d.head) x (omega (arith, v.head_in))
          (omega arith) refl

  item-pushed_front_suc : (k : ℕ) → k < d.count → item pushed_front (k + 1) ≡ item d k
  item-pushed_front_suc k h =
      item-pushed_front (k + 1) (omega arith)
      ∙ (let f : (0 == k + 1) ≡ false = ground arith in
          rw f (ap (λ m. get_or d.buf m d.zero_value) (prev_step d v k (omega arith))))

  pub to_slice-pushed_front : to_slice pushed_front ≡ x ∷ to_slice d
  unfolding to_slice
  to_slice-pushed_front =
      let e : d.count + 1 ≡ suc d.count = omega arith in
      ap (λ c. tabulate 0 c (item pushed_front)) e
      ∙ ap₂ (◌∷◌) (item-pushed_front 0 (omega arith)) (
          tabulate_shift 0 d.count (item pushed_front)
          ∙ tabulate_ext 0 d.count (λ k. item pushed_front (k + 1)) (item d)
              (λ k _ h. item-pushed_front_suc k (omega arith)))

module _ {ℓ} {T : Type ℓ} (d : Deque T) (v : IsValid d) (some_left : 0 < d.count) where
  -- `PopFront` before `shrinkIfNeeded`
  abbrev pub popped_front : Deque T
  popped_front = record d {
    buf = set d.buf d.head d.zero_value;
    head = next d d.head;
    count = d.count - 1;
  }

  head_place : d.head ≡ index d 0
  head_place = ground (arith, v.head_in, mod_cases (d.head + 0) (length d.buf))

  next_in : next d d.head < length d.buf
  next_in = ground (arith, v.head_in, mod_cases (d.head + 1) (length d.buf))

  pub popped_front-IsValid : IsValid popped_front
  popped_front-IsValid =
      let e = length-set d.buf d.head d.zero_value in
      let f : d.count - 1 + 1 ≡ d.count = omega arith in
      record {
        sized = (v.sized.0, e ∙ v.sized.1);
        head_in = omega (arith, e, next_in);
        tail_at =
            v.tail_at
            ∙ ap (index d) (sym f)
            ∙ sym (next_step d v (d.count - 1) (omega (arith, v.fits)))
            ∙ ap (λ m. (next d d.head + (d.count - 1)) % m) (sym e);
        fits = omega (arith, e, v.fits);
      }

  item-popped_front : (k : ℕ) → k < d.count - 1 → item popped_front k ≡ item d (k + 1)
  item-popped_front k h =
      ap
        (λ t.
          get_or (set d.buf t d.zero_value)
            ((next d d.head + k) % length (set d.buf t d.zero_value)) d.zero_value)
        head_place
      ∙ item_of_set d v 0 (k + 1) k (next d d.head) d.zero_value (omega (arith, v.head_in))
          (omega (arith, v.fits)) (next_step d v k (omega (arith, v.fits)))
      ∙ (let f : (0 == k + 1) ≡ false = ground arith in rw f refl)

  pub to_slice-popped_front : to_slice d ≡ get_or d.buf d.head d.zero_value ∷ to_slice popped_front
  unfolding to_slice
  to_slice-popped_front =
      let e : d.count ≡ suc (d.count - 1) = omega arith in
      ap (λ c. tabulate 0 c (item d)) e
      ∙ ap₂ (◌∷◌) (ap (λ t. get_or d.buf t d.zero_value) (sym head_place)) (
          tabulate_shift 0 (d.count - 1) (item d)
          ∙ tabulate_ext 0 (d.count - 1) (λ k. item d (k + 1)) (item popped_front)
              (λ k _ h. sym (item-popped_front k (omega arith))))
