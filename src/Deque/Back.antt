-- ===== src/Deque/Back.antt =====
-- util/collections/deque: `PushBack` and `PopBack` on a buffer with room, element by element.
use microservice_kit.Prelude.{
  ℕ, suc, ◌+◌, ◌-◌, ◌%◌, ◌<◌, ◌≡◌, refl, sym, ◌∙◌, true, false, [], ◌∷◌, ◌++◌, length, get_or, set,
  length-set, tabulate, tabulate_ext, tabulate_snoc, arith, ◌==◌, if◌then◌else◌, ap, ap₂,
}
use microservice_kit.Deque.{Deque, item, next, prev, to_slice}
use microservice_kit.Deque.Ring.{IsValid}
use microservice_kit.Deque.Steps.{prev_tail, next_tail, item_of_set}

module _ {ℓ} {T : Type ℓ} (d : Deque T) (v : IsValid d) (room : d.count < length d.buf)
    (x : T) where
  -- `PushBack` behind `growIfNeeded`
  abbrev pub pushed_back : Deque T
  pushed_back = record d { buf = set d.buf d.tail x; tail = next d d.tail; count = d.count + 1 }

  pub pushed_back-IsValid : IsValid pushed_back
  pushed_back-IsValid = record {
    sized = (v.sized.0, length-set d.buf d.tail x ∙ v.sized.1);
    head_in = omega (arith, length-set d.buf d.tail x);
    tail_at =
        next_tail d v room
        ∙ ap (λ m. (d.head + (d.count + 1)) % m) (sym (length-set d.buf d.tail x));
    fits = omega (arith, length-set d.buf d.tail x);
  }

  item-pushed_back :
      (k : ℕ) → k < d.count + 1 → item pushed_back k ≡ (if d.count == k then x else item d k)
  item-pushed_back k h =
      ap (λ t. get_or (set d.buf t x) ((d.head + k) % length (set d.buf t x)) d.zero_value)
        v.tail_at
      ∙ item_of_set d v d.count k k d.head x room (omega arith) refl

  pub to_slice-pushed_back : to_slice pushed_back ≡ to_slice d ++ x ∷ []
  unfolding to_slice
  to_slice-pushed_back =
      let e : d.count + 1 ≡ suc d.count = omega arith in
      ap (λ c. tabulate 0 c (item pushed_back)) e
      ∙ tabulate_snoc 0 d.count (item pushed_back)
      ∙ ap₂ (λ l y. l ++ y ∷ [])
          (tabulate_ext 0 d.count (item pushed_back) (item d) (λ k _ h.
            item-pushed_back k (omega arith)
            ∙ (let f : (d.count == k) ≡ false = ground arith in rw f refl)))
          (ap (item pushed_back) (omega arith)
            ∙ item-pushed_back d.count (omega arith)
            ∙ (let f : (d.count == d.count) ≡ true = ground arith in rw f refl))

module _ {ℓ} {T : Type ℓ} (d : Deque T) (v : IsValid d) (some_left : 0 < d.count) where
  -- `PopBack` before `shrinkIfNeeded`
  abbrev pub popped_back : Deque T
  popped_back = record d {
    buf = set d.buf (prev d d.tail) d.zero_value;
    tail = prev d d.tail;
    count = d.count - 1;
  }

  pub popped_back-IsValid : IsValid popped_back
  popped_back-IsValid =
      let e = length-set d.buf (prev d d.tail) d.zero_value in
      record {
        sized = (v.sized.0, e ∙ v.sized.1);
        head_in = omega (arith, e, v.head_in);
        tail_at = prev_tail d v some_left ∙ ap (λ m. (d.head + (d.count - 1)) % m) (sym e);
        fits = omega (arith, e, v.fits);
      }

  item-popped_back : (k : ℕ) → k < d.count - 1 → item popped_back k ≡ item d k
  item-popped_back k h =
      ap
        (λ t.
          get_or (set d.buf t d.zero_value) ((d.head + k) % length (set d.buf t d.zero_value))
            d.zero_value)
        (prev_tail d v some_left)
      ∙ item_of_set d v (d.count - 1) k k d.head d.zero_value (omega (arith, v.fits))
          (omega (arith, v.fits)) refl
      ∙ (let f : (d.count - 1 == k) ≡ false = ground arith in rw f refl)

  -- the elements are those that stay, and the one that is returned
  pub to_slice-popped_back :
      to_slice d ≡ to_slice popped_back ++ get_or d.buf (prev d d.tail) d.zero_value ∷ []
  unfolding to_slice
  to_slice-popped_back =
      let e : d.count ≡ suc (d.count - 1) = omega arith in
      ap (λ c. tabulate 0 c (item d)) e
      ∙ tabulate_snoc 0 (d.count - 1) (item d)
      ∙ ap₂ (λ l y. l ++ y ∷ [])
          (tabulate_ext 0 (d.count - 1) (item d) (item popped_back)
            (λ k _ h. sym (item-popped_back k (omega arith))))
          (ap (item d) (omega arith)
            ∙ ap (λ t. get_or d.buf t d.zero_value) (sym (prev_tail d v some_left)))
