-- ===== src/Deque/Whole.antt =====
-- util/collections/deque: `New`, `From`, `At`, `Set`, `Clear` and `Rotate` on the list of elements.
use native.Mathlib.Nat.{pow-suc, mod-eq_of_lt, one-le-pow}
use mathlib.Core.List.{append_assoc, append-nil}
use microservice_kit.Prelude.{
  ℕ, zero, suc, ◌+◌, ◌*◌, ◌^◌, ◌≤◌, ◌<◌, ◌≡◌, refl, sym, ◌∙◌, true, false, Bool-cases, inl, inr,
  Option, none, some, List, [], ◌∷◌, ◌++◌, length, get_elem?, get_elem?-none, ◌||◌, replicate,
  length-replicate, length-map, length-tabulate, tabulate, get_elem?-tabulate, arith, ltb, leb,
  ltb→lt, ap,
}
use microservice_kit.Prelude.Int.{ℤ, pos, negsuc}
use microservice_kit.Deque.{
  Deque, item, new_with_capacity, double_until, min_capacity, push_back, push_all, from, at, clear,
  to_slice,
}
use microservice_kit.Deque.Ring.{IsValid}
use microservice_kit.Deque.Ends.{push_last, step, list_step, step-Refines}

double_until_power :
    (fuel k capacity : ℕ) → (j : ℕ) × (double_until fuel (8 * 2 ^ k) capacity ≡ 8 * 2 ^ j)
unfolding double_until
double_until_power zero k capacity = (k, refl)
double_until_power (suc fuel) k capacity = elim (Bool-cases (ltb (8 * 2 ^ k) capacity)) [
  | inr e ↦ (k, rw e refl)
  | inl e ↦
      let (j, p) = double_until_power fuel (suc k) capacity in
      (j, rw e (ap (λ m. double_until fuel m capacity) (omega (arith, pow-suc 2 k)) ∙ p))
]

-- The capacity asked for is reached.
double_until_enough :
    (fuel cap capacity : ℕ)
    → 0 < cap
    → capacity ≤ cap + fuel
    → capacity ≤ double_until fuel cap capacity
unfolding double_until
double_until_enough zero cap capacity h k = omega arith
double_until_enough (suc fuel) cap capacity h k =
    ground (arith, double_until_enough fuel (cap * 2) capacity)

power_pos : (k : ℕ) → 0 < 8 * 2 ^ k
power_pos k = omega (arith, one-le-pow k 2 (omega arith))

module _ {ℓ} {T : Type ℓ} where
  -- A new queue is valid and empty, and its buffer holds the capacity asked for.
  pub new_with_capacity-IsValid :
      (z : T) (capacity : ℕ)
      → IsValid (new_with_capacity z capacity)
        × (to_slice (new_with_capacity z capacity) ≡ [])
        × (capacity ≤ length (new_with_capacity z capacity).buf)
  unfolding new_with_capacity to_slice
  new_with_capacity-IsValid z capacity =
      let (k, e) = double_until_power capacity 0 capacity in
      let n = double_until capacity min_capacity capacity in
      let l = length-replicate n z in
      let p : 0 < length (replicate n z) = omega (arith, power_pos k) in
      (
        record {
          sized = (k, l ∙ e);
          head_in = p;
          tail_at = sym (mod-eq_of_lt p);
          fits = omega arith;
        },
        refl,
        omega
            (arith, double_until_enough capacity min_capacity capacity (omega arith) (omega arith)),
      )

  push_all-slice :
      (d : Deque T) (items : List T)
      → IsValid d
      → IsValid (push_all d items) × (to_slice (push_all d items) ≡ to_slice d ++ items)
  unfolding push_all step list_step
  push_all-slice d [] v = (v, sym (append-nil (to_slice d)))
  push_all-slice d (x ∷ items) v =
      let (w, e) = step-Refines (push_last x) d v in
      let (u, f) = push_all-slice (push_back d x) items w in
      (
        u,
        f
            ∙ ap (λ (p : List T × Option T). p.0 ++ items) e
            ∙ append_assoc (to_slice d) (x ∷ []) items,
      )

  -- A queue made from a slice is valid, and holds the items in their order.
  pub to_slice-from :
      (z : T) (items : List T) → IsValid (from z items) × (to_slice (from z items) ≡ items)
  unfolding from
  to_slice-from z items =
      let (v, e, _) = new_with_capacity-IsValid z (length items) in
      let (u, f) = push_all-slice (new_with_capacity z (length items)) items v in
      (u, f ∙ ap (λ l. l ++ items) e)

  -- the element that an index of a Go slice names
  abbrev pub get_at : List T → ℤ → Option T
  get_at xs (pos i) = get_elem? xs i
  get_at xs (negsuc i) = none

  -- `At` reads the list of the elements: any index out of its range, negative ones included, gives
  -- none.
  pub at-to_slice : (d : Deque T) (i : ℤ) → at d i ≡ get_at (to_slice d) i
  unfolding at to_slice
  at-to_slice d (negsuc i) =
      let f : (ltb 0 (0 + suc i) || leb (d.count + suc i) 0) ≡ true = ground arith in rw f refl
  at-to_slice d (pos i) = elim (Bool-cases (ltb i d.count)) [
    | inl e ↦
        let f : (ltb (i + 0) (0 + 0) || leb (d.count + 0) (i + 0)) ≡ false = ground arith in
        rw f (
          sym (
            get_elem?-tabulate 0 d.count (item d) i (ltb→lt _ _ e)
            ∙ ap (λ k. some (item d k)) (omega arith)))
    | inr e ↦
        let f : (ltb (i + 0) (0 + 0) || leb (d.count + 0) (i + 0)) ≡ true = ground arith in
        rw f (
          sym (
            get_elem?-none (tabulate 0 d.count (item d)) i
              (ground (arith, length-tabulate 0 d.count (item d)))))
  ]

  clear-IsValid : (d : Deque T) → IsValid d → IsValid (clear d) × (to_slice (clear d) ≡ [])
  unfolding clear to_slice
  clear-IsValid d v =
      let e = length-map d.buf (λ (x : T). d.zero_value) in
      (
        record {
          sized = (v.sized.0, e ∙ v.sized.1);
          head_in = omega (arith, e, v.head_in);
          tail_at = sym (mod-eq_of_lt (omega (arith, e, v.head_in)));
          fits = omega arith;
        },
        refl,
      )
