-- ===== src/Deque/Steps.antt =====
-- util/collections/deque, `next` and `prev`: steps along the ring, and a write at an element's place.
use microservice_kit.Prelude.{
  ℕ, ◌+◌, ◌-◌, ◌%◌, ◌<◌, ◌≡◌, ◌∙◌, length, get_or, set, length-set, arith, ◌==◌, if◌then◌else◌, ap,
}
use microservice_kit.Deque.{Deque, index, item, next, prev}
use microservice_kit.Deque.Ring.{IsValid, mod_cases, item-set}

module _ {ℓ} {T : Type ℓ} (d : Deque T) (v : IsValid d) where
  abbrev pub n : ℕ
  n = length d.buf

  -- the steps of `next` and `prev` along the ring
  pub next_step : (i : ℕ) → i < n → (next d d.head + i) % n ≡ index d (i + 1)
  next_step i h = ground (
    arith,
    v.head_in,
    mod_cases (d.head + 1) n,
    mod_cases (next d d.head + i) n,
    mod_cases (d.head + (i + 1)) n,
  )

  pub prev_step : (i : ℕ) → i < n → (prev d d.head + (i + 1)) % n ≡ index d i
  prev_step i h = ground (
    arith,
    v.head_in,
    mod_cases (d.head + n - 1) n,
    mod_cases (prev d d.head + (i + 1)) n,
    mod_cases (d.head + i) n,
  )

  pub prev_in : prev d d.head < n
  prev_in = ground (arith, v.head_in, mod_cases (d.head + n - 1) n)

  pub prev_tail : 0 < d.count → prev d d.tail ≡ index d (d.count - 1)
  prev_tail h = ground (
    arith,
    v.head_in,
    v.tail_at,
    v.fits,
    mod_cases (d.head + d.count) n,
    mod_cases (d.tail + n - 1) n,
    mod_cases (d.head + (d.count - 1)) n,
  )

  pub next_tail : d.count < n → next d d.tail ≡ index d (d.count + 1)
  next_tail h = ground (
    arith,
    v.head_in,
    v.tail_at,
    mod_cases (d.head + d.count) n,
    mod_cases (d.tail + 1) n,
    mod_cases (d.head + (d.count + 1)) n,
  )

  -- an element of a queue whose buffer had one write, by its place in the old one
  pub item_of_set :
      (i j k h : ℕ) (x : T)
      → i < n
      → j < n
      → (h + k) % n ≡ index d j
      → get_or (set d.buf (index d i) x) ((h + k) % length (set d.buf (index d i) x)) d.zero_value
        ≡ (if i == j then x else item d j)
  item_of_set i j k h x a b e =
      ap (λ m. get_or (set d.buf (index d i) x) m d.zero_value)
        (ap (λ m. (h + k) % m) (length-set d.buf (index d i) x) ∙ e)
      ∙ item-set d v i j x a b
