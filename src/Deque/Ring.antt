-- ===== src/Deque/Ring.antt =====
-- util/collections/deque: the invariant of the ring, and indices modulo the length of the buffer.
use native.Mathlib.Nat.{mod-eq_of_lt, mod-eq-sub-mod}
use microservice_kit.Prelude.{
  ℕ, ◌+◌, ◌-◌, ◌*◌, ◌%◌, ◌^◌, ◌≤◌, ◌<◌, ◌≡◌, ◌∙◌, Bool-cases, inl, inr, length, get_or, set,
  get_or-set, arith, ltb, ltb→lt, ◌==◌, if◌then◌else◌, ap,
}
use microservice_kit.Deque.{Deque, index, item}

-- a remainder by the length, of a number below twice the length
pub mod_cases : (a n : ℕ) → a < n + n → a % n ≡ (if ltb a n then a else a - n)
mod_cases a n h = elim (Bool-cases (ltb a n)) [
  | inl e ↦ rw e (mod-eq_of_lt (ltb→lt a n e))
  | inr e ↦ let k : n ≤ a = ground arith in rw e (mod-eq-sub-mod k ∙ mod-eq_of_lt (omega arith))
]

module _ {ℓ} {T : Type ℓ} where
  -- The length of the buffer is a power of two, at least 8; the count fits; head lies in the buffer,
  -- and tail follows the last element.
  pub record IsValid (d : Deque T) : Type 0 where
    pub sized : (k : ℕ) × (length d.buf ≡ 8 * 2 ^ k)
    pub head_in : d.head < length d.buf
    pub tail_at : d.tail ≡ (d.head + d.count) % length d.buf
    pub fits : d.count ≤ length d.buf

  module _ (d : Deque T) (v : IsValid d) where
    abbrev n : ℕ
    n = length d.buf

    pub index_cases :
        (i : ℕ) → i ≤ n → index d i ≡ (if ltb (d.head + i) n then d.head + i else d.head + i - n)
    index_cases i h = mod_cases (d.head + i) n (omega arith)

    pub tail_cases :
        d.tail ≡ (if ltb (d.head + d.count) n then d.head + d.count else d.head + d.count - n)
    tail_cases = v.tail_at ∙ index_cases d.count v.fits

    pub index_in : (i : ℕ) → i ≤ n → index d i < n
    index_in i h = ground (arith, index_cases i h)

    -- two elements never share a place
    pub index_injective : (i j : ℕ) → i < n → j < n → index d i ≡ index d j → i ≡ j
    index_injective i j h k e = ground (arith, index_cases i, index_cases j)

    same_index : (i j : ℕ) → i < n → j < n → (index d j == index d i) ≡ (i == j)
    same_index i j h k = ground (arith, index_injective i j h k)

    -- a write at an element's place is read back there only
    pub item-set :
        (i j : ℕ) (x : T)
        → i < n
        → j < n
        → get_or (set d.buf (index d i) x) (index d j) d.zero_value
          ≡ (if i == j then x else item d j)
    item-set i j x h k =
        get_or-set d.buf (index d i) x d.zero_value (index d j) (index_in i (omega arith))
        ∙ ap (λ b. if b then x else item d j) (same_index i j h k)
