-- ===== src/Deque/Resize.antt =====
-- util/collections/deque, `resize`, `growIfNeeded`, `shrinkIfNeeded`: the elements keep their order.
use microservice_kit.Prelude.{
  ℕ, zero, suc, ◌+◌, ◌-◌, ◌*◌, ◌%◌, ◌^◌, ◌≤◌, ◌<◌, ◌≡◌, refl, sym, ◌∙◌, true, false, Bool-cases,
  inl, inr, List, [], ◌∷◌, length, get_or, take, drop, replicate, get_or-take, get_or-drop,
  length-take, length-drop, length-replicate, tabulate_ext, arith, ltb, ltb→lt, if◌then◌else◌, ap,
}
use microservice_kit.Deque.{Deque, item, copy_at, resize, to_slice}
use microservice_kit.Deque.Ring.{IsValid, mod_cases, index_cases, tail_cases}

module _ {ℓ} {A : Type ℓ} where
  length-copy_at : (dst : List A) (at : ℕ) (src : List A) → length (copy_at dst at src) ≡ length dst
  unfolding copy_at
  length-copy_at [] at src = refl
  length-copy_at (x ∷ dst) (suc at) src = ap suc (length-copy_at dst at src)
  length-copy_at (x ∷ dst) zero [] = refl
  length-copy_at (x ∷ dst) zero (y ∷ src) = ap suc (length-copy_at dst zero src)

  get_or-copy_at :
      (dst : List A) (at : ℕ) (src : List A) (k : ℕ) (z : A)
      → k < length dst
      → at ≤ k
      → k < at + length src
      → get_or (copy_at dst at src) k z ≡ get_or src (k - at) z
  unfolding copy_at
  get_or-copy_at [] at src k z h a b = elim h [ ]
  get_or-copy_at (x ∷ dst) (suc at) src zero z h a b = absurd (omega arith)
  get_or-copy_at (x ∷ dst) (suc at) src (suc k) z h a b =
      let e : suc k - suc at ≡ k - at = omega arith in
      rw e (get_or-copy_at dst at src k z (omega arith) (omega arith) (omega arith))
  get_or-copy_at (x ∷ dst) zero [] k z h a b = absurd (omega arith)
  get_or-copy_at (x ∷ dst) zero (y ∷ src) zero z h a b = refl
  get_or-copy_at (x ∷ dst) zero (y ∷ src) (suc k) z h a b =
      let e : suc k - 0 ≡ suc (k - 0) = omega arith in
      rw e (get_or-copy_at dst zero src k z (omega arith) (omega arith) (omega arith))

  get_or-copy_at_before :
      (dst : List A) (at : ℕ) (src : List A) (k : ℕ) (z : A)
      → k < at
      → get_or (copy_at dst at src) k z ≡ get_or dst k z
  unfolding copy_at
  get_or-copy_at_before [] at src k z h = refl
  get_or-copy_at_before (x ∷ dst) zero src k z h = absurd (omega arith)
  get_or-copy_at_before (x ∷ dst) (suc at) src zero z h = refl
  get_or-copy_at_before (x ∷ dst) (suc at) src (suc k) z h =
      get_or-copy_at_before dst at src k z (omega arith)

module _ {ℓ} {T : Type ℓ} (d : Deque T) (v : IsValid d) (size : ℕ) (room : d.count < size) where
  abbrev z : T
  z = d.zero_value

  abbrev n : ℕ
  n = length d.buf

  abbrev back : List T
  back = drop d.head d.buf

  abbrev empty : List T
  empty = replicate size z

  length-back : length back ≡ n - d.head
  length-back = length-drop d.head d.buf

  length-empty : length empty ≡ size
  length-empty = length-replicate size z

  pub length-resize : length (resize d size).buf ≡ size
  unfolding resize
  length-resize = ground (
    arith,
    length-copy_at empty 0 (take (d.tail - d.head) back),
    length-copy_at (copy_at empty 0 back) (length back) (take d.tail d.buf),
    length-copy_at (copy_at empty 0 back) size (take d.tail d.buf),
    length-copy_at empty 0 back,
    length-empty,
  )

  -- the part from head to the end of the buffer
  front_at :
      (i : ℕ) (src : List T)
      → i < size
      → i < length src
      → get_or (copy_at empty 0 src) i z ≡ get_or src i z
  front_at i src h k =
      get_or-copy_at empty 0 src i z (omega (arith, length-empty)) (omega arith) (omega arith)
      ∙ ap (λ j. get_or src j z) (omega arith)

  straight_at :
      (i : ℕ)
      → i < d.count
      → ltb d.head d.tail ≡ true
      → get_or (copy_at empty 0 (take (d.tail - d.head) back)) i z ≡ item d i
  straight_at i h e =
      let l : i < d.tail - d.head = ground (arith, tail_cases d v) in
      front_at i (take (d.tail - d.head) back) (omega arith)
        (omega (arith, length-take (d.tail - d.head) back, length-back, bound e))
      ∙ get_or-take (d.tail - d.head) back i z l
      ∙ get_or-drop d.head d.buf i z
      ∙ ap (λ j. get_or d.buf j z) (ground (arith, tail_cases d v, index_cases d v i))
    where
      bound : ltb d.head d.tail ≡ true → d.tail ≤ n
      bound e = ground (arith, tail_cases d v)

  -- the buffer of a queue that goes round the end
  abbrev rounds : ℕ → List T
  rounds m = copy_at (copy_at empty 0 back) m (take d.tail d.buf)

  round_low : (i m : ℕ) → i < d.count → i < m → i < n - d.head → get_or (rounds m) i z ≡ item d i
  round_low i m h k l =
      get_or-copy_at_before (copy_at empty 0 back) m (take d.tail d.buf) i z k
      ∙ front_at i back (omega arith) (omega (arith, length-back))
      ∙ get_or-drop d.head d.buf i z
      ∙ ap (λ j. get_or d.buf j z) (ground (arith, index_cases d v i))

  round_high :
      (i : ℕ)
      → i < d.count
      → ltb d.head d.tail ≡ false
      → n - d.head ≤ i
      → get_or (rounds (n - d.head)) i z ≡ item d i
  round_high i h e k =
      let l : i - (n - d.head) < d.tail = ground (arith, tail_cases d v) in
      get_or-copy_at (copy_at empty 0 back) (n - d.head) (take d.tail d.buf) i z
        (omega (arith, length-copy_at empty 0 back, length-empty)) k
        (omega (arith, length-take d.tail d.buf, bound e))
      ∙ get_or-take d.tail d.buf (i - (n - d.head)) z l
      ∙ ap (λ j. get_or d.buf j z) (ground (arith, tail_cases d v, index_cases d v i))
    where
      bound : ltb d.head d.tail ≡ false → d.tail ≤ n
      bound e = ground (arith, tail_cases d v)

  round_at :
      (i : ℕ)
      → i < d.count
      → ltb d.head d.tail ≡ false
      → get_or (rounds (if ltb (length back) size then length back else size)) i z ≡ item d i
  round_at i h e = elim (Bool-cases (ltb (length back) size)) [
    | inr f ↦ rw f (round_low i size h (omega arith) (ground (arith, length-back)))
    | inl f ↦ elim (Bool-cases (ltb i (n - d.head))) [
      | inl g ↦ rw (f, length-back) (round_low i (n - d.head) h (ltb→lt _ _ g) (ltb→lt _ _ g))
      | inr g ↦ rw (f, length-back) (round_high i h e (ground arith))
    ]
  ]

  -- the element number i in the new buffer
  resize_at : (i : ℕ) → i < d.count → get_or (resize d size).buf i z ≡ item d i
  unfolding resize
  resize_at i h = elim (Bool-cases (ltb d.head d.tail)) [
    | inl e ↦ rw e (straight_at i h e)
    | inr e ↦ let f : ltb 0 d.count ≡ true = ground arith in rw (e, f) (round_at i h e)
  ]

  pub item-resize : (i : ℕ) → i < d.count → item (resize d size) i ≡ item d i
  unfolding resize
  item-resize i h =
      ap (λ j. get_or (resize d size).buf j z)
        (ap (λ m. (0 + i) % m) length-resize ∙ mod_cases (0 + i) size (omega arith) ∙ ground arith)
      ∙ resize_at i h

  pub to_slice-resize : to_slice (resize d size) ≡ to_slice d
  unfolding to_slice resize
  to_slice-resize =
      tabulate_ext 0 d.count (item (resize d size)) (item d) (λ k _ h. item-resize k (omega arith))

  pub resize-IsValid : (k : ℕ) → size ≡ 8 * 2 ^ k → IsValid (resize d size)
  unfolding resize
  resize-IsValid k e = record {
    sized = (k, length-resize ∙ e);
    head_in = omega (arith, length-resize);
    tail_at = sym (
        ap (λ m. (0 + d.count) % m) length-resize
        ∙ mod_cases (0 + d.count) size (omega arith)
        ∙ ground arith);
    fits = omega (arith, length-resize);
  }
