-- ===== src/Slices/Split.antt =====
-- util/collections/slices: the functions that divide a slice lose no element and keep the order.
use mathlib.Core.List.{append_assoc, append-nil, perm_middle}
use mathlib.Core.List.Perm
use microservice_kit.Prelude.{
  ℕ, zero, suc, ◌+◌, ◌-◌, ◌≤◌, ◌<◌, ◌≡◌, refl, sym, ◌∙◌, Bool, true, false, not, Bool-cases, inl,
  inr, List, [], ◌∷◌, ◌++◌, length, take, drop, length-take, length-drop, take-append-drop,
  nil_of_length, Perm, arith, ltb, leb, if◌then◌else◌, ap, ap₂, subst,
}
use microservice_kit.Prelude.Int.{ℤ, pos, negsuc}
use microservice_kit.Slices.{
  filter, filter_into, partition, partition_into, chunk, chunk_from, flatten, flatten_into,
  take_first, skip, take_while, skip_while,
}

-- the end of a chunk
abbrev end : ℕ → ℕ → ℕ
end len stop = if ltb len stop then len else stop

end-size :
    (len i size : ℕ)
    → i < len
    → 0 < size
    → (i < end len (i + size)) × (end len (i + size) ≤ i + size)
end-size len i size h k = ground arith

module _ {ℓ} {T : Type ℓ} where
  -- the elements that satisfy a test, in their order
  unfoldable pub keep : (T → Bool) → List T → List T
  keep fn [] = []
  keep fn (x ∷ xs) = if fn x then x ∷ keep fn xs else keep fn xs

  filter_into-keep : (r xs : List T) (fn : T → Bool) → filter_into r xs fn ≡ r ++ keep fn xs
  unfolding filter_into keep
  filter_into-keep r [] fn = sym (append-nil r)
  filter_into-keep r (x ∷ xs) fn = elim (Bool-cases (fn x)) [
    | inl e ↦ rw e (filter_into-keep (r ++ x ∷ []) xs fn ∙ append_assoc r (x ∷ []) (keep fn xs))
    | inr e ↦ rw e (filter_into-keep r xs fn)
  ]

  partition_into-keep :
      (m u xs : List T) (fn : T → Bool)
      → partition_into m u xs fn ≡ (m ++ keep fn xs, u ++ keep (λ x. not (fn x)) xs)
  unfolding partition_into keep
  partition_into-keep m u [] fn = ap₂ (λ a b. (a, b)) (sym (append-nil m)) (sym (append-nil u))
  partition_into-keep m u (x ∷ xs) fn = elim (Bool-cases (fn x)) [
    | inl e ↦ rw e (
        partition_into-keep (m ++ x ∷ []) u xs fn
        ∙ ap (λ l. (l, u ++ keep (λ y. not (fn y)) xs)) (append_assoc m (x ∷ []) (keep fn xs)))
    | inr e ↦ rw e (
        partition_into-keep m (u ++ x ∷ []) xs fn
        ∙ ap (λ l. (m ++ keep fn xs, l)) (append_assoc u (x ∷ []) (keep (λ y. not (fn y)) xs)))
  ]

  keep-perm : (fn : T → Bool) (xs : List T) → Perm (keep fn xs ++ keep (λ x. not (fn x)) xs) xs
  unfolding keep
  keep-perm fn [] = Perm.refl []
  keep-perm fn (x ∷ xs) = elim (Bool-cases (fn x)) [
    | inl e ↦ rw e (Perm.cons x (keep-perm fn xs))
    | inr e ↦ rw e (
        Perm.trans (perm_middle (keep fn xs) (keep (λ y. not (fn y)) xs))
          (Perm.cons x (keep-perm fn xs)))
  ]

  -- `Partition` gives what `Filter` gives for the test and for its negation, and no element is lost
  -- or doubled.
  pub partition-filter :
      (slice : List T) (fn : T → Bool)
      → (partition slice fn ≡ (filter slice fn, filter slice (λ x. not (fn x))))
        × Perm ((partition slice fn).0 ++ (partition slice fn).1) slice
  unfolding partition filter
  partition-filter slice fn =
      let e = partition_into-keep [] [] slice fn in
      (
        e
            ∙ ap₂ (λ a b. (a, b)) (sym (filter_into-keep [] slice fn))
                (sym (filter_into-keep [] slice (λ x. not (fn x)))),
        subst (λ (p : List T × List T). Perm (p.0 ++ p.1) slice) (sym e) (keep-perm fn slice),
      )

  -- the lists of a list of lists, one behind the other
  unfoldable pub concat : List (List T) → List T
  concat [] = []
  concat (xs ∷ xss) = xs ++ concat xss

  flatten_into-concat : (r : List T) (xss : List (List T)) → flatten_into r xss ≡ r ++ concat xss
  unfolding flatten_into concat
  flatten_into-concat r [] = sym (append-nil r)
  flatten_into-concat r (xs ∷ xss) =
      flatten_into-concat (r ++ xs) xss ∙ append_assoc r xs (concat xss)

  -- every element of a list has a property
  pub data All (P : List T → Type 0) : List (List T) → Type ℓ where
    none_left : All P []
    one_more : {xs : List T} {xss : List (List T)} → P xs → All P xss → All P (xs ∷ xss)

  -- a chunk's size is in its bounds
  abbrev pub IsSized : ℕ → List T → Type 0
  IsSized size xs = (0 < length xs) × (length xs ≤ size)

  drop_past : (n : ℕ) (xs : List T) → length xs ≤ n → drop n xs ≡ []
  drop_past n xs h = nil_of_length (drop n xs) (omega (arith, length-drop n xs))

  drop-drop : (i n : ℕ) (xs : List T) → drop n (drop i xs) ≡ drop (i + n) xs
  drop-drop zero n xs = ap (λ k. drop k xs) (omega arith)
  drop-drop (suc i) n [] =
      drop_past n [] (omega arith) ∙ sym (drop_past (suc i + n) [] (omega arith))
  drop-drop (suc i) n (x ∷ xs) =
      let e : suc (i + n) ≡ suc i + n = omega arith in
      drop-drop i n xs ∙ ap (λ k. drop k (x ∷ xs)) e

  drop-end : (stop : ℕ) (xs : List T) → drop stop xs ≡ drop (end (length xs) stop) xs
  drop-end stop xs = elim (Bool-cases (ltb (length xs) stop)) [
    | inl e ↦ rw e (drop_past stop xs (ground arith) ∙ sym (drop_past (length xs) xs (omega arith)))
    | inr e ↦ rw e refl
  ]

  chunk_from_lem :
      (fuel i : ℕ) (slice : List T) (size : ℕ)
      → 0 < size
      → length slice ≤ i + fuel
      → (concat (chunk_from fuel i slice size) ≡ drop i slice)
        × All (IsSized size) (chunk_from fuel i slice size)
  unfolding chunk_from concat
  chunk_from_lem zero i slice size h k = (sym (drop_past i slice (omega arith)), none_left)
  chunk_from_lem (suc fuel) i slice size h k = elim (Bool-cases (ltb i (length slice))) [
    | inl e ↦
        let (p, a) = chunk_from_lem fuel (i + size) slice size h (omega arith) in
        let stop : ℕ = end (length slice) (i + size) in
        let (b, c) = end-size (length slice) i size (ground arith) h in
        let q : drop (stop - i) (drop i slice) ≡ concat (chunk_from fuel (i + size) slice size) =
          drop-drop i (stop - i) slice
          ∙ ap (λ n. drop n slice) (omega arith)
          ∙ sym (drop-end (i + size) slice)
          ∙ sym p in
        let d : length (drop i slice) ≡ length slice - i = length-drop i slice in
        let f : ltb i (length slice) ≡ true = e in
        rw e (
          ap (λ l. take (stop - i) (drop i slice) ++ l) (sym q)
              ∙ take-append-drop (stop - i) (drop i slice),
          one_more (ground (arith, length-take (stop - i) (drop i slice), f)) a,
        )
    | inr e ↦ rw e (sym (drop_past i slice (ground arith)), none_left)
  ]

  -- The chunks of a positive size, flattened, are the slice; none is empty or larger than the size.
  pub flatten-chunk :
      (slice : List T) (size : ℕ)
      → 0 < size
      → (flatten (chunk slice (pos size)) ≡ slice) × All (IsSized size) (chunk slice (pos size))
  unfolding flatten chunk
  flatten-chunk slice zero h = absurd (omega arith)
  flatten-chunk slice (suc size) h =
      let (e, a) = chunk_from_lem (length slice) 0 slice (suc size) h (omega arith) in
      (flatten_into-concat [] (chunk_from (length slice) 0 slice (suc size)) ∙ e, a)

  -- `Take` and `Skip` with the same number, negative and too large ones included, divide the slice.
  pub take-skip : (slice : List T) (n : ℤ) → take_first slice n ++ skip slice n ≡ slice
  unfolding take_first skip
  take-skip slice (negsuc n) = refl
  take-skip slice (pos zero) = refl
  take-skip slice (pos (suc n)) = elim (Bool-cases (leb (length slice) (suc n))) [
    | inl e ↦
        let g : leb (suc n) 0 ≡ false = ground arith in
        rw (e, g)
          (ap (λ l. take (end (length slice) (suc n)) slice ++ l)
              (sym (drop_past (end (length slice) (suc n)) slice (ground arith)))
            ∙ take-append-drop (end (length slice) (suc n)) slice)
    | inr e ↦
        let f : ltb (length slice) (suc n) ≡ false = ground arith in
        let g : leb (suc n) 0 ≡ false = ground arith in
        rw (e, f, g) (take-append-drop (suc n) slice)
  ]

  pub take_while-skip_while :
      (slice : List T) (fn : T → Bool) → take_while slice fn ++ skip_while slice fn ≡ slice
  unfolding take_while skip_while
  take_while-skip_while [] fn = refl
  take_while-skip_while (x ∷ xs) fn = elim (Bool-cases (fn x)) [
    | inl e ↦ rw e (ap (◌∷◌ x) (take_while-skip_while xs fn))
    | inr e ↦ rw e refl
  ]
