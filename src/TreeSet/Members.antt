-- ===== src/TreeSet/Members.antt =====
-- util/collections/treeset: `Contains` after one `Add` or `Remove`.
use Prim.Native.Nat.Ordering.{eq}
use microservice_kit.Prelude.{
  ◌+◌, ◌≡◌, refl, sym, ◌∙◌, ap, subst, Bool, true, false, not, ◌&&◌, ◌||◌, Option, none, some, List,
  [], ◌∷◌, arith, length,
}
use microservice_kit.Prelude.Int.{ℤ}
use microservice_kit.TreeMap.{TreeMap, sign, remove_key, entries}
use microservice_kit.TreeMap.Spec.{IsWeakOrder, list_put, list_get, list_remove, IsSorted}
use microservice_kit.TreeMap.Laws
use microservice_kit.TreeMap.Laws.{
  IsValid, put-list_put, remove_key-list_remove, get_value-list_get,
}
use microservice_kit.TreeMap.Lookup.{eq_trans, list_get-list_put, list_get-list_remove}
use microservice_kit.TreeMap.Walk.{new-IsValid, new-cmp, new-entries}
use microservice_kit.TreeSet.{TreeSet, new, add, remove, contains, len}

-- the comparator does not tell the items apart
abbrev pub same : {T : Type 0} → (T → T → ℤ) → T → T → Bool
same cmp other item = elim (sign (cmp other item)) [ eq ↦ true | _ ↦ false ]

abbrev pub is_some : Option (Unit {0}) → Bool
is_some none = false
is_some (some v) = true

module _ {T : Type 0} (cmp : T → T → ℤ) where
  -- a list has an item that the comparator does not tell from the item
  unfoldable pub member : T → List (T × Unit {0}) → Bool
  member item es = is_some (list_get cmp item es)

  pub member-empty : (item : T) → member item [] ≡ false
  unfolding member list_get
  member-empty item = refl

  pub member-cons :
      (other item : T) (u : Unit {0}) (es : List (T × Unit {0}))
      → member other ((item, u) ∷ es) ≡ same cmp other item || member other es
  unfolding member list_get
  member-cons other item u es = ground arith

  -- a valid set under the comparator
  pub record IsValidSet (s : TreeSet T) : Type 0 where
    pub valid : IsValid s.tm
    pub ordered_by : s.tm.cmp ≡ cmp

  pub contains-member :
      (s : TreeSet T) (item : T) → IsValidSet s → contains s item ≡ member item (entries s.tm)
  unfolding contains member
  contains-member s item h =
      (get_value-list_get s.tm item tt h.valid).2
      ∙ ap (λ f. is_some (list_get f item (entries s.tm))) h.ordered_by

  pub ordered : (s : TreeSet T) → IsValidSet s → IsWeakOrder cmp
  ordered s h = subst IsWeakOrder h.ordered_by h.valid.order

  member-put :
      (order : IsWeakOrder cmp) (other item : T) (xs : List (T × Unit {0}))
      → member other (list_put cmp item tt xs) ≡ same cmp other item || member other xs
  unfolding member
  member-put order other item xs =
      ap is_some (list_get-list_put cmp order other item tt xs) ∙ ground arith

  member-remove :
      (order : IsWeakOrder cmp) (other item : T) (xs : List (T × Unit {0}))
      → IsSorted cmp xs
      → member other (list_remove cmp item xs) ≡ not (same cmp other item) && member other xs
  unfolding member
  member-remove order other item xs h =
      ap is_some (list_get-list_remove cmp order other item xs h) ∙ ground arith

  -- items that the comparator does not tell apart are in the same sets
  list_get-same :
      (order : IsWeakOrder cmp) (a b : T) (xs : List (T × Unit {0}))
      → sign (cmp a b) ≡ eq
      → list_get cmp a xs ≡ list_get cmp b xs
  unfolding list_get
  list_get-same order a b [] e = refl
  list_get-same order a b ((k, v) ∷ xs) e = ground (
    arith,
    e,
    list_get-same order a b xs e,
    eq_trans cmp order a b k,
    eq_trans cmp order b a k,
    order.eq_of_eq a b,
  )

  pub contains-same :
      (s : TreeSet T) (a b : T) → IsValidSet s → same cmp a b ≡ true → contains s a ≡ contains s b
  unfolding member
  contains-same s a b h e =
      contains-member s a h
      ∙ ap is_some (list_get-same (ordered s h) a b (entries s.tm) (ground (arith, e)))
      ∙ sym (contains-member s b h)

  pub len-length : (s : TreeSet T) → IsValidSet s → len s ≡ length (entries s.tm)
  unfolding len
  len-length s h = Laws.len-length s.tm h.valid

  pub sorted : (s : TreeSet T) → IsValidSet s → IsSorted cmp (entries s.tm)
  sorted s h = subst (λ c. IsSorted c (entries s.tm)) h.ordered_by h.valid.sorted

  -- a set that an operation made
  abbrev pub Made : (T → Bool) → TreeSet T → Type 0
  Made has s = IsValidSet s × ((other : T) → contains s other ≡ has other)

  pub add_one :
      (s : TreeSet T) (item : T)
      → IsValidSet s
      → (s₁ : TreeSet T) × (add s (item ∷ []) ≡ some s₁)
        × Made (λ other. same cmp other item || contains s other) s₁
  unfolding add
  add_one s item h =
      let (m, e, (v, f, c)) = put-list_put s.tm item tt h.valid in
      let w : IsValidSet (record { tm = m }) = record {
        valid = v;
        ordered_by = c ∙ h.ordered_by;
      } in
      (
        record { tm = m },
        ap
            (λ (o : Option (TreeMap T Unit)). elim o [
              | none ↦ none
              | some m' ↦ some (record { tm = m' })
            ])
            e,
        (
          w,
          (λ other.
              contains-member (record { tm = m }) other w
              ∙ ap (member other) (f ∙ ap (λ c. list_put c item tt (entries s.tm)) h.ordered_by)
              ∙ member-put (ordered s h) other item (entries s.tm)
              ∙ ap (λ b. same cmp other item || b) (sym (contains-member s other h))),
        ),
      )

  pub remove_one :
      (s : TreeSet T) (item : T)
      → IsValidSet s
      → Made (λ other. not (same cmp other item) && contains s other) (remove s (item ∷ []))
  unfolding remove
  remove_one s item h =
      let (v, f, c, g) = remove_key-list_remove s.tm item h.valid in
      let m = (remove_key s.tm item).0 in
      let w : IsValidSet (record { tm = m }) = record {
        valid = v;
        ordered_by = c ∙ h.ordered_by;
      } in
      (
        w,
        (λ other.
            contains-member (record { tm = m }) other w
            ∙ ap (member other) (f ∙ ap (λ c. list_remove c item (entries s.tm)) h.ordered_by)
            ∙ member-remove (ordered s h) other item (entries s.tm) (sorted s h)
            ∙ ap (λ b. not (same cmp other item) && b) (sym (contains-member s other h))),
      )

  length-list_remove :
      (item : T) (xs : List (T × Unit {0}))
      → member item xs ≡ true
      → length (list_remove cmp item xs) + 1 ≡ length xs
  unfolding member list_remove list_get
  length-list_remove item [] h = ground (arith, h)
  length-list_remove item ((k, v) ∷ xs) h = ground (arith, h, length-list_remove item xs)

  pub remove_one-len :
      (s : TreeSet T) (item : T)
      → IsValidSet s
      → contains s item ≡ true
      → len (remove s (item ∷ [])) + 1 ≡ len s
  unfolding remove
  remove_one-len s item h e =
      let (v, f, c, g) = remove_key-list_remove s.tm item h.valid in
      let m = (remove_key s.tm item).0 in
      let w : IsValidSet (record { tm = m }) = record {
        valid = v;
        ordered_by = c ∙ h.ordered_by;
      } in
      omega (
        arith,
        len-length (record { tm = m }) w,
        len-length s h,
        ap length (f ∙ ap (λ c. list_remove c item (entries s.tm)) h.ordered_by),
        length-list_remove item (entries s.tm) (sym (contains-member s item h) ∙ e),
      )

  pub new-Made : IsWeakOrder cmp → Made (λ other. false) (new cmp)
  unfolding new
  new-Made order =
      let w : IsValidSet (new cmp) = record {
        valid = new-IsValid cmp order;
        ordered_by = new-cmp Unit cmp;
      } in
      (
        w,
        (λ other.
            contains-member (new cmp) other w
            ∙ ap (member other) (new-entries Unit cmp)
            ∙ member-empty other),
      )
