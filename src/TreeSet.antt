-- ===== src/TreeSet.antt =====
-- util/collections/treeset: a set of items as the keys of a TreeMap. A call that panics answers none.
mod Members
mod Loops
pub mod Subset
pub mod Algebra
pub mod Tests
use microservice_kit.Prelude.{
  ℕ, Bool, true, false, not, Option, none, some, List, [], ◌∷◌, map, if◌then◌else◌, ltb, ◌==◌,
}
use microservice_kit.Prelude.Int.{ℤ}
use microservice_kit.TreeMap
use microservice_kit.TreeMap.{TreeMap, put, remove_key, contains_key, traverse, keys}

module _ (T : Type 0) where
  pub record TreeSet : Type 0 where
    pub tm : TreeMap T Unit

module _ {T : Type 0} where
  pub new : (T → T → ℤ) → TreeSet T
  new cmp = record { tm = TreeMap.new cmp }

  -- `Add`
  pub add : TreeSet T → List T → Option (TreeSet T)
  add s [] = some s
  add s (item ∷ items) = elim (put s.tm item tt) [
    | none ↦ none
    | some m ↦ add (record { tm = m }) items
  ]

  -- `FromSlice`, whose comparator the caller's type decides
  pub from_slice : (T → T → ℤ) → List T → Option (TreeSet T)
  from_slice cmp items = add (new cmp) items

  -- `Remove`
  pub remove : TreeSet T → List T → TreeSet T
  remove s [] = s
  remove s (item ∷ items) = remove (record { tm = (remove_key s.tm item).0 }) items

  pub contains : TreeSet T → T → Bool
  contains s item = contains_key s.tm item

  pub len : TreeSet T → ℕ
  len s = TreeMap.len s.tm

  pub is_empty : TreeSet T → Bool
  is_empty s = TreeMap.is_empty s.tm

  pub clear : TreeSet T → TreeSet T
  clear s = record { tm = TreeMap.clear s.tm }

  pub first : TreeSet T → Option T
  first s = elim (TreeMap.first s.tm) [ none ↦ none | some e ↦ some e.0 ]

  pub last : TreeSet T → Option T
  last s = elim (TreeMap.last s.tm) [ none ↦ none | some e ↦ some e.0 ]

  pub to_slice : TreeSet T → List T
  to_slice s = keys s.tm

  -- `Range`, over the state that the function changes
  pub range : {S : Type 0} → (T → S → Bool × S) → TreeSet T → S → S
  range fn s state = (traverse (λ item _ state. fn item state) s.tm.root state).1

  pub clone : TreeSet T → Option (TreeSet T)
  clone s = elim (TreeMap.clone s.tm) [ none ↦ none | some m ↦ some (record { tm = m }) ]

  -- the functions that `Union`, `Intersection` and `Difference` range with; the set is none once a call
  -- has panicked
  abbrev pub adding : T → Option (TreeSet T) → Bool × Option (TreeSet T)
  adding item none = (false, none)
  adding item (some result) = (true, add result (item ∷ []))

  abbrev pub adding_common : TreeSet T → T → Option (TreeSet T) → Bool × Option (TreeSet T)
  adding_common larger item none = (false, none)
  adding_common larger item (some result) =
      (true, if contains larger item then add result (item ∷ []) else some result)

  abbrev pub removing : T → TreeSet T → Bool × TreeSet T
  removing item result = (true, remove result (item ∷ []))

  pub union : TreeSet T → TreeSet T → Option (TreeSet T)
  union s other = range adding other (clone s)

  pub intersection : TreeSet T → TreeSet T → Option (TreeSet T)
  intersection s other =
      let result : Option (TreeSet T) = some (new s.tm.cmp) in
      if ltb (len other) (len s)
      then range (adding_common s) other result
      else range (adding_common other) s result

  pub difference : TreeSet T → TreeSet T → Option (TreeSet T)
  difference s other = elim (clone s) [
    | none ↦ none
    | some result ↦ some (range removing other result)
  ]

  -- the function that `IsSubset` ranges with
  abbrev pub checking : TreeSet T → T → Bool → Bool × Bool
  checking other item ok = if not (contains other item) then (false, false) else (true, ok)

  pub is_subset : TreeSet T → TreeSet T → Bool
  is_subset s other = if ltb (len other) (len s) then false else range (checking other) s true

  pub is_superset : TreeSet T → TreeSet T → Bool
  is_superset s other = is_subset other s

  pub equal : TreeSet T → TreeSet T → Bool
  equal s other = if not (len s == len other) then false else is_subset s other
