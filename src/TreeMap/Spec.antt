-- ===== src/TreeMap/Spec.antt =====
-- util/collections/treemap: what its operations do to the list of its pairs, by a comparison from the
-- first pair on; nothing here is of the tree.
use Prim.Native.Nat.{Ordering}
use Prim.Native.Nat.Ordering.{lt, eq, gt}
use microservice_kit.Prelude.{◌≡◌, refl, Option, none, some, List, [], ◌∷◌, ◌++◌, arith}
use microservice_kit.Prelude.Int.{ℤ}
use microservice_kit.TreeMap.{sign}

-- What the comparator must be: a weak order.
pub record IsWeakOrder {K : Type 0} (cmp : K → K → ℤ) : Type 0 where
  pub eq_self : (a : K) → sign (cmp a a) ≡ eq
  pub gt_of_lt : (a b : K) → sign (cmp a b) ≡ lt → sign (cmp b a) ≡ gt
  pub lt_of_gt : (a b : K) → sign (cmp a b) ≡ gt → sign (cmp b a) ≡ lt
  pub eq_of_eq : (a b : K) → sign (cmp a b) ≡ eq → sign (cmp b a) ≡ eq
  pub lt_trans : (a b c : K) → sign (cmp a b) ≡ lt → sign (cmp b c) ≡ lt → sign (cmp a c) ≡ lt
  pub lt_eq : (a b c : K) → sign (cmp a b) ≡ lt → sign (cmp b c) ≡ eq → sign (cmp a c) ≡ lt
  pub eq_lt : (a b c : K) → sign (cmp a b) ≡ eq → sign (cmp b c) ≡ lt → sign (cmp a c) ≡ lt

-- the three answers of a comparison
pub data Compared (o : Ordering) : Type 0 where
  less : o ≡ lt → Compared o
  alike : o ≡ eq → Compared o
  more : o ≡ gt → Compared o

pub compared : (o : Ordering) → Compared o
compared lt = less refl
compared eq = alike refl
compared gt = more refl

module _ {K V : Type 0} (cmp : K → K → ℤ) where
  -- a value under a key takes the place of one, or its place in the order
  unfoldable pub list_put : K → V → List (K × V) → List (K × V)
  list_put key value [] = (key, value) ∷ []
  list_put key value ((k, v) ∷ xs) = elim (sign (cmp key k)) [
    | lt ↦ (key, value) ∷ (k, v) ∷ xs
    | eq ↦ (k, value) ∷ xs
    | gt ↦ (k, v) ∷ list_put key value xs
  ]

  unfoldable pub list_get : K → List (K × V) → Option V
  list_get key [] = none
  list_get key ((k, v) ∷ xs) = elim (sign (cmp key k)) [ eq ↦ some v | _ ↦ list_get key xs ]

  unfoldable pub list_remove : K → List (K × V) → List (K × V)
  list_remove key [] = []
  list_remove key ((k, v) ∷ xs) = elim (sign (cmp key k)) [
    | eq ↦ xs
    | _ ↦ (k, v) ∷ list_remove key xs
  ]

  -- every key of a list lies behind a key, or before one
  abbrev pub Behind : K → List (K × V) → Type 0
  Behind a [] = Unit
  Behind a ((k, v) ∷ xs) = (sign (cmp a k) ≡ lt) × Behind a xs

  abbrev pub Before : K → List (K × V) → Type 0
  Before a [] = Unit
  Before a ((k, v) ∷ xs) = (sign (cmp k a) ≡ lt) × Before a xs

  -- the keys of a list grow
  abbrev pub IsSorted : List (K × V) → Type 0
  IsSorted [] = Unit
  IsSorted ((k, v) ∷ xs) = Behind k xs × IsSorted xs

  module _ (order : IsWeakOrder cmp) where
    pub Behind-append :
        (a : K) (xs ys : List (K × V)) → Behind a (xs ++ ys) → Behind a xs × Behind a ys
    Behind-append a [] ys h = (tt, h)
    Behind-append a ((k, v) ∷ xs) ys (h, t) = let (p, q) = Behind-append a xs ys t in ((h, p), q)

    pub Behind-trans :
        (a b : K) (xs : List (K × V)) → sign (cmp a b) ≡ lt → Behind b xs → Behind a xs
    Behind-trans a b [] e h = tt
    Behind-trans a b ((k, v) ∷ xs) e (h, t) = (order.lt_trans a b k e h, Behind-trans a b xs e t)

    pub Behind-eq : (a b : K) (xs : List (K × V)) → sign (cmp a b) ≡ eq → Behind b xs → Behind a xs
    Behind-eq a b [] e h = tt
    Behind-eq a b ((k, v) ∷ xs) e (h, t) = (order.eq_lt a b k e h, Behind-eq a b xs e t)

    pub Before-trans :
        (a b : K) (xs : List (K × V)) → sign (cmp b a) ≡ lt → Before b xs → Before a xs
    Before-trans a b [] e h = tt
    Before-trans a b ((k, v) ∷ xs) e (h, t) = (order.lt_trans k b a h e, Before-trans a b xs e t)

    pub Before-eq : (a b : K) (xs : List (K × V)) → sign (cmp b a) ≡ eq → Before b xs → Before a xs
    Before-eq a b [] e h = tt
    Before-eq a b ((k, v) ∷ xs) e (h, t) = (order.lt_eq k b a h e, Before-eq a b xs e t)

    -- a sorted list, taken apart at a pair
    pub IsSorted-middle :
        (xs ys : List (K × V)) (k : K) (v : V)
        → IsSorted (xs ++ (k, v) ∷ ys)
        → Before k xs × Behind k ys × IsSorted xs × IsSorted ys
    IsSorted-middle [] ys k v (h, t) = (tt, h, tt, t)
    IsSorted-middle ((j, w) ∷ xs) ys k v (h, t) =
        let (a, b, c, d) = IsSorted-middle xs ys k v t in
        let (p, q) = Behind-append j xs ((k, v) ∷ ys) h in ((q.0, a), b, (p, c), d)

    -- the list operations on a list taken apart at a pair, by where the key lies
    pub list_put-lt :
        (key : K) (value : V) (xs ys : List (K × V)) (k : K) (v : V)
        → sign (cmp key k) ≡ lt
        → list_put key value (xs ++ (k, v) ∷ ys) ≡ list_put key value xs ++ (k, v) ∷ ys
    unfolding list_put
    list_put-lt key value [] ys k v h = ground arith
    list_put-lt key value ((j, w) ∷ xs) ys k v h = ground (arith, list_put-lt key value xs ys k v h)

    pub list_put-gt :
        (key : K) (value : V) (xs ys : List (K × V))
        → Before key xs
        → list_put key value (xs ++ ys) ≡ xs ++ list_put key value ys
    unfolding list_put
    list_put-gt key value [] ys h = refl
    list_put-gt key value ((j, w) ∷ xs) ys (h, t) =
        ground (arith, order.gt_of_lt j key h, list_put-gt key value xs ys t)

    pub list_get-gt :
        (key : K) (xs ys : List (K × V)) → Before key xs → list_get key (xs ++ ys) ≡ list_get key ys
    unfolding list_get
    list_get-gt key [] ys h = refl
    list_get-gt key ((j, w) ∷ xs) ys (h, t) =
        ground (arith, order.gt_of_lt j key h, list_get-gt key xs ys t)

    pub list_get-lt :
        (key : K) (xs ys : List (K × V)) → Behind key ys → list_get key (xs ++ ys) ≡ list_get key xs
    unfolding list_get
    list_get-lt key [] [] h = refl
    list_get-lt key [] ((j, w) ∷ ys) (h, t) = ground (arith, list_get-lt key [] ys t)
    list_get-lt key ((j, w) ∷ xs) ys h = ground (arith, list_get-lt key xs ys h)

    pub list_remove-gt :
        (key : K) (xs ys : List (K × V))
        → Before key xs
        → list_remove key (xs ++ ys) ≡ xs ++ list_remove key ys
    unfolding list_remove
    list_remove-gt key [] ys h = refl
    list_remove-gt key ((j, w) ∷ xs) ys (h, t) =
        ground (arith, order.gt_of_lt j key h, list_remove-gt key xs ys t)

    list_remove-none : (key : K) (ys : List (K × V)) → Behind key ys → list_remove key ys ≡ ys
    unfolding list_remove
    list_remove-none key [] h = refl
    list_remove-none key ((j, w) ∷ ys) (h, t) = ground (arith, list_remove-none key ys t)

    pub list_remove-lt :
        (key : K) (xs ys : List (K × V))
        → Behind key ys
        → list_remove key (xs ++ ys) ≡ list_remove key xs ++ ys
    unfolding list_remove
    list_remove-lt key [] ys h = list_remove-none key ys h
    list_remove-lt key ((j, w) ∷ xs) ys h = ground (arith, list_remove-lt key xs ys h)

    -- the order survives
    Behind-list_put :
        (a key : K) (value : V) (xs : List (K × V))
        → sign (cmp a key) ≡ lt
        → Behind a xs
        → Behind a (list_put key value xs)
    unfolding list_put
    Behind-list_put a key value [] e h = (e, tt)
    Behind-list_put a key value ((j, w) ∷ xs) e (h, t) =
        ground (arith, Behind-list_put a key value xs e t)

    pub list_put-IsSorted :
        (key : K) (value : V) (xs : List (K × V)) → IsSorted xs → IsSorted (list_put key value xs)
    unfolding list_put
    list_put-IsSorted key value [] s = (tt, tt)
    list_put-IsSorted key value ((j, w) ∷ xs) (h, t) = ground (
      arith,
      list_put-IsSorted key value xs t,
      Behind-trans key j xs,
      Behind-list_put j key value xs,
      order.lt_of_gt key j,
    )

    Behind-list_remove :
        (a key : K) (xs : List (K × V)) → Behind a xs → Behind a (list_remove key xs)
    unfolding list_remove
    Behind-list_remove a key [] h = tt
    Behind-list_remove a key ((j, w) ∷ xs) (h, t) = ground (arith, Behind-list_remove a key xs t)

    pub list_remove-IsSorted :
        (key : K) (xs : List (K × V)) → IsSorted xs → IsSorted (list_remove key xs)
    unfolding list_remove
    list_remove-IsSorted key [] s = tt
    list_remove-IsSorted key ((j, w) ∷ xs) (h, t) =
        ground (arith, list_remove-IsSorted key xs t, Behind-list_remove j key xs)
