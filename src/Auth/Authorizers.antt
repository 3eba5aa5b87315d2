-- ===== src/Auth/Authorizers.antt =====
-- auth/authorizer.go: whom the authorizers of roles and of permissions let through.
use mathlib.Core.List.{Memᴰ}
use mathlib.Core.List.Memᴰ.{head, tail}
use microservice_kit.Prelude.{
  ◌≡◌, refl, sym, ◌↔◌, ◌⊎◌, inl, inr, Bool, true, false, Option, none, some, List, [], ◌∷◌, arith,
  if◌then◌else◌, Bool-cases,
}
use microservice_kit.Auth.{
  Errors, Principal, SimpleAuthorizer, occurs, has_role, has_permission, has_any_role,
  has_all_roles, has_all_permissions, has_any_permission, authorize_roles, authorize_permissions,
}

module _ {Text : Type 0} where
  abbrev pub HoldsAll : List Text → List Text → Type 0
  HoldsAll required held = (x : Text) → Memᴰ x required → Memᴰ x held

  abbrev pub HoldsOne : List Text → List Text → Type 0
  HoldsOne required held = (x : Text) × Memᴰ x required × Memᴰ x held

  -- the required names against those that are held: all of them, or, unless none is required, one
  abbrev pub Grants : SimpleAuthorizer Text → List Text → Type 0
  Grants a held =
      if a.require_all
      then HoldsAll a.required held
      else ((a.required ≡ []) ⊎ HoldsOne a.required held)

module _ {Text : Type 0} (eq : Discrete Text) where
  pub Mem_of_occurs : (x : Text) (ys : List Text) → occurs eq x ys ≡ true → Memᴰ x ys
  unfolding occurs
  Mem_of_occurs x [] h = absurd (ground arith)
  Mem_of_occurs x (y ∷ ys) h = elim (eq y x) [
    | yes same ↦ head (sym same)
    | no other ↦ tail (Mem_of_occurs x ys (ground arith))
  ]

  pub occurs-Mem : (x : Text) (ys : List Text) → Memᴰ x ys → occurs eq x ys ≡ true
  unfolding occurs
  occurs-Mem x [] m = elim m [ ]
  occurs-Mem x (y ∷ ys) (head same) = ground arith
  occurs-Mem x (y ∷ ys) (tail m) = ground (arith, occurs-Mem x ys m)

  -- the two loops, over the names that are held
  all_occur : List Text → List Text → Bool
  all_occur held [] = true
  all_occur held (x ∷ xs) = if occurs eq x held then all_occur held xs else false

  any_occurs : List Text → List Text → Bool
  any_occurs held [] = false
  any_occurs held (x ∷ xs) = if occurs eq x held then true else any_occurs held xs

  HoldsAll-all_occur : (held xs : List Text) → all_occur held xs ≡ true → HoldsAll xs held
  unfolding all_occur
  HoldsAll-all_occur held [] h y m = elim m [ ]
  HoldsAll-all_occur held (x ∷ xs) h y (head same) = Mem_of_occurs y held (ground arith)
  HoldsAll-all_occur held (x ∷ xs) h y (tail m) = HoldsAll-all_occur held xs (ground arith) y m

  all_occur-HoldsAll : (held xs : List Text) → HoldsAll xs held → all_occur held xs ≡ true
  unfolding all_occur
  all_occur-HoldsAll held [] h = refl
  all_occur-HoldsAll held (x ∷ xs) h =
      ground (
        arith,
        occurs-Mem x held (h x (head refl)),
        all_occur-HoldsAll held xs (λ y m. h y (tail m)),
      )

  HoldsOne-any_occurs : (held xs : List Text) → any_occurs held xs ≡ true → HoldsOne xs held
  unfolding any_occurs
  HoldsOne-any_occurs held [] h = absurd (ground arith)
  HoldsOne-any_occurs held (x ∷ xs) h = elim (Bool-cases (occurs eq x held)) [
    | inl here ↦ (x, head refl, Mem_of_occurs x held here)
    | inr not_here ↦ let (y, m, n) = HoldsOne-any_occurs held xs (ground arith) in (y, tail m, n)
  ]

  any_occurs-Mem :
      (held xs : List Text) (x : Text) → Memᴰ x xs → Memᴰ x held → any_occurs held xs ≡ true
  unfolding any_occurs
  any_occurs-Mem held [] y m n = elim m [ ]
  any_occurs-Mem held (x ∷ xs) y (head same) n = ground (arith, occurs-Mem y held n)
  any_occurs-Mem held (x ∷ xs) y (tail m) n = ground (arith, any_occurs-Mem held xs y m n)

  module _ {Any : Type 0} (p : Principal Text Any) where
    roles_all : (xs : List Text) → has_all_roles eq p xs ≡ all_occur p.roles xs
    unfolding has_all_roles has_role all_occur
    roles_all [] = refl
    roles_all (x ∷ xs) = ground (arith, roles_all xs)

    roles_any : (xs : List Text) → has_any_role eq p xs ≡ any_occurs p.roles xs
    unfolding has_any_role has_role any_occurs
    roles_any [] = refl
    roles_any (x ∷ xs) = ground (arith, roles_any xs)

    permissions_all : (xs : List Text) → has_all_permissions eq p xs ≡ all_occur p.permissions xs
    unfolding has_all_permissions has_permission all_occur
    permissions_all [] = refl
    permissions_all (x ∷ xs) = ground (arith, permissions_all xs)

    permissions_any : (xs : List Text) → has_any_permission eq p xs ≡ any_occurs p.permissions xs
    unfolding has_any_permission has_permission any_occurs
    permissions_any [] = refl
    permissions_any (x ∷ xs) = ground (arith, permissions_any xs)

  -- what both authorizers test
  passes : Bool → List Text → List Text → Bool
  passes require_all [] held = true
  passes true (x ∷ xs) held = all_occur held (x ∷ xs)
  passes false (x ∷ xs) held = any_occurs held (x ∷ xs)

  passes-Grants :
      (require_all : Bool) (xs held : List Text)
      → (passes require_all xs held ≡ true)
        ↔ Grants (record { required = xs; require_all = require_all }) held
  unfolding passes
  passes-Grants true [] held = (λ _ x m. elim m [ ], λ _. refl)
  passes-Grants false [] held = (λ _. inl refl, λ _. refl)
  passes-Grants true (x ∷ xs) held =
      (HoldsAll-all_occur held (x ∷ xs), all_occur-HoldsAll held (x ∷ xs))
  passes-Grants false (x ∷ xs) held = (
    λ h. inr (HoldsOne-any_occurs held (x ∷ xs) h),
    λ g. elim g [
      | inl e ↦ absurd (ground arith)
      | inr (y, m, n) ↦ any_occurs-Mem held (x ∷ xs) y m n
    ],
  )

module _ {Text Err : Type 0} (eq : Discrete Text) (errors : Errors Err) where
  -- an authorizer's answer to a principal: access where it is granted, and else a refusal
  abbrev pub Decides : Option Err → Type 0 → Type 0
  Decides answer granted =
      ((answer ≡ none) × granted) ⊎ ((answer ≡ some errors.forbidden) × (¬ granted))

  Decides-passes :
      (a : SimpleAuthorizer Text) (held : List Text) (answer : Option Err)
      → answer ≡ (if passes eq a.require_all a.required held then none else some errors.forbidden)
      → Decides answer (Grants a held)
  Decides-passes a held answer e = elim (Bool-cases (passes eq a.require_all a.required held)) [
    | inl yes_ ↦ inl (ground arith, (passes-Grants eq a.require_all a.required held).0 yes_)
    | inr no_ ↦ inr (
      ground arith,
      λ g. absurd (ground (arith, (passes-Grants eq a.require_all a.required held).1 g)),
    )
  ]

module _ {Text Any Err : Type 0} (eq : Discrete Text) (errors : Errors Err) where
  roles-passes :
      (a : SimpleAuthorizer Text) (p : Principal Text Any)
      → authorize_roles eq errors a (some p)
        ≡ (if passes eq a.require_all a.required p.roles then none else some errors.forbidden)
  unfolding authorize_roles passes
  roles-passes a p = ground (arith, roles_all eq p a.required, roles_any eq p a.required)

  permissions-passes :
      (a : SimpleAuthorizer Text) (p : Principal Text Any)
      → authorize_permissions eq errors a (some p)
        ≡ (if passes eq a.require_all a.required p.permissions then none else some errors.forbidden)
  unfolding authorize_permissions passes
  permissions-passes a p =
      ground (arith, permissions_all eq p a.required, permissions_any eq p a.required)

  -- An authorizer of roles or of permissions refuses nil as not authenticated, lets a principal through
  -- exactly where what it holds grants the access, and forbids it otherwise.
  pub authorize-Decides :
      (a : SimpleAuthorizer Text) (p : Principal Text Any)
      → (authorize_roles {Any = Any} eq errors a none ≡ some errors.unauthenticated)
        × (authorize_permissions {Any = Any} eq errors a none ≡ some errors.unauthenticated)
        × Decides eq errors (authorize_roles eq errors a (some p)) (Grants a p.roles)
        × Decides eq errors (authorize_permissions eq errors a (some p)) (Grants a p.permissions)
  unfolding authorize_roles authorize_permissions
  authorize-Decides a p = (
    refl,
    refl,
    Decides-passes eq errors a p.roles (authorize_roles eq errors a (some p)) (roles-passes a p),
    Decides-passes eq errors a p.permissions (authorize_permissions eq errors a (some p))
        (permissions-passes a p),
  )
