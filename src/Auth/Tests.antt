-- ===== src/Auth/Tests.antt =====
-- Runs of the checks over numbers for texts, and the theorems on them at these.
use native.Mathlib.Decide.{ℕ_discrete}
use mathlib.Core.List.Memᴰ.{head, tail}
use microservice_kit.Prelude.{
  ℕ, ◌+◌, ◌*◌, ◌≡◌, ◌≢◌, refl, ◌↔◌, true, false, ◌||◌, Option, none, some, List, [], ◌∷◌, arith,
  if◌then◌else◌, ◌==◌,
}
use microservice_kit.Auth.{
  Errors, Credentials, Principal, Context, Options, Authenticator, returned, SimpleAuthorizer,
  occurs, has_role, has_permission, from_context, with_principal, middleware, is_skipped,
  require_roles, require_permissions, authorize_roles, authorize_permissions, refusal, log_refusal,
  handle_error, deny, extract_credentials, credentials_from_context, has_any_role,
}
use microservice_kit.Auth.Authorizers.{Grants, Decides, authorize-Decides, occurs-Mem, HoldsOne}
use microservice_kit.Auth.Protection.{require-protects, KeepsHeld, KeptByOptions}
use microservice_kit.Auth.Transport.{
  http_middleware, unary_interceptor, stream_interceptor, extract_or_default,
}
use microservice_kit.Auth.Agreement.{interceptors-agree, map_outcome, status_of, without_response}
use microservice_kit.Auth.Discovery.{ServiceDescriptor, build_skipper, discover_from_server}
use microservice_kit.Auth.Skipping.{IsPublic, build_skipper-IsPublic}

abbrev errors : Errors ℕ
errors = record { unauthenticated = 401; forbidden = 403; credentials_not_found = 400 }

-- a principal with the token as its only role, and as its only permission
abbrev authenticate : Authenticator ℕ ℕ ℕ ℕ
authenticate ctx c w = if c.token == 0 then (none, some 500, w) else (
  some (record {
    id = 9;
    roles = c.token ∷ [];
    permissions = c.token ∷ [];
    metadata = 0;
    expires_at = none;
  }),
  none,
  w,
)

abbrev context : Context ℕ ℕ
context = record {
  principal = none;
  credentials = some (some (record { type_of = 0; token = 1 }));
  method = none;
}

abbrev options : Options ℕ ℕ ℕ ℕ ℕ
options = record {
  authorizer = none;
  credentials_extractor = none;
  skipper = none;
  error_handler = none;
  has_logger = true;
}

-- it counts the requests of principals that hold the name 1 in no way
abbrev endpoint : Context ℕ ℕ → ℕ → ℕ → Option ℕ × Option ℕ × ℕ
endpoint ctx req w = elim (from_context ctx) [
  | none ↦ (none, none, w + 1)
  | some none ↦ (none, none, w + 1)
  | some (some p) ↦ (
    some req,
    none,
    if has_role ℕ_discrete p 1 || has_permission ℕ_discrete p 1 then w else w + 1,
  )
]

abbrev provided : ℕ → Option (Option (Credentials ℕ))
provided req = none

served_role :
    (middleware errors 0
      (require_roles ℕ_discrete errors (1 ∷ []) options)
      authenticate
      provided
      endpoint
      context
      5
      0).0
    ≡ returned (some 5, none)
unfolding middleware require_roles authorize_roles ℕ_discrete is_skipped extract_credentials
    credentials_from_context refusal has_any_role has_role occurs from_context with_principal
served_role = refl

forbidden_role :
    (middleware errors 0
      (require_roles ℕ_discrete errors (2 ∷ []) options)
      authenticate
      provided
      endpoint
      context
      5
      0).0
    ≡ returned (none, some 403)
unfolding middleware require_roles authorize_roles ℕ_discrete is_skipped extract_credentials
    credentials_from_context refusal has_any_role has_role occurs log_refusal handle_error deny
forbidden_role = refl

abbrev admin : Principal ℕ ℕ
admin = record { id = 1; roles = 2 ∷ 1 ∷ []; permissions = []; metadata = 0; expires_at = none }

abbrev one_of_two : SimpleAuthorizer ℕ
one_of_two = record { required = 1 ∷ 3 ∷ []; require_all = false }

authorize-Decides_example :
    (authorize_roles {Any = ℕ} ℕ_discrete errors one_of_two none ≡ some 401)
    × (authorize_permissions {Any = ℕ} ℕ_discrete errors one_of_two none ≡ some 401)
    × Decides ℕ_discrete errors
        (authorize_roles ℕ_discrete errors one_of_two (some admin))
        (Grants one_of_two (2 ∷ 1 ∷ []))
    × Decides ℕ_discrete errors
        (authorize_permissions ℕ_discrete errors one_of_two (some admin))
        (Grants one_of_two [])
authorize-Decides_example = authorize-Decides ℕ_discrete errors one_of_two admin

abbrev ones : List ℕ
ones = 1 ∷ []

abbrev IsZero : ℕ → Type 0
IsZero w = w ≡ 0

one_ne_nil : ones ≢ []
one_ne_nil h = ground arith

occurs_of_HoldsOne : (held : List ℕ) → HoldsOne (1 ∷ []) held → occurs ℕ_discrete 1 held ≡ true
occurs_of_HoldsOne held (x, head same, m) = ground (arith, occurs-Mem ℕ_discrete x held m)
occurs_of_HoldsOne held (x, tail rest, m) = elim rest [ ]

keeps_roles : KeepsHeld authenticate endpoint IsZero context 5 (1 ∷ []) (λ p. p.roles)
unfolding has_role from_context with_principal
keeps_roles p c w₁ w₂ ran held before = ground (arith, occurs_of_HoldsOne p.roles held)

keeps_permissions : KeepsHeld authenticate endpoint IsZero context 5 (1 ∷ []) (λ p. p.permissions)
unfolding has_permission from_context with_principal
keeps_permissions p c w₁ w₂ ran held before = ground (arith, occurs_of_HoldsOne p.permissions held)

authenticate-IsZero : (c : Credentials ℕ) (w : ℕ) → IsZero w → IsZero (authenticate context c w).2
authenticate-IsZero c w h = ground arith

options-Kept : KeptByOptions errors options provided IsZero
unfolding is_skipped extract_credentials credentials_from_context handle_error
options-Kept = record {
  skipper = λ ctx req w h. h;
  extractor = λ ctx req w h. ground arith;
  error_handler = λ ctx e w h. h;
}

require-protects_example :
    IsZero
      (middleware errors 0
        (require_roles ℕ_discrete errors (1 ∷ []) options)
        authenticate
        provided
        endpoint
        context
        5
        0).1
    × IsZero
        (middleware errors 0
          (require_permissions ℕ_discrete errors (1 ∷ []) options)
          authenticate
          provided
          endpoint
          context
          5
          0).1
unfolding is_skipped
require-protects_example =
    require-protects ℕ_discrete errors 0 authenticate provided endpoint (1 ∷ []) options IsZero
      context 5 0 one_ne_nil refl options-Kept authenticate-IsZero keeps_roles keeps_permissions
      refl

abbrev extract : Context ℕ ℕ → ℕ → ℕ → Option (Credentials ℕ) × Option ℕ × ℕ
extract ctx req w = (some (record { type_of = 0; token = 1 }), none, w)

interceptors-agree_example :
    (http_middleware 0 options extract authenticate (λ c r v. (endpoint c r v).2) 7 context 1 0 ≡ (
      map_outcome status_of
          (unary_interceptor 0 options extract authenticate endpoint 7 context 1 0).0,
      (unary_interceptor 0 options extract authenticate endpoint 7 context 1 0).1,
    ))
    × (stream_interceptor 0 options extract authenticate
          (λ c v. ((endpoint c 1 v).1, (endpoint c 1 v).2))
          0
          7
          context
          0
        ≡ (
          map_outcome without_response
              (unary_interceptor 0 options extract authenticate endpoint 7 context 1 0).0,
          (unary_interceptor 0 options extract authenticate endpoint 7 context 1 0).1,
        ))
unfolding is_skipped extract_or_default
interceptors-agree_example =
    interceptors-agree 0 options extract authenticate endpoint 7 context 1 0 0 refl (λ v. refl)

-- service 1 is public, but for its method 3
abbrev find : ℕ → Option (ServiceDescriptor ℕ)
find service =
    if service == 1
    then some (record {
      service_options = some (true, []);
      methods = λ m.
          if m == 3
          then some
              (some (record { public = false; permissions = 8 ∷ []; all_permissions = false }))
          else some none;
    })
    else none

abbrev full_name : ℕ → ℕ → ℕ
full_name s m = s * 10 + m

abbrev services : List (ℕ × List ℕ)
services = (1, 2 ∷ 3 ∷ []) ∷ (4, 5 ∷ []) ∷ []

build_skipper-IsPublic_example :
    (build_skipper ℕ_discrete full_name find
        (discover_from_server ℕ_discrete full_name find services)
        none
      ≡ false)
    × ((build_skipper ℕ_discrete full_name find
            (discover_from_server ℕ_discrete full_name find services)
            (some 12)
          ≡ true)
        ↔ IsPublic ℕ_discrete full_name find services 12)
build_skipper-IsPublic_example = build_skipper-IsPublic ℕ_discrete full_name find services 12
