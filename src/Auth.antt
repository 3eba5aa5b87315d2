-- ===== src/Auth.antt =====
-- auth: principals, the authorizers of roles and of permissions, the context, and the endpoint
-- middleware. A pointer is an Option, none is nil, and a dereference of nil panics. The errors of the
-- package and those of the other parties are one type `Err`. Logging calls are left out, but for the
-- dereference in one of them. Metadata, which the package stores and returns as it is, belongs to the
-- parameter `Any`.
pub mod Authorizers
pub mod Transport
pub mod Discovery
pub mod Skipping
pub mod Protection
pub mod Agreement
mod Tests
use microservice_kit.Prelude.{
  ℕ, ◌≡◌, Bool, true, false, ◌&&◌, ◌||◌, not, Option, none, some, List, [], ◌∷◌, if◌then◌else◌, ltb,
}

-- the fixed errors of the package, among all errors
pub record Errors (Err : Type 0) : Type 0 where
  pub unauthenticated : Err
  pub forbidden : Err
  pub credentials_not_found : Err

-- `Credentials` with its type as text
pub record Credentials (Text : Type 0) : Type 0 where
  pub type_of : Text
  pub token : Text

pub record Principal (Text Any : Type 0) : Type 0 where
  pub id : Text
  pub roles : List Text
  pub permissions : List Text
  pub metadata : Any
  pub expires_at : Option ℕ

-- A context, with the values that this package puts into it: a stored pointer may be nil. `method` is
-- what `grpc.Method` finds.
pub record Context (Text Any : Type 0) : Type 0 where
  pub principal : Option (Option (Principal Text Any))
  pub credentials : Option (Option (Credentials Text))
  pub method : Option Text

module _ {Text Any : Type 0} where
  -- `WithPrincipal` and `FromContext`
  unfoldable pub with_principal : Context Text Any → Option (Principal Text Any) → Context Text Any
  with_principal ctx p = record ctx { principal = some p }

  unfoldable pub from_context : Context Text Any → Option (Option (Principal Text Any))
  from_context ctx = ctx.principal

  -- `WithCredentials` and `CredentialsFromContext`
  unfoldable pub with_credentials : Context Text Any → Option (Credentials Text) → Context Text Any
  with_credentials ctx c = record ctx { credentials = some c }

  unfoldable pub credentials_from_context : Context Text Any → Option (Option (Credentials Text))
  credentials_from_context ctx = ctx.credentials

  -- `IsExpired` at a time
  unfoldable pub is_expired : ℕ → Principal Text Any → Bool
  is_expired now p = elim p.expires_at [ none ↦ false | some t ↦ ltb t now ]

-- the loops of `HasRole` and of `HasPermission`
unfoldable pub occurs : {Text : Type 0} → Discrete Text → Text → List Text → Bool
occurs eq x [] = false
occurs eq x (y ∷ ys) = elim (eq y x) [ yes _ ↦ true | no _ ↦ occurs eq x ys ]

module _ {Text Any : Type 0} (eq : Discrete Text) where
  unfoldable pub has_role : Principal Text Any → Text → Bool
  has_role p role = occurs eq role p.roles

  unfoldable pub has_permission : Principal Text Any → Text → Bool
  has_permission p permission = occurs eq permission p.permissions

  -- `HasAnyRole`
  unfoldable pub has_any_role : Principal Text Any → List Text → Bool
  has_any_role p [] = false
  has_any_role p (role ∷ roles) = if has_role p role then true else has_any_role p roles

  -- `HasAllRoles`
  unfoldable pub has_all_roles : Principal Text Any → List Text → Bool
  has_all_roles p [] = true
  has_all_roles p (role ∷ roles) = if has_role p role then has_all_roles p roles else false

  -- the loops of `PermissionAuthorizer.Authorize`
  unfoldable pub has_all_permissions : Principal Text Any → List Text → Bool
  has_all_permissions p [] = true
  has_all_permissions p (x ∷ xs) = if has_permission p x then has_all_permissions p xs else false

  unfoldable pub has_any_permission : Principal Text Any → List Text → Bool
  has_any_permission p [] = false
  has_any_permission p (x ∷ xs) = if has_permission p x then true else has_any_permission p xs

-- `RoleAuthorizer` and `PermissionAuthorizer`
pub record SimpleAuthorizer (Text : Type 0) : Type 0 where
  pub required : List Text
  pub require_all : Bool

module _ {Text Any Err : Type 0} (eq : Discrete Text) (errors : Errors Err) where
  unfoldable pub authorize_roles : SimpleAuthorizer Text → Option (Principal Text Any) → Option Err
  authorize_roles a none = some errors.unauthenticated
  authorize_roles a (some p) = elim a.required [
    | [] ↦ none
    | _ ∷ _ ↦
        if a.require_all
        then if has_all_roles eq p a.required then none else some errors.forbidden
        else if has_any_role eq p a.required
        then none
        else some errors.forbidden
  ]

  unfoldable pub authorize_permissions :
      SimpleAuthorizer Text → Option (Principal Text Any) → Option Err
  authorize_permissions a none = some errors.unauthenticated
  authorize_permissions a (some p) = elim a.required [
    | [] ↦ none
    | _ ∷ _ ↦
        if a.require_all
        then if has_all_permissions eq p a.required then none else some errors.forbidden
        else if has_any_permission eq p a.required
        then none
        else some errors.forbidden
  ]

-- `Option` values applied to `defaultOptions`. An authorizer gets the principal, the action and the
-- resource. Each of the callbacks may change the state of the world.
pub record Options (W Text Any Req Err : Type 0) : Type 0 where
  pub authorizer :
      Option (Context Text Any → Option (Principal Text Any) → Text → Text → W → Option Err × W)
  pub credentials_extractor :
      Option (Context Text Any → Req → W → Option (Credentials Text) × Option Err × W)
  pub skipper : Option (Context Text Any → Req → W → Bool × W)
  pub error_handler : Option (Context Text Any → Err → W → Option Err × W)
  pub has_logger : Bool

-- `Authenticator`: a principal or an error, in the state of the world
abbrev pub Authenticator : Type 0 → Type 0 → Type 0 → Type 0 → Type 0
Authenticator W Text Any Err =
    Context Text Any → Credentials Text → W → Option (Principal Text Any) × Option Err × W

pub data Outcome (A : Type 0) : Type 0 where
  panicked : Outcome A
  returned : A → Outcome A

module _ {W Text Any Req Err : Type 0} (o : Options W Text Any Req Err) where
  unfoldable pub is_skipped : Context Text Any → Req → W → Bool × W
  is_skipped ctx req w = elim o.skipper [ none ↦ (false, w) | some f ↦ f ctx req w ]

  -- `handleError`
  unfoldable pub handle_error : Context Text Any → Err → W → Option Err × W
  handle_error ctx err w = elim o.error_handler [ none ↦ (some err, w) | some f ↦ f ctx err w ]

  -- an answer without a response, and with the error that `handleError` returns
  unfoldable pub deny :
      {Resp : Type 0} → Context Text Any → Err → W → (Option Resp × Option Err) × W
  deny ctx err w = let (err₁, w₁) = handle_error ctx err w in ((none, err₁), w₁)

  -- what the authorizer says, if there is one
  unfoldable pub refusal :
      Context Text Any → Option (Principal Text Any) → Text → Text → W → Option Err × W
  refusal ctx p action resource w = elim o.authorizer [
    | none ↦ (none, w)
    | some f ↦ f ctx p action resource w
  ]

  -- the logging of a refusal dereferences the principal
  unfoldable pub log_refusal :
      {A : Type 0} → Option (Principal Text Any) → (W → A × W) → W → Outcome A × W
  log_refusal none reply w =
      if o.has_logger then (panicked, w) else (returned (reply w).0, (reply w).1)
  log_refusal (some _) reply w = (returned (reply w).0, (reply w).1)

module _ {W Text Any Req Err : Type 0} (errors : Errors Err) (o : Options W Text Any Req Err)
    (provided : Req → Option (Option (Credentials Text))) where
  -- `extractCredentials`; `provided` is the method `Credentials` of a request that has it
  unfoldable pub extract_credentials :
      Context Text Any → Req → W → Option (Credentials Text) × Option Err × W
  extract_credentials ctx req w = elim o.credentials_extractor [
    | some f ↦ f ctx req w
    | none ↦ elim (credentials_from_context ctx) [
      | some c ↦ (c, none, w)
      | none ↦ elim (provided req) [
        | some c ↦ (c, none, w)
        | none ↦ (none, some errors.credentials_not_found, w)
      ]
    ]
  ]

module _ {W Text Any Req Resp Err : Type 0} (errors : Errors Err) (no_text : Text)
    (o : Options W Text Any Req Err) (authenticate : Authenticator W Text Any Err)
    (provided : Req → Option (Option (Credentials Text)))
    (next : Context Text Any → Req → W → Option Resp × Option Err × W) where
  -- the endpoint that `Middleware` makes
  unfoldable pub middleware : Context Text Any → Req → W → Outcome (Option Resp × Option Err) × W
  middleware ctx req w =
      let (skipped, w₀) = is_skipped o ctx req w in
      if skipped
      then (let (resp, err, w₁) = next ctx req w₀ in (returned (resp, err), w₁))
      else (let (creds, err, w₁) = extract_credentials errors o provided ctx req w₀ in
          elim err [
            | some _ ↦
                let (reply, w₂) = deny o ctx errors.credentials_not_found w₁ in (returned reply, w₂)
            | none ↦ elim creds [
              | none ↦ (panicked, w₁)
              | some c ↦
                  let (p, err, w₂) = authenticate ctx c w₁ in
                  elim err [
                    | some e ↦ let (reply, w₃) = deny o ctx e w₂ in (returned reply, w₃)
                    | none ↦
                        let ctx₁ = with_principal ctx p in
                        let (refused, w₃) = refusal o ctx₁ p no_text no_text w₂ in
                        elim refused [
                          | some e ↦ log_refusal o p (deny o ctx₁ e) w₃
                          | none ↦
                              let (resp, err, w₄) = next ctx₁ req w₃ in (returned (resp, err), w₄)
                        ]
                  ]
            ]
          ])

-- `RequireRoles` and `RequirePermissions`: their authorizer comes behind the other options
module _ {W Text Any Req Err : Type 0} (eq : Discrete Text) (errors : Errors Err) where
  unfoldable pub require_roles : List Text → Options W Text Any Req Err → Options W Text Any Req Err
  require_roles roles o = record o {
    authorizer = some (λ _ p _ _ w.
        (authorize_roles eq errors (record { required = roles; require_all = false }) p, w));
  }

  unfoldable pub require_permissions :
      List Text → Options W Text Any Req Err → Options W Text Any Req Err
  require_permissions permissions o = record o {
    authorizer = some (λ _ p _ _ w. (
      authorize_permissions eq errors (record { required = permissions; require_all = false }) p,
      w,
    ));
  }
