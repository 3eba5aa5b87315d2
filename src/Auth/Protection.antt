-- ===== src/Auth/Protection.antt =====
-- auth/middleware.go: what reaches the endpoint behind `RequireRoles` and `RequirePermissions`.
use microservice_kit.Prelude.{
  ◌≡◌, ◌≢◌, inl, inr, true, false, Bool, ◌⊎◌, ◌∙◌, ap, Option, none, some, List, [], arith,
  Option-cases, subst,
}
use microservice_kit.Auth.{
  Errors, Credentials, Principal, Context, Options, Authenticator, with_principal, is_skipped,
  handle_error, deny, log_refusal, refusal, extract_credentials, middleware, require_roles,
  require_permissions, authorize_roles, authorize_permissions,
}
use microservice_kit.Auth.Authorizers.{HoldsOne, Grants, Decides, authorize-Decides}

-- the skipper, the extractor and the error handler of the options keep a property of the world
pub record KeptByOptions {W Text Any Req Err : Type 0} (errors : Errors Err)
    (o : Options W Text Any Req Err) (provided : Req → Option (Option (Credentials Text)))
    (P : W → Type 0) : Type 0 where
  pub skipper : (ctx : Context Text Any) (req : Req) (w : W) → P w → P (is_skipped o ctx req w).1
  pub extractor :
      (ctx : Context Text Any) (req : Req) (w : W)
      → P w
      → P (extract_credentials errors o provided ctx req w).2
  pub error_handler :
      (ctx : Context Text Any) (e : Err) (w : W) → P w → P (handle_error o ctx e w).1

-- the two ways in which the logging of a refusal ends
Refused :
    {A : Type 0} (p : Option A) (logs : Bool)
    → ((p ≡ none) × (logs ≡ true)) ⊎ ((p ≢ none) ⊎ (logs ≡ false))
Refused p logs = ground arith

module _ {W Text Any Req Resp Err : Type 0} (errors : Errors Err) (no_text : Text)
    (authenticate : Authenticator W Text Any Err)
    (provided : Req → Option (Option (Credentials Text)))
    (next : Context Text Any → Req → W → Option Resp × Option Err × W) where
  -- A property of the world that the authenticator and the callbacks of the options keep, and that the
  -- endpoint keeps for a principal that is authenticated and to whom the authorizer has no objection,
  -- survives a checked request.
  guarded :
      (o : Options W Text Any Req Err) (P : W → Type 0) (ctx : Context Text Any) (req : Req) (w : W)
      → (is_skipped o ctx req w).0 ≡ false
      → KeptByOptions errors o provided P
      → ((p : Option (Principal Text Any)) (v : W)
          → P v
          → P (refusal o (with_principal ctx p) p no_text no_text v).1)
      → ((c : Credentials Text) (v : W) → P v → P (authenticate ctx c v).2)
      → ((p : Option (Principal Text Any)) (c : Credentials Text) (w₁ w₂ w₃ : W)
          → authenticate ctx c w₁ ≡ (p, none, w₂)
          → refusal o (with_principal ctx p) p no_text no_text w₂ ≡ (none, w₃)
          → P w₃
          → P (next (with_principal ctx p) req w₃).2)
      → P w
      → P (middleware errors no_text o authenticate provided next ctx req w).1
  unfolding middleware deny log_refusal
  guarded o P ctx req w checked kept asked auth keep h =
      let w₀ = (is_skipped o ctx req w).1 in
      let h₀ = kept.skipper ctx req w h in
      let creds = extract_credentials errors o provided ctx req w₀ in
      let h₁ = kept.extractor ctx req w₀ h₀ in
      let final = (middleware errors no_text o authenticate provided next ctx req w).1 in
      elim (Option-cases creds.1) [
        | inr (e, failed) ↦
            let x = errors.credentials_not_found in
            subst P (let q : (handle_error o ctx x creds.2).1 ≡ final = ground arith in q)
              (kept.error_handler ctx x creds.2 h₁)
        | inl found ↦ elim (Option-cases creds.0) [
          | inl nil_ ↦ subst P (let q : creds.2 ≡ final = ground arith in q) h₁
          | inr (c, got) ↦
              let (p, err, w₂) = authenticate ctx c creds.2 in
              let h₂ = auth c creds.2 h₁ in
              elim (Option-cases err) [
                | inr (e, failed) ↦
                    subst P (let q : (handle_error o ctx e w₂).1 ≡ final = ground arith in q)
                      (kept.error_handler ctx e w₂ h₂)
                | inl ok ↦
                    let ctx₁ = with_principal ctx p in
                    let (refused, w₃) = refusal o ctx₁ p no_text no_text w₂ in
                    let h₃ = asked p w₂ h₂ in
                    elim (Option-cases refused) [
                      | inr (e, bad) ↦ elim (Refused p o.has_logger) [
                        | inl (q₀, q₁) ↦ subst P (let q : w₃ ≡ final = ground arith in q) h₃
                        | inr ok₁ ↦
                            subst P
                              (let q : (handle_error o ctx₁ e w₃).1 ≡ final = ground arith in q)
                              (kept.error_handler ctx₁ e w₃ h₃)
                      ]
                      | inl passed ↦
                          subst P (let q : (next ctx₁ req w₃).2 ≡ final = ground arith in q) (
                            keep p c creds.2 w₂ w₃ (ground (arith, ok)) (ground (arith, passed)) h₃)
                    ]
              ]
        ]
      ]

module _ {W Text Any Req Resp Err : Type 0} (authenticate : Authenticator W Text Any Err)
    (next : Context Text Any → Req → W → Option Resp × Option Err × W) where
  -- the endpoint keeps the property for a principal that the authenticator gives, and that holds one of
  -- the names
  abbrev pub KeepsHeld :
      (W → Type 0) → Context Text Any → Req → List Text → (Principal Text Any → List Text) → Type 0
  KeepsHeld P ctx req names held =
      (p : Principal Text Any) (c : Credentials Text) (w₁ w₂ : W)
      → authenticate ctx c w₁ ≡ (some p, none, w₂)
      → HoldsOne names (held p)
      → P w₂
      → P (next (with_principal ctx (some p)) req w₂).2

module _ {W Text Any Req Resp Err : Type 0} (eq : Discrete Text) (errors : Errors Err)
    (no_text : Text) (authenticate : Authenticator W Text Any Err)
    (provided : Req → Option (Option (Credentials Text)))
    (next : Context Text Any → Req → W → Option Resp × Option Err × W) where
  held_one :
      (names held : List Text) (answer : Option Err)
      → Decides eq errors answer (Grants (record { required = names; require_all = false }) held)
      → names ≢ []
      → answer ≡ none
      → HoldsOne names held
  held_one names held answer d ne passed = elim d [
    | inl (_, inl empty) ↦ absurd (ne empty)
    | inl (_, inr one) ↦ one
    | inr (refused, _) ↦ absurd (ground arith)
  ]

  roles_kept :
      (names : List Text) (P : W → Type 0) (ctx : Context Text Any) (req : Req)
      → names ≢ []
      → KeepsHeld authenticate next P ctx req names (λ p. p.roles)
      → (p : Option (Principal Text Any)) (c : Credentials Text) (w₁ w₂ : W)
      → authenticate ctx c w₁ ≡ (p, none, w₂)
      → authorize_roles eq errors (record { required = names; require_all = false }) p ≡ none
      → P w₂
      → P (next (with_principal ctx p) req w₂).2
  unfolding authorize_roles
  roles_kept names P ctx req ne keep none c w₁ w₂ ran passed before = absurd (ground arith)
  roles_kept names P ctx req ne keep (some p) c w₁ w₂ ran passed before =
      let d = authorize-Decides eq errors (record { required = names; require_all = false }) p in
      keep p c w₁ w₂ ran
        (held_one names p.roles
          (authorize_roles eq errors (record { required = names; require_all = false }) (some p))
          d.2 ne passed)
        before

  permissions_kept :
      (names : List Text) (P : W → Type 0) (ctx : Context Text Any) (req : Req)
      → names ≢ []
      → KeepsHeld authenticate next P ctx req names (λ p. p.permissions)
      → (p : Option (Principal Text Any)) (c : Credentials Text) (w₁ w₂ : W)
      → authenticate ctx c w₁ ≡ (p, none, w₂)
      → authorize_permissions eq errors (record { required = names; require_all = false }) p ≡ none
      → P w₂
      → P (next (with_principal ctx p) req w₂).2
  unfolding authorize_permissions
  permissions_kept names P ctx req ne keep none c w₁ w₂ ran passed before = absurd (ground arith)
  permissions_kept names P ctx req ne keep (some p) c w₁ w₂ ran passed before =
      let d = authorize-Decides eq errors (record { required = names; require_all = false }) p in
      keep p c w₁ w₂ ran
        (held_one names p.permissions
          (authorize_permissions eq errors (record { required = names; require_all = false })
            (some p))
          d.3 ne passed)
        before

  -- Behind `RequireRoles` and `RequirePermissions`, with a name required, a request that is not skipped
  -- keeps each property of the world that the authenticator, the skipper, the extractor and the error
  -- handler keep, and that the endpoint keeps for an authenticated principal with one of the roles, or of
  -- the permissions.
  pub require-protects :
      (names : List Text) (o : Options W Text Any Req Err) (P : W → Type 0) (ctx : Context Text Any)
      (req : Req) (w : W)
      → names ≢ []
      → (is_skipped o ctx req w).0 ≡ false
      → KeptByOptions errors o provided P
      → ((c : Credentials Text) (v : W) → P v → P (authenticate ctx c v).2)
      → KeepsHeld authenticate next P ctx req names (λ p. p.roles)
      → KeepsHeld authenticate next P ctx req names (λ p. p.permissions)
      → P w
      → P
          (middleware errors no_text
            (require_roles eq errors names o)
            authenticate
            provided
            next
            ctx
            req
            w).1
        × P
            (middleware errors no_text
              (require_permissions eq errors names o)
              authenticate
              provided
              next
              ctx
              req
              w).1
  unfolding require_roles require_permissions refusal is_skipped extract_credentials handle_error
  require-protects names o P ctx req w ne checked kept auth role permission h = (
    guarded errors no_text authenticate provided next (require_roles eq errors names o) P ctx req w
        checked
        (record {
          skipper = kept.skipper;
          extractor = kept.extractor;
          error_handler = kept.error_handler;
        })
        (λ p v h. h) auth
        (λ p c w₁ w₂ w₃ ran passed k.
          let e : w₂ ≡ w₃ = ground (arith, passed) in
          roles_kept names P ctx req ne role p c w₁ w₃ (ran ∙ ap (λ v. (p, none, v)) e)
            (ground (arith, passed)) k)
        h,
    guarded errors no_text authenticate provided next (require_permissions eq errors names o) P ctx
        req w checked
        (record {
          skipper = kept.skipper;
          extractor = kept.extractor;
          error_handler = kept.error_handler;
        })
        (λ p v h. h) auth
        (λ p c w₁ w₂ w₃ ran passed k.
          let e : w₂ ≡ w₃ = ground (arith, passed) in
          permissions_kept names P ctx req ne permission p c w₁ w₃ (ran ∙ ap (λ v. (p, none, v)) e)
            (ground (arith, passed)) k)
        h,
  )
