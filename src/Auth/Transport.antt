-- ===== src/Auth/Transport.antt =====
-- auth/http.go and auth/grpc.go: the middleware of HTTP and the interceptors of gRPC, with the functions
-- that take credentials out of a request.
use microservice_kit.Prelude.{
  Bool, true, false, ◌&&◌, ◌||◌, not, Option, none, some, List, [], ◌∷◌, if◌then◌else◌,
}
use microservice_kit.Auth.{
  Credentials, Context, Options, Authenticator, Outcome, panicked, returned, Errors, with_principal,
  is_skipped, refusal, log_refusal, occurs,
}

-- Go's functions on strings, and the constants of the package
pub record Strings (Text : Type 0) : Type 0 where
  pub same : Discrete Text
  pub empty : Text
  pub bearer : Text
  pub api_key : Text
  -- `BearerPrefix`, and the prefix "bearer "
  pub bearer_prefix : Text
  pub lower_prefix : Text
  pub has_prefix : Text → Text → Bool
  pub trim_prefix : Text → Text → Text
  pub to_lower : Text → Text
  -- `auth[7:]`
  pub from_seventh : Text → Text

-- the parts of a `*http.Request` that the package reads; an absent header or parameter is empty
pub record HttpRequest (Text : Type 0) : Type 0 where
  pub authorization : Text
  pub api_key_header : Text
  pub access_token : Text
  pub path : Text

module _ {Text Err : Type 0} (strings : Strings Text) (errors : Errors Err) where
  unfoldable pub is_empty : Text → Bool
  is_empty t = elim (strings.same t strings.empty) [ yes _ ↦ true | no _ ↦ false ]

  unfoldable pub credentials_of : Text → Text → Option (Credentials Text) × Option Err
  credentials_of type_of token = (some (record { type_of = type_of; token = token }), none)

  unfoldable pub not_found : Option (Credentials Text) × Option Err
  not_found = (none, some errors.credentials_not_found)

  -- `DefaultHTTPCredentialsExtractor`
  unfoldable pub default_http_extractor : HttpRequest Text → Option (Credentials Text) × Option Err
  default_http_extractor r =
      if not (is_empty r.authorization) && strings.has_prefix r.authorization strings.bearer_prefix
      then credentials_of strings.bearer (strings.trim_prefix r.authorization strings.bearer_prefix)
      else if not (is_empty r.api_key_header)
      then credentials_of strings.api_key r.api_key_header
      else if not (is_empty r.access_token)
      then credentials_of strings.bearer r.access_token
      else not_found

  -- `BearerExtractor`
  unfoldable pub bearer_extractor : HttpRequest Text → Option (Credentials Text) × Option Err
  bearer_extractor r =
      if is_empty r.authorization || not (strings.has_prefix r.authorization strings.bearer_prefix)
      then not_found
      else credentials_of strings.bearer (strings.trim_prefix r.authorization strings.bearer_prefix)

  -- `DefaultGRPCCredentialsExtractor` on the values of the two metadata keys; none is a context without
  -- metadata
  unfoldable pub default_grpc_extractor :
      Option (List Text × List Text) → Option (Credentials Text) × Option Err
  default_grpc_extractor none = not_found
  default_grpc_extractor (some (authorization, api_keys)) =
      let fallback : Option (Credentials Text) × Option Err = elim api_keys [
        | [] ↦ not_found
        | key ∷ _ ↦ credentials_of strings.api_key key
      ] in
      elim authorization [
        | [] ↦ fallback
        | auth ∷ _ ↦
            if strings.has_prefix auth strings.bearer_prefix
            then credentials_of strings.bearer (strings.trim_prefix auth strings.bearer_prefix)
            else if strings.has_prefix (strings.to_lower auth) strings.lower_prefix
            then credentials_of strings.bearer (strings.from_seventh auth)
            else fallback
      ]

  -- `GRPCBearerExtractor`
  unfoldable pub grpc_bearer_extractor :
      Option (List Text × List Text) → Option (Credentials Text) × Option Err
  grpc_bearer_extractor none = not_found
  grpc_bearer_extractor (some ([], _)) = not_found
  grpc_bearer_extractor (some (auth ∷ _, _)) =
      if not (strings.has_prefix auth strings.bearer_prefix)
        && not (strings.has_prefix (strings.to_lower auth) strings.lower_prefix)
      then not_found
      else credentials_of strings.bearer (
          if strings.has_prefix (strings.to_lower auth) strings.lower_prefix
          then strings.from_seventh auth
          else strings.trim_prefix auth strings.bearer_prefix)

-- the paths or the methods that are not checked
unfoldable pub skip_listed : {Text : Type 0} → Discrete Text → List Text → Option Text → Bool
skip_listed eq listed none = false
skip_listed eq listed (some x) = occurs eq x listed

-- the status that the middleware of HTTP writes, or the handler behind it has answered
pub data HttpReply : Type 0 where
  served unauthorized_401 forbidden_403 : HttpReply

-- the status that an interceptor returns, or the results of the handler
pub data GrpcReply (Resp Err : Type 0) : Type 0 where
  handled : Option Resp → Option Err → GrpcReply Resp Err
  unauthenticated_code permission_denied_code : GrpcReply Resp Err

module _ {W Text Any Req Err : Type 0} (no_text : Text) (o : Options W Text Any Req Err)
    (extract : Context Text Any → Req → W → Option (Credentials Text) × Option Err × W)
    (authenticate : Authenticator W Text Any Err) where
  -- the extractor of the options, or else the default of the protocol
  unfoldable pub extract_or_default :
      Context Text Any → Req → W → Option (Credentials Text) × Option Err × W
  extract_or_default ctx req w = elim o.credentials_extractor [
    | none ↦ extract ctx req w
    | some f ↦ f ctx req w
  ]

  -- the handler that `HTTPMiddleware` makes, at the path of the request
  unfoldable pub http_middleware :
      (Context Text Any → Req → W → W) → Text → Context Text Any → Req → W → Outcome HttpReply × W
  http_middleware next path ctx req w =
      let (skipped, w₀) = is_skipped o ctx req w in
      if skipped
      then (returned served, next ctx req w₀)
      else (let (creds, err, w₁) = extract_or_default ctx req w₀ in
          elim err [
            | some _ ↦ (returned unauthorized_401, w₁)
            | none ↦ elim creds [
              | none ↦ (panicked, w₁)
              | some c ↦
                  let (p, err, w₂) = authenticate ctx c w₁ in
                  elim err [
                    | some _ ↦ (returned unauthorized_401, w₂)
                    | none ↦
                        let ctx₁ = with_principal ctx p in
                        let (refused, w₃) = refusal o ctx₁ p no_text path w₂ in
                        elim refused [
                          | some _ ↦ log_refusal o p (λ v. (forbidden_403, v)) w₃
                          | none ↦ (returned served, next ctx₁ req w₃)
                        ]
                  ]
            ]
          ])

  -- the interceptor that `UnaryServerInterceptor` makes, at the full name of the method
  unfoldable pub unary_interceptor :
      {Resp : Type 0}
      → (Context Text Any → Req → W → Option Resp × Option Err × W)
      → Text
      → Context Text Any
      → Req
      → W
      → Outcome (GrpcReply Resp Err) × W
  unary_interceptor handler method ctx req w =
      let (skipped, w₀) = is_skipped o ctx req w in
      if skipped
      then (let (resp, err, w₁) = handler ctx req w₀ in (returned (handled resp err), w₁))
      else (let (creds, err, w₁) = extract_or_default ctx req w₀ in
          elim err [
            | some _ ↦ (returned unauthenticated_code, w₁)
            | none ↦ elim creds [
              | none ↦ (panicked, w₁)
              | some c ↦
                  let (p, err, w₂) = authenticate ctx c w₁ in
                  elim err [
                    | some _ ↦ (returned unauthenticated_code, w₂)
                    | none ↦
                        let ctx₁ = with_principal ctx p in
                        let (refused, w₃) = refusal o ctx₁ p no_text method w₂ in
                        elim refused [
                          | some _ ↦ log_refusal o p (λ v. (permission_denied_code, v)) w₃
                          | none ↦
                              let (resp, err, w₄) = handler ctx₁ req w₃ in
                              (returned (handled resp err), w₄)
                        ]
                  ]
            ]
          ])

  -- the interceptor that `StreamServerInterceptor` makes: the options get nil for the request, and the
  -- handler the stream with the new context
  unfoldable pub stream_interceptor :
      (Context Text Any → W → Option Err × W)
      → Req
      → Text
      → Context Text Any
      → W
      → Outcome (GrpcReply (Unit {0}) Err) × W
  stream_interceptor handler nil_req method ctx w =
      let (skipped, w₀) = is_skipped o ctx nil_req w in
      if skipped
      then (let (err, w₁) = handler ctx w₀ in (returned (handled none err), w₁))
      else (let (creds, err, w₁) = extract_or_default ctx nil_req w₀ in
          elim err [
            | some _ ↦ (returned unauthenticated_code, w₁)
            | none ↦ elim creds [
              | none ↦ (panicked, w₁)
              | some c ↦
                  let (p, err, w₂) = authenticate ctx c w₁ in
                  elim err [
                    | some _ ↦ (returned unauthenticated_code, w₂)
                    | none ↦
                        let ctx₁ = with_principal ctx p in
                        let (refused, w₃) = refusal o ctx₁ p no_text method w₂ in
                        elim refused [
                          | some _ ↦ log_refusal o p (λ v. (permission_denied_code, v)) w₃
                          | none ↦
                              let (err, w₄) = handler ctx₁ w₃ in (returned (handled none err), w₄)
                        ]
                  ]
            ]
          ])
