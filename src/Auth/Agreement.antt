-- ===== src/Auth/Agreement.antt =====
-- auth/http.go and auth/grpc.go: the middleware of HTTP and the two interceptors of gRPC decide alike.
use microservice_kit.Prelude.{◌≡◌, ◌∙◌, Option, none, arith}
use microservice_kit.Auth.{
  Credentials, Context, Options, Authenticator, Outcome, panicked, returned, log_refusal,
  is_skipped,
}
use microservice_kit.Auth.Transport.{
  HttpReply, served, unauthorized_401, forbidden_403, GrpcReply, handled, unauthenticated_code,
  permission_denied_code, extract_or_default, http_middleware, unary_interceptor,
  stream_interceptor,
}

abbrev pub map_outcome : {A B : Type 0} → (A → B) → Outcome A → Outcome B
map_outcome f panicked = panicked
map_outcome f (returned a) = returned (f a)

-- the status of HTTP for what an interceptor returns
abbrev pub status_of : {Resp Err : Type 0} → GrpcReply Resp Err → HttpReply
status_of (handled _ _) = served
status_of unauthenticated_code = unauthorized_401
status_of permission_denied_code = forbidden_403

-- what the stream has of the results of a handler
abbrev pub without_response : {Resp Err : Type 0} → GrpcReply Resp Err → GrpcReply (Unit {0}) Err
without_response (handled _ err) = handled none err
without_response unauthenticated_code = unauthenticated_code
without_response permission_denied_code = permission_denied_code

module _ {W Text Any Req Resp Err : Type 0} (no_text : Text) (o : Options W Text Any Req Err)
    (extract : Context Text Any → Req → W → Option (Credentials Text) × Option Err × W)
    (authenticate : Authenticator W Text Any Err)
    (handler : Context Text Any → Req → W → Option Resp × Option Err × W) where
  http-unary :
      (name : Text) (ctx : Context Text Any) (req : Req) (w : W)
      → http_middleware no_text o extract authenticate (λ c r v. (handler c r v).2) name ctx req w
        ≡ (
          map_outcome status_of
              (unary_interceptor no_text o extract authenticate handler name ctx req w).0,
          (unary_interceptor no_text o extract authenticate handler name ctx req w).1,
        )
  unfolding http_middleware unary_interceptor log_refusal
  http-unary name ctx req w = ground arith

  stream-same :
      (name : Text) (ctx : Context Text Any) (req : Req) (w : W)
      → stream_interceptor no_text o extract authenticate
          (λ c v. ((handler c req v).1, (handler c req v).2))
          req
          name
          ctx
          w
        ≡ (
          map_outcome without_response
              (unary_interceptor no_text o extract authenticate handler name ctx req w).0,
          (unary_interceptor no_text o extract authenticate handler name ctx req w).1,
        )
  unfolding stream_interceptor unary_interceptor log_refusal
  stream-same name ctx req w = ground arith

  stream-nil :
      (answer : Context Text Any → W → Option Err × W) (name : Text) (ctx : Context Text Any)
      (req nil_req : Req) (w : W)
      → (is_skipped o ctx nil_req w ≡ is_skipped o ctx req w)
      → ((v : W)
          → extract_or_default no_text o extract authenticate ctx nil_req v
            ≡ extract_or_default no_text o extract authenticate ctx req v)
      → stream_interceptor no_text o extract authenticate answer nil_req name ctx w
        ≡ stream_interceptor no_text o extract authenticate answer req name ctx w
  unfolding stream_interceptor
  stream-nil answer name ctx req nil_req w e f = ground (arith, e, f (is_skipped o ctx req w).1)

  stream-unary :
      (name : Text) (ctx : Context Text Any) (req nil_req : Req) (w : W)
      → (is_skipped o ctx nil_req w ≡ is_skipped o ctx req w)
      → ((v : W)
          → extract_or_default no_text o extract authenticate ctx nil_req v
            ≡ extract_or_default no_text o extract authenticate ctx req v)
      → stream_interceptor no_text o extract authenticate
          (λ c v. ((handler c req v).1, (handler c req v).2))
          nil_req
          name
          ctx
          w
        ≡ (
          map_outcome without_response
              (unary_interceptor no_text o extract authenticate handler name ctx req w).0,
          (unary_interceptor no_text o extract authenticate handler name ctx req w).1,
        )
  stream-unary name ctx req nil_req w e f =
      stream-nil (λ c v. ((handler c req v).1, (handler c req v).2)) name ctx req nil_req w e f
      ∙ stream-same name ctx req w

  -- HTTP and gRPC decide alike, with one extractor and the same handler behind them: the middleware of HTTP
  -- leaves the world as the interceptor of single calls does, and answers with the status that belongs to
  -- its status; it panics where that panics. So does the interceptor of streams, which gives its callbacks
  -- nil in place of the request, where the skipper and the extractor do the same for nil as for the request.
  pub interceptors-agree :
      (name : Text) (ctx : Context Text Any) (req nil_req : Req) (w : W)
      → (is_skipped o ctx nil_req w ≡ is_skipped o ctx req w)
      → ((v : W)
          → extract_or_default no_text o extract authenticate ctx nil_req v
            ≡ extract_or_default no_text o extract authenticate ctx req v)
      → (http_middleware no_text o extract authenticate (λ c r v. (handler c r v).2) name ctx req w
          ≡ (
            map_outcome status_of
                (unary_interceptor no_text o extract authenticate handler name ctx req w).0,
            (unary_interceptor no_text o extract authenticate handler name ctx req w).1,
          ))
        × (stream_interceptor no_text o extract authenticate
              (λ c v. ((handler c req v).1, (handler c req v).2))
              nil_req
              name
              ctx
              w
            ≡ (
              map_outcome without_response
                  (unary_interceptor no_text o extract authenticate handler name ctx req w).0,
              (unary_interceptor no_text o extract authenticate handler name ctx req w).1,
            ))
  interceptors-agree name ctx req nil_req w e f =
      (http-unary name ctx req w, stream-unary name ctx req nil_req w e f)
