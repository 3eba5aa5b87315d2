-- ===== src/Idempotency.antt =====
-- middleware/idempotency/endpoint.go: the endpoint middleware. It takes the state of the world, with the
-- store behind `Store` in it, to its results and the state after it. The time to live of a result and the
-- time stamp `CreatedAt` belong to the store.
mod Replay
mod Tests
use microservice_kit.Prelude.{ℕ, ◌+◌, Bool, true, false, Option, none, some, if◌then◌else◌}

-- `Result`, as far as this middleware reads and writes it; an error that is not empty is in `failed`
pub data Saved (Text : Type 0) : Type 0 where
  failed : Text → Saved Text
  body : Text → Saved Text

-- What the middleware returns: the endpoint's own results, those of an earlier call, or an error of its
-- own.
pub data Reply (Text Resp Err : Type 0) : Type 0 where
  returned : Resp → Option Err → Reply Text Resp Err
  replayed : Saved Text → Reply Text Resp Err
  err_store_failure err_request_in_progress : Reply Text Resp Err

-- The options, the interface `Store` and the endpoint. An error of the store is none.
pub record Env (W Text Req Resp Err : Type 0) : Type 0 where
  -- the key of a request; none is the empty one
  pub key_of : Req → Option Text
  pub skip_on_error : Bool
  pub get : Text → W → Option (Option (Saved Text)) × W
  pub set_nx : Text → W → Option Bool × W
  pub set : Text → Saved Text → W → Option Bool × W
  pub next : Req → W → Resp × Option Err × W
  -- `json.Marshal`, its error left out
  pub marshal : Resp → Text
  -- `err.Error()`, none where it is empty
  pub message : Err → Option Text

module _ {W Text Req Resp Err : Type 0} (env : Env W Text Req Resp Err) where
  -- the call of the endpoint without the store
  pub pass : Req → W → Reply Text Resp Err × W
  pass req w = let (resp, err, w₁) = env.next req w in (returned resp err, w₁)

  -- a result whose error is the empty text is read as one without an error, with no body
  pub save_result : Text → Resp → Option Err → Saved Text
  save_result nil_body resp err = elim err [
    | none ↦ body (env.marshal resp)
    | some e ↦ elim (env.message e) [ none ↦ body nil_body | some text ↦ failed text ]
  ]

  -- the part that runs under the lock of the key
  pub execute_once : Text → Text → Req → W → Reply Text Resp Err × W
  execute_once nil_body key req w =
      let (resp, err, w₁) = env.next req w in
      (returned resp err, (env.set key (save_result nil_body resp err) w₁).1)

  pub handle : Text → Req → W → Reply Text Resp Err × W
  handle nil_body req w = elim (env.key_of req) [
    | none ↦ pass req w
    | some key ↦
        let (result, w₁) = env.get key w in
        elim result [
          | none ↦ if env.skip_on_error then pass req w₁ else (err_store_failure, w₁)
          | some (some saved) ↦ (replayed saved, w₁)
          | some none ↦
              let (locked, w₂) = env.set_nx key w₁ in
              elim locked [
                | none ↦ if env.skip_on_error then pass req w₂ else (err_store_failure, w₂)
                | some false ↦ (err_request_in_progress, w₂)
                | some true ↦ execute_once nil_body key req w₂
              ]
        ]
  ]
