-- ===== src/Idempotency/Replay.antt =====
-- middleware/idempotency: a key's request is executed once, and then replayed.
use microservice_kit.Prelude.{
  ℕ, ◌+◌, ◌≤◌, ◌≡◌, refl, Bool, Option, Bool-cases, none, some, List, [], ◌∷◌, arith, inl, inr, ◌⊎◌,
}
use microservice_kit.Idempotency.{Env, Saved, replayed, save_result, execute_once, handle}

module _ {W Text Req Resp Err : Type 0} (env : Env W Text Req Resp Err) (key : Text)
    (stored : W → Option (Saved Text)) (calls : W → ℕ) where
  -- A store that does not fail and whose results do not expire: `Get` reads the result of the key,
  -- `Set` writes it, `SetNX` takes a lock beside it and may find it taken. None of them calls the
  -- endpoint, which in turn is counted at each call.
  pub record IsReliable : Type 0 where
    pub get_reads : (w : W) → env.get key w ≡ (some (stored w), w)
    pub set_nx_locks : (w : W) → (b : Bool) × ((env.set_nx key w).0 ≡ some b)
    pub set_nx_keeps :
        (w : W) → (stored (env.set_nx key w).1 ≡ stored w) × (calls (env.set_nx key w).1 ≡ calls w)
    pub set_writes :
        (s : Saved Text) (w : W)
        → (stored (env.set key s w).1 ≡ some s) × (calls (env.set key s w).1 ≡ calls w)
    pub next_counts : (req : Req) (w : W) → calls (env.next req w).2 ≡ calls w + 1

  -- the world after some requests, one behind the other
  unfoldable pub handle_all : Text → List Req → W → W
  handle_all nil_body [] w = w
  handle_all nil_body (req ∷ reqs) w = handle_all nil_body reqs (handle env nil_body req w).1

  -- the requests have the key
  unfoldable pub HaveKey : List Req → Type 0
  HaveKey [] = Unit
  HaveKey (req ∷ reqs) = (env.key_of req ≡ some key) × HaveKey reqs

  module _ (store : IsReliable) where
    -- Once the key has a result, a request with the key gets that result, and nothing happens.
    pub handle-replays :
        (nil_body : Text) (req : Req) (w : W) (s : Saved Text)
        → env.key_of req ≡ some key
        → stored w ≡ some s
        → handle env nil_body req w ≡ (replayed s, w)
    unfolding handle
    handle-replays nil_body req w s h k = ground (arith, store.get_reads w)

    replays_all :
        (nil_body : Text) (reqs : List Req) (w : W) (s : Saved Text)
        → HaveKey reqs
        → stored w ≡ some s
        → handle_all nil_body reqs w ≡ w
    unfolding handle_all HaveKey
    replays_all nil_body [] w s h k = refl
    replays_all nil_body (req ∷ reqs) w s (h, hs) k =
        ground (arith, handle-replays nil_body req w s h k, replays_all nil_body reqs w s hs k)

    -- the request that is the first to have a key either leaves all as it was, or is executed and saved
    first_request :
        (nil_body : Text) (req : Req) (w : W)
        → env.key_of req ≡ some key
        → stored w ≡ none
        → ((stored (handle env nil_body req w).1 ≡ none)
            × (calls (handle env nil_body req w).1 ≡ calls w))
          ⊎ ((s : Saved Text) × (stored (handle env nil_body req w).1 ≡ some s)
              × (calls (handle env nil_body req w).1 ≡ calls w + 1))
    unfolding handle execute_once
    first_request nil_body req w h k =
        let g = store.get_reads w in
        let (b, e) = store.set_nx_locks w in
        let (p, q) = store.set_nx_keeps w in
        let w₂ : W = (env.set_nx key w).1 in
        let s : Saved Text = save_result env nil_body (env.next req w₂).0 (env.next req w₂).1 in
        let (a, c) = store.set_writes s (env.next req w₂).2 in
        let n = store.next_counts req w₂ in
        elim (Bool-cases b) [
          | inl t ↦ inr (s, ground arith, ground arith)
          | inr t ↦ inl (ground arith, ground arith)
        ]

    -- However many requests with the key come, one behind the other, the endpoint is called once at
    -- most, if the store does not fail, its results do not expire and the key has no result before
    -- the first of them.
    pub handle_all-once :
        (nil_body : Text) (reqs : List Req) (w : W)
        → HaveKey reqs
        → stored w ≡ none
        → calls (handle_all nil_body reqs w) ≤ calls w + 1
    unfolding handle_all HaveKey
    handle_all-once nil_body [] w h k = omega arith
    handle_all-once nil_body (req ∷ reqs) w (h, hs) k = elim (first_request nil_body req w h k) [
      | inl (a, b) ↦
          omega (arith, handle_all-once nil_body reqs (handle env nil_body req w).1 hs a, b)
      | inr (s, a, b) ↦
          ground (arith, replays_all nil_body reqs (handle env nil_body req w).1 s hs a, b)
    ]
