-- ===== src/RateLimit/Fixed.antt =====
-- middleware/ratelimit: how many requests a fixed window lets through.
use microservice_kit.Prelude.{
  ℕ, ◌+◌, ◌-◌, ◌*◌, ◌≤◌, ◌<◌, ◌≡◌, false, List, [], ◌∷◌, arith, leb, leb→le, if◌then◌else◌,
  Bool-cases, inl, inr,
}
use microservice_kit.RateLimit.{FixedWindow, turn, allow_fixed}

-- The requests that are let through, of a sequence of calls with their times and numbers.
unfoldable pub admitted : FixedWindow → List (ℕ × ℕ) → ℕ
admitted fw [] = 0
admitted fw ((now, n) ∷ calls) =
    let (fw₁, allowed) = allow_fixed fw now n in (if allowed then n else 0) + admitted fw₁ calls

-- the calls lie between two times, the second excluded
unfoldable pub Within : ℕ → ℕ → List (ℕ × ℕ) → Type 0
Within first end [] = Unit
Within first end ((now, n) ∷ calls) = (first ≤ now) × (now < end) × Within now end calls

-- Calls before the end of the current window: they do not exceed what the window has left.
pub admitted_in_window :
    (fw : FixedWindow) (first end : ℕ) (calls : List (ℕ × ℕ))
    → fw.count ≤ fw.limit
    → fw.window_start ≤ first
    → end ≤ fw.window_start + fw.window
    → Within first end calls
    → fw.count + admitted fw calls ≤ fw.limit
unfolding admitted Within allow_fixed turn
admitted_in_window fw first end [] h l k w = omega arith
admitted_in_window fw first end ((now, n) ∷ calls) h l k (a, b, w) =
    let e : leb fw.window (now - fw.window_start) ≡ false = ground arith in
    elim (Bool-cases (leb (fw.count + n) fw.limit)) [
      | inl f ↦
          let fw₁ : FixedWindow = record fw { count = fw.count + n } in
          rw (e, f)
            (omega (arith, admitted_in_window fw₁ now end calls (leb→le _ _ f) (omega arith) k w))
      | inr f ↦ rw (e, f) (omega (arith, admitted_in_window fw now end calls h (omega arith) k w))
    ]

burst :
    (fw : FixedWindow) (first end : ℕ) (calls : List (ℕ × ℕ))
    → fw.count ≤ fw.limit
    → fw.window_start ≤ first
    → end ≤ first + fw.window
    → Within first end calls
    → fw.count + admitted fw calls ≤ 2 * fw.limit
unfolding admitted Within allow_fixed turn
burst fw first end [] h l k w = omega arith
burst fw first end ((now, n) ∷ calls) h l k (a, b, w) =
    let fw₀ : FixedWindow = record fw { window_start = now; count = 0 } in
    elim (Bool-cases (leb fw.window (now - fw.window_start))) [
      | inl e ↦ elim (Bool-cases (leb (0 + n) fw.limit)) [
        | inl f ↦
            let fw₁ : FixedWindow = record fw { window_start = now; count = 0 + n } in
            let r =
              admitted_in_window fw₁ now end calls (leb→le _ _ f) (omega arith) (omega arith) w in
            rw (e, f) (omega (arith, r))
        | inr f ↦
            let r =
              admitted_in_window fw₀ now end calls (omega arith) (omega arith) (omega arith) w in
            rw (e, f) (omega (arith, r))
      ]
      | inr e ↦ elim (Bool-cases (leb (fw.count + n) fw.limit)) [
        | inl f ↦
            let fw₁ : FixedWindow = record fw { count = fw.count + n } in
            rw (e, f)
              (omega (arith, burst fw₁ now end calls (leb→le _ _ f) (omega arith) (omega arith) w))
        | inr f ↦ rw (e, f) (omega (arith, burst fw now end calls h (omega arith) (omega arith) w))
      ]
    ]

-- In any period as long as a window, wherever it begins, at most twice the limit is let through: a
-- period meets two windows at most. The count does not exceed the limit at
-- its beginning, and the clock does not run backwards.
pub admitted_burst :
    (fw : FixedWindow) (first : ℕ) (calls : List (ℕ × ℕ))
    → fw.count ≤ fw.limit
    → fw.window_start ≤ first
    → Within first (first + fw.window) calls
    → admitted fw calls ≤ 2 * fw.limit
admitted_burst fw first calls h l w =
    omega (arith, burst fw first (first + fw.window) calls h l (omega arith) w)
