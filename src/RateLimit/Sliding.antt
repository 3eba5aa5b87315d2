-- ===== src/RateLimit/Sliding.antt =====
-- middleware/ratelimit: how many requests a sliding window lets through.
use microservice_kit.Prelude.{
  ℕ, ◌+◌, ◌≤◌, ◌≡◌, refl, sym, ◌∙◌, true, false, List, [], ◌∷◌, ◌++◌, length, replicate,
  length-append, length-replicate, arith, ltb, leb, if◌then◌else◌, Bool-cases, inl, inr,
}
use microservice_kit.RateLimit.{SlidingWindow, clean, allow_sliding, new_sliding_window}

-- The times of the requests let through, of a sequence of calls with their times and numbers, behind
-- those of a log.
unfoldable pub serve : SlidingWindow → List ℕ → List (ℕ × ℕ) → SlidingWindow × List ℕ
serve sw log [] = (sw, log)
serve sw log ((now, n) ∷ calls) =
    let (sw₁, allowed) = allow_sliding sw now n in
    serve sw₁ (if allowed then log ++ replicate n now else log) calls

-- How many times of a log lie in the window that ends now.
unfoldable pub recent : ℕ → ℕ → List ℕ → ℕ
recent window now [] = 0
recent window now (t ∷ ts) = (if ltb (t + window) now then 0 else 1) + recent window now ts

-- the calls come in the order of their times, between two times
unfoldable pub Ordered : ℕ → ℕ → List (ℕ × ℕ) → Type 0
Ordered first last [] = first ≤ last
Ordered first last ((now, n) ∷ calls) = (first ≤ now) × Ordered now last calls

recent-append :
    (w now : ℕ) (xs ys : List ℕ) → recent w now (xs ++ ys) ≡ recent w now xs + recent w now ys
unfolding recent
recent-append w now [] ys = omega arith
recent-append w now (x ∷ xs) ys = ground (arith, recent-append w now xs ys)

recent-length : (w now : ℕ) (xs : List ℕ) → recent w now xs ≤ length xs
unfolding recent
recent-length w now [] = omega arith
recent-length w now (x ∷ xs) = ground (arith, recent-length w now xs)

-- what `cleanup` drops is not recent later on
recent-clean : (w t now : ℕ) (xs : List ℕ) → t ≤ now → recent w now (clean t w xs) ≡ recent w now xs
unfolding recent clean
recent-clean w t now [] h = refl
recent-clean w t now (x ∷ xs) h = ground (arith, recent-clean w t now xs h)

length-clean : (t w : ℕ) (xs : List ℕ) → length (clean t w xs) ≤ length xs
unfolding clean
length-clean t w [] = omega arith
length-clean t w (x ∷ xs) = ground (arith, length-clean t w xs)

Ordered-last : (first last : ℕ) (calls : List (ℕ × ℕ)) → Ordered first last calls → first ≤ last
unfolding Ordered
Ordered-last first last [] h = h
Ordered-last first last ((now, n) ∷ calls) (h, o) = omega (arith, Ordered-last now last calls o)

-- the two ways that the first call goes
abbrev kept : SlidingWindow → ℕ → List ℕ
kept sw now = clean now sw.window sw.timestamps

serve-allowed :
    (sw : SlidingWindow) (log : List ℕ) (now n : ℕ) (calls : List (ℕ × ℕ))
    → leb (length (kept sw now) + n) sw.limit ≡ true
    → serve sw log ((now, n) ∷ calls)
      ≡ serve
          (record sw { timestamps = kept sw now ++ replicate n now })
          (log ++ replicate n now)
          calls
unfolding serve allow_sliding
serve-allowed sw log now n calls h = ground arith

serve-denied :
    (sw : SlidingWindow) (log : List ℕ) (now n : ℕ) (calls : List (ℕ × ℕ))
    → leb (length (kept sw now) + n) sw.limit ≡ false
    → serve sw log ((now, n) ∷ calls) ≡ serve (record sw { timestamps = kept sw now }) log calls
unfolding serve allow_sliding
serve-denied sw log now n calls h = ground arith

-- the window keeps all that is recent, and no more than the limit
served :
    (sw : SlidingWindow) (log : List ℕ) (first last : ℕ) (calls : List (ℕ × ℕ))
    → Ordered first last calls
    → length sw.timestamps ≤ sw.limit
    → recent sw.window last log ≡ recent sw.window last sw.timestamps
    → recent sw.window last (serve sw log calls).1 ≤ sw.limit
unfolding Ordered serve
served sw log first last [] o h k = omega (arith, recent-length sw.window last sw.timestamps)
served sw log first last ((now, n) ∷ calls) (a, o) h k =
    let ts : List ℕ = clean now sw.window sw.timestamps in
    let e = recent-clean sw.window now last sw.timestamps (Ordered-last now last calls o) in
    elim (Bool-cases (leb (length ts + n) sw.limit)) [
      | inl f ↦
          let sw₁ : SlidingWindow = record sw { timestamps = ts ++ replicate n now } in
          let r : length sw₁.timestamps ≤ sw.limit =
            ground (arith, length-append ts (replicate n now), length-replicate n now) in
          let p = recent-append sw.window last log (replicate n now) in
          let q = recent-append sw.window last ts (replicate n now) in
          rw (serve-allowed sw log now n calls f)
            (served sw₁ (log ++ replicate n now) now last calls o r (omega (arith, p, q, e, k)))
      | inr f ↦
          let sw₁ : SlidingWindow = record sw { timestamps = ts } in
          let r : length sw₁.timestamps ≤ sw.limit =
            omega (arith, length-clean now sw.window sw.timestamps, h) in
          rw (serve-denied sw log now n calls f) (served sw₁ log now last calls o r (k ∙ sym e))
    ]

-- Whatever calls come, in the order of their times, at any time after them at most `limit` of the
-- requests let through lie in the window that ends then.
pub recent-serve :
    (limit window first last : ℕ) (calls : List (ℕ × ℕ))
    → Ordered first last calls
    → recent window last (serve (new_sliding_window limit window) [] calls).1 ≤ limit
unfolding new_sliding_window
recent-serve limit window first last calls o =
    served (new_sliding_window limit window) [] first last calls o (omega arith) refl
