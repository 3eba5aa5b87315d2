-- ===== src/RateLimit.antt =====
-- middleware/ratelimit/ratelimit.go and distributed.go: the fixed window, the sliding window and the
-- limiter over a shared counter. Each call takes the time of `time.Now()`, in nanoseconds, and a number of
-- requests that is not negative. A mutex makes each call one step.
mod Fixed
mod Sliding
mod Tests
use microservice_kit.Prelude.{
  ℕ, ◌+◌, ◌-◌, Bool, true, false, Option, none, some, List, [], ◌∷◌, ◌++◌, length, replicate, ltb,
  leb, if◌then◌else◌,
}
use microservice_kit.Prelude.Int.{ℤ, pos, ltb_ℤ, leb_ℤ, eqb_ℤ}
use microservice_kit.Cache.{Go, MemoryCache, Result, ok, fail}
use microservice_kit.Cache

pub record FixedWindow : Type 0 where
  pub limit : ℕ
  pub window : ℕ
  pub count : ℕ
  pub window_start : ℕ

pub new_fixed_window : ℕ → ℕ → ℕ → FixedWindow
new_fixed_window now limit window = record {
  limit = limit;
  window = window;
  count = 0;
  window_start = now;
}

-- the first statement of `FixedWindow.AllowN`: a new window, when the last one is over
pub turn : FixedWindow → ℕ → FixedWindow
turn fw now =
    if leb fw.window (now - fw.window_start)
    then record fw { window_start = now; count = 0 }
    else fw

pub allow_fixed : FixedWindow → ℕ → ℕ → FixedWindow × Bool
unfolding turn
allow_fixed fw now n =
    let w = turn fw now in
    if leb (w.count + n) w.limit then (record w { count = w.count + n }, true) else (w, false)

pub record SlidingWindow : Type 0 where
  pub limit : ℕ
  pub window : ℕ
  pub timestamps : List ℕ

pub new_sliding_window : ℕ → ℕ → SlidingWindow
new_sliding_window limit window = record { limit = limit; window = window; timestamps = [] }

-- `cleanup`: a time stamp lies before `now - window`
pub clean : ℕ → ℕ → List ℕ → List ℕ
clean now window [] = []
clean now window (t ∷ timestamps) =
    if ltb (t + window) now then clean now window timestamps else t ∷ timestamps

pub allow_sliding : SlidingWindow → ℕ → ℕ → SlidingWindow × Bool
unfolding clean
allow_sliding sw now n =
    let ts = clean now sw.window sw.timestamps in
    if leb (length ts + n) sw.limit
    then (record sw { timestamps = ts ++ replicate n now }, true)
    else (record sw { timestamps = ts }, false)

-- The interface `RateCounter`, over the states of the store behind it; an error is none.
pub record RateCounter (Store Text : Type 0) : Type 0 where
  pub increment_by : ℕ → Store → Text → ℤ → Store × Option ℤ
  pub expire : ℕ → Store → Text → ℤ → Store
  pub ttl : ℕ → Store → Text → ℤ

-- `keyedDistributedLimiterInstance`; a DistributedLimiter makes the same calls with the key
-- "prefix:key".
pub record DistributedLimiter (Text : Type 0) : Type 0 where
  pub key : Text
  pub limit : ℤ
  pub window : ℤ

pub allow_distributed :
    {Store Text : Type 0}
    → RateCounter Store Text
    → DistributedLimiter Text
    → ℕ
    → Store
    → ℤ
    → Store × Bool
allow_distributed counter dl now s n =
    let (s₁, r) = counter.increment_by now s dl.key n in
    elim r [
      | none ↦ (s₁, true)
      | some count ↦ (
        if eqb_ℤ count n then counter.expire now s₁ dl.key dl.window else s₁,
        leb_ℤ count dl.limit,
      )
    ]

-- `CacheRateCounter` over the cache in memory
pub cache_rate_counter : {Text Any : Type 0} → Go Text Any → RateCounter (MemoryCache Text) Text
cache_rate_counter go = record {
  increment_by = λ now m key n.
      let (m₁, r) = Cache.increment_by go now m key n in
      (m₁, elim r [ ok count ↦ some count | fail e ↦ none ]);
  expire = λ now m key ttl. (Cache.expire go now m key ttl).0;
  ttl = λ now m key. Cache.ttl_of go now m key;
}
