-- ===== src/Semaphore/Steps.antt =====
-- middleware/semaphore: many clients at one counter. A client's calls of the counter are single steps, which
-- interleave in any order: a TryAcquire is an increment, the time to live of a new key, the comparison, and
-- behind it a decrement or the time to live again. Any of the calls may fail, time passes, and the key is
-- lost when its time to live is over.
use microservice_kit.Prelude.{
  ℕ, zero, suc, ◌+◌, ◌≤◌, ◌≡◌, sym, subst, Bool, true, false, Option, none, some, List, [], ◌∷◌,
  ◌++◌, if◌then◌else◌, arith,
}
use microservice_kit.Prelude.Int.{ℤ, pos, negsuc, ◌+ℤ◌, ◌-ℤ◌, ◌≤ℤ◌, ltb_ℤ, leb_ℤ}

-- a client: `counted` has its count and compares it next, `over` gives it back next, and `granted` sets the
-- time to live next
pub data Phase : Type 0 where
  idle : Phase
  counted : ℤ → Phase
  over : Phase
  granted : Phase
  holding : Phase

-- `if count > s.size`
unfoldable pub compare : ℕ → ℤ → Phase
compare size count = if ltb_ℤ (pos size) count then over else granted

-- the counter at the key, the time at which the key is lost, the clock, and the clients
pub record Shared : Type 0 where
  pub count : ℤ
  pub deadline : Option ℕ
  pub now : ℕ
  pub clients : List Phase

abbrev pub at : ℤ → Option ℕ → ℕ → List Phase → Phase → List Phase → Shared
at n d t xs p ys = record { count = n; deadline = d; now = t; clients = xs ++ p ∷ ys }

-- one step of one client between the others, or of the clock, or the loss of the key
pub data Step (size ttl : ℕ) : Shared → Shared → Type 0 where
  count_up :
      (n : ℤ) (d : Option ℕ) (t : ℕ) (xs ys : List Phase)
      → Step size ttl (at n d t xs idle ys) (at (n +ℤ pos 1) d t xs (counted (n +ℤ pos 1)) ys)
  set_ttl :
      (n : ℤ) (d : Option ℕ) (t : ℕ) (xs ys : List Phase)
      → Step size ttl
          (at n d t xs (counted (pos 1)) ys)
          (at n (some (t + ttl)) t xs (counted (pos 1)) ys)
  decide :
      (n c : ℤ) (d : Option ℕ) (t : ℕ) (xs ys : List Phase)
      → Step size ttl (at n d t xs (counted c) ys) (at n d t xs (compare size c) ys)
  refresh :
      (n : ℤ) (d : Option ℕ) (t : ℕ) (xs ys : List Phase)
      → Step size ttl (at n d t xs granted ys) (at n (some (t + ttl)) t xs holding ys)
  not_refreshed :
      (n : ℤ) (d : Option ℕ) (t : ℕ) (xs ys : List Phase)
      → Step size ttl (at n d t xs granted ys) (at n d t xs holding ys)
  count_down :
      (n : ℤ) (d : Option ℕ) (t : ℕ) (xs ys : List Phase)
      → Step size ttl (at n d t xs over ys) (at (n -ℤ pos 1) d t xs idle ys)
  not_down :
      (n : ℤ) (d : Option ℕ) (t : ℕ) (xs ys : List Phase)
      → Step size ttl (at n d t xs over ys) (at n d t xs idle ys)
  give_back :
      (n : ℤ) (d : Option ℕ) (t : ℕ) (xs ys : List Phase)
      → Step size ttl (at n d t xs holding ys) (at (n -ℤ pos 1) d t xs idle ys)
  not_back :
      (n : ℤ) (d : Option ℕ) (t : ℕ) (xs ys : List Phase)
      → Step size ttl (at n d t xs holding ys) (at n d t xs idle ys)
  pass :
      (n : ℤ) (d : Option ℕ) (t later : ℕ) (cs : List Phase)
      → t ≤ later
      → Step size ttl
          (record { count = n; deadline = d; now = t; clients = cs })
          (record { count = n; deadline = d; now = later; clients = cs })
  lapse :
      (n : ℤ) (d t : ℕ) (cs : List Phase)
      → d ≤ t
      → Step size ttl
          (record { count = n; deadline = some d; now = t; clients = cs })
          (record { count = pos 0; deadline = none; now = t; clients = cs })

pub data Steps (size ttl : ℕ) : Shared → Shared → Type 0 where
  stay : (s : Shared) → Steps size ttl s s
  go_on : (s t u : Shared) → Step size ttl s t → Steps size ttl t u → Steps size ttl s u

-- the clients that a test counts
pub tally : (Phase → Bool) → List Phase → ℕ
tally p [] = 0
tally p (x ∷ xs) = if p x then tally p xs + 1 else tally p xs

abbrev pub is_holding : Phase → Bool
is_holding holding = true
is_holding _ = false

-- a client that has counted itself
abbrev is_busy : Phase → Bool
is_busy idle = false
is_busy _ = true

-- a client that holds a permit, or is about to
abbrev is_granted : ℕ → Phase → Bool
is_granted size holding = true
is_granted size granted = true
is_granted size (counted c) = leb_ℤ c (pos size)
is_granted size _ = false

-- the key is lost only while no client has counted itself
abbrev pub IsQuiet : {size ttl : ℕ} {s t : Shared} → Step size ttl s t → Type 0
IsQuiet (lapse n d t cs _) = tally is_busy cs ≡ 0
IsQuiet _ = Unit

abbrev pub AllQuiet : {size ttl : ℕ} {s t : Shared} → Steps size ttl s t → Type 0
AllQuiet (stay s) = Unit
AllQuiet (go_on s t u e f) = IsQuiet e × AllQuiet f

tally-middle :
    (p : Phase → Bool) (xs ys : List Phase) (x : Phase)
    → tally p (xs ++ x ∷ ys) ≡ tally p (x ∷ []) + tally p (xs ++ ys)
unfolding tally
tally-middle p [] ys x = ground arith
tally-middle p (y ∷ xs) ys x = ground (arith, tally-middle p xs ys x)

-- each client that has counted itself is in the counter, and those that hold a permit, or will, are no
-- more than `size`
record IsSafe (size : ℕ) (n : ℤ) (cs : List Phase) : Type 0 where
  counts : pos (tally is_busy cs) ≤ℤ n
  grants : tally (is_granted size) cs ≤ size

granted-busy : (size : ℕ) (xs : List Phase) → tally (is_granted size) xs ≤ tally is_busy xs
unfolding tally
granted-busy size [] = omega arith
granted-busy size (idle ∷ xs) = granted-busy size xs
granted-busy size (counted c ∷ xs) = ground (arith, granted-busy size xs)
granted-busy size (over ∷ xs) = ground (arith, granted-busy size xs)
granted-busy size (granted ∷ xs) = ground (arith, granted-busy size xs)
granted-busy size (holding ∷ xs) = ground (arith, granted-busy size xs)

-- A step of the client between two lists, from one phase to another. Both bounds hold after it where the
-- counter keeps up with the client, and the others leave room for a permit that it gets.
moved :
    (size : ℕ) (n m : ℤ) (xs ys : List Phase) (a b : Phase)
    → IsSafe size n (xs ++ a ∷ ys)
    → (pos (tally is_busy (a ∷ []) + tally is_busy (xs ++ ys)) ≤ℤ n
        → pos (tally is_busy (b ∷ []) + tally is_busy (xs ++ ys)) ≤ℤ m)
    → (tally (is_granted size) (a ∷ []) + tally (is_granted size) (xs ++ ys) ≤ size
        → tally (is_granted size) (b ∷ []) + tally (is_granted size) (xs ++ ys) ≤ size)
    → IsSafe size m (xs ++ b ∷ ys)
moved size n m xs ys a b h f g = record {
  counts =
      subst (λ k. pos k ≤ℤ m) (sym (tally-middle is_busy xs ys b))
        (f (subst (λ k. pos k ≤ℤ n) (tally-middle is_busy xs ys a) h.counts));
  grants =
      subst (λ k. k ≤ size) (sym (tally-middle (is_granted size) xs ys b))
        (g (subst (λ k. k ≤ size) (tally-middle (is_granted size) xs ys a) h.grants));
}

up : (b : ℕ) (n : ℤ) → pos b ≤ℤ n → pos (1 + b) ≤ℤ (n +ℤ pos 1)
unfolding ◌+ℤ◌
up b (pos n) h = ground (arith, h)
up b (negsuc n) h = absurd (omega (arith, h))

down : (b : ℕ) (n : ℤ) → pos (1 + b) ≤ℤ n → pos b ≤ℤ (n -ℤ pos 1)
unfolding ◌-ℤ◌
down b (pos n) h = ground (arith, h)
down b (negsuc n) h = absurd (omega (arith, h))

-- a client that counts itself gets a permit only where the counter has room
room :
    (size b g : ℕ) (n : ℤ)
    → pos b ≤ℤ n
    → g ≤ b
    → g ≤ size
    → tally (is_granted size) (counted (n +ℤ pos 1) ∷ []) + g ≤ size
unfolding tally ◌+ℤ◌
room size b g (pos n) h k l = ground (arith, h, k, l)
room size b g (negsuc n) h k l = absurd (omega (arith, h))

step-IsSafe :
    (size ttl : ℕ) (s t : Shared) (e : Step size ttl s t)
    → IsQuiet e
    → IsSafe size s.count s.clients
    → IsSafe size t.count t.clients
unfolding tally compare
step-IsSafe size ttl s t (count_up n d i xs ys) q h =
    moved size n (n +ℤ pos 1) xs ys idle (counted (n +ℤ pos 1)) h
      (λ b. up (tally is_busy (xs ++ ys)) n (omega (arith, b)))
      (λ g.
        room size (tally is_busy (xs ++ ys)) (tally (is_granted size) (xs ++ ys)) n
          (subst (λ k. pos k ≤ℤ n) (omega (arith, tally-middle is_busy xs ys idle)) h.counts)
          (granted-busy size (xs ++ ys)) (omega (arith, g)))
step-IsSafe size ttl s t (set_ttl n d i xs ys) q h = h
step-IsSafe size ttl s t (decide n c d i xs ys) q h =
    moved size n n xs ys (counted c) (compare size c) h (λ b. ground (arith, b))
      (λ g. ground (arith, g))
step-IsSafe size ttl s t (refresh n d i xs ys) q h =
    moved size n n xs ys granted holding h (λ b. b) (λ g. g)
step-IsSafe size ttl s t (not_refreshed n d i xs ys) q h =
    moved size n n xs ys granted holding h (λ b. b) (λ g. g)
step-IsSafe size ttl s t (count_down n d i xs ys) q h =
    moved size n (n -ℤ pos 1) xs ys over idle h
      (λ b. omega (arith, down (tally is_busy (xs ++ ys)) n b)) (λ g. g)
step-IsSafe size ttl s t (not_down n d i xs ys) q h =
    moved size n n xs ys over idle h (λ b. omega (arith, b)) (λ g. g)
step-IsSafe size ttl s t (give_back n d i xs ys) q h =
    moved size n (n -ℤ pos 1) xs ys holding idle h
      (λ b. omega (arith, down (tally is_busy (xs ++ ys)) n b)) (λ g. omega (arith, g))
step-IsSafe size ttl s t (not_back n d i xs ys) q h =
    moved size n n xs ys holding idle h (λ b. omega (arith, b)) (λ g. omega (arith, g))
step-IsSafe size ttl s t (pass n d i later cs _) q h = h
step-IsSafe size ttl s t (lapse n d i cs _) q h = record {
  counts = omega (arith, q);
  grants = h.grants;
}

Steps-IsSafe :
    (size ttl : ℕ) (s t : Shared) (e : Steps size ttl s t)
    → AllQuiet e
    → IsSafe size s.count s.clients
    → IsSafe size t.count t.clients
Steps-IsSafe size ttl s t (stay _) q h = h
Steps-IsSafe size ttl s u (go_on _ t _ e f) (q, r) h =
    Steps-IsSafe size ttl t u f r (step-IsSafe size ttl s t e q h)

holding-granted : (size : ℕ) (xs : List Phase) → tally is_holding xs ≤ tally (is_granted size) xs
unfolding tally
holding-granted size [] = omega arith
holding-granted size (idle ∷ xs) = holding-granted size xs
holding-granted size (counted c ∷ xs) = ground (arith, holding-granted size xs)
holding-granted size (granted ∷ xs) = ground (arith, holding-granted size xs)
holding-granted size (over ∷ xs) = holding-granted size xs
holding-granted size (holding ∷ xs) = ground (arith, holding-granted size xs)

abbrev pub all_idle : ℕ → List Phase
all_idle zero = []
all_idle (suc n) = idle ∷ all_idle n

abbrev pub nobody : ℕ → Shared
nobody clients = record { count = pos 0; deadline = none; now = 0; clients = all_idle clients }

idle-IsSafe : (size clients : ℕ) → IsSafe size (pos 0) (all_idle clients)
unfolding tally
idle-IsSafe size zero = record { counts = omega arith; grants = omega arith }
idle-IsSafe size (suc n) =
    let h = idle-IsSafe size n in record { counts = h.counts; grants = h.grants }

-- However the calls of any number of clients interleave, and whichever of them fail, from a counter at 0
-- on no more than `size` clients hold a permit, as long as the key is lost only while no client has counted
-- itself.
pub holding-size :
    (size ttl clients : ℕ) (s : Shared) (e : Steps size ttl (nobody clients) s)
    → AllQuiet e
    → tally is_holding s.clients ≤ size
holding-size size ttl clients s e quiet = omega (
  arith,
  (Steps-IsSafe size ttl _ s e quiet (idle-IsSafe size clients)).grants,
  holding-granted size s.clients,
)
