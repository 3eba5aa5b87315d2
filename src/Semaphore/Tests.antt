-- ===== src/Semaphore/Tests.antt =====
-- Runs of the semaphore over a counter that is a number, and its theorems at it.
use microservice_kit.Prelude.{
  ℕ, ◌+◌, ◌-◌, ◌≡◌, ◌≤◌, refl, true, false, Bool, none, some, [], ◌∷◌, ◌++◌, if◌then◌else◌, arith,
}
use microservice_kit.Prelude.Int.{pos, ◌+ℤ◌}
use microservice_kit.Semaphore.{
  Counter, cancelled, retry, Outcome, panicked, err_no_permit, try_acquire, acquire, release,
  guarded, answer,
}
use microservice_kit.Semaphore.Permits
use microservice_kit.Semaphore.Guard
use microservice_kit.Semaphore.Alone
use microservice_kit.Semaphore.Steps
use microservice_kit.Semaphore.Steps.{
  Phase, idle, counted, holding, Shared, Step, Steps, nobody, compare, AllQuiet, count_up, set_ttl,
  decide, refresh, pass, lapse, stay, go_on,
}

abbrev number : Counter ℕ
number = record {
  increment = λ n. (some (pos (n + 1)), n + 1);
  decrement = λ n. (some (pos (n - 1)), n - 1);
  current = λ n. (some (pos n), n);
  expire = λ n. n;
}

abbrev value : ℕ → ℕ
value n = n

number-IsAtomic : Permits.IsAtomic number value
number-IsAtomic = record {
  increments = λ n. refl;
  count-increment = λ n. refl;
  decrements = λ n h. refl;
  count-decrement = λ n h. refl;
  reads = λ n. refl;
  count-current = λ n. refl;
  count-expire = λ n. refl;
}

acquire-eventually_example :
    (acquire number (pos 2) ((retry (λ n. n) ∷ []) ++ retry (λ n. 1) ∷ cancelled ∷ []) 2).0
    ≡ some true
acquire-eventually_example =
    Permits.acquire-eventually number value number-IsAtomic 2 (retry (λ n. n) ∷ []) (cancelled ∷ [])
      (λ n. 1) 2 tt (λ n. omega arith)

-- the same counter, which fails for a context that is done
abbrev cancellable : Bool → Counter ℕ
cancellable done = if done then record number { decrement = λ n. (none, n) } else number

abbrev panics : Bool → ℕ → Outcome ℕ × Bool × ℕ
panics done n = (panicked, done, n)

given_back :
    guarded cancellable (pos 2) err_no_permit true [] (panics false) 1 ≡ (some (answer panicked), 1)
unfolding guarded acquire try_acquire release ◌+ℤ◌
given_back = refl

-- a request that is cancelled during its call keeps its permit
leaked :
    guarded cancellable (pos 2) err_no_permit true [] (panics true) 1 ≡ (some (answer panicked), 2)
unfolding guarded acquire try_acquire release ◌+ℤ◌
leaked = refl

abbrev one_holds : Shared
one_holds = record { count = pos 1; deadline = some 30; now = 0; clients = holding ∷ idle ∷ [] }

to_one : Steps 1 30 (nobody 2) one_holds
unfolding compare ◌+ℤ◌
to_one = go_on _ _ _ (count_up (pos 0) none 0 [] (idle ∷ [])) (
    go_on _ _ _ (set_ttl (pos 1) none 0 [] (idle ∷ [])) (
      go_on _ _ _ (decide (pos 1) (pos 1) (some 30) 0 [] (idle ∷ []))
        (go_on _ _ _ (refresh (pos 1) (some 30) 0 [] (idle ∷ [])) (stay one_holds))))

to_one-AllQuiet : AllQuiet to_one
unfolding to_one
to_one-AllQuiet = (tt, (tt, (tt, (tt, tt))))

holding-size_example : Steps.tally Steps.is_holding one_holds.clients ≤ 1
holding-size_example = Steps.holding-size 1 30 2 one_holds to_one to_one-AllQuiet

-- with a size of 1, a second client gets a permit when the key has run out under the first
both_hold :
    Steps 1 30 one_holds
      (record { count = pos 1; deadline = some 61; now = 31; clients = holding ∷ holding ∷ [] })
unfolding compare ◌+ℤ◌
both_hold = go_on _ _ _ (pass (pos 1) (some 30) 0 31 (holding ∷ idle ∷ []) (omega arith)) (
    go_on _ _ _ (lapse (pos 1) 30 31 (holding ∷ idle ∷ []) (omega arith)) (
      go_on _ _ _ (count_up (pos 0) none 31 (holding ∷ []) []) (
        go_on _ _ _ (decide (pos 1) (pos 1) none 31 (holding ∷ []) [])
          (go_on _ _ _ (refresh (pos 1) none 31 (holding ∷ []) []) (stay _)))))

guarded-count_example :
    value (guarded cancellable (pos 2) err_no_permit true (retry (λ n. n) ∷ []) (panics false) 1).1
    ≡ value 1
guarded-count_example =
    Guard.guarded-count cancellable value number-IsAtomic 2 err_no_permit true (retry (λ n. n) ∷ [])
      (panics false) 1 ((λ n. refl), tt) (λ n. refl) (λ n. refl)
