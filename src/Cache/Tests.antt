-- ===== src/Cache/Tests.antt =====
-- Runs of the cache in memory, and its theorems at them. The strings of the runs are integers, which are
-- their own digits; a loop over a map takes the order of the list.
use native.Mathlib.Decide.{ℕ_discrete}
use microservice_kit.Prelude.{
  ℕ, ◌+◌, ◌≤◌, ◌≡◌, refl, true, false, ◌&&◌, none, some, List, [], ◌∷◌, arith, ltb, if◌then◌else◌,
  get, put,
}
use microservice_kit.Prelude.Int.{ℤ, pos, pos_part, ltb_ℤ, ◌+ℤ◌, wrap64}
use microservice_kit.Cache.{
  Go, IsLawful, MemoryCache, text, ok, fail, err_not_found, set, get_value, read_item, finish_get,
  lookup, store, delete, is_expired, new_item, serialize, set_nx, live, try_lock, unlock,
  increment_by, current, size,
}
use microservice_kit.Cache.Values
use microservice_kit.Cache.Locks
use microservice_kit.Cache.Counters
use microservice_kit.Cache.Capacity

pub discrete_ℤ : Discrete ℤ
discrete_ℤ = hlevel ℕ_discrete

abbrev pub go : Go ℤ ℕ
go = record {
  same = discrete_ℤ;
  marshal = λ n. some (pos n);
  scan_int = some;
  print_int = λ n. n;
  empty = pos 0;
  range = λ m. m;
  range_again = λ m. m;
}

pub go-IsLawful : IsLawful go
go-IsLawful = record {
  range-Mem = λ m p h. h;
  range_again-Mem = λ m p h. h;
  length-range_again = λ m. refl;
  scan_int-print_int = λ n. refl;
}

-- a full cache, with an item that expires at the time 50
abbrev full : MemoryCache ℤ
full = record {
  data_of = (pos 1, record { value = pos 7; expire_at = 50; no_expire = false }) ∷ [];
  max_size = 1;
}

-- the item is alive at its last moment, and gone after it
at_50 : (get_value go 50 full (pos 1)).1 ≡ ok (pos 7)
unfolding get_value read_item finish_get lookup get discrete_ℤ ℕ_discrete is_expired
at_50 = refl

serialized : serialize go (text (pos 9)) ≡ some (pos 9)
unfolding serialize
serialized = refl

found : lookup go full (pos 1) ≡ some (record { value = pos 7; expire_at = 50; no_expire = false })
unfolding lookup get discrete_ℤ ℕ_discrete
found = refl

missing : lookup go full (pos 2) ≡ none
unfolding lookup get discrete_ℤ ℕ_discrete
missing = refl

expired_60 :
    is_expired {Text = ℤ} 60 (record { value = pos 7; expire_at = 50; no_expire = false }) ≡ true
unfolding is_expired
expired_60 = refl

one_item : size go full ≤ 1
unfolding size
one_item = omega arith

get-set_example : (get_value go 30 (set go 20 full (pos 2) (text (pos 9)) (pos 10)).0 (pos 2)).1 ≡ (
    if ltb_ℤ (pos 0) (pos 10) && ltb (20 + pos_part (pos 10)) 30
    then fail err_not_found
    else ok (pos 9))
get-set_example = Values.get-set go 20 30 full (pos 2) (text (pos 9)) (pos 10) (pos 9) serialized

get-loses_set_example :
    lookup go
      (finish_get go
        (set go 61 full (pos 1) (text (pos 9)) (pos 10)).0
        (pos 1)
        (read_item go 60 full (pos 1))).0
      (pos 1)
    ≡ none
get-loses_set_example =
    Values.get-loses_set go 60 61 full (pos 1)
      (record { value = pos 7; expire_at = 50; no_expire = false }) (text (pos 9)) (pos 10) found
      expired_60

set-size_example : size go (set go 20 full (pos 2) (text (pos 9)) (pos 10)).0 ≤ 1
set-size_example =
    Capacity.set-size go go-IsLawful 20 full (pos 2) (text (pos 9)) (pos 10) (omega arith) one_item

abbrev locked : MemoryCache ℤ
locked = record {
  data_of = (pos 1, record { value = pos 8; expire_at = 90; no_expire = false }) ∷ [];
  max_size = 1;
}

abbrev others : List (Locks.LockOp ℤ)
others =
    Locks.acquire 70 (pos 5) (pos 10)
    ∷ Locks.release (pos 5)
    ∷ Locks.acquire 90 (pos 6) (pos 10)
    ∷ []

won : try_lock go 60 full (pos 1) (pos 8) (pos 30) ≡ (locked, ok true)
unfolding try_lock set_nx live lookup is_expired serialize store new_item get put discrete_ℤ
    ℕ_discrete
won = refl

strangers : Locks.Others go (pos 1) (pos 8) 90 others
unfolding Locks.Others
strangers = (omega arith, ((λ e. absurd (ground arith)), (omega arith, tt)))

lock_exclusive_example :
    (Locks.run go (pos 1) others locked ≡ (locked, false))
    × (unlock go (Locks.run go (pos 1) others locked).0 (pos 1) (pos 8)
        ≡ (delete go locked (pos 1), none))
lock_exclusive_example =
    Locks.lock_exclusive go (pos 1) 60 full locked (pos 8) 30 others won strangers

abbrev pub counted : MemoryCache ℤ
counted = record {
  data_of = (pos 1, record { value = pos 9; expire_at = 0; no_expire = true }) ∷ [];
  max_size = 1;
}

counts : increment_by go 40 full (pos 1) (pos 2) ≡ (counted, ok (pos 9))
unfolding increment_by current live lookup is_expired store get put discrete_ℤ ℕ_discrete wrap64
    ◌+ℤ◌
counts = refl

pub counted_9 : lookup go counted (pos 1) ≡ some (Counters.counter go (pos 9))
unfolding lookup get discrete_ℤ ℕ_discrete
counted_9 = refl
