-- ===== src/Health/Tests.antt =====
-- Checks that end in another order than they were started, and the theorem on them at these.
use native.Mathlib.Decide.{ℕ_discrete}
use mathlib.Core.List.{Permᴰ}
use microservice_kit.Prelude.{ℕ, ◌≡◌, refl, ◌&&◌, not, [], ◌∷◌, get, put}
use microservice_kit.Health.{
  Status, up, down, unknown, Results, Checker, Health, outcomes, overall, collect, run_checks,
  liveness, readiness, is_healthy,
}
use microservice_kit.Health.Overall.{worst, any_down, any_unknown, IsFresh, checks-worst}

-- the first two change places
abbrev swapped : Results ℕ → Results ℕ
swapped [] = []
swapped (x ∷ []) = x ∷ []
swapped (x ∷ y ∷ rs) = y ∷ x ∷ rs

swapped-perm : (rs : Results ℕ) → Permᴰ (swapped rs) rs
swapped-perm [] = Permᴰ.nil
swapped-perm (x ∷ []) = Permᴰ.cons refl Permᴰ.nil
swapped-perm (x ∷ y ∷ rs) = Permᴰ.swap refl refl

abbrev checker : ℕ → Status ℕ → Checker ℕ
checker name s = record { name = name; check = record { status = s; message = 0 } }

abbrev service : Health ℕ
service = record {
  liveness_checkers = [];
  readiness_checkers = checker 1 down ∷ checker 2 unknown ∷ checker 3 up ∷ [];
}

service_live : IsFresh ℕ_discrete [] (swapped (outcomes service.liveness_checkers))
unfolding IsFresh outcomes
service_live = tt

service_ready : IsFresh ℕ_discrete [] (swapped (outcomes service.readiness_checkers))
unfolding IsFresh outcomes get ℕ_discrete
service_ready = (refl, (refl, (refl, tt)))

-- of two checkers with one name, the result that comes last is kept, so that a check that is down is lost
same_names :
    (run_checks ℕ_discrete (λ rs. rs) (λ rs. rs) (checker 1 down ∷ checker 1 up ∷ [])).status ≡ up
unfolding run_checks outcomes overall collect put ℕ_discrete
same_names = refl

checks-worst_example :
    ((liveness ℕ_discrete swapped swapped service).status
      ≡ worst (outcomes service.liveness_checkers))
    × Permᴰ
        (liveness ℕ_discrete swapped swapped service).checks
        (outcomes service.liveness_checkers)
    × ((readiness ℕ_discrete swapped swapped service).status
        ≡ worst (outcomes service.readiness_checkers))
    × Permᴰ
        (readiness ℕ_discrete swapped swapped service).checks
        (outcomes service.readiness_checkers)
    × (is_healthy ℕ_discrete swapped swapped service ≡ (
        not (any_down (outcomes service.readiness_checkers))
        && not (any_unknown (outcomes service.readiness_checkers))))
checks-worst_example =
    checks-worst ℕ_discrete swapped swapped swapped-perm swapped-perm service service_live
      service_ready
