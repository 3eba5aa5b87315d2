-- ===== src/Health.antt =====
-- transport/health/health.go: the checks and the status over all. A checker is its name with what its
-- `Check` returns in the run; details, time stamps and durations are left out. The goroutines of a run end
-- in some order, `order`, and the loop over the map of the results has another, `range`.
pub mod Overall
mod Tests
use microservice_kit.Prelude.{Bool, true, false, List, [], ◌∷◌, ◌++◌, put}

-- `Status`, which is a string: any other text may stand in it
pub data Status (Text : Type 0) : Type 0 where
  up down unknown : Status Text
  other : Text → Status Text

pub record CheckResult (Text : Type 0) : Type 0 where
  pub status : Status Text
  pub message : Text

pub record Checker (Text : Type 0) : Type 0 where
  pub name : Text
  pub check : CheckResult Text

pub record Health (Text : Type 0) : Type 0 where
  pub liveness_checkers : List (Checker Text)
  pub readiness_checkers : List (Checker Text)

pub record Response (Text : Type 0) : Type 0 where
  pub status : Status Text
  pub checks : List (Text × CheckResult Text)

abbrev pub Results : Type 0 → Type 0
Results Text = List (Text × CheckResult Text)

module _ {Text : Type 0} where
  -- `AddLivenessChecker` and `AddReadinessChecker`
  unfoldable pub add_liveness_checker : Health Text → List (Checker Text) → Health Text
  add_liveness_checker h checkers = record h { liveness_checkers = h.liveness_checkers ++ checkers }

  unfoldable pub add_readiness_checker : Health Text → List (Checker Text) → Health Text
  add_readiness_checker h checkers = record h {
    readiness_checkers = h.readiness_checkers ++ checkers;
  }

  -- what the goroutines have to write
  unfoldable pub outcomes : List (Checker Text) → Results Text
  outcomes [] = []
  outcomes (c ∷ cs) = (c.name, c.check) ∷ outcomes cs

  -- the loop for the status over all, which ends at the first that is down
  unfoldable pub overall : Status Text → Results Text → Status Text
  overall s [] = s
  overall s ((_, r) ∷ rs) = elim r.status [
    | down ↦ down
    | unknown ↦ overall unknown rs
    | _ ↦ overall s rs
  ]

  -- a status that is neither down nor unknown counts as one that is up
  unfoldable pub is_up : Status Text → Bool
  is_up s = elim s [ up ↦ true | _ ↦ false ]

module _ {Text : Type 0} (eq : Discrete Text) where
  -- the goroutines write their results to the map one behind the other
  unfoldable pub collect : Results Text → Results Text → Results Text
  collect m [] = m
  collect m ((name, r) ∷ rs) = collect (put eq m name r) rs

  module _ (order range : Results Text → Results Text) where
    unfoldable pub run_checks : List (Checker Text) → Response Text
    run_checks [] = record { status = up; checks = [] }
    run_checks (c ∷ cs) =
        let results = collect [] (order (outcomes (c ∷ cs))) in
        record { status = overall up (range results); checks = results }

    unfoldable pub liveness : Health Text → Response Text
    liveness h = run_checks h.liveness_checkers

    unfoldable pub readiness : Health Text → Response Text
    readiness h = run_checks h.readiness_checkers

    unfoldable pub is_healthy : Health Text → Bool
    is_healthy h = is_up (readiness h).status
