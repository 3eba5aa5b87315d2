-- ===== src/Health/Overall.antt =====
-- transport/health/health.go: the status over all does not hang on the order in which the checks end.
use mathlib.Core.List.{Permᴰ, append_assoc, append-nil}
use microservice_kit.Prelude.{
  ◌≡◌, refl, sym, ◌∙◌, subst, Bool, true, false, ◌&&◌, not, none, List, [], ◌∷◌, ◌++◌, arith,
  if◌then◌else◌, get, put,
}
use microservice_kit.Health.{
  Status, CheckResult, up, down, unknown, Results, Checker, Health, outcomes, overall, is_up,
  collect, run_checks, liveness, readiness, is_healthy,
}

module _ {Text : Type 0} where
  pub any_down : Results Text → Bool
  any_down [] = false
  any_down ((_, r) ∷ rs) = elim r.status [ down ↦ true | _ ↦ any_down rs ]

  pub any_unknown : Results Text → Bool
  any_unknown [] = false
  any_unknown ((_, r) ∷ rs) = elim r.status [ unknown ↦ true | _ ↦ any_unknown rs ]

  -- down where some check is down, or else unknown where some is, and up otherwise
  abbrev pub worst : Results Text → Status Text
  worst rs = if any_down rs then down else if any_unknown rs then unknown else up

  overall-unknown :
      (rs : Results Text) → overall unknown rs ≡ (if any_down rs then down else unknown)
  unfolding overall any_down
  overall-unknown [] = refl
  overall-unknown ((name, r) ∷ rs) = ground (arith, overall-unknown rs)

  overall-worst : (rs : Results Text) → overall up rs ≡ worst rs
  unfolding overall any_down any_unknown
  overall-worst [] = refl
  overall-worst ((name, r) ∷ rs) = ground (arith, overall-worst rs, overall-unknown rs)

  any_down-perm : {xs ys : Results Text} → Permᴰ xs ys → any_down xs ≡ any_down ys
  unfolding any_down
  any_down-perm Permᴰ.nil = refl
  any_down-perm (Permᴰ.cons e p) = ground (arith, any_down-perm p)
  any_down-perm (Permᴰ.swap e f) = ground arith
  any_down-perm (Permᴰ.trans p q) = any_down-perm p ∙ any_down-perm q

  any_unknown-perm : {xs ys : Results Text} → Permᴰ xs ys → any_unknown xs ≡ any_unknown ys
  unfolding any_unknown
  any_unknown-perm Permᴰ.nil = refl
  any_unknown-perm (Permᴰ.cons e p) = ground (arith, any_unknown-perm p)
  any_unknown-perm (Permᴰ.swap e f) = ground arith
  any_unknown-perm (Permᴰ.trans p q) = any_unknown-perm p ∙ any_unknown-perm q

module _ {Text : Type 0} (eq : Discrete Text) where
  -- no name stands among those before it, nor in `m`
  unfoldable pub IsFresh : Results Text → Results Text → Type 0
  IsFresh m [] = Unit
  IsFresh m ((name, r) ∷ rs) = (get eq m name ≡ none) × IsFresh (m ++ ((name, r) ∷ [])) rs

  put_absent :
      (m : Results Text) (name : Text) (r : CheckResult Text)
      → get eq m name ≡ none
      → put eq m name r ≡ m ++ ((name, r) ∷ [])
  unfolding get put
  put_absent [] name r e = refl
  put_absent ((k, v) ∷ m) name r e = ground (arith, put_absent m name r)

  collect-append : (m rs : Results Text) → IsFresh m rs → collect eq m rs ≡ m ++ rs
  unfolding collect IsFresh
  collect-append m [] h = sym (append-nil m)
  collect-append m ((name, r) ∷ rs) h =
      rw (put_absent m name r h.0, collect-append (m ++ ((name, r) ∷ [])) rs h.1)
        (append_assoc m ((name, r) ∷ []) rs)

  module _ (order range : Results Text → Results Text)
      (order-perm : (rs : Results Text) → Permᴰ (order rs) rs)
      (range-perm : (rs : Results Text) → Permᴰ (range rs) rs) where
    run_checks-worst :
        (cs : List (Checker Text))
        → IsFresh [] (order (outcomes cs))
        → ((run_checks eq order range cs).status ≡ worst (outcomes cs))
          × Permᴰ (run_checks eq order range cs).checks (outcomes cs)
    unfolding run_checks outcomes any_down any_unknown
    run_checks-worst [] h = (refl, Permᴰ.nil)
    run_checks-worst (c ∷ cs) h =
        let rs = outcomes (c ∷ cs) in
        let kept : collect eq [] (order rs) ≡ order rs = collect-append [] (order rs) h in
        let p : Permᴰ (range (collect eq [] (order rs))) rs =
          Permᴰ.trans (range-perm (collect eq [] (order rs)))
            (subst (λ xs. Permᴰ xs rs) (sym kept) (order-perm rs)) in
        (
          ground (
            arith,
            overall-worst (range (collect eq [] (order rs))),
            any_down-perm p,
            any_unknown-perm p,
          ),
          subst (λ xs. Permᴰ xs rs) (sym kept) (order-perm rs),
        )

    -- Where the checkers of each kind have different names, the checks of liveness and of readiness answer
    -- with the worst status, whatever the order in which they end and that of the loop over the map, and
    -- hold the result of each checker; the service is healthy exactly where no check of readiness is down
    -- or unknown.
    pub checks-worst :
        (h : Health Text)
        → IsFresh [] (order (outcomes h.liveness_checkers))
        → IsFresh [] (order (outcomes h.readiness_checkers))
        → ((liveness eq order range h).status ≡ worst (outcomes h.liveness_checkers))
          × Permᴰ (liveness eq order range h).checks (outcomes h.liveness_checkers)
          × ((readiness eq order range h).status ≡ worst (outcomes h.readiness_checkers))
          × Permᴰ (readiness eq order range h).checks (outcomes h.readiness_checkers)
          × (is_healthy eq order range h ≡ (
              not (any_down (outcomes h.readiness_checkers))
              && not (any_unknown (outcomes h.readiness_checkers))))
    unfolding liveness readiness is_healthy is_up
    checks-worst h live ready =
        let (s, p) = run_checks-worst h.liveness_checkers live in
        let (t, q) = run_checks-worst h.readiness_checkers ready in (s, p, t, q, ground (arith, t))
