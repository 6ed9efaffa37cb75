-- ===== src/Attempts/Calls.antt =====
-- How the attempts that are counted relate to the requests that are forwarded.
use ai_model_gateway.Base.{
  ℕ, zero, suc, ◌+◌, ◌<◌, ◌≡◌, refl, Bool, true, false, none, List, [], ◌∷◌, arith, if_intro,
  Bool-cases, inl, inr, ◌⊎◌, not, if◌then◌else◌, Duration,
}
use ai_model_gateway.Snapshot.{Snapshot}
use ai_model_gateway.Routing.{ProviderCandidate}
use ai_model_gateway.Attempts.{
  Upstream, Outcome, planned, refused, Progress, stop, Run, may_try, over_budget, over_cap, attempt,
  try_provider, serve, attempt_loop, Planned, failed, goes_on,
}
use ai_model_gateway.Attempts.Bounds.{then_next-intro}

-- A meter of the world that only a forwarded request moves, by what `by` says of its outcome.
pub record Meter {W Plan : Type 0} (up : Upstream W Plan) (by : Outcome → ℕ) : Type 0 where
  pub read : W → ℕ
  pub forwarded :
      (c : ProviderCandidate) (pl : Plan) (w : W)
      → read (up.forward c pl w).1 ≡ read w + by (up.forward c pl w).0
  pub reported : (c : ProviderCandidate) (o : Outcome) (w : W) → read (up.report c o w) ≡ read w
  pub waited : (d : Duration) (w : W) → read (up.wait d w) ≡ read w

abbrev pub one : Outcome → ℕ
one o = 1

abbrev pub success : Outcome → ℕ
success o = if failed o then 0 else 1

module _ {W Plan : Type 0} (up : Upstream W Plan) (snap : Snapshot)
    (stream disable_retries : Bool) where
  module _ (calls : Meter up one) where
    open calls use {read, forwarded, reported, waited}

    -- requests forwarded since the world `w0`, against the attempts counted since `n0`
    abbrev Counted : ℕ → W → Run up snap stream disable_retries → Type 0
    Counted n0 w0 r = read r.2 + n0 ≡ read w0 + r.1.attempts

    Counted-attempt :
        (c : ProviderCandidate) (pl : Plan) (p : Progress Plan) (w : W)
        → let r = attempt up snap stream disable_retries c pl p w in
          (read r.2 ≡ read w + 1) × (r.1.attempts ≡ p.attempts + 1)
    unfolding attempt
    Counted-attempt c pl p w =
        if_intro
          (λ (r : Bool × Progress Plan × W).
            (read r.2 ≡ read w + 1) × (r.1.attempts ≡ p.attempts + 1))
          _ (λ _. (omega (arith, waited, reported, forwarded), refl))
          (λ _. (omega (arith, reported, forwarded), refl))

    Counted-try_provider :
        (fuel : ℕ) (c : ProviderCandidate) (pl : Plan) (pa : ℕ) (p : Progress Plan) (w : W)
        → Counted p.attempts w (try_provider up snap stream disable_retries fuel c pl pa p w)
    unfolding try_provider
    Counted-try_provider zero c pl pa p w = refl
    Counted-try_provider (suc fuel) c pl pa p w =
        let (go, p1, w1) = attempt up snap stream disable_retries c pl p w in
        let once = Counted-attempt c pl p w in
        if_intro (Counted p.attempts w) (not (may_try up snap stream disable_retries c pa p))
          (λ _. refl)
          λ _.
            if_intro (Counted p.attempts w) (over_budget up snap stream disable_retries w)
              (λ _. refl)
              λ _.
                if_intro (Counted p.attempts w) (over_cap up snap stream disable_retries p)
                  (λ _. refl)
                  λ _.
                    if_intro (Counted p.attempts w) go
                      (λ _. omega (arith, once, Counted-try_provider fuel c pl (pa + 1) p1 w1))
                      (λ _. omega (arith, once))

    Counted-serve :
        (fuel : ℕ) (c : ProviderCandidate) (o : Planned Plan) (p : Progress Plan) (w : W)
        → Counted p.attempts w (serve up snap stream disable_retries fuel c o p w)
    unfolding serve
    Counted-serve fuel c (refused pl e) p w = refl
    Counted-serve fuel c (planned pl) p w = Counted-try_provider fuel c pl 0 p w

    -- The attempts that the loop counts are the requests that it forwards.
    pub attempt_loop-calls :
        (cs : List ProviderCandidate) (fuel : ℕ) (p : Progress Plan) (w : W)
        → Counted p.attempts w (attempt_loop up snap stream disable_retries fuel cs p w)
    unfolding attempt_loop
    attempt_loop-calls [] fuel p w = refl
    attempt_loop-calls (c ∷ cs) fuel p w =
        then_next-intro up snap stream disable_retries (Counted p.attempts w) (Counted p.attempts w)
          (serve up snap stream disable_retries fuel c (up.build_compat_plan c) p w)
          (attempt_loop up snap stream disable_retries fuel cs)
          (Counted-serve fuel c (up.build_compat_plan c) p w)
          (λ p' w' h. omega (arith, attempt_loop-calls cs fuel p' w')) (λ p' w' h. h) (λ p' w' h. h)

  module _ (successes : Meter up success) where
    open successes use {read, forwarded, reported, waited}

    -- no upstream success yet, or one, with which the loop stopped and which is its result
    abbrev pub Ended : W → Run up snap stream disable_retries → Type 0
    Ended w0 r =
        (read r.2 ≡ read w0)
        ⊎ ((read r.2 ≡ read w0 + 1)
            × (r.0 ≡ stop)
            × (r.1.forward_err ≡ none)
            × (r.1.status_code < 400))

    abbrev Single : Bool → Progress Plan → W → W → Type 0
    Single go p w0 w1 =
        (read w1 ≡ read w0)
        ⊎ ((read w1 ≡ read w0 + 1) × (go ≡ false) × (p.forward_err ≡ none) × (p.status_code < 400))

    not_failed : (o : Outcome) → failed o ≡ false → (o.forward_err ≡ none) × (o.status_code < 400)
    not_failed o h = ground arith

    success-failed : (o : Outcome) → failed o ≡ true → success o ≡ 0
    success-failed o h = rw h

    success_good : (o : Outcome) → failed o ≡ false → success o ≡ 1
    success_good o h = rw h

    goes_on-failed :
        (n : ℕ) (o : Outcome) (w : W)
        → goes_on up snap stream disable_retries n o w ≡ true
        → failed o ≡ true
    unfolding goes_on
    goes_on-failed n o w h = ground arith

    Ended-attempt :
        (c : ProviderCandidate) (pl : Plan) (p : Progress Plan) (w : W)
        → let r = attempt up snap stream disable_retries c pl p w in Single r.0 r.1 w r.2
    unfolding attempt
    Ended-attempt c pl p w =
        let (o, w1) = up.forward c pl w in
        if_intro (λ (r : Bool × Progress Plan × W). Single r.0 r.1 w r.2)
          (goes_on up snap stream disable_retries (p.attempts + 1) o (up.report c o w1))
          (λ on. inl (
            omega (
              arith,
              waited,
              reported,
              forwarded,
              success-failed o (goes_on-failed (p.attempts + 1) o (up.report c o w1) on),
            )))
          (λ off. elim (Bool-cases (failed o)) [
            | inl bad ↦ inl (omega (arith, reported, forwarded, success-failed o bad))
            | inr good ↦ inr (
              omega (arith, reported, forwarded, success_good o good),
              refl,
              (not_failed o good).0,
              (not_failed o good).1,
            )
          ])

    Ended-try_provider :
        (fuel : ℕ) (c : ProviderCandidate) (pl : Plan) (pa : ℕ) (p : Progress Plan) (w : W)
        → Ended w (try_provider up snap stream disable_retries fuel c pl pa p w)
    unfolding try_provider
    Ended-try_provider zero c pl pa p w = inl refl
    Ended-try_provider (suc fuel) c pl pa p w =
        let (go, p1, w1) = attempt up snap stream disable_retries c pl p w in
        if_intro (Ended w) (not (may_try up snap stream disable_retries c pa p)) (λ _. inl refl)
          λ _.
            if_intro (Ended w) (over_budget up snap stream disable_retries w) (λ _. inl refl)
              λ _.
                if_intro (Ended w) (over_cap up snap stream disable_retries p) (λ _. inl refl)
                  λ _.
                    if_intro (Ended w) go
                      (λ on. ground (
                        arith,
                        Ended-attempt c pl p w,
                        Ended-try_provider fuel c pl (pa + 1) p1 w1,
                      ))
                      (λ off. ground (arith, Ended-attempt c pl p w))

    Ended-serve :
        (fuel : ℕ) (c : ProviderCandidate) (o : Planned Plan) (p : Progress Plan) (w : W)
        → Ended w (serve up snap stream disable_retries fuel c o p w)
    unfolding serve
    Ended-serve fuel c (refused pl e) p w = inl refl
    Ended-serve fuel c (planned pl) p w = Ended-try_provider fuel c pl 0 p w

    -- The loop ends with the first upstream success: it meets at most one, and then that success
    -- stopped it and is its result, with no transport error and a status below 400.
    pub attempt_loop-Ended :
        (cs : List ProviderCandidate) (fuel : ℕ) (p : Progress Plan) (w : W)
        → Ended w (attempt_loop up snap stream disable_retries fuel cs p w)
    unfolding attempt_loop
    attempt_loop-Ended [] fuel p w = inl refl
    attempt_loop-Ended (c ∷ cs) fuel p w =
        then_next-intro up snap stream disable_retries (Ended w) (Ended w)
          (serve up snap stream disable_retries fuel c (up.build_compat_plan c) p w)
          (attempt_loop up snap stream disable_retries fuel cs)
          (Ended-serve fuel c (up.build_compat_plan c) p w)
          (λ p' w' h. ground (arith, attempt_loop-Ended cs fuel p' w')) (λ p' w' h. h)
          (λ p' w' h. h)
