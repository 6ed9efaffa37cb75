-- ===== src/Attempts/Bounds.antt =====
-- Every request ends after at most 20 attempts.
use ai_model_gateway.Base.{
  ℕ, zero, suc, ◌+◌, ◌≤◌, ◌<◌, ◌≡◌, ◌≢◌, refl, Bool, false, some, List, [], ◌∷◌, arith, ◌==◌,
  if◌then◌else◌, if_intro, String, not,
}
use ai_model_gateway.Snapshot.{Snapshot}
use ai_model_gateway.Routing.{ProviderCandidate}
use ai_model_gateway.Routing.Retry.{max_total_attempts-le}
use ai_model_gateway.Attempts.{
  Upstream, Planned, planned, refused, Progress, done, stop, out_of_fuel, Run, max_attempts,
  may_try, over_budget, over_cap, attempt, try_provider, serve, attempt_loop, initial, then_next,
}

module _ {W Plan : Type 0} (up : Upstream W Plan) (snap : Snapshot)
    (stream disable_retries : Bool) where
  abbrev cap : ℕ
  cap = max_attempts up snap stream disable_retries

  abbrev state_of : Bool × Progress Plan × W → Progress Plan
  state_of r = r.1

  attempts-attempt :
      (c : ProviderCandidate) (pl : Plan) (p : Progress Plan) (w : W)
      → (attempt up snap stream disable_retries c pl p w).1.attempts ≡ p.attempts + 1
  unfolding attempt
  attempts-attempt c pl p w =
      if_intro (λ (r : Bool × Progress Plan × W). r.1.attempts ≡ p.attempts + 1) _ (λ _. refl)
        (λ _. refl)

  cap-le : cap ≤ 20
  cap-le = ground (arith, max_total_attempts-le (some snap))

  -- the configured number of attempts, and 20 where none is configured
  abbrev pub limit : ℕ
  limit = if cap == 0 then 20 else cap

  limit-le : limit ≤ 20
  limit-le = ground (arith, cap-le)

  below_cap :
      (c : ProviderCandidate) (pa : ℕ) (p : Progress Plan)
      → not (may_try up snap stream disable_retries c pa p) ≡ false
      → over_cap up snap stream disable_retries p ≡ false
      → p.attempts < limit
  unfolding may_try over_cap
  below_cap c pa p may cap_left = ground (arith, cap-le)

  -- a loop that has been left with its fuel, and within the cap
  abbrev pub IsBounded : Run up snap stream disable_retries → Type 0
  IsBounded r = (r.0 ≢ out_of_fuel) × (r.1.attempts ≤ limit)

  try_provider-IsBounded :
      (fuel : ℕ) (c : ProviderCandidate) (pl : Plan) (pa : ℕ) (p : Progress Plan) (w : W)
      → p.attempts ≤ limit
      → limit < fuel + p.attempts
      → IsBounded (try_provider up snap stream disable_retries fuel c pl pa p w)
  unfolding try_provider
  try_provider-IsBounded zero c pl pa p w h f = absurd (omega arith)
  try_provider-IsBounded (suc fuel) c pl pa p w h f =
      if_intro IsBounded (not (may_try up snap stream disable_retries c pa p)) (λ _. (cc, h))
        λ may.
          if_intro IsBounded (over_budget up snap stream disable_retries w) (λ _. (cc, h))
            λ _.
              if_intro IsBounded (over_cap up snap stream disable_retries p) (λ _. (cc, h))
                λ room.
                  let (go, p1, w1) = attempt up snap stream disable_retries c pl p w in
                  if_intro IsBounded go
                    (λ _.
                      try_provider-IsBounded fuel c pl (pa + 1) p1 w1
                        (omega (arith, attempts-attempt c pl p w, below_cap c pa p may room))
                        (omega (arith, attempts-attempt c pl p w)))
                    (λ _. (cc, omega (arith, attempts-attempt c pl p w, below_cap c pa p may room)))

  serve-IsBounded :
      (fuel : ℕ) (c : ProviderCandidate) (o : Planned Plan) (p : Progress Plan) (w : W)
      → p.attempts ≤ limit
      → limit < fuel + p.attempts
      → IsBounded (serve up snap stream disable_retries fuel c o p w)
  unfolding serve
  serve-IsBounded fuel c (refused pl e) p w h f = (cc, h)
  serve-IsBounded fuel c (planned pl) p w h f = try_provider-IsBounded fuel c pl 0 p w h f

  pub then_next-intro :
      (P Q : Run up snap stream disable_retries → Type 0) (r : Run up snap stream disable_retries)
      (next : Progress Plan → W → Run up snap stream disable_retries)
      → P r
      → ((p : Progress Plan) (w : W) → P (done, p, w) → Q (next p w))
      → ((p : Progress Plan) (w : W) → P (stop, p, w) → Q (stop, p, w))
      → ((p : Progress Plan) (w : W) → P (out_of_fuel, p, w) → Q (out_of_fuel, p, w))
      → Q (then_next up snap stream disable_retries r next)
  then_next-intro P Q (done, p, w) next h d s o = d p w h
  then_next-intro P Q (stop, p, w) next h d s o = s p w h
  then_next-intro P Q (out_of_fuel, p, w) next h d s o = o p w h

  attempt_loop-IsBounded :
      (cs : List ProviderCandidate) (fuel : ℕ) (p : Progress Plan) (w : W)
      → p.attempts ≤ limit
      → limit < fuel
      → IsBounded (attempt_loop up snap stream disable_retries fuel cs p w)
  unfolding attempt_loop
  attempt_loop-IsBounded [] fuel p w h f = (cc, h)
  attempt_loop-IsBounded (c ∷ cs) fuel p w h f =
      then_next-intro IsBounded IsBounded
        (serve up snap stream disable_retries fuel c (up.build_compat_plan c) p w)
        (attempt_loop up snap stream disable_retries fuel cs)
        (serve-IsBounded fuel c (up.build_compat_plan c) p w h (omega arith))
        (λ p' w' b. attempt_loop-IsBounded cs fuel p' w' b.1 f) (λ p' w' b. b) (λ p' w' b. b)

  -- With fuel for 21 rounds of each inner loop, the loop over the candidates ends by itself,
  -- whatever the upstreams answer, and it has made at most the configured number of attempts,
  -- which is at most 20, or at most 20 where retries are unlimited.
  pub attempt_loop_bounded :
      (cs : List ProviderCandidate) (routing_model : String) (w : W)
      → let r =
          attempt_loop up snap stream disable_retries 21 cs
            (initial up snap stream disable_retries routing_model)
            w in
        (r.0 ≢ out_of_fuel) × (r.1.attempts ≤ limit) × (limit ≤ 20)
  attempt_loop_bounded cs routing_model w =
      let b =
        attempt_loop-IsBounded cs 21 (initial up snap stream disable_retries routing_model) w
          (unfold initial in omega arith) (omega (arith, limit-le)) in
      (b.0, b.1, limit-le)
