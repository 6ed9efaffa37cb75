-- ===== src/Tests/Tries.antt =====
-- Requests to upstreams that always fail, or always succeed.
use ai_model_gateway.Base.{ℕ, ◌≡◌, ◌≢◌, ◌≤◌, refl, true, false, some, List, String, occurrences}
use ai_model_gateway.Routing.{ProviderCandidate}
use ai_model_gateway.Attempts.{attempt_loop, initial, out_of_fuel}
use ai_model_gateway.Attempts.Bounds.{attempt_loop_bounded, limit}
use ai_model_gateway.Attempts.Calls.{attempt_loop-Ended, Ended}
use ai_model_gateway.Fallback.{resolve_fallback_models, try_fallback_models}
use ai_model_gateway.Fallback.Limit.{Within, try_fallback_models-Within}
use ai_model_gateway.Fallback.Models.{offers, resolve_fallback_models-offers}
use ai_model_gateway.Tests.Samples.{two_candidates, snapshot, answering, counting, succeeding}

attempt_loop_bounded_example :
    let r =
      attempt_loop
        (answering 503)
        snapshot
        false
        false
        21
        two_candidates
        (initial (answering 503) snapshot false false "large")
        0 in
    (r.0 ≢ out_of_fuel)
    × (r.1.attempts ≤ limit (answering 503) snapshot false false)
    × (limit (answering 503) snapshot false false ≤ 20)
attempt_loop_bounded_example =
    attempt_loop_bounded (answering 503) snapshot false false two_candidates "large" 0

attempt_loop-Ended_example : Ended (answering 200) snapshot false false succeeding 0 (
    attempt_loop
      (answering 200)
      snapshot
      false
      false
      21
      two_candidates
      (initial (answering 200) snapshot false false "large")
      0)
attempt_loop-Ended_example =
    attempt_loop-Ended (answering 200) snapshot false false succeeding two_candidates 21
      (initial (answering 200) snapshot false false "large") 0

abbrev keep_order : String → List ProviderCandidate → ℕ → List ProviderCandidate × ℕ
keep_order model cs w = (cs, w)

try_fallback_models-Within_example :
    Within
      (answering 200)
      (λ pl o. true)
      keep_order
      snapshot
      false
      (counting 200)
      (λ m cs w. refl)
      7
      (try_fallback_models (answering 200) (λ pl o. true) keep_order snapshot false "large" 7)
try_fallback_models-Within_example =
    try_fallback_models-Within (answering 200) (λ pl o. true) keep_order snapshot false
      (counting 200) (λ m cs w. refl) "large" 7

resolve_fallback_models-offers_example :
    occurrences "small" (resolve_fallback_models (some snapshot) "large") ≡ 1
unfolding offers
resolve_fallback_models-offers_example = resolve_fallback_models-offers snapshot "large" "small"
