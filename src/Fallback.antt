-- ===== src/Fallback.antt =====
-- internal/gateway/api/fallback.go: the models that stand in for one whose providers all failed.
-- `runtimeState.orderCandidates` is the parameter `order`, and `adaptResponseBodyForClient`, of
-- which only the success counts here, the parameter `adapts`. The telemetry and the writing of the
-- response that follow a success are left out.
pub mod Models
pub mod Limit
use ai_model_gateway.Base.{
  ℕ, zero, suc, ◌+◌, ◌*◌, max_zero, String, Bool, true, false, not, ◌&&◌, ◌||◌, Option, none, some,
  List, [], ◌∷◌, ◌++◌, any, str_eq, leb, ltb, if◌then◌else◌, ◌==◌, Duration, millisecond,
}
use ai_model_gateway.Snapshot.{ModelMapping, ProviderSnapshot, Snapshot}
use ai_model_gateway.Routing.{ProviderCandidate, collect_provider_candidates}
use ai_model_gateway.Attempts.{Outcome, Planned, planned, refused, Upstream, failed}

-- the loop over ModelTable
abbrev pub serves : String → ProviderSnapshot → Bool
serves model p = any (λ (m : ModelMapping). str_eq m.public_model model) p.model_table

-- one round of the loop over FallbackModels; `seen` holds the names in `fallbacks`
pub add_fallback : String → List String → String → List String
add_fallback model fallbacks fb =
    if str_eq fb ""
    then fallbacks
    else if str_eq fb model
    then fallbacks
    else if any (str_eq fb) fallbacks
    then fallbacks
    else fallbacks ++ fb ∷ []

pub add_fallbacks : String → List String → List String → List String
unfolding add_fallback
add_fallbacks model fallbacks [] = fallbacks
add_fallbacks model fallbacks (fb ∷ fbs) = add_fallbacks model (add_fallback model fallbacks fb) fbs

pub fallbacks_of : String → List String → List ProviderSnapshot → List String
unfolding add_fallbacks
fallbacks_of model fallbacks [] = fallbacks
fallbacks_of model fallbacks (p ∷ ps) =
    fallbacks_of model
      (if serves model p then add_fallbacks model fallbacks p.fallback_models else fallbacks) ps

-- ResolveFallbackModels
pub resolve_fallback_models : Option Snapshot → String → List String
unfolding fallbacks_of
resolve_fallback_models none model = []
resolve_fallback_models (some snap) model = fallbacks_of model [] snap.providers

abbrev pub max_fallback_attempts : ℕ
max_fallback_attempts = 10

-- how the loops stand after a candidate or a model: the next one, `return false` or `return true`
pub data Step (W : Type 0) : Type 0 where
  next : ℕ → W → Step W
  give_up : ℕ → W → Step W
  succeed : ProviderCandidate → Outcome → ℕ → W → Step W

abbrev pub then_next : {W : Type 0} → Step W → (ℕ → W → Step W) → Step W
then_next (next n w) k = k n w
then_next (give_up n w) k = give_up n w
then_next (succeed c o n w) k = succeed c o n w

module _ {W Plan : Type 0} (up : Upstream W Plan) (adapts : Plan → Outcome → Bool)
    (order : String → List ProviderCandidate → W → List ProviderCandidate × W) (snap : Snapshot)
    (stream : Bool) where
  abbrev pub retry_budget : Duration
  retry_budget = max_zero snap.routing_policy.retry.max_elapsed_ms * millisecond

  pub stopped : W → Bool
  stopped w = up.cancelled w || ltb 0 retry_budget && leb retry_budget (up.elapsed w)

  -- whether an outcome that did not fail can be written to the client
  abbrev pub writable : Plan → Outcome → Bool
  writable pl o = (stream && elim o.stream_body [ none ↦ false | some _ ↦ true ]) || adapts pl o

  -- the part of a round that follows the checks, with the attempt already counted
  pub forward_candidate : ProviderCandidate → Planned Plan → ℕ → W → Step W
  forward_candidate c (refused pl e) attempts w = next attempts w
  forward_candidate c (planned pl) attempts w =
      let (o, w1) = up.forward c pl w in
      let w2 = up.report c o w1 in
      if failed o
      then next attempts w2
      else if writable pl o
      then succeed c o attempts w2
      else next attempts w2

  -- the loop over the candidates of one model
  pub try_candidates : List ProviderCandidate → ℕ → W → Step W
  unfolding forward_candidate stopped
  try_candidates [] attempts w = next attempts w
  try_candidates (c ∷ cs) attempts w =
      let rest =
        then_next (forward_candidate c (up.build_compat_plan c) (attempts + 1) w)
          (try_candidates cs) in
      if stopped w
      then give_up attempts w
      else if leb max_fallback_attempts attempts
      then give_up attempts w
      else rest

  abbrev pub is_empty : List ProviderCandidate → Bool
  is_empty [] = true
  is_empty (c ∷ cs) = false

  pub try_model : String → ℕ → W → Step W
  unfolding try_candidates
  try_model model attempts w =
      let candidates = collect_provider_candidates (some snap) model in
      let (ordered, w1) = order model candidates w in
      if is_empty candidates then next attempts w else try_candidates ordered attempts w1

  pub try_models : List String → ℕ → W → Step W
  unfolding try_model
  try_models [] attempts w = next attempts w
  try_models (model ∷ models) attempts w =
      let rest = then_next (try_model model attempts w) (try_models models) in
      if stopped w then give_up attempts w else rest

  -- tryFallbackModels
  pub try_fallback_models : String → W → Step W
  unfolding resolve_fallback_models try_models
  try_fallback_models model w = try_models (resolve_fallback_models (some snap) model) 0 w
