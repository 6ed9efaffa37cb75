-- ===== src/Routing.antt =====
-- internal/gateway/api/routing.go, and `collectProviderCandidates` of handler.go: which providers
-- may serve a model, in which order they are tried, and how often.
pub mod Order
pub mod Picked
pub mod Shares
pub mod Kept
pub mod Retry
use ai_model_gateway.Base.{
  ℕ, zero, suc, ◌+◌, ◌-◌, ◌*◌, ◌%◌, ◌^◌, ℤ, pos, negsuc, max_zero, is_pos, String, Bool, true,
  false, not, ◌&&◌, ◌||◌, Option, none, some, List, [], ◌∷◌, ◌++◌, leb, ltb, if◌then◌else◌, length,
  get_elem?, replicate, any, str_eq, ◌==◌, Duration, millisecond,
}
use ai_model_gateway.Snapshot.{ModelMapping, ProviderSnapshot, Snapshot}

pub record ProviderCandidate : Type 0 where
  pub provider : ProviderSnapshot
  pub upstream_model : String
  pub weight : ℤ

abbrev pub provider_id : ProviderCandidate → String
provider_id c = c.provider.provider_id

-- normalizeWeight
abbrev pub normalize_weight : ℤ → ℕ
normalize_weight (pos zero) = 1
normalize_weight (pos (suc n)) = suc n
normalize_weight (negsuc n) = 1

-- the first mapping of the model, where the inner loop breaks
find_mapping : List ModelMapping → String → Option ModelMapping
find_mapping [] model = none
find_mapping (m ∷ ms) model = if str_eq m.public_model model then some m else find_mapping ms model

candidate_of : ProviderSnapshot → Option ModelMapping → List ProviderCandidate
candidate_of p none = []
candidate_of p (some m) =
    record {
      provider = p;
      upstream_model = m.upstream_model;
      weight = pos (normalize_weight p.execution_policy.weight);
    }
    ∷ []

collect_from : List ProviderSnapshot → String → List ProviderCandidate
unfolding candidate_of find_mapping
collect_from [] model = []
collect_from (p ∷ ps) model =
    (if not p.execution_policy.enabled
      then []
      else candidate_of p (find_mapping p.model_table model))
    ++ collect_from ps model

-- collectProviderCandidates
pub collect_provider_candidates : Option Snapshot → String → List ProviderCandidate
unfolding collect_from
collect_provider_candidates none model = []
collect_provider_candidates (some snap) model = collect_from snap.providers model

-- the pool of indices, each as often as its candidate weighs
unfoldable pub weighted_pool : ℕ → List ProviderCandidate → List ℕ
weighted_pool idx [] = []
weighted_pool idx (c ∷ cs) = replicate (normalize_weight c.weight) idx ++ weighted_pool (idx + 1) cs

pub record Walk : Type 0 where
  pub seen : List String
  pub ordered : List ProviderCandidate

-- one round of the loop; the index is always in range
pub visit : Option ProviderCandidate → Walk → Walk
visit none w = w
visit (some c) w =
    if any (str_eq (provider_id c)) w.seen
    then w
    else record { seen = provider_id c ∷ w.seen; ordered = w.ordered ++ c ∷ [] }

-- `candidates[weightedPool[(start+offset)%len(weightedPool)]]`
abbrev pub pick : List ProviderCandidate → List ℕ → ℕ → ℕ → Option ProviderCandidate
pick candidates pool start offset = elim (get_elem? pool ((start + offset) % length pool)) [
  | none ↦ none
  | some idx ↦ get_elem? candidates idx
]

-- the loop over `offset`, with the rounds that are left
pub walk : List ProviderCandidate → List ℕ → ℕ → ℕ → ℕ → Walk → List ProviderCandidate
walk candidates pool start zero offset w = w.ordered
walk candidates pool start (suc rounds) offset w =
    let rest =
      walk candidates pool start rounds (offset + 1)
        (visit (pick candidates pool start offset) w) in
    if ltb (length w.ordered) (length candidates) then rest else w.ordered

abbrev u64 : ℕ → ℕ
u64 n = n % 2 ^ 64

-- orderProviderCandidates; the shared `routingSequence` goes in and comes out
pub order_provider_candidates : ℕ → List ProviderCandidate → ℕ × List ProviderCandidate
order_provider_candidates sequence candidates =
    let pool = weighted_pool 0 candidates in
    if leb (length candidates) 1
    then (sequence, candidates)
    else if length pool == 0
    then (sequence, candidates)
    else (
      u64 (sequence + 1),
      walk candidates pool (u64 (u64 (sequence + 1) + (2 ^ 64 - 1)) % length pool) (length pool) 0
          (record { seen = []; ordered = [] }),
    )

abbrev pub hard_retry_cap : ℕ
hard_retry_cap = 20

-- maxTotalAttempts; 0 means that no cap is configured
pub max_total_attempts : Option Snapshot → ℕ
max_total_attempts none = 1
max_total_attempts (some snap) =
    let base = 1 + max_zero snap.routing_policy.max_retries in
    if snap.routing_policy.retry.infinite_on_error
    then 0
    else if ltb hard_retry_cap base
    then hard_retry_cap
    else base

-- determineRouteMode; `trim_space` is the strategy's trimmed text
pub determine_route_mode : List ProviderCandidate → Option Snapshot → (String → String) → String
unfolding max_total_attempts
determine_route_mode candidates snap trim_space =
    if leb (length candidates) 1 && leb (max_total_attempts snap) 1 then "direct" else elim snap [
      | none ↦ "weighted_failover"
      | some s ↦
          if str_eq (trim_space s.routing_policy.strategy) ""
          then "weighted_failover"
          else trim_space s.routing_policy.strategy
    ]
