-- ===== src/Runtime/Candidates.antt =====
-- `orderCandidates` of internal/gateway/api/runtime_state.go. The clock is read once for the gates,
-- `now`, and once for the sticky binding, `later`.
pub mod Order
pub mod Counted
use ai_model_gateway.Base.{
  ℕ, String, Bool, true, false, not, ◌&&◌, Option, none, some, List, [], ◌∷◌, ◌++◌, if◌then◌else◌,
  ◌==◌, length, str_eq, Time,
}
use ai_model_gateway.Snapshot.{FailurePolicy, Snapshot}
use ai_model_gateway.Routing.{ProviderCandidate, provider_id, order_provider_candidates}
use ai_model_gateway.Runtime.{
  ProviderRuntimeState, RuntimeState, provider_gate_state, ensure_provider_state,
  cleanup_expired_sticky, lookup_sticky_provider,
}

-- the variables that the loop over the candidates fills
pub record Classes : Type 0 where
  pub preferred : Option ProviderCandidate
  pub fallback : Option ProviderCandidate
  pub available : List ProviderCandidate
  pub passthrough : List ProviderCandidate

abbrev pub unset : Option ProviderCandidate → Bool
unset none = true
unset (some c) = false

abbrev pub bound_to : Option String → ProviderCandidate → Bool
bound_to none c = false
bound_to (some id) c = str_eq id (provider_id c)

pub classify_one :
    Option String
    → FailurePolicy
    → Time
    → ProviderRuntimeState
    → ProviderCandidate
    → Classes
    → Classes
classify_one sticky policy now st c k =
    let gate = provider_gate_state st policy now in
    if gate.blocked
    then (if gate.passthrough_eligible
        then (if bound_to sticky c && unset k.fallback
            then record k { fallback = some c }
            else record k { passthrough = k.passthrough ++ c ∷ [] })
        else k)
    else if bound_to sticky c && unset k.preferred
    then record k { preferred = some c }
    else record k { available = k.available ++ c ∷ [] }

pub classify :
    Option String
    → FailurePolicy
    → Time
    → List ProviderCandidate
    → RuntimeState
    → Classes
    → Classes × RuntimeState
classify sticky policy now [] s k = (k, s)
classify sticky policy now (c ∷ cs) s k =
    let (st, s') = ensure_provider_state s (provider_id c) in
    classify sticky policy now cs s' (classify_one sticky policy now st c k)

abbrev pub to_list : Option ProviderCandidate → List ProviderCandidate
to_list none = []
to_list (some c) = c ∷ []

abbrev pub no_classes : Classes
no_classes = record { preferred = none; fallback = none; available = []; passthrough = [] }

-- the result, with the sequence number of the weighted order, which both calls of it move
pub record Ordered : Type 0 where
  pub state : RuntimeState
  pub sequence : ℕ
  pub candidates : List ProviderCandidate

pub arrange : RuntimeState → ℕ → Classes → Ordered
arrange s sequence k =
    let (sequence1, available) = order_provider_candidates sequence k.available in
    let (sequence2, passthrough) = order_provider_candidates sequence1 k.passthrough in
    record {
      state = s;
      sequence = sequence2;
      candidates = to_list k.preferred ++ (available ++ (to_list k.fallback ++ passthrough));
    }

-- orderCandidates
pub order_candidates :
    RuntimeState → ℕ → Snapshot → String → String → Time → Time → List ProviderCandidate → Ordered
order_candidates s sequence snap model sticky_key now later candidates =
    if length candidates == 0
    then record { state = s; sequence = sequence; candidates = [] }
    else (let (sticky, s1) =
          lookup_sticky_provider (cleanup_expired_sticky s now) model sticky_key later in
        let (k, s2) =
          classify sticky snap.routing_policy.failure_policy now candidates s1 no_classes in
        arrange s2 sequence k)
