-- ===== src/Attempts.antt =====
-- The attempt loop of `handleChatOrMessages` in internal/gateway/api/handler.go: from the ordered
-- candidates to the result that the response is written from.
-- What the loop calls is a parameter: the world (clock, upstreams, runtime state), the forwarding
-- of a request, the report of its result, the wait of a backoff, and `buildCompatPlan`.
pub mod Bounds
pub mod Calls
use ai_model_gateway.Base.{
  ℕ, zero, suc, ◌+◌, ◌-◌, ◌*◌, String, Bool, true, false, not, ◌&&◌, ◌||◌, Option, none, some, List,
  [], ◌∷◌, max_zero, leb, ltb, if◌then◌else◌, ◌==◌, Duration, millisecond,
}
use ai_model_gateway.Snapshot.{ProviderSnapshot, Snapshot}
use ai_model_gateway.Routing.{ProviderCandidate, max_total_attempts}
use ai_model_gateway.Routing.Retry.{should_retry_attempt, backoff_delay}

-- what `forwardToUpstream` returns; the error message is `extractErrorMessage` of it
pub record Outcome : Type 0 where
  pub status_code : ℕ
  pub resp_body : String
  pub stream_body : Option String
  pub content_type : String
  pub latency : Duration
  pub forward_err : Option String
  pub error_message : String

-- the error of `buildCompatPlan`, and whether it is `errMessagesAPIRequiresAnthropicProvider`
pub record CompatError : Type 0 where
  pub message : String
  pub requires_anthropic : Bool

pub data Planned (Plan : Type 0) : Type 0 where
  planned : Plan → Planned Plan
  refused : Plan → CompatError → Planned Plan

pub record Upstream (W Plan : Type 0) : Type 0 where
  pub build_compat_plan : ProviderCandidate → Planned Plan
  pub forward : ProviderCandidate → Plan → W → Outcome × W
  pub report : ProviderCandidate → Outcome → W → W
  pub wait : Duration → W → W
  pub elapsed : W → Duration
  pub cancelled : W → Bool
  pub to_lower : String → String

-- the variables that the loop assigns
pub record Progress (Plan : Type 0) : Type 0 where
  pub attempts : ℕ
  pub status_code : ℕ
  pub resp_body : String
  pub stream_body : Option String
  pub content_type : String
  pub latency : Duration
  pub forward_err : Option String
  pub provider : Option ProviderSnapshot
  pub effective_model : String
  pub error_message : String
  pub compat_plan : Option Plan
  pub stream_retry : Bool

-- how a loop was left: at its end, by `break attemptLoop`, or without the fuel to go on
pub data Flow : Type 0 where
  done stop out_of_fuel : Flow

abbrev pub failed : Outcome → Bool
failed o = not (elim o.forward_err [ none ↦ ltb o.status_code 400 | some _ ↦ false ])

module _ {W Plan : Type 0} (up : Upstream W Plan) (snap : Snapshot) (stream : Bool)
    (disable_retries : Bool) where
  abbrev pub Run : Type 0
  Run = Flow × Progress Plan × W

  abbrev pub max_attempts : ℕ
  max_attempts = if disable_retries then 1 else max_total_attempts (some snap)

  abbrev pub retry_budget : Duration
  retry_budget = max_zero snap.routing_policy.retry.max_elapsed_ms * millisecond

  abbrev pub inner_limit : ProviderCandidate → ℕ
  inner_limit c =
      if max_attempts == 0
      then 0
      else if disable_retries
      then 1
      else 1 + max_zero c.provider.execution_policy.same_retries

  -- the loop's condition
  pub may_try : ProviderCandidate → ℕ → Progress Plan → Bool
  may_try c provider_attempt p =
      (inner_limit c == 0 || ltb provider_attempt (inner_limit c))
      && (max_attempts == 0 || ltb p.attempts max_attempts)

  pub over_budget : W → Bool
  over_budget w = ltb 0 retry_budget && leb retry_budget (up.elapsed w)

  -- the hard cap of the mode without a configured cap
  pub over_cap : Progress Plan → Bool
  over_cap p = max_attempts == 0 && leb 20 p.attempts

  abbrev pub exhausted : Progress Plan → Progress Plan
  exhausted p = record p {
    forward_err = some "context deadline exceeded";
    error_message = "retry time budget exhausted";
  }

  -- the assignments after one forwarded request
  abbrev pub record_outcome : ProviderCandidate → Plan → Outcome → Progress Plan → Progress Plan
  record_outcome c plan o p = record p {
    attempts = p.attempts + 1;
    status_code = o.status_code;
    resp_body = o.resp_body;
    stream_body = o.stream_body;
    content_type = o.content_type;
    latency = o.latency;
    forward_err = o.forward_err;
    provider = some c.provider;
    effective_model = c.upstream_model;
    error_message = o.error_message;
    compat_plan = some plan;
  }

  -- whether the loop goes on after the outcome `o`, which made `attempts` attempts
  pub goes_on : ℕ → Outcome → W → Bool
  goes_on attempts o w =
      failed o
      && should_retry_attempt up.to_lower (up.cancelled w) (some snap) (record {
        status_code = o.status_code;
        forward_err = elim o.forward_err [ none ↦ false | some _ ↦ true ];
        err_msg = o.error_message;
      })
      && not (not (max_attempts == 0) && leb max_attempts attempts)

  abbrev pub before_retry : Progress Plan → Progress Plan
  before_retry p = record p {
    stream_retry = p.stream_retry || stream && max_attempts == 0;
    stream_body = none;
  }

  -- one request and what follows it, up to the end of the loop's body
  pub attempt : ProviderCandidate → Plan → Progress Plan → W → Bool × Progress Plan × W
  attempt c plan p w =
      let (o, w1) = up.forward c plan w in
      let p1 = record_outcome c plan o p in
      let w2 = up.report c o w1 in
      if goes_on p1.attempts o w2
      then (
        true,
        before_retry p1,
        up.wait (backoff_delay snap.routing_policy.retry_backoff (p1.attempts - 1)) w2,
      )
      else (false, p1, w2)

  pub try_provider : ℕ → ProviderCandidate → Plan → ℕ → Progress Plan → W → Run
  try_provider zero c plan provider_attempt p w = (out_of_fuel, p, w)
  try_provider (suc fuel) c plan provider_attempt p w =
      let (go, p1, w1) = attempt c plan p w in
      let rest = try_provider fuel c plan (provider_attempt + 1) p1 w1 in
      if not (may_try c provider_attempt p)
      then (done, p, w)
      else if over_budget w
      then (stop, exhausted p, w)
      else if over_cap p
      then (stop, p, w)
      else if go
      then rest
      else (stop, p1, w1)

  abbrev pub refuse : ProviderCandidate → Plan → CompatError → Progress Plan → Progress Plan
  refuse c plan e p = record p {
    status_code = if e.requires_anthropic then 501 else 400;
    forward_err = none;
    provider = some c.provider;
    effective_model = c.upstream_model;
    error_message = e.message;
    compat_plan = some plan;
  }

  abbrev pub then_next : Run → (Progress Plan → W → Run) → Run
  then_next (done, p, w) next = next p w
  then_next (stop, p, w) next = (stop, p, w)
  then_next (out_of_fuel, p, w) next = (out_of_fuel, p, w)

  -- one candidate: a refused plan ends the loop
  pub serve : ℕ → ProviderCandidate → Planned Plan → Progress Plan → W → Run
  serve fuel c (refused pl e) p w = (stop, refuse c pl e p, w)
  serve fuel c (planned pl) p w = try_provider fuel c pl 0 p w

  -- `for i := range orderedCandidates`; each inner loop has the same fuel
  pub attempt_loop : ℕ → List ProviderCandidate → Progress Plan → W → Run
  attempt_loop fuel [] p w = (done, p, w)
  attempt_loop fuel (c ∷ cs) p w =
      then_next (serve fuel c (up.build_compat_plan c) p w) (attempt_loop fuel cs)

  -- the variables as they are declared
  pub initial : String → Progress Plan
  initial routing_model = record {
    attempts = 0;
    status_code = 502;
    resp_body = "";
    stream_body = none;
    content_type = "";
    latency = 0;
    forward_err = none;
    provider = none;
    effective_model = routing_model;
    error_message = "";
    compat_plan = none;
    stream_retry = false;
  }
