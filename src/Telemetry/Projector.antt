-- ===== src/Telemetry/Projector.antt =====
-- internal/telemetry/project/worker.go: the projector, which reads the event log in batches of at
-- most 1000 rows and applies their facts to the query store. `json.Unmarshal` and the parsing and
-- formatting of timestamps are parameters. A row's columns have the types that it is scanned into.
use ai_model_gateway.Base.{
  ℕ, zero, suc, ◌+◌, String, Bool, Option, none, some, List, [], ◌∷◌, ◌||◌, not, ℤ, pos, ltb_ℤ,
  str_eq, if◌then◌else◌, ltb, leb, ◌==◌, Result, ok, err, take, keep,
}
use ai_model_gateway.Telemetry.{Float64, LoggedEvent, EventLog, ProjectionFact}
use ai_model_gateway.Telemetry.Store.{
  Store, StoreStatement, load_projection_checkpoint, apply_projection_batch,
}

-- eventPayload
pub record EventPayload : Type 0 where
  pub request_id : String
  pub timestamp : String
  pub path : String
  pub requested_model : String
  pub effective_model : String
  pub provider_id : String
  pub route_mode : String
  pub status_code : ℤ
  pub latency_ms : ℤ
  pub attempts : ℤ
  pub prompt_tokens : ℤ
  pub cached_prompt_tokens : ℤ
  pub completion_tokens : ℤ
  pub pricing_status : String
  pub pricing_source_id : String
  pub pricing_currency : String
  pub pricing_fx_rate_to_usd : Float64
  pub pricing_input_per_1m : Float64
  pub pricing_cached_input_per_1m : Float64
  pub pricing_output_per_1m : Float64
  pub pricing_prompt_cost : Float64
  pub pricing_completion_cost : Float64
  pub pricing_total_cost : Float64
  pub pricing_prompt_cost_usd : Float64
  pub pricing_completion_cost_usd : Float64
  pub pricing_total_cost_usd : Float64
  pub synthetic_kind : String
  pub benchmark_run_id : String
  pub benchmark_target_id : String
  pub benchmark_case_id : String
  pub stream : Bool
  pub error : String

abbrev pub projection_checkpoint_name : String
projection_checkpoint_name = "gateway_attempt_completed_projection"

-- DrainResult
pub record DrainResult : Type 0 where
  pub projected : ℕ
  pub last_id : ℕ

-- normalizeProjectedPricingStatus
unfoldable pub normalize_projected_pricing_status : String → ℤ → ℤ → ℤ → String
normalize_projected_pricing_status status prompt cached completion =
    if str_eq status "fixed" || str_eq status "estimated_legacy" || str_eq status "unpriced"
    then status
    else if ltb_ℤ (pos 0) prompt || ltb_ℤ (pos 0) cached || ltb_ℤ (pos 0) completion
    then "estimated_legacy"
    else "unpriced"

pub record Codec : Type 1 where
  pub unmarshal : String → Option EventPayload
  pub Instant : Type 0
  pub parse_nano : String → Option Instant
  pub parse_seconds : String → Option Instant
  -- `t.Truncate(time.Minute).UTC().Format(time.RFC3339)`
  pub format_minute : Instant → String

-- how the query and the statements of each pass fail
pub record Faults : Type 0 where
  pub query : ℕ → Option String
  pub statement : ℕ → StoreStatement → Option String

pub data Drained : Type 0 where
  out_of_fuel : Drained
  drained : Store → DrainResult → Option String → Drained

-- `maxID` after the rows
unfoldable pub max_id : ℕ → List LoggedEvent → ℕ
max_id last [] = last
max_id last (row ∷ rows) = max_id row.id rows

-- SELECT ... WHERE id > ? ORDER BY id ASC LIMIT 1000
unfoldable pub new_events : ℕ → EventLog → List LoggedEvent
new_events last l = take 1000 (keep (λ r. ltb last r.id) l.rows)

module _ (codec : Codec) where
  -- truncateToMinute
  unfoldable pub truncate_to_minute : String → String
  truncate_to_minute ts = elim (codec.parse_nano ts) [
    | some t ↦ codec.format_minute t
    | none ↦ elim (codec.parse_seconds ts) [ some t ↦ codec.format_minute t | none ↦ ts ]
  ]

  unfoldable pub fact_of : LoggedEvent → EventPayload → ProjectionFact
  unfolding truncate_to_minute normalize_projected_pricing_status
  fact_of row p = record {
    event_id = row.event_id;
    request_id = p.request_id;
    timestamp = row.emitted_at;
    bucket = truncate_to_minute row.emitted_at;
    path = p.path;
    requested_model = p.requested_model;
    effective_model = p.effective_model;
    provider_id = p.provider_id;
    route_mode = p.route_mode;
    status_code = p.status_code;
    latency_ms = p.latency_ms;
    attempts = p.attempts;
    prompt_tokens = p.prompt_tokens;
    cached_prompt_tokens = p.cached_prompt_tokens;
    completion_tokens = p.completion_tokens;
    pricing_status =
        normalize_projected_pricing_status p.pricing_status p.prompt_tokens p.cached_prompt_tokens
          p.completion_tokens;
    pricing_source_id = p.pricing_source_id;
    pricing_currency = p.pricing_currency;
    pricing_fx_rate_to_usd = p.pricing_fx_rate_to_usd;
    pricing_input_per_1m = p.pricing_input_per_1m;
    pricing_cached_input_per_1m = p.pricing_cached_input_per_1m;
    pricing_output_per_1m = p.pricing_output_per_1m;
    pricing_prompt_cost = p.pricing_prompt_cost;
    pricing_completion_cost = p.pricing_completion_cost;
    pricing_total_cost = p.pricing_total_cost;
    pricing_prompt_cost_usd = p.pricing_prompt_cost_usd;
    pricing_completion_cost_usd = p.pricing_completion_cost_usd;
    pricing_total_cost_usd = p.pricing_total_cost_usd;
    synthetic_kind = p.synthetic_kind;
    benchmark_run_id = p.benchmark_run_id;
    benchmark_target_id = p.benchmark_target_id;
    benchmark_case_id = p.benchmark_case_id;
    stream = p.stream;
    error_message = p.error;
  }

  -- the loop over the rows: other events, and payloads that are no JSON, are passed over
  unfoldable pub facts_of : List LoggedEvent → List ProjectionFact
  unfolding fact_of
  facts_of [] = []
  facts_of (row ∷ rows) =
      let rest = facts_of rows in
      if not (str_eq row.event_type "gateway.attempt.completed")
      then rest
      else elim (codec.unmarshal row.payload) [ none ↦ rest | some p ↦ fact_of row p ∷ rest ]

  -- one pass: the store after it; the count and the last id, or the error. `query` is the failure
  -- of the query or of `rows.Err`.
  abbrev advanced : ℕ → Store × Result String ℕ → Store × Result String (ℕ × ℕ)
  advanced id (s, ok count) = (s, ok (count, id))
  advanced id (s, err error) = (s, err error)

  unfoldable pub project_new_events :
      Option String
      → (StoreStatement → Option String)
      → EventLog
      → ℕ
      → Store
      → Store × Result String (ℕ × ℕ)
  unfolding facts_of max_id new_events
  project_new_events (some error) db l last s = (s, err error)
  project_new_events none db l last s =
      let rows = new_events last l in
      if max_id last rows == last
      then (s, ok (0, last))
      else advanced (max_id last rows) (
          apply_projection_batch db projection_checkpoint_name (max_id last rows) (facts_of rows) s)

  -- after a pass of Drain
  unfoldable pub drain_on :
      (ℕ → DrainResult → Store → Drained)
      → ℕ
      → DrainResult
      → Store × Result String (ℕ × ℕ)
      → Drained
  drain_on rest last r (s, err error) = drained s r (some error)
  drain_on rest last r (s, ok (count, max)) =
      let r' : DrainResult = record { projected = r.projected + count; last_id = max } in
      if leb max last then drained s r' none else rest max r' s

  -- the loop of Drain, with the number of the pass, while no events are appended
  unfoldable pub drain_passes : Faults → EventLog → ℕ → ℕ → ℕ → DrainResult → Store → Drained
  unfolding drain_on
  drain_passes faults l zero n last r s = out_of_fuel
  drain_passes faults l (suc fuel) n last r s =
      drain_on (drain_passes faults l fuel (n + 1)) last r
        (project_new_events (faults.query n) (faults.statement n) l last s)

  -- Drain, with the loading of the checkpoint as its pass 0
  unfoldable pub drain : Faults → ℕ → EventLog → Store → Drained
  unfolding drain_passes
  drain faults fuel l s =
      elim (load_projection_checkpoint (faults.statement 0) projection_checkpoint_name s) [
        | err error ↦ drained s (record { projected = 0; last_id = 0 }) (some error)
        | ok last ↦ drain_passes faults l fuel 1 last (record { projected = 0; last_id = last }) s
      ]

  -- a tick of Run, which keeps the last id in memory
  abbrev after_tick : ℕ → Store × Result String (ℕ × ℕ) → Store × ℕ
  after_tick last (s, err error) = (s, last)
  after_tick last (s, ok (count, max)) = (s, if ltb last max then max else last)

  unfoldable pub tick :
      Option String → (StoreStatement → Option String) → EventLog → ℕ → Store → Store × ℕ
  unfolding project_new_events
  tick query db l last s = after_tick last (project_new_events query db l last s)

  -- the start of Run: without its checkpoint, it begins with the first event again
  unfoldable pub start_run : (StoreStatement → Option String) → Store → ℕ
  start_run db s = elim (load_projection_checkpoint db projection_checkpoint_name s) [
    | err error ↦ 0
    | ok last ↦ last
  ]
