-- ===== src/Tests/Projections.antt =====
-- A log of three events, of which one is no completed attempt, and its projection.
use ai_model_gateway.Base.{
  ℕ, ◌≡◌, refl, String, Option, none, some, List, [], ◌∷◌, pos, false, str_eq, if◌then◌else◌, Time,
  length, ◌+◌, arith, get, ◌==◌,
}
use ai_model_gateway.Telemetry.{Event, EventLog, LogStatement, new_log, append, append_event}
use ai_model_gateway.Telemetry.Store.{Store, load_projection_checkpoint, apply_projection_batch}
use ai_model_gateway.Telemetry.Projector.{
  Codec, EventPayload, Faults, project_new_events, drain, Drained, drained, out_of_fuel, facts_of,
}
use ai_model_gateway.Telemetry.Events.{IsValid, Answered, new_log-IsValid, append-Answered}
use ai_model_gateway.Telemetry.Passes.{IsSynced, Passed, project_new_events-Passed}
use ai_model_gateway.Telemetry.Drains.{Ends, drain-Ends}
use ai_model_gateway.Telemetry.Running.{Complete, drain-Complete}

abbrev completed : String → Event String
completed id = record {
  event_id = id;
  event_type = "gateway.attempt.completed";
  schema_version = pos 1;
  source_service = "gatewayd";
  source_instance = "one";
  emitted_at = 0;
  imported = false;
  payload = "{}";
}

abbrev events : List (Event String)
events =
    completed "a"
    ∷ completed "a"
    ∷ record (completed "b") { event_type = "other" }
    ∷ completed "c"
    ∷ []

abbrev serialize : String → Option String
serialize p = some p

abbrev format : Time → String
format t = "1970-01-01T00:00:00Z"

abbrev log_runs : LogStatement → Option String
log_runs st = none

append-Answered_example :
    Answered serialize format log_runs new_log events
      (append serialize format log_runs new_log events)
append-Answered_example = append-Answered serialize format log_runs new_log events new_log-IsValid

abbrev payload : EventPayload
payload = record {
  request_id = "r";
  timestamp = "";
  path = "/v1/chat/completions";
  requested_model = "m";
  effective_model = "m";
  provider_id = "p";
  route_mode = "direct";
  status_code = pos 200;
  latency_ms = pos 12;
  attempts = pos 1;
  prompt_tokens = pos 3;
  cached_prompt_tokens = pos 0;
  completion_tokens = pos 4;
  pricing_status = "";
  pricing_source_id = "";
  pricing_currency = "";
  pricing_fx_rate_to_usd = 0;
  pricing_input_per_1m = 0;
  pricing_cached_input_per_1m = 0;
  pricing_output_per_1m = 0;
  pricing_prompt_cost = 0;
  pricing_completion_cost = 0;
  pricing_total_cost = 0;
  pricing_prompt_cost_usd = 0;
  pricing_completion_cost_usd = 0;
  pricing_total_cost_usd = 0;
  synthetic_kind = "";
  benchmark_run_id = "";
  benchmark_target_id = "";
  benchmark_case_id = "";
  stream = false;
  error = "";
}

abbrev codec : Codec
codec = record {
  unmarshal = λ text. if str_eq text "{}" then some payload else none;
  Instant = String;
  parse_nano = λ ts. some ts;
  parse_seconds = λ ts. none;
  format_minute = λ t. t;
}

abbrev log : EventLog
log = (append serialize format log_runs new_log events).log

log-IsValid : IsValid log
log-IsValid = (append-Answered serialize format log_runs new_log events new_log-IsValid).valid

abbrev empty : Store
empty = record { request_facts = []; agg_buckets = []; checkpoints = [] }

empty-IsSynced : IsSynced codec log empty
unfolding append append_event facts_of get new_log
empty-IsSynced = refl

-- the second pass fails
abbrev flaky : Faults
flaky = record {
  query = λ n. if n == 2 then some "database is locked" else none;
  statement = λ n st. none;
}

abbrev steady : Faults
steady = record { query = λ n. none; statement = λ n st. none }

project_new_events-Passed_example :
    Passed codec 0 log empty
      (project_new_events codec none (steady.statement 1) log 0 empty).0
      (project_new_events codec none (steady.statement 1) log 0 empty).1
project_new_events-Passed_example =
    project_new_events-Passed codec (steady.statement 1) log 0 empty none log-IsValid empty-IsSynced
      (omega arith)

drain-Ends_example :
    Ends codec log empty
      (record { projected = 0; last_id = 0 })
      (drain codec flaky (length log.rows + 1) log empty)
drain-Ends_example = drain-Ends codec log flaky empty log-IsValid empty-IsSynced

drain-Complete_example :
    Complete codec log empty (drain codec steady (length log.rows + 1) log empty)
drain-Complete_example =
    drain-Complete codec log steady (λ n st. refl) (λ n. refl) empty log-IsValid empty-IsSynced

abbrev count_of : Drained → ℕ
count_of out_of_fuel = 0
count_of (drained s r error) = r.projected

-- two facts are projected: one event is there twice, and one is of another type
drained_two : count_of (drain codec steady 4 log empty) ≡ 2
unfolding drain append append_event new_log load_projection_checkpoint project_new_events
    apply_projection_batch
drained_two = refl
