-- ===== src/Telemetry.antt =====
-- internal/telemetry/eventlog/log.go and the structures of internal/telemetry/query/store.go and
-- internal/telemetry/project/worker.go: the append-only log of telemetryd and what is projected
-- from it. Tables are lists of rows, in the order of their ids. The database may fail at any
-- statement: an oracle says which statements fail, and how; a transaction works on a copy that
-- becomes the state at its commit. `float64` stands for its bits, which this code only passes on.
pub mod Store
pub mod Projector
pub mod Events
pub mod Rows
pub mod Batches
pub mod Held
pub mod Passes
pub mod Drains
pub mod Running
use ai_model_gateway.Base.{
  ℕ, ◌+◌, String, Bool, Option, none, some, List, [], ◌∷◌, ◌++◌, ℤ, Time, any, str_eq, length,
  if◌then◌else◌,
}

abbrev pub Float64 : Type 0
Float64 = ℕ

-- telemetryingest.Event; its payload is only serialized
pub record Event (P : Type 0) : Type 0 where
  pub event_id : String
  pub event_type : String
  pub schema_version : ℤ
  pub source_service : String
  pub source_instance : String
  pub emitted_at : Time
  pub imported : Bool
  pub payload : P

-- a row of `events`
pub record LoggedEvent : Type 0 where
  pub id : ℕ
  pub event_id : String
  pub event_type : String
  pub schema_version : ℤ
  pub source_service : String
  pub source_instance : String
  pub emitted_at : String
  pub imported : ℕ
  pub payload : String

-- `events`, and the last id that AUTOINCREMENT has given
pub record EventLog : Type 0 where
  pub rows : List LoggedEvent
  pub last_id : ℕ

pub data LogStatement : Type 0 where
  begin commit : LogStatement
  insert : String → LogStatement

-- the answer of Append
pub record Appended : Type 0 where
  pub log : EventLog
  pub accepted : ℕ
  pub dropped : ℕ
  pub error : Option String

-- New, over an empty file
unfoldable pub new_log : EventLog
new_log = record { rows = []; last_id = 0 }

-- with `UTC().Format(time.RFC3339Nano)`
module _ {P : Type 0} (format : Time → String) where
  unfoldable pub logged : Event P → String → ℕ → LoggedEvent
  logged e payload id = record {
    id = id;
    event_id = e.event_id;
    event_type = e.event_type;
    schema_version = e.schema_version;
    source_service = e.source_service;
    source_instance = e.source_instance;
    emitted_at = format e.emitted_at;
    imported = if e.imported then 1 else 0;
    payload = payload;
  }

  unfoldable pub insert_event : Event P → String → EventLog → EventLog
  unfolding logged
  insert_event e payload l = record {
    rows = l.rows ++ logged e payload (l.last_id + 1) ∷ [];
    last_id = l.last_id + 1;
  }

-- the serialization of payloads, and the failures
module _ {P : Type 0} (serialize : P → Option String) (format : Time → String)
    (db : LogStatement → Option String) where
  abbrev dropping : Appended → Appended
  dropping a = record a { dropped = a.dropped + 1 }

  -- one round of the loop; `event_id` is UNIQUE
  unfoldable pub append_event : Appended → Event P → Appended
  unfolding insert_event
  append_event a e = elim (serialize e.payload) [
    | none ↦ dropping a
    | some payload ↦ elim (db (insert e.event_id)) [
      | some _ ↦ dropping a
      | none ↦
          if any (λ r. str_eq e.event_id r.event_id) a.log.rows
          then dropping a
          else record a { log = insert_event format e payload a.log; accepted = a.accepted + 1 }
    ]
  ]

  unfoldable pub append_events : Appended → List (Event P) → Appended
  append_events a [] = a
  append_events a (e ∷ es) = append_events (append_event a e) es

  abbrev pub not_appended : EventLog → List (Event P) → String → Appended
  not_appended l events error = record {
    log = l;
    accepted = 0;
    dropped = length events;
    error = some error;
  }

  -- Append
  unfoldable pub append : EventLog → List (Event P) → Appended
  unfolding append_events
  append l events = elim (db begin) [
    | some error ↦ not_appended l events error
    | none ↦
        let a =
          append_events (record { log = l; accepted = 0; dropped = 0; error = none }) events in
        elim (db commit) [ some error ↦ not_appended l events error | none ↦ a ]
  ]

-- ProjectionFact
pub record ProjectionFact : Type 0 where
  pub event_id : String
  pub request_id : String
  pub timestamp : String
  pub bucket : String
  pub path : String
  pub requested_model : String
  pub effective_model : String
  pub provider_id : String
  pub route_mode : String
  pub status_code : ℤ
  pub latency_ms : ℤ
  pub attempts : ℤ
  pub prompt_tokens : ℤ
  pub cached_prompt_tokens : ℤ
  pub completion_tokens : ℤ
  pub pricing_status : String
  pub pricing_source_id : String
  pub pricing_currency : String
  pub pricing_fx_rate_to_usd : Float64
  pub pricing_input_per_1m : Float64
  pub pricing_cached_input_per_1m : Float64
  pub pricing_output_per_1m : Float64
  pub pricing_prompt_cost : Float64
  pub pricing_completion_cost : Float64
  pub pricing_total_cost : Float64
  pub pricing_prompt_cost_usd : Float64
  pub pricing_completion_cost_usd : Float64
  pub pricing_total_cost_usd : Float64
  pub synthetic_kind : String
  pub benchmark_run_id : String
  pub benchmark_target_id : String
  pub benchmark_case_id : String
  pub stream : Bool
  pub error_message : String
