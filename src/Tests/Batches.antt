-- ===== src/Tests/Batches.antt =====
-- A limiter over whole numbers, and a client that sends one batch.
use ai_model_gateway.Base.{
  since, ℕ, ◌+◌, ◌*◌, ◌-◌, ◌/◌, ◌≡◌, refl, true, false, none, pos, max_zero, ltb, arith, ok, length,
  second,
}
use ai_model_gateway.Limiter.{Floats, Readings, allow, new_limiter}
use ai_model_gateway.Limiter.Bounds.{Laws, IsBounded, allow-IsBounded, new_limiter-IsBounded}
use ai_model_gateway.Telemetry.{Event}
use ai_model_gateway.TelemetryClient.{
  Client, Rpc, new_client, emit, queue_limit, default_client_config, loop_flush,
}
use ai_model_gateway.TelemetryClient.Steps.{Step, Reached}
use ai_model_gateway.TelemetryClient.Sending.{RepliesCounted}
use ai_model_gateway.TelemetryClient.Conserved.{Reached-IsConserved}
use ai_model_gateway.TelemetryClient.Flushes.{IsConserved}

abbrev whole : Floats
whole = record {
  Float = ℕ;
  of_int = max_zero;
  seconds = λ d. d / second;
  one = 1;
  plus = λ a b. a + b;
  minus = λ a b. a - b;
  times = λ a b. a * b;
  lt = ltb;
}

whole_laws : Laws whole
whole_laws = record { lt_irrefl = λ b. ground arith; minus_one = λ b x h. ground arith }

abbrev readings : Readings
readings = record { periodic = 0; for_room = 0; now = 90 * second }

allow-IsBounded_example :
    IsBounded whole (allow whole readings "key" (new_limiter whole 2 (pos 3))).0
allow-IsBounded_example =
    allow-IsBounded whole whole_laws readings "key" (new_limiter whole 2 (pos 3))
      (new_limiter-IsBounded whole 2 (pos 3))

allowed : (allow whole readings "key" (new_limiter whole 2 (pos 3))).1 ≡ true
unfolding allow new_limiter since
allowed = refl

-- a telemetryd that accepts everything
abbrev accepting : Rpc ℕ (Event ℕ)
accepting = record {
  append_batch = λ es w. (ok (record { accepted = length es; dropped = 0 }), w + 1);
  dial = none;
  ctx_done = λ w. false;
}

accepting_counts : RepliesCounted accepting
accepting_counts es w reply h = ground arith

abbrev event : Event ℕ
event = record {
  event_id = "e";
  event_type = "gateway.attempt.completed";
  schema_version = pos 1;
  source_service = "gatewayd";
  source_instance = "";
  emitted_at = 0;
  imported = false;
  payload = 7;
}

abbrev emitted : Client (Event ℕ)
emitted = (emit default_client_config event new_client).0

path_to_flushed : Reached accepting default_client_config (loop_flush emitted)
unfolding emit new_client
path_to_flushed =
    Reached.then_step (Reached.then_step Reached.start (Step.emits event new_client))
      (Step.loop_flushes emitted refl)

Reached-IsConserved_example : IsConserved (queue_limit default_client_config) (loop_flush emitted)
Reached-IsConserved_example =
    Reached-IsConserved accepting default_client_config accepting_counts path_to_flushed
