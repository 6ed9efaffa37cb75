-- ===== src/Tests/Samples.antt =====
-- Sample providers, policies and upstreams.
use ai_model_gateway.Base.{ℕ, ◌+◌, refl, pos, String, true, false, none, List, [], ◌∷◌}
use ai_model_gateway.Snapshot.{ProviderSnapshot, FailurePolicy, Snapshot}
use ai_model_gateway.Routing.{ProviderCandidate}
use ai_model_gateway.Attempts.{Outcome, planned, Upstream}
use ai_model_gateway.Attempts.Calls.{Meter, one, success}

abbrev pub provider_of : String → ℕ → ProviderSnapshot
provider_of id weight = record {
  provider_id = id;
  upstream_id = id;
  base_url = "https://example.com";
  anthropic_base_url = "";
  model_table = record { public_model = "large"; upstream_model = "large-1" } ∷ [];
  execution_policy = record { enabled = true; weight = pos weight; same_retries = pos 1 };
  fallback_models = "small" ∷ "large" ∷ [];
  api_keys = record { name = "main"; value = "k1"; disabled = false; fail_count = 0 } ∷ [];
}

abbrev pub candidate : String → ℕ → ProviderCandidate
candidate id weight = record {
  provider = provider_of id weight;
  upstream_model = "large-1";
  weight = pos weight;
}

abbrev pub two_candidates : List ProviderCandidate
two_candidates = candidate "a" 2 ∷ candidate "b" 1 ∷ []

abbrev pub failure_policy : FailurePolicy
failure_policy = record {
  threshold = pos 3;
  cooldown_sec = pos 30;
  passthrough_after_sec = pos 10;
  quota_recovery_interval_min = pos 5;
  disable_cooldown = false;
}

abbrev pub snapshot : Snapshot
snapshot = record {
  meta = record { snapshot_id = ""; schema_version = pos 1; revision_id = ""; generated_at = 7 };
  providers = provider_of "a" 2 ∷ provider_of "b" 1 ∷ [];
  routing_policy = record {
    strategy = "";
    max_retries = pos 2;
    retry_backoff = record { initial_ms = pos 100; max_ms = pos 300 };
    sticky_sessions = record { enabled = true; ttl_sec = pos 60 };
    failure_policy = failure_policy;
    retry = record {
      infinite_on_error = false;
      max_elapsed_ms = pos 0;
      all_errors = true;
      status_codes = [];
      status_code_min = pos 0;
      message_keywords = [];
    };
  };
}

abbrev pub answer : ℕ → Outcome
answer status = record {
  status_code = status;
  resp_body = "";
  stream_body = none;
  content_type = "application/json";
  latency = 5;
  forward_err = none;
  error_message = "";
}

-- an upstream that answers every request with the status, in a world that counts the requests
abbrev pub answering : ℕ → Upstream ℕ Unit
answering status = record {
  build_compat_plan = λ c. planned tt;
  forward = λ c pl w. (answer status, w + 1);
  report = λ c o w. w;
  wait = λ d w. w;
  elapsed = λ w. w;
  cancelled = λ w. false;
  to_lower = λ s. s;
}

abbrev pub counting : (status : ℕ) → Meter (answering status) one
counting status = record {
  read = λ w. w;
  forwarded = λ c pl w. refl;
  reported = λ c o w. refl;
  waited = λ d w. refl;
}

abbrev pub succeeding : Meter (answering 200) success
succeeding = record {
  read = λ w. w;
  forwarded = λ c pl w. refl;
  reported = λ c o w. refl;
  waited = λ d w. refl;
}
