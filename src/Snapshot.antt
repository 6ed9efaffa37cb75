-- ===== src/Snapshot.antt =====
-- internal/gateway/snapshot/snapshot.go: the compiled configuration, as far as the modelled
-- components read it. `int` fields that may be negative are `ℤ`; HTTP statuses and the fail
-- counts of keys are natural numbers.
use ai_model_gateway.Base.{ℕ, ℤ, String, Bool, List, Time}

pub record SnapshotMeta : Type 0 where
  pub snapshot_id : String
  pub schema_version : ℤ
  pub revision_id : String
  pub generated_at : Time

pub record ApiKey : Type 0 where
  pub name : String
  pub value : String
  pub disabled : Bool
  pub fail_count : ℕ

pub record ModelMapping : Type 0 where
  pub public_model : String
  pub upstream_model : String

pub record ExecutionPolicy : Type 0 where
  pub enabled : Bool
  pub weight : ℤ
  pub same_retries : ℤ

pub record ProviderSnapshot : Type 0 where
  pub provider_id : String
  pub upstream_id : String
  pub base_url : String
  pub anthropic_base_url : String
  pub model_table : List ModelMapping
  pub execution_policy : ExecutionPolicy
  pub fallback_models : List String
  pub api_keys : List ApiKey

pub record StickySessionConfig : Type 0 where
  pub enabled : Bool
  pub ttl_sec : ℤ

pub record RetryBackoff : Type 0 where
  pub initial_ms : ℤ
  pub max_ms : ℤ

pub record FailurePolicy : Type 0 where
  pub threshold : ℤ
  pub cooldown_sec : ℤ
  pub passthrough_after_sec : ℤ
  pub quota_recovery_interval_min : ℤ
  pub disable_cooldown : Bool

pub record RetryPolicy : Type 0 where
  pub infinite_on_error : Bool
  pub max_elapsed_ms : ℤ
  pub all_errors : Bool
  pub status_codes : List ℕ
  pub status_code_min : ℤ
  pub message_keywords : List String

pub record RoutingPolicy : Type 0 where
  pub strategy : String
  pub max_retries : ℤ
  pub retry_backoff : RetryBackoff
  pub sticky_sessions : StickySessionConfig
  pub failure_policy : FailurePolicy
  pub retry : RetryPolicy

pub record Snapshot : Type 0 where
  pub meta : SnapshotMeta
  pub providers : List ProviderSnapshot
  pub routing_policy : RoutingPolicy
