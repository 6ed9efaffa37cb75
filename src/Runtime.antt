-- ===== src/Runtime.antt =====
-- internal/gateway/api/runtime_state.go: what the gateway remembers of its providers, how that
-- gates and orders the candidates of a request, and the sticky sessions. A `nil` receiver or
-- snapshot, for which the methods do nothing, is left out, and so are the limiters and the queue
-- that the same struct holds. `clockNow` is an argument. The configured times are taken to stay
-- within the range of `time.Duration`.
pub mod Gate
pub mod Candidates
pub mod Sessions
pub mod Snapshots
use ai_model_gateway.Base.{
  ℕ, zero, suc, ◌+◌, ◌*◌, ℤ, is_pos, max_zero, String, Bool, true, false, not, ◌&&◌, ◌||◌, Option,
  none, some, List, [], ◌∷◌, ◌++◌, leb, ltb, if◌then◌else◌, ◌==◌, length, any, map, str_eq, Map,
  get, put, delete, keep_if, has, Time, Duration, second, minute, since, after, is_zero, max_time,
  trim_space,
}
use ai_model_gateway.Snapshot.{ProviderSnapshot, FailurePolicy, Snapshot}
use ai_model_gateway.Routing.{ProviderCandidate, provider_id, order_provider_candidates}
use ai_model_gateway.KeyRotation.{KeyRotator, new_key_rotator}
use Prim.Native.String.{◌++◌ as str_append}

pub record ProviderRuntimeState : Type 0 where
  pub last_check : Time
  pub last_success : Time
  pub last_failure : Time
  pub last_latency : Duration
  pub consecutive_failures : ℕ
  pub quota_blocked_at : Time

pub record StickyBinding : Type 0 where
  pub provider_id : String
  pub expires_at : Time

pub record RuntimeState : Type 0 where
  pub providers : Map ProviderRuntimeState
  pub sticky : Map StickyBinding
  pub key_rotators : Map KeyRotator

pub record ProviderGateState : Type 0 where
  pub blocked : Bool
  pub passthrough_eligible : Bool
  pub cooldown_until : Time

abbrev pub fresh : ProviderRuntimeState
fresh = record {
  last_check = 0;
  last_success = 0;
  last_failure = 0;
  last_latency = 0;
  consecutive_failures = 0;
  quota_blocked_at = 0;
}

abbrev pub open_gate : ProviderGateState
open_gate = record { blocked = false; passthrough_eligible = false; cooldown_until = 0 }

-- the body of the two tests `now.Before(until)`
pub block_until : Time → Time → Time → Duration → ProviderGateState → ProviderGateState
unfolding max_time since
block_until now from until passthrough_after g =
    if ltb now until
    then record {
      blocked = true;
      passthrough_eligible =
          g.passthrough_eligible
          || ltb 0 passthrough_after && leb passthrough_after (since now from);
      cooldown_until = max_time g.cooldown_until until;
    }
    else g

abbrev pub passthrough_after : FailurePolicy → Duration
passthrough_after policy = max_zero policy.passthrough_after_sec * second

pub gate_cooldown :
    ProviderRuntimeState → FailurePolicy → Time → ProviderGateState → ProviderGateState
unfolding block_until is_zero
gate_cooldown st policy now g =
    if ltb 0 (max_zero policy.threshold)
      && (leb (max_zero policy.threshold) st.consecutive_failures
          && (not (is_zero st.last_failure) && ltb 0 (max_zero policy.cooldown_sec)))
    then block_until now st.last_failure (st.last_failure + max_zero policy.cooldown_sec * second)
        (passthrough_after policy) g
    else g

pub gate_quota : ProviderRuntimeState → FailurePolicy → Time → ProviderGateState → ProviderGateState
unfolding block_until is_zero
gate_quota st policy now g =
    if not (is_zero st.quota_blocked_at)
    then block_until now st.quota_blocked_at
        (st.quota_blocked_at + max_zero policy.quota_recovery_interval_min * minute)
        (passthrough_after policy) g
    else g

-- providerGateStateFromLocked
unfoldable pub provider_gate_state : ProviderRuntimeState → FailurePolicy → Time → ProviderGateState
unfolding gate_cooldown gate_quota
provider_gate_state st policy now =
    if policy.disable_cooldown
    then open_gate
    else (let g = gate_quota st policy now (gate_cooldown st policy now open_gate) in
        if not g.blocked then record g { passthrough_eligible = false } else g)

-- isProviderFailure
unfoldable pub is_provider_failure : ℕ → Bool → Bool
is_provider_failure status_code forward_err =
    forward_err || (status_code == 429 || (status_code == 408 || leb 500 status_code))

-- ensureProviderStateLocked: the state, and the runtime in which it is stored
pub ensure_provider_state : RuntimeState → String → ProviderRuntimeState × RuntimeState
ensure_provider_state s id = elim (get s.providers id) [
  | none ↦ (fresh, record s { providers = put s.providers id fresh })
  | some st ↦ (st, s)
]

pub after_attempt : ProviderRuntimeState → ℕ → Duration → Bool → Time → ProviderRuntimeState
unfolding is_provider_failure
after_attempt st status_code latency forward_err now =
    if is_provider_failure status_code forward_err
    then record st {
      last_check = now;
      last_latency = latency;
      last_failure = now;
      consecutive_failures = st.consecutive_failures + 1;
      quota_blocked_at = if status_code == 429 then now else st.quota_blocked_at;
    }
    else record st {
      last_check = now;
      last_latency = latency;
      last_success = now;
      consecutive_failures = 0;
      quota_blocked_at = 0;
    }

-- reportAttemptResult, and ReportProbeResult
pub report_attempt_result : RuntimeState → String → ℕ → Duration → Bool → Time → RuntimeState
unfolding ensure_provider_state
report_attempt_result s id status_code latency forward_err now =
    if str_eq (trim_space id) ""
    then s
    else (let (st, s1) = ensure_provider_state s id in
        record s1 {
          providers = put s1.providers id (after_attempt st status_code latency forward_err now);
        })

-- stickyBindingKey; the separator is the character 0
abbrev pub sticky_binding_key : String → String → String
sticky_binding_key model sticky_key = str_append model (str_append "\0" sticky_key)

pub binding_expired : Time → StickyBinding → Bool
unfolding is_zero after
binding_expired now b = not (is_zero b.expires_at) && after now b.expires_at

-- cleanupExpiredStickyLocked
pub cleanup_expired_sticky : RuntimeState → Time → RuntimeState
unfolding binding_expired
cleanup_expired_sticky s now = record s {
  sticky = keep_if (λ k b. not (binding_expired now b)) s.sticky;
}

-- lookupStickyProviderLocked
pub lookup_sticky_provider : RuntimeState → String → String → Time → Option String × RuntimeState
unfolding binding_expired
lookup_sticky_provider s model sticky_key now =
    if str_eq sticky_key ""
    then (none, s)
    else elim (get s.sticky (sticky_binding_key model sticky_key)) [
      | none ↦ (none, s)
      | some b ↦
          if binding_expired now b
          then (none, record s { sticky = delete s.sticky (sticky_binding_key model sticky_key) })
          else (some b.provider_id, s)
    ]

-- rememberSticky
pub remember_sticky : RuntimeState → String → String → String → Snapshot → Time → RuntimeState
remember_sticky s model sticky_key id snap now =
    if not snap.routing_policy.sticky_sessions.enabled
      || (str_eq sticky_key ""
          || (str_eq id "" || not (is_pos snap.routing_policy.sticky_sessions.ttl_sec)))
    then s
    else record s {
      sticky = put s.sticky (sticky_binding_key model sticky_key) (record {
        provider_id = id;
        expires_at = now + max_zero snap.routing_policy.sticky_sessions.ttl_sec * second;
      });
    }
