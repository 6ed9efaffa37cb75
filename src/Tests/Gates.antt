-- ===== src/Tests/Gates.antt =====
-- A provider that reports 429, and a session that is bound to it.
use ai_model_gateway.Base.{
  ℕ, ◌≡◌, ◌≢◌, ◌≤◌, ◌<◌, refl, true, false, some, [], arith, trim_space, get, eq_iff, none,
  if◌then◌else◌, keep_value,
}
use ai_model_gateway.Runtime.{
  ProviderRuntimeState, StickyBinding, RuntimeState, provider_gate_state, fresh, remember_sticky,
  lookup_sticky_provider, cleanup_expired_sticky,
}
use ai_model_gateway.Runtime.Gate.{gate_until}
use ai_model_gateway.Runtime.Sessions.{lookup-remember_sticky, lookup-cleanup_expired_sticky}
use ai_model_gateway.Runtime.Snapshots.{
  apply_snapshot, is_active, state_or_fresh, rotator_in, get-apply_snapshot,
}
use ai_model_gateway.Tests.Samples.{failure_policy, snapshot}

abbrev empty_state : RuntimeState
empty_state = record { providers = []; sticky = []; key_rotators = [] }

abbrev limited : ProviderRuntimeState
limited = record fresh { quota_blocked_at = 1000 }

limited_blocked : (provider_gate_state limited failure_policy 2000).blocked ≡ true
unfolding provider_gate_state
limited_blocked = refl

gate_until_example :
    let until = (provider_gate_state limited failure_policy 2000).cooldown_until in
    (2000 < until)
    × ((t : ℕ)
        → 2000 ≤ t
        → t < until
        → (provider_gate_state limited failure_policy t).blocked ≡ true)
    × ((t : ℕ) → until ≤ t → (provider_gate_state limited failure_policy t).blocked ≡ false)
gate_until_example = gate_until limited failure_policy 2000 limited_blocked

named : trim_space "a" ≢ ""
unfolding trim_space
named e = let f : false ≡ true = (eq_iff "a" "").1 e in cc

lookup-remember_sticky_example :
    (lookup_sticky_provider
      (remember_sticky empty_state "large" "s" "a" snapshot 5)
      "large"
      "s"
      6).0
    ≡ some "a"
lookup-remember_sticky_example =
    lookup-remember_sticky empty_state "large" "s" "a" snapshot 5 6 refl refl refl refl

lookup-cleanup_expired_sticky_example :
    let bound = remember_sticky empty_state "large" "s" "a" snapshot 5 in
    (lookup_sticky_provider (cleanup_expired_sticky bound 6) "large" "s" 7).0
    ≡ (lookup_sticky_provider bound "large" "s" 7).0
lookup-cleanup_expired_sticky_example =
    lookup-cleanup_expired_sticky (remember_sticky empty_state "large" "s" "a" snapshot 5) "large"
      "s" 6 7 (omega arith)

abbrev bound_state : RuntimeState
bound_state = remember_sticky empty_state "large" "session" "a" snapshot 5

get-apply_snapshot_example :
    let after = apply_snapshot bound_state (some snapshot) in
    (get after.providers "b" ≡ (
      if is_active snapshot.providers "b"
      then some (state_or_fresh (get bound_state.providers "b"))
      else none))
    × (get after.sticky "large:session"
        ≡ keep_value
            (λ k (b : StickyBinding). is_active snapshot.providers b.provider_id)
            "large:session"
            (get bound_state.sticky "large:session"))
    × (get after.key_rotators "b" ≡ rotator_in snapshot.providers "b" none)
get-apply_snapshot_example = get-apply_snapshot bound_state (some snapshot) "b" "large:session"
