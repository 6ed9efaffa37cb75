-- ===== src/Runtime/Gate.antt =====
-- When a provider is blocked, and until when.
use ai_model_gateway.Base.{
  ℕ, ◌+◌, ◌*◌, ◌≤◌, ◌<◌, ◌≡◌, ◌≢◌, refl, String, Bool, true, false, not, ◌&&◌, ◌||◌, none, some,
  arith, eq_iff, inl, inr, max_zero, leb, ltb, ◌==◌, if◌then◌else◌, str_eq, Time, Duration, second,
  minute, get, put, get-put, Option-cases, max, max_time, trim_space,
}
use ai_model_gateway.Snapshot.{FailurePolicy}
use ai_model_gateway.Runtime.{
  ProviderRuntimeState, RuntimeState, provider_gate_state, is_provider_failure, after_attempt,
  ensure_provider_state, report_attempt_result, fresh,
}

-- the standing conditions of the two blocks, and when each ends
abbrev failing : ProviderRuntimeState → FailurePolicy → Bool
failing st policy =
    ltb 0 (max_zero policy.threshold)
    && (leb (max_zero policy.threshold) st.consecutive_failures
        && (not (st.last_failure == 0) && ltb 0 (max_zero policy.cooldown_sec)))

abbrev failing_until : ProviderRuntimeState → FailurePolicy → Time
failing_until st policy = st.last_failure + max_zero policy.cooldown_sec * second

abbrev over_quota : ProviderRuntimeState → Bool
over_quota st = not (st.quota_blocked_at == 0)

abbrev quota_until : ProviderRuntimeState → FailurePolicy → Time
quota_until st policy = st.quota_blocked_at + max_zero policy.quota_recovery_interval_min * minute

blocks : Bool → Time → Time → Bool
blocks on until t = on && ltb t until

end_of : Bool → Time → Time → Time
end_of on until t = if blocks on until t then until else 0

module _ (a b : Bool) (u v now : Time) (h : (blocks a u now || blocks b v now) ≡ true) where
  window_open : now < max (end_of a u now) (end_of b v now)
  unfolding end_of blocks
  window_open = ground arith

  window_during :
      (t : Time)
      → now ≤ t
      → t < max (end_of a u now) (end_of b v now)
      → (blocks a u t || blocks b v t) ≡ true
  unfolding end_of blocks
  window_during t p q = ground arith

  window_after :
      (t : Time)
      → max (end_of a u now) (end_of b v now) ≤ t
      → (blocks a u t || blocks b v t) ≡ false
  unfolding end_of blocks
  window_after t p = ground arith

module _ (st : ProviderRuntimeState) (policy : FailurePolicy) where
  blocked-eq :
      (t : Time)
      → (provider_gate_state st policy t).blocked ≡ (
          not policy.disable_cooldown
          && (blocks (failing st policy) (failing_until st policy) t
              || blocks (over_quota st) (quota_until st policy) t))
  unfolding provider_gate_state blocks
  blocked-eq t = ground arith

  until-eq :
      (t : Time)
      → policy.disable_cooldown ≡ false
      → (provider_gate_state st policy t).cooldown_until
        ≡ max
            (end_of (failing st policy) (failing_until st policy) t)
            (end_of (over_quota st) (quota_until st policy) t)
  unfolding provider_gate_state end_of blocks max_time
  until-eq t h = ground arith

  -- A blocked provider is blocked from now until the end of its cooldown and, unless something is
  -- reported of it, not from then on.
  pub gate_until :
      (now : Time)
      → (provider_gate_state st policy now).blocked ≡ true
      → let until = (provider_gate_state st policy now).cooldown_until in
        (now < until)
        × ((t : Time) → now ≤ t → t < until → (provider_gate_state st policy t).blocked ≡ true)
        × ((t : Time) → until ≤ t → (provider_gate_state st policy t).blocked ≡ false)
  gate_until now h =
      let on = enabled now h in
      let now_blocked = windows now h in
      rw (until-eq now on) (
        window_open _ _ _ _ now now_blocked,
        λ t p q. rw (blocked-eq t, on) (window_during _ _ _ _ now now_blocked t p q),
        λ t p. rw (blocked-eq t, on) (window_after _ _ _ _ now now_blocked t p),
      )
    where
      enabled :
          (now : Time)
          → (provider_gate_state st policy now).blocked ≡ true
          → policy.disable_cooldown ≡ false
      enabled now h = ground (arith, blocked-eq now)

      windows :
          (now : Time)
          → (provider_gate_state st policy now).blocked ≡ true
          → (blocks (failing st policy) (failing_until st policy) now
              || blocks (over_quota st) (quota_until st policy) now)
            ≡ true
      windows now h = ground (arith, blocked-eq now)

-- what the runtime holds of a provider, or what it would start with
abbrev pub state_of : RuntimeState → String → ProviderRuntimeState
state_of s id = elim (get s.providers id) [ none ↦ fresh | some st ↦ st ]

-- A report about a named provider changes the state of that provider alone, as `after_attempt`
-- says of the state that it had, or of a fresh one.
pub state-report_attempt_result :
    (s : RuntimeState) (id j : String) (status : ℕ) (latency : Duration) (err : Bool) (now : Time)
    → trim_space id ≢ ""
    → state_of (report_attempt_result s id status latency err now) j
      ≡ (if str_eq id j then after_attempt (state_of s id) status latency err now else state_of s j)
unfolding report_attempt_result ensure_provider_state
state-report_attempt_result s id j status latency err now named =
    elim (Option-cases (get s.providers id)) [
      | inl new ↦
          let first = put s.providers id fresh in
          ground (
            arith,
            eq_iff (trim_space id) "",
            eq_iff id j,
            get-put s.providers id j fresh,
            get-put first id j (after_attempt fresh status latency err now),
          )
      | inr (st, old) ↦ ground (
        arith,
        eq_iff (trim_space id) "",
        eq_iff id j,
        get-put s.providers id j (after_attempt st status latency err now),
      )
    ]

module _ (s : RuntimeState) (id : String) (latency : Duration) (now : Time)
    (policy : FailurePolicy) where
  cleared :
      (st : ProviderRuntimeState) (status : ℕ) (t : Time)
      → is_provider_failure status false ≡ false
      → (provider_gate_state (after_attempt st status latency false now) policy t).blocked ≡ false
  unfolding after_attempt
  cleared st status t good = rw good (rw (blocked-eq _ policy t) (unfold blocks in ground arith))

  stamped :
      (st : ProviderRuntimeState) (err : Bool)
      → (after_attempt st 429 latency err now).quota_blocked_at ≡ now
  unfolding after_attempt
  stamped st err = ground arith

  or_true : (a b : Bool) → b ≡ true → (a || b) ≡ true
  or_true a b h = ground arith

  quota_blocks :
      (st : ProviderRuntimeState) (t : Time)
      → st.quota_blocked_at ≡ now
      → now ≢ 0
      → t < now + max_zero policy.quota_recovery_interval_min * minute
      → blocks (over_quota st) (quota_until st policy) t ≡ true
  unfolding blocks
  quota_blocks st t e real h = ground arith

  blocked_by_quota :
      (st : ProviderRuntimeState) (t : Time)
      → st.quota_blocked_at ≡ now
      → now ≢ 0
      → policy.disable_cooldown ≡ false
      → t < now + max_zero policy.quota_recovery_interval_min * minute
      → (not policy.disable_cooldown
          && (blocks (failing st policy) (failing_until st policy) t
              || blocks (over_quota st) (quota_until st policy) t))
        ≡ true
  blocked_by_quota st t e real on h = rw on (or_true _ _ (quota_blocks st t e real h))

  over :
      (st : ProviderRuntimeState) (err : Bool) (t : Time)
      → now ≢ 0
      → policy.disable_cooldown ≡ false
      → t < now + max_zero policy.quota_recovery_interval_min * minute
      → (provider_gate_state (after_attempt st 429 latency err now) policy t).blocked ≡ true
  over st err t real on h =
      rw (blocked-eq _ policy t)
        (blocked_by_quota (after_attempt st 429 latency err now) t (stamped st err) real on h)

  -- After a reported success the provider is not blocked, at any time.
  pub gate_after_success :
      (status : ℕ) (t : Time)
      → trim_space id ≢ ""
      → is_provider_failure status false ≡ false
      → (provider_gate_state
          (state_of (report_attempt_result s id status latency false now) id)
          policy
          t).blocked
        ≡ false
  gate_after_success status t named good =
      rw (state-report_attempt_result s id id status latency false now named)
        (rw ((eq_iff id id).1 refl) (cleared (state_of s id) status t good))

  -- After a reported 429 the provider is blocked for the quota recovery interval, unless the
  -- cooldown is disabled.
  pub gate_after_quota :
      (err : Bool) (t : Time)
      → trim_space id ≢ ""
      → now ≢ 0
      → policy.disable_cooldown ≡ false
      → t < now + max_zero policy.quota_recovery_interval_min * minute
      → (provider_gate_state
          (state_of (report_attempt_result s id 429 latency err now) id)
          policy
          t).blocked
        ≡ true
  gate_after_quota err t named real on h =
      rw (state-report_attempt_result s id id 429 latency err now named)
        (rw ((eq_iff id id).1 refl) (over (state_of s id) err t real on h))
