-- ===== src/Routing/Retry.antt =====
-- `shouldRetryAttempt` and the delay of `waitRetryBackoff` in internal/gateway/api/routing.go.
-- Durations are not bounded: the configured milliseconds, doubled at most 20 times, are taken to
-- stay below 2 ^ 63 nanoseconds.
use Prim.Native.String.{[], ◌∷◌}
use Prim.Native.Char.{code}
use native.Mathlib.Nat.{pow-suc, one-le-pow}
use ai_model_gateway.Base.{
  ℕ, zero, suc, ◌*◌, ◌^◌, ◌≤◌, ◌<◌, min, max_zero, is_pos, String, ◌≡◌, ◌∙◌, refl, Bool, true,
  false, not, ◌&&◌, ◌||◌, Option, none, some, List, arith, leb, ltb, lt→ltb, leb→le, not_leb,
  Bool-cases, inl, inr, ap, ℤ, pos, negsuc, ◌==◌, if◌then◌else◌, any, str_eq, Duration, millisecond,
}
use ai_model_gateway.Snapshot.{RetryBackoff, RetryPolicy, Snapshot}
use ai_model_gateway.Routing.{max_total_attempts, hard_retry_cap}

starts_with : String → String → Bool
starts_with s [] = true
starts_with [] (c ∷ t) = false
starts_with (d ∷ s) (c ∷ t) = code d == code c && starts_with s t

-- `strings.Contains`
contains : String → String → Bool
unfolding starts_with
contains [] t = starts_with [] t
contains (c ∷ s) t = starts_with (c ∷ s) t || contains s t

-- what one attempt came to: the status, the transport error and the extracted error message
pub record AttemptResult : Type 0 where
  pub status_code : ℕ
  pub forward_err : Bool
  pub err_msg : String

-- `strings.ToLower` is the parameter `to_lower`: nothing here rests on the table of letter cases.
module _ (to_lower : String → String) where
  pub keyword_hit : String → List String → Bool
  unfolding contains
  keyword_hit msg keywords =
      not (str_eq msg "")
      && any (λ k. not (str_eq k "") && contains (to_lower msg) (to_lower k)) keywords

  pub retryable : RetryPolicy → AttemptResult → Bool
  unfolding keyword_hit
  retryable policy r =
      policy.all_errors && leb 400 r.status_code
      || any (λ code. r.status_code == code) policy.status_codes
      || is_pos policy.status_code_min && leb (max_zero policy.status_code_min) r.status_code
      || keyword_hit r.err_msg policy.message_keywords

  -- shouldRetryAttempt; `cancelled` is `ctx.Err() != nil`
  unfoldable pub should_retry_attempt : Bool → Option Snapshot → AttemptResult → Bool
  unfolding retryable
  should_retry_attempt cancelled snap r =
      if cancelled
      then false
      else if r.forward_err
      then true
      else elim snap [ none ↦ false | some s ↦ retryable s.routing_policy.retry r ]

-- the loop of `waitRetryBackoff`, with the rounds that are left
doubled : ℕ → Duration → Duration → Duration
doubled zero delay max_delay = delay
doubled (suc rounds) delay max_delay =
    let rest = doubled rounds (delay * 2) max_delay in
    if ltb 0 max_delay && leb max_delay (delay * 2) then max_delay else rest

-- the delay that `waitRetryBackoff` waits for; 0 where it returns at once
unfoldable pub backoff_delay : RetryBackoff → ℕ → Duration
unfolding doubled
backoff_delay b retry_index =
    if is_pos b.initial_ms
    then doubled retry_index (max_zero b.initial_ms * millisecond) (max_zero b.max_ms * millisecond)
    else 0

pow-suc_left : (d r : ℕ) → d * 2 * 2 ^ r ≡ d * 2 ^ suc r
pow-suc_left d r = rw pow-suc (omega arith)

le-mul-pow : (d r : ℕ) → d ≤ d * 2 ^ r
le-mul-pow d r = grind (arith, one-le-pow r 2 (omega arith))

doubled-capped : (r d m : ℕ) → 0 < m → (r ≡ 0 → d ≤ m) → doubled r d m ≡ min (d * 2 ^ r) m
unfolding doubled
doubled-capped zero d m pos_m small = omega (arith, small refl)
doubled-capped (suc r) d m pos_m small = elim (Bool-cases (leb m (d * 2))) [
  | inl full ↦
      rw (lt→ltb 0 m pos_m, full)
        (omega (arith, leb→le _ _ full, le-mul-pow (d * 2) r, pow-suc_left d r))
  | inr room ↦
      rw (lt→ltb 0 m pos_m, room)
        (doubled-capped r (d * 2) m pos_m (λ _. omega (arith, not_leb _ _ room))
          ∙ ap (λ (t : ℕ). min t m) (pow-suc_left d r))
]

doubled-uncapped : (r d : ℕ) → doubled r d 0 ≡ d * 2 ^ r
unfolding doubled
doubled-uncapped zero d = omega arith
doubled-uncapped (suc r) d = doubled-uncapped r (d * 2) ∙ pow-suc_left d r

doubled_by_cap :
    (r d : ℕ) (cap : ℤ)
    → doubled (suc r) d (max_zero cap * millisecond)
      ≡ (if is_pos cap then min (d * 2 ^ suc r) (max_zero cap * millisecond) else d * 2 ^ suc r)
doubled_by_cap r d (pos zero) = doubled-uncapped (suc r) d
doubled_by_cap r d (pos (suc n)) =
    doubled-capped (suc r) d (suc n * millisecond) (omega arith) (λ e. absurd (omega arith))
doubled_by_cap r d (negsuc n) = doubled-uncapped (suc r) d

-- The closed form of the delay before the retry `r`, for a positive initial delay: the initial
-- delay as configured for the first, and from then on the initial delay times 2 ^ r, cut to the
-- maximum where a positive one is configured.
pub backoff_delay_closed :
    (b : RetryBackoff) (r : ℕ)
    → is_pos b.initial_ms ≡ true
    → let initial = max_zero b.initial_ms * millisecond in
      let cap = max_zero b.max_ms * millisecond in
      (backoff_delay b 0 ≡ initial)
      × (backoff_delay b (suc r)
          ≡ (if is_pos b.max_ms then min (initial * 2 ^ suc r) cap else initial * 2 ^ suc r))
unfolding backoff_delay
backoff_delay_closed b r h =
    rw h (unfold doubled in refl, doubled_by_cap r (max_zero b.initial_ms * millisecond) b.max_ms)

-- the configured number of attempts never passes the cap
pub max_total_attempts-le : (snap : Option Snapshot) → max_total_attempts snap ≤ hard_retry_cap
unfolding max_total_attempts
max_total_attempts-le none = omega arith
max_total_attempts-le (some snap) = ground arith
