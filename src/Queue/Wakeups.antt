-- ===== src/Queue/Wakeups.antt =====
-- A waiting request is never forgotten.
use ai_model_gateway.Base.{
  ℕ, ◌+◌, ◌≤◌, ◌<◌, ◌≡◌, ◌⊎◌, refl, ap, Bool, true, false, none, some, List, [], ◌∷◌, arith,
  if◌then◌else◌, if_intro, length, inl, inr,
}
use mathlib.Core.Path.{subst}
use ai_model_gateway.Queue.{
  Priority, high, medium, low, other, PendingRequest, Queue, new_queue, started_queue,
  count_waiting, uncount_waiting, enqueue, send, signal, scan_high_ch, scan_med_ch, scan_low_ch,
  Step, Reachable,
}
use ai_model_gateway.Queue.Slots.{length-taken, new_queue-started}

-- Who will still look at the channels: pending signals (`alarms`), and the schedulers that will
-- scan from the top (`busy`). Every scheduler is somewhere, and none has returned before the queue
-- is cancelled. A channel that is not empty has somebody who will still look at it.
pub record Watched (cancelled : Bool)
    (max_conc alarms busy scan_med scan_low parked stopped high_len med_len low_len : ℕ)
    : Type 0 where
  pub positive : 1 ≤ max_conc
  pub everyone : busy + scan_med + scan_low + parked + stopped ≡ max_conc
  pub live : (cancelled ≡ true) ⊎ (stopped ≡ 0)
  pub high_seen : (cancelled ≡ true) ⊎ ((high_len ≡ 0) ⊎ (1 ≤ alarms + busy))
  pub med_seen : (cancelled ≡ true) ⊎ ((med_len ≡ 0) ⊎ (1 ≤ alarms + busy + scan_med))
  pub low_seen : (cancelled ≡ true) ⊎ ((low_len ≡ 0) ⊎ (1 ≤ alarms + busy + scan_med + scan_low))

abbrev pub busy : Queue → ℕ
busy q = q.at_top + q.scan_high + length q.holding + length q.acquiring + length q.starting

abbrev pub IsWatched : Queue → Type 0
IsWatched q =
    Watched q.cancelled q.max_conc (q.notify + q.notifiers) (busy q) q.scan_med q.scan_low q.parked
      q.stopped (length q.high_ch) (length q.med_ch) (length q.low_ch)

-- Somebody will scan from the top.
Watched-alert :
    (c : Bool) (m a b sm sl pk st hi me lo : ℕ)
    → 1 ≤ m
    → b + sm + sl + pk + st ≡ m
    → (c ≡ true) ⊎ (st ≡ 0)
    → (c ≡ true) ⊎ (1 ≤ a + b)
    → Watched c m a b sm sl pk st hi me lo
Watched-alert c m a b sm sl pk st hi me lo p e l s = record {
  positive = p;
  everyone = e;
  live = l;
  high_seen = ground (arith, s);
  med_seen = ground (arith, s);
  low_seen = ground (arith, s);
}

IsWatched-count_waiting : (p : Priority) (q : Queue) → IsWatched q → IsWatched (count_waiting p q)
unfolding count_waiting
IsWatched-count_waiting high q h = h
IsWatched-count_waiting medium q h = h
IsWatched-count_waiting low q h = h
IsWatched-count_waiting other q h = h

IsWatched-uncount_waiting :
    (p : Priority) (q : Queue) → IsWatched q → IsWatched (uncount_waiting p q)
unfolding uncount_waiting
IsWatched-uncount_waiting high q h = h
IsWatched-uncount_waiting medium q h = h
IsWatched-uncount_waiting low q h = h
IsWatched-uncount_waiting other q h = h

IsWatched-put :
    (b : Bool) (x q' : Queue) → (if b then some x else none) ≡ some q' → IsWatched x → IsWatched q'
IsWatched-put true x q' e h = let same : x ≡ q' = cc in subst IsWatched same h
IsWatched-put false x q' e h = cc

IsWatched-send :
    (p : Priority) (r : PendingRequest) (q q' : Queue)
    → send p r q ≡ some q'
    → IsWatched q
    → IsWatched q'
unfolding send
IsWatched-send high r q q' e h =
    IsWatched-put _ _ q' e
      (Watched-alert _ _ _ _ _ _ _ _ _ _ _ h.positive h.everyone h.live (inr (omega arith)))
IsWatched-send medium r q q' e h =
    IsWatched-put _ _ q' e
      (Watched-alert _ _ _ _ _ _ _ _ _ _ _ h.positive h.everyone h.live (inr (omega arith)))
IsWatched-send low r q q' e h =
    IsWatched-put _ _ q' e
      (Watched-alert _ _ _ _ _ _ _ _ _ _ _ h.positive h.everyone h.live (inr (omega arith)))
IsWatched-send other r q q' e h =
    IsWatched-put _ _ q' e
      (Watched-alert _ _ _ _ _ _ _ _ _ _ _ h.positive h.everyone h.live (inr (omega arith)))

IsWatched-enqueue :
    (c : Bool) (r : PendingRequest) (q : Queue) → IsWatched q → IsWatched (enqueue c r q)
unfolding enqueue
IsWatched-enqueue c r q h =
    if_intro IsWatched q.closed (λ _. h)
      λ _. if_intro IsWatched c (λ _. h) λ _. IsWatched-count_waiting r.priority q h

IsWatched-signal : (q : Queue) → 1 ≤ q.notifiers → IsWatched q → IsWatched (signal q)
unfolding signal
IsWatched-signal q n h =
    Watched-alert _ _ _ _ _ _ _ _ _ _ _ h.positive h.everyone h.live
      (inr (ground (arith, h.positive)))

IsWatched-high :
    (l : List PendingRequest) (q : Queue)
    → q.high_ch ≡ l
    → 1 ≤ q.scan_high
    → IsWatched q
    → IsWatched (scan_high_ch l q)
unfolding scan_high_ch
IsWatched-high [] q e n h =
    let none_high = ap length e in
    record {
      positive = h.positive;
      everyone = omega (arith, h.everyone);
      live = h.live;
      high_seen = inr (inl none_high);
      med_seen = ground (arith, h.med_seen);
      low_seen = ground (arith, h.low_seen);
    }
IsWatched-high (r ∷ rs) q e n h =
    Watched-alert _ _ _ _ _ _ _ _ _ _ _ h.positive (omega (arith, h.everyone)) h.live
      (inr (omega arith))

IsWatched-med :
    (l : List PendingRequest) (q : Queue)
    → q.med_ch ≡ l
    → 1 ≤ q.scan_med
    → IsWatched q
    → IsWatched (scan_med_ch l q)
unfolding scan_med_ch
IsWatched-med [] q e n h =
    let none_med = ap length e in
    record {
      positive = h.positive;
      everyone = omega (arith, h.everyone);
      live = h.live;
      high_seen = h.high_seen;
      med_seen = inr (inl none_med);
      low_seen = ground (arith, h.low_seen);
    }
IsWatched-med (r ∷ rs) q e n h =
    Watched-alert _ _ _ _ _ _ _ _ _ _ _ h.positive (omega (arith, h.everyone)) h.live
      (inr (omega arith))

IsWatched-low :
    (l : List PendingRequest) (q : Queue)
    → q.low_ch ≡ l
    → 1 ≤ q.scan_low
    → IsWatched q
    → IsWatched (scan_low_ch l q)
unfolding scan_low_ch
IsWatched-low [] q e n h =
    let none_low = ap length e in
    record {
      positive = h.positive;
      everyone = omega (arith, h.everyone);
      live = h.live;
      high_seen = h.high_seen;
      med_seen = h.med_seen;
      low_seen = inr (inl none_low);
    }
IsWatched-low (r ∷ rs) q e n h =
    Watched-alert _ _ _ _ _ _ _ _ _ _ _ h.positive (omega (arith, h.everyone)) h.live
      (inr (omega arith))

step-IsWatched : (q q' : Queue) → Step q q' → IsWatched q → IsWatched q'
step-IsWatched q q' (Step.enqueues c r _) h = IsWatched-enqueue c r q h
step-IsWatched q q' (Step.sends xs ys r _ _ e s) h = IsWatched-send r.priority r _ q' s h
step-IsWatched q q' (Step.gives_up xs ys r _ e) h = IsWatched-uncount_waiting r.priority _ h
step-IsWatched q q' (Step.signals _ n) h = IsWatched-signal q n h
step-IsWatched q q' (Step.enters _ n) h =
    Watched-alert _ _ _ _ _ _ _ _ _ _ _ h.positive (omega (arith, h.everyone)) h.live
      (inr (omega arith))
step-IsWatched q q' (Step.leaves _ n c) h =
    Watched-alert _ _ _ _ _ _ _ _ _ _ _ h.positive (omega (arith, h.everyone)) (inl c) (inl c)
step-IsWatched q q' (Step.scans_high _ n) h = IsWatched-high q.high_ch q refl n h
step-IsWatched q q' (Step.scans_med _ n) h = IsWatched-med q.med_ch q refl n h
step-IsWatched q q' (Step.scans_low _ n) h = IsWatched-low q.low_ch q refl n h
step-IsWatched q q' (Step.wakes _ n m) h =
    Watched-alert _ _ _ _ _ _ _ _ _ _ _ h.positive (omega (arith, h.everyone)) h.live
      (inr (omega arith))
step-IsWatched q q' (Step.gives_in _ n c) h =
    Watched-alert _ _ _ _ _ _ _ _ _ _ _ h.positive (omega (arith, h.everyone)) h.live (inl c)
step-IsWatched q q' (Step.uncounts xs ys r _ e) h =
    let n = length-taken q.holding xs ys r e in
    IsWatched-uncount_waiting r.priority _ (
      Watched-alert _ _ _ _ _ _ _ _ _ _ _ h.positive (omega (arith, h.everyone)) h.live
        (inr (omega arith)))
step-IsWatched q q' (Step.acquires xs ys r _ e room) h =
    let n = length-taken q.acquiring xs ys r e in
    Watched-alert _ _ _ _ _ _ _ _ _ _ _ h.positive (omega (arith, h.everyone)) h.live
      (inr (omega arith))
step-IsWatched q q' (Step.abandons xs ys r _ e c) h =
    let n = length-taken q.acquiring xs ys r e in
    Watched-alert _ _ _ _ _ _ _ _ _ _ _ h.positive (omega (arith, h.everyone)) (inl c) (inl c)
step-IsWatched q q' (Step.starts xs ys r _ e) h =
    let n = length-taken q.starting xs ys r e in
    Watched-alert _ _ _ _ _ _ _ _ _ _ _ h.positive (omega (arith, h.everyone)) h.live
      (inr (omega arith))
step-IsWatched q q' (Step.finishes xs ys r _ e) h = h
step-IsWatched q q' (Step.settles _ n) h = h
step-IsWatched q q' (Step.closes _) h = h
step-IsWatched q q' (Step.cancels _ c) h =
    Watched-alert _ _ _ _ _ _ _ _ _ _ _ h.positive h.everyone (inl refl) (inl refl)

new_queue-IsWatched : (n pct : ℕ) (q : Queue) → new_queue n pct ≡ some q → IsWatched q
new_queue-IsWatched n pct q e =
    let (some_conc, same) = new_queue-started n pct q e in
    subst IsWatched same (
      unfold started_queue in
      Watched-alert _ _ _ _ _ _ _ _ _ _ _ some_conc (omega arith) (inr refl) (inr (omega arith)))

Reachable-IsWatched : (q0 q : Queue) → IsWatched q0 → Reachable q0 q → IsWatched q
Reachable-IsWatched q0 q h Reachable.start = h
Reachable-IsWatched q0 q h (Reachable.then_step p _ before s) =
    step-IsWatched p q s (Reachable-IsWatched q0 p h before)

-- No wake-up is lost: where a new queue reaches a state that is not cancelled, in which a channel
-- holds a request and no scheduler is at work, neither scanning nor with a request, a scheduler is
-- parked, and a signal is pending or about to be sent.
pub no_lost_wakeup :
    (n pct : ℕ) (q0 q : Queue)
    → new_queue n pct ≡ some q0
    → Reachable q0 q
    → q.cancelled ≡ false
    → 0 < length q.high_ch + length q.med_ch + length q.low_ch
    → busy q + q.scan_med + q.scan_low ≡ 0
    → (1 ≤ q.parked) × ((1 ≤ q.notify) ⊎ (1 ≤ q.notifiers))
no_lost_wakeup n pct q0 q e path uncancelled work idle =
    let h = Reachable-IsWatched q0 q (new_queue-IsWatched n pct q0 e) path in
    (
      ground (arith, h.positive, h.everyone, h.live),
      ground (arith, h.high_seen, h.med_seen, h.low_seen),
    )
