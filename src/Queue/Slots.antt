-- ===== src/Queue/Slots.antt =====
-- How many requests run at once.
use ai_model_gateway.Base.{
  ℕ, ◌+◌, ◌≤◌, ◌≡◌, ◌∙◌, refl, ap, Bool, true, false, none, some, List, [], ◌∷◌, ◌++◌, arith,
  if◌then◌else◌, if_intro, ◌==◌, length, length-append, Bool-cases, inl, inr,
}
use mathlib.Core.Path.{subst}
use ai_model_gateway.Queue.{
  Priority, high, medium, low, other, PendingRequest, Queue, new_queue, started_queue,
  count_waiting, uncount_waiting, enqueue, send, signal, scan_high_ch, scan_med_ch, scan_low_ch,
  Step, Reachable,
}

pub length-taken :
    (l xs ys : List PendingRequest) (r : PendingRequest)
    → l ≡ xs ++ r ∷ ys
    → length l ≡ length (xs ++ ys) + 1
length-taken l xs ys r e =
    ap length e ∙ omega (arith, length-append xs (r ∷ ys), length-append xs ys)

-- the slots in use are those of the requests that start and run, and the active requests are those
-- that run and those that have just ended
pub record Slots (max_conc sem active_count finishing starting running : ℕ) : Type 0 where
  pub used : sem ≡ starting + running
  pub bounded : sem ≤ max_conc
  pub active : active_count ≡ running + finishing

abbrev pub IsSlotted : Queue → Type 0
IsSlotted q =
    Slots q.max_conc q.sem q.active_count q.finishing (length q.starting) (length q.running)

IsSlotted-count_waiting : (p : Priority) (q : Queue) → IsSlotted q → IsSlotted (count_waiting p q)
unfolding count_waiting
IsSlotted-count_waiting high q h = h
IsSlotted-count_waiting medium q h = h
IsSlotted-count_waiting low q h = h
IsSlotted-count_waiting other q h = h

IsSlotted-uncount_waiting :
    (p : Priority) (q : Queue) → IsSlotted q → IsSlotted (uncount_waiting p q)
unfolding uncount_waiting
IsSlotted-uncount_waiting high q h = h
IsSlotted-uncount_waiting medium q h = h
IsSlotted-uncount_waiting low q h = h
IsSlotted-uncount_waiting other q h = h

-- a send changes its channel and the notifiers alone
IsSlotted-put :
    (b : Bool) (x q : Queue) (q' : Queue)
    → (if b then some x else none) ≡ some q'
    → IsSlotted x
    → IsSlotted q'
IsSlotted-put true x q q' e h = let same : x ≡ q' = cc in subst IsSlotted same h
IsSlotted-put false x q q' e h = cc

IsSlotted-send :
    (p : Priority) (r : PendingRequest) (q q' : Queue)
    → send p r q ≡ some q'
    → IsSlotted q
    → IsSlotted q'
unfolding send
IsSlotted-send high r q q' e h = IsSlotted-put _ _ q q' e h
IsSlotted-send medium r q q' e h = IsSlotted-put _ _ q q' e h
IsSlotted-send low r q q' e h = IsSlotted-put _ _ q q' e h
IsSlotted-send other r q q' e h = IsSlotted-put _ _ q q' e h

IsSlotted-enqueue :
    (c : Bool) (r : PendingRequest) (q : Queue) → IsSlotted q → IsSlotted (enqueue c r q)
unfolding enqueue
IsSlotted-enqueue c r q h =
    if_intro IsSlotted q.closed (λ _. h)
      λ _. if_intro IsSlotted c (λ _. h) λ _. IsSlotted-count_waiting r.priority q h

IsSlotted-high : (l : List PendingRequest) (q : Queue) → IsSlotted q → IsSlotted (scan_high_ch l q)
unfolding scan_high_ch
IsSlotted-high [] q h = h
IsSlotted-high (r ∷ rs) q h = h

IsSlotted-med : (l : List PendingRequest) (q : Queue) → IsSlotted q → IsSlotted (scan_med_ch l q)
unfolding scan_med_ch
IsSlotted-med [] q h = h
IsSlotted-med (r ∷ rs) q h = h

IsSlotted-low : (l : List PendingRequest) (q : Queue) → IsSlotted q → IsSlotted (scan_low_ch l q)
unfolding scan_low_ch
IsSlotted-low [] q h = h
IsSlotted-low (r ∷ rs) q h = h

step-IsSlotted : (q q' : Queue) → Step q q' → IsSlotted q → IsSlotted q'
unfolding signal
step-IsSlotted q q' (Step.enqueues c r _) h = IsSlotted-enqueue c r q h
step-IsSlotted q q' (Step.sends xs ys r _ _ e s) h = IsSlotted-send r.priority r _ q' s h
step-IsSlotted q q' (Step.gives_up xs ys r _ e) h = IsSlotted-uncount_waiting r.priority _ h
step-IsSlotted q q' (Step.signals _ n) h = h
step-IsSlotted q q' (Step.enters _ n) h = h
step-IsSlotted q q' (Step.leaves _ n c) h = h
step-IsSlotted q q' (Step.scans_high _ n) h = IsSlotted-high q.high_ch q h
step-IsSlotted q q' (Step.scans_med _ n) h = IsSlotted-med q.med_ch q h
step-IsSlotted q q' (Step.scans_low _ n) h = IsSlotted-low q.low_ch q h
step-IsSlotted q q' (Step.wakes _ n m) h = h
step-IsSlotted q q' (Step.gives_in _ n c) h = h
step-IsSlotted q q' (Step.uncounts xs ys r _ e) h = IsSlotted-uncount_waiting r.priority _ h
step-IsSlotted q q' (Step.acquires xs ys r _ e room) h = record {
  used = omega (arith, h.used);
  bounded = room;
  active = h.active;
}
step-IsSlotted q q' (Step.abandons xs ys r _ e c) h = h
step-IsSlotted q q' (Step.starts xs ys r _ e) h =
    let n = length-taken q.starting xs ys r e in
    record { used = omega (arith, h.used); bounded = h.bounded; active = omega (arith, h.active) }
step-IsSlotted q q' (Step.finishes xs ys r _ e) h =
    let n = length-taken q.running xs ys r e in
    record {
      used = omega (arith, h.used);
      bounded = omega (arith, h.bounded);
      active = omega (arith, h.active);
    }
step-IsSlotted q q' (Step.settles _ n) h = record {
  used = h.used;
  bounded = h.bounded;
  active = omega (arith, h.active);
}
step-IsSlotted q q' (Step.closes _) h = h
step-IsSlotted q q' (Step.cancels _ c) h = h

pub new_queue-started :
    (n pct : ℕ) (q : Queue) → new_queue n pct ≡ some q → (1 ≤ n) × (started_queue n ≡ q)
unfolding new_queue
new_queue-started n pct q e = elim (Bool-cases (n == 0)) [
  | inl zero_conc ↦ absurd (ground arith)
  | inr some_conc ↦ (ground arith, ground arith)
]

new_queue-IsSlotted : (n pct : ℕ) (q : Queue) → new_queue n pct ≡ some q → IsSlotted q
new_queue-IsSlotted n pct q e =
    subst IsSlotted (new_queue-started n pct q e).1
      (unfold started_queue in record { used = refl; bounded = omega arith; active = refl })

Reachable-IsSlotted : (q0 q : Queue) → IsSlotted q0 → Reachable q0 q → IsSlotted q
Reachable-IsSlotted q0 q h Reachable.start = h
Reachable-IsSlotted q0 q h (Reachable.then_step p _ before s) =
    step-IsSlotted p q s (Reachable-IsSlotted q0 p h before)

-- In every state that a new queue reaches, at most `max_conc` requests run or are about to, each
-- with a slot of the semaphore, and the active count is that of the requests that run and of those
-- that have ended and are still counted.
pub running_bounded :
    (n pct : ℕ) (q0 q : Queue)
    → new_queue n pct ≡ some q0
    → Reachable q0 q
    → (length q.starting + length q.running ≤ q.max_conc)
      × (q.sem ≡ length q.starting + length q.running)
      × (q.active_count ≡ length q.running + q.finishing)
running_bounded n pct q0 q e path =
    let h = Reachable-IsSlotted q0 q (new_queue-IsSlotted n pct q0 e) path in
    (omega (arith, h.used, h.bounded), h.used, h.active)
