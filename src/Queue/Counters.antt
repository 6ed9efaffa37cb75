-- ===== src/Queue/Counters.antt =====
-- What the waiting counters count.
use ai_model_gateway.Base.{
  ℕ, ◌+◌, ◌≡◌, ◌∙◌, refl, ap, Bool, some, List, [], ◌∷◌, ◌++◌, arith, count_if,
}
use mathlib.Core.Path.{subst}
use ai_model_gateway.Queue.{
  PendingRequest, Queue, new_queue, started_queue, signal, scan_high_ch, scan_med_ch, scan_low_ch,
  Step, Reachable,
}
use ai_model_gateway.Queue.Slots.{new_queue-started}
use ai_model_gateway.Queue.Tally.{
  IsTallied-enqueue, lost_by, IsTallied-uncounted, Tally-moved, IsTallied-send,
}
use ai_model_gateway.Queue.Waiting.{
  is_high, is_medium, is_low, waiting, IsTallied, one_if, count_if-taken, count_if-cons,
}

module _ (q : Queue) (r : PendingRequest) (rs : List PendingRequest) where
  picked_high :
      (f : PendingRequest → Bool)
      → q.high_ch ≡ r ∷ rs
      → waiting f (record q { high_ch = rs; holding = r ∷ q.holding }) ≡ waiting f q
  picked_high f e =
      let a = ap (count_if f) e ∙ count_if-cons f r rs in
      let b = count_if-cons f r q.holding in omega arith

  picked_med :
      (f : PendingRequest → Bool)
      → q.med_ch ≡ r ∷ rs
      → waiting f (record q { med_ch = rs; holding = r ∷ q.holding }) ≡ waiting f q
  picked_med f e =
      let a = ap (count_if f) e ∙ count_if-cons f r rs in
      let b = count_if-cons f r q.holding in omega arith

  picked_low :
      (f : PendingRequest → Bool)
      → q.low_ch ≡ r ∷ rs
      → waiting f (record q { low_ch = rs; holding = r ∷ q.holding }) ≡ waiting f q
  picked_low f e =
      let a = ap (count_if f) e ∙ count_if-cons f r rs in
      let b = count_if-cons f r q.holding in omega arith

IsTallied-high :
    (lost : ℕ) (l : List PendingRequest) (q : Queue)
    → q.high_ch ≡ l
    → IsTallied lost q
    → IsTallied lost (scan_high_ch l q)
unfolding scan_high_ch
IsTallied-high lost [] q e h = h
IsTallied-high lost (r ∷ rs) q e h =
    Tally-moved _ _ _ _ _ _ _ _ _ (picked_high q r rs is_high e)
      (ap (λ n. n + lost) (picked_high q r rs is_medium e)) (picked_high q r rs is_low e) h

IsTallied-med :
    (lost : ℕ) (l : List PendingRequest) (q : Queue)
    → q.med_ch ≡ l
    → IsTallied lost q
    → IsTallied lost (scan_med_ch l q)
unfolding scan_med_ch
IsTallied-med lost [] q e h = h
IsTallied-med lost (r ∷ rs) q e h =
    Tally-moved _ _ _ _ _ _ _ _ _ (picked_med q r rs is_high e)
      (ap (λ n. n + lost) (picked_med q r rs is_medium e)) (picked_med q r rs is_low e) h

IsTallied-low :
    (lost : ℕ) (l : List PendingRequest) (q : Queue)
    → q.low_ch ≡ l
    → IsTallied lost q
    → IsTallied lost (scan_low_ch l q)
unfolding scan_low_ch
IsTallied-low lost [] q e h = h
IsTallied-low lost (r ∷ rs) q e h =
    Tally-moved _ _ _ _ _ _ _ _ _ (picked_low q r rs is_high e)
      (ap (λ n. n + lost) (picked_low q r rs is_medium e)) (picked_low q r rs is_low e) h

module _ (q : Queue) (xs ys : List PendingRequest) (r : PendingRequest) where
  left_senders :
      (f : PendingRequest → Bool)
      → q.senders ≡ xs ++ r ∷ ys
      → waiting f q ≡ waiting f (record q { senders = xs ++ ys }) + one_if (f r)
  left_senders f e = let a = count_if-taken f q.senders xs ys r e in omega arith

  left_holding :
      (f : PendingRequest → Bool)
      → q.holding ≡ xs ++ r ∷ ys
      → waiting f q ≡ waiting f (record q { holding = xs ++ ys }) + one_if (f r)
  left_holding f e = let a = count_if-taken f q.holding xs ys r e in omega arith

left_more : (a b c n : ℕ) → a ≡ b + c → a + n ≡ b + n + c
left_more a b c n h = omega arith

-- what is lost after a step
abbrev pub lost_after : {q q' : Queue} → Step q q' → ℕ → ℕ
lost_after (Step.enqueues c r q) n = lost_by c r q n
lost_after _ n = n

-- the requests of an unknown priority that were counted on the way
pub lost_on : {q0 q : Queue} → Reachable q0 q → ℕ
lost_on Reachable.start = 0
lost_on (Reachable.then_step q q' before s) = lost_after s (lost_on before)

step-IsTallied :
    (lost : ℕ) (q q' : Queue) (s : Step q q') → IsTallied lost q → IsTallied (lost_after s lost) q'
unfolding signal
step-IsTallied lost q q' (Step.enqueues c r _) h = IsTallied-enqueue lost c r q h
step-IsTallied lost q q' (Step.sends xs ys r _ _ e s) h =
    IsTallied-send q xs ys r e lost r.priority q' s h
step-IsTallied lost q q' (Step.gives_up xs ys r _ e) h =
    IsTallied-uncounted lost r.priority r (record q { senders = xs ++ ys }) _ _ _ refl
      (left_senders q xs ys r is_high e) (left_more _ _ _ lost (left_senders q xs ys r is_medium e))
      (left_senders q xs ys r is_low e) h
step-IsTallied lost q q' (Step.signals _ n) h = h
step-IsTallied lost q q' (Step.enters _ n) h = h
step-IsTallied lost q q' (Step.leaves _ n c) h = h
step-IsTallied lost q q' (Step.scans_high _ n) h = IsTallied-high lost q.high_ch q refl h
step-IsTallied lost q q' (Step.scans_med _ n) h = IsTallied-med lost q.med_ch q refl h
step-IsTallied lost q q' (Step.scans_low _ n) h = IsTallied-low lost q.low_ch q refl h
step-IsTallied lost q q' (Step.wakes _ n m) h = h
step-IsTallied lost q q' (Step.gives_in _ n c) h = h
step-IsTallied lost q q' (Step.uncounts xs ys r _ e) h =
    IsTallied-uncounted lost r.priority r
      (record q { holding = xs ++ ys; acquiring = r ∷ q.acquiring }) _ _ _ refl
      (left_holding q xs ys r is_high e) (left_more _ _ _ lost (left_holding q xs ys r is_medium e))
      (left_holding q xs ys r is_low e) h
step-IsTallied lost q q' (Step.acquires xs ys r _ e room) h = h
step-IsTallied lost q q' (Step.abandons xs ys r _ e c) h = h
step-IsTallied lost q q' (Step.starts xs ys r _ e) h = h
step-IsTallied lost q q' (Step.finishes xs ys r _ e) h = h
step-IsTallied lost q q' (Step.settles _ n) h = h
step-IsTallied lost q q' (Step.closes _) h = h
step-IsTallied lost q q' (Step.cancels _ c) h = h

new_queue-IsTallied : (n pct : ℕ) (q : Queue) → new_queue n pct ≡ some q → IsTallied 0 q
new_queue-IsTallied n pct q e =
    subst (IsTallied 0) (new_queue-started n pct q e).1
      (unfold started_queue in record { high_tally = refl; med_tally = refl; low_tally = refl })

Reachable-IsTallied :
    (q0 q : Queue) → IsTallied 0 q0 → (path : Reachable q0 q) → IsTallied (lost_on path) q
unfolding lost_on
Reachable-IsTallied q0 q h Reachable.start = h
Reachable-IsTallied q0 q h (Reachable.then_step p _ before s) =
    step-IsTallied (lost_on before) p q s (Reachable-IsTallied q0 p h before)

-- In every state that a new queue reaches, each counter is the number of the requests of its
-- priority that wait; the medium counter is that number and the number of the requests of an
-- unknown priority that `Enqueue` counted on the way, since those are never counted off.
pub waiting_counted :
    (n pct : ℕ) (q0 q : Queue)
    → new_queue n pct ≡ some q0
    → (path : Reachable q0 q)
    → (q.high_waiting ≡ waiting is_high q)
      × (q.med_waiting ≡ waiting is_medium q + lost_on path)
      × (q.low_waiting ≡ waiting is_low q)
waiting_counted n pct q0 q e path =
    let h = Reachable-IsTallied q0 q (new_queue-IsTallied n pct q0 e) path in
    (h.high_tally, h.med_tally, h.low_tally)
