-- ===== src/Queue/Tally.antt =====
-- How the waiting counters move with the requests that wait.
use ai_model_gateway.Base.{
  ℕ, ◌+◌, ◌≡◌, refl, ap, Bool, true, false, none, some, List, [], ◌∷◌, ◌++◌, arith, if◌then◌else◌,
}
use mathlib.Core.Path.{subst}
use ai_model_gateway.Queue.{
  Priority, high, medium, low, other, PendingRequest, Queue, count_waiting, uncount_waiting,
  enqueue, send,
}
use ai_model_gateway.Queue.Waiting.{
  IsTallied, Tally, Tally-count_waiting, Tally-uncount_waiting, count_if-cons, count_if-snoc,
  count_if-taken, is_high, is_low, is_medium, is_other, one_if, waiting,
}

waiting-sender :
    (f : PendingRequest → Bool) (r : PendingRequest) (q : Queue)
    → waiting f (record q { senders = r ∷ q.senders }) ≡ waiting f q + one_if (f r)
waiting-sender f r q = let n = count_if-cons f r q.senders in omega arith

medium-sender :
    (lost : ℕ) (r : PendingRequest) (q : Queue)
    → waiting is_medium (record q { senders = r ∷ q.senders }) + (lost + one_if (is_other r))
      ≡ waiting is_medium q + lost + one_if (is_medium r) + one_if (is_other r)
medium-sender lost r q = let n = waiting-sender is_medium r q in omega arith

IsTallied-if :
    (b : Bool) (m n : ℕ) (x y : Queue)
    → IsTallied m x
    → IsTallied n y
    → IsTallied (if b then m else n) (if b then x else y)
IsTallied-if true m n x y h k = h
IsTallied-if false m n x y h k = k

pub IsTallied-counted :
    (lost : ℕ) (p : Priority) (r : PendingRequest) (q : Queue)
    → r.priority ≡ p
    → IsTallied lost q
    → IsTallied
        (lost + one_if (is_other r))
        (record (count_waiting p q) { senders = r ∷ (count_waiting p q).senders })
unfolding count_waiting
IsTallied-counted lost high r q e h =
    Tally-count_waiting high r q _ _ _ _ _ _ e (waiting-sender is_high r q) (medium-sender lost r q)
      (waiting-sender is_low r q) h
IsTallied-counted lost medium r q e h =
    Tally-count_waiting medium r q _ _ _ _ _ _ e (waiting-sender is_high r q)
      (medium-sender lost r q) (waiting-sender is_low r q) h
IsTallied-counted lost low r q e h =
    Tally-count_waiting low r q _ _ _ _ _ _ e (waiting-sender is_high r q) (medium-sender lost r q)
      (waiting-sender is_low r q) h
IsTallied-counted lost other r q e h =
    Tally-count_waiting other r q _ _ _ _ _ _ e (waiting-sender is_high r q)
      (medium-sender lost r q) (waiting-sender is_low r q) h

-- what is lost after a call of Enqueue, which must get as far as counting
abbrev pub lost_by : Bool → PendingRequest → Queue → ℕ → ℕ
lost_by ctx_done r q n = if q.closed then n else if ctx_done then n else n + one_if (is_other r)

pub IsTallied-enqueue :
    (lost : ℕ) (c : Bool) (r : PendingRequest) (q : Queue)
    → IsTallied lost q
    → IsTallied (lost_by c r q lost) (enqueue c r q)
unfolding enqueue
IsTallied-enqueue lost c r q h =
    IsTallied-if q.closed lost _ q _ h
      (IsTallied-if c lost _ q _ h (IsTallied-counted lost r.priority r q refl h))

-- a request that left the waiting ones is counted off
pub IsTallied-uncounted :
    (lost : ℕ) (p : Priority) (r : PendingRequest) (q : Queue) (h m l : ℕ)
    → r.priority ≡ p
    → h ≡ waiting is_high q + one_if (is_high r)
    → m ≡ waiting is_medium q + lost + one_if (is_medium r)
    → l ≡ waiting is_low q + one_if (is_low r)
    → Tally q.high_waiting q.med_waiting q.low_waiting h m l
    → IsTallied lost (uncount_waiting p q)
unfolding uncount_waiting
IsTallied-uncounted lost high r q h m l e eh em el t =
    Tally-uncount_waiting high r q h m l _ _ _ e eh em el t
IsTallied-uncounted lost medium r q h m l e eh em el t =
    Tally-uncount_waiting medium r q h m l _ _ _ e eh em el t
IsTallied-uncounted lost low r q h m l e eh em el t =
    Tally-uncount_waiting low r q h m l _ _ _ e eh em el t
IsTallied-uncounted lost other r q h m l e eh em el t =
    Tally-uncount_waiting other r q h m l _ _ _ e eh em el t

-- the same requests wait, somewhere else
pub Tally-moved :
    (hw mw lw h m l h' m' l' : ℕ)
    → h' ≡ h
    → m' ≡ m
    → l' ≡ l
    → Tally hw mw lw h m l
    → Tally hw mw lw h' m' l'
Tally-moved hw mw lw h m l h' m' l' eh em el t = record {
  high_tally = omega (arith, t.high_tally);
  med_tally = omega (arith, t.med_tally);
  low_tally = omega (arith, t.low_tally);
}

IsTallied-put :
    (lost : ℕ) (b : Bool) (x q' : Queue)
    → (if b then some x else none) ≡ some q'
    → IsTallied lost x
    → IsTallied lost q'
IsTallied-put lost true x q' e h = let same : x ≡ q' = cc in subst (IsTallied lost) same h
IsTallied-put lost false x q' e h = cc

module _ (q : Queue) (xs ys : List PendingRequest) (r : PendingRequest)
    (e : q.senders ≡ xs ++ r ∷ ys) where
  sent_high :
      (f : PendingRequest → Bool)
      → waiting f (record q { senders = xs ++ ys; high_ch = q.high_ch ++ r ∷ [] }) ≡ waiting f q
  sent_high f =
      let a = count_if-taken f q.senders xs ys r e in
      let b = count_if-snoc f r q.high_ch in omega arith

  sent_med :
      (f : PendingRequest → Bool)
      → waiting f (record q { senders = xs ++ ys; med_ch = q.med_ch ++ r ∷ [] }) ≡ waiting f q
  sent_med f =
      let a = count_if-taken f q.senders xs ys r e in
      let b = count_if-snoc f r q.med_ch in omega arith

  sent_low :
      (f : PendingRequest → Bool)
      → waiting f (record q { senders = xs ++ ys; low_ch = q.low_ch ++ r ∷ [] }) ≡ waiting f q
  sent_low f =
      let a = count_if-taken f q.senders xs ys r e in
      let b = count_if-snoc f r q.low_ch in omega arith

  pub IsTallied-send :
      (lost : ℕ) (p : Priority) (q' : Queue)
      → send p r (record q { senders = xs ++ ys }) ≡ some q'
      → IsTallied lost q
      → IsTallied lost q'
  unfolding send
  IsTallied-send lost high q' s h = IsTallied-put lost _ _ q' s (
      Tally-moved _ _ _ _ _ _ _ _ _ (sent_high is_high) (ap (λ n. n + lost) (sent_high is_medium))
        (sent_high is_low) h)
  IsTallied-send lost medium q' s h = IsTallied-put lost _ _ q' s (
      Tally-moved _ _ _ _ _ _ _ _ _ (sent_med is_high) (ap (λ n. n + lost) (sent_med is_medium))
        (sent_med is_low) h)
  IsTallied-send lost low q' s h = IsTallied-put lost _ _ q' s (
      Tally-moved _ _ _ _ _ _ _ _ _ (sent_low is_high) (ap (λ n. n + lost) (sent_low is_medium))
        (sent_low is_low) h)
  IsTallied-send lost other q' s h = IsTallied-put lost _ _ q' s (
      Tally-moved _ _ _ _ _ _ _ _ _ (sent_med is_high) (ap (λ n. n + lost) (sent_med is_medium))
        (sent_med is_low) h)
