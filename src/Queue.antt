-- ===== src/Queue.antt =====
-- internal/gateway/queue/queue.go: the priority queue as a machine whose steps are the channel
-- operations, atomic counters and semaphore operations of its goroutines. Goroutines at the same
-- point of the program are interchangeable, so that they are counted, or listed with the request
-- they hold. Enqueue reads `closed` and its context in one step with the counting that follows, and
-- a caller may give up at any time, since its context may end at any time. The closure of a request
-- is its number `id`; a panic in it is recovered and ends it as a return does. The counters are
-- natural numbers, since each is decremented only after it was incremented for the same request.
pub mod Tally
pub mod Waiting
pub mod Counters
pub mod Slots
pub mod Wakeups
use ai_model_gateway.Base.{
  ℕ, zero, suc, ◌+◌, ◌-◌, ◌*◌, ◌≤◌, ◌≡◌, Bool, true, false, Option, none, some, List, [], ◌∷◌, ◌++◌,
  ltb, if◌then◌else◌, ◌==◌, length,
}

-- `Priority`; every other value of the type is `other`
pub data Priority : Type 0 where
  high medium low other : Priority

pub record PendingRequest : Type 0 where
  pub priority : Priority
  pub id : ℕ

-- the goroutines: callers of Enqueue at its second select (`senders`) and before the signal
-- (`notifiers`); schedulers at the top of the loop, at the three scans of `pick`, blocked in it
-- (`parked`), with a picked request (`holding`), waiting for a slot (`acquiring`), with a slot
-- (`starting`), and returned (`stopped`); workers that run and that have given the slot back
pub record Queue : Type 0 where
  pub high_ch : List PendingRequest
  pub med_ch : List PendingRequest
  pub low_ch : List PendingRequest
  pub sem : ℕ
  pub notify : ℕ
  pub max_conc : ℕ
  pub high_waiting : ℕ
  pub med_waiting : ℕ
  pub low_waiting : ℕ
  pub active_count : ℕ
  pub closed : Bool
  pub cancelled : Bool
  pub senders : List PendingRequest
  pub notifiers : ℕ
  pub at_top : ℕ
  pub scan_high : ℕ
  pub scan_med : ℕ
  pub scan_low : ℕ
  pub parked : ℕ
  pub holding : List PendingRequest
  pub acquiring : List PendingRequest
  pub starting : List PendingRequest
  pub stopped : ℕ
  pub running : List PendingRequest
  pub finishing : ℕ

-- the queue that NewQueue makes, with its schedulers at the top of their loops
unfoldable pub started_queue : ℕ → Queue
started_queue max_concurrent = record {
  high_ch = [];
  med_ch = [];
  low_ch = [];
  sem = 0;
  notify = 0;
  max_conc = max_concurrent;
  high_waiting = 0;
  med_waiting = 0;
  low_waiting = 0;
  active_count = 0;
  closed = false;
  cancelled = false;
  senders = [];
  notifiers = 0;
  at_top = max_concurrent;
  scan_high = 0;
  scan_med = 0;
  scan_low = 0;
  parked = 0;
  holding = [];
  acquiring = [];
  starting = [];
  stopped = 0;
  running = [];
  finishing = 0;
}

-- NewQueue, with an argument that is not negative; none where it panics
unfoldable pub new_queue : ℕ → ℕ → Option Queue
unfolding started_queue
new_queue max_concurrent high_priority_pct =
    if max_concurrent == 0
    then none
    else if ltb 100 high_priority_pct
    then none
    else some (started_queue max_concurrent)

abbrev pub capacity : Queue → ℕ
capacity q = q.max_conc * 4

-- the first switch of Enqueue
unfoldable pub count_waiting : Priority → Queue → Queue
count_waiting high q = record q { high_waiting = q.high_waiting + 1 }
count_waiting medium q = record q { med_waiting = q.med_waiting + 1 }
count_waiting low q = record q { low_waiting = q.low_waiting + 1 }
count_waiting other q = record q { med_waiting = q.med_waiting + 1 }

-- the switches that take the count back, which have no default
pub uncount_waiting : Priority → Queue → Queue
uncount_waiting high q = record q { high_waiting = q.high_waiting - 1 }
uncount_waiting medium q = record q { med_waiting = q.med_waiting - 1 }
uncount_waiting low q = record q { low_waiting = q.low_waiting - 1 }
uncount_waiting other q = q

-- Enqueue up to its second select; a closed queue and a finished context are refused
unfoldable pub enqueue : Bool → PendingRequest → Queue → Queue
unfolding count_waiting
enqueue ctx_done r q =
    if q.closed
    then q
    else if ctx_done
    then q
    else let counted = count_waiting r.priority q in
      record counted { senders = r ∷ counted.senders }

-- `ch <- req`, where the channel has room
unfoldable pub send : Priority → PendingRequest → Queue → Option Queue
send high r q =
    if ltb (length q.high_ch) (capacity q)
    then some (record q { high_ch = q.high_ch ++ r ∷ []; notifiers = q.notifiers + 1 })
    else none
send medium r q =
    if ltb (length q.med_ch) (capacity q)
    then some (record q { med_ch = q.med_ch ++ r ∷ []; notifiers = q.notifiers + 1 })
    else none
send low r q =
    if ltb (length q.low_ch) (capacity q)
    then some (record q { low_ch = q.low_ch ++ r ∷ []; notifiers = q.notifiers + 1 })
    else none
send other r q =
    if ltb (length q.med_ch) (capacity q)
    then some (record q { med_ch = q.med_ch ++ r ∷ []; notifiers = q.notifiers + 1 })
    else none

-- the send to `notify`, which does not block
pub signal : Queue → Queue
signal q = record q {
  notifiers = q.notifiers - 1;
  notify = if ltb q.notify (capacity q) then q.notify + 1 else q.notify;
}

-- the three scans of `pick`
unfoldable pub scan_high_ch : List PendingRequest → Queue → Queue
scan_high_ch [] q = record q { scan_high = q.scan_high - 1; scan_med = q.scan_med + 1 }
scan_high_ch (r ∷ rs) q = record q {
  scan_high = q.scan_high - 1;
  high_ch = rs;
  holding = r ∷ q.holding;
}

unfoldable pub scan_med_ch : List PendingRequest → Queue → Queue
scan_med_ch [] q = record q { scan_med = q.scan_med - 1; scan_low = q.scan_low + 1 }
scan_med_ch (r ∷ rs) q = record q {
  scan_med = q.scan_med - 1;
  med_ch = rs;
  holding = r ∷ q.holding;
}

unfoldable pub scan_low_ch : List PendingRequest → Queue → Queue
scan_low_ch [] q = record q { scan_low = q.scan_low - 1; parked = q.parked + 1 }
scan_low_ch (r ∷ rs) q = record q {
  scan_low = q.scan_low - 1;
  low_ch = rs;
  holding = r ∷ q.holding;
}

-- One atomic operation of one goroutine. A request that its step takes from a list may stand
-- anywhere in it: `xs` and `ys` are what stands before and after it.
pub data Step : Queue → Queue → Type 0 where
  enqueues : (ctx_done : Bool) (r : PendingRequest) (q : Queue) → Step q (enqueue ctx_done r q)
  sends :
      (xs ys : List PendingRequest) (r : PendingRequest) (q q' : Queue)
      → q.senders ≡ xs ++ r ∷ ys
      → send r.priority r (record q { senders = xs ++ ys }) ≡ some q'
      → Step q q'
  gives_up :
      (xs ys : List PendingRequest) (r : PendingRequest) (q : Queue)
      → q.senders ≡ xs ++ r ∷ ys
      → Step q (uncount_waiting r.priority (record q { senders = xs ++ ys }))
  signals : (q : Queue) → 1 ≤ q.notifiers → Step q (signal q)
  enters :
      (q : Queue)
      → 1 ≤ q.at_top
      → Step q (record q { at_top = q.at_top - 1; scan_high = q.scan_high + 1 })
  leaves :
      (q : Queue)
      → 1 ≤ q.at_top
      → q.cancelled ≡ true
      → Step q (record q { at_top = q.at_top - 1; stopped = q.stopped + 1 })
  scans_high : (q : Queue) → 1 ≤ q.scan_high → Step q (scan_high_ch q.high_ch q)
  scans_med : (q : Queue) → 1 ≤ q.scan_med → Step q (scan_med_ch q.med_ch q)
  scans_low : (q : Queue) → 1 ≤ q.scan_low → Step q (scan_low_ch q.low_ch q)
  wakes :
      (q : Queue)
      → 1 ≤ q.parked
      → 1 ≤ q.notify
      → Step q
          (record q { parked = q.parked - 1; notify = q.notify - 1; scan_high = q.scan_high + 1 })
  gives_in :
      (q : Queue)
      → 1 ≤ q.parked
      → q.cancelled ≡ true
      → Step q (record q { parked = q.parked - 1; at_top = q.at_top + 1 })
  uncounts :
      (xs ys : List PendingRequest) (r : PendingRequest) (q : Queue)
      → q.holding ≡ xs ++ r ∷ ys
      → Step q (
          uncount_waiting r.priority (record q { holding = xs ++ ys; acquiring = r ∷ q.acquiring }))
  acquires :
      (xs ys : List PendingRequest) (r : PendingRequest) (q : Queue)
      → q.acquiring ≡ xs ++ r ∷ ys
      → q.sem + 1 ≤ q.max_conc
      → Step q (record q { acquiring = xs ++ ys; sem = q.sem + 1; starting = r ∷ q.starting })
  abandons :
      (xs ys : List PendingRequest) (r : PendingRequest) (q : Queue)
      → q.acquiring ≡ xs ++ r ∷ ys
      → q.cancelled ≡ true
      → Step q (record q { acquiring = xs ++ ys; stopped = q.stopped + 1 })
  starts :
      (xs ys : List PendingRequest) (r : PendingRequest) (q : Queue)
      → q.starting ≡ xs ++ r ∷ ys
      → Step q (record q {
        starting = xs ++ ys;
        active_count = q.active_count + 1;
        running = r ∷ q.running;
        at_top = q.at_top + 1;
      })
  finishes :
      (xs ys : List PendingRequest) (r : PendingRequest) (q : Queue)
      → q.running ≡ xs ++ r ∷ ys
      → Step q (record q { running = xs ++ ys; sem = q.sem - 1; finishing = q.finishing + 1 })
  settles :
      (q : Queue)
      → 1 ≤ q.finishing
      → Step q (record q { finishing = q.finishing - 1; active_count = q.active_count - 1 })
  closes : (q : Queue) → Step q (record q { closed = true })
  cancels : (q : Queue) → q.closed ≡ true → Step q (record q { cancelled = true })

-- the steps from a new queue to a state
pub data Reachable (q0 : Queue) : Queue → Type 0 where
  start : Reachable q0 q0
  then_step : (q q' : Queue) → Reachable q0 q → Step q q' → Reachable q0 q'
