-- ===== src/TelemetryClient.antt =====
-- internal/gateway/telemetry/client.go: the client by which gatewayd hands its events to
-- telemetryd. The connection and the context are a world with what they answer; sleeping and
-- logging are left out. The client's goroutines are the steps of a machine.
pub mod Sending
pub mod Steps
pub mod Conserved
pub mod Flushes
use ai_model_gateway.Base.{
  ℕ, zero, suc, ◌+◌, String, Bool, true, false, not, ◌&&◌, ◌||◌, Option, none, some, List, [], ◌∷◌,
  ◌++◌, ℤ, pos, negsuc, is_pos, max_zero, leb, ◌-◌, ltb, ltb_ℤ, length, str_eq, ◌==◌, if◌then◌else◌,
  Result, ok, err, Duration, any, second, millisecond, ◌*◌,
}
use ai_model_gateway.PathSecurity.{contains}
use ai_model_gateway.Telemetry.{Event}

pub record ClientConfig : Type 0 where
  pub batch_size : ℤ
  pub flush_interval : Duration
  pub queue_size : ℤ
  pub source_instance : String
  pub reconnect_interval : Duration
  pub max_reconnect_attempts : ℤ

-- DefaultClientConfig
abbrev pub default_client_config : ClientConfig
default_client_config = record {
  batch_size = pos 256;
  flush_interval = 100 * millisecond;
  queue_size = pos 1024;
  source_instance = "gatewayd";
  reconnect_interval = 5 * second;
  max_reconnect_attempts = pos 0;
}

-- the numbers of package syscall that are looked for, and the others
pub data Errno : Type 0 where
  econnrefused econnreset epipe etimedout enetunreach ehostunreach other_errno : Errno

-- what errors.As and errors.Is find in the chain of an error, and its text
pub record CallError : Type 0 where
  pub net_error : Bool
  pub errno : Option Errno
  pub closed : Bool
  pub text : String

unfoldable pub connection_errno : Option Errno → Bool
connection_errno none = false
connection_errno (some other_errno) = false
connection_errno (some econnrefused) = true
connection_errno (some econnreset) = true
connection_errno (some epipe) = true
connection_errno (some etimedout) = true
connection_errno (some enetunreach) = true
connection_errno (some ehostunreach) = true

-- isConnectionError
unfoldable pub is_connection_error : CallError → Bool
unfolding connection_errno contains
is_connection_error e =
    e.net_error
    || connection_errno e.errno
    || e.closed
    || any (contains e.text) (
        "broken pipe" ∷ "reset by peer" ∷ "connection refused" ∷ "connection reset"
        ∷ "use of closed" ∷ [])

-- AppendBatchResponse, as far as it is read
pub record AppendReply : Type 0 where
  pub accepted : ℕ
  pub dropped : ℕ

-- the world: AppendBatch over the current connection, the dialer (none in a client without one),
-- and whether the context is done
pub record Rpc (W E : Type 0) : Type 0 where
  pub append_batch : List E → W → Result CallError AppendReply × W
  pub dial : Option (W → Bool × W)
  pub ctx_done : W → Bool

-- what became of a batch: how much to add to the counters of sent and of dropped events
pub record Tally : Type 0 where
  pub sent : ℕ
  pub dropped : ℕ

-- maxAttempts
unfoldable pub max_attempts : ℤ → ℕ
max_attempts (pos zero) = 1000
max_attempts (pos (suc n)) = suc n
max_attempts (negsuc n) = 0

module _ {W E : Type 0} (rpc : Rpc W E) where
  -- reconnect, which replaces the connection where it returns true
  unfoldable pub reconnect : W → Bool × W
  reconnect w = elim rpc.dial [ none ↦ (false, w) | some dial ↦ dial w ]

  abbrev pub all_dropped : List E → W → Tally × W
  all_dropped events w = (record { sent = 0; dropped = length events }, w)

  -- after an error that did not lead to a new connection: whether to try again
  abbrev pub retry_or_drop : List E → (W → Tally × W) → ℕ → W → Tally × W
  retry_or_drop events again left w =
      if left == 0 || rpc.ctx_done w then all_dropped events w else again w

  -- after a reconnection that an error asked for
  abbrev pub after_reconnect : List E → (W → Tally × W) → ℕ → Bool × W → Tally × W
  after_reconnect events again left (true, w) = again w
  after_reconnect events again left (false, w) = retry_or_drop events again left w

  unfoldable pub after_call :
      List E → (W → Tally × W) → ℕ → Result CallError AppendReply × W → Tally × W
  unfolding is_connection_error reconnect
  after_call events again left (ok reply, w) =
      (record { sent = reply.accepted; dropped = reply.dropped }, w)
  after_call events again left (err error, w) =
      if is_connection_error error
      then after_reconnect events again left (reconnect w)
      else retry_or_drop events again left w

  -- the call over a connection, if there is one
  abbrev pub call_over : List E → (W → Tally × W) → ℕ → Bool × W → Tally × W
  call_over events again left (true, w) = after_call events again left (rpc.append_batch events w)
  call_over events again left (false, w) = all_dropped events w

  -- the loop of sendBatch, with the attempts that are left; the connection is there from the first
  -- attempt on, or it was made in it
  unfoldable pub send_attempts : List E → Bool → ℕ → W → Tally × W
  unfolding after_call reconnect
  send_attempts events connected zero w = all_dropped events w
  send_attempts events connected (suc left) w =
      call_over events (send_attempts events true left) left
        (if connected then (true, w) else reconnect w)

  -- sendBatch
  unfoldable pub send_batch : ClientConfig → Bool → List E → W → Tally × W
  unfolding send_attempts max_attempts
  send_batch config connected [] w = (record { sent = 0; dropped = 0 }, w)
  send_batch config connected (e ∷ es) w =
      send_attempts (e ∷ es) connected (max_attempts config.max_reconnect_attempts) w

unfoldable pub queue_limit : ClientConfig → ℕ
queue_limit config = if is_pos config.queue_size then max_zero config.queue_size else 1024

-- the loop of Emit that drops the oldest events: the rest, and how many were dropped
unfoldable pub make_room {ℓ} : {A : Type ℓ} → ℕ → List A → List A × ℕ
make_room limit [] = ([], 0)
make_room limit (e ∷ es) =
    let rest = make_room limit es in
    if leb limit (length (e ∷ es)) then (rest.0, rest.1 + 1) else (e ∷ es, 0)

unfoldable pub with_source : {P : Type 0} → ClientConfig → Event P → Event P
with_source config e =
    if str_eq e.source_instance "" then record e { source_instance = config.source_instance } else e

-- the goroutine batchLoop: at its select, sending a batch, sending the last batch, returned
pub data BatchLoop (E : Type 0) : Type 0 where
  selecting stopped : BatchLoop E
  sending final_sending : List E → BatchLoop E

-- the client, with the number of events that Emit has taken. `flushes` are the goroutines of Emit
-- that have not begun to flush, `in_flight` the batches of those that send
pub record Client (E : Type 0) : Type 0 where
  pub buffer : List E
  pub flush_sem : ℕ
  pub flushes : ℕ
  pub in_flight : List (List E)
  pub loop : BatchLoop E
  pub cancelled : Bool
  pub sent : ℕ
  pub dropped : ℕ
  pub emitted : ℕ

-- NewClient
unfoldable pub new_client : {E : Type 0} → Client E
new_client = record {
  buffer = [];
  flush_sem = 0;
  flushes = 0;
  in_flight = [];
  loop = selecting;
  cancelled = false;
  sent = 0;
  dropped = 0;
  emitted = 0;
}

-- the select of Emit on the semaphore, which has two slots
unfoldable pub spawn_flush : {E : Type 0} → Client E → Client E
spawn_flush c =
    if ltb c.flush_sem 2
    then record c { flush_sem = c.flush_sem + 1; flushes = c.flushes + 1 }
    else c

unfoldable pub is_full : ClientConfig → ℕ → Bool
is_full config n = not (ltb_ℤ (pos n) config.batch_size)

unfoldable pub add_event : {E : Type 0} → ClientConfig → E → Client E → Client E
unfolding make_room queue_limit
add_event config e c =
    let room = make_room (queue_limit config) c.buffer in
    record c { buffer = room.0 ++ e ∷ []; dropped = c.dropped + room.1; emitted = c.emitted + 1 }

-- Emit; false where the context is done
unfoldable pub emit :
    {P : Type 0} → ClientConfig → Event P → Client (Event P) → Client (Event P) × Bool
unfolding spawn_flush is_full add_event with_source
emit config e c =
    if c.cancelled
    then (c, false)
    else let added = add_event config (with_source config e) c in
      (if is_full config (length added.buffer) then spawn_flush added else added, true)

-- flush by a goroutine of Emit, up to the call of sendBatch
unfoldable pub start_flush : {E : Type 0} → Client E → Client E
start_flush c = elim c.buffer [
  | [] ↦ record c { flushes = c.flushes - 1; flush_sem = c.flush_sem - 1 }
  | e ∷ es ↦ record c { flushes = c.flushes - 1; buffer = []; in_flight = (e ∷ es) ∷ c.in_flight }
]

-- flush by batchLoop, at a tick or a request
unfoldable pub loop_flush : {E : Type 0} → Client E → Client E
loop_flush c = elim c.buffer [ [] ↦ c | e ∷ es ↦ record c { buffer = []; loop = sending (e ∷ es) } ]

-- the last flush of batchLoop
unfoldable pub final_flush : {E : Type 0} → Client E → Client E
final_flush c = elim c.buffer [
  | [] ↦ record c { loop = stopped }
  | e ∷ es ↦ record c { buffer = []; loop = final_sending (e ∷ es) }
]

abbrev pub count_tally : {E : Type 0} → Tally → Client E → Client E
count_tally t c = record c { sent = c.sent + t.sent; dropped = c.dropped + t.dropped }
