-- ===== src/TelemetryClient/Sending.antt =====
-- Sending a batch: every event of it is counted, as sent or as dropped, once.
use ai_model_gateway.Base.{
  ℕ, zero, suc, ◌+◌, ◌≡◌, refl, arith, Bool, true, false, ◌||◌, List, [], ◌∷◌, if_intro, ◌==◌,
  length, Result, ok, err, if◌then◌else◌,
}
use ai_model_gateway.TelemetryClient.{
  ClientConfig, CallError, AppendReply, Rpc, Tally, reconnect, is_connection_error, retry_or_drop,
  after_reconnect, after_call, call_over, send_attempts, max_attempts, send_batch,
}

module _ {W E : Type 0} (rpc : Rpc W E) where
  -- telemetryd accepts or drops each event of a batch
  abbrev pub RepliesCounted : Type 0
  RepliesCounted =
      (es : List E) (w : W) (reply : AppendReply)
      → (rpc.append_batch es w).0 ≡ ok reply
      → reply.accepted + reply.dropped ≡ length es

  abbrev pub IsCounted : List E → Tally × W → Type 0
  IsCounted es r = r.0.sent + r.0.dropped ≡ length es

  retry_or_drop-IsCounted :
      (es : List E) (again : W → Tally × W) (left : ℕ) (w : W)
      → ((v : W) → IsCounted es (again v))
      → IsCounted es (retry_or_drop rpc es again left w)
  retry_or_drop-IsCounted es again left w h =
      if_intro (IsCounted es) (left == 0 || rpc.ctx_done w) (λ _. omega arith) (λ _. h w)

  after_reconnect-IsCounted :
      (es : List E) (again : W → Tally × W) (left : ℕ) (r : Bool × W)
      → ((v : W) → IsCounted es (again v))
      → IsCounted es (after_reconnect rpc es again left r)
  after_reconnect-IsCounted es again left (true, w) h = h w
  after_reconnect-IsCounted es again left (false, w) h = retry_or_drop-IsCounted es again left w h

  module _ (counts : RepliesCounted) where
    after_call-IsCounted :
        (es : List E) (again : W → Tally × W) (left : ℕ) (r : Result CallError AppendReply × W)
        → ((reply : AppendReply) → r.0 ≡ ok reply → reply.accepted + reply.dropped ≡ length es)
        → ((v : W) → IsCounted es (again v))
        → IsCounted es (after_call rpc es again left r)
    unfolding after_call
    after_call-IsCounted es again left (ok reply, w) k h = k reply refl
    after_call-IsCounted es again left (err error, w) k h =
        if_intro (IsCounted es) (is_connection_error error)
          (λ _. after_reconnect-IsCounted es again left (reconnect rpc w) h)
          (λ _. retry_or_drop-IsCounted es again left w h)

    call_over-IsCounted :
        (es : List E) (again : W → Tally × W) (left : ℕ) (r : Bool × W)
        → ((v : W) → IsCounted es (again v))
        → IsCounted es (call_over rpc es again left r)
    call_over-IsCounted es again left (true, w) h =
        after_call-IsCounted es again left (rpc.append_batch es w) (counts es w) h
    call_over-IsCounted es again left (false, w) h = omega arith

    send_attempts-IsCounted :
        (es : List E) (connected : Bool) (attempts : ℕ) (w : W)
        → IsCounted es (send_attempts rpc es connected attempts w)
    unfolding send_attempts
    send_attempts-IsCounted es connected zero w = omega arith
    send_attempts-IsCounted es connected (suc left) w =
        call_over-IsCounted es (send_attempts rpc es true left) left
          (if connected then (true, w) else reconnect rpc w)
          (λ v. send_attempts-IsCounted es true left v)

    -- Where telemetryd accepts or drops each event of a batch that it answers for, sendBatch counts
    -- each event of its batch once, as sent or as dropped, whatever calls, dials and the context do.
    pub send_batch-IsCounted :
        (config : ClientConfig) (connected : Bool) (es : List E) (w : W)
        → IsCounted es (send_batch rpc config connected es w)
    unfolding send_batch
    send_batch-IsCounted config connected [] w = omega arith
    send_batch-IsCounted config connected (e ∷ es) w =
        send_attempts-IsCounted (e ∷ es) connected (max_attempts config.max_reconnect_attempts) w
