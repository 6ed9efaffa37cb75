-- ===== src/TelemetryClient/Conserved.antt =====
-- No event is lost or counted twice by a client.
use ai_model_gateway.Base.{◌+◌, ◌≡◌, refl, ap, arith, Bool, if_intro, length}
use mathlib.Core.Path.{subst}
use ai_model_gateway.Telemetry.{Event}
use ai_model_gateway.TelemetryClient.{
  with_source, Client, ClientConfig, stopped, Rpc, new_client, emit, add_event, is_full,
  queue_limit, with_source,
}
use ai_model_gateway.TelemetryClient.Sending.{RepliesCounted, send_batch-IsCounted}
use ai_model_gateway.TelemetryClient.Steps.{Step, Reached}
use ai_model_gateway.TelemetryClient.Flushes.{
  IsClosing, IsConserved, add_event-IsConserved, cancelled-IsClosing, final_flush-IsConserved,
  loop_batch, loop_flush-IsConserved, spawn_flush-IsConserved, start_flush-IsConserved, total-none,
  total-taken,
}

module _ {P : Type 0} where
  emit-IsConserved :
      (config : ClientConfig) (e : Event P) (c : Client (Event P))
      → IsConserved (queue_limit config) c
      → IsConserved (queue_limit config) (emit config e c).0
  unfolding emit
  emit-IsConserved config e c v =
      if_intro (λ (r : Client (Event P) × Bool). IsConserved (queue_limit config) r.0) c.cancelled
        (λ _. v)
        (λ open_e.
          let w = add_event-IsConserved config (with_source config e) c open_e v in
          if_intro (IsConserved (queue_limit config))
            (is_full config (length (add_event config (with_source config e) c).buffer))
            (λ _.
              spawn_flush-IsConserved (queue_limit config)
                (add_event config (with_source config e) c) w)
            (λ _. w))

module _ {W P : Type 0} (rpc : Rpc W (Event P)) (config : ClientConfig)
    (counts : RepliesCounted rpc) where
  Step-IsConserved :
      {c d : Client (Event P)}
      → Step rpc config c d
      → IsConserved (queue_limit config) c
      → IsConserved (queue_limit config) d
  Step-IsConserved (Step.emits e c) v = emit-IsConserved config e c v
  Step-IsConserved (Step.cancels c) v = record {
    counted = v.counted;
    room = v.room;
    slots = v.slots;
    bounded = v.bounded;
    closing = cancelled-IsClosing c.loop c.cancelled c.buffer v.closing;
  }
  Step-IsConserved (Step.starts_flush c h) v = start_flush-IsConserved (queue_limit config) c h v
  Step-IsConserved (Step.ends_flush before after es connected w c e) v =
      let t = total-taken c.in_flight before after es e in
      record {
        counted =
            omega (arith, v.counted, t.0, send_batch-IsCounted rpc counts config connected es w);
        room = v.room;
        slots = omega (arith, v.slots, t.1);
        bounded = omega (arith, v.bounded);
        closing = v.closing;
      }
  Step-IsConserved (Step.loop_flushes c at) v = loop_flush-IsConserved (queue_limit config) c at v
  Step-IsConserved (Step.loop_sends es connected w c at) v = record {
    counted = omega (
      arith,
      v.counted,
      ap (λ l. length (loop_batch l)) at,
      send_batch-IsCounted rpc counts config connected es w,
    );
    room = v.room;
    slots = v.slots;
    bounded = v.bounded;
    closing = tt;
  }
  Step-IsConserved (Step.loop_ends c at done) v =
      final_flush-IsConserved (queue_limit config) c at done v
  Step-IsConserved (Step.loop_sends_last es connected w c at) v = record {
    counted = omega (
      arith,
      v.counted,
      ap (λ l. length (loop_batch l)) at,
      send_batch-IsCounted rpc counts config connected es w,
    );
    room = v.room;
    slots = v.slots;
    bounded = v.bounded;
    closing = subst (λ l. IsClosing l c.cancelled c.buffer) at v.closing;
  }

  -- In every run of a new client, where telemetryd accepts or drops each event of a batch that it
  -- answers for, each event that Emit took is buffered, being sent, or counted once as sent or
  -- dropped; the buffer keeps its limit; at most two goroutines of Emit flush, one for each used
  -- slot of the semaphore; and from the last flush on the buffer stays empty.
  pub Reached-IsConserved :
      {c : Client (Event P)} → Reached rpc config c → IsConserved (queue_limit config) c
  unfolding new_client
  Reached-IsConserved Reached.start = record {
    counted = refl;
    room = omega arith;
    slots = refl;
    bounded = omega arith;
    closing = tt;
  }
  Reached-IsConserved (Reached.then_step r s) = Step-IsConserved s (Reached-IsConserved r)

  -- Once batchLoop has returned and no goroutine of Emit flushes any more, the events that Emit
  -- took are those that were counted as sent or as dropped.
  pub stopped_counted :
      (c : Client (Event P))
      → Reached rpc config c
      → c.loop ≡ stopped
      → c.flush_sem ≡ 0
      → c.emitted ≡ c.sent + c.dropped
  stopped_counted c r at quiet =
      let v = Reached-IsConserved r in
      let empty = (subst (λ l. IsClosing l c.cancelled c.buffer) at v.closing).1 in
      omega (
        arith,
        v.counted,
        v.slots,
        ap length empty,
        ap (λ l. length (loop_batch l)) at,
        total-none c.in_flight (omega (arith, v.slots)),
      )
