-- ===== src/TelemetryClient/Steps.antt =====
-- The runs of a client: what its callers and goroutines do, one step after the other. A batch is
-- sent over whatever the world answers.
use ai_model_gateway.Base.{◌-◌, ◌≤◌, ◌≡◌, Bool, true, List, ◌∷◌, ◌++◌}
use ai_model_gateway.Telemetry.{Event}
use ai_model_gateway.TelemetryClient.{
  Client, ClientConfig, selecting, stopped, sending, final_sending, Rpc, new_client, emit,
  start_flush, loop_flush, final_flush, send_batch, count_tally,
}

module _ {W P : Type 0} (rpc : Rpc W (Event P)) (config : ClientConfig) where
  pub data Step : Client (Event P) → Client (Event P) → Type 0 where
    emits : (e : Event P) (c : Client (Event P)) → Step c (emit config e c).0
    cancels : (c : Client (Event P)) → Step c (record c { cancelled = true })
    starts_flush : (c : Client (Event P)) → 1 ≤ c.flushes → Step c (start_flush c)
    ends_flush :
        (before after : List (List (Event P))) (es : List (Event P)) (connected : Bool) (w : W)
        (c : Client (Event P))
        → c.in_flight ≡ before ++ es ∷ after
        → Step c (
            count_tally
              (send_batch rpc config connected es w).0
              (record c { in_flight = before ++ after; flush_sem = c.flush_sem - 1 }))
    loop_flushes : (c : Client (Event P)) → c.loop ≡ selecting → Step c (loop_flush c)
    loop_sends :
        (es : List (Event P)) (connected : Bool) (w : W) (c : Client (Event P))
        → c.loop ≡ sending es
        → Step c
            (count_tally (send_batch rpc config connected es w).0 (record c { loop = selecting }))
    loop_ends :
        (c : Client (Event P)) → c.loop ≡ selecting → c.cancelled ≡ true → Step c (final_flush c)
    loop_sends_last :
        (es : List (Event P)) (connected : Bool) (w : W) (c : Client (Event P))
        → c.loop ≡ final_sending es
        → Step c
            (count_tally (send_batch rpc config connected es w).0 (record c { loop = stopped }))

  pub data Reached : Client (Event P) → Type 0 where
    start : Reached new_client
    then_step : {c d : Client (Event P)} → Reached c → Step c d → Reached d
