-- ===== src/TelemetryClient/Flushes.antt =====
-- That no flush of the telemetry client loses an event or counts one twice.
use ai_model_gateway.Base.{
  ℕ, ◌+◌, ◌≤◌, ◌≡◌, refl, sym, ap, ◌∙◌, arith, Bool, true, false, List, [], ◌∷◌, ◌++◌, inl, inr,
  Bool-cases, List-cases, length, length-append, ltb,
}
use mathlib.Core.Path.{subst}
use ai_model_gateway.TelemetryClient.{
  Client, ClientConfig, BatchLoop, selecting, stopped, sending, final_sending, add_event,
  spawn_flush, start_flush, loop_flush, final_flush, make_room, queue_limit,
}

queue_limit-pos : (config : ClientConfig) → 1 ≤ queue_limit config
unfolding queue_limit
queue_limit-pos config = ground arith

module _ {E : Type 0} where
  abbrev total : List (List E) → ℕ
  total [] = 0
  total (es ∷ ess) = length es + total ess

  total-middle :
      (xs ys : List (List E)) (es : List E) → total (xs ++ es ∷ ys) ≡ total (xs ++ ys) + length es
  total-middle [] ys es = omega arith
  total-middle (x ∷ xs) ys es = omega (arith, total-middle xs ys es)

  pub total-taken :
      (l xs ys : List (List E)) (es : List E)
      → l ≡ xs ++ es ∷ ys
      → (total l ≡ total (xs ++ ys) + length es) × (length l ≡ length (xs ++ ys) + 1)
  total-taken l xs ys es e = (
    ap total e ∙ total-middle xs ys es,
    ap length e ∙ omega (arith, length-append xs (es ∷ ys), length-append xs ys),
  )

  -- the batch that batchLoop sends
  abbrev pub loop_batch : BatchLoop E → List E
  loop_batch selecting = []
  loop_batch stopped = []
  loop_batch (sending es) = es
  loop_batch (final_sending es) = es

  -- from the last flush on, nothing comes in any more
  abbrev pub IsClosing : BatchLoop E → Bool → List E → Type 0
  IsClosing selecting cancelled buffer = Unit
  IsClosing (sending es) cancelled buffer = Unit
  IsClosing stopped cancelled buffer = (cancelled ≡ true) × (buffer ≡ [])
  IsClosing (final_sending es) cancelled buffer = (cancelled ≡ true) × (buffer ≡ [])

  -- each emitted event is buffered, being sent, or counted once as sent or dropped; the buffer
  -- keeps its limit; the semaphore counts the goroutines that flush, two at most
  pub record IsConserved (limit : ℕ) (c : Client E) : Type 0 where
    pub counted :
        c.emitted
        ≡ length c.buffer + total c.in_flight + length (loop_batch c.loop) + c.sent + c.dropped
    pub room : length c.buffer ≤ limit
    pub slots : c.flush_sem ≡ c.flushes + length c.in_flight
    pub bounded : c.flush_sem ≤ 2
    pub closing : IsClosing c.loop c.cancelled c.buffer

  make_room-lem :
      (limit : ℕ) (es : List E)
      → 1 ≤ limit
      → (length (make_room limit es).0 + 1 ≤ limit)
        × (length (make_room limit es).0 + (make_room limit es).1 ≡ length es)
  unfolding make_room
  make_room-lem limit [] h = (omega arith, refl)
  make_room-lem limit (e ∷ es) h = ground (arith, make_room-lem limit es h)

  pub spawn_flush-IsConserved :
      (limit : ℕ) (c : Client E) → IsConserved limit c → IsConserved limit (spawn_flush c)
  unfolding spawn_flush
  spawn_flush-IsConserved limit c v = elim (Bool-cases (ltb c.flush_sem 2)) [
    | inl free ↦
        rw (spawn_flush, free)
          (record {
            counted = v.counted;
            room = v.room;
            slots = omega (arith, v.slots);
            bounded = ground arith;
            closing = v.closing;
          })
    | inr full ↦ rw (spawn_flush, full) v
  ]

  not-IsClosing : (l : BatchLoop E) (b b' : List E) → IsClosing l false b → IsClosing l false b'
  not-IsClosing selecting b b' h = tt
  not-IsClosing (sending es) b b' h = tt
  not-IsClosing stopped b b' h = cc h.0
  not-IsClosing (final_sending es) b b' h = cc h.0

  pub add_event-IsConserved :
      (config : ClientConfig) (e : E) (c : Client E)
      → c.cancelled ≡ false
      → IsConserved (queue_limit config) c
      → IsConserved (queue_limit config) (add_event config e c)
  unfolding add_event
  add_event-IsConserved config e c open_e v =
      let r = make_room-lem (queue_limit config) c.buffer (queue_limit-pos config) in
      let kept : List E = (make_room (queue_limit config) c.buffer).0 in
      record {
        counted = omega (arith, v.counted, r.1, length-append kept (e ∷ []));
        room = omega (arith, r.0, length-append kept (e ∷ []));
        slots = v.slots;
        bounded = v.bounded;
        closing =
            subst (λ b. IsClosing c.loop b (kept ++ e ∷ [])) (sym open_e)
              (not-IsClosing c.loop c.buffer (kept ++ e ∷ [])
                (subst (λ b. IsClosing c.loop b c.buffer) open_e v.closing));
      }

  emptied :
      (l : BatchLoop E) (cancelled : Bool) (b : List E)
      → IsClosing l cancelled b
      → IsClosing l cancelled []
  emptied selecting cancelled b h = tt
  emptied (sending es) cancelled b h = tt
  emptied stopped cancelled b h = (h.0, refl)
  emptied (final_sending es) cancelled b h = (h.0, refl)

  pub cancelled-IsClosing :
      (l : BatchLoop E) (cancelled : Bool) (b : List E)
      → IsClosing l cancelled b
      → IsClosing l true b
  cancelled-IsClosing selecting cancelled b h = tt
  cancelled-IsClosing (sending es) cancelled b h = tt
  cancelled-IsClosing stopped cancelled b h = (refl, h.1)
  cancelled-IsClosing (final_sending es) cancelled b h = (refl, h.1)

  pub total-none : (l : List (List E)) → length l ≡ 0 → total l ≡ 0
  total-none [] h = refl
  total-none (x ∷ xs) h = absurd (omega arith)

  -- the flushes, on the buffer as it is
  pub start_flush-IsConserved :
      (limit : ℕ) (c : Client E)
      → 1 ≤ c.flushes
      → IsConserved limit c
      → IsConserved limit (start_flush c)
  unfolding start_flush
  start_flush-IsConserved limit c h v = elim (List-cases c.buffer) [
    | inl empty ↦
        rw (start_flush, empty)
          (record {
            counted = v.counted;
            room = v.room;
            slots = omega (arith, v.slots);
            bounded = omega (arith, v.bounded);
            closing = v.closing;
          })
    | inr (e, es, full) ↦
        rw (start_flush, full)
          (record {
            counted = omega (arith, v.counted, ap length full);
            room = omega arith;
            slots = omega (arith, v.slots);
            bounded = v.bounded;
            closing = emptied c.loop c.cancelled c.buffer v.closing;
          })
  ]

  pub loop_flush-IsConserved :
      (limit : ℕ) (c : Client E)
      → c.loop ≡ selecting
      → IsConserved limit c
      → IsConserved limit (loop_flush c)
  unfolding loop_flush
  loop_flush-IsConserved limit c at v = elim (List-cases c.buffer) [
    | inl empty ↦ rw (loop_flush, empty) v
    | inr (e, es, full) ↦
        rw (loop_flush, full)
          (record {
            counted = omega (arith, v.counted, ap length full, ap (λ l. length (loop_batch l)) at);
            room = omega arith;
            slots = v.slots;
            bounded = v.bounded;
            closing = tt;
          })
  ]

  pub final_flush-IsConserved :
      (limit : ℕ) (c : Client E)
      → c.loop ≡ selecting
      → c.cancelled ≡ true
      → IsConserved limit c
      → IsConserved limit (final_flush c)
  unfolding final_flush
  final_flush-IsConserved limit c at done v = elim (List-cases c.buffer) [
    | inl empty ↦
        rw (final_flush, empty)
          (record {
            counted = omega (arith, v.counted, ap (λ l. length (loop_batch l)) at);
            room = v.room;
            slots = v.slots;
            bounded = v.bounded;
            closing = (done, empty);
          })
    | inr (e, es, full) ↦
        rw (final_flush, full)
          (record {
            counted = omega (arith, v.counted, ap length full, ap (λ l. length (loop_batch l)) at);
            room = omega arith;
            slots = v.slots;
            bounded = v.bounded;
            closing = (done, refl);
          })
  ]
