-- ===== src/Telemetry/Events.antt =====
-- What Append does to the event log.
use ai_model_gateway.Base.{
  ℕ, ◌+◌, ◌≤◌, ◌≡◌, refl, ap, sym, ◌∙◌, ◌⊎◌, if_intro, length-append, count_if_of_any, arith,
  String, false, Option, none, List, [], ◌∷◌, ◌++◌, str_eq, Time, length, any, count_if-append, inl,
  inr, Option-cases, eq_iff,
}
use mathlib.Core.List.{append_assoc, append-nil}
use ai_model_gateway.Telemetry.{
  Event, LoggedEvent, EventLog, LogStatement, begin, commit, insert, Appended, new_log, logged,
  insert_event, append_event, append_events, append, not_appended,
}
use ai_model_gateway.Telemetry.Projector.{max_id}
use ai_model_gateway.Telemetry.Rows.{IsOrdered, times, IsOrdered-append, max_id-append}

-- ids ascend up to the last that was given, and no event is there twice
pub record IsValid (l : EventLog) : Type 0 where
  pub ordered : IsOrdered 0 l.rows
  pub last : max_id 0 l.rows ≡ l.last_id
  pub unique : (s : String) → times s l.rows ≤ 1

pub new_log-IsValid : IsValid new_log
unfolding new_log max_id
new_log-IsValid = record { ordered = tt; last = refl; unique = λ s. omega arith }

module _ {P : Type 0} (format : Time → String) where
  insert_event-IsValid :
      (e : Event P) (payload : String) (l : EventLog)
      → any (λ r. str_eq e.event_id r.event_id) l.rows ≡ false
      → IsValid l
      → IsValid (insert_event format e payload l)
  unfolding insert_event
  insert_event-IsValid e payload l new v = record {
    ordered =
        IsOrdered-append 0 l.rows (logged format e payload (l.last_id + 1)) v.ordered
          (omega (arith, v.last));
    last = max_id-append 0 l.rows (logged format e payload (l.last_id + 1));
    unique = λ s. ground (
      arith,
      count_if-append (λ (r : LoggedEvent). str_eq s r.event_id) l.rows
          (logged format e payload (l.last_id + 1) ∷ []),
      count_if_of_any (λ (r : LoggedEvent). str_eq e.event_id r.event_id) l.rows new,
      v.unique s,
      eq_iff s e.event_id,
    );
  }

-- from one answer to a later one: `n` events more, those accepted at the end of the log
pub record Grows (a b : Appended) (n : ℕ) : Type 0 where
  pub valid : IsValid b.log
  pub counted : b.accepted + b.dropped ≡ a.accepted + a.dropped + n
  pub added : List LoggedEvent
  pub rows : b.log.rows ≡ a.log.rows ++ added
  pub accepted : a.accepted + length added ≡ b.accepted
  pub error : b.error ≡ a.error

Grows-refl : (a : Appended) → IsValid a.log → Grows a a 0
Grows-refl a v = record {
  valid = v;
  counted = omega arith;
  added = [];
  rows = sym (append-nil a.log.rows);
  accepted = omega arith;
  error = refl;
}

Grows-trans : {a b c : Appended} {n m k : ℕ} → n + m ≡ k → Grows a b n → Grows b c m → Grows a c k
Grows-trans {a} e g h = record {
  valid = h.valid;
  counted = omega (arith, g.counted, h.counted);
  added = g.added ++ h.added;
  rows = h.rows ∙ ap (λ rs. rs ++ h.added) g.rows ∙ append_assoc a.log.rows g.added h.added;
  accepted = omega (arith, g.accepted, h.accepted, length-append g.added h.added);
  error = h.error ∙ g.error;
}

Grows-dropping : (a : Appended) → IsValid a.log → Grows a (record a { dropped = a.dropped + 1 }) 1
Grows-dropping a v = record {
  valid = v;
  counted = omega arith;
  added = [];
  rows = sym (append-nil a.log.rows);
  accepted = omega arith;
  error = refl;
}

module _ {P : Type 0} (serialize : P → Option String) (format : Time → String)
    (db : LogStatement → Option String) where
  insert_event-Grows :
      (a : Appended) (e : Event P) (payload : String)
      → IsValid a.log
      → any (λ r. str_eq e.event_id r.event_id) a.log.rows ≡ false
      → Grows a
          (record a { log = insert_event format e payload a.log; accepted = a.accepted + 1 })
          1
  insert_event-Grows a e payload v new = record {
    valid = insert_event-IsValid format e payload a.log new v;
    counted = omega arith;
    added = logged format e payload (a.log.last_id + 1) ∷ [];
    rows = unfold insert_event in refl;
    accepted = omega arith;
    error = refl;
  }

  append_event-Grows :
      (a : Appended) (e : Event P)
      → IsValid a.log
      → Grows a (append_event serialize format db a e) 1
  unfolding append_event
  append_event-Grows a e v = elim (Option-cases (serialize e.payload)) [
    | inl none_e ↦ rw (append_event, none_e) (Grows-dropping a v)
    | inr (payload, some_e) ↦
        rw (append_event, some_e)
          (elim (Option-cases (db (insert e.event_id))) [
            | inr (error, fails) ↦ rw fails (Grows-dropping a v)
            | inl runs ↦ rw runs (
                if_intro (λ b. Grows a b 1) (any (λ r. str_eq e.event_id r.event_id) a.log.rows)
                  (λ _. Grows-dropping a v) (λ new. insert_event-Grows a e payload v new))
          ])
  ]

  append_events-Grows :
      (a : Appended) (es : List (Event P))
      → IsValid a.log
      → Grows a (append_events serialize format db a es) (length es)
  unfolding append_events
  append_events-Grows a [] v = Grows-refl a v
  append_events-Grows a (e ∷ es) v =
      let first = append_event-Grows a e v in
      Grows-trans (omega arith) first
        (append_events-Grows (append_event serialize format db a e) es first.valid)

  -- what Append answers for `events`
  pub record Answered (l : EventLog) (events : List (Event P)) (b : Appended) : Type 0 where
    pub valid : IsValid b.log
    pub counted : b.accepted + b.dropped ≡ length events
    pub added : List LoggedEvent
    pub rows : b.log.rows ≡ l.rows ++ added
    pub accepted : length added ≡ b.accepted
    pub atomic : (b.error ≡ none) ⊎ ((b.log ≡ l) × (b.accepted ≡ 0))

  not_appended-Answered :
      (l : EventLog) (events : List (Event P)) (error : String)
      → IsValid l
      → Answered l events (not_appended serialize format db l events error)
  not_appended-Answered l events error v = record {
    valid = v;
    counted = omega arith;
    added = [];
    rows = sym (append-nil l.rows);
    accepted = refl;
    atomic = inr (refl, refl);
  }

  -- Whatever statements fail, Append keeps the log valid (ids ascend up to the last that was
  -- given, no event is there twice), accepts or drops each event, adds a row at the end of the log
  -- for each event that it accepts, and leaves the log as it was where it returns an error.
  pub append-Answered :
      (l : EventLog) (events : List (Event P))
      → IsValid l
      → Answered l events (append serialize format db l events)
  unfolding append
  append-Answered l events v =
      let start : Appended = record { log = l; accepted = 0; dropped = 0; error = none } in
      let g = append_events-Grows start events v in
      elim (Option-cases (db begin)) [
        | inr (error, fails) ↦ rw (append, fails) (not_appended-Answered l events error v)
        | inl runs ↦
            rw (append, runs)
              (elim (Option-cases (db commit)) [
                | inr (error, fails) ↦ rw fails (not_appended-Answered l events error v)
                | inl commits ↦ rw commits (record {
                  valid = g.valid;
                  counted = omega (arith, g.counted);
                  added = g.added;
                  rows = g.rows;
                  accepted = omega (arith, g.accepted);
                  atomic = inl g.error;
                })
              ])
      ]
