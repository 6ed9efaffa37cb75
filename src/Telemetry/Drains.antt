-- ===== src/Telemetry/Drains.antt =====
-- Drain: it ends, and without an error the store has the facts of the whole log.
use ai_model_gateway.Base.{
  ℕ, zero, suc, ◌+◌, ◌≤◌, ◌<◌, ◌≡◌, refl, ap, sym, ◌∙◌, arith, String, Option, none, List, [], ◌∷◌,
  length, inl, inr, Bool-cases, leb, Result, take, Option-cases, ltb, length-keep-le, length-cases,
}
use mathlib.Core.Path.{subst}
use ai_model_gateway.Telemetry.{LoggedEvent, EventLog}
use ai_model_gateway.Telemetry.Store.{Store, StoreStatement, load_projection_checkpoint}
use ai_model_gateway.Telemetry.Projector.{
  Codec, Faults, Drained, DrainResult, out_of_fuel, drained, max_id, new_events, project_new_events,
  drain_on, drain_passes, drain,
}
use ai_model_gateway.Telemetry.Events.{IsValid}
use ai_model_gateway.Telemetry.Rows.{
  IsOrdered-take, IsOrdered-above, below, above, take-window, nil_of_max_id, length-above,
  below_of_above,
}
use ai_model_gateway.Telemetry.Batches.{stored_facts}
use ai_model_gateway.Telemetry.Held.{checkpoint_of}
use ai_model_gateway.Telemetry.Passes.{
  IsSynced, Passed, found_id, found_id-ge, project_new_events-Passed,
}

take-nil {ℓ} : {A : Type ℓ} (n : ℕ) (xs : List A) → take (suc n) xs ≡ [] → xs ≡ []
take-nil n [] h = refl
take-nil n (x ∷ xs) h = cc

-- a pass that finds no id finds no row
nothing_above :
    (last : ℕ) (l : EventLog) → IsValid l → found_id last l ≡ last → above last l.rows ≡ []
unfolding new_events
nothing_above last l v e = take-nil 999 (above last l.rows) (
    nil_of_max_id last (take 1000 (above last l.rows))
      (IsOrdered-take 1000 last (above last l.rows) (IsOrdered-above last 0 l.rows v.ordered)) e)

-- a pass that finds an id leaves fewer rows
fewer_above :
    (last : ℕ) (l : EventLog)
    → IsValid l
    → last < found_id last l
    → length (above (found_id last l) l.rows) < length (above last l.rows)
unfolding new_events max_id
fewer_above last l v h =
    let rows : List LoggedEvent = take 1000 (above last l.rows) in
    let e = take-window 1000 last 0 l.rows v.ordered in
    let some_row : 1 ≤ length rows = elim (length-cases rows) [
      | inl nil ↦ absurd (omega (arith, ap (max_id last) nil, h))
      | inr more ↦ more
    ] in
    omega (arith, length-above last (found_id last l) l.rows (omega arith), ap length e, some_row)

module _ (codec : Codec) (l : EventLog) where
  -- what Drain leaves of a store, after `r` was projected
  abbrev pub Ends : Store → DrainResult → Drained → Type 0
  Ends s r out_of_fuel = ⊥
  Ends s r (drained s' r' error) =
      IsSynced codec l s'
      × (r'.projected + length s.request_facts ≡ r.projected + length s'.request_facts)
      × (checkpoint_of s ≤ checkpoint_of s')
      × (error ≡ none
          → (s'.request_facts ≡ stored_facts codec l.rows) × (r'.last_id ≡ checkpoint_of s'))

  Ends-after :
      (s s1 : Store) (r r1 : DrainResult) (d : Drained)
      → r1.projected + length s.request_facts ≡ r.projected + length s1.request_facts
      → checkpoint_of s ≤ checkpoint_of s1
      → Ends s1 r1 d
      → Ends s r d
  Ends-after s s1 r r1 out_of_fuel e h k = k
  Ends-after s s1 r r1 (drained s' r' error) e h k =
      (k.0, omega (arith, k.1), omega (arith, k.2), k.3)

  abbrev counted : DrainResult → ℕ → ℕ → DrainResult
  counted r count id = record { projected = r.projected + count; last_id = id }

  abbrev EndsBy :
      Store
      → DrainResult
      → (ℕ → DrainResult → Store → Drained)
      → ℕ
      → Store × Result String (ℕ × ℕ)
      → Type 0
  EndsBy s r rest last p = Ends s r (drain_on codec rest last r p)

  drain_on-Ends :
      (rest : ℕ → DrainResult → Store → Drained) (last : ℕ) (r : DrainResult) (s s' : Store)
      (q : Result String (ℕ × ℕ))
      → IsValid l
      → last ≡ checkpoint_of s
      → Passed codec last l s s' q
      → ((r1 : DrainResult)
          → last < found_id last l
          → found_id last l ≡ checkpoint_of s'
          → Ends s' r1 (rest (found_id last l) r1 s'))
      → EndsBy s r rest last (s', q)
  unfolding drain_on
  drain_on-Ends rest last r s s' q v e p ends = elim p.outcome [
    | inr (error, failed, same) ↦
        subst (λ z. EndsBy s r rest last (s', z)) (sym failed)
          (
            p.synced,
            ground (arith, ap length (ap (λ (z : Store). z.request_facts) same)),
            p.onward,
            λ k. cc,
          )
    | inl (count, done, total, reached, level) ↦
        subst (λ z. EndsBy s r rest last (s', z)) (sym done)
          (elim (Bool-cases (leb (found_id last l) last)) [
            | inr more ↦
                rw (drain_on, more)
                  (Ends-after s s' r (counted r count (found_id last l)) _ (omega (arith, total))
                    p.onward (ends (counted r count (found_id last l)) (ground arith) (level e)))
            | inl stop ↦
                let still : found_id last l ≡ last = ground (arith, found_id-ge codec last l v) in
                let whole : below (checkpoint_of s') l.rows ≡ l.rows =
                  ap (λ c. below c l.rows) (sym (level e) ∙ still)
                  ∙ below_of_above last l.rows (nothing_above last l v still) in
                rw (drain_on, stop)
                  (
                    p.synced,
                    omega (arith, total),
                    p.onward,
                    λ k. (p.synced ∙ ap (stored_facts codec) whole, level e),
                  )
          ])
  ]

  drain_passes-Ends :
      (faults : Faults) (fuel n last : ℕ) (r : DrainResult) (s : Store)
      → IsValid l
      → IsSynced codec l s
      → last ≡ checkpoint_of s
      → length (above last l.rows) < fuel
      → Ends s r (drain_passes codec faults l fuel n last r s)
  unfolding drain_passes
  drain_passes-Ends faults zero n last r s v y e h = absurd (omega arith)
  drain_passes-Ends faults (suc fuel) n last r s v y e h =
      let db : StoreStatement → Option String = faults.statement n in
      let p = project_new_events codec (faults.query n) db l last s in
      drain_on-Ends (drain_passes codec faults l fuel (n + 1)) last r s p.0 p.1 v e
        (project_new_events-Passed codec db l last s (faults.query n) v y (omega arith))
        (λ r1 more level.
          drain_passes-Ends faults fuel (n + 1) (found_id last l) r1 p.0 v
            (project_new_events-Passed codec db l last s (faults.query n) v y (omega arith)).synced
            level (omega (arith, fewer_above last l v more)))

  -- Over a valid log and a store that holds the facts of the events up to its checkpoint, each
  -- once, Drain ends with fuel for one pass more than there are rows, whatever statements fail. It
  -- leaves such a store, counts the facts that it added, and does not set the checkpoint back;
  -- where it returns no error, the store holds the facts of the whole log and the returned id is
  -- the checkpoint.
  pub drain-Ends :
      (faults : Faults) (s : Store)
      → IsValid l
      → IsSynced codec l s
      → Ends s (record { projected = 0; last_id = 0 }) (drain codec faults (length l.rows + 1) l s)
  unfolding drain load_projection_checkpoint
  drain-Ends faults s v y = elim (Option-cases (faults.statement 0 StoreStatement.load)) [
    | inr (error, fails) ↦
        rw (drain, load_projection_checkpoint, fails) (y, refl, omega arith, λ k. cc)
    | inl loads ↦
        rw (drain, load_projection_checkpoint, loads)
          (Ends-after s s (record { projected = 0; last_id = 0 })
            (record { projected = 0; last_id = checkpoint_of s }) _ refl (omega arith)
            (drain_passes-Ends faults (length l.rows + 1) 1 (checkpoint_of s) _ s v y refl (
              omega
                (arith, length-keep-le (λ (r : LoggedEvent). ltb (checkpoint_of s) r.id) l.rows))))
  ]
