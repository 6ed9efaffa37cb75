-- ===== src/Telemetry/Passes.antt =====
-- One pass of the projector: the store's facts stay those of the events up to its checkpoint, each
-- of them once, whatever fails and wherever the pass begins.
use ai_model_gateway.Base.{
  ℕ, ◌+◌, ◌≤◌, ◌≡◌, ◌⊎◌, refl, ap, sym, ◌∙◌, arith, String, true, false, Option, none, some, List,
  [], ◌∷◌, ◌++◌, length, length-append, inl, inr, Bool-cases, map, Result, ok, err, take, ◌==◌,
  ==_iff,
}
use mathlib.Core.Path.{subst}
use ai_model_gateway.Telemetry.{LoggedEvent, EventLog, ProjectionFact}
use ai_model_gateway.Telemetry.Store.{
  Store, StoreStatement, Batch, stored_fact, apply_projection_batch,
}
use ai_model_gateway.Telemetry.Projector.{
  Codec, facts_of, max_id, new_events, project_new_events, projection_checkpoint_name,
}
use ai_model_gateway.Telemetry.Events.{IsValid}
use ai_model_gateway.Telemetry.Rows.{
  IsOrdered-take, IsOrdered-above, below, above, window, known, max_id-ge, take-window, below-max,
  window-split, times-parts,
}
use ai_model_gateway.Telemetry.Batches.{
  insert_all, insert_all-append, insert_all-known, insert_all-new, add_all, Applied,
  apply_projection_batch-Applied, stored_facts, facts_of-append, fact_times, fact_times-stored,
  fact_times-facts_of-le,
}
use ai_model_gateway.Telemetry.Held.{
  AllHeld, checkpoint_of, checkpoint_of-raise, stored_facts-append, known-Held,
}

length-stored : (fs : List ProjectionFact) → length (map stored_fact fs) ≡ length fs
length-stored [] = refl
length-stored (f ∷ fs) = omega (arith, length-stored fs)

-- the last id that a pass finds
abbrev pub found_id : ℕ → EventLog → ℕ
found_id last l = max_id last (new_events last l)

module _ (codec : Codec) where
  abbrev pub IsSynced : EventLog → Store → Type 0
  IsSynced l s = s.request_facts ≡ stored_facts codec (below (checkpoint_of s) l.rows)

  pub found_id-ge : (last : ℕ) (l : EventLog) → IsValid l → last ≤ found_id last l
  unfolding new_events
  found_id-ge last l v =
      max_id-ge last (take 1000 (above last l.rows))
        (IsOrdered-take 1000 last (above last l.rows) (IsOrdered-above last 0 l.rows v.ordered))

  -- the facts of a pass: those up to the checkpoint, then the others
  pub found_facts :
      (last c : ℕ) (l : EventLog)
      → IsValid l
      → last ≤ c
      → facts_of codec (new_events last l)
        ≡ facts_of codec (known last (found_id last l) c l.rows)
          ++ facts_of codec (window c (found_id last l) l.rows)
  unfolding new_events
  found_facts last c l v h =
      ap (facts_of codec) (
        take-window 1000 last 0 l.rows v.ordered
        ∙ window-split last c (found_id last l) 0 l.rows h v.ordered)
      ∙ facts_of-append codec (known last (found_id last l) c l.rows)
          (window c (found_id last l) l.rows)

  fact_times-new :
      (l : EventLog) (c m : ℕ) (rows : List ProjectionFact) (t : String)
      → IsValid l
      → rows ≡ stored_facts codec (below c l.rows)
      → fact_times t rows + fact_times t (facts_of codec (window c m l.rows)) ≤ 1
  fact_times-new l c m rows t v e = omega (
    arith,
    ap (fact_times t) e,
    fact_times-stored t (facts_of codec (below c l.rows)),
    fact_times-facts_of-le codec t (below c l.rows),
    fact_times-facts_of-le codec t (window c m l.rows),
    times-parts t c m l.rows,
    v.unique t,
  )

  -- the batch of a pass over a store that is synced
  pub batch-new :
      (l : EventLog) (s : Store) (last : ℕ)
      → IsValid l
      → IsSynced l s
      → last ≤ checkpoint_of s
      → insert_all
          (facts_of codec (new_events last l))
          (record { rows = s.request_facts; updates = []; inserted = 0 })
        ≡ record {
          rows =
              s.request_facts
              ++ stored_facts codec (window (checkpoint_of s) (found_id last l) l.rows);
          updates = add_all (facts_of codec (window (checkpoint_of s) (found_id last l) l.rows)) [];
          inserted = length (facts_of codec (window (checkpoint_of s) (found_id last l) l.rows));
        }
  batch-new l s last v y h =
      let c : ℕ = checkpoint_of s in
      let m : ℕ = found_id last l in
      let start : Batch = record { rows = s.request_facts; updates = []; inserted = 0 } in
      let old : List ProjectionFact = facts_of codec (known last m c l.rows) in
      let fresh : List ProjectionFact = facts_of codec (window c m l.rows) in
      ap (λ fs. insert_all fs start) (found_facts last c l v h)
      ∙ insert_all-append old fresh start
      ∙ ap (insert_all fresh) (
          insert_all-known old start
            (subst (λ z. AllHeld z old) (sym y) (known-Held codec last m c l.rows)))
      ∙ insert_all-new fresh s.request_facts [] 0 (λ t. fact_times-new l c m s.request_facts t v y)
      ∙ ground arith

  -- a pass that leaves `s'` for `s`: synced, not behind, and either as it was or all up to `max`
  pub record Passed (last : ℕ) (l : EventLog) (s s' : Store) (r : Result String (ℕ × ℕ))
      : Type 0 where
    pub synced : IsSynced l s'
    pub onward : checkpoint_of s ≤ checkpoint_of s'
    pub outcome :
        ((count : ℕ) × (r ≡ ok (count, found_id last l))
          × (count + length s.request_facts ≡ length s'.request_facts)
          × (found_id last l ≤ checkpoint_of s')
          × (last ≡ checkpoint_of s → found_id last l ≡ checkpoint_of s'))
        ⊎ ((error : String) × (r ≡ err error) × (s' ≡ s))

  -- what a batch that was applied leaves of a synced store
  Applied-Passed :
      (l : EventLog) (s s' : Store) (last n : ℕ)
      → IsValid l
      → IsSynced l s
      → last ≤ checkpoint_of s
      → Applied projection_checkpoint_name
          (found_id last l)
          (facts_of codec (new_events last l))
          s
          s'
          n
      → Passed last l s s' (ok (n, found_id last l))
  Applied-Passed l s s' last n v y h a =
      let c : ℕ = checkpoint_of s in
      let m : ℕ = found_id last l in
      let fresh : List LoggedEvent = window c m l.rows in
      let b = sym a.inserted ∙ batch-new l s last v y h in
      let facts : s'.request_facts ≡ s.request_facts ++ stored_facts codec fresh =
        a.facts ∙ ap (λ (z : Batch). z.rows) b in
      let count : n ≡ length (facts_of codec fresh) = a.count ∙ ap (λ (z : Batch). z.inserted) b in
      let raised = checkpoint_of-raise m s s' a.checkpoints in
      record {
        synced =
            facts
            ∙ ap (λ z. z ++ stored_facts codec fresh) y
            ∙ sym (stored_facts-append codec (below c l.rows) fresh)
            ∙ ap (stored_facts codec) (sym (below-max c m 0 l.rows v.ordered))
            ∙ ap (λ k. stored_facts codec (below k l.rows)) (sym raised);
        onward = ground (arith, raised);
        outcome = inl (
          n,
          refl,
          omega (
            arith,
            count,
            ap length facts,
            length-append s.request_facts (stored_facts codec fresh),
            length-stored (facts_of codec fresh),
          ),
          ground (arith, raised),
          λ e. ground (arith, raised, found_id-ge last l v),
        );
      }

  -- a pass that leaves the store alone
  Passed-still :
      (l : EventLog) (s : Store) (last : ℕ)
      → IsSynced l s
      → last ≤ checkpoint_of s
      → found_id last l ≡ last
      → Passed last l s s (ok (0, last))
  Passed-still l s last y h e = record {
    synced = y;
    onward = omega arith;
    outcome = inl (0, cc, omega arith, omega arith, λ k. e ∙ k);
  }

  Passed-failed :
      (l : EventLog) (s : Store) (last : ℕ) (error : String)
      → IsSynced l s
      → Passed last l s s (err error)
  Passed-failed l s last error y = record {
    synced = y;
    onward = omega arith;
    outcome = inr (error, refl, refl);
  }

  module _ (db : StoreStatement → Option String) (l : EventLog) (last : ℕ) (s : Store) where
    abbrev pass : Option String → Store × Result String (ℕ × ℕ)
    pass query = project_new_events codec query db l last s

    abbrev applied : Store × Result String ℕ
    applied =
        apply_projection_batch db projection_checkpoint_name (found_id last l)
          (facts_of codec (new_events last l)) s

    pass-ok :
        (n : ℕ)
        → (found_id last l == last) ≡ false
        → applied.1 ≡ ok n
        → pass none ≡ (applied.0, ok (n, found_id last l))
    unfolding project_new_events
    pass-ok n e k = ground arith

    pass-err :
        (error : String)
        → (found_id last l == last) ≡ false
        → applied ≡ (s, err error)
        → pass none ≡ (s, err error)
    unfolding project_new_events
    pass-err error e k = ground arith

    pass-still : (found_id last l == last) ≡ true → pass none ≡ (s, ok (0, last))
    unfolding project_new_events
    pass-still e = ground arith

    abbrev PassedBy : Store × Result String (ℕ × ℕ) → Type 0
    PassedBy p = Passed last l s p.0 p.1

    -- Over a valid log and a store that holds the facts of the events up to its checkpoint, each
    -- once, a pass that begins at or before the checkpoint leaves such a store, whatever statements
    -- fail; the checkpoint does not go back. Either the pass returns the number of facts that it
    -- added and the last id that it found, which the checkpoint has reached, or it returns an error
    -- and the store is as it was.
    pub project_new_events-Passed :
        (query : Option String)
        → IsValid l
        → IsSynced l s
        → last ≤ checkpoint_of s
        → PassedBy (project_new_events codec query db l last s)
    unfolding project_new_events
    project_new_events-Passed (some error) v y h = Passed-failed l s last error y
    project_new_events-Passed none v y h = elim (Bool-cases (found_id last l == last)) [
      | inl e ↦
          subst PassedBy (sym (pass-still e))
            (Passed-still l s last y h ((==_iff (found_id last l) last).0 e))
      | inr e ↦
          elim (apply_projection_batch-Applied db projection_checkpoint_name (found_id last l)
            (facts_of codec (new_events last l)) s) [
              | inl (n, k, a) ↦
                  subst PassedBy (sym (pass-ok n e k)) (Applied-Passed l s applied.0 last n v y h a)
              | inr (error, k) ↦
                  subst PassedBy (sym (pass-err error e k)) (Passed-failed l s last error y)
            ]
    ]
