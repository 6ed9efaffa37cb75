-- ===== src/Telemetry/Running.antt =====
-- Where no statement fails, the projector returns no error.
use ai_model_gateway.Base.{
  ℕ, zero, suc, ◌+◌, ◌≡◌, refl, ap, ◌∙◌, arith, String, Option, none, List, [], ◌∷◌, inl, inr,
  Bool-cases, ◌==◌, leb, Map, Result, ok, err, ◌>>=◌, if_intro, length,
}
use mathlib.Core.Path.{subst, sym}
use ai_model_gateway.Telemetry.{EventLog, ProjectionFact}
use ai_model_gateway.Telemetry.Store.{
  Store, Batch, StoreStatement, ProjectionAggregate, run, insert_facts, insert_or_ignore,
  upsert_aggregates, upsert_aggregate, raise_checkpoint, projection_transaction,
  apply_projection_batch, load_projection_checkpoint,
}
use ai_model_gateway.Telemetry.Projector.{
  Codec, Faults, Drained, DrainResult, out_of_fuel, drained, project_new_events, drain_on,
  drain_passes, drain, max_id, new_events, facts_of, projection_checkpoint_name,
}
use ai_model_gateway.Telemetry.Events.{IsValid}
use ai_model_gateway.Telemetry.Batches.{stored_facts}
use ai_model_gateway.Telemetry.Held.{checkpoint_of}
use ai_model_gateway.Telemetry.Passes.{IsSynced}
use ai_model_gateway.Telemetry.Drains.{Ends, drain-Ends}

abbrev Succeeds : {A : Type 0} → Result String A → Type 0
Succeeds {A} m = (a : A) × (m ≡ ok a)

bind-Succeeds :
    {A B : Type 0} (m : Result String A) (f : A → Result String B) (a : A)
    → m ≡ ok a
    → Succeeds (f a)
    → Succeeds (m >>= f)
bind-Succeeds m f a e k = (k.0, ap (λ r. r >>= f) e ∙ k.1)

module _ (db : StoreStatement → Option String) (runs : (st : StoreStatement) → db st ≡ none) where
  run-runs : {A : Type 0} (st : StoreStatement) (a : A) → run db st a ≡ ok a
  run-runs st a = ground (arith, runs st)

  insert_facts-Succeeds : (fs : List ProjectionFact) (b : Batch) → Succeeds (insert_facts db fs b)
  unfolding insert_facts
  insert_facts-Succeeds [] b = (b, refl)
  insert_facts-Succeeds (f ∷ fs) b =
      bind-Succeeds (run db (StoreStatement.insert_fact f.event_id) (insert_or_ignore f b))
        (insert_facts db fs) (insert_or_ignore f b) (run-runs _ _)
        (insert_facts-Succeeds fs (insert_or_ignore f b))

  upsert_aggregates-Succeeds :
      (m : Map ProjectionAggregate) (rows : List ProjectionAggregate)
      → Succeeds (upsert_aggregates db m rows)
  unfolding upsert_aggregates
  upsert_aggregates-Succeeds [] rows = (rows, refl)
  upsert_aggregates-Succeeds ((key, a) ∷ m) rows =
      bind-Succeeds (run db (StoreStatement.upsert_bucket key) (upsert_aggregate a rows))
        (upsert_aggregates db m) (upsert_aggregate a rows) (run-runs _ _)
        (upsert_aggregates-Succeeds m (upsert_aggregate a rows))

  transaction-Succeeds :
      (name : String) (last : ℕ) (fs : List ProjectionFact) (s : Store)
      → Succeeds (projection_transaction db name last fs s)
  unfolding projection_transaction
  transaction-Succeeds name last fs s =
      let (b, hb) =
        insert_facts-Succeeds fs (record { rows = s.request_facts; updates = []; inserted = 0 }) in
      let (buckets, hu) = upsert_aggregates-Succeeds b.updates s.agg_buckets in
      bind-Succeeds (run db StoreStatement.begin (tt {0})) _ tt (run-runs _ _) (
        bind-Succeeds (run db StoreStatement.prepare (tt {0})) _ tt (run-runs _ _) (
          bind-Succeeds (insert_facts db fs _) _ b hb (
            bind-Succeeds (upsert_aggregates db b.updates s.agg_buckets) _ buckets hu (
              bind-Succeeds
                (run db StoreStatement.checkpoint (raise_checkpoint name last s.checkpoints)) _ _
                (run-runs _ _) (_, run-runs _ _)))))

  project_new_events-Succeeds :
      (codec : Codec) (l : EventLog) (last : ℕ) (s : Store)
      → Succeeds (project_new_events codec none db l last s).1
  unfolding project_new_events apply_projection_batch
  project_new_events-Succeeds codec l last s =
      let (r, h) =
        transaction-Succeeds projection_checkpoint_name (max_id last (new_events last l))
          (facts_of codec (new_events last l)) s in
      elim (Bool-cases (max_id last (new_events last l) == last)) [
        | inl e ↦ ((0, last), ground arith)
        | inr e ↦ ((r.1, max_id last (new_events last l)), ground arith)
      ]

-- the error of a drain
abbrev pub NoError : Drained → Type 0
NoError out_of_fuel = Unit {0}
NoError (drained s r error) = error ≡ none

module _ (codec : Codec) (l : EventLog) where
  drain_on-NoError :
      (rest : ℕ → DrainResult → Store → Drained) (last : ℕ) (r : DrainResult) (s : Store)
      (q : Result String (ℕ × ℕ))
      → Succeeds q
      → ((m : ℕ) (r1 : DrainResult) → NoError (rest m r1 s))
      → NoError (drain_on codec rest last r (s, q))
  unfolding drain_on
  drain_on-NoError rest last r s (err error) h k = cc h.1
  drain_on-NoError rest last r s (ok (count, max)) h k =
      if_intro NoError (leb max last) (λ _. refl)
        (λ _. k max (record { projected = r.projected + count; last_id = max }))

  -- the store that a drain leaves
  abbrev pub Complete : Store → Drained → Type 0
  Complete s out_of_fuel = ⊥
  Complete s (drained s' r error) =
      (error ≡ none)
      × (s'.request_facts ≡ stored_facts codec l.rows)
      × (r.last_id ≡ checkpoint_of s')
      × (r.projected + length s.request_facts ≡ length s'.request_facts)

  complete :
      (s : Store) (d : Drained)
      → Ends codec l s (record { projected = 0; last_id = 0 }) d
      → NoError d
      → Complete s d
  complete s out_of_fuel e h = e
  complete s (drained s' r error) e h = (h, (e.3 h).0, (e.3 h).1, omega (arith, e.1))

  module _ (faults : Faults) (runs : (n : ℕ) (st : StoreStatement) → faults.statement n st ≡ none)
      (queries : (n : ℕ) → faults.query n ≡ none) where
    drain_passes-NoError :
        (fuel n last : ℕ) (r : DrainResult) (s : Store)
        → NoError (drain_passes codec faults l fuel n last r s)
    unfolding drain_passes
    drain_passes-NoError zero n last r s = tt
    drain_passes-NoError (suc fuel) n last r s =
        subst
          (λ q. NoError (
            drain_on codec (drain_passes codec faults l fuel (n + 1)) last r
              (project_new_events codec q (faults.statement n) l last s)))
          (sym (queries n))
          (drain_on-NoError (drain_passes codec faults l fuel (n + 1)) last r
            (project_new_events codec none (faults.statement n) l last s).0
            (project_new_events codec none (faults.statement n) l last s).1
            (project_new_events-Succeeds (faults.statement n) (runs n) codec l last s)
            (λ m r1. drain_passes-NoError fuel (n + 1) m r1 _))

    drain-NoError : (fuel : ℕ) (s : Store) → NoError (drain codec faults fuel l s)
    unfolding drain load_projection_checkpoint
    drain-NoError fuel s =
        rw (drain, load_projection_checkpoint, runs 0 StoreStatement.load)
          (drain_passes-NoError fuel 1 (checkpoint_of s) _ s)

    -- Where neither a query nor a statement fails, Drain over a valid log and a store that holds
    -- the facts of the events up to its checkpoint, each once, ends within one pass more than there
    -- are rows, with no error; then the store holds the facts of the whole log, each event's once,
    -- the returned id is the checkpoint, and the returned count is that of the facts added.
    pub drain-Complete :
        (s : Store)
        → IsValid l
        → IsSynced codec l s
        → Complete s (drain codec faults (length l.rows + 1) l s)
    drain-Complete s v y =
        complete s _ (drain-Ends codec l faults s v y) (drain-NoError (length l.rows + 1) s)
