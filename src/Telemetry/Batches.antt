-- ===== src/Telemetry/Batches.antt =====
-- What a batch of facts does to the query store: all of it, or nothing.
use ai_model_gateway.Base.{
  ℕ, ◌+◌, ◌≤◌, ◌≡◌, refl, ap, sym, ◌∙◌, arith, String, Bool, true, false, Option, List, [], ◌∷◌,
  ◌++◌, str_eq, length, any, count_if, count_if-append, any_of_count_if, inl, inr, Option-cases,
  eq_iff, map, Map, All, ◌⊎◌, Result-cases, ok, err, >>=-ok, ok_injective,
}
use mathlib.Core.List.{append_assoc, append-nil}
use ai_model_gateway.Telemetry.{LoggedEvent, ProjectionFact}
use ai_model_gateway.Telemetry.Store.{
  Store, Batch, ProjectionAggregate, StoreStatement, stored_fact, insert_or_ignore,
  add_to_aggregate, insert_facts, run, upsert_aggregate, upsert_aggregates, raise_checkpoint,
  projection_transaction, apply_projection_batch,
}
use ai_model_gateway.Telemetry.Projector.{Codec, facts_of}
use ai_model_gateway.Telemetry.Rows.{times}

abbrev pub fact_times : String → List ProjectionFact → ℕ
fact_times s = count_if (λ f. str_eq s f.event_id)

abbrev pub holds : List ProjectionFact → ProjectionFact → Bool
holds rows f = any (λ r. str_eq f.event_id r.event_id) rows

-- the facts one after the other
unfoldable pub insert_all : List ProjectionFact → Batch → Batch
insert_all [] b = b
insert_all (f ∷ fs) b = insert_all fs (insert_or_ignore f b)

unfoldable pub add_all : List ProjectionFact → Map ProjectionAggregate → Map ProjectionAggregate
add_all [] m = m
add_all (f ∷ fs) m = add_all fs (add_to_aggregate f m)

unfoldable pub upsert_all :
    Map ProjectionAggregate → List ProjectionAggregate → List ProjectionAggregate
upsert_all [] rows = rows
upsert_all ((key, a) ∷ m) rows = upsert_all m (upsert_aggregate a rows)

run-ok :
    {A : Type 0} (db : StoreStatement → Option String) (st : StoreStatement) {a b : A}
    → run db st a ≡ ok b
    → a ≡ b
run-ok db st h = elim (Option-cases (db st)) [
  | inl e ↦ ground arith
  | inr (error, e) ↦ ground arith
]

insert_facts-ok :
    (db : StoreStatement → Option String) (fs : List ProjectionFact) (b : Batch) {b' : Batch}
    → insert_facts db fs b ≡ ok b'
    → insert_all fs b ≡ b'
unfolding insert_facts insert_all
insert_facts-ok db [] b h = ok_injective h
insert_facts-ok db (f ∷ fs) b h =
    let (b1, first, rest) =
      >>=-ok (run db (StoreStatement.insert_fact f.event_id) (insert_or_ignore f b))
        (insert_facts db fs) h in
    ap (insert_all fs) (run-ok db _ first) ∙ insert_facts-ok db fs b1 rest

upsert_aggregates-ok :
    (db : StoreStatement → Option String) (m : Map ProjectionAggregate)
    (rows : List ProjectionAggregate) {rows' : List ProjectionAggregate}
    → upsert_aggregates db m rows ≡ ok rows'
    → upsert_all m rows ≡ rows'
unfolding upsert_aggregates upsert_all
upsert_aggregates-ok db [] rows h = ok_injective h
upsert_aggregates-ok db ((key, a) ∷ m) rows h =
    let (r1, first, rest) =
      >>=-ok (run db (StoreStatement.upsert_bucket key) (upsert_aggregate a rows))
        (upsert_aggregates db m) h in
    ap (upsert_all m) (run-ok db _ first) ∙ upsert_aggregates-ok db m r1 rest

insert_or_ignore-known :
    (f : ProjectionFact) (b : Batch) → holds b.rows f ≡ true → insert_or_ignore f b ≡ b
unfolding insert_or_ignore
insert_or_ignore-known f b h = rw (insert_or_ignore, h)

-- Facts whose events are there already change nothing.
pub insert_all-known :
    (fs : List ProjectionFact) (b : Batch)
    → All (λ f. holds b.rows f ≡ true) fs
    → insert_all fs b ≡ b
unfolding insert_all
insert_all-known [] b h = refl
insert_all-known (f ∷ fs) b h =
    ap (insert_all fs) (insert_or_ignore-known f b h.0) ∙ insert_all-known fs b h.1

insert_or_ignore-new :
    (f : ProjectionFact) (b : Batch)
    → holds b.rows f ≡ false
    → insert_or_ignore f b ≡ record {
      rows = b.rows ++ stored_fact f ∷ [];
      updates = add_to_aggregate f b.updates;
      inserted = b.inserted + 1;
    }
unfolding insert_or_ignore
insert_or_ignore-new f b h = rw (insert_or_ignore, h)

fact_times-snoc :
    (s : String) (f : ProjectionFact) (rows : List ProjectionFact)
    → fact_times s (rows ++ stored_fact f ∷ []) ≡ fact_times s rows + fact_times s (f ∷ [])
unfolding stored_fact
fact_times-snoc s f rows =
    ground (
      arith,
      count_if-append (λ (g : ProjectionFact). str_eq s g.event_id) rows (stored_fact f ∷ []),
    )

-- Facts of different new events are all inserted and counted.
pub insert_all-new :
    (fs : List ProjectionFact) (rows : List ProjectionFact) (m : Map ProjectionAggregate) (n : ℕ)
    → ((s : String) → fact_times s rows + fact_times s fs ≤ 1)
    → insert_all fs (record { rows = rows; updates = m; inserted = n }) ≡ record {
      rows = rows ++ map stored_fact fs;
      updates = add_all fs m;
      inserted = n + length fs;
    }
unfolding insert_all add_all
insert_all-new [] rows m n h = ground (arith, append-nil rows)
insert_all-new (f ∷ fs) rows m n h =
    ap (insert_all fs) (
      insert_or_ignore-new f (record { rows = rows; updates = m; inserted = n })
        (any_of_count_if (λ r. str_eq f.event_id r.event_id) rows
          (ground (arith, h f.event_id, eq_iff f.event_id f.event_id))))
    ∙ insert_all-new fs (rows ++ stored_fact f ∷ []) (add_to_aggregate f m) (n + 1)
        (λ s. ground (arith, h s, fact_times-snoc s f rows))
    ∙ ground (arith, append_assoc rows (stored_fact f ∷ []) (map stored_fact fs))

-- facts that the store has already, then facts of new events
pub insert_all-append :
    (fs gs : List ProjectionFact) (b : Batch)
    → insert_all (fs ++ gs) b ≡ insert_all gs (insert_all fs b)
unfolding insert_all
insert_all-append [] gs b = refl
insert_all-append (f ∷ fs) gs b = insert_all-append fs gs (insert_or_ignore f b)

pub fact_times-stored :
    (s : String) (fs : List ProjectionFact) → fact_times s (map stored_fact fs) ≡ fact_times s fs
unfolding stored_fact
fact_times-stored s [] = refl
fact_times-stored s (f ∷ fs) = ground (arith, fact_times-stored s fs)

-- What an applied batch leaves: the facts inserted in their order, the aggregates added to the
-- buckets, the checkpoint raised.
pub record Applied (name : String) (last : ℕ) (fs : List ProjectionFact) (s s' : Store) (n : ℕ)
    : Type 0 where
  pub batch : Batch
  pub inserted :
      insert_all fs (record { rows = s.request_facts; updates = []; inserted = 0 }) ≡ batch
  pub facts : s'.request_facts ≡ batch.rows
  pub buckets : s'.agg_buckets ≡ upsert_all batch.updates s.agg_buckets
  pub checkpoints : s'.checkpoints ≡ raise_checkpoint name last s.checkpoints
  pub count : n ≡ batch.inserted

transaction-Applied :
    (db : StoreStatement → Option String) (name : String) (last : ℕ) (fs : List ProjectionFact)
    (s : Store) {s' : Store} {n : ℕ}
    → projection_transaction db name last fs s ≡ ok (s', n)
    → Applied name last fs s s' n
unfolding projection_transaction
transaction-Applied db name last fs s h =
    let (u, _, h1) = >>=-ok (run db StoreStatement.begin (tt {0})) _ h in
    let (u1, _, h2) = >>=-ok (run db StoreStatement.prepare (tt {0})) _ h1 in
    let (b, hb, h3) =
      >>=-ok (insert_facts db fs (record { rows = s.request_facts; updates = []; inserted = 0 })) _
        h2 in
    let (buckets, hu, h4) = >>=-ok (upsert_aggregates db b.updates s.agg_buckets) _ h3 in
    let (checkpoints, hc, h5) =
      >>=-ok (run db StoreStatement.checkpoint (raise_checkpoint name last s.checkpoints)) _ h4 in
    let e = run-ok db StoreStatement.commit h5 in
    record {
      batch = b;
      inserted = insert_facts-ok db fs _ hb;
      facts = sym (ap (λ (p : Store × ℕ). p.0.request_facts) e);
      buckets =
          sym (ap (λ (p : Store × ℕ). p.0.agg_buckets) e)
          ∙ sym (upsert_aggregates-ok db b.updates s.agg_buckets hu);
      checkpoints =
          sym (ap (λ (p : Store × ℕ). p.0.checkpoints) e)
          ∙ sym (run-ok db StoreStatement.checkpoint hc);
      count = sym (ap (λ (p : Store × ℕ). p.1) e);
    }

-- A batch is applied, or an error is returned and the store is left as it was.
pub apply_projection_batch-Applied :
    (db : StoreStatement → Option String) (name : String) (last : ℕ) (fs : List ProjectionFact)
    (s : Store)
    → ((n : ℕ) × ((apply_projection_batch db name last fs s).1 ≡ ok n)
        × Applied name last fs s (apply_projection_batch db name last fs s).0 n)
      ⊎ ((error : String) × (apply_projection_batch db name last fs s ≡ (s, err error)))
unfolding apply_projection_batch
apply_projection_batch-Applied db name last fs s =
    elim (Result-cases (projection_transaction db name last fs s)) [
      | inl ((s', n), e) ↦ inl (
        n,
        rw (apply_projection_batch, e),
        rw (apply_projection_batch, e) (transaction-Applied db name last fs s e),
      )
      | inr (error, e) ↦ inr (error, rw (apply_projection_batch, e))
    ]

-- Facts of a stretch of rows.
module _ (codec : Codec) where
  -- the facts of rows as the store keeps them
  abbrev pub stored_facts : List LoggedEvent → List ProjectionFact
  stored_facts rows = map stored_fact (facts_of codec rows)

  pub facts_of-append :
      (xs ys : List LoggedEvent)
      → facts_of codec (xs ++ ys) ≡ facts_of codec xs ++ facts_of codec ys
  unfolding facts_of
  facts_of-append [] ys = refl
  facts_of-append (r ∷ xs) ys = ground (arith, facts_of-append xs ys)

  pub fact_times-facts_of-le :
      (s : String) (rs : List LoggedEvent) → fact_times s (facts_of codec rs) ≤ times s rs
  unfolding facts_of
  fact_times-facts_of-le s [] = omega arith
  fact_times-facts_of-le s (r ∷ rs) = ground (arith, fact_times-facts_of-le s rs)
