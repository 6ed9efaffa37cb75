-- ===== src/Telemetry/Store.antt =====
-- internal/telemetry/query/store.go: the query store's facts, aggregates and checkpoints, and the
-- transaction that applies a batch of projected facts.
use Prim.Native.String.{◌++◌ as concat}
use ai_model_gateway.Base.{
  ℕ, ◌+◌, String, Bool, Option, none, some, List, [], ◌∷◌, ◌++◌, ◌&&◌, ◌||◌, not, ℤ, pos, ◌+ℤ◌,
  ltb_ℤ, any, str_eq, if◌then◌else◌, ltb, Map, get, put, Result, ok, err, ◌>>=◌,
}
use ai_model_gateway.Telemetry.{ProjectionFact}

-- projectionAggregate, which is also a row of `agg_buckets`
pub record ProjectionAggregate : Type 0 where
  pub bucket : String
  pub model : String
  pub provider : String
  pub requests : ℕ
  pub successes : ℕ
  pub failures : ℕ
  pub input_tokens : ℤ
  pub cached_prompt_tokens : ℤ
  pub output_tokens : ℤ
  pub total_latency : ℤ

-- `request_facts`, `agg_buckets` and `projection_checkpoints`; `bucket` is no column of a fact
pub record Store : Type 0 where
  pub request_facts : List ProjectionFact
  pub agg_buckets : List ProjectionAggregate
  pub checkpoints : Map ℕ

pub data StoreStatement : Type 0 where
  load begin prepare checkpoint commit : StoreStatement
  insert_fact : String → StoreStatement
  upsert_bucket : String → StoreStatement

-- normalizePricingStatus
unfoldable pub normalize_pricing_status : String → ℤ → ℤ → ℤ → String
normalize_pricing_status status prompt cached completion =
    if str_eq status "fixed" || str_eq status "estimated_legacy" || str_eq status "unpriced"
    then status
    else if ltb_ℤ (pos 0) prompt || ltb_ℤ (pos 0) cached || ltb_ℤ (pos 0) completion
    then "estimated_legacy"
    else "unpriced"

-- the row of a fact
unfoldable pub stored_fact : ProjectionFact → ProjectionFact
unfolding normalize_pricing_status
stored_fact f = record f {
  pricing_status =
      normalize_pricing_status f.pricing_status f.prompt_tokens f.cached_prompt_tokens
        f.completion_tokens;
}

abbrev pub aggregate_key : ProjectionFact → String
aggregate_key f = concat f.bucket (concat "|" (concat f.effective_model (concat "|" f.provider_id)))

abbrev pub empty_aggregate : ProjectionFact → ProjectionAggregate
empty_aggregate f = record {
  bucket = f.bucket;
  model = f.effective_model;
  provider = f.provider_id;
  requests = 0;
  successes = 0;
  failures = 0;
  input_tokens = pos 0;
  cached_prompt_tokens = pos 0;
  output_tokens = pos 0;
  total_latency = pos 0;
}

abbrev pub is_success : ProjectionFact → Bool
is_success f = not (ltb_ℤ f.status_code (pos 200)) && ltb_ℤ f.status_code (pos 400)

unfoldable pub count_fact : ProjectionFact → ProjectionAggregate → ProjectionAggregate
count_fact f a = record a {
  requests = a.requests + 1;
  successes = if is_success f then a.successes + 1 else a.successes;
  failures = if is_success f then a.failures else a.failures + 1;
  input_tokens = a.input_tokens +ℤ f.prompt_tokens;
  cached_prompt_tokens = a.cached_prompt_tokens +ℤ f.cached_prompt_tokens;
  output_tokens = a.output_tokens +ℤ f.completion_tokens;
  total_latency = a.total_latency +ℤ f.latency_ms;
}

abbrev pub or_empty : ProjectionFact → Option ProjectionAggregate → ProjectionAggregate
or_empty f none = empty_aggregate f
or_empty f (some a) = a

unfoldable pub add_to_aggregate : ProjectionFact → Map ProjectionAggregate → Map ProjectionAggregate
unfolding count_fact get put
add_to_aggregate f updates =
    if not (str_eq f.synthetic_kind "")
    then updates
    else put updates (aggregate_key f) (count_fact f (or_empty f (get updates (aggregate_key f))))

-- the copy that a transaction works on
pub record Batch : Type 0 where
  pub rows : List ProjectionFact
  pub updates : Map ProjectionAggregate
  pub inserted : ℕ

-- INSERT OR IGNORE, whose rows are told apart by `event_id`, and the aggregates of the row
unfoldable pub insert_or_ignore : ProjectionFact → Batch → Batch
unfolding stored_fact add_to_aggregate
insert_or_ignore f b = if any (λ r. str_eq f.event_id r.event_id) b.rows then b else record {
  rows = b.rows ++ stored_fact f ∷ [];
  updates = add_to_aggregate f b.updates;
  inserted = b.inserted + 1;
}

abbrev pub same_bucket : ProjectionAggregate → ProjectionAggregate → Bool
same_bucket a b = str_eq a.bucket b.bucket && str_eq a.model b.model && str_eq a.provider b.provider

unfoldable pub add_aggregate : ProjectionAggregate → ProjectionAggregate → ProjectionAggregate
add_aggregate a b = record b {
  requests = b.requests + a.requests;
  successes = b.successes + a.successes;
  failures = b.failures + a.failures;
  input_tokens = b.input_tokens +ℤ a.input_tokens;
  cached_prompt_tokens = b.cached_prompt_tokens +ℤ a.cached_prompt_tokens;
  output_tokens = b.output_tokens +ℤ a.output_tokens;
  total_latency = b.total_latency +ℤ a.total_latency;
}

-- INSERT ... ON CONFLICT(bucket, model, provider) DO UPDATE
unfoldable pub upsert_aggregate :
    ProjectionAggregate → List ProjectionAggregate → List ProjectionAggregate
unfolding add_aggregate
upsert_aggregate a [] = a ∷ []
upsert_aggregate a (b ∷ bs) =
    if same_bucket a b then add_aggregate a b ∷ bs else b ∷ upsert_aggregate a bs

-- the checkpoint never goes back
unfoldable pub raise_checkpoint : String → ℕ → Map ℕ → Map ℕ
unfolding get put
raise_checkpoint name last m = elim (get m name) [
  | none ↦ put m name last
  | some old ↦ put m name (if ltb old last then last else old)
]

module _ (db : StoreStatement → Option String) where
  abbrev pub run : {A : Type 0} → StoreStatement → A → Result String A
  run s a = elim (db s) [ none ↦ ok a | some error ↦ err error ]

  -- LoadProjectionCheckpoint
  unfoldable pub load_projection_checkpoint : String → Store → Result String ℕ
  unfolding get
  load_projection_checkpoint name s =
      run load (elim (get s.checkpoints name) [ none ↦ 0 | some id ↦ id ])

  unfoldable pub insert_facts : List ProjectionFact → Batch → Result String Batch
  unfolding insert_or_ignore
  insert_facts [] b = ok b
  insert_facts (f ∷ fs) b = do
    b' ← run (insert_fact f.event_id) (insert_or_ignore f b)
    insert_facts fs b'

  unfoldable pub upsert_aggregates :
      Map ProjectionAggregate → List ProjectionAggregate → Result String (List ProjectionAggregate)
  unfolding upsert_aggregate
  upsert_aggregates [] rows = ok rows
  upsert_aggregates ((key, a) ∷ m) rows = do
    rows' ← run (upsert_bucket key) (upsert_aggregate a rows)
    upsert_aggregates m rows'

  -- the transaction of ApplyProjectionBatch: the store at its commit, and the rows inserted
  unfoldable pub projection_transaction :
      String → ℕ → List ProjectionFact → Store → Result String (Store × ℕ)
  unfolding insert_facts upsert_aggregates raise_checkpoint
  projection_transaction name last facts s = do
    _ ← run begin (tt {0})
    _ ← run prepare (tt {0})
    b ← insert_facts facts (record { rows = s.request_facts; updates = []; inserted = 0 })
    buckets ← upsert_aggregates b.updates s.agg_buckets
    checkpoints ← run checkpoint (raise_checkpoint name last s.checkpoints)
    run commit (
      record { request_facts = b.rows; agg_buckets = buckets; checkpoints = checkpoints },
      b.inserted,
    )

  abbrev pub settle : Store → Result String (Store × ℕ) → Store × Result String ℕ
  settle s (ok (s', inserted)) = (s', ok inserted)
  settle s (err error) = (s, err error)

  -- ApplyProjectionBatch: without its commit, the transaction is rolled back
  unfoldable pub apply_projection_batch :
      String → ℕ → List ProjectionFact → Store → Store × Result String ℕ
  unfolding projection_transaction
  apply_projection_batch name last facts s = settle s (projection_transaction name last facts s)
