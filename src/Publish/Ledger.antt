-- ===== src/Publish/Ledger.antt =====
-- publisher.go: lookups, the policy, the trimming of the publish records, the copies of revisions,
-- and the persistence of the ledger.
use ai_model_gateway.Base.{
  ℕ, suc, ◌-◌, ℤ, pos, max_zero, is_pos, String, not, ◌||◌, Option, none, some, List, [], ◌∷◌,
  length, get_elem?, drop, leb, if◌then◌else◌, str_eq, trim_space, Time, Result, ok, err, ◌>>=◌,
  map_err,
}
use ai_model_gateway.Snapshot.{Snapshot}
use ai_model_gateway.Publish.{
  Revision, PublishRecord, PublisherPolicy, Publisher, PublishError, at_revision, config_codec,
  snapshot_codec, created_at_codec, store_failed, StoredRevision, PublisherState, Environment,
}

-- core.DefaultAdminPublishHistoryLimit
abbrev pub default_history_limit : ℤ
default_history_limit = pos 256

unfoldable pub normalize_policy : PublisherPolicy → PublisherPolicy
normalize_policy policy =
    if is_pos policy.publish_history_limit
    then policy
    else record policy { publish_history_limit = default_history_limit }

-- the records that a limit leaves: the last ones
unfoldable pub retained : ℤ → List PublishRecord → List PublishRecord
retained limit publishes =
    if not (is_pos limit) || leb (length publishes) (max_zero limit)
    then publishes
    else drop (length publishes - max_zero limit) publishes

abbrev pub current_version : ℤ
current_version = pos 1

module _ {Config : Type 0} where
  -- `NewPublisher`
  abbrev pub new_publisher : Publisher Config
  new_publisher = record {
    revisions = [];
    active = none;
    publishes = [];
    policy = record { publish_history_limit = default_history_limit };
  }

  -- `findRevisionLocked`; `i` counts the revisions passed
  unfoldable pub find_from : ℕ → List (Revision Config) → String → Option (ℕ × Revision Config)
  find_from i [] id = none
  find_from i (r ∷ rs) id = if str_eq r.revision_id id then some (i, r) else find_from (suc i) rs id

  abbrev pub find_revision : Publisher Config → String → Option (ℕ × Revision Config)
  find_revision p id = find_from 0 p.revisions id

  -- `p.revisions[p.activeIdx]`, where the index is in range
  unfoldable pub active_revision : Publisher Config → Option (Revision Config)
  active_revision p = elim p.active [ none ↦ none | some i ↦ get_elem? p.revisions i ]

  -- `trimPublishesLocked`
  abbrev pub trim_publishes : Publisher Config → Publisher Config
  trim_publishes p = record p { publishes = retained p.policy.publish_history_limit p.publishes }

  unfoldable pub set_policy : Publisher Config → PublisherPolicy → Publisher Config
  set_policy p policy = trim_publishes (record p { policy = normalize_policy policy })

  abbrev pub set_publish_retention : Publisher Config → ℤ → Publisher Config
  set_publish_retention p limit = set_policy p (record { publish_history_limit = limit })

module _ {W Config Fields : Type 0} (env : Environment W Config Fields) where
  unfoldable pub policy_from_config : Option Config → PublisherPolicy
  policy_from_config none = normalize_policy (record { publish_history_limit = pos 0 })
  policy_from_config (some c) =
      normalize_policy (record { publish_history_limit = env.history_limit c })

  -- the configuration of the active revision
  abbrev pub active_config : Publisher Config → Option Config
  active_config p = elim (active_revision p) [ none ↦ none | some r ↦ r.config ]

  unfoldable pub sync_policy : Publisher Config → Publisher Config
  sync_policy p = elim (active_config p) [
    | none ↦ p
    | some c ↦ trim_publishes (record p { policy = policy_from_config (some c) })
  ]

  -- copies, by way of YAML
  unfoldable pub clone_config : Option Config → Result String (Option Config)
  clone_config none = ok none
  clone_config (some c) = do
    text ← env.marshal_config c
    copy ← env.unmarshal_config text
    ok (some copy)

  unfoldable pub clone_snapshot : Option Snapshot → Result String (Option Snapshot)
  clone_snapshot none = ok none
  clone_snapshot (some s) = do
    text ← env.marshal_snapshot s
    copy ← env.unmarshal_snapshot text
    ok (some copy)

  unfoldable pub clone_revision : Revision Config → Result PublishError (Revision Config)
  clone_revision r = do
    c ← map_err config_codec (clone_config r.config)
    s ← map_err snapshot_codec (clone_snapshot r.snapshot)
    ok (record r { config = c; snapshot = s })

  abbrev pub marshal_or_empty :
      {A : Type 0} → (A → Result String String) → Option A → Result String String
  marshal_or_empty marshal none = ok ""
  marshal_or_empty marshal (some a) = marshal a

  unfoldable pub marshal_stored_revision : Revision Config → Result PublishError StoredRevision
  marshal_stored_revision r = do
    c ← map_err config_codec (marshal_or_empty env.marshal_config r.config)
    s ← map_err snapshot_codec (marshal_or_empty env.marshal_snapshot r.snapshot)
    ok (record {
      revision_id = r.revision_id;
      created_at = env.format_time r.created_at;
      created_by = r.created_by;
      description = r.description;
      config_yaml = c;
      snapshot_yaml = s;
    })

  -- a YAML payload, absent where it is blank
  abbrev pub unmarshal_payload :
      {A : Type 0} → (String → Result String A) → String → Result String (Option A)
  unmarshal_payload unmarshal text =
      let parsed = unmarshal text in
      if str_eq (trim_space text) "" then ok none else (parsed >>= λ a. ok (some a))

  abbrev pub stored_time : String → Result String Time
  stored_time text = let parsed = env.parse_time text in if str_eq text "" then ok 0 else parsed

  abbrev pub stored_config : String → Result String Config
  stored_config text = env.unmarshal_config text >>= λ c. ok (env.normalize c)

  unfoldable pub unmarshal_stored_revision : StoredRevision → Result PublishError (Revision Config)
  unmarshal_stored_revision stored = do
    t ← map_err created_at_codec (stored_time stored.created_at)
    c ← map_err config_codec (unmarshal_payload stored_config stored.config_yaml)
    s ← map_err snapshot_codec (unmarshal_payload env.unmarshal_snapshot stored.snapshot_yaml)
    ok (record {
      revision_id = trim_space stored.revision_id;
      created_at = t;
      created_by = stored.created_by;
      description = stored.description;
      config = c;
      snapshot = s;
    })

  -- the revisions of the state to save; `i` counts the revisions passed
  unfoldable pub marshal_revisions :
      ℕ → List (Revision Config) → Result PublishError (List StoredRevision)
  marshal_revisions i [] = ok []
  marshal_revisions i (r ∷ rs) = do
    s ← map_err (at_revision i) (marshal_stored_revision r)
    ss ← marshal_revisions (suc i) rs
    ok (s ∷ ss)

  abbrev pub active_id : Publisher Config → String
  active_id p = elim (active_revision p) [ none ↦ "" | some r ↦ r.revision_id ]

  unfoldable pub state_of : Publisher Config → Result PublishError PublisherState
  state_of p = do
    stored ← marshal_revisions 0 p.revisions
    ok (record {
      version = current_version;
      active_revision_id = active_id p;
      revisions = stored;
      publishes = p.publishes;
    })

  -- `persistStateLocked`: its error, and the world after it
  unfoldable pub persist_state : Publisher Config → W → Option PublishError × W
  persist_state p w = elim env.state_store [
    | none ↦ (none, w)
    | some store ↦ elim (state_of p) [
      | err e ↦ (some e, w)
      | ok state ↦
          let (error, w1) = store.save state w in
          (elim error [ none ↦ none | some e ↦ some (store_failed e) ], w1)
    ]
  ]
