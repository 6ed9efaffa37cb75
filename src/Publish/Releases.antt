-- ===== src/Publish/Releases.antt =====
-- publisher.go: `Publish`, `Rollback` and `publishRevisionLocked`.
use ai_model_gateway.Base.{
  ℕ, zero, ℤ, pos, String, Bool, true, false, Option, none, some, List, [], ◌∷◌, ◌++◌,
  if◌then◌else◌, Time, is_zero, Result, ok, err, ◌>>=◌, map_err,
}
use ai_model_gateway.Snapshot.{Snapshot, SnapshotMeta}
use ai_model_gateway.Publish.{
  Revision, Kind, publishing, rolling_back, staged, observed, failed, PublishRecord, Publisher,
  PublishError, revision_not_found, gateway_not_configured, nil_snapshot, snapshot_codec,
  ApplySnapshotRequest, Environment,
}
use ai_model_gateway.Publish.Ledger.{
  find_revision, trim_publishes, sync_policy, clone_snapshot, persist_state,
}
use ai_model_gateway.Publish.Compiling.{compile_snapshot}
use ai_model_gateway.Publish.Generated.{generate_id}

pub record PublishResult : Type 0 where
  pub success : Bool
  pub snapshot_id : String
  pub revision_id : String
  pub published_at : Time
  pub error_message : String

-- the result, the publisher and the world after a call
abbrev pub PublishRun : Type 0 → Type 0 → Type 0
PublishRun Config W = Result PublishError PublishResult × Publisher Config × W

abbrev pub answer :
    {Config W : Type 0}
    → Result PublishError PublishResult
    → Publisher Config × W
    → PublishRun Config W
answer result after = (result, after.0, after.1)

abbrev pub current_schema_version : ℤ
current_schema_version = pos 1

-- the last record, which `pub` points to
unfoldable pub update_last {ℓ} : {A : Type ℓ} → (A → A) → List A → List A
update_last f [] = []
update_last f (x ∷ []) = f x ∷ []
update_last f (x ∷ y ∷ ys) = x ∷ update_last f (y ∷ ys)

abbrev pub undelivered : String → String → PublishResult
undelivered revision_id message = record {
  success = false;
  snapshot_id = "";
  revision_id = revision_id;
  published_at = 0;
  error_message = message;
}

abbrev pub mark_failed : String → PublishRecord → PublishRecord
mark_failed message r = record r { status = failed; error = message }

abbrev pub mark_observed : Time → PublishRecord → PublishRecord
mark_observed t r = record r { status = observed; observed_at = t }

-- the metadata of the snapshot that is sent
abbrev pub published_meta : String → String → Time → SnapshotMeta → SnapshotMeta
published_meta snapshot_id revision_id requested_at m = record m {
  snapshot_id = snapshot_id;
  revision_id = revision_id;
  schema_version = elim m.schema_version [ pos zero ↦ current_schema_version | v ↦ v ];
  generated_at = if is_zero m.generated_at then requested_at else m.generated_at;
}

module _ {Config : Type 0} where
  abbrev pub stage_record : Publisher Config → PublishRecord → Publisher Config
  stage_record p r = trim_publishes (record p { publishes = p.publishes ++ r ∷ [] })

module _ {W Config Fields : Type 0} (env : Environment W Config Fields) where
  unfoldable pub update_last_publish :
      (PublishRecord → PublishRecord) → Publisher Config → Publisher Config
  update_last_publish f p = record p { publishes = update_last f p.publishes }

  unfoldable pub settle_failed : String → Publisher Config → W → Publisher Config × W
  settle_failed message p w =
      let p1 = update_last_publish (mark_failed message) p in (p1, (persist_state env p1 w).1)

  unfoldable pub settle_observed : ℕ → Publisher Config → W → Publisher Config × W
  settle_observed i p w =
      let (t, w1) = env.now w in
      let p1 = update_last_publish (mark_observed t) p in
      let p2 = sync_policy env (record p1 { active = some i }) in (p2, (persist_state env p2 w1).1)

  -- from the request to the gateway on
  unfoldable pub deliver :
      Publisher Config → ℕ → ApplySnapshotRequest → Time → W → PublishRun Config W
  deliver p i req requested_at w = elim env.gateway [
    | none ↦ answer (err gateway_not_configured) (settle_failed "gateway not configured" p w)
    | some apply ↦
        let (reply, w1) = apply req w in
        elim reply [
          | err e ↦ answer (ok (undelivered req.revision_id e)) (settle_failed e p w1)
          | ok resp ↦
              if resp.applied
              then answer
                  (ok (record {
                    success = true;
                    snapshot_id = req.snapshot_id;
                    revision_id = req.revision_id;
                    published_at = requested_at;
                    error_message = "";
                  }))
                  (settle_observed i p w1)
              else answer (ok (undelivered req.revision_id resp.error))
                  (settle_failed resp.error p w1)
        ]
  ]

  -- the staged record, its persistence and the delivery
  unfoldable pub stage :
      Publisher Config → ℕ → Kind → Snapshot → String → Time → W → PublishRun Config W
  stage p i kind published bytes requested_at w =
      let (publish_id, w1) = generate_id env "pub_" w in
      let p1 = stage_record p (record {
        publish_id = publish_id;
        revision_id = published.meta.revision_id;
        snapshot_id = published.meta.snapshot_id;
        requested_at = requested_at;
        requested_by = "";
        kind = kind;
        status = staged;
        error = "";
        observed_at = 0;
      }) in
      let (error, w2) = persist_state env p1 w1 in
      deliver p1 i
        (record {
          snapshot_id = published.meta.snapshot_id;
          revision_id = published.meta.revision_id;
          snapshot_bytes = bytes;
          schema_version = published.meta.schema_version;
          generated_at = published.meta.generated_at;
        })
        requested_at w2

  -- the copy of the snapshot, its metadata and its bytes
  abbrev pub seal_copy :
      String → String → Time → Option Snapshot → Result PublishError (Snapshot × String)
  seal_copy snapshot_id revision_id requested_at none = err nil_snapshot
  seal_copy snapshot_id revision_id requested_at (some c) = do
    let published = record c { meta = published_meta snapshot_id revision_id requested_at c.meta }
    bytes ← map_err snapshot_codec (env.marshal_snapshot published)
    ok (published, bytes)

  abbrev pub seal : Snapshot → String → String → Time → Result PublishError (Snapshot × String)
  seal s snapshot_id revision_id requested_at =
      map_err snapshot_codec (clone_snapshot env (some s))
      >>= seal_copy snapshot_id revision_id requested_at

  unfoldable pub send_snapshot :
      Publisher Config → ℕ → String → Kind → Snapshot → W → PublishRun Config W
  send_snapshot p i revision_id kind s w =
      let (snapshot_id, w1) = generate_id env "snap_" w in
      let (requested_at, w2) = env.now w1 in
      elim (seal s snapshot_id revision_id requested_at) [
        | err e ↦ (err e, p, w2)
        | ok sealed ↦ stage p i kind sealed.0 sealed.1 requested_at w2
      ]

  -- `publishRevisionLocked`
  unfoldable pub publish_revision :
      Publisher Config → ℕ → Revision Config → Kind → W → PublishRun Config W
  publish_revision p i rev kind w =
      let (compiled, p1, w1) = compile_snapshot env p i rev w in
      elim compiled [
        | err e ↦ (err e, p1, w1)
        | ok s ↦ send_snapshot p1 i rev.revision_id kind s w1
      ]

  -- `Publish` and `Rollback`
  unfoldable pub release : Kind → Publisher Config → String → W → PublishRun Config W
  release kind p id w = elim (find_revision p id) [
    | none ↦ (err (revision_not_found id), p, w)
    | some found ↦ publish_revision p found.0 found.1 kind w
  ]

  abbrev pub publish : Publisher Config → String → W → PublishRun Config W
  publish = release publishing

  abbrev pub rollback : Publisher Config → String → W → PublishRun Config W
  rollback = release rolling_back
