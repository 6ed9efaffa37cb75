-- ===== src/Publish/Updates.antt =====
-- publisher.go: `UpdateConfig` and `asCoreConfig`.
use ai_model_gateway.Base.{
  ℕ, String, Option, none, some, [], ◌∷◌, ◌++◌, length, take, Result, ok, err, ◌>>=◌, map_err,
}
use ai_model_gateway.Snapshot.{Snapshot}
use ai_model_gateway.Publish.{
  Revision, publishing, Publisher, PublishError, compiler_not_configured, config_is_nil,
  unsupported_config, config_codec, compile_failed, validate_failed, Compiler, ConfigInput,
  config_value, nil_pointer, config_fields, other_type, Environment,
}
use ai_model_gateway.Publish.Ledger.{persist_state}
use ai_model_gateway.Publish.Generated.{generate_id}
use ai_model_gateway.Publish.Releases.{PublishRun, publish_revision}

module _ {Config : Type 0} where
  abbrev pub without_last : ℕ → Publisher Config → Publisher Config
  without_last n p = record p { revisions = take n p.revisions }

module _ {W Config Fields : Type 0} (env : Environment W Config Fields) where
  -- `asCoreConfig`
  unfoldable pub as_core_config : ConfigInput Config Fields → Result PublishError Config
  as_core_config (config_value c) = ok c
  as_core_config nil_pointer = err config_is_nil
  as_core_config (config_fields f) = do
    text ← map_err config_codec (env.marshal_fields f)
    map_err config_codec (env.unmarshal_config text)
  as_core_config other_type = err unsupported_config

  -- the configuration, compiled and validated
  abbrev pub checked : Compiler W Config → Config → W → Result PublishError (Option Snapshot) × W
  checked c cfg w =
      let (reply, w1) = c.compile_from_config cfg w in
      (
        elim reply.error [
          | some e ↦ err (compile_failed e)
          | none ↦ elim (c.validate reply.snapshot) [
            | some e ↦ err (validate_failed e)
            | none ↦ ok reply.snapshot
          ]
        ],
        w1,
      )

  -- `UpdateConfig`; a failed publishing takes the revision away again
  unfoldable pub add_and_publish : Publisher Config → Revision Config → W → PublishRun Config W
  add_and_publish p r w =
      let n = length p.revisions in
      let added = record p { revisions = p.revisions ++ r ∷ [] } in
      let (result, p1, w1) = publish_revision env added n r publishing w in
      elim result [
        | err e ↦ (err e, without_last n p1, w1)
        | ok done ↦ (ok done, p1, (persist_state env p1 w1).1)
      ]

  unfoldable pub create_revision :
      Publisher Config → Config → Option Snapshot → String → W → PublishRun Config W
  create_revision p cfg s description w =
      let (id, w1) = generate_id env "rev_" w in
      let (t, w2) = env.now w1 in
      add_and_publish p
        (record {
          revision_id = id;
          created_at = t;
          created_by = "admin-ui";
          description = description;
          config = some cfg;
          snapshot = s;
        })
        w2

  -- the check leaves the configuration as the compiler does
  unfoldable pub update_config :
      Publisher Config → ConfigInput Config Fields → String → W → PublishRun Config W
  update_config p input description w = elim env.compiler [
    | none ↦ (err compiler_not_configured, p, w)
    | some c ↦ elim (as_core_config input) [
      | err e ↦ (err e, p, w)
      | ok cfg ↦
          let (snap, w1) = checked c cfg w in
          elim snap [
            | err e ↦ (err e, p, w1)
            | ok s ↦ create_revision p (c.leaves cfg) s description w1
          ]
    ]
  ]
