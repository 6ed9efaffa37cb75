-- ===== src/Publish/Views.antt =====
-- publisher.go: the read side: `GetHistory`, `GetCurrentRevision`, `GetCurrentConfig`,
-- `LoadRevisionConfig` and `ValidateConfig`.
use ai_model_gateway.Base.{
  ℕ, suc, ℤ, max_zero, is_pos, String, Bool, true, false, Option, none, some, List, [], ◌∷◌, ◌++◌,
  Time, if◌then◌else◌, ◌==◌, take, Result, ok, err, map_err,
}
use ai_model_gateway.Publish.{
  Revision, Publisher, PublishError, no_config_payload, compiler_not_configured, config_codec,
  ConfigInput, Environment,
}
use ai_model_gateway.Publish.Ledger.{find_revision, active_revision, clone_config}
use ai_model_gateway.Publish.Updates.{as_core_config, checked}

pub record RevisionInfo : Type 0 where
  pub revision_id : String
  pub created_at : Time
  pub created_by : String
  pub description : String
  pub is_active : Bool

abbrev pub history_size : ℤ → ℕ
history_size limit = if is_pos limit then max_zero limit else 50

module _ {Config : Type 0} where
  abbrev pub info_of : Revision Config → Bool → RevisionInfo
  info_of r is_active = record {
    revision_id = r.revision_id;
    created_at = r.created_at;
    created_by = r.created_by;
    description = r.description;
    is_active = is_active;
  }

  -- whether the place is the active one
  unfoldable pub is_active_at : Publisher Config → ℕ → Bool
  is_active_at p i = elim p.active [ none ↦ false | some a ↦ i == a ]

  -- the revisions from place `i` on, the last first
  unfoldable pub newest_first : Publisher Config → ℕ → List (Revision Config) → List RevisionInfo
  newest_first p i [] = []
  newest_first p i (r ∷ rs) = newest_first p (suc i) rs ++ info_of r (is_active_at p i) ∷ []

  -- `GetHistory`
  unfoldable pub get_history : Publisher Config → ℤ → List RevisionInfo
  get_history p limit = take (history_size limit) (newest_first p 0 p.revisions)

  -- `currentRevisionInfoLocked`
  unfoldable pub current_revision_info : Publisher Config → Option RevisionInfo
  current_revision_info p = elim (active_revision p) [
    | none ↦ none
    | some r ↦ some (info_of r true)
  ]

module _ {W Config Fields : Type 0} (env : Environment W Config Fields) where
  -- `GetCurrentConfig`
  unfoldable pub get_current_config : Publisher Config → Result String (Option Config)
  get_current_config p = elim (active_revision p) [
    | none ↦ ok none
    | some r ↦ clone_config env r.config
  ]

  -- `LoadRevisionConfig`
  unfoldable pub load_revision_config :
      Publisher Config → String → Result PublishError (Option Config)
  load_revision_config p id = elim (find_revision p id) [
    | none ↦ ok none
    | some found ↦ elim found.1.config [
      | none ↦ err (no_config_payload found.1.revision_id)
      | some c ↦ map_err config_codec (clone_config env (some c))
    ]
  ]

  -- `ValidateConfig`: none for a valid configuration, or why it is not
  unfoldable pub validate_config :
      ConfigInput Config Fields → W → Result PublishError (Option PublishError) × W
  validate_config input w = elim env.compiler [
    | none ↦ (err compiler_not_configured, w)
    | some c ↦ elim (as_core_config env input) [
      | err e ↦ (ok (some e), w)
      | ok cfg ↦
          let (snap, w1) = checked env c cfg w in
          (elim snap [ err e ↦ ok (some e) | ok _ ↦ ok none ], w1)
    ]
  ]
