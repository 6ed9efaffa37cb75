-- ===== src/Publish/Codecs.antt =====
-- The codecs of a stored revision: what is written can be read back.
use mathlib.Core.Path.{subst}
use ai_model_gateway.Base.{
  ◌≡◌, ◌≢◌, refl, ap, String, Option, none, some, arith, eq_iff, trim_space, Time, Result, ok,
  map_err, map_err-ok, >>=-ok, ok_injective,
}
use ai_model_gateway.Snapshot.{Snapshot}
use ai_model_gateway.Publish.{Revision, config_codec, snapshot_codec, StoredRevision, Environment}
use ai_model_gateway.Publish.Ledger.{
  marshal_or_empty, marshal_stored_revision, unmarshal_payload, stored_time, stored_config,
  unmarshal_stored_revision,
}

module _ {W Config Fields : Type 0} (env : Environment W Config Fields) where
  -- The documented behaviour of the codecs: what is written is not blank, and can be read back
  -- where the tags of the fields drop nothing that the value has. A configuration drops an explicit
  -- empty list of pricing sources, for one, so that the values that are written in full, `full` and
  -- `full_snapshot`, are not all of them.
  pub record CodecLaws (full : Config → Type 0) (full_snapshot : Snapshot → Type 0) : Type 0 where
    pub config_back :
        (c : Config) (y : String)
        → full c
        → env.marshal_config c ≡ ok y
        → env.unmarshal_config y ≡ ok c
    pub config_solid : (c : Config) (y : String) → env.marshal_config c ≡ ok y → trim_space y ≢ ""
    pub snapshot_back :
        (s : Snapshot) (y : String)
        → full_snapshot s
        → env.marshal_snapshot s ≡ ok y
        → env.unmarshal_snapshot y ≡ ok s
    pub snapshot_solid :
        (s : Snapshot) (y : String) → env.marshal_snapshot s ≡ ok y → trim_space y ≢ ""
    pub time_back : (t : Time) → env.parse_time (env.format_time t) ≡ ok t
    pub time_solid : (t : Time) → env.format_time t ≢ ""

  -- the configuration of a revision, if any, is a normalized one, and both it and the snapshot, if
  -- any, are written in full
  pub record Storable (full : Config → Type 0) (full_snapshot : Snapshot → Type 0)
      (r : Revision Config) : Type 0 where
    pub normalized : (c : Config) → r.config ≡ some c → env.normalize c ≡ c
    pub config_full : (c : Config) → r.config ≡ some c → full c
    pub snapshot_full : (s : Snapshot) → r.snapshot ≡ some s → full_snapshot s

module _ {W Config Fields : Type 0} (env : Environment W Config Fields) {full : Config → Type 0}
    {full_snapshot : Snapshot → Type 0} (laws : CodecLaws env full full_snapshot) where
  payload_back :
      {A : Type 0} (marshal : A → Result String String) (unmarshal : String → Result String A)
      (o : Option A) (y : String)
      → ((a : A) → o ≡ some a → marshal a ≡ ok y → (unmarshal y ≡ ok a) × (trim_space y ≢ ""))
      → marshal_or_empty env marshal o ≡ ok y
      → unmarshal_payload env unmarshal y ≡ ok o
  unfolding trim_space
  payload_back marshal unmarshal none y back h =
      subst (λ z. unmarshal_payload env unmarshal z ≡ ok none) (ok_injective h) refl
  payload_back marshal unmarshal (some a) y back h =
      let (read, solid) = back a refl h in ground (arith, eq_iff (trim_space y) "")

  config_back :
      (r : Revision Config) (y : String)
      → Storable env full full_snapshot r
      → (c : Config) → r.config ≡ some c
      → env.marshal_config c ≡ ok y
      → (stored_config env y ≡ ok c) × (trim_space y ≢ "")
  config_back r y n c e h = (
    rw (laws.config_back c y (n.config_full c e) h) (ap ok (n.normalized c e)),
    laws.config_solid c y h,
  )

  stored_time_back : (t : Time) → stored_time env (env.format_time t) ≡ ok t
  stored_time_back t =
      ground (arith, eq_iff (env.format_time t) "", laws.time_back t, laws.time_solid t)

  pub unmarshal-marshal :
      (r : Revision Config) (s : StoredRevision)
      → Storable env full full_snapshot r
      → trim_space r.revision_id ≡ r.revision_id
      → marshal_stored_revision env r ≡ ok s
      → unmarshal_stored_revision env s ≡ ok r
  unfolding marshal_stored_revision unmarshal_stored_revision
  unmarshal-marshal r s n t h =
      let (c, hc, h1) =
        >>=-ok (map_err config_codec (marshal_or_empty env env.marshal_config r.config)) _ h in
      let (y, hs, h2) =
        >>=-ok (map_err snapshot_codec (marshal_or_empty env env.marshal_snapshot r.snapshot)) _
          h1 in
      let config =
        payload_back env.marshal_config (stored_config env) r.config c (config_back r c n)
          (map_err-ok config_codec _ hc) in
      let snapshot =
        payload_back env.marshal_snapshot env.unmarshal_snapshot r.snapshot y
          (λ a e m. (laws.snapshot_back a y (n.snapshot_full a e) m, laws.snapshot_solid a y m))
          (map_err-ok snapshot_codec _ hs) in
      subst (λ s. unmarshal_stored_revision env s ≡ ok r) (ok_injective h2)
        (rw (stored_time_back r.created_at, config, snapshot, t))
