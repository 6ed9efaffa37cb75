-- ===== src/Publish/Upstreams.antt =====
-- publisher.go: the upstream id that a stored snapshot of an older version lacks.
use Prim.Native.Char.{Char, code}
use ai_model_gateway.Base.{
  String, Bool, ◌||◌, none, some, any, map, if◌then◌else◌, ◌==◌, str_eq, trim_space,
}
use ai_model_gateway.Snapshot.{ProviderSnapshot, Snapshot}
use ai_model_gateway.Publish.{Url, Environment}

push_unless_slash : Char → String → String
push_unless_slash c String.[] = if code c == 47 then String.[] else String.◌∷◌ c String.[]
push_unless_slash c (String.◌∷◌ d s) = String.◌∷◌ c (String.◌∷◌ d s)

-- strings.TrimRight(s, "/")
unfoldable pub trim_slashes : String → String
unfolding push_unless_slash
trim_slashes String.[] = String.[]
trim_slashes (String.◌∷◌ c s) = push_unless_slash c (trim_slashes s)

abbrev pub lacks_upstream : ProviderSnapshot → Bool
lacks_upstream p = str_eq (trim_space p.upstream_id) ""

-- `snapshotNeedsDerivedFieldRefresh`
unfoldable pub needs_refresh : Snapshot → Bool
needs_refresh s = any lacks_upstream s.providers

module _ {W Config Fields : Type 0} (env : Environment W Config Fields) where
  normalized_url : Url → Url
  normalized_url u = record u {
    scheme = env.to_lower u.scheme;
    host = env.to_lower u.host;
    path = trim_slashes u.path;
    raw_query = "";
    fragment = "";
  }

  -- `normalizeSnapshotUpstreamURL`
  unfoldable pub normalize_upstream_url : String → String
  unfolding normalized_url
  normalize_upstream_url raw =
      let url = trim_space raw in
      if str_eq url "" then "" else elim (env.parse_url url) [
        | none ↦ trim_slashes url
        | some u ↦
            if str_eq u.scheme "" || str_eq u.host ""
            then trim_slashes url
            else env.print_url (normalized_url u)
      ]

  -- `logicalSnapshotUpstreamID`
  unfoldable pub logical_upstream_id : String → String → String → String
  logical_upstream_id provider_id base_url anthropic_base_url =
      let url =
        if str_eq (trim_space anthropic_base_url) ""
        then trim_space base_url
        else trim_space anthropic_base_url in
      let normalized = normalize_upstream_url url in
      if str_eq normalized "" then trim_space provider_id else normalized

  unfoldable pub backfill_provider : ProviderSnapshot → ProviderSnapshot
  backfill_provider p =
      if lacks_upstream p
      then record p {
        upstream_id = logical_upstream_id p.provider_id p.base_url p.anthropic_base_url;
      }
      else p

  -- `backfillSnapshotDerivedFields`
  unfoldable pub backfill : Snapshot → Snapshot
  backfill s = record s { providers = map backfill_provider s.providers }
