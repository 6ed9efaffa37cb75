-- ===== src/Publish/Refinement.antt =====
-- `Publish`, `Rollback` and `UpsertRevision` implement the steps of the catalogue.
use mathlib.Core.Path.{subst}
use ai_model_gateway.Base.{
  ◌≡◌, ◌≢◌, refl, sym, false, ap, ◌∙◌, String, Bool, ◌⊎◌, inl, inr, Option, none, some, get_elem?,
  Bool-cases, Option-cases, str_eq, trim_space, ok, Result-cases, >>=-ok, ok_injective, map_err,
  map_err-ok,
}
use ai_model_gateway.Publish.{Revision, Kind, Publisher, config_codec, snapshot_codec, Environment}
use ai_model_gateway.Publish.Ledger.{
  find_revision, sync_policy, clone_config, clone_snapshot, clone_revision,
}
use ai_model_gateway.Publish.Edits.{put_revision, saved, upsert_revision}
use ai_model_gateway.Publish.Releases.{publish_revision, release}
use ai_model_gateway.Publish.Invariant.{
  IsValid, configs, find_from-some, sync_policy-revisions, sync_policy-active,
}
use ai_model_gateway.Publish.Valid.{clone_revision-id}
use ai_model_gateway.Publish.Kept.{LeftAs}
use ai_model_gateway.Publish.Outcomes.{succeeded}
use ai_model_gateway.Publish.Published.{find_revision-held, publish_revision-Released}
use ai_model_gateway.Publish.Catalogue.{
  Catalogue, catalogue, put_entry, entry_in-with_config, entry_in-lost, entry_in-found,
  catalogue_of, Released-catalogue, put_revision-catalogue, entry_in,
}

module _ {W Config Fields : Type 0} (env : Environment W Config Fields) where
  -- what publishing and rolling back do to the catalogue
  abbrev pub Activated : String → Bool → Catalogue Config → Catalogue Config → Type 0
  Activated id success before after =
      ((before.entries id ≡ none) × (success ≡ false) × (after ≡ before))
      ⊎ ((config left : Option Config) × (before.entries id ≡ some config)
          × LeftAs env config left
          × (after ≡ put_entry id left success before))

  -- Publishing and rolling back implement one step of the catalogue: under a name that it does not
  -- have they fail and change nothing. Otherwise a success makes the name active, and a failure
  -- leaves the active name; the name's configuration stays as it is or becomes what the compiler
  -- leaves of it, and every other entry is as it was.
  pub release-refines :
      (kind : Kind) (p : Publisher Config) (id : String) (w : W)
      → IsValid p
      → let after = release env kind p id w in
        Activated id (succeeded after.0) (catalogue p) (catalogue after.1)
  unfolding release
  release-refines kind p id w v = elim (Option-cases (find_revision p id)) [
    | inl e ↦ rw (release, e) (inl (entry_in-lost 0 p.revisions id e, refl, refl))
    | inr ((i, rev), e) ↦
        let (_, _, _, name) = find_from-some 0 p.revisions id {j = i} {r = rev} e in
        let held : get_elem? p.revisions i ≡ some rev = find_revision-held p id e in
        let found : find_revision p rev.revision_id ≡ some (i, rev) =
          subst (λ n. find_revision p n ≡ some (i, rev)) (sym name) e in
        let after = publish_revision env p i rev kind w in
        let (left, source, released) = publish_revision-Released env p i rev kind w v held in
        rw (release, e)
          (inr (
            rev.config,
            left,
            entry_in-found 0 p.revisions id i rev e,
            source,
            subst (λ n. catalogue after.1 ≡ put_entry n left (succeeded after.0) (catalogue p)) name
                (Released-catalogue p after.1 i rev _ _ after.0 held
                  (entry_in-with_config p i rev left found) released),
          ))
  ]

  clone_revision-config :
      (r r' : Revision Config)
      → clone_revision env r ≡ ok r'
      → clone_config env r.config ≡ ok r'.config
  unfolding clone_revision
  clone_revision-config r r' h =
      let (c, read, h1) = >>=-ok (map_err config_codec (clone_config env r.config)) _ h in
      let (s, _, h2) = >>=-ok (map_err snapshot_codec (clone_snapshot env r.snapshot)) _ h1 in
      map_err-ok config_codec _ read ∙ ap (λ (t : Revision Config). ok t.config) (ok_injective h2)

  saved-catalogue : (p : Publisher Config) (w : W) → catalogue (saved env p w).1 ≡ catalogue p
  unfolding saved
  saved-catalogue p w =
      catalogue_of (sync_policy env p) _ _
        (λ id. ap (λ rs. entry_in (configs rs) id) (sync_policy-revisions env p))
        (rw (sync_policy-revisions env p, sync_policy-active env p))

  -- `UpsertRevision` implements putting an entry into the catalogue: it returns an error and leaves
  -- the ledger alone, or the entry of the trimmed name is a copy of the given configuration and
  -- every other entry is as it was, whether or not the ledger could be saved.
  pub upsert_revision-refines :
      (p : Publisher Config) (revision : Revision Config) (active : Bool) (w : W)
      → IsValid p
      → let after = upsert_revision env p revision active w in
        ((after.1 ≡ p) × (after.0 ≢ none))
        ⊎ ((c : Option Config) × (clone_config env revision.config ≡ ok c)
            × (catalogue after.1
                ≡ put_entry (trim_space revision.revision_id) c active (catalogue p)))
  unfolding upsert_revision
  upsert_revision-refines p revision active w v =
      let id = trim_space revision.revision_id in
      elim (Bool-cases (str_eq id "")) [
        | inl e ↦ rw (upsert_revision, e) (inl (refl, λ h. cc))
        | inr named ↦
            elim (Result-cases (clone_revision env (record revision { revision_id = id }))) [
              | inr (_, e) ↦ rw (upsert_revision, named, e) (inl (refl, λ h. cc))
              | inl (r, e) ↦
                  rw (upsert_revision, named, e)
                    (inr (
                      r.config,
                      clone_revision-config _ r e,
                      saved-catalogue (put_revision p r active) w
                          ∙ rw (← clone_revision-id env _ r e)
                              (put_revision-catalogue p r active v),
                    ))
            ]
      ]
