-- ===== src/Publish/Edits.antt =====
-- publisher.go: `UpsertRevision`, `ReplaceRevisions`, `LoadState` and `restoreStateLocked`.
use ai_model_gateway.Base.{
  ℕ, suc, String, Bool, true, false, Option, none, some, List, [], ◌∷◌, ◌++◌, length, set, any,
  if◌then◌else◌, str_eq, trim_space, Result, ok, err, ◌>>=◌, map_err,
}
use ai_model_gateway.Publish.{
  Revision, Publisher, PublishError, revision_id_required, duplicate_revision_id, active_not_found,
  at_revision, store_failed, StoredRevision, PublisherState, Environment,
}
use ai_model_gateway.Publish.Ledger.{
  find_revision, active_revision, trim_publishes, sync_policy, clone_revision,
  unmarshal_stored_revision, persist_state,
}

-- an error, the publisher and the world after a call
abbrev pub Changed : Type 0 → Type 0 → Type 0
Changed Config W = Option PublishError × Publisher Config × W

abbrev blank : String → Bool
blank s = str_eq (trim_space s) ""

-- the checks on the name at place `i`, after the names seen
unfoldable pub check_name : ℕ → List String → String → Result PublishError (Unit {0})
check_name i seen id =
    if str_eq id ""
    then err (at_revision i (revision_id_required ""))
    else if any (str_eq id) seen
    then err (at_revision i (duplicate_revision_id id))
    else ok tt

abbrev pub place_of : String → ℕ → String → Option ℕ → Option ℕ
place_of want i id active = if str_eq id want then some i else active

module _ {Config : Type 0} where
  -- the ledger with a revision in place of that of its name, or at the end
  unfoldable pub put_revision : Publisher Config → Revision Config → Bool → Publisher Config
  put_revision p r activate =
      let found = find_revision p r.revision_id in
      let place : ℕ = elim found [ none ↦ length p.revisions | some f ↦ f.0 ] in
      record p {
        revisions = elim found [ none ↦ p.revisions ++ r ∷ [] | some f ↦ set p.revisions f.0 r ];
        active = if activate then some place else p.active;
      }

  abbrev pub wanted : Publisher Config → String → String
  wanted p id =
      if blank id then elim (active_revision p) [ none ↦ id | some r ↦ r.revision_id ] else id

  -- the place, unless a name was asked for that is not there
  abbrev pub require_active :
      String
      → List (Revision Config) × Option ℕ
      → Result PublishError (List (Revision Config) × Option ℕ)
  require_active want (rs, some i) = ok (rs, some i)
  require_active want (rs, none) = if blank want then ok (rs, none) else err (active_not_found want)

module _ {W Config Fields : Type 0} (env : Environment W Config Fields) where
  unfoldable pub saved : Publisher Config → W → Changed Config W
  saved p w =
      let p1 = sync_policy env p in let (error, w1) = persist_state env p1 w in (error, p1, w1)

  unfoldable pub upsert_revision : Publisher Config → Revision Config → Bool → W → Changed Config W
  upsert_revision p revision activate w =
      let id = trim_space revision.revision_id in
      if str_eq id ""
      then (some (revision_id_required ""), p, w)
      else elim (clone_revision env (record revision { revision_id = id })) [
        | err e ↦ (some e, p, w)
        | ok cloned ↦ saved (put_revision p cloned activate) w
      ]

  -- the checked copies of the revisions from place `i`, and the place of the active one
  unfoldable pub clone_all :
      String
      → ℕ
      → List String
      → Option ℕ
      → List (Revision Config)
      → Result PublishError (List (Revision Config) × Option ℕ)
  clone_all want i seen active [] = ok ([], active)
  clone_all want i seen active (r ∷ rs) = do
    let id = trim_space r.revision_id
    _ ← check_name i seen id
    c ← map_err (at_revision i) (clone_revision env (record r { revision_id = id }))
    cs ← clone_all want (suc i) (id ∷ seen) (place_of want i id active) rs
    ok (c ∷ cs.0, cs.1)

  unfoldable pub replace_revisions :
      Publisher Config → List (Revision Config) → String → W → Changed Config W
  replace_revisions p revisions active_revision_id w =
      let want = wanted p active_revision_id in
      elim (clone_all want 0 [] none revisions >>= require_active want) [
        | err e ↦ (some e, p, w)
        | ok (rs, active) ↦ saved (record p { revisions = rs; active = active }) w
      ]

  unfoldable pub restore_all :
      String
      → ℕ
      → List String
      → Option ℕ
      → List StoredRevision
      → Result PublishError (List (Revision Config) × Option ℕ)
  restore_all want i seen active [] = ok ([], active)
  restore_all want i seen active (stored ∷ rest) = do
    r ← map_err (at_revision i) (unmarshal_stored_revision env stored)
    _ ← check_name i seen r.revision_id
    rs ← restore_all want (suc i) (r.revision_id ∷ seen) (place_of want i r.revision_id active) rest
    ok (r ∷ rs.0, rs.1)

  unfoldable pub restore_state :
      Publisher Config → PublisherState → Result PublishError (Publisher Config)
  restore_state p state = do
    let want = trim_space state.active_revision_id
    restored ← restore_all want 0 [] none state.revisions >>= require_active want
    let p1 = sync_policy env (record p { revisions = restored.0; active = restored.1 })
    ok (trim_publishes (record p1 { publishes = state.publishes }))

  unfoldable pub load_state : Publisher Config → W → Result PublishError Bool × Publisher Config × W
  load_state p w = elim env.state_store [
    | none ↦ (ok false, p, w)
    | some store ↦
        let (loaded, w1) = store.load w in
        elim loaded [
          | err e ↦ (err (store_failed e), p, w1)
          | ok none ↦ (ok false, p, w1)
          | ok (some state) ↦ elim (restore_state p state) [
            | err e ↦ (err e, p, w1)
            | ok p1 ↦ (ok true, p1, w1)
          ]
        ]
  ]
