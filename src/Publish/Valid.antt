-- ===== src/Publish/Valid.antt =====
-- The edits keep the invariant of the ledger.
use mathlib.Core.Path.{subst}
use ai_model_gateway.Base.{
  ℕ, suc, ◌≡◌, refl, sym, ap, ◌∙◌, String, Bool, Option, none, some, List, [], ◌∷◌, length, arith,
  Bool-cases, Option-cases, inl, inr, eq_iff, str_eq, trim_space, trim_space_twice, if◌then◌else◌,
  ok, ◌>>=◌, map_err, map_err-ok, >>=-ok, Result-cases, ok_injective, get_elem?-lt,
}
use ai_model_gateway.Publish.{
  StoredRevision, Revision, Publisher, config_codec, snapshot_codec, at_revision, created_at_codec,
  PublisherState, Environment,
}
use ai_model_gateway.Publish.Ledger.{
  find_revision, sync_policy, unmarshal_stored_revision, stored_time, stored_config,
  unmarshal_payload, clone_config, clone_snapshot, clone_revision,
}
use ai_model_gateway.Publish.Edits.{
  require_active, wanted, replace_revisions, restore_state, load_state, check_name, clone_all,
  restore_all, put_revision, saved, upsert_revision,
}
use ai_model_gateway.Publish.Invariant.{
  Named, IsSound, IsLimited, IsValid, ids, names, find_from-some, find_from-none, ids-set,
  map-append_id, length-map_id, IsSound-append, trim_publishes-IsValid, sync_policy-IsValid,
}
use ai_model_gateway.Publish.Built.{
  check_name-fine, place_of-cases, IsBuilt, IsBuilt-nil, IsBuilt-cons,
}

module _ {Config : Type 0} where
  put_revision-IsSound :
      (p : Publisher Config) (r : Revision Config) (activate : Bool)
      → IsSound (ids p) p.active
      → Named r.revision_id
      → IsSound (ids (put_revision p r activate)) (put_revision p r activate).active
  unfolding put_revision
  put_revision-IsSound p r activate s n = elim (Option-cases (find_revision p r.revision_id)) [
    | inl e ↦
        rw (put_revision, e)
          (subst (λ l. IsSound l (if activate then some (length p.revisions) else p.active))
            (sym (map-append_id p.revisions r))
            (IsSound-append (ids p) p.active _ r.revision_id s n
              (find_from-none 0 p.revisions r.revision_id e)
              (λ j h. ground (arith, s.in_range j, length-map_id p.revisions))))
    | inr ((i, old), e) ↦
        let (k, at, held, name) = find_from-some 0 p.revisions r.revision_id {j = i} {r = old} e in
        let same : i ≡ k = omega arith in
        rw (put_revision, e)
          (subst (λ l. IsSound l (if activate then some i else p.active))
            (sym (ids-set p.revisions i r old (rw same held) name))
            (record {
              distinct = s.distinct;
              named = s.named;
              in_range = λ j h. ground (
                arith,
                s.in_range j,
                length-map_id p.revisions,
                get_elem?-lt p.revisions k old held,
              );
            }))
  ]

module _ {W Config Fields : Type 0} (env : Environment W Config Fields) where
  pub clone_revision-id :
      (r r' : Revision Config) → clone_revision env r ≡ ok r' → r'.revision_id ≡ r.revision_id
  unfolding clone_revision
  clone_revision-id r r' h =
      let (c, _, h1) = >>=-ok (map_err config_codec (clone_config env r.config)) _ h in
      let (s, _, h2) = >>=-ok (map_err snapshot_codec (clone_snapshot env r.snapshot)) _ h1 in
      let same : record r { config = c; snapshot = s } ≡ r' = cc in
      sym (ap (λ (t : Revision Config). t.revision_id) same)

  unmarshal_stored_revision-id :
      (stored : StoredRevision) (r : Revision Config)
      → unmarshal_stored_revision env stored ≡ ok r
      → r.revision_id ≡ trim_space stored.revision_id
  unfolding unmarshal_stored_revision
  unmarshal_stored_revision-id stored r h =
      let (_, _, h1) = >>=-ok (map_err created_at_codec (stored_time env stored.created_at)) _ h in
      let (_, _, h2) =
        >>=-ok (map_err config_codec (unmarshal_payload env (stored_config env) stored.config_yaml))
          _ h1 in
      let (_, _, h3) =
        >>=-ok
          (map_err snapshot_codec
            (unmarshal_payload env env.unmarshal_snapshot stored.snapshot_yaml))
          _ h2 in
      sym (ap (λ (t : Revision Config). t.revision_id) (ok_injective h3))

  saved-IsValid :
      (p : Publisher Config) (w : W)
      → IsSound (ids p) p.active
      → IsLimited p.policy p.publishes
      → IsValid (saved env p w).1
  unfolding saved
  saved-IsValid p w s l = sync_policy-IsValid env p s l

  -- `UpsertRevision` keeps the invariant.
  pub upsert_revision-IsValid :
      (p : Publisher Config) (revision : Revision Config) (activate : Bool) (w : W)
      → IsValid p
      → IsValid (upsert_revision env p revision activate w).1
  unfolding upsert_revision put_revision
  upsert_revision-IsValid p revision activate w v =
      let id = trim_space revision.revision_id in
      elim (Bool-cases (str_eq id "")) [
        | inl e ↦ rw (upsert_revision, e) v
        | inr named ↦
            elim (Result-cases (clone_revision env (record revision { revision_id = id }))) [
              | inr (_, e) ↦ rw (upsert_revision, named, e) v
              | inl (cloned, e) ↦
                  rw (upsert_revision, named, e)
                    (saved-IsValid (put_revision p cloned activate) w
                      (put_revision-IsSound p cloned activate v.sound (
                        subst Named (sym (clone_revision-id _ cloned e))
                          (trim_space_twice revision.revision_id, ground (arith, eq_iff id ""))))
                      v.limited)
            ]
      ]

  clone_all-IsBuilt :
      (want : String) (i : ℕ) (seen : List String) (before : Option ℕ) (rs : List (Revision Config))
      {built : List (Revision Config) × Option ℕ}
      → clone_all env want i seen before rs ≡ ok built
      → IsBuilt i seen before built
  unfolding clone_all
  clone_all-IsBuilt want i seen before [] h =
      subst (IsBuilt i seen before) (ok_injective h) (IsBuilt-nil i seen before)
  clone_all-IsBuilt want i seen before (r ∷ rs) h =
      let id = trim_space r.revision_id in
      let (_, fine, h1) = >>=-ok (check_name i seen id) _ h in
      let (c, cloned, h2) =
        >>=-ok (map_err (at_revision i) (clone_revision env (record r { revision_id = id }))) _
          h1 in
      let (cs, rest, h3) = >>=-ok (clone_all env want (suc i) (id ∷ seen) _ rs) _ h2 in
      let (named, fresh) = check_name-fine i seen id fine in
      subst (IsBuilt i seen before) (ok_injective h3) (
        IsBuilt-cons i id seen before _ c cs
          (clone_revision-id _ c (map_err-ok (at_revision i) _ cloned))
          (trim_space_twice r.revision_id, named) fresh (place_of-cases want i id before)
          (clone_all-IsBuilt want (suc i) (id ∷ seen) _ rs rest))

  restore_all-IsBuilt :
      (want : String) (i : ℕ) (seen : List String) (before : Option ℕ) (rs : List StoredRevision)
      {built : List (Revision Config) × Option ℕ}
      → restore_all env want i seen before rs ≡ ok built
      → IsBuilt i seen before built
  unfolding restore_all
  restore_all-IsBuilt want i seen before [] h =
      subst (IsBuilt i seen before) (ok_injective h) (IsBuilt-nil i seen before)
  restore_all-IsBuilt want i seen before (stored ∷ rs) h =
      let (r, read, h1) =
        >>=-ok (map_err (at_revision i) (unmarshal_stored_revision env stored)) _ h in
      let (_, fine, h2) = >>=-ok (check_name i seen r.revision_id) _ h1 in
      let (cs, rest, h3) = >>=-ok (restore_all env want (suc i) (r.revision_id ∷ seen) _ rs) _ h2 in
      let (named, fresh) = check_name-fine i seen r.revision_id fine in
      let trimmed = unmarshal_stored_revision-id stored r (map_err-ok (at_revision i) _ read) in
      subst (IsBuilt i seen before) (ok_injective h3) (
        IsBuilt-cons i r.revision_id seen before _ r cs refl
          (ap trim_space trimmed ∙ trim_space_twice stored.revision_id ∙ sym trimmed, named) fresh
          (place_of-cases want i r.revision_id before)
          (restore_all-IsBuilt want (suc i) (r.revision_id ∷ seen) _ rs rest))

  require_active-same :
      (want : String) (built : List (Revision Config) × Option ℕ)
      {out : List (Revision Config) × Option ℕ}
      → require_active want built ≡ ok out
      → built ≡ out
  require_active-same want (rs, some i) h = ok_injective h
  require_active-same want (rs, none) h = ground arith

  IsBuilt-IsSound :
      (built : List (Revision Config) × Option ℕ)
      → IsBuilt 0 [] none built
      → IsSound (names built.0) built.1
  IsBuilt-IsSound built b = record {
    distinct = b.distinct;
    named = b.named;
    in_range = λ i h. ground (arith, b.place i h, length-map_id built.0);
  }

  -- `ReplaceRevisions` keeps the invariant.
  pub replace_revisions-IsValid :
      (p : Publisher Config) (rs : List (Revision Config)) (id : String) (w : W)
      → IsValid p
      → IsValid (replace_revisions env p rs id w).1
  unfolding replace_revisions
  replace_revisions-IsValid p rs id w v =
      let want = wanted p id in
      let built = clone_all env want 0 [] none rs in
      elim (Result-cases (built >>= require_active want)) [
        | inr (_, e) ↦ rw (replace_revisions, e) v
        | inl (out, e) ↦
            let (b, cloned, e1) = >>=-ok built _ e in
            let sound = IsBuilt-IsSound b (clone_all-IsBuilt want 0 [] none rs cloned) in
            rw (replace_revisions, e)
              (saved-IsValid (record p { revisions = out.0; active = out.1 }) w
                (subst (λ (o : List (Revision Config) × Option ℕ). IsSound (names o.0) o.1)
                  (require_active-same want b e1) sound)
                v.limited)
      ]

  -- a restored state is a valid ledger, whatever was stored
  restore_state-IsValid :
      (p : Publisher Config) (state : PublisherState) {p1 : Publisher Config}
      → IsValid p
      → restore_state env p state ≡ ok p1
      → IsValid p1
  unfolding restore_state
  restore_state-IsValid p state v h =
      let want = trim_space state.active_revision_id in
      let built = restore_all env want 0 [] none state.revisions in
      let (out, e, h1) = >>=-ok (built >>= require_active want) _ h in
      let (b, read, e1) = >>=-ok built _ e in
      let sound = IsBuilt-IsSound b (restore_all-IsBuilt want 0 [] none state.revisions read) in
      let p0 = record p { revisions = out.0; active = out.1 } in
      let synced =
        sync_policy-IsValid env p0
          (subst (λ (o : List (Revision Config) × Option ℕ). IsSound (names o.0) o.1)
            (require_active-same want b e1) sound)
          v.limited in
      subst IsValid (ok_injective h1) (
        trim_publishes-IsValid (record (sync_policy env p0) { publishes = state.publishes })
          synced.sound synced.limited.positive)

  -- `LoadState` keeps the invariant.
  pub load_state-IsValid :
      (p : Publisher Config) (w : W) → IsValid p → IsValid (load_state env p w).1
  unfolding load_state
  load_state-IsValid p w v = elim (Option-cases env.state_store) [
    | inl e ↦ rw (load_state, e) v
    | inr (store, e) ↦ elim (Result-cases (store.load w).0) [
      | inr (_, failed) ↦ rw (load_state, e, failed) v
      | inl (loaded, read) ↦ elim (Option-cases loaded) [
        | inl none_there ↦ rw (load_state, e, read, none_there) v
        | inr (state, there) ↦ elim (Result-cases (restore_state env p state)) [
          | inr (_, bad) ↦ rw (load_state, e, read, there, bad) v
          | inl (p1, good) ↦
              rw (load_state, e, read, there, good) (restore_state-IsValid p state v good)
        ]
      ]
    ]
  ]
