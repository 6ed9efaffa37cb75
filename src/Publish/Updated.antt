-- ===== src/Publish/Updated.antt =====
-- `UpdateConfig` keeps the invariant, where the generated name is new.
use mathlib.Core.List.{Mem}
use mathlib.Core.Path.{subst}
use ai_model_gateway.Base.{
  ℕ, zero, suc, ◌≡◌, refl, sym, ap, ◌∙◌, String, inl, inr, Option, none, some, List, [], ◌∷◌, ◌++◌,
  length, get_elem?, take, arith, Option-cases, ok, err, Result-cases, length-append,
  get_elem?-append_right,
}
use ai_model_gateway.Snapshot.{Snapshot}
use ai_model_gateway.Publish.{Revision, publishing, Publisher, Compiler, ConfigInput, Environment}
use ai_model_gateway.Publish.Releases.{publish_revision}
use ai_model_gateway.Publish.Generated.{generate_id}
use ai_model_gateway.Publish.Updates.{
  add_and_publish, create_revision, update_config, as_core_config, checked, without_last,
}
use ai_model_gateway.Publish.Invariant.{
  Named, IsSound, IsValid, IsSound-append, ids, names, map-append_id, length-map_id,
}
use ai_model_gateway.Publish.Published.{Released-IsValid, publish_revision-Released}
use ai_model_gateway.Publish.Names.{generate_id-Named}

module _ {Config : Type 0} where
  abbrev pub with_last : Publisher Config → Revision Config → Publisher Config
  with_last p r = record p { revisions = p.revisions ++ r ∷ [] }

  names-take : (n : ℕ) (rs : List (Revision Config)) → names (take n rs) ≡ take n (names rs)
  names-take zero rs = refl
  names-take (suc n) [] = refl
  names-take (suc n) (r ∷ rs) = ap (λ l. r.revision_id ∷ l) (names-take n rs)

  pub with_last-IsValid :
      (p : Publisher Config) (r : Revision Config)
      → IsValid p
      → Named r.revision_id
      → (¬ Mem r.revision_id (ids p))
      → IsValid (with_last p r)
  with_last-IsValid p r v n new = record {
    sound =
        subst (λ l. IsSound l p.active) (sym (map-append_id p.revisions r))
          (IsSound-append (ids p) p.active p.active r.revision_id v.sound n new
            (λ i h. omega (arith, v.sound.in_range i h)));
    limited = v.limited;
  }

  pub with_last-held :
      (p : Publisher Config) (r : Revision Config)
      → get_elem? (with_last p r).revisions (length p.revisions) ≡ some r
  with_last-held p r =
      ap (get_elem? (p.revisions ++ r ∷ [])) (omega arith)
      ∙ get_elem?-append_right p.revisions (r ∷ []) 0

pub take-append {ℓ} : {A : Type ℓ} (xs ys : List A) → take (length xs) (xs ++ ys) ≡ xs
take-append [] ys = refl
take-append (x ∷ xs) ys = ap (λ l. x ∷ l) (take-append xs ys)

module _ {W Config Fields : Type 0} (env : Environment W Config Fields) where
  -- the names without the revision whose publishing failed are those from before
  pub without_last-ids :
      (p p1 : Publisher Config) (r : Revision Config)
      → ids p1 ≡ ids (with_last p r)
      → ids (without_last (length p.revisions) p1) ≡ ids p
  without_last-ids p p1 r same =
      names-take (length p.revisions) p1.revisions
      ∙ ap (take (length p.revisions)) (same ∙ map-append_id p.revisions r)
      ∙ ap (λ n. take n (ids p ++ r.revision_id ∷ [])) (sym (length-map_id p.revisions))
      ∙ take-append (ids p) (r.revision_id ∷ [])

  pub add_and_publish-IsValid :
      (p : Publisher Config) (r : Revision Config) (w : W)
      → IsValid p
      → Named r.revision_id
      → (¬ Mem r.revision_id (ids p))
      → IsValid (add_and_publish env p r w).1
  unfolding add_and_publish
  add_and_publish-IsValid p r w v n new =
      let place = length p.revisions in
      let added = with_last p r in
      let after = publish_revision env added place r publishing w in
      let v1 = with_last-IsValid p r v n new in
      let (_, _, out) =
        publish_revision-Released env added place r publishing w v1 (with_last-held p r) in
      elim (Result-cases after.0) [
        | inl (_, good) ↦
            rw (add_and_publish, good)
              (Released-IsValid v1 (omega (arith, length-append p.revisions (r ∷ []))) out)
        | inr (e, bad) ↦
            rw (add_and_publish, bad)
              (record {
                sound = rw (without_last-ids p after.1 r out.same_ids, out.activated, bad) v.sound;
                limited = out.limited;
              })
      ]

  create_revision-IsValid :
      (p : Publisher Config) (cfg : Config) (s : Option Snapshot) (description : String) (w : W)
      → IsValid p
      → (¬ Mem (generate_id env "rev_" w).0 (ids p))
      → IsValid (create_revision env p cfg s description w).1
  unfolding create_revision
  create_revision-IsValid p cfg s description w v new =
      add_and_publish-IsValid p _ _ v (generate_id-Named env w) new

  -- the world in which the name is generated
  abbrev pub after_checks : ConfigInput Config Fields → W → W
  after_checks input w = elim env.compiler [
    | none ↦ w
    | some c ↦ elim (as_core_config env input) [ err _ ↦ w | ok cfg ↦ (checked env c cfg w).1 ]
  ]

  after_checks_lem :
      (input : ConfigInput Config Fields) (w : W) (c : Compiler W Config) (cfg : Config)
      → env.compiler ≡ some c
      → as_core_config env input ≡ ok cfg
      → after_checks input w ≡ (checked env c cfg w).1
  after_checks_lem input w c cfg e good = rw (after_checks, e, good)

  -- `UpdateConfig` keeps the invariant, where the name that it generates is not in the ledger.
  pub update_config-IsValid :
      (p : Publisher Config) (input : ConfigInput Config Fields) (description : String) (w : W)
      → IsValid p
      → (¬ Mem (generate_id env "rev_" (after_checks input w)).0 (ids p))
      → IsValid (update_config env p input description w).1
  unfolding update_config
  update_config-IsValid p input description w v new = elim (Option-cases env.compiler) [
    | inl e ↦ rw (update_config, e) v
    | inr (c, e) ↦ elim (Result-cases (as_core_config env input)) [
      | inr (_, bad) ↦ rw (update_config, e, bad) v
      | inl (cfg, good) ↦ elim (Result-cases (checked env c cfg w).0) [
        | inr (_, wrong) ↦ rw (update_config, e, good, wrong) v
        | inl (s, right) ↦
            let world : after_checks input w ≡ (checked env c cfg w).1 =
              after_checks_lem input w c cfg e good in
            let fresh : ¬ Mem (generate_id env "rev_" (checked env c cfg w).1).0 (ids p) =
              subst (λ x. ¬ Mem (generate_id env "rev_" x).0 (ids p)) world new in
            rw (update_config, e, good, right)
              (create_revision-IsValid p (c.leaves cfg) s description (checked env c cfg w).1 v
                fresh)
      ]
    ]
  ]
