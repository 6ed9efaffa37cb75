-- ===== src/Publish/Created.antt =====
-- The publishing of a new revision, as its clients see it.
use mathlib.Core.List.{Mem, mem-cons_self, mem-cons_of_mem}
use mathlib.Core.Path.{subst}
use ai_model_gateway.Base.{
  ℕ, zero, suc, ◌+◌, set, arith, if◌then◌else◌, ◌≡◌, refl, sym, ap, ◌∙◌, String, Bool, false,
  Option, none, some, List, [], ◌∷◌, ◌++◌, length, take, Bool-cases, inl, inr, eq_iff, str_eq,
  Result, ok, err, Result-cases,
}
use ai_model_gateway.Snapshot.{Snapshot}
use ai_model_gateway.Publish.{Revision, publishing, Publisher, PublishError, Environment}
use ai_model_gateway.Publish.Ledger.{find_from, find_revision}
use ai_model_gateway.Publish.Edits.{put_revision}
use ai_model_gateway.Publish.Generated.{generate_id}
use ai_model_gateway.Publish.Releases.{PublishResult, publish_revision}
use ai_model_gateway.Publish.Updates.{without_last, add_and_publish, create_revision}
use ai_model_gateway.Publish.Invariant.{Named, IsValid, ids, names, configs, named_config}
use ai_model_gateway.Publish.Kept.{LeftAs}
use ai_model_gateway.Publish.Published.{publish_revision-Released}
use ai_model_gateway.Publish.Names.{generate_id-Named}
use ai_model_gateway.Publish.Updated.{
  with_last, with_last-IsValid, with_last-held, without_last-ids, take-append,
}
use ai_model_gateway.Publish.Catalogue.{
  Catalogue, catalogue, catalogue_of, put_entry, entry_in, put_revision-catalogue,
  entry_in-with_config, Released-catalogue,
}

i_plus : (i : ℕ) → i ≡ i + 0
i_plus i = omega arith

shift : (i n : ℕ) → suc i + n ≡ i + suc n
shift i n = omega arith

entry_twice :
    {Config : Type 0} (id other : String) (config left : Option Config) (c : Option (Option Config))
    → (if str_eq id other then some left else if str_eq id other then some config else c)
      ≡ (if str_eq id other then some left else c)
entry_twice id other config left c = ground arith

module _ {Config : Type 0} where
  find_from-new :
      (i : ℕ) (rs : List (Revision Config)) (id : String)
      → (¬ Mem id (names rs))
      → find_from i rs id ≡ none
  unfolding find_from
  find_from-new i [] id new = refl
  find_from-new i (r ∷ rs) id new = elim (Bool-cases (str_eq r.revision_id id)) [
    | inl e ↦
        absurd
          (new (subst (λ x. Mem x (names (r ∷ rs))) ((eq_iff r.revision_id id).0 e) mem-cons_self))
    | inr e ↦ rw (find_from, e) (find_from-new (suc i) rs id (λ m. new (mem-cons_of_mem _ m)))
  ]

  with_last-catalogue :
      (p : Publisher Config) (r : Revision Config)
      → IsValid p
      → (¬ Mem r.revision_id (ids p))
      → catalogue (with_last p r) ≡ put_entry r.revision_id r.config false (catalogue p)
  unfolding put_revision
  with_last-catalogue p r v new =
      rw (put_revision, find_from-new 0 p.revisions r.revision_id new) at
        (put_revision-catalogue p r false v)

  find_from-last :
      (i : ℕ) (rs : List (Revision Config)) (r : Revision Config)
      → (¬ Mem r.revision_id (names rs))
      → find_from i (rs ++ r ∷ []) r.revision_id ≡ some (i + length rs, r)
  unfolding find_from
  find_from-last i [] r new =
      rw (find_from, (eq_iff r.revision_id r.revision_id).1 refl)
        (ap {B = Option (ℕ × Revision Config)} (λ j. some (j, r)) (i_plus i))
  find_from-last i (s ∷ rs) r new = elim (Bool-cases (str_eq s.revision_id r.revision_id)) [
    | inl e ↦ absurd (
        new (
          subst (λ x. Mem x (names (s ∷ rs))) ((eq_iff s.revision_id r.revision_id).0 e)
            mem-cons_self))
    | inr e ↦
        rw (find_from, e)
          (find_from-last (suc i) rs r (λ m. new (mem-cons_of_mem _ m))
            ∙ ap (λ j. some (j, r)) (shift i (length rs)))
  ]

  -- the configuration that was put last
  put_entry_twice :
      (id : String) (config left : Option Config) (b : Bool) (c : Catalogue Config)
      → put_entry id left b (put_entry id config false c) ≡ put_entry id left b c
  put_entry_twice id config left b c = λ k. record {
    entries = λ other. entry_twice id other config left (c.entries other) k;
    current = if b then some id else c.current;
  }

  take-set :
      (xs : List (String × Option Config)) (n : ℕ) (x : String × Option Config)
      → take n (set xs n x) ≡ take n xs
  take-set [] n x = refl
  take-set (y ∷ ys) zero x = refl
  take-set (y ∷ ys) (suc n) x = ap (λ l. y ∷ l) (take-set ys n x)

  configs-take : (n : ℕ) (rs : List (Revision Config)) → configs (take n rs) ≡ take n (configs rs)
  configs-take zero rs = refl
  configs-take (suc n) [] = refl
  configs-take (suc n) (r ∷ rs) = ap (λ l. named_config r ∷ l) (configs-take n rs)

  configs-append :
      (rs : List (Revision Config)) (r : Revision Config)
      → configs (rs ++ r ∷ []) ≡ configs rs ++ named_config r ∷ []
  configs-append [] r = refl
  configs-append (s ∷ rs) r = ap (λ l. named_config s ∷ l) (configs-append rs r)

  length-configs : (rs : List (Revision Config)) → length (configs rs) ≡ length rs
  length-configs [] = refl
  length-configs (r ∷ rs) = ap suc (length-configs rs)

  without_last-configs :
      (p p1 : Publisher Config) (r : Revision Config) (x : String × Option Config)
      → configs p1.revisions ≡ set (configs (with_last p r).revisions) (length p.revisions) x
      → configs (without_last (length p.revisions) p1).revisions ≡ configs p.revisions
  without_last-configs p p1 r x same =
      configs-take (length p.revisions) p1.revisions
      ∙ ap (take (length p.revisions)) same
      ∙ take-set (configs (p.revisions ++ r ∷ [])) (length p.revisions) x
      ∙ ap (take (length p.revisions)) (configs-append p.revisions r)
      ∙ ap (λ n. take n (configs p.revisions ++ named_config r ∷ []))
          (sym (length-configs p.revisions))
      ∙ take-append (configs p.revisions) (named_config r ∷ [])

  -- the catalogue after a new entry was published with a result
  abbrev pub after_publish :
      String
      → Option Config
      → Result PublishError PublishResult
      → Catalogue Config
      → Catalogue Config
  after_publish id config (err e) c = c
  after_publish id config (ok r) c = put_entry id config r.success c

module _ {W Config Fields : Type 0} (env : Environment W Config Fields) where
  -- what adding a revision and publishing it does to the catalogue
  abbrev pub Added :
      String
      → Option Config
      → Result PublishError PublishResult
      → Catalogue Config
      → Catalogue Config
      → Type 0
  Added id config result before after =
      (left : Option Config) × LeftAs env config left
      × (after ≡ after_publish id left result before)

  add_and_publish-catalogue :
      (p : Publisher Config) (r : Revision Config) (w : W)
      → IsValid p
      → Named r.revision_id
      → (¬ Mem r.revision_id (ids p))
      → let after = add_and_publish env p r w in
        Added r.revision_id r.config after.0 (catalogue p) (catalogue after.1)
  unfolding add_and_publish
  add_and_publish-catalogue p r w v n new =
      let added = with_last p r in
      let place = length p.revisions in
      let after = publish_revision env added place r publishing w in
      let v1 = with_last-IsValid p r v n new in
      let (left, source, out) =
        publish_revision-Released env added place r publishing w v1 (with_last-held p r) in
      let found : find_revision added r.revision_id ≡ some (place, r) =
        find_from-last 0 p.revisions r new ∙ ap (λ j. some (j, r)) (omega arith) in
      let released =
        Released-catalogue added after.1 place r _ _ after.0 (with_last-held p r)
          (entry_in-with_config added place r left found) out in
      (
        left,
        source,
        elim (Result-cases after.0) [
          | inl (result, good) ↦
              rw (add_and_publish, good)
                (rw good at released
                  ∙ ap (put_entry r.revision_id left result.success) (with_last-catalogue p r v new)
                  ∙ put_entry_twice r.revision_id r.config left result.success (catalogue p))
          | inr (e, bad) ↦
              rw (add_and_publish, bad)
                (catalogue_of (without_last place after.1) _ _
                  (λ id.
                    ap (λ cs. entry_in cs id) (without_last-configs p after.1 r _ out.left_configs))
                  (rw (without_last-ids env p after.1 r out.same_ids, out.activated, bad)))
        ],
      )

  -- Once `UpdateConfig` has checked a configuration, it implements putting it into the catalogue
  -- under the generated name, active if publishing succeeds, as it is or as the compiler leaves
  -- it; where it returns an error, the catalogue is as it was. The ledger is valid and does not
  -- have the generated name.
  pub create_revision-refines :
      (p : Publisher Config) (cfg : Config) (s : Option Snapshot) (description : String) (w : W)
      → IsValid p
      → (¬ Mem (generate_id env "rev_" w).0 (ids p))
      → let after = create_revision env p cfg s description w in
        Added (generate_id env "rev_" w).0 (some cfg) after.0 (catalogue p) (catalogue after.1)
  unfolding create_revision
  create_revision-refines p cfg s description w v new =
      add_and_publish-catalogue p _ _ v (generate_id-Named env w) new
