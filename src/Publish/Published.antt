-- ===== src/Publish/Published.antt =====
-- `Publish`, `Rollback` and `UpdateConfig`: what they leave behind, and that it is a valid ledger.
use mathlib.Core.Path.{subst}
use ai_model_gateway.Base.{
  ℕ, ◌<◌, ◌≡◌, refl, sym, ap, ◌∙◌, String, true, false, inl, inr, Option, none, some, length,
  get_elem?, arith, Option-cases, if◌then◌else◌, Time, Result, ok, err, List, map_err, >>=-ok,
  Result-cases, ok_injective, get_elem?-lt,
}
use ai_model_gateway.Snapshot.{Snapshot}
use ai_model_gateway.Publish.{Revision, Kind, Publisher, PublishError, snapshot_codec, Environment}
use ai_model_gateway.Publish.Ledger.{find_revision, clone_snapshot}
use ai_model_gateway.Publish.Compiling.{compile_snapshot}
use ai_model_gateway.Publish.Releases.{
  PublishResult, published_meta, stage, send_snapshot, seal, seal_copy, publish_revision, release,
}
use ai_model_gateway.Publish.Generated.{generate_id}
use ai_model_gateway.Publish.Invariant.{
  IsSound, IsLimited, IsValid, ids, configs, find_from-some, length-map_id,
}
use ai_model_gateway.Publish.Kept.{
  Kept, Kept-IsValid, LeftAs, with_config, compile_snapshot-Recompiled,
}
use ai_model_gateway.Publish.Outcomes.{succeeded, Released, stage-Released}

module _ {Config : Type 0} where
  pub find_revision-held :
      (p : Publisher Config) (id : String) {i : ℕ} {rev : Revision Config}
      → find_revision p id ≡ some (i, rev)
      → get_elem? p.revisions i ≡ some rev
  find_revision-held p id {i = i} {rev = rev} e =
      let (k, at, held, _) = find_from-some 0 p.revisions id {j = i} {r = rev} e in
      let same : i ≡ k = omega arith in rw same held

  -- nothing happened, and an error is returned
  Released-unchanged :
      (p : Publisher Config) (i : ℕ) (id : String) (e : PublishError)
      → IsLimited p.policy p.publishes
      → Released p i id (configs p.revisions) (err e) p
  Released-unchanged p i id e l = record {
    same_ids = refl;
    left_configs = refl;
    activated = refl;
    limited = l;
    recorded = inl (refl, refl);
  }

  -- what was there before a compilation is what is there after it
  Released-Kept :
      (p p1 : Publisher Config) (i : ℕ) (id : String) (cs : List (String × Option Config))
      (result : Result PublishError PublishResult) (q : Publisher Config)
      → Kept p cs p1
      → Released p1 i id (configs p1.revisions) result q
      → Released p i id cs result q
  Released-Kept p p1 i id cs result q k r = record {
    same_ids = r.same_ids ∙ k.same_ids;
    left_configs = r.left_configs ∙ k.left_configs;
    activated = rw (← k.same_active) r.activated;
    limited = r.limited;
    recorded = rw (← k.same_publishes, ← k.same_policy) r.recorded;
  }

  in_range-IsSound :
      (p : Publisher Config) (i : ℕ)
      → IsSound (ids p) p.active
      → i < length p.revisions
      → IsSound (ids p) (some i)
  in_range-IsSound p i s h = record {
    distinct = s.distinct;
    named = s.named;
    in_range = λ j e. ground (arith, length-map_id p.revisions);
  }

  pub Released-IsValid :
      {p : Publisher Config} {i : ℕ} {id : String} {cs : List (String × Option Config)}
      {result : Result PublishError PublishResult} {q : Publisher Config}
      → IsValid p
      → i < length p.revisions
      → Released p i id cs result q
      → IsValid q
  Released-IsValid {p = p} {i = i} {result = result} v h r = record {
    sound =
        rw (r.same_ids, r.activated)
          (elim (succeeded result) as (λ b. IsSound (ids p) (if b then some i else p.active)) [
            | true ↦ in_range-IsSound p i v.sound h
            | false ↦ v.sound
          ]);
    limited = r.limited;
  }

module _ {W Config Fields : Type 0} (env : Environment W Config Fields) where
  seal_copy-id :
      (snapshot_id id : String) (t : Time) (copy : Option Snapshot) (sealed : Snapshot × String)
      → seal_copy env snapshot_id id t copy ≡ ok sealed
      → sealed.0.meta.revision_id ≡ id
  seal_copy-id snapshot_id id t none sealed h = cc
  seal_copy-id snapshot_id id t (some c) sealed h =
      let published : Snapshot = record c { meta = published_meta snapshot_id id t c.meta } in
      let (bytes, _, h1) = >>=-ok (map_err snapshot_codec (env.marshal_snapshot published)) _ h in
      sym (ap (λ (x : Snapshot × String). x.0.meta.revision_id) (ok_injective h1))

  seal-id :
      (s : Snapshot) (snapshot_id id : String) (t : Time) (sealed : Snapshot × String)
      → seal env s snapshot_id id t ≡ ok sealed
      → sealed.0.meta.revision_id ≡ id
  seal-id s snapshot_id id t sealed h =
      let (copy, _, h1) = >>=-ok (map_err snapshot_codec (clone_snapshot env (some s))) _ h in
      seal_copy-id snapshot_id id t copy sealed h1

  send_snapshot-Released :
      (p : Publisher Config) (i : ℕ) (id : String) (kind : Kind) (s : Snapshot) (w : W)
      → IsValid p
      → i < length p.revisions
      → let after = send_snapshot env p i id kind s w in
        Released p i id (configs p.revisions) after.0 after.1
  unfolding send_snapshot
  send_snapshot-Released p i id kind s w v h =
      let (snapshot_id, w1) = generate_id env "snap_" w in
      let (t, w2) = env.now w1 in
      elim (Result-cases (seal env s snapshot_id id t)) [
        | inr (e, bad) ↦ rw (send_snapshot, bad) (Released-unchanged p i id e v.limited)
        | inl (sealed, good) ↦
            rw (send_snapshot, good)
              (subst
                (λ n.
                  let after = stage env p i kind sealed.0 sealed.1 t w2 in
                  Released p i n (configs p.revisions) after.0 after.1)
                (seal-id s snapshot_id id t sealed good)
                (stage-Released env p i kind sealed.0 sealed.1 t w2 (in_range-IsSound p i v.sound h)
                  v.limited.positive))
      ]

  -- Publishing the revision at a place of a valid ledger keeps all names, and all configurations
  -- but the revision's own, which stays as it is or becomes what the compiler leaves of it. It makes
  -- the revision active after a success and changes the active place in no other case, and adds
  -- one record with the outcome, observed after a success and failed otherwise, before the oldest
  -- are trimmed, or adds none and does not succeed.
  pub publish_revision-Released :
      (p : Publisher Config) (i : ℕ) (rev : Revision Config) (kind : Kind) (w : W)
      → IsValid p
      → get_elem? p.revisions i ≡ some rev
      → let after = publish_revision env p i rev kind w in
        (left : Option Config) × LeftAs env rev.config left
        × Released p i rev.revision_id (with_config p i rev left) after.0 after.1
  unfolding publish_revision
  publish_revision-Released p i rev kind w v h =
      let (compiled, p1, w1) = compile_snapshot env p i rev w in
      let (left, source, k) = compile_snapshot-Recompiled env p i rev w h in
      let v1 : IsValid p1 = Kept-IsValid k v in
      (
        left,
        source,
        elim (Result-cases compiled) [
          | inr (e, bad) ↦
              rw (publish_revision, bad)
                (Released-Kept p p1 i rev.revision_id _ (err e) p1 k
                  (Released-unchanged p1 i rev.revision_id e v1.limited))
          | inl (s, good) ↦
              rw (publish_revision, good)
                (Released-Kept p p1 i rev.revision_id _ _ _ k (
                  send_snapshot-Released p1 i rev.revision_id kind s w1 v1 (
                    ground (
                      arith,
                      get_elem?-lt p.revisions i rev h,
                      length-map_id p.revisions,
                      length-map_id p1.revisions,
                      ap length k.same_ids,
                    ))))
        ],
      )

  -- `Publish` and `Rollback` keep the invariant.
  pub release-IsValid :
      (kind : Kind) (p : Publisher Config) (id : String) (w : W)
      → IsValid p
      → IsValid (release env kind p id w).1
  unfolding release
  release-IsValid kind p id w v = elim (Option-cases (find_revision p id)) [
    | inl e ↦ rw (release, e) v
    | inr ((i, rev), e) ↦
        let held : get_elem? p.revisions i ≡ some rev = find_revision-held p id e in
        let (_, _, released) = publish_revision-Released p i rev kind w v held in
        rw (release, e) (Released-IsValid v (get_elem?-lt p.revisions i rev held) released)
  ]
