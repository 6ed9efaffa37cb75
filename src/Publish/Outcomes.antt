-- ===== src/Publish/Outcomes.antt =====
-- What a publishing leaves behind: the active revision, the publish records, the names.
use ai_model_gateway.Base.{
  ℕ, zero, suc, ◌+◌, ◌-◌, ◌≤◌, ◌≡◌, refl, sym, ap, ◌∙◌, ℤ, String, Bool, true, false, ◌⊎◌, inl, inr,
  Option, some, List, [], ◌∷◌, ◌++◌, length, drop, pos, negsuc, leb, max_zero, is_pos, arith,
  Bool-cases, Option-cases, if◌then◌else◌, Time, Result, ok, err, Result-cases, length-append,
}
use ai_model_gateway.Snapshot.{Snapshot}
use ai_model_gateway.Publish.{
  Kind, Status, staged, observed, failed, PublishRecord, Publisher, PublishError, Environment,
  ApplySnapshotRequest,
}
use ai_model_gateway.Publish.Ledger.{retained, sync_policy, active_config, persist_state}
use ai_model_gateway.Publish.Releases.{
  PublishResult, update_last, update_last_publish, mark_failed, mark_observed, settle_failed,
  settle_observed, deliver, stage, stage_record,
}
use ai_model_gateway.Publish.Generated.{generate_id}
use ai_model_gateway.Publish.Invariant.{
  IsSound, IsLimited, ids, names, configs, sync_policy-revisions, sync_policy-active,
  sync_policy-IsValid, retained-within,
}
use ai_model_gateway.Publish.Kept.{length-update_last}

abbrev pub succeeded : Result PublishError PublishResult → Bool
succeeded (ok r) = r.success
succeeded (err e) = false

abbrev pub limit_of : {Config : Type 0} → Publisher Config → ℤ
limit_of p = p.policy.publish_history_limit

-- the status of the record of a publishing that has ended
abbrev pub settled_as : Bool → Status
settled_as success = if success then observed else failed

retained_within :
    (limit : ℤ) (xs : List PublishRecord) → length xs ≤ max_zero limit → retained limit xs ≡ xs
unfolding retained
retained_within limit xs h = ground arith

update_last-append :
    (f : PublishRecord → PublishRecord) (xs : List PublishRecord) (x : PublishRecord)
    → update_last f (xs ++ x ∷ []) ≡ xs ++ f x ∷ []
unfolding update_last
update_last-append f [] x = refl
update_last-append f (y ∷ []) x = refl
update_last-append f (y ∷ z ∷ xs) x = ap (λ l. y ∷ l) (update_last-append f (z ∷ xs) x)

drop-append_one :
    (n : ℕ) (xs : List PublishRecord) (x : PublishRecord)
    → n ≤ length xs
    → drop n (xs ++ x ∷ []) ≡ drop n xs ++ x ∷ []
drop-append_one zero xs x h = refl
drop-append_one (suc n) [] x h = absurd (omega arith)
drop-append_one (suc n) (y ∷ xs) x h = drop-append_one n xs x (omega arith)

is_pos-max_zero : (limit : ℤ) → is_pos limit ≡ true → 1 ≤ max_zero limit
is_pos-max_zero (pos zero) h = cc
is_pos-max_zero (pos (suc n)) h = omega arith
is_pos-max_zero (negsuc n) h = cc

-- the records that a new one leaves
abbrev older : ℤ → List PublishRecord → List PublishRecord
older limit xs =
    if leb (length xs + 1) (max_zero limit) then xs else drop (length xs + 1 - max_zero limit) xs

retained-append :
    (limit : ℤ) (xs : List PublishRecord) (x : PublishRecord)
    → is_pos limit ≡ true
    → retained limit (xs ++ x ∷ []) ≡ older limit xs ++ x ∷ []
unfolding retained
retained-append limit xs x h = ground (
  arith,
  is_pos-max_zero limit h,
  length-append xs (x ∷ []),
  drop-append_one (length xs + 1 - max_zero limit) xs x,
)

-- the last record is always retained, so that marking it and trimming commute
update_last-retained :
    (f : PublishRecord → PublishRecord) (limit : ℤ) (xs : List PublishRecord) (x : PublishRecord)
    → is_pos limit ≡ true
    → update_last f (retained limit (xs ++ x ∷ [])) ≡ retained limit (xs ++ f x ∷ [])
update_last-retained f limit xs x h =
    ap (update_last f) (retained-append limit xs x h)
    ∙ update_last-append f (older limit xs) x
    ∙ sym (retained-append limit xs (f x) h)

-- What a publishing of the revision `id` at place `i` does to the publisher: the names stay, the
-- configurations are `cs`, the revision is active after a success only, and either nothing was
-- recorded or one record of its outcome was added and the oldest were trimmed.
pub record Released {Config : Type 0} (p : Publisher Config) (i : ℕ) (id : String)
    (cs : List (String × Option Config)) (result : Result PublishError PublishResult)
    (q : Publisher Config) : Type 0 where
  pub same_ids : ids q ≡ ids p
  pub left_configs : configs q.revisions ≡ cs
  pub activated : q.active ≡ (if succeeded result then some i else p.active)
  pub limited : IsLimited q.policy q.publishes
  pub recorded :
      ((q.publishes ≡ p.publishes) × (succeeded result ≡ false))
      ⊎ ((r : PublishRecord) × (q.publishes
            ≡ retained (limit_of q) (retained (limit_of p) (p.publishes ++ r ∷ [])))
          × (r.status ≡ settled_as (succeeded result))
          × (r.revision_id ≡ id))

-- what the delivery of a staged publishing does to the publisher
pub record Delivered {Config : Type 0} (p : Publisher Config) (i : ℕ)
    (result : Result PublishError PublishResult) (q : Publisher Config) : Type 0 where
  pub same_revisions : q.revisions ≡ p.revisions
  pub activated : q.active ≡ (if succeeded result then some i else p.active)
  pub limited : IsLimited q.policy q.publishes
  pub mark : PublishRecord → PublishRecord
  pub marked : q.publishes ≡ retained (limit_of q) (update_last mark p.publishes)
  pub settled : (r : PublishRecord) → (mark r).status ≡ settled_as (succeeded result)
  pub about : (r : PublishRecord) → (mark r).revision_id ≡ r.revision_id

module _ {W Config Fields : Type 0} (env : Environment W Config Fields) where
  sync_policy-publishes :
      (p : Publisher Config)
      → IsLimited p.policy p.publishes
      → (sync_policy env p).publishes ≡ retained (limit_of (sync_policy env p)) p.publishes
  unfolding sync_policy
  sync_policy-publishes p l = elim (Option-cases (active_config env p)) [
    | inl e ↦ rw (sync_policy, e) (sym (retained_within _ _ l.within))
    | inr (c, e) ↦ rw (sync_policy, e)
  ]

  marked-IsLimited :
      (p : Publisher Config) (f : PublishRecord → PublishRecord)
      → IsLimited p.policy p.publishes
      → IsLimited p.policy (update_last f p.publishes)
  marked-IsLimited p f l = record {
    positive = l.positive;
    within = rw (length-update_last f p.publishes) l.within;
  }

  settle_failed-Delivered :
      (p : Publisher Config) (i : ℕ) (message : String) (w : W)
      (result : Result PublishError PublishResult)
      → succeeded result ≡ false
      → IsLimited p.policy p.publishes
      → Delivered p i result (settle_failed env message p w).0
  unfolding settle_failed update_last_publish
  settle_failed-Delivered p i message w result refuses l =
      let after = marked-IsLimited p (mark_failed message) l in
      record {
        same_revisions = refl;
        activated = rw refuses;
        limited = after;
        mark = mark_failed message;
        marked = sym (retained_within _ _ after.within);
        settled = λ r. rw refuses;
        about = λ r. refl;
      }

  settle_observed-Delivered :
      (p : Publisher Config) (i : ℕ) (w : W) (result : Result PublishError PublishResult)
      → succeeded result ≡ true
      → IsSound (ids p) (some i)
      → IsLimited p.policy p.publishes
      → Delivered p i result (settle_observed env i p w).0
  unfolding settle_observed update_last_publish
  settle_observed-Delivered p i w result applied s l =
      let mark = mark_observed (env.now w).0 in
      let after = marked-IsLimited p mark l in
      let p1 : Publisher Config = record p {
        publishes = update_last mark p.publishes;
        active = some i;
      } in
      record {
        same_revisions = sync_policy-revisions env p1;
        activated = rw applied (sync_policy-active env p1);
        limited = (sync_policy-IsValid env p1 s after).limited;
        mark = mark;
        marked = sync_policy-publishes p1 after;
        settled = λ r. rw applied;
        about = λ r. refl;
      }

  deliver-Delivered :
      (p : Publisher Config) (i : ℕ) (req : ApplySnapshotRequest) (t : Time) (w : W)
      → IsSound (ids p) (some i)
      → IsLimited p.policy p.publishes
      → Delivered p i (deliver env p i req t w).0 (deliver env p i req t w).1
  unfolding deliver
  deliver-Delivered p i req t w s l = elim (Option-cases env.gateway) [
    | inl e ↦ rw (deliver, e) (settle_failed-Delivered p i _ w _ refl l)
    | inr (apply, e) ↦ elim (Result-cases (apply req w).0) [
      | inr (_, bad) ↦ rw (deliver, e, bad) (settle_failed-Delivered p i _ (apply req w).1 _ refl l)
      | inl (resp, good) ↦ elim (Bool-cases resp.applied) [
        | inl took ↦
            rw (deliver, e, good, took) (settle_observed-Delivered p i (apply req w).1 _ refl s l)
        | inr refuses ↦
            rw (deliver, e, good, refuses) (settle_failed-Delivered p i _ (apply req w).1 _ refl l)
      ]
    ]
  ]

  pub stage-Released :
      (p : Publisher Config) (i : ℕ) (kind : Kind) (s : Snapshot) (bytes : String) (t : Time)
      (w : W)
      → IsSound (ids p) (some i)
      → is_pos (limit_of p) ≡ true
      → let after = stage env p i kind s bytes t w in
        Released p i s.meta.revision_id (configs p.revisions) after.0 after.1
  unfolding stage
  stage-Released p i kind s bytes t w sound positive =
      let (publish_id, w1) = generate_id env "pub_" w in
      let r0 : PublishRecord = record {
        publish_id = publish_id;
        revision_id = s.meta.revision_id;
        snapshot_id = s.meta.snapshot_id;
        requested_at = t;
        requested_by = "";
        kind = kind;
        status = staged;
        error = "";
        observed_at = 0;
      } in
      let p1 = stage_record p r0 in
      let req : ApplySnapshotRequest = record {
        snapshot_id = s.meta.snapshot_id;
        revision_id = s.meta.revision_id;
        snapshot_bytes = bytes;
        schema_version = s.meta.schema_version;
        generated_at = s.meta.generated_at;
      } in
      let d = deliver-Delivered p1 i req t (persist_state env p1 w1).1 sound (record {
        positive = positive;
        within = retained-within (limit_of p) (p.publishes ++ r0 ∷ []) positive;
      }) in
      record {
        same_ids = ap names d.same_revisions;
        left_configs = ap configs d.same_revisions;
        activated = d.activated;
        limited = d.limited;
        recorded = inr (
          d.mark r0,
          d.marked
              ∙ ap (retained _) (update_last-retained d.mark (limit_of p) p.publishes r0 positive),
          d.settled r0,
          d.about r0,
        );
      }
