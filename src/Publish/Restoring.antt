-- ===== src/Publish/Restoring.antt =====
-- A ledger that was persisted is the ledger that is restored.
use mathlib.Core.List.{not-mem-nil}
use mathlib.Core.Path.{subst}
use ai_model_gateway.Base.{
  ◌≡◌, ◌≢◌, refl, sym, ap, ◌∙◌, Bool, true, none, some, [], All, Option-cases, inl, inr, Result, ok,
  err, >>=-ok, ok_injective, Result-cases,
}
use ai_model_gateway.Snapshot.{Snapshot}
use ai_model_gateway.Publish.{Publisher, PublishError, PublisherState, StateStore, Environment}
use ai_model_gateway.Publish.Ledger.{
  retained, trim_publishes, sync_policy, marshal_revisions, state_of, active_id, persist_state,
  current_version,
}
use ai_model_gateway.Publish.Edits.{restore_state, load_state}
use ai_model_gateway.Publish.Invariant.{IsValid, sync_policy-revisions, sync_policy-active}
use ai_model_gateway.Publish.Outcomes.{limit_of}
use ai_model_gateway.Publish.Codecs.{CodecLaws, Storable}
use ai_model_gateway.Publish.Places.{restore_all-marshal, active-Found, some_not_none}

-- the store returns a state of the current version that it has saved
abbrev pub Durable : {W : Type 0} → StateStore W → Type 0
Durable {W = W} store =
    (state : PublisherState) (w : W)
    → state.version ≡ current_version
    → (store.save state w).0 ≡ none
    → (store.load (store.save state w).1).0 ≡ ok (some state)

-- a successful `LoadState` gives back the ledger
abbrev pub IsRestored :
    {W Config : Type 0}
    → Publisher Config
    → Result PublishError Bool × Publisher Config × W
    → Type 0
IsRestored p loaded =
    (loaded.0 ≡ ok true)
    × (loaded.1.revisions ≡ p.revisions)
    × (loaded.1.active ≡ p.active)
    × (loaded.1.publishes ≡ retained (limit_of loaded.1) p.publishes)

module _ {W Config Fields : Type 0} (env : Environment W Config Fields) {full : Config → Type 0}
    {full_snapshot : Snapshot → Type 0} (laws : CodecLaws env full full_snapshot) where
  -- Restoring the state of a valid ledger, into any publisher, gives back its revisions and its
  -- active place, and the publish records that the restored policy retains.
  pub restore_state-state_of :
      (p q : Publisher Config) (state : PublisherState)
      → IsValid p
      → All (Storable env full full_snapshot) p.revisions
      → state_of env p ≡ ok state
      → (p' : Publisher Config) × (restore_state env q state ≡ ok p')
        × (p'.revisions ≡ p.revisions)
        × (p'.active ≡ p.active)
        × (p'.publishes ≡ retained (limit_of p') p.publishes)
  unfolding state_of restore_state
  restore_state-state_of p q state v norm h =
      let (stored, marshalled, h1) = >>=-ok (marshal_revisions env 0 p.revisions) _ h in
      let (trimmed, place, required) = active-Found env laws p v in
      let p0 : Publisher Config = record q { revisions = p.revisions; active = p.active } in
      let p1 = sync_policy env p0 in
      (
        trim_publishes (record p1 { publishes = p.publishes }),
        subst
            (λ s.
              restore_state env q s ≡ ok (trim_publishes (record p1 { publishes = p.publishes })))
            (ok_injective h1)
            (rw (
              trimmed,
              restore_all-marshal env laws (active_id env p) 0 0 [] none p.revisions stored
                  v.sound.distinct v.sound.named (λ x m. not-mem-nil) norm marshalled,
              place,
              required,
            )),
        sync_policy-revisions env p0,
        sync_policy-active env p0,
        refl,
      )

  version_of :
      (p : Publisher Config) {state : PublisherState}
      → state_of env p ≡ ok state
      → state.version ≡ current_version
  unfolding state_of
  version_of p h =
      let (_, _, h1) = >>=-ok (marshal_revisions env 0 p.revisions) _ h in
      sym (ap (λ (t : PublisherState). t.version) (ok_injective h1))

  persist_lem :
      (p : Publisher Config) (store : StateStore W) (w : W) {state : PublisherState}
      → env.state_store ≡ some store
      → state_of env p ≡ ok state
      → (persist_state env p w).0 ≡ none
      → ((store.save state w).0 ≡ none) × ((persist_state env p w).1 ≡ (store.save state w).1)
  unfolding persist_state
  persist_lem p store w {state = state} s good h = elim (Option-cases (store.save state w).0) [
    | inl e ↦ (e, rw (persist_state, s, good))
    | inr (_, e) ↦ absurd (some_not_none (rw (persist_state, s, good, e) at h))
  ]

  persist_failed :
      (p : Publisher Config) (store : StateStore W) (w : W) {e : PublishError}
      → env.state_store ≡ some store
      → state_of env p ≡ err e
      → (persist_state env p w).0 ≢ none
  unfolding persist_state
  persist_failed p store w s bad h = some_not_none (rw (persist_state, s, bad) at h)

  load_lem :
      (q p' : Publisher Config) (store : StateStore W) (w : W) {state : PublisherState}
      → env.state_store ≡ some store
      → (store.load w).0 ≡ ok (some state)
      → restore_state env q state ≡ ok p'
      → load_state env q w ≡ (ok true, p', (store.load w).1)
  unfolding load_state
  load_lem q p' store w s read restored = rw (load_state, s, read, restored)

  -- After a valid ledger was persisted without an error, `LoadState` into any publisher succeeds and
  -- gives back its revisions and its active place, and the publish records that the restored policy
  -- retains, where the store is durable, and where every configuration is normalized and loses
  -- nothing when it is written, as does every snapshot.
  pub load_state-persist_state :
      (p q : Publisher Config) (store : StateStore W) (w : W)
      → env.state_store ≡ some store
      → Durable store
      → IsValid p
      → All (Storable env full full_snapshot) p.revisions
      → (persist_state env p w).0 ≡ none
      → IsRestored p (load_state env q (persist_state env p w).1)
  load_state-persist_state p q store w s durable v norm h = elim (Result-cases (state_of env p)) [
    | inr (_, bad) ↦ absurd (persist_failed p store w s bad h)
    | inl (state, good) ↦
        let (saved, world) = persist_lem p store w {state = state} s good h in
        let (p', restored, same_revisions, same_active, same_publishes) =
          restore_state-state_of p q state v norm good in
        let read = durable state w (version_of p good) saved in
        subst (IsRestored p)
          (sym
            (ap (load_state env q) world ∙ load_lem q p' store _ {state = state} s read restored))
          (refl, same_revisions, same_active, same_publishes)
  ]
