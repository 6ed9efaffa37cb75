-- ===== src/Publish/Kept.antt =====
-- Compiling a revision changes nothing of the ledger but the snapshot of that revision, and its
-- configuration as the compiler leaves it.
use ai_model_gateway.Base.{
  ℕ, suc, ◌≡◌, ◌∙◌, ◌⊎◌, sym, set, String, refl, ap, Option, some, List, [], ◌∷◌, length, get_elem?,
  Bool-cases, Option-cases, inl, inr, Result-cases,
}
use ai_model_gateway.Snapshot.{Snapshot}
use ai_model_gateway.Publish.{Revision, Publisher, Compiler, Environment}
use ai_model_gateway.Publish.Ledger.{clone_snapshot}
use ai_model_gateway.Publish.Upstreams.{needs_refresh}
use ai_model_gateway.Publish.Compiling.{
  set_snapshot, left_config, left_by_compiler, backfill_stored, keep_compiled, run_compiler,
  compile_anew, compile_snapshot, can_compile,
}
use ai_model_gateway.Publish.Releases.{update_last}
use ai_model_gateway.Publish.Invariant.{
  IsValid, ids, ids-set, configs, configs-set, configs-set_named,
}

pub length-update_last {ℓ} :
    {A : Type ℓ} (f : A → A) (xs : List A) → length (update_last f xs) ≡ length xs
unfolding update_last
length-update_last f [] = refl
length-update_last f (x ∷ []) = refl
length-update_last f (x ∷ y ∷ ys) = ap suc (length-update_last f (y ∷ ys))

-- `q` is `p` but for the snapshots and for the configurations, which are `cs` under their names
pub record Kept {Config : Type 0} (p : Publisher Config) (cs : List (String × Option Config))
    (q : Publisher Config) : Type 0 where
  pub same_ids : ids q ≡ ids p
  pub left_configs : configs q.revisions ≡ cs
  pub same_active : q.active ≡ p.active
  pub same_publishes : q.publishes ≡ p.publishes
  pub same_policy : q.policy ≡ p.policy

module _ {Config : Type 0} where
  -- the configurations with another one for the revision at a place
  abbrev pub with_config :
      Publisher Config → ℕ → Revision Config → Option Config → List (String × Option Config)
  with_config p i rev left = set (configs p.revisions) i (rev.revision_id, left)

  pub with_config-same :
      (p : Publisher Config) (i : ℕ) (rev : Revision Config)
      → get_elem? p.revisions i ≡ some rev
      → with_config p i rev rev.config ≡ configs p.revisions
  with_config-same p i rev h =
      sym (configs-set_named p.revisions i rev) ∙ configs-set p.revisions i rev rev h refl

  set_snapshot-Kept :
      (p : Publisher Config) (i : ℕ) (rev left : Revision Config) (s : Option Snapshot)
      → get_elem? p.revisions i ≡ some rev
      → left.revision_id ≡ rev.revision_id
      → Kept p (with_config p i rev left.config) (set_snapshot p i left s)
  unfolding set_snapshot
  set_snapshot-Kept p i rev left s h name =
      let new : Revision Config = record left { snapshot = s } in
      record {
        same_ids = ids-set p.revisions i new rev h (sym name);
        left_configs =
            configs-set_named p.revisions i new
            ∙ ap (λ n. set (configs p.revisions) i (n, left.config)) name;
        same_active = refl;
        same_publishes = refl;
        same_policy = refl;
      }

  pub Kept-IsValid :
      {p q : Publisher Config} {cs : List (String × Option Config)}
      → Kept p cs q
      → IsValid p
      → IsValid q
  Kept-IsValid {p = p} {q = q} k v = record {
    sound = rw (k.same_ids, k.same_active) v.sound;
    limited = rw (k.same_policy, k.same_publishes) v.limited;
  }

module _ {W Config Fields : Type 0} (env : Environment W Config Fields) where
  -- a configuration after compilations of it: as it was, or what the compiler leaves of it
  abbrev pub LeftAs : Option Config → Option Config → Type 0
  LeftAs config left =
      (left ≡ config)
      ⊎ ((c : Compiler W Config) × (env.compiler ≡ some c) × (left ≡ left_config c config))

  -- what a compilation of the revision at a place leaves
  abbrev pub Recompiled : Publisher Config → ℕ → Revision Config → Publisher Config → Type 0
  Recompiled p i rev q =
      (left : Option Config) × LeftAs rev.config left × Kept p (with_config p i rev left) q

  left_by_compiler-LeftAs :
      (rev : Revision Config) → LeftAs rev.config (left_by_compiler env rev).config
  unfolding left_by_compiler
  left_by_compiler-LeftAs rev = elim (Option-cases env.revision_compiler) [
    | inr (_, e) ↦ inl (rw (left_by_compiler, e))
    | inl e ↦ elim (Option-cases env.compiler) [
      | inl f ↦ inl (rw (left_by_compiler, e, f))
      | inr (c, f) ↦ inr (c, f, rw (left_by_compiler, e, f))
    ]
  ]

  left_by_compiler-id :
      (rev : Revision Config) → (left_by_compiler env rev).revision_id ≡ rev.revision_id
  unfolding left_by_compiler
  left_by_compiler-id rev = elim (Option-cases env.revision_compiler) [
    | inr (_, e) ↦ rw (left_by_compiler, e)
    | inl e ↦ elim (Option-cases env.compiler) [
      | inl f ↦ rw (left_by_compiler, e, f)
      | inr (c, f) ↦ rw (left_by_compiler, e, f)
    ]
  ]

  unchanged-Recompiled :
      (p : Publisher Config) (i : ℕ) (rev : Revision Config)
      → get_elem? p.revisions i ≡ some rev
      → Recompiled p i rev p
  unchanged-Recompiled p i rev h = (
    rev.config,
    inl refl,
    record {
      same_ids = refl;
      left_configs = sym (with_config-same p i rev h);
      same_active = refl;
      same_publishes = refl;
      same_policy = refl;
    },
  )

  -- the revision as it was, with another snapshot
  stored-Recompiled :
      (p : Publisher Config) (i : ℕ) (rev : Revision Config) (s : Option Snapshot)
      → get_elem? p.revisions i ≡ some rev
      → Recompiled p i rev (set_snapshot p i rev s)
  stored-Recompiled p i rev s h = (rev.config, inl refl, set_snapshot-Kept p i rev rev s h refl)

  -- the revision as the compiler leaves it, with another snapshot
  left-Recompiled :
      (p : Publisher Config) (i : ℕ) (rev : Revision Config) (s : Option Snapshot)
      → get_elem? p.revisions i ≡ some rev
      → Recompiled p i rev (set_snapshot p i (left_by_compiler env rev) s)
  left-Recompiled p i rev s h = (
    (left_by_compiler env rev).config,
    left_by_compiler-LeftAs rev,
    set_snapshot-Kept p i rev (left_by_compiler env rev) s h (left_by_compiler-id rev),
  )

  backfill_stored-Recompiled :
      (p : Publisher Config) (i : ℕ) (rev : Revision Config) (s : Snapshot) (w : W)
      → get_elem? p.revisions i ≡ some rev
      → Recompiled p i rev (backfill_stored env p i rev s w).1
  unfolding backfill_stored
  backfill_stored-Recompiled p i rev s w h = elim (Result-cases (clone_snapshot env (some s))) [
    | inr (_, e) ↦ rw (backfill_stored, e) (unchanged-Recompiled p i rev h)
    | inl (o, e) ↦ elim (Option-cases o) [
      | inl gone ↦ rw (backfill_stored, e, gone) (unchanged-Recompiled p i rev h)
      | inr (c, there) ↦ rw (backfill_stored, e, there) (stored-Recompiled p i rev _ h)
    ]
  ]

  keep_compiled-Recompiled :
      (p : Publisher Config) (i : ℕ) (rev : Revision Config) (s : Snapshot) (w : W)
      → get_elem? p.revisions i ≡ some rev
      → Recompiled p i rev (keep_compiled env p i (left_by_compiler env rev) s w).1
  unfolding keep_compiled
  keep_compiled-Recompiled p i rev s w h = elim (Result-cases (clone_snapshot env (some s))) [
    | inr (_, e) ↦ rw (keep_compiled, e) (left-Recompiled p i rev _ h)
    | inl (o, e) ↦ elim (Option-cases o) [
      | inl gone ↦ rw (keep_compiled, e, gone) (left-Recompiled p i rev _ h)
      | inr (c, there) ↦ rw (keep_compiled, e, there) (left-Recompiled p i rev _ h)
    ]
  ]

  compile_anew-Recompiled :
      (p : Publisher Config) (i : ℕ) (rev : Revision Config) (w : W)
      → get_elem? p.revisions i ≡ some rev
      → Recompiled p i rev (compile_anew env p i rev w).1
  unfolding compile_anew
  compile_anew-Recompiled p i rev w h = elim (Result-cases (run_compiler env rev w).0) [
    | inr (_, e) ↦ rw (compile_anew, e) (left-Recompiled p i rev _ h)
    | inl (o, e) ↦ elim (Option-cases o) [
      | inl gone ↦ rw (compile_anew, e, gone) (left-Recompiled p i rev _ h)
      | inr (s, there) ↦
          rw (compile_anew, e, there)
            (keep_compiled-Recompiled p i rev s (run_compiler env rev w).1 h)
    ]
  ]

  pub compile_snapshot-Recompiled :
      (p : Publisher Config) (i : ℕ) (rev : Revision Config) (w : W)
      → get_elem? p.revisions i ≡ some rev
      → Recompiled p i rev (compile_snapshot env p i rev w).1
  unfolding compile_snapshot
  compile_snapshot-Recompiled p i rev w h = elim (Option-cases rev.snapshot) [
    | inl e ↦ rw (compile_snapshot, e) (compile_anew-Recompiled p i rev w h)
    | inr (stored, e) ↦ elim (Bool-cases (needs_refresh stored)) [
      | inr fine ↦ rw (compile_snapshot, e, fine) (unchanged-Recompiled p i rev h)
      | inl refresh ↦ elim (Bool-cases (can_compile env rev)) [
        | inr stuck ↦
            rw (compile_snapshot, e, refresh, stuck) (backfill_stored-Recompiled p i rev stored w h)
        | inl able ↦ rw (compile_snapshot, e, refresh, able) (compile_anew-Recompiled p i rev w h)
      ]
    ]
  ]
