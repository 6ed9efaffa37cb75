-- ===== src/Publish/Compiling.antt =====
-- publisher.go: `compileSnapshotLocked`, the snapshot that a revision is published with.
use ai_model_gateway.Base.{
  ℕ, Bool, true, false, not, Option, none, some, set, if◌then◌else◌, Result, ok, err,
}
use ai_model_gateway.Snapshot.{Snapshot}
use ai_model_gateway.Publish.{
  Revision, Publisher, PublishError, no_config_payload, compiler_not_configured, nil_snapshot,
  snapshot_codec, compile_failed, Compiler, Environment,
}
use ai_model_gateway.Publish.Ledger.{clone_snapshot, clone_revision}
use ai_model_gateway.Publish.Upstreams.{needs_refresh, backfill}

-- the snapshot, the publisher and the world after a call; `rev.Snapshot = ...` writes through a
-- pointer into the ledger
abbrev pub CompileRun : Type 0 → Type 0 → Type 0
CompileRun Config W = Result PublishError Snapshot × Publisher Config × W

module _ {Config : Type 0} where
  unfoldable pub set_snapshot :
      Publisher Config → ℕ → Revision Config → Option Snapshot → Publisher Config
  set_snapshot p i rev s = record p { revisions = set p.revisions i (record rev { snapshot = s }) }

module _ {W Config : Type 0} where
  abbrev pub left_config : Compiler W Config → Option Config → Option Config
  left_config c none = none
  left_config c (some cfg) = some (c.leaves cfg)

module _ {W Config Fields : Type 0} (env : Environment W Config Fields) where
  -- `canCompileRevisionLocked`
  unfoldable pub can_compile : Revision Config → Bool
  can_compile rev = elim env.revision_compiler [
    | some _ ↦ true
    | none ↦ elim env.compiler [
      | none ↦ false
      | some _ ↦ elim rev.config [ none ↦ false | some _ ↦ true ]
    ]
  ]

  -- `backfillStoredSnapshotLocked`
  unfoldable pub backfill_stored :
      Publisher Config → ℕ → Revision Config → Snapshot → W → CompileRun Config W
  backfill_stored p i rev stored w = elim (clone_snapshot env (some stored)) [
    | err e ↦ (err (snapshot_codec e), p, w)
    | ok none ↦ (err nil_snapshot, p, w)
    | ok (some s) ↦ (ok (backfill env s), set_snapshot p i rev (some (backfill env s)), w)
  ]

  -- What the compilers return. The error of the revision compiler is assigned to the `err` that its
  -- block declares and is lost after the block; the error of the compiler is not.
  unfoldable pub run_compiler : Revision Config → W → Result PublishError (Option Snapshot) × W
  run_compiler rev w = elim env.revision_compiler [
    | some compile ↦ elim (clone_revision env rev) [
      | err e ↦ (err e, w)
      | ok copy ↦ let (reply, w1) = compile copy w in (ok reply.snapshot, w1)
    ]
    | none ↦ elim env.compiler [
      | none ↦ (err compiler_not_configured, w)
      | some c ↦ elim rev.config [
        | none ↦ (err (no_config_payload rev.revision_id), w)
        | some cfg ↦
            let (reply, w1) = c.compile_from_config cfg w in
            (elim reply.error [ some e ↦ err (compile_failed e) | none ↦ ok reply.snapshot ], w1)
      ]
    ]
  ]

  -- the revision after the compilers ran: its configuration is passed to the compiler by pointer,
  -- to the revision compiler as a copy
  unfoldable pub left_by_compiler : Revision Config → Revision Config
  left_by_compiler rev = elim env.revision_compiler [
    | some _ ↦ rev
    | none ↦ elim env.compiler [
      | none ↦ rev
      | some c ↦ record rev { config = left_config c rev.config }
    ]
  ]

  -- the copy of the compiled snapshot that the revision keeps; a failed copy leaves it without one
  unfoldable pub keep_compiled :
      Publisher Config → ℕ → Revision Config → Snapshot → W → CompileRun Config W
  keep_compiled p i rev s w = elim (clone_snapshot env (some s)) [
    | err e ↦ (err (snapshot_codec e), set_snapshot p i rev none, w)
    | ok none ↦ (err nil_snapshot, set_snapshot p i rev none, w)
    | ok (some copy) ↦ (ok copy, set_snapshot p i rev (some copy), w)
  ]

  unfoldable pub compile_anew : Publisher Config → ℕ → Revision Config → W → CompileRun Config W
  compile_anew p i rev w =
      let left = left_by_compiler rev in
      let (compiled, w1) = run_compiler rev w in
      elim compiled [
        | err e ↦ (err e, set_snapshot p i left left.snapshot, w1)
        | ok none ↦ (err nil_snapshot, set_snapshot p i left left.snapshot, w1)
        | ok (some s) ↦ keep_compiled p i left s w1
      ]

  -- `compileSnapshotLocked`
  unfoldable pub compile_snapshot : Publisher Config → ℕ → Revision Config → W → CompileRun Config W
  compile_snapshot p i rev w = elim rev.snapshot [
    | none ↦ compile_anew p i rev w
    | some stored ↦
        if not (needs_refresh stored)
        then (ok stored, p, w)
        else if not (can_compile rev)
        then backfill_stored p i rev stored w
        else compile_anew p i rev w
  ]
