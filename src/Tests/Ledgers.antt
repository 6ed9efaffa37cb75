-- ===== src/Tests/Ledgers.antt =====
-- A publisher in a world that is its clock and its saved state.
use mathlib.Core.Path.{subst}
use mathlib.Core.List.{Nodup-cons, Nodup-nil, not-mem-nil}
use ai_model_gateway.Base.{
  ℕ, zero, suc, ◌+◌, ◌-◌, ◌≡◌, ◌≢◌, refl, sym, ap, pos, String, Bool, true, false, Option, none,
  some, [], ◌∷◌, ◌⊎◌, arith, eq_iff, str_eq, trim_space, if◌then◌else◌, Time, Result, ok,
  ok_injective,
}
use ai_model_gateway.Publish.{
  Revision, publishing, PublisherState, Publisher, PublishError, Compiler, ApplySnapshotRequest,
  ApplySnapshotResponse, StateStore, Environment,
}
use ai_model_gateway.Publish.Ledger.{
  find_from, clone_snapshot, sync_policy, active_revision, new_publisher, persist_state,
  clone_config, state_of, marshal_revisions, marshal_stored_revision,
}
use ai_model_gateway.Publish.Edits.{upsert_revision, load_state}
use ai_model_gateway.Publish.Releases.{
  release, publish_revision, send_snapshot, stage, deliver, settle_observed, update_last_publish,
}
use ai_model_gateway.Publish.Invariant.{IsValid, new_publisher-IsValid}
use ai_model_gateway.Publish.Reachable.{start, step, upserts, releases, Reached-IsValid}
use ai_model_gateway.Publish.Refinement.{Activated, release-refines, upsert_revision-refines}
use ai_model_gateway.Publish.Catalogue.{catalogue, put_entry}
use ai_model_gateway.Publish.Kept.{LeftAs, with_config}
use ai_model_gateway.Snapshot.{Snapshot}
use ai_model_gateway.Publish.Compiling.{
  compile_snapshot, compile_anew, run_compiler, left_by_compiler, keep_compiled, set_snapshot,
}
use ai_model_gateway.Publish.Outcomes.{succeeded, Released}
use ai_model_gateway.Publish.Published.{publish_revision-Released}
use ai_model_gateway.Publish.Restoring.{Durable, IsRestored, load_state-persist_state}
use ai_model_gateway.Publish.Codecs.{CodecLaws}
use ai_model_gateway.Publish.Generated.{generate_id}
use ai_model_gateway.Publish.Updates.{create_revision}
use ai_model_gateway.Publish.Created.{Added, create_revision-refines}
use ai_model_gateway.Tests.Samples.{snapshot}

-- the time, and what was saved
record Desk : Type 0 where
  pub time : ℕ
  pub held : Option PublisherState

abbrev desk_store : StateStore Desk
desk_store = record { load = λ d. (ok d.held, d); save = λ s d. (none, record d { held = some s }) }

-- a configuration is whether it is strict; compiling loosens it
abbrev desk_compiler : Compiler Desk Bool
desk_compiler = record {
  compile_from_config = λ c d. (record { snapshot = some snapshot; error = none }, d);
  leaves = λ c. false;
  validate = λ s. none;
}

abbrev accepts : ApplySnapshotRequest → Desk → Result String ApplySnapshotResponse × Desk
accepts req d = (ok (record { applied = true; error = "" }), d)

abbrev write_config : Bool → String
write_config c = if c then "strict" else "loose"

-- a time as so many strokes and one
tally : Time → String
tally zero = "|"
tally (suc t) = String.◌∷◌ "|" (tally t)

strokes : String → ℕ
strokes String.[] = 0
strokes (String.◌∷◌ c s) = suc (strokes s)

strokes-tally : (t : Time) → strokes (tally t) ≡ suc t
unfolding strokes tally
strokes-tally zero = refl
strokes-tally (suc t) = omega (arith, strokes-tally t)

tally_shown : (t : Time) → tally t ≢ ""
unfolding strokes
tally_shown t e = omega (arith, strokes-tally t, ap strokes e)

abbrev desk : Environment Desk Bool Unit
unfolding tally strokes
desk = record {
  history_limit = λ c. pos 2;
  normalize = λ c. c;
  marshal_config = λ c. ok (write_config c);
  unmarshal_config = λ y. ok (str_eq y "strict");
  marshal_snapshot = λ s. ok "snapshot";
  unmarshal_snapshot = λ y. ok snapshot;
  marshal_fields = λ f. ok "strict";
  now = λ d. (d.time, record d { time = d.time + 1 });
  nanosecond = λ t. t;
  format_stamp = λ t. "20260101_000000";
  format_time = tally;
  parse_time = λ s. ok (strokes s - 1);
  parse_url = λ s. none;
  print_url = λ u. u.host;
  to_lower = λ s. s;
  compiler = some desk_compiler;
  revision_compiler = none;
  gateway = some accepts;
  state_store = some desk_store;
}

abbrev first : Revision Bool
first = record {
  revision_id = "r1";
  created_at = 3;
  created_by = "admin";
  description = "";
  config = some true;
  snapshot = none;
}

abbrev ledger : Publisher Bool
ledger = record (new_publisher {Config = Bool}) { revisions = first ∷ [] }

ledger-IsValid : IsValid ledger
unfolding trim_space
ledger-IsValid = record {
  sound = record {
    distinct = Nodup-cons.1 (not-mem-nil, Nodup-nil);
    named = ((refl, λ e. ground (arith, eq_iff "r1" "")), tt);
    in_range = λ i h. cc;
  };
  limited = record { positive = refl; within = omega arith };
}

abbrev morning : Desk
morning = record { time = 7; held = none }

release-refines_example :
    let after = release desk publishing ledger "r1" morning in
    Activated desk "r1" (succeeded after.0) (catalogue ledger) (catalogue after.1)
release-refines_example = release-refines desk publishing ledger "r1" morning ledger-IsValid

-- the compiler has loosened the configuration that was published
loosened :
    (release desk publishing ledger "r1" morning).1.revisions
    ≡ record first { config = some false; snapshot = some snapshot } ∷ []
unfolding release publish_revision compile_snapshot compile_anew run_compiler left_by_compiler
    keep_compiled send_snapshot stage deliver settle_observed update_last_publish generate_id
    find_from desk clone_snapshot sync_policy active_revision set_snapshot
loosened = refl

publish_revision-Released_example :
    let after = publish_revision desk ledger 0 first publishing morning in
    (left : Option Bool) × LeftAs desk (some true) left
    × Released ledger 0 "r1" (with_config ledger 0 first left) after.0 after.1
publish_revision-Released_example =
    publish_revision-Released desk ledger 0 first publishing morning ledger-IsValid refl

upsert_revision-refines_example :
    let after = upsert_revision desk ledger first true morning in
    ((after.1 ≡ ledger) × (after.0 ≢ none))
    ⊎ ((c : Option Bool) × (clone_config desk (some true) ≡ ok c)
        × (catalogue after.1 ≡ put_entry (trim_space "r1") c true (catalogue ledger)))
upsert_revision-refines_example =
    upsert_revision-refines desk ledger first true morning ledger-IsValid

abbrev added : Option PublishError × Publisher Bool × Desk
added = upsert_revision desk new_publisher first false morning

Reached-IsValid_example : IsValid (release desk publishing added.1 "r1" added.2).1
Reached-IsValid_example = Reached-IsValid desk _ _ (
    step (step (start morning) (upserts new_publisher first false morning))
      (releases publishing added.1 "r1" added.2))

-- the one snapshot that the desk can write, and a ledger that holds it
abbrev IsSample : Snapshot → Type 0
IsSample s = s ≡ snapshot

abbrev Written : Bool → Type 0
Written c = Unit

abbrev shelf : Publisher Bool
shelf = record ledger {
  revisions = record first { snapshot = some snapshot } ∷ [];
  active = some 0;
}

shelf-IsValid : IsValid shelf
unfolding trim_space
shelf-IsValid = record {
  sound = record {
    distinct = Nodup-cons.1 (not-mem-nil, Nodup-nil);
    named = ((refl, λ e. ground (arith, eq_iff "r1" "")), tt);
    in_range = λ i h. ground arith;
  };
  limited = record { positive = refl; within = omega arith };
}

config_back : (c : Bool) → str_eq (write_config c) "strict" ≡ c
config_back true = refl
config_back false = refl

config_shown : (c : Bool) → trim_space (write_config c) ≢ ""
unfolding trim_space
config_shown true e = ground (arith, eq_iff "strict" "")
config_shown false e = ground (arith, eq_iff "loose" "")

sample_shown : trim_space "snapshot" ≢ ""
unfolding trim_space
sample_shown e = ground (arith, eq_iff "snapshot" "")

desk_laws : CodecLaws desk Written IsSample
unfolding desk tally strokes
desk_laws = record {
  config_back = λ c y f h.
      subst (λ z. Path (Result String Bool) (ok (str_eq z "strict")) (ok c)) (ok_injective h)
        (ap ok (config_back c));
  config_solid = λ c y h. subst (λ z. trim_space z ≢ "") (ok_injective h) (config_shown c);
  snapshot_back = λ s y f h. ap ok (sym f);
  snapshot_solid = λ s y h. subst (λ z. trim_space z ≢ "") (ok_injective h) sample_shown;
  time_back = λ t. ap ok (omega (arith, strokes-tally t));
  time_solid = tally_shown;
}

desk_store-Durable : Durable desk_store
desk_store-Durable = λ state w v h. refl

persisted : (persist_state desk shelf morning).0 ≡ none
unfolding persist_state desk state_of marshal_revisions marshal_stored_revision
persisted = refl

load_state-persist_state_example :
    IsRestored shelf (load_state desk new_publisher (persist_state desk shelf morning).1)
unfolding desk
load_state-persist_state_example =
    load_state-persist_state desk desk_laws shelf new_publisher desk_store morning refl
      desk_store-Durable shelf-IsValid
      (record { normalized = λ c h. refl; config_full = λ c h. tt; snapshot_full = λ s h. cc }, tt)
      persisted

create_revision-refines_example :
    let after = create_revision desk new_publisher true (some snapshot) "first" morning in
    Added desk
      (generate_id desk "rev_" morning).0
      (some true)
      after.0
      (catalogue new_publisher)
      (catalogue after.1)
create_revision-refines_example =
    create_revision-refines desk new_publisher true (some snapshot) "first" morning
      new_publisher-IsValid not-mem-nil
