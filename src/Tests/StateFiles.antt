-- ===== src/Tests/StateFiles.antt =====
-- The state file in a world that is one text for each path.
use Prim.Native.String.{◌++◌ as concat}
use ai_model_gateway.Base.{
  zero, suc, ℤ, List, ◌≡◌, ◌≢◌, refl, sym, ap, arith, pos, String, false, Option, none, some,
  negsuc, ◌∷◌, ◌⊎◌, [], eq_iff, str_eq, trim_space, if◌then◌else◌, Result, ok, err, ok_injective,
}
use ai_model_gateway.Publish.{PublisherState, StoredRevision, PublishRecord}
use ai_model_gateway.Publish.FileStore.{
  ReadReply, contents, not_exist, Files, load_file, save_file, save_encoded, write_over,
  rename_over,
}
use ai_model_gateway.Publish.FileStore.Atomic.{
  Reported, FileLaws, save_file-atomic, load_file-save_file,
}

abbrev Disk : Type 0
Disk = String → Option String

abbrev write : String → Option String → Disk → Disk
write path text disk = λ q. if str_eq q path then text else disk q

-- only a state of version 1 without lists is written, as its active name
encode_parts : ℤ → String → List StoredRevision → List PublishRecord → Result String String
encode_parts (pos (suc zero)) id [] [] = ok id
encode_parts _ id _ _ = err "not written"

abbrev named_state : String → PublisherState
named_state id = record { version = pos 1; active_revision_id = id; revisions = []; publishes = [] }

abbrev read : Option String → ReadReply
read none = not_exist
read (some text) = contents text

read-Reported : (o : Option String) → Reported o (read o)
read-Reported none = refl
read-Reported (some text) = refl

abbrev disk_files : Files Disk
unfolding encode_parts
disk_files = record {
  dir = λ p. p;
  mkdir_all = λ d w. (none, w);
  write_file = λ p text w. (none, write p (some text) w);
  rename = λ a b w. (none, write b (w a) w);
  remove = λ p w. (none, write p none w);
  read_file = λ p w. (read (w p), w);
  encode = λ s. encode_parts s.version s.active_revision_id s.revisions s.publishes;
  decode = λ text. ok (named_state text);
  print_int = λ n. "n";
}

encode_parts-back :
    (v : ℤ) (id : String) (rs : List StoredRevision) (ps : List PublishRecord) (text : String)
    → encode_parts v id rs ps ≡ ok text
    → Path
        (Result String PublisherState)
        (ok (named_state text))
        (ok (record { version = v; active_revision_id = id; revisions = rs; publishes = ps }))
unfolding encode_parts
encode_parts-back (pos (suc zero)) id [] [] text h =
    ap (λ x. ok (named_state x)) (sym (ok_injective h))
encode_parts-back (pos (suc zero)) id [] (p ∷ ps) text h = cc
encode_parts-back (pos (suc zero)) id (r ∷ rs) ps text h = cc
encode_parts-back (pos zero) id rs ps text h = cc
encode_parts-back (pos (suc (suc n))) id rs ps text h = cc
encode_parts-back (negsuc n) id rs ps text h = cc

disk_laws : FileLaws disk_files (λ disk. disk)
unfolding disk_files
disk_laws = record {
  mkdir_keeps = λ d q w. refl;
  write_keeps = λ p q text w other. ground (arith, eq_iff q p);
  write_stores = λ p text w h. ground (arith, eq_iff p p);
  rename_moves = λ a b w h. ground (arith, eq_iff b b);
  rename_fails = λ a b q w h. absurd (h refl);
  remove_keeps = λ p q w other. ground (arith, eq_iff q p);
  read_reports = λ p w. read-Reported (w p);
}

abbrev state_path : String
state_path = "state.json"

abbrev before : Disk
before = λ q. none

path_named : str_eq (trim_space state_path) "" ≡ false
unfolding trim_space
path_named = refl

encode_back :
    (s : PublisherState) (text : String)
    → disk_files.encode s ≡ ok text
    → disk_files.decode text ≡ ok s
unfolding disk_files
encode_back s text h =
    encode_parts-back s.version s.active_revision_id s.revisions s.publishes text h

was_saved : (save_file disk_files state_path (named_state "r1") before).0 ≡ none
unfolding save_file save_encoded write_over rename_over disk_files encode_parts trim_space
was_saved = refl

save_file-atomic_example :
    let after = save_file disk_files state_path (named_state "r1") before in
    ((after.0 ≡ none)
      × (text : String) × (disk_files.encode (named_state "r1") ≡ ok text)
      × (after.1 state_path ≡ some text))
    ⊎ ((after.0 ≢ none) × (after.1 state_path ≡ none))
save_file-atomic_example =
    save_file-atomic disk_files state_path (λ disk. disk) disk_laws (named_state "r1") before
      path_named

load_file-save_file_example :
    let reply =
      (load_file disk_files state_path
        (save_file disk_files state_path (named_state "r1") before).1).0 in
    (reply ≡ ok (some (named_state "r1")))
    ⊎ ((e : String) × (reply ≡ err (concat "read publisher state: " e)))
load_file-save_file_example =
    load_file-save_file disk_files state_path (λ disk. disk) disk_laws (named_state "r1") before
      path_named refl encode_back was_saved
