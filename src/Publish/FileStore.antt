-- ===== src/Publish/FileStore.antt =====
-- internal/control/publish/state_store.go: the publisher state as a JSON file. The file system, the
-- JSON package and the printing of a number are parameters.
pub mod Atomic
use Prim.Native.String.{◌++◌ as concat}
use ai_model_gateway.Base.{
  ℕ, ℤ, pos, negsuc, leb, String, Bool, true, false, ◌||◌, Option, none, some, if◌then◌else◌,
  str_eq, trim_space, Result, ok, err, ◌>>=◌, map_err,
}
use ai_model_gateway.Publish.{PublisherState, StateStore}
use ai_model_gateway.Publish.Ledger.{current_version}

-- what `os.ReadFile` returns; `not_exist` is an error for which `os.IsNotExist` holds
pub data ReadReply : Type 0 where
  contents : String → ReadReply
  not_exist : ReadReply
  read_failed : String → ReadReply

pub record Files (W : Type 0) : Type 0 where
  pub dir : String → String
  pub mkdir_all : String → W → Option String × W
  pub write_file : String → String → W → Option String × W
  pub rename : String → String → W → Option String × W
  pub remove : String → W → Option String × W
  pub read_file : String → W → ReadReply × W
  pub encode : PublisherState → Result String String
  pub decode : String → Result String PublisherState
  pub print_int : ℤ → String

abbrev pub is_current : ℤ → Bool
is_current (pos n) = leb n 1
is_current (negsuc n) = false

abbrev pub temporary : String → String
temporary path = concat path ".tmp"

module _ {W : Type 0} (fs : Files W) (path : String) where
  -- the version check: 0 stands for the current one
  unfoldable pub check_version : PublisherState → Result String (Option PublisherState)
  check_version state =
      if is_current state.version
      then ok (some (record state { version = current_version }))
      else err (concat "unsupported publisher state version " (fs.print_int state.version))

  unfoldable pub load_reply : ReadReply → Result String (Option PublisherState)
  load_reply not_exist = ok none
  load_reply (read_failed e) = err (concat "read publisher state: " e)
  load_reply (contents text) =
      map_err (concat "decode publisher state: ") (fs.decode text) >>= check_version

  -- `FileStateStore.Load`
  unfoldable pub load_file : W → Result String (Option PublisherState) × W
  load_file w =
      let (reply, w1) = fs.read_file path w in
      if str_eq (trim_space path) "" then (ok none, w) else (load_reply reply, w1)

  unfoldable pub rename_over : W → Option String × W
  rename_over w =
      let (error, w1) = fs.rename (temporary path) path w in
      elim error [
        | none ↦ (none, w1)
        | some e ↦
            let (_, w2) = fs.remove (temporary path) w1 in
            (some (concat "replace publisher state file: " e), w2)
      ]

  unfoldable pub write_over : String → W → Option String × W
  write_over encoded w =
      let (error, w1) = fs.write_file (temporary path) encoded w in
      elim error [
        | some e ↦ (some (concat "write publisher state temp file: " e), w1)
        | none ↦ rename_over w1
      ]

  unfoldable pub save_encoded : Result String String → W → Option String × W
  save_encoded (err e) w = (some (concat "encode publisher state: " e), w)
  save_encoded (ok encoded) w = write_over encoded w

  -- `FileStateStore.Save`
  unfoldable pub save_file : PublisherState → W → Option String × W
  save_file state w =
      if str_eq (trim_space path) ""
      then (none, w)
      else let (error, w1) = fs.mkdir_all (fs.dir path) w in
        elim error [
          | some e ↦ (some (concat "create publisher state directory: " e), w1)
          | none ↦ save_encoded (fs.encode state) w1
        ]

  abbrev pub file_store : StateStore W
  file_store = record { load = load_file; save = save_file }
