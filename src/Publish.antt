-- ===== src/Publish.antt =====
-- internal/control/publish/publisher.go and state_store.go: the ledger of configuration revisions
-- and of their publishing to the gateway daemon. This file has the types; `Ledger` the lookups,
-- the policy and the persistence, `Edits` the operations that change the revisions, `Upstreams`
-- and `Compiling` the snapshot of a revision, `Generated` the ids, `Releases` the publishing of a
-- revision, `Updates` the publishing of a new one, `Views` the read side and `FileStore` the state
-- file.
-- The mutex is not modelled: each exported method holds it from its first line to its last, so that
-- a run of the program is a sequence of whole operations.
pub mod Ledger
pub mod Edits
pub mod Upstreams
pub mod Compiling
pub mod Generated
pub mod Releases
pub mod Updates
pub mod Views
pub mod FileStore
pub mod Invariant
pub mod Built
pub mod Valid
pub mod Kept
pub mod Outcomes
pub mod Published
pub mod Names
pub mod Updated
pub mod Created
pub mod History
pub mod Reachable
pub mod Catalogue
pub mod Refinement
pub mod Codecs
pub mod Places
pub mod Restoring
use ai_model_gateway.Base.{ℕ, ℤ, String, Bool, Option, List, Time, Result}
use ai_model_gateway.Snapshot.{Snapshot}

-- `core.Config` is a parameter: the publisher reads one field of it, by `history_limit` below.
pub record Revision (Config : Type 0) : Type 0 where
  pub revision_id : String
  pub created_at : Time
  pub created_by : String
  pub description : String
  pub config : Option Config
  pub snapshot : Option Snapshot

pub data Kind : Type 0 where
  publishing rolling_back : Kind

pub data Status : Type 0 where
  staged observed failed : Status

pub record PublishRecord : Type 0 where
  pub publish_id : String
  pub revision_id : String
  pub snapshot_id : String
  pub requested_at : Time
  pub requested_by : String
  pub kind : Kind
  pub status : Status
  pub error : String
  pub observed_at : Time

pub record PublisherPolicy : Type 0 where
  pub publish_history_limit : ℤ

-- The fields of the struct that the operations change. `active` is `activeIdx`, with `none` for -1.
pub record Publisher (Config : Type 0) : Type 0 where
  pub revisions : List (Revision Config)
  pub active : Option ℕ
  pub publishes : List PublishRecord
  pub policy : PublisherPolicy

-- the errors the operations return, with what their messages print
pub data PublishError : Type 0 where
  revision_id_required revision_not_found duplicate_revision_id : String → PublishError
  active_not_found no_config_payload : String → PublishError
  at_revision : ℕ → PublishError → PublishError
  compiler_not_configured nil_snapshot gateway_not_configured : PublishError
  config_is_nil unsupported_config : PublishError
  config_codec snapshot_codec created_at_codec : String → PublishError
  compile_failed validate_failed store_failed : String → PublishError

pub record StoredRevision : Type 0 where
  pub revision_id : String
  pub created_at : String
  pub created_by : String
  pub description : String
  pub config_yaml : String
  pub snapshot_yaml : String

pub record PublisherState : Type 0 where
  pub version : ℤ
  pub active_revision_id : String
  pub revisions : List StoredRevision
  pub publishes : List PublishRecord

-- the two results of a Go function that returns a pointer and an error
pub record Compiled : Type 0 where
  pub snapshot : Option Snapshot
  pub error : Option String

-- the dynamic type of the `interface{}` argument of `UpdateConfig`
pub data ConfigInput (Config Fields : Type 0) : Type 0 where
  config_value : Config → ConfigInput Config Fields
  nil_pointer : ConfigInput Config Fields
  config_fields : Fields → ConfigInput Config Fields
  other_type : ConfigInput Config Fields

pub record Compiler (W Config : Type 0) : Type 0 where
  pub compile_from_config : Config → W → Compiled × W
  -- What is left of the argument of `CompileFromConfig`: the copy that it normalizes shares the
  -- benchmark aliases with its argument, whose aliases are so rewritten in place.
  pub leaves : Config → Config
  pub validate : Option Snapshot → Option String

pub record ApplySnapshotRequest : Type 0 where
  pub snapshot_id : String
  pub revision_id : String
  pub snapshot_bytes : String
  pub schema_version : ℤ
  pub generated_at : Time

pub record ApplySnapshotResponse : Type 0 where
  pub applied : Bool
  pub error : String

pub record StateStore (W : Type 0) : Type 0 where
  pub load : W → Result String (Option PublisherState) × W
  pub save : PublisherState → W → Option String × W

-- a parsed URL; `rest` holds what the program neither reads nor sets
pub record Url : Type 0 where
  pub scheme : String
  pub host : String
  pub path : String
  pub raw_query : String
  pub fragment : String
  pub rest : String

-- What the publisher calls. `W` is the world: the clock, the daemon behind the RPC, the disk.
-- The options are the pointers and interfaces that may be nil.
pub record Environment (W Config Fields : Type 0) : Type 0 where
  -- core.Config
  pub history_limit : Config → ℤ
  pub normalize : Config → Config
  -- gopkg.in/yaml.v3
  pub marshal_config : Config → Result String String
  pub unmarshal_config : String → Result String Config
  pub marshal_snapshot : Snapshot → Result String String
  pub unmarshal_snapshot : String → Result String Snapshot
  pub marshal_fields : Fields → Result String String
  -- time, net/url, strings
  pub now : W → Time × W
  pub nanosecond : Time → ℕ
  pub format_stamp : Time → String
  pub format_time : Time → String
  pub parse_time : String → Result String Time
  pub parse_url : String → Option Url
  pub print_url : Url → String
  pub to_lower : String → String
  -- the collaborators
  pub compiler : Option (Compiler W Config)
  pub revision_compiler : Option (Revision Config → W → Compiled × W)
  pub gateway : Option (ApplySnapshotRequest → W → Result String ApplySnapshotResponse × W)
  pub state_store : Option (StateStore W)
