-- ===== src/Bridge/Store/Tables.antt =====
-- The rows that store.py keeps, with the records of models.py that it returns; `_connect`.
use server_fs_mcp.Prelude.{
  ℕ, String, Bool, false, true, Option, none, some, List, [], ◌==◌, if◌then◌else◌,
}
use server_fs_mcp.Bridge.Errors.{Code, Result, ok, err, Action}
use server_fs_mcp.Bridge.Status.{TaskStatus}

-- `utc_now()` gives ISO 8601 texts
abbrev pub Timestamp : Type 0
Timestamp = String

pub record TaskRecord : Type 0 where
  pub task_id : String
  pub runtime : String
  pub workdir_alias : String
  pub workdir_slot : ℕ
  pub relative_cwd : String
  pub profile : String
  pub requested_model : Option String
  pub status : TaskStatus
  pub created_at : Timestamp
  pub started_at : Option Timestamp
  pub updated_at : Timestamp
  pub completed_at : Option Timestamp
  pub deadline_at : Option Timestamp
  pub continue_from_task_id : Option String
  pub correlation_id : Option String
  pub idempotency_key : Option String
  pub request_fingerprint : Option String
  pub native_session_id : Option String
  pub native_turn_id : Option String
  pub final_response : Option String
  pub result_storage : String
  pub result_size_bytes : Option ℕ
  pub result_sha256 : Option String
  pub manifest : Option String
  pub manifest_sha256 : Option String
  pub error_code : Option String
  pub error_message : Option String
  pub pending_request_id : Option String

-- a row of `tasks`: the columns of a `TaskRecord`, and the counter of its events
pub record TaskRow : Type 0 where
  pub columns : TaskRecord
  pub open columns use *
  pub event_count : ℕ

pub data RequestStatus : Type 0 where
  pending resolved stale : RequestStatus

abbrev pub is_pending : RequestStatus → Bool
is_pending pending = true
is_pending resolved = false
is_pending stale = false

pub record PendingRequest : Type 0 where
  pub request_id : String
  pub task_id : String
  pub kind : String
  pub status : RequestStatus
  pub payload : String
  pub created_at : Timestamp
  pub expires_at : Option Timestamp
  pub resolved_at : Option Timestamp
  pub resolution : Option String

pub record EventRow : Type 0 where
  pub event_id : ℕ
  pub task_id : String
  pub event_type : String
  pub payload : String
  pub created_at : Timestamp

pub record BridgeEvent : Type 0 where
  pub event_id : ℕ
  pub task_id : String
  pub correlation_id : Option String
  pub event_type : String
  pub payload : String
  pub created_at : Timestamp
  pub schema_version : ℕ

-- `last_event_id` is what AUTOINCREMENT remembers
pub record Db : Type 0 where
  pub tasks : List TaskRow
  pub events : List EventRow
  pub requests : List PendingRequest
  pub last_event_id : ℕ

abbrev pub empty : Db
empty = record { tasks = []; events = []; requests = []; last_event_id = 0 }

-- WHERE task_id = ?
abbrev pub of_id : String → TaskRow → Bool
of_id id t = t.task_id == id

abbrev pub of_task : String → EventRow → Bool
of_task id e = e.task_id == id

-- WHERE request_id = ?
abbrev pub of_request : String → PendingRequest → Bool
of_request id r = r.request_id == id

-- WHERE column = ?, which no NULL meets
abbrev pub holds : Option String → String → Bool
holds none v = false
holds (some u) v = u == v

abbrev rollback_on_error {ℓ} : {A : Type ℓ} → Result A → Db → Db → Result A × Db
rollback_on_error (ok a) before after = (ok a, after)
rollback_on_error (err c) before after = (err c, before)

-- `with self._connect()`: commit on return, roll back on an exception
abbrev pub connect : {A : Type 0} → Action Db A → Action Db A
connect m db = rollback_on_error (m db).0 db (m db).1

-- `if row is None: raise`
abbrev pub require_row : {A : Type 0} → Option A → Code → Action Db A
require_row none c db = (err c, db)
require_row (some a) c db = (ok a, db)

abbrev pub lift : {A : Type 0} → Result A → Action Db A
lift r db = (r, db)

abbrev or_inline : String → String
or_inline s = if s == "" then "inline" else s

-- a text is loaded if it is neither NULL nor empty
abbrev loaded : Option String → Option String
loaded none = none
loaded (some s) = if s == "" then none else some s

unfoldable pub task_from_row : TaskRow → TaskRecord
task_from_row t = record t.columns {
  result_storage = or_inline t.result_storage;
  manifest = loaded t.manifest;
}

unfoldable pub request_from_row : PendingRequest → PendingRequest
request_from_row r = record r { resolution = loaded r.resolution }
