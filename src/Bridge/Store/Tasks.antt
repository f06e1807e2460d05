-- ===== src/Bridge/Store/Tasks.antt =====
-- The methods of `TaskStore` that create, read, move and delete tasks.
use server_fs_mcp.Prelude.{
  ℕ, String, Bool, false, not, Option, none, some, List, [], ◌∷◌, ◌++◌, ◌==◌, ◌&&◌, ◌||◌, leb, any,
  if◌then◌else◌, coalesce,
}
use server_fs_mcp.Sql.{select_one, count, update, delete, exists}
use server_fs_mcp.Bridge.Errors
use server_fs_mcp.Bridge.Errors.{Action, pure, raise, ◌>>=◌, ◌>>◌}
use server_fs_mcp.Bridge.Status.{
  TaskStatus, queued, starting, same_status, is_terminal, validate_transition,
}
use server_fs_mcp.Bridge.Store.Tables.{
  Timestamp, TaskRecord, TaskRow, PendingRequest, Db, stale, is_pending, of_id, of_request, holds,
  connect, require_row, lift, task_from_row,
}

-- the arguments of `create_task`
pub record NewTask : Type 0 where
  pub task_id : String
  pub runtime : String
  pub workdir_alias : String
  pub workdir_slot : ℕ
  pub relative_cwd : String
  pub profile : String
  pub continue_from_task_id : Option String
  pub requested_model : Option String
  pub deadline_at : Option Timestamp
  pub correlation_id : Option String
  pub idempotency_key : Option String
  pub request_fingerprint : Option String
  pub manifest_json : Option String
  pub manifest_sha256 : Option String

-- status NOT IN terminal
abbrev pub is_active : TaskRow → Bool
is_active t = not (is_terminal t.status)

unfoldable pub count_nonterminal_tasks : Db → ℕ
count_nonterminal_tasks db = count is_active db.tasks

unfoldable pub get_task : String → Action Db TaskRecord
unfolding task_from_row
get_task id db =
    (do
      row ← require_row (select_one (of_id id) db.tasks) Errors.task_not_found
      pure (task_from_row row))
      db

abbrev pub of_key : String → TaskRow → Bool
of_key key t = holds t.idempotency_key key

unfoldable pub get_task_by_idempotency_key : String → Db → Option TaskRecord
get_task_by_idempotency_key key db = elim (select_one (of_key key) db.tasks) [
  | none ↦ none
  | some row ↦ some (task_from_row row)
]

-- the row of INSERT INTO tasks, the columns that it does not name at their defaults
abbrev pub new_row : NewTask → Timestamp → TaskRow
new_row n now = record {
  columns = record {
    task_id = n.task_id;
    runtime = n.runtime;
    workdir_alias = n.workdir_alias;
    workdir_slot = n.workdir_slot;
    relative_cwd = n.relative_cwd;
    profile = n.profile;
    requested_model = n.requested_model;
    status = queued;
    created_at = now;
    started_at = none;
    updated_at = now;
    completed_at = none;
    deadline_at = n.deadline_at;
    continue_from_task_id = n.continue_from_task_id;
    correlation_id = n.correlation_id;
    idempotency_key = n.idempotency_key;
    request_fingerprint = n.request_fingerprint;
    native_session_id = none;
    native_turn_id = none;
    final_response = none;
    result_storage = "inline";
    result_size_bytes = none;
    result_sha256 = none;
    manifest = n.manifest_json;
    manifest_sha256 = n.manifest_sha256;
    error_code = none;
    error_message = none;
    pending_request_id = none;
  };
  event_count = 0;
}

-- the unique index on `idempotency_key`
abbrev pub key_taken : Option String → List TaskRow → Bool
key_taken none ts = false
key_taken (some key) ts = exists (of_key key) ts

abbrev pub limit_reached : Option ℕ → Db → Bool
limit_reached none db = false
limit_reached (some n) db = leb n (count_nonterminal_tasks db)

-- INSERT INTO tasks, with the handler of `sqlite3.IntegrityError`
unfoldable pub insert_task : TaskRow → Action Db (Unit {0})
insert_task t db =
    if exists (of_id t.task_id) db.tasks || key_taken t.idempotency_key db.tasks
    then if key_taken t.idempotency_key db.tasks
      then raise Errors.idempotency_conflict db
      else raise Errors.task_exists db
    else pure tt (record db { tasks = db.tasks ++ t ∷ [] })

unfoldable pub create_task : NewTask → Option ℕ → Timestamp → Action Db TaskRecord
unfolding insert_task count_nonterminal_tasks
create_task new max_active_tasks now = do
  connect λ db.
      if limit_reached max_active_tasks db
      then raise Errors.task_limit_reached db
      else insert_task (new_row new now) db
  get_task new.task_id

-- the keyword arguments of `transition_task`; `none` is `_UNSET`
pub record Overrides : Type 0 where
  pub pending_request_id : Option (Option String)
  pub native_session_id : Option (Option String)
  pub native_turn_id : Option (Option String)
  pub final_response : Option (Option String)
  pub result_storage : Option String
  pub result_size_bytes : Option (Option ℕ)
  pub result_sha256 : Option (Option String)
  pub error_code : Option (Option String)
  pub error_message : Option (Option String)

abbrev pub set_or {ℓ} : {A : Type ℓ} → Option A → A → A
set_or none old = old
set_or (some new) old = new

-- UPDATE tasks SET … of a transition
unfoldable pub moved : TaskStatus → Overrides → Timestamp → TaskRow → TaskRow
moved target o now t = record t {
  columns = record t.columns {
    status = target;
    updated_at = now;
    started_at =
        if same_status t.status queued && same_status target starting
        then some now
        else t.started_at;
    completed_at = if is_terminal target then some now else t.completed_at;
    pending_request_id =
        if is_terminal target then none else set_or o.pending_request_id t.pending_request_id;
    native_session_id = set_or o.native_session_id t.native_session_id;
    native_turn_id = set_or o.native_turn_id t.native_turn_id;
    final_response = set_or o.final_response t.final_response;
    result_storage = set_or o.result_storage t.result_storage;
    result_size_bytes = set_or o.result_size_bytes t.result_size_bytes;
    result_sha256 = set_or o.result_sha256 t.result_sha256;
    error_code = set_or o.error_code t.error_code;
    error_message = set_or o.error_message t.error_message;
  };
}

-- UPDATE pending_requests SET status = 'stale' … WHERE request_id = ? AND status = 'pending'
unfoldable pub stale_request : Option String → Timestamp → List PendingRequest → List PendingRequest
stale_request none now rs = rs
stale_request (some id) now rs =
    update (λ r. of_request id r && is_pending r.status)
      (λ r. record r { status = stale; resolved_at = some now }) rs

unfoldable pub transition_task : String → TaskStatus → Overrides → Timestamp → Action Db TaskRecord
unfolding validate_transition moved get_task
transition_task id target o now = do
  connect λ db.
      (do
        row ← require_row (select_one (of_id id) db.tasks) Errors.task_not_found
        lift (validate_transition row.status target)
        λ db. (
          Errors.ok tt,
          record db {
            tasks = update (of_id id) (moved target o now) db.tasks;
            requests =
                if is_terminal target
                then stale_request row.pending_request_id now db.requests
                else db.requests;
          },
        ))
        db
  get_task id

unfoldable pub named : Option String → Option String → Timestamp → TaskRow → TaskRow
named session turn now t = record t {
  columns = record t.columns {
    native_session_id = coalesce session t.native_session_id;
    native_turn_id = coalesce turn t.native_turn_id;
    updated_at = now;
  };
}

unfoldable pub set_native_ids :
    String → Option String → Option String → Timestamp → Action Db TaskRecord
unfolding named get_task
set_native_ids id session turn now = do
  connect λ db.
      (do
        row ← require_row (select_one (of_id id) db.tasks) Errors.task_not_found
        λ db. (
          Errors.ok tt,
          record db { tasks = update (of_id id) (named session turn now) db.tasks },
        ))
        db
  get_task id

abbrev pub in_ids : List String → String → Bool
in_ids ids id = any (λ i. id == i) ids

-- DELETE FROM tasks WHERE task_id IN ids; the foreign keys are ON DELETE CASCADE
unfoldable pub delete_tasks : List String → Db → ℕ × Db
delete_tasks [] db = (0, db)
delete_tasks (i ∷ ids) db =
    let gone = in_ids (i ∷ ids) in
    (
      count (λ t. gone t.task_id) db.tasks,
      record db {
        tasks = delete (λ t. gone t.task_id) db.tasks;
        events = delete (λ e. gone e.task_id) db.events;
        requests = delete (λ r. gone r.task_id) db.requests;
      },
    )
