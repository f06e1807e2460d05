-- ===== src/Bridge/Store/Requests.antt =====
-- The methods of `TaskStore` on the questions and approvals that a task waits for.
use server_fs_mcp.Prelude.{
  String, Bool, Option, none, some, [], ◌∷◌, ◌++◌, ◌&&◌, is_some, if◌then◌else◌, ◌||◌, nat_eq,
}
use server_fs_mcp.Sql.{select_one, update, exists, count}
use server_fs_mcp.Bridge.Errors
use server_fs_mcp.Bridge.Errors.{Action, Result, pure, raise, ◌>>=◌, ◌>>◌}
use server_fs_mcp.Bridge.Status.{
  TaskStatus, running, waiting_for_approval, waiting_for_question, validate_transition, same_status,
}
use server_fs_mcp.Bridge.Store.Tables.{
  Timestamp, TaskRow, PendingRequest, Db, pending, resolved, is_pending, of_id, of_request, holds,
  connect, require_row, lift, request_from_row,
}
use server_fs_mcp.Bridge.Store.Tasks.{stale_request}

unfoldable pub get_request : String → Action Db PendingRequest
unfolding request_from_row
get_request id db =
    (do
      row ← require_row (select_one (of_request id) db.requests) Errors.request_not_found
      pure (request_from_row row))
      db

-- the arguments of `create_pending_request`
pub record NewRequest : Type 0 where
  pub task_id : String
  pub request_id : String
  pub kind : String
  pub payload : String
  pub waiting_status : TaskStatus
  pub expires_at : Option Timestamp

abbrev pub request_row : NewRequest → Timestamp → PendingRequest
request_row n now = record {
  request_id = n.request_id;
  task_id = n.task_id;
  kind = n.kind;
  status = pending;
  payload = n.payload;
  created_at = now;
  expires_at = n.expires_at;
  resolved_at = none;
  resolution = none;
}

-- UPDATE tasks SET status, pending_request_id, updated_at
abbrev pub set_waiting : TaskStatus → Option String → Timestamp → TaskRow → TaskRow
set_waiting s request now t = record t {
  columns = record t.columns { status = s; pending_request_id = request; updated_at = now };
}

unfoldable pub create_pending_request : NewRequest → Timestamp → Action Db PendingRequest
unfolding validate_transition get_request
create_pending_request n now = do
  connect λ db.
      (do
        task ← require_row (select_one (of_id n.task_id) db.tasks) Errors.task_not_found
        if is_some task.pending_request_id then raise Errors.request_pending else pure tt
        lift (validate_transition task.status n.waiting_status)
        if exists (of_request n.request_id) db.requests then raise Errors.request_exists else λ db.
            (
              Errors.ok tt,
              record db {
                tasks =
                    update (of_id n.task_id) (set_waiting n.waiting_status (some n.request_id) now)
                      db.tasks;
                requests = db.requests ++ request_row n now ∷ [];
              },
            ))
        db
  get_request n.request_id

-- WHERE task_id = ? AND pending_request_id = ?
abbrev pub waits_for : String → String → TaskRow → Bool
waits_for id request t = of_id id t && holds t.pending_request_id request

abbrev pub is_open : String → PendingRequest → Bool
is_open id r = of_request id r && is_pending r.status

unfoldable pub resolve_request : String → String → Timestamp → Action Db PendingRequest
unfolding validate_transition get_request
resolve_request id resolution now = do
  connect λ db.
      (do
        req ← require_row (select_one (of_request id) db.requests) Errors.request_not_found
        if is_pending req.status then pure tt else raise Errors.request_already_resolved
        task ← require_row (select_one (of_id req.task_id) db.tasks) Errors.task_not_found
        if holds task.pending_request_id id then pure tt else raise Errors.request_stale
        lift (validate_transition task.status running)
        if nat_eq (count (is_open id) db.requests) 1
            then pure tt
            else raise Errors.request_already_resolved
        if nat_eq (count (waits_for req.task_id id) db.tasks) 1
            then pure tt
            else raise Errors.request_stale
        λ db. (
          Errors.ok tt,
          record db {
            requests =
                update (is_open id)
                  (λ r. record r {
                    status = resolved;
                    resolved_at = some now;
                    resolution = some resolution;
                  })
                  db.requests;
            tasks = update (waits_for req.task_id id) (set_waiting running none now) db.tasks;
          },
        ))
        db
  get_request id

abbrev pub is_waiting : TaskStatus → Bool
is_waiting s = same_status s waiting_for_approval || same_status s waiting_for_question

abbrev resume : String → TaskRow → Option String → Timestamp → Action Db (Option String)
resume id task none now db = pure none db
resume id task (some request) now db =
    if is_waiting task.status
    then (
      Errors.ok (some request),
      record db {
        requests = stale_request (some request) now db.requests;
        tasks = update (waits_for id request) (set_waiting running none now) db.tasks;
      },
    )
    else raise Errors.request_stale db

unfoldable pub abandon_pending_request : String → Timestamp → Action Db (Option String)
unfolding stale_request
abandon_pending_request id now = connect λ db.
    (do
      task ← require_row (select_one (of_id id) db.tasks) Errors.task_not_found
      resume id task task.pending_request_id now)
      db

abbrev pub unwait : Timestamp → TaskRow → TaskRow
unwait now t = record t {
  columns = record t.columns { pending_request_id = none; updated_at = now };
}

abbrev clear_request : String → Option String → Timestamp → Action Db (Unit {0})
clear_request id none now db = pure tt db
clear_request id (some request) now db = (
  Errors.ok tt,
  record db {
    requests = stale_request (some request) now db.requests;
    tasks = update (waits_for id request) (unwait now) db.tasks;
  },
)

unfoldable pub stale_task_request : String → Timestamp → Action Db (Unit {0})
unfolding stale_request
stale_task_request id now = connect λ db.
    (do
      task ← require_row (select_one (of_id id) db.tasks) Errors.task_not_found
      clear_request id task.pending_request_id now)
      db
