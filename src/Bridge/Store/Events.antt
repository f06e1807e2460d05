-- ===== src/Bridge/Store/Events.antt =====
-- The methods of `TaskStore` that append and list events.
use server_fs_mcp.Prelude.{
  ℕ, ◌+◌, String, Bool, Option, none, some, List, [], ◌∷◌, ◌++◌, ◌&&◌, ltb, nat_eq, map, take,
  if◌then◌else◌, false, not,
}
use server_fs_mcp.Sql.{select_one, select_all, count, update}
use server_fs_mcp.Bridge.Errors
use server_fs_mcp.Bridge.Errors.{Action, pure, raise, ◌>>=◌, ◌>>◌}
use server_fs_mcp.Bridge.Store.Tables.{
  Timestamp, TaskRow, EventRow, BridgeEvent, Db, of_id, of_task, connect, require_row,
}
use server_fs_mcp.Bridge.Store.Tasks.{get_task}

abbrev pub counted_up : TaskRow → TaskRow
counted_up t = record t { event_count = t.event_count + 1 }

-- WHERE task_id = ? AND event_count < ?
abbrev pub has_room : String → Option ℕ → TaskRow → Bool
has_room id none t = of_id id t
has_room id (some n) t = of_id id t && ltb t.event_count n

-- the test of `rowcount`, made only where there is a limit
abbrev pub no_row_counted : String → Option ℕ → List TaskRow → Bool
no_row_counted id none ts = false
no_row_counted id (some n) ts = not (nat_eq (count (has_room id (some n)) ts) 1)

abbrev pub inserted_event : String → String → String → Timestamp → ℕ → EventRow
inserted_event id event_type payload now event_id = record {
  event_id = event_id;
  task_id = id;
  event_type = event_type;
  payload = payload;
  created_at = now;
}

abbrev pub event_of : Option String → EventRow → BridgeEvent
event_of correlation_id e = record {
  event_id = e.event_id;
  task_id = e.task_id;
  correlation_id = correlation_id;
  event_type = e.event_type;
  payload = e.payload;
  created_at = e.created_at;
  schema_version = 1;
}

unfoldable pub append_event :
    String → String → String → Option ℕ → Timestamp → Action Db BridgeEvent
append_event id event_type payload max_events now = connect λ db.
    (do
      row ← require_row (select_one (of_id id) db.tasks) Errors.task_not_found
      if no_row_counted id max_events db.tasks then raise Errors.event_limit_reached else λ db.
          let new = inserted_event id event_type payload now (db.last_event_id + 1) in
          (
            Errors.ok (event_of row.correlation_id new),
            record db {
              tasks = update (has_room id max_events) counted_up db.tasks;
              events = db.events ++ new ∷ [];
              last_event_id = db.last_event_id + 1;
            },
          ))
      db

unfoldable pub count_events : String → Db → ℕ
count_events id db = count (of_task id) db.events

-- WHERE task_id = ? AND event_id > ?; the table is kept in the order of its primary key, which is
-- the order that the statement asks for
abbrev pub after_cursor : String → ℕ → EventRow → Bool
after_cursor id cursor e = of_task id e && ltb cursor e.event_id

unfoldable pub list_events : String → ℕ → ℕ → Action Db (List BridgeEvent)
unfolding get_task
list_events id cursor limit = do
  task ← get_task id
  λ db. (
    Errors.ok (
        map (event_of task.correlation_id)
          (take limit (select_all (after_cursor id cursor) db.events))),
    db,
  )
