-- ===== src/Bridge/Store/Calls.antt =====
-- The methods of `TaskStore` that change the tables, as steps of one state machine.
use server_fs_mcp.Bridge.Store.Tasks.{
  NewTask, create_task, transition_task, set_native_ids, Overrides, delete_tasks,
}
use server_fs_mcp.Bridge.Store.Tables.{Db, Timestamp}
use server_fs_mcp.Prelude.{List, Option, ◌∷◌, ◌≡◌, ℕ, false, String, []}
use server_fs_mcp.Bridge.Status.{is_terminal, TaskStatus}
use server_fs_mcp.Bridge.Store.Events.{append_event}
use server_fs_mcp.Bridge.Store.Requests.{
  create_pending_request, resolve_request, NewRequest, abandon_pending_request, stale_task_request,
}
use server_fs_mcp.Bridge.Store.Restart.{interrupt_nonterminal_tasks}

pub data Call : Type 0 where
  create : NewTask → Option ℕ → Timestamp → Call
  transition : String → TaskStatus → Overrides → Timestamp → Call
  set_ids : String → Option String → Option String → Timestamp → Call
  append : String → String → String → Option ℕ → Timestamp → Call
  ask : NewRequest → Timestamp → Call
  answer : String → String → Timestamp → Call
  abandon : String → Timestamp → Call
  unask : String → Timestamp → Call
  interrupt_all : Timestamp → Call
  remove : List String → Call

-- the tables after a call, whether it returned or raised
unfoldable pub perform : Call → Db → Db
perform (create n limit now) db = (create_task n limit now db).1
perform (transition id target o now) db = (transition_task id target o now db).1
perform (set_ids id session turn now) db = (set_native_ids id session turn now db).1
perform (append id event_type payload max now) db =
    (append_event id event_type payload max now db).1
perform (ask n now) db = (create_pending_request n now db).1
perform (answer id resolution now) db = (resolve_request id resolution now db).1
perform (abandon id now) db = (abandon_pending_request id now db).1
perform (unask id now) db = (stale_task_request id now db).1
perform (interrupt_all now) db = (interrupt_nonterminal_tasks now db).1
perform (remove ids) db = (delete_tasks ids db).1

unfoldable pub run : List Call → Db → Db
run [] db = db
run (c ∷ cs) db = run cs (perform c db)

-- a task is asked to wait in a status that is not terminal
abbrev pub IsProper : Call → Type 0
IsProper (ask n now) = is_terminal n.waiting_status ≡ false
IsProper _ = Unit
