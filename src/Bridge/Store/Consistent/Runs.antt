-- ===== src/Bridge/Store/Consistent/Runs.antt =====
-- Every sequence of calls keeps the tables of store.py consistent.
use server_fs_mcp.Bridge.Store.Tasks.{in_ids}
use server_fs_mcp.Bridge.Store.Tables.{Db, Timestamp, TaskRow}
use server_fs_mcp.Prelude.{List, ◌∷◌, String, All, refl, []}
use server_fs_mcp.Bridge.Status.{is_terminal}
use server_fs_mcp.Bridge.Store.Restart.{
  interrupt_nonterminal_tasks, interrupt_ids, interrupt, active_ids,
}
use server_fs_mcp.Bridge.Store.Consistent.{
  IsConsistent, TaskRow, IsSettled, update-IsConsistent, SameRequests-update, All-update,
}
use server_fs_mcp.Bridge.Store.Consistent.Tasks.{
  create_task-IsConsistent, transition_task-IsConsistent,
}
use server_fs_mcp.Bridge.Store.Consistent.Names.{
  set_native_ids-IsConsistent, delete_tasks-IsConsistent,
}
use server_fs_mcp.Bridge.Store.Consistent.Events.{append_event-IsConsistent}
use server_fs_mcp.Sql.Rows.{All-update}
use server_fs_mcp.Bridge.Store.Consistent.Requests.{create_pending_request-IsConsistent}
use server_fs_mcp.Bridge.Store.Consistent.Answers.{
  resolve_request-IsConsistent, abandon_pending_request-IsConsistent,
  stale_task_request-IsConsistent,
}
use server_fs_mcp.Bridge.Store.Calls.{
  perform, run, Call, IsProper, create, transition, set_ids, append, ask, answer, abandon, unask,
  interrupt_all, remove,
}

interrupt-IsSettled : (now : Timestamp) (t : TaskRow) → IsSettled (interrupt now t)
unfolding is_terminal
interrupt-IsSettled now t = record { done = λ h. (refl, refl); live = λ h. cc }

interrupt_ids-IsConsistent :
    (ids : List String) (now : Timestamp) (db : Db)
    → IsConsistent db
    → IsConsistent (interrupt_ids ids now db)
interrupt_ids-IsConsistent [] now db c = c
interrupt_ids-IsConsistent (i ∷ ids) now db c =
    update-IsConsistent (λ t. in_ids (i ∷ ids) t.task_id) (interrupt now)
      (record { same_id = λ t. refl; same_key = λ t. refl; same_count = λ t. refl }) db _
      (SameRequests-update _ _ (λ r. refl) (λ r. refl) db.requests)
      (All-update IsSettled IsSettled (λ t. in_ids (i ∷ ids) t.task_id) (interrupt now)
        (λ t s _. interrupt-IsSettled now t) (λ t s _. s) db.tasks c.settled)
      c

pub perform-IsConsistent :
    (call : Call) (db : Db) → IsProper call → IsConsistent db → IsConsistent (perform call db)
unfolding perform interrupt_nonterminal_tasks
perform-IsConsistent (create n limit now) db p c = create_task-IsConsistent n limit now db c
perform-IsConsistent (transition id target o now) db p c =
    transition_task-IsConsistent id target o now db c
perform-IsConsistent (set_ids id session turn now) db p c =
    set_native_ids-IsConsistent id session turn now db c
perform-IsConsistent (append id event_type payload max now) db p c =
    append_event-IsConsistent id event_type payload max now db c
perform-IsConsistent (ask n now) db p c = create_pending_request-IsConsistent n now db p c
perform-IsConsistent (answer id resolution now) db p c =
    resolve_request-IsConsistent id resolution now db c
perform-IsConsistent (abandon id now) db p c = abandon_pending_request-IsConsistent id now db c
perform-IsConsistent (unask id now) db p c = stale_task_request-IsConsistent id now db c
perform-IsConsistent (interrupt_all now) db p c =
    interrupt_ids-IsConsistent (active_ids db) now db c
perform-IsConsistent (remove ids) db p c = delete_tasks-IsConsistent ids db c

-- From consistent tables every sequence of calls, failing or not, leads to consistent tables, if
-- each question asks for a waiting status that is not terminal: task ids, idempotency keys and
-- request ids are unique, events and requests belong to tasks that exist, event ids ascend, the
-- counter of each task is the number of its events, and exactly the finished tasks have a time of
-- completion, and wait for nothing.
pub run-IsConsistent :
    (calls : List Call) (db : Db)
    → All IsProper calls
    → IsConsistent db
    → IsConsistent (run calls db)
unfolding run
run-IsConsistent [] db p c = c
run-IsConsistent (call ∷ calls) db p c =
    run-IsConsistent calls (perform call db) p.1 (perform-IsConsistent call db p.0 c)
