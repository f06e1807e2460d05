-- ===== src/Bridge/Store/Limits.antt =====
-- The limits that `create_task` and `append_event` keep.
use server_fs_mcp.Sql.{count}
use server_fs_mcp.Bridge.Store.Tasks.{
  count_nonterminal_tasks, NewTask, is_active, create_task, new_row,
}
use server_fs_mcp.Prelude.{
  List, ℕ, ◌++◌, ◌∷◌, ◌≤◌, [], ◌+◌, some, inl, inr, arith, String, All, ◌≡◌, true, subst, sym,
  All-pair,
}
use server_fs_mcp.Bridge.Store.Tables.{TaskRow, Timestamp, Db, of_id}
use server_fs_mcp.Bridge.Store.Consistent.Tasks.{create_task-effect}
use server_fs_mcp.Bridge.Store.Consistent.{IsConsistent}
use server_fs_mcp.Bridge.Store.Events.{append_event, counted_up}
use server_fs_mcp.Bridge.Store.Consistent.Events.{append_event-effect}
use server_fs_mcp.Sql.Keys.{only_row}
use server_fs_mcp.Sql.Rows.{All-update}

count-append_one :
    (ts : List TaskRow) (t : TaskRow) → count is_active (ts ++ t ∷ []) ≤ count is_active ts + 1
unfolding count
count-append_one [] t = ground arith
count-append_one (u ∷ ts) t = ground (arith, count-append_one ts t)

-- With a limit on active tasks, creating a task, whatever its outcome, leaves no more tasks active
-- than the limit, where there were no more before.
pub create_task-limit :
    (n : NewTask) (limit : ℕ) (now : Timestamp) (db : Db)
    → count_nonterminal_tasks db ≤ limit
    → count_nonterminal_tasks (create_task n (some limit) now db).1 ≤ limit
unfolding count_nonterminal_tasks
create_task-limit n limit now db h = elim (create_task-effect n (some limit) now db) [
  | inl e ↦ rw e h
  | inr (_, _, free, e) ↦ rw e (ground (arith, count-append_one db.tasks (new_row n now), free))
]

-- Appending an event under a limit, whatever its outcome, leaves no task of consistent tables with
-- more events than the limit, where none had more before.
pub append_event-limit :
    (id event_type payload : String) (max : ℕ) (now : Timestamp) (db : Db)
    → IsConsistent db
    → All (λ t. t.event_count ≤ max) db.tasks
    → All (λ t. t.event_count ≤ max) (append_event id event_type payload (some max) now db).1.tasks
append_event-limit id event_type payload max now db c h =
    elim (append_event-effect id event_type payload (some max) now db c) [
      | inl e ↦ rw e h
      | inr (row, found, room, e) ↦
          let only : All (λ t. of_id id t ≡ true → t ≡ row) db.tasks =
            only_row (λ t. t.task_id) id db.tasks row c.ids found in
          rw e (
            All-update (λ t. (t.event_count ≤ max) × (of_id id t ≡ true → t ≡ row))
              (λ t. t.event_count ≤ max) (of_id id) counted_up
              (λ t p hit.
                subst (λ u. u.event_count + 1 ≤ max) (sym (p.1 hit)) (ground (arith, room)))
              (λ t p miss. p.0) db.tasks
              (All-pair (λ t. t.event_count ≤ max) (λ t. of_id id t ≡ true → t ≡ row) db.tasks h
                only))
    ]
