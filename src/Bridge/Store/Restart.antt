-- ===== src/Bridge/Store/Restart.antt =====
-- The methods of `TaskStore` over many tasks: `interrupt_nonterminal_tasks`, which the service itself does
-- not call (its start is Bridge.Recovery.Startup), and what is listed.
use Prim.Native.String
use text.Mathlib.Text.{is_lt}
use server_fs_mcp.Prelude.{
  ℕ, String, Bool, false, none, some, List, [], ◌∷◌, ◌&&◌, map, coalesce, if◌then◌else◌, length,
}
use server_fs_mcp.Sql.{select_all, update}
use server_fs_mcp.Bridge.Status.{interrupted, is_terminal}
use server_fs_mcp.Bridge.Store.Tables.{
  Timestamp, TaskRecord, TaskRow, Db, stale, is_pending, task_from_row,
}
use server_fs_mcp.Bridge.Store.Tasks.{is_active, in_ids}

abbrev pub interrupt : Timestamp → TaskRow → TaskRow
interrupt now t = record t {
  columns = record t.columns {
    status = interrupted;
    completed_at = some now;
    updated_at = now;
    pending_request_id = none;
    error_code = coalesce t.error_code (some "BRIDGE_RESTARTED");
    error_message = coalesce t.error_message (some "bridge restarted while task was active");
  };
}

-- the two UPDATEs run only where there is a task to interrupt
abbrev pub interrupt_ids : List String → Timestamp → Db → Db
interrupt_ids [] now db = db
interrupt_ids (i ∷ ids) now db = record db {
  tasks = update (λ t. in_ids (i ∷ ids) t.task_id) (interrupt now) db.tasks;
  requests =
      update (λ r. in_ids (i ∷ ids) r.task_id && is_pending r.status)
        (λ r. record r { status = stale; resolved_at = some now }) db.requests;
}

abbrev pub active_ids : Db → List String
active_ids db = map (λ (t : TaskRow). t.task_id) (select_all is_active db.tasks)

unfoldable pub interrupt_nonterminal_tasks : Timestamp → Db → ℕ × Db
interrupt_nonterminal_tasks now db =
    let ids = active_ids db in (length ids, interrupt_ids ids now db)

-- BINARY collation
abbrev pub before : Timestamp → Timestamp → Bool
before s t = is_lt (String.compare s t)

-- ORDER BY … ASC
module _ (key : TaskRow → Timestamp) where
  unfoldable pub insert_by : TaskRow → List TaskRow → List TaskRow
  insert_by t [] = t ∷ []
  insert_by t (u ∷ us) = if before (key u) (key t) then u ∷ insert_by t us else t ∷ u ∷ us

  unfoldable pub order_by : List TaskRow → List TaskRow
  order_by [] = []
  order_by (t ∷ ts) = insert_by t (order_by ts)

unfoldable pub list_nonterminal_tasks : Db → List TaskRecord
unfolding order_by insert_by
list_nonterminal_tasks db =
    map task_from_row (order_by (λ t. t.created_at) (select_all is_active db.tasks))

-- completed_at IS NOT NULL AND completed_at < ?
abbrev pub completed_before : Timestamp → TaskRow → Bool
completed_before cutoff t =
    is_terminal t.status && elim t.completed_at [ none ↦ false | some c ↦ before c cutoff ]

abbrev pub completion : TaskRow → Timestamp
completion t = elim t.completed_at [ none ↦ "" | some c ↦ c ]

unfoldable pub list_terminal_before : Timestamp → Db → List TaskRecord
unfolding order_by insert_by
list_terminal_before cutoff db =
    map task_from_row (order_by completion (select_all (completed_before cutoff) db.tasks))
