-- ===== src/Bridge/Recovery/Retention.antt =====
-- `BridgeService._gc_retained`: the deletion of tasks that have ended long ago.
use server_fs_mcp.Bridge.Errors
use server_fs_mcp.Bridge.Errors.{Result, ok, err, Action, pure, raise, ◌>>=◌, ◌>>◌, is_bridge_error}
use server_fs_mcp.Prelude.{
  Option, String, Bool, false, ℕ, some, List, ◌∷◌, if◌then◌else◌, none, ◌==◌, ◌+◌, ◌&&◌, [], not,
}
use server_fs_mcp.Bridge.Lease.Artifacts.{Host}
use server_fs_mcp.Bridge.Guards.Files.{ActiveGuard, read, is_recorded}
use server_fs_mcp.Bridge.Store.Tasks.{delete_tasks}
use server_fs_mcp.Bridge.Recovery.{task_lease_id, World}
use server_fs_mcp.Bridge.Store.Restart.{list_terminal_before}
use server_fs_mcp.Bridge.Store.Tables.{TaskRecord, Timestamp}

abbrev pub names_task : Option ActiveGuard → String → Bool
names_task none id = false
names_task (some g) id = is_recorded g.payload.task_id id

-- `spool_deletes` is false where deleting the spooled result of a task raises a `BridgeError`
module _ (host : Host) (spool_deletes : String → Bool) where
  unfoldable pub gc_read : TaskRecord → Result (Option ActiveGuard) → Action World ℕ
  unfolding delete_tasks
  gc_read task (err c) = if is_bridge_error c then pure 0 else raise c
  gc_read task (ok guard) =
      if names_task guard task.task_id
      then pure 0
      else if task.result_storage == "spool" && not (spool_deletes task.task_id)
      then pure 0
      else λ w. let r = delete_tasks (task.task_id ∷ []) w.db in (ok r.0, record w { db = r.1 })

  -- the body of the loop; the number is what it adds to `deleted`
  unfoldable pub gc_task : TaskRecord → Action World ℕ
  unfolding gc_read task_lease_id read
  gc_task task = elim (task_lease_id task) [
    | none ↦ raise Errors.not_a_bridge_error
    | some lease_id ↦ λ w. gc_read task (read host lease_id w.guards) w
  ]

  unfoldable pub gc_from : ℕ → List TaskRecord → Action World ℕ
  unfolding gc_task
  gc_from deleted [] = pure deleted
  gc_from deleted (t ∷ ts) = do n ← gc_task t; gc_from (deleted + n) ts

  unfoldable pub gc_retained : Timestamp → Action World ℕ
  unfolding gc_from list_terminal_before
  gc_retained cutoff w = gc_from 0 (list_terminal_before cutoff w.db) w
