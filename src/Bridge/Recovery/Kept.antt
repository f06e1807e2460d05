-- ===== src/Bridge/Recovery/Kept.antt =====
-- The deletion of old tasks keeps the tasks that a guard names, and the tasks that have not ended.
use server_fs_mcp.Prelude.{
  [], ◌∷◌, List, String, Bool, All, ◌≡◌, arith, true, map, some, false, ◌==◌, All-map, subst, sym,
}
use server_fs_mcp.Bridge.Store.Tables.{TaskRow, TaskRecord, Timestamp, task_from_row, of_id}
use server_fs_mcp.Bridge.Lease.Artifacts.{Host}
use server_fs_mcp.Sql.{select_all, select_one}
use server_fs_mcp.Bridge.Store.Restart.{
  insert_by, order_by, list_terminal_before, completion, completed_before,
}
use server_fs_mcp.Bridge.Recovery.Retention.{gc_retained}
use server_fs_mcp.Bridge.Recovery.{World}
use server_fs_mcp.Bridge.Store.Consistent.{IsConsistent}
use server_fs_mcp.Bridge.Status.{is_terminal}
use server_fs_mcp.Bridge.Recovery.Retained.{IsGuarded, gc_from-Keeps, GuardedAt}
use server_fs_mcp.Sql.Keys.{only_row}

module _ {κ} (P : TaskRow → Type κ) where
  pub All-select_all :
      (p : TaskRow → Bool) (ts : List TaskRow)
      → All P ts
      → All (λ t. P t × (p t ≡ true)) (select_all p ts)
  unfolding select_all
  All-select_all p [] h = tt
  All-select_all p (t ∷ ts) h = ground (arith, All-select_all p ts h.1)

  All-insert_by :
      (key : TaskRow → Timestamp) (t : TaskRow) (ts : List TaskRow)
      → P t
      → All P ts
      → All P (insert_by key t ts)
  unfolding insert_by
  All-insert_by key t [] h hs = (h, tt)
  All-insert_by key t (u ∷ us) h hs = ground (arith, All-insert_by key t us h hs.1)

  pub All-order_by :
      (key : TaskRow → Timestamp) (ts : List TaskRow) → All P ts → All P (order_by key ts)
  unfolding order_by
  All-order_by key [] h = tt
  All-order_by key (t ∷ ts) h = All-insert_by key t (order_by key ts) h.0 (All-order_by key ts h.1)

pub All-records :
    (Q : TaskRecord → Type 0) (ts : List TaskRow)
    → All (λ t. Q (task_from_row t)) ts
    → All Q (map task_from_row ts)
All-records Q [] h = tt
All-records Q (t ∷ ts) h = (h.0, All-records Q ts h.1)

pub same_row :
    (id : String) (row : TaskRow) (w : World)
    → IsConsistent w.db
    → select_one (of_id id) w.db.tasks ≡ some row
    → All (λ t. t.task_id == id ≡ true → t ≡ row) w.db.tasks
same_row id row w c e = only_row (λ t. t.task_id) id w.db.tasks row c.ids e

module _ (host : Host) (spool_deletes : String → Bool) where
  gc_retained-keeps :
      (cutoff : Timestamp) (id : String) (row : TaskRow) (w : World)
      → IsConsistent w.db
      → select_one (of_id id) w.db.tasks ≡ some row
      → (completed_before cutoff row ≡ true → IsGuarded host w.guards (task_from_row row))
      → select_one (of_id id) (gc_retained host spool_deletes cutoff w).1.db.tasks ≡ some row
  unfolding gc_retained list_terminal_before task_from_row
  gc_retained-keeps cutoff id row w c e guarded =
      let old : List TaskRow = select_all (completed_before cutoff) w.db.tasks in
      (gc_from-Keeps host spool_deletes id row 0 (list_terminal_before cutoff w.db) w (
          All-records (GuardedAt host id w.guards) (order_by completion old) (
            All-order_by (λ t. GuardedAt host id w.guards (task_from_row t)) completion old
              (All-map _ _
                (λ t h hit.
                  subst (λ r. IsGuarded host w.guards (task_from_row r)) (sym (h.0 hit))
                    (guarded (subst (λ r. completed_before cutoff r ≡ true) (h.0 hit) h.1)))
                old
                (All-select_all _ (completed_before cutoff) w.db.tasks
                  (same_row id row w c e)))))).0
        e

  -- With the guards of a consistent store as they are, a task that a guard of its lease names is still
  -- there, unchanged, after the deletion of old tasks.
  pub gc_retained-keeps_guarded :
      (cutoff : Timestamp) (id : String) (row : TaskRow) (w : World)
      → IsConsistent w.db
      → select_one (of_id id) w.db.tasks ≡ some row
      → IsGuarded host w.guards (task_from_row row)
      → select_one (of_id id) (gc_retained host spool_deletes cutoff w).1.db.tasks ≡ some row
  gc_retained-keeps_guarded cutoff id row w c e guarded =
      gc_retained-keeps cutoff id row w c e (λ old. guarded)

  -- A task of a consistent store that has not ended is still there, unchanged, after the deletion of
  -- old tasks.
  pub gc_retained-keeps_active :
      (cutoff : Timestamp) (id : String) (row : TaskRow) (w : World)
      → IsConsistent w.db
      → select_one (of_id id) w.db.tasks ≡ some row
      → is_terminal row.status ≡ false
      → select_one (of_id id) (gc_retained host spool_deletes cutoff w).1.db.tasks ≡ some row
  gc_retained-keeps_active cutoff id row w c e active =
      gc_retained-keeps cutoff id row w c e (λ old. absurd (ground (arith, old, active)))
