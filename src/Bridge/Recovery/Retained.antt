-- ===== src/Bridge/Recovery/Retained.antt =====
-- What the deletion of old tasks leaves: the tasks that a guard names.
use mathlib.Core.Option.{some-injective}
use server_fs_mcp.Bridge.Errors.{Result, ok, err, Result-cases, is_bridge_error}
use server_fs_mcp.Prelude.{
  [], ◌∷◌, String, Bool, ◌==◌, Option-cases, ◌≡◌, some, true, false, inl, inr, Bool-cases, refl,
  ◌&&◌, not, ◌||◌, Option, arith, subst, eq_iff, sym, ◌∙◌, ℕ, ap, List, All, ◌+◌,
}
use server_fs_mcp.Bridge.Lease.Artifacts.{Host}
use server_fs_mcp.Bridge.Guards.Files.{Dir, ActiveGuard, read, is_recorded}
use server_fs_mcp.Bridge.Store.Tables.{TaskRow, TaskRecord, of_id}
use server_fs_mcp.Bridge.Store.Tasks.{delete_tasks, in_ids}
use server_fs_mcp.Bridge.Recovery.Retention.{gc_task, gc_read, names_task, gc_from}
use server_fs_mcp.Bridge.Recovery.{World, task_lease_id}
use server_fs_mcp.Sql.{select_one}
use server_fs_mcp.Sql.Rows.{select_one-delete, select_one-holds}

apart_id :
    (id other mine : String)
    → other == id ≡ false
    → mine == id ≡ true
    → (mine == other || false) ≡ false
apart_id id other mine apart same = elim (Bool-cases (mine == other)) [
  | inr e ↦ rw e refl
  | inl e ↦ ground (arith, subst (λ v. v == id ≡ true) ((eq_iff mine other).0 e) same)
]

module _ (host : Host) where
  -- the guard of a task's lease names the task
  abbrev pub IsGuarded : Dir → TaskRecord → Type 0
  IsGuarded guards task =
      (lease_id : String) × (g : ActiveGuard) × (task_lease_id task ≡ some lease_id)
      × (read host lease_id guards ≡ ok (some g))
      × (is_recorded g.payload.task_id task.task_id ≡ true)

  -- a task with an id is guarded
  abbrev pub GuardedAt : String → Dir → TaskRecord → Type 0
  GuardedAt id guards task = task.task_id == id ≡ true → IsGuarded guards task

module _ (host : Host) (spool_deletes : String → Bool) where
  abbrev pub Keeps : String → TaskRow → World → World → Type 0
  Keeps id row before after =
      (select_one (of_id id) before.db.tasks ≡ some row
        → select_one (of_id id) after.db.tasks ≡ some row)
      × (after.guards ≡ before.guards)

  delete_one-Keeps :
      (id other : String) (row : TaskRow) (w : World)
      → other == id ≡ false
      → Keeps id row w (record w { db = (delete_tasks (other ∷ []) w.db).1 })
  unfolding delete_tasks
  delete_one-Keeps id other row w apart = (
    λ e.
        select_one-delete (of_id id) (λ t. in_ids (other ∷ []) t.task_id) w.db.tasks row e
          (apart_id id other row.task_id apart (select_one-holds (of_id id) w.db.tasks row e)),
    refl,
  )

  gc_read-Keeps :
      (id : String) (row : TaskRow) (task : TaskRecord) (r : Result (Option ActiveGuard))
      (w : World)
      → ((guard : Option ActiveGuard)
          → r ≡ ok guard
          → names_task guard task.task_id ≡ false
          → task.task_id == id ≡ false)
      → Keeps id row w (gc_read host spool_deletes task r w).1
  unfolding gc_read
  gc_read-Keeps id row task (err c) w apart = elim (Bool-cases (is_bridge_error c)) [
    | inl b ↦ rw b (λ k. k, refl)
    | inr b ↦ rw b (λ k. k, refl)
  ]
  gc_read-Keeps id row task (ok guard) w apart = elim (Bool-cases (names_task guard task.task_id)) [
    | inl n ↦ rw n (λ k. k, refl)
    | inr n ↦
        elim (Bool-cases (task.result_storage == "spool" && not (spool_deletes task.task_id))) [
          | inl s ↦ rw (n, s) (λ k. k, refl)
          | inr s ↦ rw (n, s) (delete_one-Keeps id task.task_id row w (apart guard refl n))
        ]
  ]

  unnamed_apart :
      (id : String) (task : TaskRecord) (guards : Dir) (lease_id : String)
      → task_lease_id task ≡ some lease_id
      → GuardedAt host id guards task
      → (guard : Option ActiveGuard) → read host lease_id guards ≡ ok guard
      → names_task guard task.task_id ≡ false
      → task.task_id == id ≡ false
  unnamed_apart id task guards lease_id e guarded guard e2 n =
      elim (Bool-cases (task.task_id == id)) [
        | inr apart ↦ apart
        | inl same ↦
            let (own, g, e3, e4, recorded) = guarded same in
            let leases : lease_id ≡ own = some-injective lease_id own (sym e ∙ e3) in
            let k : ok guard ≡ ok (some g) = sym e2 ∙ rw leases e4 in
            let same_guard : guard ≡ some g = cc k in
            cc (sym (ap (λ o. names_task o task.task_id) same_guard) ∙ n, recorded)
      ]

  gc_task-Keeps :
      (id : String) (row : TaskRow) (task : TaskRecord) (w : World)
      → GuardedAt host id w.guards task
      → Keeps id row w (gc_task host spool_deletes task w).1
  unfolding gc_task
  gc_task-Keeps id row task w guarded = elim (Option-cases (task_lease_id task)) [
    | inl e ↦ rw (e, gc_task) (λ k. k, refl)
    | inr (lease_id, e) ↦
        rw (e, gc_task)
          (gc_read-Keeps id row task (read host lease_id w.guards) w
            (unnamed_apart id task w.guards lease_id e guarded))
  ]

  pub gc_from-Keeps :
      (id : String) (row : TaskRow) (deleted : ℕ) (ts : List TaskRecord) (w : World)
      → All (GuardedAt host id w.guards) ts
      → Keeps id row w (gc_from host spool_deletes deleted ts w).1
  unfolding gc_from
  gc_from-Keeps id row deleted [] w all_guarded = (λ k. k, refl)
  gc_from-Keeps id row deleted (t ∷ ts) w all_guarded =
      let (kept, same) = gc_task-Keeps id row t w all_guarded.0 in
      elim (Result-cases (gc_task host spool_deletes t w).0) [
        | inr (c, e) ↦ rw e (kept, same)
        | inl (n, e) ↦
            let (later, still) =
              gc_from-Keeps id row (deleted + n) ts (gc_task host spool_deletes t w).1
                (rw same all_guarded.1) in
            rw e (λ k. later (kept k), still ∙ same)
      ]
