-- ===== src/Bridge/Recovery/Started.antt =====
-- A start ends every task that it does not find attached again.
use server_fs_mcp.Bridge.Errors.{◌>>◌, pure}
use server_fs_mcp.Bridge.Guards.Manager.{remove}
use server_fs_mcp.Prelude.{
  some, String, Bool, Option, Bool-cases, if◌then◌else◌, ◌==◌, ◌&&◌, inr, ℕ, inl, Option-cases,
  List, ◌∷◌, ◌+◌, [], not, true, none,
}
use server_fs_mcp.Bridge.Recovery.{
  RecoveryHost, ReconcileResult, effective_provider_active, Report, task_reconciled, in_db,
  task_lease_id, in_guards, probe_reconciliation, reconcile_guard,
}
use server_fs_mcp.Bridge.Recovery.Startup.{
  drop_guard, end_at_start, is_inactive, report, startup_task, startup_tasks, startup_guards,
  skipped, is_reattached, ignoring, alone,
}
use server_fs_mcp.Bridge.Store.Tables.{TaskRecord, Timestamp}
use server_fs_mcp.Bridge.Recovery.Carried.{
  WorldCarries, bind-WorldCarries, probe_reconciliation-Carries, if-WorldCarries,
}
use server_fs_mcp.Bridge.Recovery.Ended.{IsKept-refl}
use server_fs_mcp.Bridge.Recovery.Restarted.{
  ignoring-IsKept, interrupting-WorldCarries, report-WorldCarries, reconcile_guard-WorldCarries,
}
use server_fs_mcp.Bridge.Guards.Files.{ActiveGuard}

module _ (id : String) (provider : RecoveryHost) where
  open provider use {host, unlinks, is_expired}

  drop_guard-WorldCarries :
      (task : TaskRecord) (active : Option Bool) → WorldCarries id (drop_guard provider task active)
  unfolding drop_guard
  drop_guard-WorldCarries task active w =
      elim (Bool-cases (task.profile == "workspace-write" && is_inactive active)) [
        | inr e ↦ rw e (IsKept-refl id w.db)
        | inl e ↦ elim (Option-cases (task_lease_id task)) [
          | inl e2 ↦ rw (e, e2) (IsKept-refl id w.db)
          | inr (lease_id, e2) ↦
              rw (e, e2)
                (ignoring-IsKept id provider w.db
                  (in_guards (remove host unlinks lease_id task.task_id) w) (IsKept-refl id w.db))
        ]
      ]

  -- what follows the interruption of a task
  pub closing-WorldCarries :
      (task : TaskRecord) (told : Report) (active : Option Bool) (now : Timestamp)
      → WorldCarries id {A = ℕ}
          (report provider task.task_id told now >> (drop_guard provider task active >> pure 1))
  closing-WorldCarries task told active now =
      bind-WorldCarries id (report provider task.task_id told now)
        (λ u. drop_guard provider task active >> pure 1)
        (report-WorldCarries id provider task.task_id told now)
        λ u.
          bind-WorldCarries id {B = ℕ} (drop_guard provider task active) (λ v. pure 1)
            (drop_guard-WorldCarries task active) (λ v w. IsKept-refl id w.db)

  pub end_at_start-WorldCarries :
      (stopped : Bool) (now : Timestamp) (task : TaskRecord) (timed_out : Bool)
      (result : ReconcileResult)
      → WorldCarries id (end_at_start provider stopped now task timed_out result)
  unfolding end_at_start
  end_at_start-WorldCarries stopped now task timed_out result =
      let error_code : String = if timed_out then "AGENT_TASK_TIMED_OUT" else "BRIDGE_RESTARTED" in
      let active : Option Bool = effective_provider_active result stopped in
      let told : Report = task_reconciled result.status active (some error_code) in
      bind-WorldCarries id _ _ (interrupting-WorldCarries id provider task.task_id error_code _ now)
        (λ moved. closing-WorldCarries task told active now)

  pub startup_task-WorldCarries :
      (stopped : Bool) (now : Timestamp) (task : TaskRecord)
      → WorldCarries id (startup_task provider stopped now task)
  unfolding startup_task
  startup_task-WorldCarries stopped now task =
      bind-WorldCarries id {B = ℕ} (in_db (probe_reconciliation provider alone task.task_id now)) _
        (λ w. probe_reconciliation-Carries id provider task.task_id now w.db)
        λ result.
          if-WorldCarries id (is_reattached result.status && not (is_expired task.deadline_at))
            (report provider task.task_id (task_reconciled result.status (some true) none) now
              >> pure 0)
            (end_at_start provider stopped now task (is_expired task.deadline_at) result)
            (λ w.
              report-WorldCarries id provider task.task_id
                (task_reconciled result.status (some true) none) now w)
            (end_at_start-WorldCarries stopped now task (is_expired task.deadline_at) result)

  pub startup_tasks-WorldCarries :
      (stopped : Bool) (now : Timestamp) (n : ℕ) (ts : List TaskRecord)
      → WorldCarries id (startup_tasks provider stopped now n ts)
  unfolding startup_tasks
  startup_tasks-WorldCarries stopped now n [] w = IsKept-refl id w.db
  startup_tasks-WorldCarries stopped now n (t ∷ ts) w =
      bind-WorldCarries id (startup_task provider stopped now t)
        (λ m. startup_tasks provider stopped now (n + m) ts)
        (startup_task-WorldCarries stopped now t)
        (λ m. startup_tasks-WorldCarries stopped now (n + m) ts) w

  pub startup_guards-WorldCarries :
      (stopped : Bool) (now : Timestamp) (handled : List TaskRecord) (gs : List ActiveGuard)
      → WorldCarries id (startup_guards provider stopped now handled gs)
  unfolding startup_guards
  startup_guards-WorldCarries stopped now handled [] w = IsKept-refl id w.db
  startup_guards-WorldCarries stopped now handled (g ∷ gs) w =
      bind-WorldCarries id
        (if skipped provider handled g.payload.task_id then pure tt else λ v.
          ignoring (reconcile_guard provider alone alone g.lease_id stopped now v))
        (λ u. startup_guards provider stopped now handled gs)
        (if-WorldCarries id (skipped provider handled g.payload.task_id) _ _
          (λ v. IsKept-refl id v.db)
          (λ v.
            ignoring-IsKept id provider v.db
              (reconcile_guard provider alone alone g.lease_id stopped now v)
              (reconcile_guard-WorldCarries id provider g.lease_id stopped now v)))
        (λ u. startup_guards-WorldCarries stopped now handled gs) w
