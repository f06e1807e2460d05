-- ===== src/Bridge/Recovery/Restarted.antt =====
-- Reconciliation keeps or ends each stored task, whatever its outcome.
use server_fs_mcp.Bridge.Errors.{
  Action, ◌>>=◌, Result, ok, err, ◌>>◌, pure, is_bridge_error, raise, Result-cases,
}
use server_fs_mcp.Bridge.Errors
use server_fs_mcp.Bridge.Guards.Files.{value, null, malformed, Field, read}
use server_fs_mcp.Prelude.{
  refl, false, true, some, none, String, Bool-cases, inl, inr, Option, Bool, if◌then◌else◌,
}
use server_fs_mcp.Bridge.Recovery.{
  RecoveryHost, Report, clear_guard, World, task_interrupted, in_db, reconcile_task_of,
  transition_terminal, ReconcileResult, as_recovery, probe_reconciliation,
  effective_provider_active, task_reconciled, reconcile_guard,
}
use server_fs_mcp.Bridge.Store.Tables.{Db, Timestamp, TaskRecord}
use server_fs_mcp.Bridge.Recovery.Ended.{IsKept, IsKept-refl}
use server_fs_mcp.Bridge.Recovery.Carried.{
  WorldCarries, bind-WorldCarries, try_append_event-IsKept, get_task-Carries, if-WorldCarries,
  transition_terminal-Carries, probe_reconciliation-Carries,
}
use server_fs_mcp.Bridge.Recovery.Startup.{ignoring, report, alone}
use server_fs_mcp.Bridge.Status.{is_terminal, interrupted}
use server_fs_mcp.Bridge.Store.Tasks.{get_task}

module _ (id : String) (provider : RecoveryHost) where
  open provider use {host, unlinks}

  pub ignoring-IsKept :
      {A : Type 0} (before : Db) (r : Result A × World)
      → IsKept id before r.1.db
      → IsKept id before (ignoring r).1.db
  ignoring-IsKept before (ok a, w) h = h
  ignoring-IsKept before (err c, w) h = elim (Bool-cases (is_bridge_error c)) [
    | inl e ↦ rw e h
    | inr e ↦ rw e h
  ]

  pub report-WorldCarries :
      (other : String) (r : Report) (now : Timestamp)
      → WorldCarries id (report provider other r now)
  report-WorldCarries other r now w = try_append_event-IsKept id provider other r now w.db

  pub interrupting-WorldCarries :
      (other code message : String) (now : Timestamp)
      → WorldCarries id (in_db (transition_terminal other interrupted code message now))
  unfolding is_terminal
  interrupting-WorldCarries other code message now w =
      transition_terminal-Carries id other interrupted code message now refl w.db

  clear_guard-WorldCarries :
      (lease_id other : String) (task : TaskRecord) (now : Timestamp)
      → WorldCarries id (clear_guard provider lease_id other task now)
  unfolding clear_guard
  clear_guard-WorldCarries lease_id other task now =
      bind-WorldCarries id (in_db (get_task other)) _ (λ w. get_task-Carries id other w.db)
        λ current.
          bind-WorldCarries id
            (if is_terminal current.status then pure tt else do
              moved ← in_db (
                  transition_terminal current.task_id interrupted "AGENT_PROVIDER_INACTIVE"
                    "provider is no longer active during recovery" now)
              report provider current.task_id (task_interrupted "AGENT_PROVIDER_INACTIVE") now)
            _
            (if-WorldCarries id (is_terminal current.status) _ _ (λ w. IsKept-refl id w.db)
              (bind-WorldCarries id
                (in_db (
                  transition_terminal current.task_id interrupted "AGENT_PROVIDER_INACTIVE"
                    "provider is no longer active during recovery" now))
                _
                (interrupting-WorldCarries current.task_id "AGENT_PROVIDER_INACTIVE"
                  "provider is no longer active during recovery" now)
                (λ moved.
                  report-WorldCarries current.task_id (task_interrupted "AGENT_PROVIDER_INACTIVE")
                    now)))
            (λ u w. IsKept-refl id w.db)

  cleared-WorldCarries :
      (active : Option Bool) (clearing : Action World (Option ReconcileResult))
      → WorldCarries id clearing
      → WorldCarries id {A = Option ReconcileResult}
          (elim active [ some false ↦ clearing | _ ↦ raise Errors.workdir_recovery_required ])
  cleared-WorldCarries none clearing h w = IsKept-refl id w.db
  cleared-WorldCarries (some true) clearing h w = IsKept-refl id w.db
  cleared-WorldCarries (some false) clearing h w = h w

  reconcile_task_of-WorldCarries :
      (lease_id other : String) (stopped : Bool) (now : Timestamp)
      → WorldCarries id (reconcile_task_of provider alone alone lease_id other stopped now)
  unfolding reconcile_task_of
  reconcile_task_of-WorldCarries lease_id other stopped now =
      bind-WorldCarries id {B = Option ReconcileResult}
        (λ w. (as_recovery provider (get_task other w.db).0, w)) _ (λ w. IsKept-refl id w.db)
        λ task.
          bind-WorldCarries id {B = Option ReconcileResult}
            (in_db (probe_reconciliation provider alone other now)) _
            (λ w. probe_reconciliation-Carries id provider other now w.db)
            λ result.
              let active = effective_provider_active result stopped in
              bind-WorldCarries id {B = Option ReconcileResult}
                (report provider other (task_reconciled result.status active none) now)
                (λ u. elim active [
                  | some false ↦ clear_guard provider lease_id other task now >> pure (some result)
                  | _ ↦ raise Errors.workdir_recovery_required
                ])
                (report-WorldCarries other (task_reconciled result.status active none) now)
                λ u.
                  cleared-WorldCarries active
                    (clear_guard provider lease_id other task now >> pure (some result))
                    (bind-WorldCarries id {B = Option ReconcileResult}
                      (clear_guard provider lease_id other task now) (λ v. pure (some result))
                      (clear_guard-WorldCarries lease_id other task now)
                      (λ v w. IsKept-refl id w.db))

  named_guard-WorldCarries :
      (lease_id : String) (stopped : Bool) (now : Timestamp) (f : Field String)
      → WorldCarries id {A = Option ReconcileResult} (elim f [
        | value other ↦ reconcile_task_of provider alone alone lease_id other stopped now
        | _ ↦ raise Errors.workdir_recovery_required
      ])
  named_guard-WorldCarries lease_id stopped now null w = IsKept-refl id w.db
  named_guard-WorldCarries lease_id stopped now malformed w = IsKept-refl id w.db
  named_guard-WorldCarries lease_id stopped now (value other) w =
      reconcile_task_of-WorldCarries lease_id other stopped now w

  pub reconcile_guard-WorldCarries :
      (lease_id : String) (stopped : Bool) (now : Timestamp)
      → WorldCarries id (reconcile_guard provider alone alone lease_id stopped now)
  unfolding reconcile_guard
  reconcile_guard-WorldCarries lease_id stopped now w =
      elim (Result-cases (read host lease_id w.guards)) [
        | inr (c, e) ↦ rw e (IsKept-refl id w.db)
        | inl (none, e) ↦ rw e (IsKept-refl id w.db)
        | inl (some g, e) ↦ rw e (named_guard-WorldCarries lease_id stopped now g.payload.task_id w)
      ]
