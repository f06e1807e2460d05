-- ===== src/Bridge/Recovery/Startup.antt =====
-- `BridgeService._reconcile_startup`: what a start does with the tasks of an earlier process.
use server_fs_mcp.Bridge.Errors
use server_fs_mcp.Bridge.Errors.{Result, ok, err, Action, pure, raise, ◌>>=◌, ◌>>◌, is_bridge_error}
use server_fs_mcp.Bridge.Recovery.{
  ReconciliationStatus, World, RecoveryHost, task_lease_id, transition_terminal,
  probe_reconciliation, reconcile_guard, Report, effective_provider_active, try_append_event,
  ReconcileResult, in_db, reattached, task_reconciled, in_guards,
}
use server_fs_mcp.Prelude.{
  Option, Bool, String, List, if◌then◌else◌, true, some, false, ℕ, ◌∷◌, ◌&&◌, ◌+◌, any, [], not,
  ◌==◌, none,
}
use server_fs_mcp.Bridge.Store.Restart.{list_nonterminal_tasks}
use server_fs_mcp.Bridge.Store.Tables.{Timestamp, TaskRecord}
use server_fs_mcp.Bridge.Guards.Manager.{remove, list}
use server_fs_mcp.Bridge.Guards.Files.{Field, ActiveGuard, value}
use server_fs_mcp.Bridge.Status.{interrupted}

abbrev pub is_reattached : ReconciliationStatus → Bool
is_reattached reattached = true
is_reattached _ = false

abbrev pub is_inactive : Option Bool → Bool
is_inactive (some false) = true
is_inactive _ = false

-- `except BridgeError: pass`
abbrev pub ignoring : {A : Type 0} → Result A × World → Result (Unit {0}) × World
ignoring (ok a, w) = (ok tt, w)
ignoring (err c, w) = if is_bridge_error c then (ok tt, w) else (err c, w)

-- a start runs before there are other tasks
abbrev pub alone {ℓ} : {A : Type ℓ} → A → A
alone a = a

module _ (provider : RecoveryHost) where
  open provider use {host, is_expired, unlinks}

  abbrev pub report : String → Report → Timestamp → Action World (Unit {0})
  report id r now w = (ok tt, record w { db = try_append_event provider id r now w.db })

  -- the guard of an interrupted writer whose agent is gone
  unfoldable pub drop_guard : TaskRecord → Option Bool → Action World (Unit {0})
  unfolding task_lease_id remove
  drop_guard task active =
      if task.profile == "workspace-write" && is_inactive active
      then elim (task_lease_id task) [
        | none ↦ raise Errors.not_a_bridge_error
        | some lease_id ↦ λ w. ignoring (in_guards (remove host unlinks lease_id task.task_id) w)
      ]
      else pure tt

  unfoldable pub end_at_start :
      Bool → Timestamp → TaskRecord → Bool → ReconcileResult → Action World ℕ
  unfolding transition_terminal effective_provider_active drop_guard try_append_event
  end_at_start prior_bridge_execution_stopped now task timed_out result =
      let error_code : String = if timed_out then "AGENT_TASK_TIMED_OUT" else "BRIDGE_RESTARTED" in
      let active : Option Bool = effective_provider_active result prior_bridge_execution_stopped in
      do
        moved ← in_db (
            transition_terminal task.task_id interrupted error_code
              (if timed_out
                then "agent task exceeded its execution deadline during bridge restart"
                else "bridge restarted while task was active")
              now)
        report task.task_id (task_reconciled result.status active (some error_code)) now
        drop_guard task active
        pure 1

  -- the first loop's body; the number is what it adds to `reconciled`
  unfoldable pub startup_task : Bool → Timestamp → TaskRecord → Action World ℕ
  unfolding probe_reconciliation end_at_start try_append_event
  startup_task prior_bridge_execution_stopped now task = do
    result ← in_db (probe_reconciliation provider alone task.task_id now)
    if is_reattached result.status && not (is_expired task.deadline_at)
        then report task.task_id (task_reconciled result.status (some true) none) now >> pure 0
        else end_at_start prior_bridge_execution_stopped now task (is_expired task.deadline_at)
            result

  unfoldable pub startup_tasks : Bool → Timestamp → ℕ → List TaskRecord → Action World ℕ
  unfolding startup_task
  startup_tasks prior_bridge_execution_stopped now reconciled [] = pure reconciled
  startup_tasks prior_bridge_execution_stopped now reconciled (t ∷ ts) = do
    n ← startup_task prior_bridge_execution_stopped now t
    startup_tasks prior_bridge_execution_stopped now (reconciled + n) ts

  abbrev pub skipped : List TaskRecord → Field String → Bool
  skipped handled (value id) = any (λ t. t.task_id == id) handled
  skipped handled _ = true

  -- the second loop, over the guards
  unfoldable pub startup_guards :
      Bool → Timestamp → List TaskRecord → List ActiveGuard → Action World (Unit {0})
  unfolding reconcile_guard
  startup_guards prior_bridge_execution_stopped now handled [] = pure tt
  startup_guards prior_bridge_execution_stopped now handled (g ∷ gs) = do
    (if skipped handled g.payload.task_id then pure tt else λ w.
        ignoring
          (reconcile_guard provider alone alone g.lease_id prior_bridge_execution_stopped now w))
    startup_guards prior_bridge_execution_stopped now handled gs

  unfoldable pub reconcile_startup : Bool → Timestamp → Action World ℕ
  unfolding list_nonterminal_tasks startup_tasks list startup_guards
  reconcile_startup prior_bridge_execution_stopped now w =
      let tasks = list_nonterminal_tasks w.db in
      (do
        reconciled ← startup_tasks prior_bridge_execution_stopped now 0 tasks
        guards ← λ v. (list host v.guards, v)
        startup_guards prior_bridge_execution_stopped now tasks guards
        pure reconciled)
        w
