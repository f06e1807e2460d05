-- ===== src/Bridge/Recovery.antt =====
-- service.py: what `BridgeService` does after a restart and before a writer, to tasks whose agent may
-- still run. Diagnostics and metrics, which change none of this state, are left out, and a method
-- reads the clock once.
pub mod Cleared
pub mod Retention
pub mod Retained
pub mod Kept
pub mod Startup
pub mod Ended
pub mod Carried
pub mod Restarted
pub mod Started
pub mod Interrupts
pub mod StartupEnds
use server_fs_mcp.Bridge.Advice.{PreflightResult, RoutingAdvice}
use server_fs_mcp.Bridge.Errors
use server_fs_mcp.Bridge.Guards.Manager.{remove}
use server_fs_mcp.Bridge.Errors.{
  Result, ok, err, bind, Action, pure, raise, ◌>>=◌, ◌>>◌, is_bridge_error,
}
use server_fs_mcp.Bridge.Store.Tables.{Db, TaskRecord, Timestamp}
use server_fs_mcp.Prelude.{Option, String, Bool, if◌then◌else◌, ℕ, some, nat_eq, none, false, true}
use server_fs_mcp.Bridge.Lease.Artifacts.{Host}
use server_fs_mcp.Bridge.Lease.{slot_lease_id, alias_lease_id}
use server_fs_mcp.Bridge.Guards.Files.{Dir, read, value}
use server_fs_mcp.Bridge.Store.Tasks.{get_task, Overrides, transition_task}
use server_fs_mcp.Bridge.Store.Events.{append_event}
use server_fs_mcp.Bridge.Status.{TaskStatus, is_terminal, interrupted}

-- the store and the directory of guards
pub record World : Type 0 where
  pub db : Db
  pub guards : Dir

pub data ReconciliationStatus : Type 0 where
  reattached session_resumable not_recoverable unknown : ReconciliationStatus

pub record ReconcileResult : Type 0 where
  pub status : ReconciliationStatus
  pub provider_active : Option Bool

-- the events that recovery, submission and the answers of clients write
pub data Report : Type 0 where
  reconcile_started : String → Report
  reconcile_finished : String → ReconcileResult → Report
  task_reconciled : ReconciliationStatus → Option Bool → Option String → Report
  task_interrupted : String → Report
  task_preflight : PreflightResult → Report
  task_routing_advice : RoutingAdvice → Report
  approval_resolved : Option String → Option String → Report
  question_answered : ℕ → Report
  interaction_expired : String → String → Report
  task_cancelled : Report

-- What recovery asks of the rest: the adapter of a runtime and the answer of its
-- `reconcile_task`, none if it raises; the text of an event as it is kept, none where it is too
-- large; whether a deadline has passed; and whether a file may be unlinked.
pub record RecoveryHost : Type 0 where
  pub host : Host
  pub adapters : String → Option (TaskRecord → Option ReconcileResult)
  pub encode : String → Report → Option String
  pub max_events_per_task : ℕ
  pub is_expired : Option String → Bool
  pub unlinks : Bool

unfoldable pub effective_provider_active : ReconcileResult → Bool → Option Bool
effective_provider_active result prior_bridge_execution_stopped = elim result.provider_active [
  | none ↦ if prior_bridge_execution_stopped then some false else none
  | some active ↦ some active
]

-- `TaskRecord.lease_id`; the slot 0 is NO_LEGACY_SLOT
unfoldable pub task_lease_id : TaskRecord → Option String
unfolding slot_lease_id alias_lease_id
task_lease_id task =
    if nat_eq task.workdir_slot 0
    then alias_lease_id task.workdir_alias
    else slot_lease_id task.workdir_slot

abbrev pub in_db : {A : Type 0} → Action Db A → Action World A
in_db m w = let r = m w.db in (r.0, record w { db = r.1 })

abbrev pub in_guards : {A : Type 0} → Action Dir A → Action World A
in_guards m w = let r = m w.guards in (r.0, record w { guards = r.1 })

abbrev pub event_type : Report → String
event_type (reconcile_started runtime) = "runtime.reconcile_started"
event_type (reconcile_finished runtime result) = "runtime.reconcile_finished"
event_type (task_reconciled status active code) = "task.reconciled"
event_type (task_interrupted code) = "task.interrupted"
event_type (task_preflight result) = "task.preflight"
event_type (task_routing_advice advice) = "task.routing_advice"
event_type (approval_resolved option_id decision) = "approval.resolved"
event_type (question_answered question_count) = "question.answered"
event_type (interaction_expired request_id kind) = "interaction.expired"
event_type task_cancelled = "task.cancelled"

abbrev ended_with : String → String → Overrides
ended_with code message = record {
  pending_request_id = none;
  native_session_id = none;
  native_turn_id = none;
  final_response = none;
  result_storage = none;
  result_size_bytes = none;
  result_sha256 = none;
  error_code = some (some code);
  error_message = some (some message);
}

unfoldable pub transition_terminal :
    String → TaskStatus → String → String → Timestamp → Action Db Bool
unfolding get_task transition_task
transition_terminal id status code message now = do
  current ← get_task id
  if is_terminal current.status
      then pure false
      else do terminal ← transition_task id status (ended_with code message) now; pure true

abbrev or_unknown : Option ReconcileResult → ReconcileResult
or_unknown none = record { status = unknown; provider_active = none }
or_unknown (some result) = result

module _ (provider : RecoveryHost) where
  open provider use {host, adapters, encode, max_events_per_task, is_expired, unlinks}

  unfoldable pub try_append_event : String → Report → Timestamp → Db → Db
  unfolding append_event
  try_append_event id report now db = elim (encode id report) [
    | none ↦ db
    | some text ↦ (append_event id (event_type report) text (some max_events_per_task) now db).1
  ]

  -- what the adapter of a task's runtime answers
  unfoldable pub asked : TaskRecord → ReconcileResult
  asked task = elim (adapters task.runtime) [
    | none ↦ or_unknown none
    | some reconcile_task ↦ or_unknown (reconcile_task task)
  ]

  -- `meanwhile` is what other tasks do to the store while the adapter is asked
  unfoldable pub probe_reconciliation : (Db → Db) → String → Timestamp → Action Db ReconcileResult
  unfolding get_task try_append_event asked
  probe_reconciliation meanwhile id now = do
    task ← get_task id
    λ db.
        let started = try_append_event id (reconcile_started task.runtime) now db in
        let result = asked task in
        (
          ok result,
          try_append_event id (reconcile_finished task.runtime result) now (meanwhile started),
        )

  abbrev pub as_recovery {ℓ} : {A : Type ℓ} → Result A → Result A
  as_recovery (ok a) = ok a
  as_recovery (err c) = if is_bridge_error c then err Errors.workdir_recovery_required else err c

  -- the end of `_reconcile_guard` for a provider that is proven inactive
  unfoldable pub clear_guard : String → String → TaskRecord → Timestamp → Action World (Unit {0})
  unfolding get_task transition_terminal try_append_event remove
  clear_guard lease_id id task now = do
    current ← in_db (get_task id)
    if is_terminal current.status then pure tt else do
      moved ← in_db (
          transition_terminal current.task_id interrupted "AGENT_PROVIDER_INACTIVE"
            "provider is no longer active during recovery" now)
      λ w. (
        ok tt,
        record w {
          db =
              try_append_event current.task_id (task_interrupted "AGENT_PROVIDER_INACTIVE") now
                w.db;
        },
      )
    in_guards (remove host unlinks lease_id task.task_id)

  -- `_reconcile_guard` for the task that a guard names; other tasks change the store and the guards
  -- while the adapter is asked
  unfoldable pub reconcile_task_of :
      (Db → Db)
      → (Dir → Dir)
      → String
      → String
      → Bool
      → Timestamp
      → Action World (Option ReconcileResult)
  unfolding get_task probe_reconciliation effective_provider_active try_append_event clear_guard
  reconcile_task_of meanwhile guards_meanwhile lease_id id prior_bridge_execution_stopped now = do
    task ← λ w. (as_recovery (get_task id w.db).0, w)
    result ← in_db (probe_reconciliation meanwhile id now)
    λ w. (ok tt, record w { guards = guards_meanwhile w.guards })
    let active = effective_provider_active result prior_bridge_execution_stopped
    λ w. (
      ok tt,
      record w { db = try_append_event id (task_reconciled result.status active none) now w.db },
    )
    elim active [
      | some false ↦ clear_guard lease_id id task now >> pure (some result)
      | _ ↦ raise Errors.workdir_recovery_required
    ]

  unfoldable pub reconcile_guard :
      (Db → Db) → (Dir → Dir) → String → Bool → Timestamp → Action World (Option ReconcileResult)
  unfolding read reconcile_task_of
  reconcile_guard meanwhile guards_meanwhile lease_id prior_bridge_execution_stopped now = do
    guard ← λ w. (read host lease_id w.guards, w)
    elim guard [
      | none ↦ pure none
      | some g ↦ elim g.payload.task_id [
        | value id ↦
            reconcile_task_of meanwhile guards_meanwhile lease_id id prior_bridge_execution_stopped
              now
        | _ ↦ raise Errors.workdir_recovery_required
      ]
    ]
