-- ===== src/Bridge/Answers/Cancel.antt =====
-- service.py: `cancel_task` and `respond_approval`, which may cancel the task.
use server_fs_mcp.Bridge.Errors
use server_fs_mcp.Bridge.Errors.{
  Code, Result, ok, err, Action, pure, raise, ◌>>=◌, ◌>>◌, is_bridge_error,
}
use server_fs_mcp.Prelude.{
  String, Bool, true, false, Option, List, none, some, ◌∷◌, ◌==◌, not, if◌then◌else◌,
}
use server_fs_mcp.Sql.{select_one, delete}
use server_fs_mcp.Bridge.Status.{cancelled, queued, is_terminal, same_status}
use server_fs_mcp.Bridge.Store.Tables.{TaskRecord, Timestamp}
use server_fs_mcp.Bridge.Store.Tasks.{get_task}
use server_fs_mcp.Bridge.Guards.Manager.{remove}
use server_fs_mcp.Bridge.Recovery.{in_guards, task_lease_id, approval_resolved, task_cancelled}
use server_fs_mcp.Bridge.Recovery.Retention.{gc_retained}
use server_fs_mcp.Bridge.Submission.{ServiceState}
use server_fs_mcp.Bridge.Submission.Prepare.{in_world}
use server_fs_mcp.Bridge.Submission.Submit.{of_task_id, release}
use server_fs_mcp.Bridge.Answers.{has, check_approval}
use server_fs_mcp.Bridge.Answers.Desk.{
  Desk, AnswerHost, Responded, Cancelled, in_service, in_store, lift, cancel_waiter,
  stop_background, cancel_in_store, require_identifier, is_cancel,
}
use server_fs_mcp.Bridge.Answers.Respond.{append, ask_provider, open_request, settle}

module _ (host : AnswerHost) (meanwhile : Desk → Desk) where
  open host use {submission, read_payload, encode_resolution, max_interaction_bytes}
  open host.submission use {recovery, utf8_size, spool_deletes}

  -- the guard of a lease that is released
  unfoldable pub clear_own_guard : String → Action ServiceState (Unit {0})
  unfolding get_task task_lease_id remove
  clear_own_guard id st = elim (get_task id st.world.db).0 [
    | err c ↦ (err c, st)
    | ok task ↦
        if not (task.profile == "workspace-write") then (ok tt, st) else elim (task_lease_id task) [
          | none ↦ (err Errors.not_a_bridge_error, st)
          | some lease ↦ in_world (in_guards (remove recovery.host recovery.unlinks lease id)) st
        ]
  ]

  abbrev pub release_unless :
      Result (Unit {0}) × ServiceState → String → Result (Unit {0}) × ServiceState
  release_unless (ok u, st) lease = (ok tt, release submission (some lease) st)
  release_unless (err c, st) lease =
      if is_bridge_error c then (ok tt, release submission (some lease) st) else (err c, st)

  unfoldable pub release_lease : String → Action ServiceState (Unit {0})
  unfolding clear_own_guard
  release_lease id st = elim (select_one (of_task_id id) st.leases) [
    | none ↦ (ok tt, st)
    | some held ↦
        release_unless
          (clear_own_guard id (record st { leases = delete (of_task_id id) st.leases })) (held.1)
  ]

  -- the lease of a cancelled task; a coroutine that runs gives its own back
  unfoldable pub stop_or_release : String → Bool → Action Desk (Unit {0})
  unfolding release_lease
  stop_or_release id was_queued d =
      if has id d.service.background
      then (if was_queued
          then in_service (release_lease id) (stop_background id d)
          else (ok tt, stop_background id d))
      else in_service (release_lease id) d

  unfoldable pub cancel_active : String → TaskRecord → Timestamp → Timestamp → Action Desk Cancelled
  unfolding cancel_in_store append cancel_waiter ask_provider stop_or_release gc_retained
  cancel_active id task now cutoff d =
      let first_cancel = not (has id d.user_cancelled) in
      (do
        moved ← in_store (cancel_in_store id now)
        append host meanwhile id task_cancelled now
        λ d. (ok tt, cancel_waiter task.pending_request_id d)
        if first_cancel then ask_provider host meanwhile id task else pure tt
        stop_or_release id (same_status task.status queued)
        n ← in_service (in_world (gc_retained recovery.host spool_deletes cutoff))
        pure (record { task_id = id; status = cancelled; correlation_id = task.correlation_id }))
        (record d { user_cancelled = id ∷ d.user_cancelled })

  abbrev pub already_ended : String → TaskRecord → Timestamp → Action Desk Cancelled
  already_ended id task cutoff = do
    n ← in_service (in_world (gc_retained recovery.host spool_deletes cutoff))
    pure (record { task_id = id; status = task.status; correlation_id = task.correlation_id })

  unfoldable pub cancel_task_of : String → Timestamp → Timestamp → Action Desk Cancelled
  unfolding get_task cancel_active gc_retained
  cancel_task_of id now cutoff = do
    require_identifier id
    task ← in_store (get_task id)
    if is_terminal task.status
        then already_ended id task cutoff
        else cancel_active id task now cutoff

  unfoldable pub cancel_where : Bool → String → Timestamp → Timestamp → Action Desk (Unit {0})
  unfolding cancel_task_of
  cancel_where false id now cutoff = pure tt
  cancel_where true id now cutoff = do c ← cancel_task_of id now cutoff; pure tt

  unfoldable pub respond_approval :
      String
      → String
      → Option String
      → Option String
      → Option (List String)
      → Timestamp
      → Timestamp
      → Action Desk Responded
  unfolding open_request check_approval settle cancel_where
  respond_approval id request_id decision option_id granted now cutoff = do
    opened ← open_request host meanwhile id request_id now
    if opened.0.kind == "approval" then pure tt else raise Errors.invalid_approval_decision
    resolution ← lift (check_approval (read_payload opened.0.payload) decision option_id granted)
    settle host meanwhile id request_id resolution (approval_resolved option_id decision) now
    cancel_where (is_cancel resolution) id now cutoff
    pure
        (record { task_id = id; request_id = request_id; correlation_id = opened.1.correlation_id })
