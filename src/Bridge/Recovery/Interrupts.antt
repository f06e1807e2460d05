-- ===== src/Bridge/Recovery/Interrupts.antt =====
-- A start ends every unfinished task whose agent is not attached again in time.
use server_fs_mcp.Bridge.Errors.{Action, ◌>>=◌, ok, pure, Result-cases}
use server_fs_mcp.Prelude.{
  refl, false, true, some, String, inr, ◌≡◌, inl, ap, Bool-cases, ◌∙◌, Bool, ◌&&◌, not,
  if◌then◌else◌, Option, sym, subst,
}
use server_fs_mcp.Bridge.Store.Tasks.{transition_task, Overrides, moved, get_task}
use server_fs_mcp.Bridge.Recovery.{
  transition_terminal, World, ended_with, RecoveryHost, ReconcileResult, asked,
  probe_reconciliation, effective_provider_active, in_db, task_reconciled,
}
use server_fs_mcp.Bridge.Store.Tables.{Timestamp, Db, TaskRow, of_id, task_from_row, TaskRecord}
use server_fs_mcp.Bridge.Status.{
  validate_transition, TaskStatus, can_transition, interrupted, is_terminal,
}
use server_fs_mcp.Bridge.Recovery.Ended.{HasEnded, HasEnded-IsKept}
use server_fs_mcp.Bridge.Recovery.Carried.{WorldCarries, probe_reconciliation-Carries}
use server_fs_mcp.Sql.{select_one, update}
use server_fs_mcp.Bridge.Store.Consistent.Names.{state-get_task}
use server_fs_mcp.Bridge.Status.Lifecycle.{terminal_iff_final}
use server_fs_mcp.Bridge.Recovery.Startup.{end_at_start, startup_task, is_reattached}
use server_fs_mcp.Sql.Rows.{select_one-holds, select_one-update}
use server_fs_mcp.Bridge.Recovery.Cleared.{probe_reconciliation-asked}
use server_fs_mcp.Bridge.Recovery.Started.{closing-WorldCarries}

pub transition_task-moves :
    (id : String) (target : TaskStatus) (o : Overrides) (now : Timestamp) (db : Db) (row : TaskRow)
    → select_one (of_id id) db.tasks ≡ some row
    → can_transition row.status target ≡ true
    → (transition_task id target o now db).1.tasks ≡ update (of_id id) (moved target o now) db.tasks
unfolding transition_task validate_transition
transition_task-moves id target o now db row e t =
    rw (e, t) (ap (λ d. d.tasks) (state-get_task id _))

pub pure_after :
    {A B : Type 0} (m : Action Db A) (b : B) (db : Db) → ((m >>= λ a. pure b) db).1 ≡ (m db).1
pure_after m b db = elim (Result-cases (m db).0) [ inr (c, e) ↦ rw e refl | inl (a, e) ↦ rw e refl ]

pub found_task :
    (id : String) (db : Db) (row : TaskRow)
    → select_one (of_id id) db.tasks ≡ some row
    → get_task id db ≡ (ok (task_from_row row), db)
unfolding get_task
found_task id db row e = rw e refl

-- an interrupted task has ended, whether it had before or not
pub transition_terminal-HasEnded :
    (id code message : String) (now : Timestamp) (db : Db) (row : TaskRow)
    → select_one (of_id id) db.tasks ≡ some row
    → HasEnded id (transition_terminal id interrupted code message now db).1
unfolding transition_terminal task_from_row moved is_terminal
transition_terminal-HasEnded id code message now db row e =
    let task_found : get_task id db ≡ (ok (task_from_row row), db) = found_task id db row e in
    elim (Bool-cases (is_terminal row.status)) [
      | inl ended ↦ rw (task_found, ended) (row, e, ended)
      | inr live ↦
          let go : can_transition row.status interrupted ≡ true =
            (((terminal_iff_final row.status).1) live).1 in
          let o : Overrides = ended_with code message in
          let update_of : (transition_terminal id interrupted code message now db).1.tasks
              ≡ update (of_id id) (moved interrupted o now) db.tasks =
            rw (task_found, live)
              (ap (λ d. d.tasks) (pure_after (transition_task id interrupted o now) true db)
                ∙ transition_task-moves id interrupted o now db row e go) in
          let hit : of_id id row ≡ true = select_one-holds (of_id id) db.tasks row e in
          (
            moved interrupted o now row,
            ap (select_one (of_id id)) update_of
                ∙ select_one-update (of_id id) (of_id id) (moved interrupted o now) (λ t. refl)
                    db.tasks row e
                ∙ rw hit refl,
            refl,
          )
    ]

module _ (id : String) where
  pub bind-HasEnded :
      {A B : Type 0} (m : Action World A) (f : A → Action World B) (w : World)
      → HasEnded id (m w).1.db
      → ((a : A) → WorldCarries id (f a))
      → HasEnded id ((m >>= f) w).1.db
  bind-HasEnded m f w ended carries = elim (Result-cases (m w).0) [
    | inr (c, e) ↦ rw e ended
    | inl (a, e) ↦ rw e (HasEnded-IsKept id (m w).1.db (f a (m w).1).1.db ended (carries a (m w).1))
  ]

module _ (provider : RecoveryHost) where
  open provider use {is_expired}

  -- the task was attached again before its deadline
  abbrev pub is_resumed : TaskRecord → Bool
  is_resumed task = is_reattached (asked provider task).status && not (is_expired task.deadline_at)

module _ (id : String) (provider : RecoveryHost) where
  open provider use {host, is_expired}

  end_at_start-HasEnded :
      (stopped : Bool) (now : Timestamp) (task : TaskRecord) (timed_out : Bool)
      (result : ReconcileResult) (w : World) (row : TaskRow)
      → task.task_id ≡ id
      → select_one (of_id id) w.db.tasks ≡ some row
      → HasEnded id (end_at_start provider stopped now task timed_out result w).1.db
  unfolding end_at_start
  end_at_start-HasEnded stopped now task timed_out result w row same e =
      let error_code : String = if timed_out then "AGENT_TASK_TIMED_OUT" else "BRIDGE_RESTARTED" in
      let message : String =
        if timed_out
        then "agent task exceeded its execution deadline during bridge restart"
        else "bridge restarted while task was active" in
      let active : Option Bool = effective_provider_active result stopped in
      bind-HasEnded id (in_db (transition_terminal task.task_id interrupted error_code message now))
        _ w (rw same (transition_terminal-HasEnded id error_code message now w.db row e))
        (λ moved.
          closing-WorldCarries id provider task
            (task_reconciled result.status active (some error_code)) active now)

  pub startup_task-HasEnded :
      (stopped : Bool) (now : Timestamp) (w : World) (task : TaskRecord) (row : TaskRow)
      → task ≡ task_from_row row
      → task.task_id ≡ id
      → select_one (of_id id) w.db.tasks ≡ some row
      → is_resumed provider task ≡ false
      → HasEnded id (startup_task provider stopped now task w).1.db
  unfolding startup_task
  startup_task-HasEnded stopped now w task row record_of same e not_resumed =
      let answer : (probe_reconciliation provider (λ db. db) task.task_id now w.db).0
          ≡ ok (asked provider task) =
        probe_reconciliation-asked provider (λ db. db) task.task_id now w.db task
          (subst (λ i. get_task i w.db ≡ (ok task, w.db)) (sym same)
            (found_task id w.db row e ∙ ap (λ r. (ok r, w.db)) (sym record_of))) in
      let (later, found, _) =
        probe_reconciliation-Carries id provider task.task_id now w.db row e in
      rw (answer, not_resumed)
        (end_at_start-HasEnded stopped now task (is_expired task.deadline_at) (asked provider task)
          (record w { db = (probe_reconciliation provider (λ db. db) task.task_id now w.db).1 })
          later same found)
