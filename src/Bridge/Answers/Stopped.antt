-- ===== src/Bridge/Answers/Stopped.antt =====
-- A task that a client cancels ends (service.py).
use server_fs_mcp.Bridge.Errors.{Result, pure, ok, >>=-eq-ok}
use server_fs_mcp.Prelude.{
  String, Bool, some, ◌≡◌, ◌⊎◌, refl, sym, ◌∙◌, ap, Bool-cases, inl, inr, subst, not, if◌then◌else◌,
  ◌∷◌, ℕ,
}
use server_fs_mcp.Sql.{select_one}
use server_fs_mcp.Bridge.Status.{queued, same_status, is_terminal}
use server_fs_mcp.Bridge.Store.Tables.{TaskRow, TaskRecord, Timestamp, of_id, task_from_row}
use server_fs_mcp.Bridge.Recovery.{task_cancelled}
use server_fs_mcp.Bridge.Recovery.Retention.{gc_retained}
use server_fs_mcp.Bridge.Recovery.Ended.{HasEnded, HasEnded-IsKept}
use server_fs_mcp.Bridge.Recovery.Carried.{try_append_event-IsKept}
use server_fs_mcp.Bridge.Submission.Prepare.{in_world}
use server_fs_mcp.Bridge.Answers.{has}
use server_fs_mcp.Bridge.Answers.Respond.{append, ask_provider}
use server_fs_mcp.Bridge.Answers.Cancel.{stop_or_release, cancel_active, cancel_task_of}
use server_fs_mcp.Bridge.Answers.Desk.{
  Desk, AnswerHost, Cancelled, cancel_in_store, in_service, in_store, cancel_waiter,
  require_identifier,
}
use server_fs_mcp.Bridge.Answers.Opened.{require_identifier-ok}
use server_fs_mcp.Bridge.Answers.Cancelled.{cancel_in_store-HasEnded}
use server_fs_mcp.Bridge.Store.Tasks.{get_task}
use server_fs_mcp.Bridge.Answers.Stopping.{
  db_of, IsStopped, cancel_waiter-db, get_task-found, stop_or_release-IsStopped,
  ask_provider-HasEnded,
}

module _ (host : AnswerHost) (meanwhile : Desk → Desk) where
  -- what is left before old tasks are deleted
  pub record IsCancelled (id : String) (cutoff : Timestamp) (d after : Desk) : Type 0 where
    pub last : Desk
    pub ended : HasEnded id (db_of last)
    pub stopped : (last ≡ d) ⊎ IsStopped id last
    pub swept :
        after
        ≡ (in_service
            (in_world
              (gc_retained host.submission.recovery.host host.submission.spool_deletes cutoff))
            last).1

  cancel_active-IsCancelled :
      (id : String) (task : TaskRecord) (row : TaskRow) (now cutoff : Timestamp) (d after : Desk)
      (r : Cancelled)
      → ((x : Desk) → HasEnded id (db_of x) → HasEnded id (db_of (meanwhile x)))
      → select_one (of_id id) (db_of d).tasks ≡ some row
      → cancel_active host meanwhile id task now cutoff d ≡ (ok r, after)
      → IsCancelled id cutoff d after
  unfolding cancel_active append
  cancel_active-IsCancelled id task row now cutoff d after r keeps found h =
      let started : Desk = record d { user_cancelled = id ∷ d.user_cancelled } in
      let (m, d1, e1, h1) = >>=-eq-ok (in_store (cancel_in_store id now)) _ started after r h in
      let d2 : Desk = (append host meanwhile id task_cancelled now d1).1 in
      let d3 = cancel_waiter task.pending_request_id d2 in
      let asks = not (has id d.user_cancelled) in
      let (u4, d4, e4, h4) =
        >>=-eq-ok (if asks then ask_provider host meanwhile id task else pure tt) _ d3 after r h1 in
      let (u5, d5, e5, h5) =
        >>=-eq-ok (stop_or_release host meanwhile id (same_status task.status queued)) _ d4 after r
          h4 in
      let (n, d6, e6, h6) =
        >>=-eq-ok
          (in_service (
            in_world
              (gc_retained host.submission.recovery.host host.submission.spool_deletes cutoff)))
          _ d5 after r h5 in
      let ended1 : HasEnded id (db_of d1) =
        subst (HasEnded id) (ap (λ (m : Result Bool × Desk). db_of m.1) e1)
          (cancel_in_store-HasEnded id now (db_of d) row found) in
      let ended2 : HasEnded id (db_of d2) =
        HasEnded-IsKept id (db_of d1) (db_of d2) ended1
          (try_append_event-IsKept id host.submission.recovery id task_cancelled now (db_of d1)) in
      let ended3 : HasEnded id (db_of d3) =
        subst (HasEnded id) (sym (cancel_waiter-db task.pending_request_id d2)) ended2 in
      let ended4 = ask_provider-HasEnded host meanwhile id asks task d3 d4 u4 keeps e4 ended3 in
      let (stopped, same) =
        stop_or_release-IsStopped host meanwhile id (same_status task.status queued) d4 d5 u5 e5 in
      record {
        last = d5;
        ended = subst (HasEnded id) (sym same) ended4;
        stopped = inr stopped;
        swept =
            ap (λ (m : Result Cancelled × Desk). m.1) (sym h6)
            ∙ ap (λ (m : Result ℕ × Desk). m.1) (sym e6);
      }

  -- A task that `cancel_task` has answered for has ended before old tasks are deleted, which is the last
  -- thing that it does. Unless the task had ended before and nothing else was done, its coroutine, where
  -- it has one, is asked to stop, and else no lease is its own. While the adapter is asked to cancel, the
  -- other tasks of the service keep a task that has ended.
  pub cancel_task-IsCancelled :
      (id : String) (now cutoff : Timestamp) (d after : Desk) (r : Cancelled)
      → ((x : Desk) → HasEnded id (db_of x) → HasEnded id (db_of (meanwhile x)))
      → cancel_task_of host meanwhile id now cutoff d ≡ (ok r, after)
      → IsCancelled id cutoff d after
  unfolding cancel_task_of task_from_row
  cancel_task-IsCancelled id now cutoff d after r keeps h =
      let (u, d1, e1, h1) = >>=-eq-ok (require_identifier id) _ d after r h in
      let (named, same1) = require_identifier-ok id d d1 u e1 in
      let (task, d2, e2, h2) = >>=-eq-ok (in_store (get_task id)) _ d1 after r h1 in
      let (row, found, read, same2) = get_task-found id d1 d2 task e2 in
      let same : d2 ≡ d = sym (same1 ∙ same2) in
      let stands : select_one (of_id id) (db_of d).tasks ≡ some row =
        ap (λ x. select_one (of_id id) (db_of x).tasks) same1 ∙ found in
      elim (Bool-cases (is_terminal task.status)) [
        | inr live ↦
            cancel_active-IsCancelled id task row now cutoff d after r keeps stands
              (ap (cancel_active host meanwhile id task now cutoff) (sym same) ∙ rw live at h2)
        | inl over ↦
            let (n, d3, e3, h3) =
              >>=-eq-ok
                (in_service (
                  in_world (
                    gc_retained host.submission.recovery.host host.submission.spool_deletes
                      cutoff)))
                _ d2 after r (rw over at h2) in
            record {
              last = d;
              ended =
                  (row, stands, ap (λ (t : TaskRecord). is_terminal t.status) (sym read) ∙ over);
              stopped = inl refl;
              swept =
                  ap (λ (m : Result Cancelled × Desk). m.1) (sym h3)
                  ∙ ap (λ (m : Result ℕ × Desk). m.1) (sym e3)
                  ∙ ap
                      (λ x.
                        (in_service
                          (in_world (
                            gc_retained host.submission.recovery.host host.submission.spool_deletes
                              cutoff))
                          x).1)
                      same;
            }
      ]
