-- ===== src/Bridge/Answers/Cancelled.antt =====
-- What the cancellation of a task leaves (service.py).
use server_fs_mcp.Bridge.Errors.{ok, err, Result-cases, Result, is_bridge_error}
use server_fs_mcp.Prelude.{
  String, true, some, ◌≡◌, ◌==◌, refl, ◌∙◌, ap, Bool-cases, Option-cases, inl, inr, subst, none,
}
use server_fs_mcp.Sql.{select_one, update, delete}
use server_fs_mcp.Sql.Rows.{select_one-holds, select_one-update, select_one-delete_all}
use server_fs_mcp.Bridge.Status.{is_terminal, cancelled, can_transition}
use server_fs_mcp.Bridge.Status.Lifecycle.{terminal_iff_final}
use server_fs_mcp.Bridge.Store.Tables.{Db, TaskRow, Timestamp, of_id, task_from_row}
use server_fs_mcp.Bridge.Store.Tasks.{get_task, transition_task, moved}
use server_fs_mcp.Bridge.Recovery.{task_lease_id}
use server_fs_mcp.Bridge.Recovery.Ended.{HasEnded}
use server_fs_mcp.Bridge.Recovery.Interrupts.{transition_task-moves, pure_after, found_task}
use server_fs_mcp.Bridge.Submission.{ServiceState}
use server_fs_mcp.Bridge.Answers.Cancel.{clear_own_guard, release_lease, release_unless}
use server_fs_mcp.Bridge.Answers.Desk.{Desk, AnswerHost, cancel_in_store, no_overrides}
use server_fs_mcp.Bridge.Submission.Submit.{of_task_id}

pub cancel_in_store-HasEnded :
    (id : String) (now : Timestamp) (db : Db) (row : TaskRow)
    → select_one (of_id id) db.tasks ≡ some row
    → HasEnded id (cancel_in_store id now db).1
unfolding cancel_in_store task_from_row moved is_terminal
cancel_in_store-HasEnded id now db row e =
    let task_found = found_task id db row e in
    elim (Bool-cases (is_terminal row.status)) [
      | inl ended ↦ rw (task_found, ended) (row, e, ended)
      | inr live ↦
          let go : can_transition row.status cancelled ≡ true =
            (((terminal_iff_final row.status).1) live).0 in
          let tasks_of : (cancel_in_store id now db).1.tasks
              ≡ update (of_id id) (moved cancelled no_overrides now) db.tasks =
            rw (task_found, live)
              (ap (λ d. d.tasks)
                  (pure_after (transition_task id cancelled no_overrides now) true db)
                ∙ transition_task-moves id cancelled no_overrides now db row e go) in
          let hit : of_id id row ≡ true = select_one-holds (of_id id) db.tasks row e in
          (
            moved cancelled no_overrides now row,
            ap (select_one (of_id id)) tasks_of
                ∙ select_one-update (of_id id) (of_id id) (moved cancelled no_overrides now)
                    (λ t. refl) db.tasks row e
                ∙ rw hit refl,
            refl,
          )
    ]

-- two states of the service with the same tables, leases and coroutines
record SameTasks (a b : ServiceState) : Type 0 where
  db : a.world.db ≡ b.world.db
  leases : a.leases ≡ b.leases
  background : a.background ≡ b.background

module _ (host : AnswerHost) (meanwhile : Desk → Desk) where
  clear_own_guard-SameTasks :
      (id : String) (st : ServiceState) → SameTasks (clear_own_guard host meanwhile id st).1 st
  unfolding clear_own_guard
  clear_own_guard-SameTasks id st = elim (Result-cases (get_task id st.world.db).0) [
    | inr (c, e) ↦ rw (e, clear_own_guard) (record { db = refl; leases = refl; background = refl })
    | inl (task, e) ↦ elim (Bool-cases (task.profile == "workspace-write")) [
      | inr reads ↦
          rw (e, reads, clear_own_guard) (record { db = refl; leases = refl; background = refl })
      | inl writes ↦ elim (Option-cases (task_lease_id task)) [
        | inl f ↦
            rw (e, writes, f, clear_own_guard)
              (record { db = refl; leases = refl; background = refl })
        | inr (lease, f) ↦
            rw (e, writes, f, clear_own_guard)
              (record { db = refl; leases = refl; background = refl })
      ]
    ]
  ]

  released :
      (r : Result (Unit {0}) × ServiceState) (lease : String) (after : ServiceState) (u : Unit {0})
      → release_unless host meanwhile r lease ≡ (ok u, after)
      → SameTasks after (r.1)
  released (ok v, st) lease after u h =
      subst (λ (x : ServiceState). SameTasks x st)
        (ap (λ (m : Result (Unit {0}) × ServiceState). m.1) h)
        (record { db = refl; leases = refl; background = refl })
  released (err c, st) lease after u h = elim (Bool-cases (is_bridge_error c)) [
    | inr e ↦ cc (rw e at h)
    | inl e ↦
        subst (λ (x : ServiceState). SameTasks x st)
          (ap (λ (m : Result (Unit {0}) × ServiceState). m.1) (rw e at h))
          (record { db = refl; leases = refl; background = refl })
  ]

  -- a lease that is released is of no task, and the tables and coroutines are as before
  pub release_lease-none :
      (id : String) (st after : ServiceState) (u : Unit {0})
      → release_lease host meanwhile id st ≡ (ok u, after)
      → (select_one (of_task_id id) after.leases ≡ none)
        × (after.world.db ≡ st.world.db)
        × (after.background ≡ st.background)
  unfolding release_lease
  release_lease-none id st after u h = elim (Option-cases (select_one (of_task_id id) st.leases)) [
    | inl e ↦
        let same : st ≡ after =
          ap (λ (m : Result (Unit {0}) × ServiceState). m.1) (rw (e, release_lease) at h) in
        subst
          (λ (x : ServiceState).
            (select_one (of_task_id id) x.leases ≡ none)
            × (x.world.db ≡ st.world.db)
            × (x.background ≡ st.background))
          same (e, refl, refl)
    | inr (held, e) ↦
        let popped : ServiceState = record st { leases = delete (of_task_id id) st.leases } in
        let cleared = clear_own_guard host meanwhile id popped in
        let same = clear_own_guard-SameTasks id popped in
        let gone = select_one-delete_all (of_task_id id) (of_task_id id) (λ x. λ k. k) st.leases in
        let left = released cleared held.1 after u (rw (e, release_lease) at h) in
        (
          ap (select_one (of_task_id id)) (left.leases ∙ same.leases) ∙ gone,
          left.db ∙ same.db,
          left.background ∙ same.background,
        )
  ]
