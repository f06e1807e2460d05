-- ===== src/Bridge/Submission/Admitted.antt =====
-- How `submit_task` ends under its lock.
use server_fs_mcp.Prelude.{
  Option, String, Bool, List, none, some, ◌≡◌, refl, inl, inr, ◌∙◌, ap, [], ◌∷◌, false, true, ◌⊎◌,
  arith, any,
}
use server_fs_mcp.Bridge.Errors.{ok, err, Result, Result-cases, Code}
use server_fs_mcp.Sql.{select_one, delete}
use server_fs_mcp.Bridge.Store.Tables.{TaskRow, TaskRecord, Db, of_id, task_from_row}
use server_fs_mcp.Bridge.Store.Tasks.{create_task, new_row}
use server_fs_mcp.Bridge.Recovery.Ended.{HasEnded}
use server_fs_mcp.Bridge.Submission.{SubmissionHost, ServiceState, Submission, Submitted, Moment}
use server_fs_mcp.Bridge.Submission.Prepare.{Prepared}
use server_fs_mcp.Bridge.Submission.Submit.{of_task_id, release, after_create, enter_task, new_task}
use server_fs_mcp.Bridge.Submission.Told.{create_task-ok, create_task-err}
use server_fs_mcp.Bridge.Submission.Started.{IsStarted, HoldsLease, start_task-Ends}

pub delete_of_none : {A : Type 0} (p : A → Bool) (xs : List A) → any p xs ≡ false → delete p xs ≡ xs
unfolding delete
delete_of_none p [] h = refl
delete_of_none p (x ∷ xs) h = ground (arith, delete_of_none p xs)

module _ (host : SubmissionHost) where
  open host use {recovery, max_active_tasks}
  open host.recovery use {unlinks}

  -- the row that a submission adds
  abbrev pub added_row : Submission → Prepared → Moment → TaskRow
  added_row s p moment = new_row (new_task host s p moment) moment.now

  -- what a submission that fails after its lease leaves
  pub record IsUndone (lease : Option String) (moment : Moment) (before after : ServiceState)
      : Type 0 where
    pub leases : after.leases ≡ delete (of_task_id moment.task_id) before.leases
    pub locked : after.locked ≡ (release host lease before).locked
    pub background : after.background ≡ before.background
    pub guards : after.world.guards ≡ before.world.guards
    pub tasks : HasEnded moment.task_id after.world.db ⊎ (after.world.db ≡ before.world.db)

  abbrev pub Enters :
      Submission
      → Prepared
      → Option String
      → Moment
      → ServiceState
      → Result Submitted × ServiceState
      → Type 0
  Enters s p lease moment st r =
      ((answer : Submitted) × (r.0 ≡ ok answer)
        × (answer.task_id ≡ moment.task_id)
        × IsStarted host s lease moment (added_row s p moment) st r.1)
      ⊎ ((c : Code) × (r.0 ≡ err c) × IsUndone lease moment st r.1)

  abbrev with_db : Db → ServiceState → ServiceState
  with_db db st = record st { world = record st.world { db = db } }

  holds_before :
      (s : Submission) (moment : Moment) (lease : Option String) (st after : ServiceState) (db : Db)
      → HoldsLease host s moment lease (with_db db st) after
      → HoldsLease host s moment lease st after
  holds_before s moment none st after db h = h
  holds_before s moment (some l) st after db h = h

  released_same :
      (lease : Option String) (st : ServiceState) (db : Db)
      → (release host lease (with_db db st)).locked ≡ (release host lease st).locked
  released_same none st db = refl
  released_same (some l) st db = refl

  refused-IsUndone :
      (lease : Option String) (moment : Moment) (st : ServiceState) (db : Db)
      → db ≡ st.world.db
      → IsUndone lease moment st (
          release host lease
            (record (with_db db st) { leases = delete (of_task_id moment.task_id) st.leases }))
  refused-IsUndone none moment st db e = record {
    leases = refl;
    locked = refl;
    background = refl;
    guards = refl;
    tasks = inr e;
  }
  refused-IsUndone (some l) moment st db e = record {
    leases = refl;
    locked = refl;
    background = refl;
    guards = refl;
    tasks = inr e;
  }

  created-Enters :
      (s : Submission) (p : Prepared) (lease : Option String) (moment : Moment) (st : ServiceState)
      (db : Db) (task : TaskRecord)
      → unlinks ≡ true
      → task ≡ task_from_row (added_row s p moment)
      → select_one (of_id moment.task_id) db.tasks ≡ some (added_row s p moment)
      → Enters s p lease moment st (after_create host (ok task, with_db db st) s p lease moment)
  unfolding task_from_row new_task
  created-Enters s p lease moment st db task can same found =
      let ends =
        start_task-Ends host s p lease moment (added_row s p moment) (with_db db st) can found in
      elim ends [
        | inl (e, started) ↦ rw e (
            inl (
              _,
              refl,
              ap (λ (t : TaskRecord). t.task_id) same,
              record {
                locked = started.locked;
                background = started.background;
                task = started.task;
                holds = holds_before s moment lease st _ db started.holds;
              },
            ))
        | inr ((c, e), back) ↦ rw e (
            inr (
              c,
              refl,
              record {
                leases = back.leases;
                locked = back.locked ∙ released_same lease st db;
                background = back.background;
                guards = back.guards;
                tasks = inl back.ended;
              },
            ))
      ]

  pub enter_task-Enters :
      (s : Submission) (p : Prepared) (lease : Option String) (moment : Moment) (st : ServiceState)
      → unlinks ≡ true
      → Enters s p lease moment st (enter_task host s p lease moment st)
  unfolding enter_task new_task
  enter_task-Enters s p lease moment st can =
      let made =
        create_task (new_task host s p moment) (some max_active_tasks) moment.now st.world.db in
      elim (Result-cases made.0) [
        | inr (c, e) ↦
            let same : made.1 ≡ st.world.db =
              create_task-err (new_task host s p moment) (some max_active_tasks) moment.now
                st.world.db made.1 c (ap (λ r. (r, made.1)) e) in
            rw e (inr (c, refl, refused-IsUndone lease moment st made.1 same))
        | inl (task, e) ↦
            let (same, found) =
              create_task-ok (new_task host s p moment) (some max_active_tasks) moment.now
                st.world.db made.1 task (ap (λ r. (r, made.1)) e) in
            rw e (created-Enters s p lease moment st made.1 task can same found)
      ]
