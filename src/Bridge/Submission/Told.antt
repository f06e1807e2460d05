-- ===== src/Bridge/Submission/Told.antt =====
-- The events of a submission change no column of a task, and nothing else of the service.
use server_fs_mcp.Prelude.{
  Option, String, Bool, ℕ, none, some, ◌≡◌, refl, inl, inr, Bool-cases, Option-cases, ◌∙◌, ap,
  if◌then◌else◌, sym, [], ◌∷◌, ◌++◌, eq_refl,
}
use server_fs_mcp.Sql.{select_one, exists}
use server_fs_mcp.Sql.Rows.{select_one-update, select_one-append_new}
use server_fs_mcp.Bridge.Errors.{ok, err, Code, ok-injective}
use server_fs_mcp.Bridge.Store.Tables.{TaskRow, TaskRecord, Db, of_id, Timestamp, task_from_row}
use server_fs_mcp.Bridge.Store.Tasks.{
  create_task, NewTask, new_row, limit_reached, key_taken, insert_task, get_task,
}
use server_fs_mcp.Bridge.Store.Events.{append_event, has_room, counted_up}
use server_fs_mcp.Bridge.Recovery.{
  Report, try_append_event, event_type, task_preflight, task_routing_advice,
}
use server_fs_mcp.Bridge.Recovery.Ended.{append_event-tasks}
use server_fs_mcp.Bridge.Recovery.Interrupts.{found_task}
use server_fs_mcp.Bridge.Submission.{SubmissionHost, ServiceState, Moment}
use server_fs_mcp.Bridge.Submission.Prepare.{Prepared}
use server_fs_mcp.Bridge.Submission.Submit.{record_advice, record_event}

-- a task that is there stays, with its columns
abbrev pub KeepsColumns : String → Db → Db → Type 0
KeepsColumns id before after =
    (row : TaskRow)
    → select_one (of_id id) before.tasks ≡ some row
    → (kept : TaskRow) × (select_one (of_id id) after.tasks ≡ some kept)
      × (kept.columns ≡ row.columns)

counted-columns :
    (p : TaskRow → Bool) (row : TaskRow)
    → (if p row then counted_up row else row).columns ≡ row.columns
counted-columns p row = elim (Bool-cases (p row)) [ inl e ↦ rw e refl | inr e ↦ rw e refl ]

append_event-KeepsColumns :
    (id other event_type payload : String) (max : Option ℕ) (now : Timestamp) (db : Db)
    → KeepsColumns id db (append_event other event_type payload max now db).1
append_event-KeepsColumns id other event_type payload max now db row found =
    elim (append_event-tasks other event_type payload max now db) [
      | inl e ↦ (row, ap (select_one (of_id id)) e ∙ found, refl)
      | inr e ↦ (
        (if has_room other max row then counted_up row else row),
        ap (select_one (of_id id)) e
            ∙ select_one-update (of_id id) (has_room other max) counted_up (λ t. refl) db.tasks row
                found,
        counted-columns (has_room other max) row,
      )
    ]

-- the service is the same but for the events of its store
pub record IsTold (id : String) (a b : ServiceState) : Type 0 where
  pub guards : b.world.guards ≡ a.world.guards
  pub leases : b.leases ≡ a.leases
  pub locked : b.locked ≡ a.locked
  pub background : b.background ≡ a.background
  pub columns : KeepsColumns id a.world.db b.world.db

module _ (host : SubmissionHost) where
  open host use {recovery}

  try_append_event-KeepsColumns :
      (id other : String) (r : Report) (now : Timestamp) (db : Db)
      → KeepsColumns id db (try_append_event recovery other r now db)
  unfolding try_append_event
  try_append_event-KeepsColumns id other r now db = elim (Option-cases (recovery.encode other r)) [
    | inl e ↦ rw (e, try_append_event) (λ row found. (row, found, refl))
    | inr (text, e) ↦
        rw (e, try_append_event)
          (append_event-KeepsColumns id other (event_type r) text
            (some recovery.max_events_per_task) now db)
  ]

  record_event-IsTold :
      {A : Type 0} (id other : String) (report : A → Report) (o : Option A) (moment : Moment)
      (st : ServiceState)
      → IsTold id st (record_event host other report o moment st)
  record_event-IsTold id other report none moment st = record {
    guards = refl;
    leases = refl;
    locked = refl;
    background = refl;
    columns = λ row found. (row, found, refl);
  }
  record_event-IsTold id other report (some a) moment st = record {
    guards = refl;
    leases = refl;
    locked = refl;
    background = refl;
    columns = try_append_event-KeepsColumns id other (report a) moment.now st.world.db;
  }

  IsTold-trans :
      (id : String) (a b c : ServiceState) → IsTold id a b → IsTold id b c → IsTold id a c
  IsTold-trans id a b c first second = record {
    guards = second.guards ∙ first.guards;
    leases = second.leases ∙ first.leases;
    locked = second.locked ∙ first.locked;
    background = second.background ∙ first.background;
    columns = λ row found.
        let (mid, e, same) = first.columns row found in
        let (last, e2, same2) = second.columns mid e in (last, e2, same2 ∙ same);
  }

  pub record_advice-IsTold :
      (id : String) (p : Prepared) (moment : Moment) (st : ServiceState)
      → IsTold id st (record_advice host p moment st)
  unfolding record_advice
  record_advice-IsTold id p moment st =
      let mid = record_event host moment.task_id task_preflight p.preflight_result moment st in
      IsTold-trans id st mid _
        (record_event-IsTold id moment.task_id task_preflight p.preflight_result moment st)
        (record_event-IsTold id moment.task_id task_routing_advice p.routing_advice moment mid)

created :
    (n : NewTask) (now : Timestamp) (db after : Db) (task : TaskRecord)
    → select_one (of_id n.task_id) (db.tasks ++ new_row n now ∷ []) ≡ some (new_row n now)
    → get_task n.task_id (record db { tasks = db.tasks ++ new_row n now ∷ [] }) ≡ (ok task, after)
    → (task ≡ task_from_row (new_row n now))
      × (select_one (of_id n.task_id) after.tasks ≡ some (new_row n now))
created n now db after task found h =
    let got =
      found_task n.task_id (record db { tasks = db.tasks ++ new_row n now ∷ [] }) (new_row n now)
        found in
    let same : (
      ok (task_from_row (new_row n now)),
      record db { tasks = db.tasks ++ new_row n now ∷ [] },
    )
        ≡ (ok task, after) =
      sym got ∙ h in
    (
      sym (ok-injective (task_from_row (new_row n now)) task (ap (λ r. r.0) same)),
      ap (λ r. select_one (of_id n.task_id) r.1.tasks) (sym same) ∙ found,
    )

-- a task that is created is the last of the table, and the one with its id
pub create_task-ok :
    (n : NewTask) (limit : Option ℕ) (now : Timestamp) (db after : Db) (task : TaskRecord)
    → create_task n limit now db ≡ (ok task, after)
    → (task ≡ task_from_row (new_row n now))
      × (select_one (of_id n.task_id) after.tasks ≡ some (new_row n now))
unfolding create_task insert_task get_task
create_task-ok n limit now db after task h = elim (Bool-cases (limit_reached limit db)) [
  | inl full ↦ cc (rw full at h)
  | inr room ↦ elim (Bool-cases (key_taken n.idempotency_key db.tasks)) [
    | inl other ↦ elim (Bool-cases (exists (of_id n.task_id) db.tasks)) [
      | inl e ↦ cc (rw (room, e, other) at h)
      | inr e ↦ cc (rw (room, e, other) at h)
    ]
    | inr free ↦ elim (Bool-cases (exists (of_id n.task_id) db.tasks)) [
      | inl e ↦ cc (rw (room, e, free) at h)
      | inr e ↦
          let found : select_one (of_id n.task_id) (db.tasks ++ new_row n now ∷ [])
              ≡ some (new_row n now) =
            select_one-append_new (of_id n.task_id) db.tasks (new_row n now) e
              (eq_refl n.task_id) in
          created n now db after task found (rw (room, e, free) at h)
    ]
  ]
]

-- a task that is not created leaves the tables as they were
pub create_task-err :
    (n : NewTask) (limit : Option ℕ) (now : Timestamp) (db after : Db) (c : Code)
    → create_task n limit now db ≡ (err c, after)
    → after ≡ db
unfolding create_task insert_task
create_task-err n limit now db after c h = elim (Bool-cases (limit_reached limit db)) [
  | inl full ↦ sym (ap (λ r. r.1) (rw full at h))
  | inr room ↦ elim (Bool-cases (key_taken n.idempotency_key db.tasks)) [
    | inl other ↦ elim (Bool-cases (exists (of_id n.task_id) db.tasks)) [
      | inl e ↦ sym (ap (λ r. r.1) (rw (room, e, other) at h))
      | inr e ↦ sym (ap (λ r. r.1) (rw (room, e, other) at h))
    ]
    | inr free ↦ elim (Bool-cases (exists (of_id n.task_id) db.tasks)) [
      | inl e ↦ sym (ap (λ r. r.1) (rw (room, e, free) at h))
      | inr e ↦
          let found : select_one (of_id n.task_id) (db.tasks ++ new_row n now ∷ [])
              ≡ some (new_row n now) =
            select_one-append_new (of_id n.task_id) db.tasks (new_row n now) e
              (eq_refl n.task_id) in
          let got =
            found_task n.task_id (record db { tasks = db.tasks ++ new_row n now ∷ [] })
              (new_row n now) found in
          cc (sym got ∙ (rw (room, e, free) at h))
    ]
  ]
]
