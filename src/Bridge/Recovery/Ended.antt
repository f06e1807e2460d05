-- ===== src/Bridge/Recovery/Ended.antt =====
-- Recovery leaves every stored task as it is, or ends it.
use server_fs_mcp.Prelude.{
  String, Option, inl, inr, ℕ, Bool, ◌∙◌, ap, ◌≡◌, some, ◌⊎◌, true, Option-cases, if◌then◌else◌,
  refl, Bool-cases, ◌==◌,
}
use server_fs_mcp.Bridge.Store.Events.{append_event, has_room, counted_up, no_row_counted}
use server_fs_mcp.Bridge.Store.Tasks.{moved, Overrides, transition_task}
use server_fs_mcp.Bridge.Store.Tables.{Db, TaskRow, of_id, Timestamp}
use server_fs_mcp.Bridge.Status.{TaskStatus, is_terminal}
use server_fs_mcp.Sql.{select_one, update}
use server_fs_mcp.Sql.Rows.{select_one-update}
use server_fs_mcp.Bridge.Store.Consistent.Tasks.{transition_task-effect}

abbrev pub HasEnded : String → Db → Type 0
HasEnded id db =
    (row : TaskRow) × (select_one (of_id id) db.tasks ≡ some row) × (is_terminal row.status ≡ true)

-- a row that is there stays, with its columns or with a terminal status
abbrev pub IsKept : String → Db → Db → Type 0
IsKept id before after =
    (row : TaskRow)
    → select_one (of_id id) before.tasks ≡ some row
    → (kept : TaskRow) × (select_one (of_id id) after.tasks ≡ some kept)
      × ((kept.columns ≡ row.columns) ⊎ (is_terminal kept.status ≡ true))

pub IsKept-refl : (id : String) (db : Db) → IsKept id db db
IsKept-refl id db row e = (row, e, inl refl)

pub IsKept-trans : (id : String) (a b c : Db) → IsKept id a b → IsKept id b c → IsKept id a c
IsKept-trans id a b c first second row e =
    let (mid, e1, how) = first row e in
    let (last, e2, how2) = second mid e1 in
    (
      last,
      e2,
      elim how2 [
        | inr ends ↦ inr ends
        | inl same ↦ elim how [
          | inl before ↦ inl (same ∙ before)
          | inr ended ↦ inr (ap (λ r. is_terminal r.status) same ∙ ended)
        ]
      ],
    )

pub HasEnded-IsKept : (id : String) (a b : Db) → HasEnded id a → IsKept id a b → HasEnded id b
HasEnded-IsKept id a b (row, e, ended) kept =
    let (last, e2, how) = kept row e in
    (
      last,
      e2,
      elim how [ inl same ↦ ap (λ r. is_terminal r.status) same ∙ ended | inr ends ↦ ends ],
    )

pub append_event-tasks :
    (id event_type payload : String) (max : Option ℕ) (now : Timestamp) (db : Db)
    → let after = (append_event id event_type payload max now db).1 in
      (after.tasks ≡ db.tasks) ⊎ (after.tasks ≡ update (has_room id max) counted_up db.tasks)
unfolding append_event
append_event-tasks id event_type payload max now db =
    elim (Option-cases (select_one (of_id id) db.tasks)) [
      | inl e ↦ inl (simp e)
      | inr (row, e) ↦ elim (Bool-cases (no_row_counted id max db.tasks)) [
        | inl full ↦ inl (simp (e, full))
        | inr room ↦ inr (simp (e, room))
      ]
    ]

update-IsKept :
    (id : String) (p : TaskRow → Bool) (f : TaskRow → TaskRow) (db after : Db)
    → ((t : TaskRow) → (f t).task_id ≡ t.task_id)
    → ((t : TaskRow) → ((f t).columns ≡ t.columns) ⊎ (is_terminal (f t).status ≡ true))
    → after.tasks ≡ update p f db.tasks
    → IsKept id db after
update-IsKept id p f db after same_id how e row found = (
  (if p row then f row else row),
  ap (select_one (of_id id)) e
      ∙ select_one-update (of_id id) p f (λ t. ap (λ i. i == id) (same_id t)) db.tasks row found,
  elim (Bool-cases (p row)) [ inl hit ↦ rw hit (how row) | inr miss ↦ rw miss (inl refl) ],
)

pub append_event-IsKept :
    (id other event_type payload : String) (max : Option ℕ) (now : Timestamp) (db : Db)
    → IsKept id db (append_event other event_type payload max now db).1
append_event-IsKept id other event_type payload max now db =
    let after : Db = (append_event other event_type payload max now db).1 in
    elim (append_event-tasks other event_type payload max now db) [
      | inl e ↦ λ row found. (row, ap (select_one (of_id id)) e ∙ found, inl refl)
      | inr e ↦
          update-IsKept id (has_room other max) counted_up db after (λ t. refl) (λ t. inl refl) e
    ]

pub transition_task-IsKept :
    (id other : String) (target : TaskStatus) (o : Overrides) (now : Timestamp) (db : Db)
    → is_terminal target ≡ true
    → IsKept id db (transition_task other target o now db).1
unfolding moved
transition_task-IsKept id other target o now db ends =
    elim (transition_task-effect other target o now db) [
      | inl e ↦ rw e (IsKept-refl id db)
      | inr (row, _, _, e) ↦
          update-IsKept id (of_id other) (moved target o now) db
            (transition_task other target o now db).1 (λ t. refl) (λ t. inr ends)
            (ap (λ d. d.tasks) e)
    ]
