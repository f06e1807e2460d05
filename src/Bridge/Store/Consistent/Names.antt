-- ===== src/Bridge/Store/Consistent/Names.antt =====
-- The methods that name the native session of a task, and that delete tasks, keep the tables
-- consistent.
use server_fs_mcp.Prelude.{
  String, ◌≡◌, refl, ◌⊎◌, inl, inr, false, Option, some, [], ◌∷◌, arith, Option-cases, List, eq_iff,
  ap, ◌∙◌, Bool, ◌≤◌,
}
use server_fs_mcp.Sql.{select_one, update, delete}
use server_fs_mcp.Bridge.Store.Tables.{Timestamp, TaskRow, Db, of_id, of_task}
use server_fs_mcp.Bridge.Store.Tasks.{get_task, set_native_ids, named, delete_tasks, in_ids}
use server_fs_mcp.Bridge.Store.Consistent.{
  IsConsistent, List, HasTask, IsSettled, CountedBy, of_task, eq_iff, ap, owner, KeepsKeys,
  update-IsConsistent, idempotency, id_key, SameRequests-refl, Bool, delete, request_key,
  Ascend-delete,
}
use server_fs_mcp.Sql.Rows.{
  exists-delete, All-delete, All-delete_kept, count-delete, All-map_delete,
}
use server_fs_mcp.Sql.Keys.{AreDistinct-delete}
use server_fs_mcp.Bridge.Store.Consistent.Tasks.{IsSettled-by_id}

-- `get_task` only reads
pub state-get_task : (id : String) (db : Db) → (get_task id db).1 ≡ db
unfolding get_task
state-get_task id db = ground arith

pub named-KeepsKeys :
    (session turn : Option String) (now : Timestamp) → KeepsKeys (named session turn now)
unfolding named
named-KeepsKeys session turn now = record {
  same_id = λ t. refl;
  same_key = λ t. refl;
  same_count = λ t. refl;
}

named-IsSettled :
    (session turn : Option String) (now : Timestamp) (t : TaskRow)
    → IsSettled t
    → IsSettled (named session turn now t)
unfolding named
named-IsSettled session turn now t s = record { done = s.done; live = s.live }

-- `set_native_ids` does nothing, or names the session of a task that exists.
pub set_native_ids-effect :
    (id : String) (session turn : Option String) (now : Timestamp) (db : Db)
    → let after = (set_native_ids id session turn now db).1 in
      (after ≡ db)
      ⊎ ((row : TaskRow) × (select_one (of_id id) db.tasks ≡ some row)
          × (after ≡ record db { tasks = update (of_id id) (named session turn now) db.tasks }))
unfolding set_native_ids
set_native_ids-effect id session turn now db =
    elim (Option-cases (select_one (of_id id) db.tasks)) [
      | inl e ↦ inl (simp e)
      | inr (row, e) ↦ inr (row, e, simp (e, state-get_task))
    ]

-- Recording native ids, whatever the outcome, keeps the tables consistent.
pub set_native_ids-IsConsistent :
    (id : String) (session turn : Option String) (now : Timestamp) (db : Db)
    → IsConsistent db
    → IsConsistent (set_native_ids id session turn now db).1
set_native_ids-IsConsistent id session turn now db c =
    elim (set_native_ids-effect id session turn now db) [
      | inl e ↦ rw e c
      | inr (row, found, e) ↦ rw e (
          update-IsConsistent (of_id id) (named session turn now) (named-KeepsKeys session turn now)
            db db.requests (SameRequests-refl db.requests)
            (IsSettled-by_id id (of_id id) (named session turn now) db.tasks row (λ t h. h) c.ids
              found (named-IsSettled session turn now row) c.settled)
            c)
    ]

-- Deleting tasks, with the events and the requests that go with them, keeps the tables consistent.
pub delete_tasks-IsConsistent :
    (ids : List String) (db : Db) → IsConsistent db → IsConsistent (delete_tasks ids db).1
unfolding delete_tasks
delete_tasks-IsConsistent [] db c = c
delete_tasks-IsConsistent (i ∷ ids) db c = record {
  ids = AreDistinct-delete id_key (λ t. gone t.task_id) db.tasks c.ids;
  keys = AreDistinct-delete idempotency (λ t. gone t.task_id) db.tasks c.keys;
  request_ids = AreDistinct-delete request_key (λ r. gone r.task_id) db.requests c.request_ids;
  settled = All-delete IsSettled (λ t. gone t.task_id) db.tasks c.settled;
  counted =
      All-delete_kept (CountedBy db.events) (CountedBy (delete (λ e. gone e.task_id) db.events))
        (λ t. gone t.task_id)
        (λ t h kept.
          rw
            (count-delete (of_task t.task_id) (λ e. gone e.task_id)
              (λ e hit. ap gone ((eq_iff e.task_id t.task_id).0 hit) ∙ kept) db.events)
            h)
        db.tasks c.counted;
  events_owned =
      All-delete_kept (λ e. HasTask db.tasks e.task_id)
        (λ e. HasTask (delete (λ t. gone t.task_id) db.tasks) e.task_id) (λ e. gone e.task_id)
        (λ e h kept. HasTask-delete e.task_id kept h) db.events c.events_owned;
  requests_owned =
      All-map_delete (HasTask db.tasks) (HasTask (delete (λ t. gone t.task_id) db.tasks)) owner gone
        (λ id h kept. HasTask-delete id kept h) db.requests c.requests_owned;
  ascending = Ascend-delete (λ e. gone e.task_id) 0 db.events c.ascending;
  last_id =
      All-delete (λ e. e.event_id ≤ db.last_event_id) (λ e. gone e.task_id) db.events c.last_id;
}
  where
    gone : String → Bool
    gone = in_ids (i ∷ ids)

    HasTask-delete :
        (id : String)
        → gone id ≡ false
        → HasTask db.tasks id
        → HasTask (delete (λ t. gone t.task_id) db.tasks) id
    HasTask-delete id kept h =
        rw
          (exists-delete (of_id id) (λ t. gone t.task_id)
            (λ t hit. ap gone ((eq_iff t.task_id id).0 hit) ∙ kept) db.tasks)
          h
