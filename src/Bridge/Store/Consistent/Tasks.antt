-- ===== src/Bridge/Store/Consistent/Tasks.antt =====
-- `create_task`, `transition_task`, `set_native_ids` and `delete_tasks` keep the tables consistent.
use server_fs_mcp.Prelude.{
  ℕ, String, ◌≡◌, refl, ◌⊎◌, inl, inr, true, false, Option, some, [], ◌∷◌, ◌++◌, arith,
  Option-cases, if◌then◌else◌, Bool-cases, List, All-append, All, sym, ◌==◌, All-map, eq_iff, map,
  ap, ◌∙◌, Bool, none, All-pair,
}
use server_fs_mcp.Sql.{select_one, update, exists, count}
use server_fs_mcp.Bridge.Status.{TaskStatus, is_terminal, can_transition, validate_transition}
use server_fs_mcp.Bridge.Store.Tables.{
  Timestamp, TaskRow, Db, of_id, EventRow, of_task, PendingRequest,
}
use server_fs_mcp.Bridge.Store.Tasks.{
  NewTask, Overrides, new_row, key_taken, limit_reached, create_task, moved, stale_request,
  transition_task, get_task, insert_task,
}
use server_fs_mcp.Bridge.Store.Consistent.{
  IsConsistent, List, HasTask, count, All-append, exists-append, EventRow, IsSettled, All,
  CountedBy, of_task, All-map, eq_iff, map, ap, owner, taken, KeepsKeys, PendingRequest,
  update-IsConsistent, idempotency, id_key, SameRequests, SameRequests-refl, SameRequests-update,
  Bool, AreDistinct, All-update,
}
use server_fs_mcp.Sql.Rows.{exists-append, All-update}
use server_fs_mcp.Sql.Keys.{
  taken, map-append_one, AreDistinct-append, exists-taken, AreDistinct, only_row,
}
use server_fs_mcp.Bridge.Status.Lifecycle.{can_transition-live}

-- `create_task` does nothing, or adds a row under keys that were free and a limit that was not met.
pub create_task-effect :
    (n : NewTask) (limit : Option ℕ) (now : Timestamp) (db : Db)
    → let after = (create_task n limit now db).1 in
      (after ≡ db)
      ⊎ ((exists (of_id n.task_id) db.tasks ≡ false)
          × (key_taken n.idempotency_key db.tasks ≡ false)
          × (limit_reached limit db ≡ false)
          × (after ≡ record db { tasks = db.tasks ++ new_row n now ∷ [] }))
unfolding create_task insert_task get_task
create_task-effect n limit now db = elim (Bool-cases (limit_reached limit db)) [
  | inl full ↦ rw full (inl refl)
  | inr room ↦ rw room (ground arith)
]

-- `transition_task` does nothing, or moves the task along the rules.
pub transition_task-effect :
    (id : String) (target : TaskStatus) (o : Overrides) (now : Timestamp) (db : Db)
    → let after = (transition_task id target o now db).1 in
      (after ≡ db)
      ⊎ ((row : TaskRow) × (select_one (of_id id) db.tasks ≡ some row)
          × (can_transition row.status target ≡ true)
          × (after ≡ record db {
            tasks = update (of_id id) (moved target o now) db.tasks;
            requests =
                if is_terminal target
                then stale_request row.pending_request_id now db.requests
                else db.requests;
          }))
unfolding transition_task validate_transition
transition_task-effect id target o now db = elim (Option-cases (select_one (of_id id) db.tasks)) [
  | inl e ↦ rw e (inl refl)
  | inr (row, e) ↦ elim (Bool-cases (can_transition row.status target)) [
    | inl t ↦ rw (e, t) (ground arith)
    | inr f ↦ rw (e, f) (inl refl)
  ]
]

key_taken-taken :
    (key : Option String) (ts : List TaskRow) → key_taken key ts ≡ taken key (map idempotency ts)
unfolding exists
key_taken-taken none [] = refl
key_taken-taken none (t ∷ ts) = key_taken-taken none ts
key_taken-taken (some k) [] = refl
key_taken-taken (some k) (t ∷ ts) = ground (arith, key_taken-taken (some k) ts)

module _ (n : NewTask) (now : Timestamp) (db : Db) (c : IsConsistent db) where
  open c use {ids, keys, request_ids, settled, counted, events_owned, requests_owned}

  abbrev grown : List TaskRow
  grown = db.tasks ++ new_row n now ∷ []

  HasTask-grown : (id : String) → HasTask db.tasks id → HasTask grown id
  HasTask-grown id h = rw (exists-append (of_id id) db.tasks (new_row n now ∷ []), h)

  module _ (fresh : exists (of_id n.task_id) db.tasks ≡ false) where
    -- no event stands under an id that no task has
    no_events :
        (es : List EventRow)
        → All (λ e. HasTask db.tasks e.task_id) es
        → count (of_task n.task_id) es ≡ 0
    unfolding count
    no_events [] h = refl
    no_events (e ∷ es) h = elim (Bool-cases (e.task_id == n.task_id)) [
      | inl hit ↦
          let same : e.task_id ≡ n.task_id = (eq_iff e.task_id n.task_id).0 hit in
          cc (fresh, h.0, ap (λ (u : String). exists (of_id u) db.tasks) same)
      | inr miss ↦ rw miss (no_events es h.1)
    ]

    insert-IsConsistent :
        key_taken n.idempotency_key db.tasks ≡ false → IsConsistent (record db { tasks = grown })
    unfolding is_terminal
    insert-IsConsistent free = record {
      ids = rw (map-append_one id_key db.tasks (new_row n now)) (
          AreDistinct-append (some n.task_id) (map id_key db.tasks) ids
            (sym (exists-taken (λ t. t.task_id) n.task_id db.tasks) ∙ fresh));
      keys = rw (map-append_one idempotency db.tasks (new_row n now)) (
          AreDistinct-append n.idempotency_key (map idempotency db.tasks) keys
            (sym (key_taken-taken n.idempotency_key db.tasks) ∙ free));
      request_ids = request_ids;
      settled = All-append IsSettled db.tasks (new_row n now ∷ []) settled (ground arith);
      counted =
          All-append (CountedBy db.events) db.tasks (new_row n now ∷ []) counted
            (sym (no_events db.events events_owned), tt);
      events_owned =
          All-map (λ e. HasTask db.tasks e.task_id) (λ e. HasTask grown e.task_id)
            (λ e h. HasTask-grown e.task_id h) db.events events_owned;
      requests_owned =
          All-map (HasTask db.tasks) (HasTask grown) HasTask-grown (map owner db.requests)
            requests_owned;
      ascending = c.ascending;
      last_id = c.last_id;
    }

-- Creating a task, whatever the outcome, keeps the tables consistent.
pub create_task-IsConsistent :
    (n : NewTask) (limit : Option ℕ) (now : Timestamp) (db : Db)
    → IsConsistent db
    → IsConsistent (create_task n limit now db).1
create_task-IsConsistent n limit now db c = elim (create_task-effect n limit now db) [
  | inl e ↦ rw e c
  | inr (fresh, free, _, e) ↦ rw e (insert-IsConsistent n now db c fresh free)
]

pub moved-KeepsKeys :
    (target : TaskStatus) (o : Overrides) (now : Timestamp) → KeepsKeys (moved target o now)
unfolding moved
moved-KeepsKeys target o now = record {
  same_id = λ t. refl;
  same_key = λ t. refl;
  same_count = λ t. refl;
}

pub SameRequests-stale_request :
    (request : Option String) (now : Timestamp) (rs : List PendingRequest)
    → SameRequests rs (stale_request request now rs)
unfolding stale_request
SameRequests-stale_request none now rs = SameRequests-refl rs
SameRequests-stale_request (some id) now rs = SameRequests-update _ _ (λ r. refl) (λ r. refl) rs

-- a row that moves along the rules is settled again
moved-IsSettled :
    (target : TaskStatus) (o : Overrides) (now : Timestamp) (t : TaskRow)
    → can_transition t.status target ≡ true
    → IsSettled t
    → IsSettled (moved target o now t)
unfolding moved
moved-IsSettled target o now t ok s = record {
  done = λ h. rw h (refl, refl);
  live = λ h. rw h (s.live (can_transition-live t.status target ok));
}

pub same_if :
    (b : Bool) (rs ss : List PendingRequest)
    → SameRequests rs ss
    → SameRequests rs (if b then ss else rs)
same_if true rs ss s = s
same_if false rs ss s = SameRequests-refl rs

-- settling one row by its id settles the table
pub IsSettled-by_id :
    (id : String) (p : TaskRow → Bool) (f : TaskRow → TaskRow) (ts : List TaskRow) (row : TaskRow)
    → ((t : TaskRow) → p t ≡ true → of_id id t ≡ true)
    → AreDistinct (map id_key ts)
    → select_one (of_id id) ts ≡ some row
    → (IsSettled row → IsSettled (f row))
    → All IsSettled ts
    → All IsSettled (update p f ts)
IsSettled-by_id id p f ts row narrow d found settle h =
    All-update (λ t. IsSettled t × (of_id id t ≡ true → t ≡ row)) IsSettled p f
      (λ t k hit. let e : t ≡ row = k.1 (narrow t hit) in rw e (settle (rw e at (k.0))))
      (λ t k _. k.0) ts
      (All-pair IsSettled (λ t. of_id id t ≡ true → t ≡ row) ts h
        (only_row (λ t. t.task_id) id ts row d found))

-- Moving a task, whatever the outcome, keeps the tables consistent.
pub transition_task-IsConsistent :
    (id : String) (target : TaskStatus) (o : Overrides) (now : Timestamp) (db : Db)
    → IsConsistent db
    → IsConsistent (transition_task id target o now db).1
transition_task-IsConsistent id target o now db c =
    elim (transition_task-effect id target o now db) [
      | inl e ↦ rw e c
      | inr (row, found, ok, e) ↦ rw e (
          update-IsConsistent (of_id id) (moved target o now) (moved-KeepsKeys target o now) db _
            (same_if (is_terminal target) _ _
              (SameRequests-stale_request row.pending_request_id now db.requests))
            (IsSettled-by_id id (of_id id) (moved target o now) db.tasks row (λ t h. h) c.ids found
              (moved-IsSettled target o now row ok) c.settled)
            c)
    ]
