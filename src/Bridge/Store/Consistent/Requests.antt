-- ===== src/Bridge/Store/Consistent/Requests.antt =====
-- The methods on pending requests keep the tables consistent.
use server_fs_mcp.Bridge.Store.Requests.{
  get_request, create_pending_request, NewRequest, set_waiting, request_row,
}
use server_fs_mcp.Bridge.Status.{TaskStatus, validate_transition, is_terminal, can_transition}
use server_fs_mcp.Prelude.{
  String, Option, ◌≡◌, ◌⊎◌, arith, false, true, some, none, ◌++◌, ◌∷◌, [], Option-cases, Bool-cases,
  List, refl, sym, ◌∙◌, ap, map, is_some, All-append,
}
use server_fs_mcp.Bridge.Store.Tables.{Db, Timestamp, TaskRow, of_id, of_request, PendingRequest}
use server_fs_mcp.Bridge.Store.Consistent.{
  KeepsKeys, arith, false, of_id, true, some, IsSettled, none, exists, of_request, update, [], inl,
  inr, Bool-cases, List, HasTask, IsConsistent, HasTask-update, request_key, update-IsConsistent,
  SameRequests-refl, ap, map, is_some, PendingRequest, All-append, owner,
}
use server_fs_mcp.Sql.{select_one, exists, update}
use server_fs_mcp.Bridge.Status.Lifecycle.{can_transition-live}
use server_fs_mcp.Sql.Keys.{map-append_one, AreDistinct-append, exists-taken}
use server_fs_mcp.Sql.Rows.{is_some-select_one}
use server_fs_mcp.Bridge.Store.Consistent.Tasks.{IsSettled-by_id}

-- `get_request` only reads
pub state-get_request : (id : String) (db : Db) → (get_request id db).1 ≡ db
unfolding get_request
state-get_request id db = ground arith

pub set_waiting-KeepsKeys :
    (s : TaskStatus) (request : Option String) (now : Timestamp)
    → KeepsKeys (set_waiting s request now)
set_waiting-KeepsKeys s request now = record {
  same_id = λ t. refl;
  same_key = λ t. refl;
  same_count = λ t. refl;
}

-- a task that may move may be set to a status that is not terminal
pub set_waiting-IsSettled :
    (s : TaskStatus) (request : Option String) (now : Timestamp) (t : TaskRow)
    → is_terminal s ≡ false
    → can_transition t.status s ≡ true
    → IsSettled t
    → IsSettled (set_waiting s request now t)
set_waiting-IsSettled s request now t live ok h = record {
  done = λ final. cc;
  live = λ _. h.live (can_transition-live t.status s ok);
}

-- `create_pending_request` does nothing, or makes the task wait for a request under a new id.
pub create_pending_request-effect :
    (n : NewRequest) (now : Timestamp) (db : Db)
    → let after = (create_pending_request n now db).1 in
      (after ≡ db)
      ⊎ ((row : TaskRow) × (select_one (of_id n.task_id) db.tasks ≡ some row)
          × (row.pending_request_id ≡ none)
          × (can_transition row.status n.waiting_status ≡ true)
          × (exists (of_request n.request_id) db.requests ≡ false)
          × (after ≡ record db {
            tasks =
                update
                  (of_id n.task_id)
                  (set_waiting n.waiting_status (some n.request_id) now)
                  db.tasks;
            requests = db.requests ++ request_row n now ∷ [];
          }))
unfolding create_pending_request validate_transition
create_pending_request-effect n now db =
    elim (Option-cases (select_one (of_id n.task_id) db.tasks)) [
      | inl e ↦ rw e (inl refl)
      | inr (row, e) ↦ elim (Option-cases row.pending_request_id) [
        | inr (_, w) ↦ rw (e, w) (inl refl)
        | inl free ↦ elim (Bool-cases (can_transition row.status n.waiting_status)) [
          | inr f ↦ rw (e, free, f) (inl refl)
          | inl t ↦ elim (Bool-cases (exists (of_request n.request_id) db.requests)) [
            | inl old ↦ rw (e, free, t, old) (inl refl)
            | inr new ↦ inr (row, e, free, t, new, simp (e, free, t, new, state-get_request))
          ]
        ]
      ]
    ]

pub HasTask-found :
    (id : String) (ts : List TaskRow) (row : TaskRow)
    → select_one (of_id id) ts ≡ some row
    → HasTask ts id
HasTask-found id ts row found = sym (is_some-select_one (of_id id) ts) ∙ ap is_some found

map-owner :
    (rs : List PendingRequest) (r : PendingRequest)
    → map owner (rs ++ r ∷ []) ≡ map owner rs ++ owner r ∷ []
map-owner [] r = refl
map-owner (q ∷ rs) r = ap (λ (t : List String). owner q ∷ t) (map-owner rs r)

-- a request under a new id, of a task that exists
asked-IsConsistent :
    (n : NewRequest) (now : Timestamp) (db : Db)
    → HasTask db.tasks n.task_id
    → exists (of_request n.request_id) db.requests ≡ false
    → IsConsistent db
    → IsConsistent (record db { requests = db.requests ++ request_row n now ∷ [] })
asked-IsConsistent n now db owned fresh c = record {
  ids = c.ids;
  keys = c.keys;
  request_ids = rw (map-append_one request_key db.requests (request_row n now)) (
      AreDistinct-append (some n.request_id) (map request_key db.requests) c.request_ids
        (sym (exists-taken (λ r. r.request_id) n.request_id db.requests) ∙ fresh));
  settled = c.settled;
  counted = c.counted;
  events_owned = c.events_owned;
  requests_owned = rw (map-owner db.requests (request_row n now)) (
      All-append (HasTask db.tasks) (map owner db.requests) (n.task_id ∷ []) c.requests_owned
        (owned, tt));
  ascending = c.ascending;
  last_id = c.last_id;
}

-- Asking, whatever the outcome, keeps the tables consistent, if the task is to wait in a status
-- that is not terminal.
pub create_pending_request-IsConsistent :
    (n : NewRequest) (now : Timestamp) (db : Db)
    → is_terminal n.waiting_status ≡ false
    → IsConsistent db
    → IsConsistent (create_pending_request n now db).1
create_pending_request-IsConsistent n now db live c =
    elim (create_pending_request-effect n now db) [
      | inl e ↦ rw e c
      | inr (row, found, _, ok, fresh, e) ↦
          let f : TaskRow → TaskRow = set_waiting n.waiting_status (some n.request_id) now in
          let k : KeepsKeys f = set_waiting-KeepsKeys n.waiting_status (some n.request_id) now in
          rw e (
            asked-IsConsistent n now _
              (HasTask-update (of_id n.task_id) f k n.task_id db.tasks
                (HasTask-found n.task_id db.tasks row found))
              fresh
              (update-IsConsistent (of_id n.task_id) f k db db.requests
                (SameRequests-refl db.requests)
                (IsSettled-by_id n.task_id (of_id n.task_id) f db.tasks row (λ t h. h) c.ids found
                  (set_waiting-IsSettled n.waiting_status (some n.request_id) now row live ok)
                  c.settled)
                c))
    ]
