-- ===== src/Bridge/Store/Consistent.antt =====
-- What holds of the tables of store.py between two calls, and the statements that keep it.
-- The methods keep it by the modules below.
pub mod Tasks
pub mod Names
pub mod Requests
pub mod Answers
pub mod Events
pub mod Runs
use server_fs_mcp.Prelude.{
  ℕ, suc, ◌+◌, ◌≤◌, ◌<◌, String, ◌≡◌, refl, ap, Bool, true, false, Option, none, some, List, [],
  ◌∷◌, ◌++◌, ◌==◌, map, All, All-map, All-append, is_some, arith, eq_iff, Bool-cases, inl, inr,
}
use server_fs_mcp.Sql.{count, update, exists, delete}
use server_fs_mcp.Sql.Rows.{All-update, count-append, exists-append, exists-update, map-update}
use server_fs_mcp.Sql.Keys.{AreDistinct, taken}
use server_fs_mcp.Bridge.Status.{TaskStatus, is_terminal}
use server_fs_mcp.Bridge.Store.Tables.{
  TaskRow, EventRow, PendingRequest, Db, of_id, of_task, of_request, empty,
}

-- a finished task has its time of completion and waits for nothing; another has no such time
pub record IsSettled (t : TaskRow) : Type 0 where
  pub done :
      is_terminal t.status ≡ true → (t.pending_request_id ≡ none) × (is_some t.completed_at ≡ true)
  pub live : is_terminal t.status ≡ false → t.completed_at ≡ none

abbrev pub id_key : TaskRow → Option String
id_key t = some t.task_id

abbrev pub idempotency : TaskRow → Option String
idempotency t = t.idempotency_key

abbrev pub request_key : PendingRequest → Option String
request_key r = some r.request_id

abbrev pub owner : PendingRequest → String
owner r = r.task_id

abbrev pub HasTask : List TaskRow → String → Type 0
HasTask ts id = exists (of_id id) ts ≡ true

-- each event has a later id than those before it
abbrev pub Ascend : ℕ → List EventRow → Type 0
Ascend n [] = Unit
Ascend n (e ∷ es) = (n < e.event_id) × Ascend e.event_id es

abbrev pub CountedBy : List EventRow → TaskRow → Type 0
CountedBy es t = t.event_count ≡ count (of_task t.task_id) es

pub record IsConsistent (db : Db) : Type 0 where
  pub ids : AreDistinct (map id_key db.tasks)
  pub keys : AreDistinct (map idempotency db.tasks)
  pub request_ids : AreDistinct (map request_key db.requests)
  pub settled : All IsSettled db.tasks
  pub counted : All (CountedBy db.events) db.tasks
  pub events_owned : All (λ e. HasTask db.tasks e.task_id) db.events
  pub requests_owned : All (HasTask db.tasks) (map owner db.requests)
  pub ascending : Ascend 0 db.events
  pub last_id : All (λ e. e.event_id ≤ db.last_event_id) db.events

pub Ascend-weaken : (m n : ℕ) (es : List EventRow) → m ≤ n → Ascend n es → Ascend m es
Ascend-weaken m n [] h a = tt
Ascend-weaken m n (e ∷ es) h a = (omega arith, a.1)

pub Ascend-delete :
    (p : EventRow → Bool) (n : ℕ) (es : List EventRow) → Ascend n es → Ascend n (delete p es)
unfolding delete
Ascend-delete p n [] a = tt
Ascend-delete p n (e ∷ es) a = elim (Bool-cases (p e)) [
  | inl hit ↦
      rw hit
        (Ascend-weaken n e.event_id (delete p es) (omega arith) (Ascend-delete p e.event_id es a.1))
  | inr miss ↦ rw miss (a.0, Ascend-delete p e.event_id es a.1)
]

pub empty-IsConsistent : IsConsistent empty
empty-IsConsistent = record {
  ids = tt;
  keys = tt;
  request_ids = tt;
  settled = tt;
  counted = tt;
  events_owned = tt;
  requests_owned = tt;
  ascending = tt;
  last_id = tt;
}

-- an UPDATE of tasks that leaves the keys and the counter of every row
pub record KeepsKeys (f : TaskRow → TaskRow) : Type 0 where
  pub same_id : (t : TaskRow) → (f t).task_id ≡ t.task_id
  pub same_key : (t : TaskRow) → (f t).idempotency_key ≡ t.idempotency_key
  pub same_count : (t : TaskRow) → (f t).event_count ≡ t.event_count

-- the requests of two tables have the same keys and owners, row by row
pub record SameRequests (rs ss : List PendingRequest) : Type 0 where
  pub same_ids : map request_key ss ≡ map request_key rs
  pub same_owners : map owner ss ≡ map owner rs

pub SameRequests-refl : (rs : List PendingRequest) → SameRequests rs rs
SameRequests-refl rs = record { same_ids = refl; same_owners = refl }

pub SameRequests-update :
    (p : PendingRequest → Bool) (f : PendingRequest → PendingRequest)
    → ((r : PendingRequest) → (f r).request_id ≡ r.request_id)
    → ((r : PendingRequest) → (f r).task_id ≡ r.task_id)
    → (rs : List PendingRequest) → SameRequests rs (update p f rs)
SameRequests-update p f same_id same_task rs = record {
  same_ids = map-update request_key p f (λ r. ap some (same_id r)) rs;
  same_owners = map-update owner p f same_task rs;
}

module _ (p : TaskRow → Bool) (f : TaskRow → TaskRow) (k : KeepsKeys f) where
  pub HasTask-update :
      (id : String) (ts : List TaskRow) → HasTask ts id → HasTask (update p f ts) id
  HasTask-update id ts h =
      rw (exists-update (of_id id) p f (λ t. ap (λ (u : String). u == id) (k.same_id t)) ts) h

  -- Updating tasks and the status of requests keeps the tables consistent, if each updated row is
  -- settled.
  pub update-IsConsistent :
      (db : Db) (rs : List PendingRequest)
      → SameRequests db.requests rs
      → All IsSettled (update p f db.tasks)
      → IsConsistent db
      → IsConsistent (record db { tasks = update p f db.tasks; requests = rs })
  update-IsConsistent db rs same settled c = record {
    ids = rw (map-update id_key p f (λ t. ap some (k.same_id t)) db.tasks) c.ids;
    keys = rw (map-update idempotency p f k.same_key db.tasks) c.keys;
    request_ids = rw same.same_ids c.request_ids;
    settled = settled;
    counted =
        All-update (CountedBy db.events) (CountedBy db.events) p f
          (λ t h _. rw (k.same_id t, k.same_count t) h) (λ t h _. h) db.tasks c.counted;
    events_owned =
        All-map (λ e. HasTask db.tasks e.task_id) (λ e. HasTask (update p f db.tasks) e.task_id)
          (λ e h. HasTask-update e.task_id db.tasks h) db.events c.events_owned;
    requests_owned = rw same.same_owners (
        All-map (HasTask db.tasks) (HasTask (update p f db.tasks))
          (λ id h. HasTask-update id db.tasks h) (map owner db.requests) c.requests_owned);
    ascending = c.ascending;
    last_id = c.last_id;
  }
