-- ===== src/Bridge/Store/Consistent/Answers.antt =====
-- The methods that answer, abandon or stale a pending request keep the tables consistent.
use server_fs_mcp.Prelude.{
  String, ◌≡◌, some, ◌⊎◌, true, none, Option-cases, inl, inr, Bool-cases, nat_eq, arith, List, refl,
}
use server_fs_mcp.Bridge.Store.Requests.{
  resolve_request, is_open, waits_for, set_waiting, abandon_pending_request, stale_task_request,
  unwait, is_waiting,
}
use server_fs_mcp.Bridge.Store.Tables.{
  Timestamp, PendingRequest, Db, resolved, TaskRow, of_request, is_pending, of_id, holds,
}
use server_fs_mcp.Bridge.Status.{validate_transition, can_transition, running, is_terminal}
use server_fs_mcp.Sql.{select_one, update, count}
use server_fs_mcp.Bridge.Store.Consistent.{
  IsConsistent, IsSettled, count, List, SameRequests-update, SameRequests, update-IsConsistent,
  KeepsKeys, All-update,
}
use server_fs_mcp.Bridge.Store.Tasks.{stale_request}
use server_fs_mcp.Bridge.Store.Consistent.Tasks.{SameRequests-stale_request, IsSettled-by_id}
use server_fs_mcp.Bridge.Store.Consistent.Requests.{
  state-get_request, set_waiting-KeepsKeys, set_waiting-IsSettled,
}
use server_fs_mcp.Sql.Rows.{All-update}

abbrev pub answered : String → Timestamp → PendingRequest → PendingRequest
answered resolution now r = record r {
  status = resolved;
  resolved_at = some now;
  resolution = some resolution;
}

-- `resolve_request` does nothing, or answers the open request that its task waits for.
pub resolve_request-effect :
    (id resolution : String) (now : Timestamp) (db : Db)
    → let after = (resolve_request id resolution now db).1 in
      (after ≡ db)
      ⊎ ((req : PendingRequest) × (row : TaskRow) × (select_one (of_request id) db.requests
            ≡ some req)
          × (is_pending req.status ≡ true)
          × (select_one (of_id req.task_id) db.tasks ≡ some row)
          × (holds row.pending_request_id id ≡ true)
          × (can_transition row.status running ≡ true)
          × (after ≡ record db {
            requests = update (is_open id) (answered resolution now) db.requests;
            tasks = update (waits_for req.task_id id) (set_waiting running none now) db.tasks;
          }))
unfolding resolve_request validate_transition
resolve_request-effect id resolution now db =
    elim (Option-cases (select_one (of_request id) db.requests)) [
      | inl e ↦ inl (simp e)
      | inr (req, e) ↦ elim (Bool-cases (is_pending req.status)) [
        | inr closed ↦ inl (simp (e, closed))
        | inl opened ↦ elim (Option-cases (select_one (of_id req.task_id) db.tasks)) [
          | inl gone ↦ inl (simp (e, opened, gone))
          | inr (row, found) ↦ elim (Bool-cases (holds row.pending_request_id id)) [
            | inr other ↦ inl (simp (e, opened, found, other))
            | inl this ↦ elim (Bool-cases (can_transition row.status running)) [
              | inr f ↦ inl (simp (e, opened, found, this, f))
              | inl t ↦ elim (Bool-cases (nat_eq (count (is_open id) db.requests) 1)) [
                | inr none_open ↦ inl (simp (e, opened, found, this, t, none_open))
                | inl one ↦
                    elim (Bool-cases (nat_eq (count (waits_for req.task_id id) db.tasks) 1)) [
                      | inr none_waits ↦ inl (simp (e, opened, found, this, t, one, none_waits))
                      | inl waits ↦ inr (
                        req,
                        row,
                        e,
                        opened,
                        found,
                        this,
                        t,
                        simp (e, opened, found, this, t, one, waits, state-get_request),
                      )
                    ]
              ]
            ]
          ]
        ]
      ]
    ]

pub waits_for-of_id :
    (id request : String) (t : TaskRow) → waits_for id request t ≡ true → of_id id t ≡ true
waits_for-of_id id request t h = ground arith

-- the task that waits for a request is set free, and requests change their status
pub resumed-IsConsistent :
    (id request : String) (now : Timestamp) (db : Db) (row : TaskRow) (rs : List PendingRequest)
    → select_one (of_id id) db.tasks ≡ some row
    → can_transition row.status running ≡ true
    → SameRequests db.requests rs
    → IsConsistent db
    → IsConsistent (record db {
      tasks = update (waits_for id request) (set_waiting running none now) db.tasks;
      requests = rs;
    })
unfolding is_terminal
resumed-IsConsistent id request now db row rs found ok same c =
    update-IsConsistent (waits_for id request) (set_waiting running none now)
      (set_waiting-KeepsKeys running none now) db rs same
      (IsSettled-by_id id (waits_for id request) (set_waiting running none now) db.tasks row
        (waits_for-of_id id request) c.ids found
        (set_waiting-IsSettled running none now row refl ok) c.settled)
      c

-- Answering, whatever the outcome, keeps the tables consistent.
pub resolve_request-IsConsistent :
    (id resolution : String) (now : Timestamp) (db : Db)
    → IsConsistent db
    → IsConsistent (resolve_request id resolution now db).1
resolve_request-IsConsistent id resolution now db c =
    elim (resolve_request-effect id resolution now db) [
      | inl e ↦ rw e c
      | inr (req, row, _, _, found, _, ok, e) ↦ rw e (
          resumed-IsConsistent req.task_id id now db row _ found ok
            (SameRequests-update (is_open id) (answered resolution now) (λ r. refl) (λ r. refl)
              db.requests)
            c)
    ]

-- `abandon_pending_request` does nothing, or resumes a task that waits and stales its request.
pub abandon_pending_request-effect :
    (id : String) (now : Timestamp) (db : Db)
    → let after = (abandon_pending_request id now db).1 in
      (after ≡ db)
      ⊎ ((row : TaskRow) × (request : String) × (select_one (of_id id) db.tasks ≡ some row)
          × (row.pending_request_id ≡ some request)
          × (can_transition row.status running ≡ true)
          × (after ≡ record db {
            tasks = update (waits_for id request) (set_waiting running none now) db.tasks;
            requests = stale_request (some request) now db.requests;
          }))
unfolding abandon_pending_request can_transition
abandon_pending_request-effect id now db = elim (Option-cases (select_one (of_id id) db.tasks)) [
  | inl e ↦ inl (simp e)
  | inr (row, e) ↦ elim (Option-cases row.pending_request_id) [
    | inl free ↦ inl (simp (e, free))
    | inr (request, w) ↦ elim (Bool-cases (is_waiting row.status)) [
      | inr f ↦ inl (simp (e, w, f))
      | inl t ↦ inr (row, request, e, w, ground arith, simp (e, w, t))
    ]
  ]
]

-- Abandoning, whatever the outcome, keeps the tables consistent.
pub abandon_pending_request-IsConsistent :
    (id : String) (now : Timestamp) (db : Db)
    → IsConsistent db
    → IsConsistent (abandon_pending_request id now db).1
abandon_pending_request-IsConsistent id now db c = elim (abandon_pending_request-effect id now db) [
  | inl e ↦ rw e c
  | inr (row, request, found, _, ok, e) ↦ rw e (
      resumed-IsConsistent id request now db row _ found ok
        (SameRequests-stale_request (some request) now db.requests) c)
]

pub unwait-KeepsKeys : (now : Timestamp) → KeepsKeys (unwait now)
unwait-KeepsKeys now = record { same_id = λ t. refl; same_key = λ t. refl; same_count = λ t. refl }

unwait-IsSettled : (now : Timestamp) (t : TaskRow) → IsSettled t → IsSettled (unwait now t)
unwait-IsSettled now t s = record { done = λ h. (refl, (s.done h).1); live = s.live }

-- `stale_task_request` does nothing, or stales the request that a task waits for.
pub stale_task_request-effect :
    (id : String) (now : Timestamp) (db : Db)
    → let after = (stale_task_request id now db).1 in
      (after ≡ db)
      ⊎ ((row : TaskRow) × (request : String) × (select_one (of_id id) db.tasks ≡ some row)
          × (row.pending_request_id ≡ some request)
          × (after ≡ record db {
            tasks = update (waits_for id request) (unwait now) db.tasks;
            requests = stale_request (some request) now db.requests;
          }))
unfolding stale_task_request
stale_task_request-effect id now db = elim (Option-cases (select_one (of_id id) db.tasks)) [
  | inl e ↦ inl (simp e)
  | inr (row, e) ↦ elim (Option-cases row.pending_request_id) [
    | inl free ↦ inl (simp (e, free))
    | inr (request, w) ↦ inr (row, request, e, w, simp (e, w))
  ]
]

-- Staling, whatever the outcome, keeps the tables consistent.
pub stale_task_request-IsConsistent :
    (id : String) (now : Timestamp) (db : Db)
    → IsConsistent db
    → IsConsistent (stale_task_request id now db).1
stale_task_request-IsConsistent id now db c = elim (stale_task_request-effect id now db) [
  | inl e ↦ rw e c
  | inr (row, request, _, _, e) ↦ rw e (
      update-IsConsistent (waits_for id request) (unwait now) (unwait-KeepsKeys now) db _
        (SameRequests-stale_request (some request) now db.requests)
        (All-update IsSettled IsSettled (waits_for id request) (unwait now)
          (λ t s _. unwait-IsSettled now t s) (λ t s _. s) db.tasks c.settled)
        c)
]
