-- ===== src/Bridge/Store/Answered.antt =====
-- A request is answered once.
use server_fs_mcp.Bridge.Errors
use server_fs_mcp.Bridge.Errors.{Code, Result}
use server_fs_mcp.Bridge.Store.Requests.{resolve_request, is_open, waits_for}
use server_fs_mcp.Prelude.{
  String, ◌≡◌, ◌⊎◌, inl, ap, some, inr, true, false, Option-cases, Bool-cases, refl, nat_eq,
}
use server_fs_mcp.Bridge.Status.{validate_transition, can_transition, running}
use server_fs_mcp.Bridge.Store.Tables.{
  Timestamp, Db, PendingRequest, of_request, is_pending, of_id, holds,
}
use server_fs_mcp.Sql.{select_one, update, count}
use server_fs_mcp.Bridge.Store.Consistent.Answers.{answered}
use server_fs_mcp.Sql.Rows.{select_one-update, select_one-holds}
use server_fs_mcp.Bridge.Store.Consistent.Requests.{state-get_request}

-- `resolve_request` raises and changes nothing, or answers an open request.
resolve_request-cases :
    (id resolution : String) (now : Timestamp) (db : Db)
    → ((c : Code) × (resolve_request id resolution now db ≡ (Errors.err c, db)))
      ⊎ ((req : PendingRequest) × (select_one (of_request id) db.requests ≡ some req)
          × (is_pending req.status ≡ true)
          × ((resolve_request id resolution now db).1.requests
              ≡ update (is_open id) (answered resolution now) db.requests))
unfolding resolve_request validate_transition
resolve_request-cases id resolution now db =
    elim (Option-cases (select_one (of_request id) db.requests)) [
      | inl e ↦ inl (Errors.request_not_found, simp e)
      | inr (req, e) ↦ elim (Bool-cases (is_pending req.status)) [
        | inr closed ↦ inl (Errors.request_already_resolved, simp (e, closed))
        | inl opened ↦ elim (Option-cases (select_one (of_id req.task_id) db.tasks)) [
          | inl gone ↦ inl (Errors.task_not_found, simp (e, opened, gone))
          | inr (row, found) ↦ elim (Bool-cases (holds row.pending_request_id id)) [
            | inr other ↦ inl (Errors.request_stale, simp (e, opened, found, other))
            | inl this ↦ elim (Bool-cases (can_transition row.status running)) [
              | inr f ↦ inl (Errors.invalid_transition, simp (e, opened, found, this, f))
              | inl t ↦ elim (Bool-cases (nat_eq (count (is_open id) db.requests) 1)) [
                | inr none_open ↦
                    inl
                      (Errors.request_already_resolved, simp (e, opened, found, this, t, none_open))
                | inl one ↦
                    elim (Bool-cases (nat_eq (count (waits_for req.task_id id) db.tasks) 1)) [
                      | inr none_waits ↦
                          inl (
                            Errors.request_stale,
                            simp (e, opened, found, this, t, one, none_waits),
                          )
                      | inl waits ↦ inr (
                        req,
                        e,
                        opened,
                        simp (e, opened, found, this, t, one, waits, state-get_request),
                      )
                    ]
              ]
            ]
          ]
        ]
      ]
    ]

closed_request :
    (id resolution : String) (now : Timestamp) (db : Db) (req : PendingRequest)
    → select_one (of_request id) db.requests ≡ some req
    → is_pending req.status ≡ false
    → resolve_request id resolution now db ≡ (Errors.err Errors.request_already_resolved, db)
unfolding resolve_request validate_transition
closed_request id resolution now db req e closed = simp (e, closed)

-- A request that was answered is refused as already resolved from then on, whatever the second
-- answer, and the second attempt changes nothing.
pub resolve_request_once :
    (id resolution resolution' : String) (now now' : Timestamp) (db : Db) {r : PendingRequest}
    → (resolve_request id resolution now db).0 ≡ Errors.ok r
    → let after = (resolve_request id resolution now db).1 in
      resolve_request id resolution' now' after
      ≡ (Errors.err Errors.request_already_resolved, after)
resolve_request_once id resolution resolution' now now' db {r} h =
    elim (resolve_request-cases id resolution now db) [
      | inl (c, e) ↦ cc (ap (λ (m : Result PendingRequest × Db). m.0) e, h)
      | inr (req, e, opened, changed) ↦
          closed_request id resolution' now' (resolve_request id resolution now db).1
            (answered resolution now req)
            (rw
              (
                changed,
                select_one-update (of_request id) (is_open id) (answered resolution now) (λ x. refl)
                    db.requests req e,
              )
              (rw (select_one-holds (of_request id) db.requests req e, opened) refl))
            refl
    ]

-- the row of a request that was answered
pub resolve_request-row :
    (id resolution : String) (now : Timestamp) (db : Db) (r : PendingRequest)
    → (resolve_request id resolution now db).0 ≡ Errors.ok r
    → (req : PendingRequest) × (select_one (of_request id) db.requests ≡ some req)
      × (is_pending req.status ≡ true)
      × (select_one (of_request id) (resolve_request id resolution now db).1.requests
          ≡ some (answered resolution now req))
resolve_request-row id resolution now db r h = elim (resolve_request-cases id resolution now db) [
  | inl (c, e) ↦ cc (ap (λ (m : Result PendingRequest × Db). m.0) e, h)
  | inr (req, e, opened, changed) ↦ (
    req,
    e,
    opened,
    rw
        (
          changed,
          select_one-update (of_request id) (is_open id) (answered resolution now) (λ x. refl)
              db.requests req e,
        )
        (rw (select_one-holds (of_request id) db.requests req e, opened) refl),
  )
]
