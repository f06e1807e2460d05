-- ===== src/Bridge/Answers/Opened.antt =====
-- The request that an answer opens (service.py).
use server_fs_mcp.Bridge.Errors
use server_fs_mcp.Bridge.Errors.{
  Result, ok, err, bind, >>=-eq-ok, Result-cases, bind-eq-ok, ok-injective, raise, Action, pure,
}
use server_fs_mcp.Prelude.{
  String, Bool, true, false, some, ◌≡◌, ◌==◌, refl, sym, ◌∙◌, ap, Bool-cases, Option-cases, inl,
  inr, if◌then◌else◌,
}
use server_fs_mcp.Sql.{select_one}
use server_fs_mcp.Bridge.Store.Tables.{
  Db, TaskRecord, PendingRequest, RequestStatus, pending, resolved, stale, Timestamp, holds,
  of_request, request_from_row,
}
use server_fs_mcp.Bridge.Store.Tasks.{get_task}
use server_fs_mcp.Bridge.Store.Requests.{get_request}
use server_fs_mcp.Bridge.Answers.Respond.{open_request, interrupt_for_interaction_timeout}
use server_fs_mcp.Bridge.Answers.Desk.{Desk, AnswerHost, require_identifier, in_store, not_pending}
use server_fs_mcp.Bridge.Answers.Settled.{requests_of}

pub require_identifier-ok :
    (id : String) (d after : Desk) (u : Unit {0})
    → require_identifier id d ≡ (ok u, after)
    → (id == "" ≡ false) × (d ≡ after)
require_identifier-ok id d after u h = elim (Bool-cases (id == "")) [
  | inl e ↦ cc (rw e at h)
  | inr e ↦ (e, ap (λ (m : Result (Unit {0}) × Desk). m.1) (rw e at h))
]

get_request-row :
    (id : String) (db : Db) (r : PendingRequest)
    → (get_request id db).0 ≡ ok r
    → (row : PendingRequest) × (select_one (of_request id) db.requests ≡ some row)
      × (r ≡ request_from_row row)
unfolding get_request
get_request-row id db r h = elim (Option-cases (select_one (of_request id) db.requests)) [
  | inl e ↦ cc (rw (e, get_request) at h)
  | inr (row, e) ↦ (row, e, ok-injective r (request_from_row row) (sym (rw (e, get_request) at h)))
]

pending_only :
    (s : RequestStatus) (d after : Desk) (u : Unit {0})
    → not_pending s d ≡ (ok u, after)
    → s ≡ pending
pending_only pending d after u h = refl
pending_only resolved d after u h = cc h
pending_only stale d after u h = cc h

not_expired :
    (expired : Bool) (request : PendingRequest) (task : TaskRecord)
    (opened : PendingRequest × TaskRecord) (d after : Desk)
    → (if expired then raise Errors.request_stale else pure (request, task)) d ≡ (ok opened, after)
    → opened.0 ≡ request
not_expired true request task opened d after h = cc h
not_expired false request task opened d after h =
    ap (λ (p : PendingRequest × TaskRecord). p.0)
      (ok-injective opened (request, task)
        (ap (λ (m : Result (PendingRequest × TaskRecord) × Desk). m.0) (sym h)))

abbrev waits : String → TaskRecord → Action Desk (Unit {0})
waits request_id task =
    if holds task.pending_request_id request_id then pure tt else raise Errors.request_stale

module _ (host : AnswerHost) (meanwhile : Desk → Desk) where
  abbrev expiry : String → PendingRequest → Timestamp → Action Desk Bool
  expiry id request now =
      if host.submission.recovery.is_expired request.expires_at
      then interrupt_for_interaction_timeout host meanwhile id request now
      else pure false

  -- a request that is opened is named, and stands in the tables
  pub record IsOpened (request_id : String) (d : Desk) (request : PendingRequest) : Type 0 where
    pub named : request_id == "" ≡ false
    pub row : PendingRequest
    pub found : select_one (of_request request_id) (requests_of d) ≡ some row
    pub read : request ≡ request_from_row row
    pub waiting : request.status ≡ pending

  pub open_request-IsOpened :
      (id request_id : String) (now : Timestamp) (d after : Desk)
      (opened : PendingRequest × TaskRecord)
      → open_request host meanwhile id request_id now d ≡ (ok opened, after)
      → IsOpened request_id d (opened.0)
  unfolding open_request
  open_request-IsOpened id request_id now d after opened h =
      let (u, d1, e1, h1) = >>=-eq-ok (require_identifier id) _ d after opened h in
      let (first, same1) = require_identifier-ok id d d1 u e1 in
      let (v, d2, e2, h2) = >>=-eq-ok (require_identifier request_id) _ d1 after opened h1 in
      let (second, same2) = require_identifier-ok request_id d1 d2 v e2 in
      let (request, d3, e3, h3) =
        >>=-eq-ok (in_store (get_request request_id)) _ d2 after opened h2 in
      let (w, d4, e4, h4) = >>=-eq-ok (not_pending request.status) _ d3 after opened h3 in
      let (task, d5, e5, h5) = >>=-eq-ok (in_store (get_task id)) _ d4 after opened h4 in
      let (x, d6, e6, h6) = >>=-eq-ok (waits request_id task) _ d5 after opened h5 in
      let (expired, d7, e7, h7) = >>=-eq-ok (expiry id request now) _ d6 after opened h6 in
      let (row, found, read) =
        get_request-row request_id d2.service.world.db request
          (ap (λ (m : Result PendingRequest × Desk). m.0) e3) in
      let this : opened.0 ≡ request = not_expired expired request task opened d7 after h7 in
      record {
        named = second;
        row = row;
        found =
            ap (λ e. select_one (of_request request_id) (requests_of e)) (same1 ∙ same2) ∙ found;
        read = this ∙ read;
        waiting = ap PendingRequest.status this ∙ pending_only request.status d3 d4 w e4;
      }
