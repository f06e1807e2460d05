-- ===== src/Bridge/Answers/Settled.antt =====
-- What an answer leaves of its request (service.py).
use server_fs_mcp.Bridge.Errors
use server_fs_mcp.Bridge.Errors.{Result, ok, err, ok-injective, >>=-eq-ok, Result-cases}
use server_fs_mcp.Prelude.{
  String, false, Option, List, some, ◌≡◌, ◌==◌, refl, sym, ◌∙◌, ap, Option-cases, inl, inr, ℕ,
  arith, Bool-cases, ltb, none,
}
use server_fs_mcp.Sql.{select_one}
use server_fs_mcp.Bridge.Store.Tables.{
  Db, PendingRequest, resolved, Timestamp, of_request, request_from_row,
}
use server_fs_mcp.Bridge.Store.Requests.{get_request, resolve_request}
use server_fs_mcp.Bridge.Store.Events.{append_event}
use server_fs_mcp.Bridge.Store.Answered.{resolve_request-row}
use server_fs_mcp.Bridge.Store.Consistent.Answers.{answered}
use server_fs_mcp.Bridge.Recovery.{RecoveryHost, Report, try_append_event, event_type}
use server_fs_mcp.Bridge.Answers.{Resolution}
use server_fs_mcp.Bridge.Answers.Respond.{settle, append, sized, open_request}
use server_fs_mcp.Bridge.Answers.Desk.{
  Desk, Delivery, result, AnswerHost, deliver, of_waiter, in_store, lift,
}

append_event-requests :
    (id event_type payload : String) (most : Option ℕ) (now : Timestamp) (db : Db)
    → (append_event id event_type payload most now db).1.requests ≡ db.requests
unfolding append_event
append_event-requests id event_type payload most now db = ground arith

module _ (provider : RecoveryHost) where
  pub try_append_event-requests :
      (id : String) (report : Report) (now : Timestamp) (db : Db)
      → (try_append_event provider id report now db).requests ≡ db.requests
  unfolding try_append_event
  try_append_event-requests id report now db = elim (Option-cases (provider.encode id report)) [
    | inl e ↦ rw (e, try_append_event) refl
    | inr (text, e) ↦
        rw (e, try_append_event)
          (append_event-requests id (event_type report) text (some provider.max_events_per_task) now
            db)
  ]

abbrev pub requests_of : Desk → List PendingRequest
requests_of d = d.service.world.db.requests

deliver-requests :
    (id : String) (x : Delivery) (d : Desk) → requests_of (deliver id x d) ≡ requests_of d
unfolding deliver
deliver-requests id x d = elim (Option-cases (select_one (of_waiter id) d.waiters)) [
  | inl e ↦ rw (e, deliver) refl
  | inr (w, e) ↦ rw (e, deliver) refl
]

-- the row of an answered request, with the text of its answer
pub record IsResolved (request_id text : String) (d : Desk) : Type 0 where
  pub row : PendingRequest
  pub found : select_one (of_request request_id) (requests_of d) ≡ some row
  pub closed : row.status ≡ resolved
  pub told : row.resolution ≡ some text

module _ (host : AnswerHost) (meanwhile : Desk → Desk) where
  sized-ok : (o : Option String) (text : String) → sized host meanwhile o ≡ ok text → o ≡ some text
  sized-ok none text h = cc h
  sized-ok (some t) text h =
      elim (Bool-cases (ltb host.max_interaction_bytes (host.submission.utf8_size t))) [
        | inl e ↦ cc (rw e at h)
        | inr e ↦ ap some (ok-injective t text (rw e at h))
      ]

  pub settle-IsResolved :
      (id request_id : String) (resolution : Resolution) (report : Report) (now : Timestamp)
      (d after : Desk) (u : Unit {0})
      → settle host meanwhile id request_id resolution report now d ≡ (ok u, after)
      → (text : String) × (host.encode_resolution resolution ≡ some text)
        × IsResolved request_id text after
  unfolding settle append
  settle-IsResolved id request_id resolution report now d after u h =
      let (text, d1, sized_as, h1) =
        >>=-eq-ok (lift (sized host meanwhile (host.encode_resolution resolution))) _ d after u h in
      let same : d ≡ d1 = ap (λ r. r.1) sized_as in
      let (r, d2, resolve, h2) =
        >>=-eq-ok (in_store (resolve_request request_id text now)) _ d1 after u h1 in
      let (req, before, pending, row) =
        resolve_request-row request_id text now d1.service.world.db r
          (ap (λ (m : Result PendingRequest × Desk). m.0) resolve) in
      let db2 : (resolve_request request_id text now d1.service.world.db).1 ≡ d2.service.world.db =
        ap (λ (m : Result PendingRequest × Desk). m.1.service.world.db) resolve in
      let given = deliver request_id (result resolution) d2 in
      let left : requests_of after ≡ requests_of d2 =
        ap (λ (m : Result (Unit {0}) × Desk). requests_of (m.1)) (sym h2)
        ∙ try_append_event-requests host.submission.recovery id report now given.service.world.db
        ∙ deliver-requests request_id (result resolution) d2 in
      (
        text,
        sized-ok (host.encode_resolution resolution) text
            (ap (λ (m : Result String × Desk). m.0) sized_as),
        record {
          row = answered text now req;
          found =
              ap (select_one (of_request request_id))
                (left ∙ ap (λ (db : Db). db.requests) (sym db2))
              ∙ row;
          closed = refl;
          told = refl;
        },
      )

  -- an answer to a request that is resolved
  pub resolved_refused :
      (id request_id text : String) (now : Timestamp) (d : Desk)
      → id == "" ≡ false
      → request_id == "" ≡ false
      → IsResolved request_id text d
      → open_request host meanwhile id request_id now d ≡ (err Errors.request_already_resolved, d)
  unfolding open_request get_request request_from_row
  resolved_refused id request_id text now d named also_named r =
      rw (named, also_named, r.found, r.closed, open_request, get_request) refl
