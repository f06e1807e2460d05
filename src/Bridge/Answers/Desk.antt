-- ===== src/Bridge/Answers/Desk.antt =====
-- service.py: the state that answers of clients read and write, with the futures that wait for them.
use server_fs_mcp.Bridge.Errors
use server_fs_mcp.Bridge.Errors.{
  Code, Result, ok, err, Action, pure, raise, ◌>>=◌, ◌>>◌, is_bridge_error,
}
use server_fs_mcp.Prelude.{
  String, Bool, true, false, Option, List, none, some, [], ◌∷◌, ◌++◌, ◌==◌, if◌then◌else◌, ℕ,
}
use server_fs_mcp.Sql.{select_one, delete}
use server_fs_mcp.Bridge.Status.{TaskStatus, cancelled, is_terminal}
use server_fs_mcp.Bridge.Store.Tables.{Db, RequestStatus, pending, resolved, stale, Timestamp}
use server_fs_mcp.Bridge.Store.Tasks.{get_task, transition_task, Overrides}
use server_fs_mcp.Bridge.Recovery.{in_db}
use server_fs_mcp.Bridge.Submission.{SubmissionHost, ServiceState}
use server_fs_mcp.Bridge.Submission.Prepare.{in_world}
use server_fs_mcp.Bridge.Answers.{
  InteractionPayload, Resolution, answered, cancelled_by_client, decided, chosen_option,
  ApprovalDecision, has,
}

-- what a coroutine that waits for an answer is given
pub data Delivery : Type 0 where
  result : Resolution → Delivery
  failure : Code → Delivery
  cancellation : Delivery

-- a future of `_pending_waiters`
pub record Waiter : Type 0 where
  pub request_id : String
  pub done : Bool

-- The service with `_pending_waiters`, what its futures were given, `_user_cancelled`, the tasks whose
-- providers were asked to stop, and the coroutines of `_background` that were cancelled. A coroutine
-- that is done has left `_background`.
pub record Desk : Type 0 where
  pub service : ServiceState
  pub waiters : List Waiter
  pub delivered : List (String × Delivery)
  pub user_cancelled : List String
  pub asked : List String
  pub stopping : List String

-- the JSON text of a resolution, none where it is not one
pub record AnswerHost : Type 0 where
  pub submission : SubmissionHost
  pub read_payload : String → InteractionPayload
  pub encode_resolution : Resolution → Option String
  pub max_interaction_bytes : ℕ

pub record Responded : Type 0 where
  pub task_id : String
  pub request_id : String
  pub correlation_id : Option String

pub record Cancelled : Type 0 where
  pub task_id : String
  pub status : TaskStatus
  pub correlation_id : Option String

abbrev pub in_service : {A : Type 0} → Action ServiceState A → Action Desk A
in_service m d = let r = m d.service in (r.0, record d { service = r.1 })

abbrev pub in_store : {A : Type 0} → Action Db A → Action Desk A
in_store m = in_service (in_world (in_db m))

abbrev pub lift : {A : Type 0} → Result A → Action Desk A
lift r d = (r, d)

abbrev pub of_waiter : String → Waiter → Bool
of_waiter id w = w.request_id == id

abbrev give : Bool → String → Delivery → List (String × Delivery) → List (String × Delivery)
give done id delivery ds = if done then ds else ds ++ (id, delivery) ∷ []

-- `_pending_waiters.pop`, and what its future is given unless it is done
unfoldable pub deliver : String → Delivery → Desk → Desk
deliver id delivery d = elim (select_one (of_waiter id) d.waiters) [
  | none ↦ d
  | some w ↦ record d {
    waiters = delete (of_waiter id) d.waiters;
    delivered = give w.done id delivery d.delivered;
  }
]

unfoldable pub cancel_waiter : Option String → Desk → Desk
unfolding deliver
cancel_waiter none d = d
cancel_waiter (some request_id) d = deliver request_id cancellation d

-- `background.cancel()`
abbrev pub stop_background : String → Desk → Desk
stop_background id d =
    if has id d.service.background then record d { stopping = d.stopping ++ id ∷ [] } else d

abbrev pub no_overrides : Overrides
no_overrides = record {
  pending_request_id = none;
  native_session_id = none;
  native_turn_id = none;
  final_response = none;
  result_storage = none;
  result_size_bytes = none;
  result_sha256 = none;
  error_code = none;
  error_message = none;
}

-- `_transition_terminal` without more arguments
unfoldable pub cancel_in_store : String → Timestamp → Action Db Bool
unfolding get_task transition_task
cancel_in_store id now = do
  current ← get_task id
  if is_terminal current.status
      then pure false
      else do terminal ← transition_task id cancelled no_overrides now; pure true

abbrev pub not_pending : RequestStatus → Action Desk (Unit {0})
not_pending pending = pure tt
not_pending resolved = raise Errors.request_already_resolved
not_pending stale = raise Errors.request_stale

abbrev pub require_identifier : String → Action Desk (Unit {0})
require_identifier id = if id == "" then raise Errors.invalid_request else pure tt

abbrev pub is_cancel : Resolution → Bool
is_cancel cancelled_by_client = true
is_cancel (decided ApprovalDecision.cancel_task granted) = true
is_cancel (decided d granted) = false
is_cancel (chosen_option option_id) = false
is_cancel (answered answers) = false
