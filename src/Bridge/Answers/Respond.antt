-- ===== src/Bridge/Answers/Respond.antt =====
-- service.py: `answer_question`, and the end of a task whose request has expired. A method reads the
-- clock once. Where it waits for the adapter, other tasks run.
use server_fs_mcp.Bridge.Errors
use server_fs_mcp.Bridge.Errors.{
  Code, Result, ok, err, Action, pure, raise, ◌>>=◌, ◌>>◌, is_bridge_error,
}
use server_fs_mcp.Prelude.{
  String, Bool, true, false, Option, List, none, some, [], ◌∷◌, ◌++◌, ◌==◌, ◌||◌, not, length,
  if◌then◌else◌, ltb,
}
use server_fs_mcp.Bridge.Status.{interrupted}
use server_fs_mcp.Bridge.Store.Tables.{TaskRecord, PendingRequest, Timestamp, holds}
use server_fs_mcp.Bridge.Store.Tasks.{get_task}
use server_fs_mcp.Bridge.Store.Requests.{get_request, resolve_request, is_waiting}
use server_fs_mcp.Bridge.Recovery.{
  Report, transition_terminal, try_append_event, task_interrupted, question_answered,
  interaction_expired,
}
use server_fs_mcp.Bridge.Answers.{Answer, Resolution, answered, validate_answers}
use server_fs_mcp.Bridge.Answers.Desk.{
  Desk, AnswerHost, Responded, in_store, lift, deliver, stop_background, not_pending,
  require_identifier, result, failure,
}

module _ (host : AnswerHost) (meanwhile : Desk → Desk) where
  open host use {submission, read_payload, encode_resolution, max_interaction_bytes}
  open host.submission use {recovery, utf8_size, spool_deletes}

  unfoldable pub append : String → Report → Timestamp → Action Desk (Unit {0})
  unfolding try_append_event
  append id report now = in_store (λ db. (ok tt, try_append_event recovery id report now db))

  -- `_request_provider_cancel`, where there is an adapter
  unfoldable pub ask_provider : String → TaskRecord → Action Desk (Unit {0})
  ask_provider id task d = elim (recovery.adapters task.runtime) [
    | none ↦ (ok tt, d)
    | some adapter ↦ (ok tt, meanwhile (record d { asked = d.asked ++ id ∷ [] }))
  ]

  unfoldable pub interrupt_for_interaction_timeout :
      String → PendingRequest → Timestamp → Action Desk Bool
  unfolding get_task transition_terminal append deliver ask_provider
  interrupt_for_interaction_timeout id request now = do
    current ← in_store (get_task id)
    if not (is_waiting current.status) || not (holds current.pending_request_id request.request_id)
        then pure false
        else do
          ended ← in_store (
              transition_terminal id interrupted "AGENT_INTERACTION_TIMED_OUT"
                "agent interaction exceeded its response deadline" now)
          append id (interaction_expired request.request_id request.kind) now
          append id (task_interrupted "AGENT_INTERACTION_TIMED_OUT") now
          λ d. (ok tt, deliver request.request_id (failure Errors.interaction_timed_out) d)
          ask_provider id current
          λ d. (ok true, stop_background id d)

  -- the request and the task of an answer: the request is pending, the task waits for it, and it has
  -- not expired
  unfoldable pub open_request :
      String → String → Timestamp → Action Desk (PendingRequest × TaskRecord)
  unfolding get_request get_task interrupt_for_interaction_timeout
  open_request id request_id now = do
    require_identifier id
    require_identifier request_id
    request ← in_store (get_request request_id)
    not_pending request.status
    task ← in_store (get_task id)
    if holds task.pending_request_id request_id then pure tt else raise Errors.request_stale
    expired ←
        (if recovery.is_expired request.expires_at
          then interrupt_for_interaction_timeout id request now
          else pure false)
    if expired then raise Errors.request_stale else pure (request, task)

  -- `_ensure_interaction_size`
  abbrev pub sized : Option String → Result String
  sized none = err Errors.provider_error
  sized (some text) =
      if ltb max_interaction_bytes (utf8_size text)
      then err Errors.interaction_too_large
      else ok text

  unfoldable pub settle : String → String → Resolution → Report → Timestamp → Action Desk (Unit {0})
  unfolding resolve_request deliver append
  settle id request_id resolution report now = do
    text ← lift (sized (encode_resolution resolution))
    request ← in_store (resolve_request request_id text now)
    λ d. (ok tt, deliver request_id (result resolution) d)
    append id report now

  unfoldable pub answer_question : String → String → List Answer → Timestamp → Action Desk Responded
  unfolding open_request validate_answers settle
  answer_question id request_id answers now = do
    opened ← open_request id request_id now
    if opened.0.kind == "question" then pure tt else raise Errors.invalid_question_answer
    normalized ← lift (validate_answers (read_payload opened.0.payload) answers)
    settle id request_id (answered normalized) (question_answered (length normalized)) now
    pure
        (record { task_id = id; request_id = request_id; correlation_id = opened.1.correlation_id })
