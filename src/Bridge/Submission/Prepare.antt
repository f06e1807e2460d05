-- ===== src/Bridge/Submission/Prepare.antt =====
-- `submit_task` up to its lock: the checks, the answer to a repeated submission, the policy, the
-- task that is continued, the runtime and the advice.
use server_fs_mcp.Bridge.Errors
use server_fs_mcp.Prelude.{
  Option, String, Bool, none, some, ◌==◌, not, if◌then◌else◌, ◌&&◌, ◌||◌, is_some,
}
use server_fs_mcp.Bridge.Errors.{Result, ok, err, Action, pure, raise, ◌>>=◌, ◌>>◌, bind}
use server_fs_mcp.Bridge.Advice.{PreflightResult, RoutingAdvice, routing_advice_from_preflight}
use server_fs_mcp.Bridge.Status.{is_terminal}
use server_fs_mcp.Bridge.Store.Tables.{TaskRecord}
use server_fs_mcp.Bridge.Store.Tasks.{get_task, get_task_by_idempotency_key}
use server_fs_mcp.Bridge.Recovery.{World, in_db}
use server_fs_mcp.Bridge.Recovery.Retention.{gc_retained}
use server_fs_mcp.Bridge.Policy.{
  WorkdirAgentPolicy, AgentProfile, PolicyRegistry, authorize, writes,
}
use server_fs_mcp.Bridge.Submission.{
  Submission, Submitted, Request, RuntimeInfo, Moment, SubmissionHost, ServiceState,
  check_arguments, check_request,
}

-- what `submit_task` has worked out when it takes its lock
pub record Prepared : Type 0 where
  pub request : Request
  pub requested_model : Option String
  pub policy : WorkdirAgentPolicy
  pub cwd : String
  pub continue_native_session_id : Option String
  pub runtime_info : RuntimeInfo
  pub preflight_result : Option PreflightResult
  pub routing_advice : Option RoutingAdvice

pub data Step : Type 0 where
  answered : Submitted → Step
  prepared : Prepared → Step

abbrev pub in_world : {A : Type 0} → Action World A → Action ServiceState A
in_world m st = let r = m st.world in (r.0, record st { world = r.1 })

abbrev pub lift : {A : Type 0} → Result A → Action ServiceState A
lift r st = (r, st)

abbrev pub differs : Option String → String → Bool
differs none s = Bool.true
differs (some t) s = not (t == s)

unfoldable pub idempotent_submission_result : TaskRecord → String → Result Submitted
idempotent_submission_result task fingerprint =
    if differs task.request_fingerprint fingerprint
    then err Errors.idempotency_conflict
    else ok (record {
      task_id = task.task_id;
      status = task.status;
      correlation_id = task.correlation_id;
      idempotency_key = task.idempotency_key;
      preflight = none;
      routing_advice = none;
    })

-- the task that has the idempotency key of a submission
unfoldable pub existing_task : Option String → ServiceState → Option TaskRecord
unfolding get_task_by_idempotency_key
existing_task none st = none
existing_task (some key) st = get_task_by_idempotency_key key st.world.db

-- the checks of the task that a submission continues, with its native session
unfoldable pub check_continuation : Submission → AgentProfile → TaskRecord → Result (Option String)
check_continuation s profile prior =
    if not (prior.runtime == s.runtime) || not (prior.workdir_alias == s.workdir)
    then err Errors.session_not_resumable
    else if prior.profile == "review" && writes profile
    then err Errors.profile_not_allowed
    else elim prior.native_session_id [
      | none ↦ err Errors.session_not_resumable
      | some session ↦
          if not (is_terminal prior.status)
          then err Errors.session_not_resumable
          else ok (some session)
    ]

unfoldable pub continued_session :
    Submission → AgentProfile → Option String → Action ServiceState (Option String)
unfolding get_task check_continuation
continued_session s profile none = pure none
continued_session s profile (some id) = do
  prior ← in_world (in_db (get_task id))
  lift (check_continuation s profile prior)

module _ (host : SubmissionHost) (policies : PolicyRegistry) where
  -- the adapter of the runtime, and what its `probe` says
  unfoldable pub check_runtime : String → Option String → Result RuntimeInfo
  check_runtime runtime model = elim (host.recovery.adapters runtime) [
    | none ↦ err Errors.runtime_unavailable
    | some adapter ↦ elim (host.probe runtime) [
      | none ↦ err Errors.runtime_unavailable
      | some info ↦
          if is_some model && not info.model_override
          then err Errors.model_override_unsupported
          else ok info
    ]
  ]

  abbrev or_unavailable : Option PreflightResult → PreflightResult
  or_unavailable none = record { status = some "unavailable"; model = none; recommendation = none }
  or_unavailable (some result) = result

  unfoldable pub run_preflight : Submission → Option PreflightResult
  run_preflight s = elim host.preflight [
    | none ↦ none
    | some evaluate ↦ some (or_unavailable (evaluate s))
  ]

  abbrev route : String → Option PreflightResult → Option RoutingAdvice
  route runtime none = none
  route runtime (some result) = some (routing_advice_from_preflight result runtime)

  -- a new submission, after the look for its idempotency key
  unfoldable pub prepare_new : Submission → Option String → Request → Action ServiceState Step
  unfolding authorize continued_session check_runtime run_preflight routing_advice_from_preflight
  prepare_new s model request = do
    allowed ←
        lift (authorize host.paths s.workdir s.runtime s.profile request.normalized_path policies)
    session ← continued_session s request.requested_profile s.continue_from_task_id
    info ← lift (check_runtime s.runtime model)
    pure (
        prepared (record {
          request = request;
          requested_model = model;
          policy = allowed.0;
          cwd = allowed.1;
          continue_native_session_id = session;
          runtime_info = info;
          preflight_result = run_preflight s;
          routing_advice = route s.runtime (run_preflight s);
        }))

  unfoldable pub prepare_open : Submission → Moment → Action ServiceState Step
  unfolding check_arguments gc_retained check_request existing_task idempotent_submission_result
      prepare_new
  prepare_open s moment = do
    model ← lift (check_arguments host s)
    in_world (gc_retained host.recovery.host host.spool_deletes moment.cutoff)
    request ← lift (check_request host s model)
    existing ← λ st. (ok (existing_task s.idempotency_key st), st)
    elim existing [
      | some task ↦ do
        result ← lift (idempotent_submission_result task request.fingerprint)
        pure (answered result)
      | none ↦ prepare_new s model request
    ]

  unfoldable pub prepare : Submission → Moment → Action ServiceState Step
  unfolding prepare_open
  prepare s moment st =
      if st.closed then (err Errors.bridge_closed, st) else prepare_open s moment st
