-- ===== src/Tests/Bridge/Submission.antt =====
-- A writer's task that is submitted, sent again, and refused.
use server_fs_mcp.Prelude.{any, [], none, some, true, false, ◌≡◌, refl, ap}
use server_fs_mcp.Bridge.Errors
use server_fs_mcp.Bridge.Errors.{ok, err}
use server_fs_mcp.Sql.{select_one, delete, count, exists, select_all, update}
use server_fs_mcp.Bridge.Store.Tables.{empty, TaskRow, of_id}
use server_fs_mcp.Bridge.Store.Consistent.{IsConsistent, empty-IsConsistent}
use server_fs_mcp.Bridge.Status.{queued, is_terminal, can_transition, starting, validate_transition}
use server_fs_mcp.Bridge.Submission.{
  SubmissionHost, ServiceState, Submission, Submitted, Moment, granted,
}
use server_fs_mcp.Bridge.Submission.Prepare.{existing_task, prepare, Prepared}
use server_fs_mcp.Bridge.Submission.Submit.{submit_task, admit_task, new_task, of_task_id}
use server_fs_mcp.Bridge.Submission.Taken.{met}
use server_fs_mcp.Bridge.Submission.Lease.{way_for}
use server_fs_mcp.Bridge.Store.Calls.{perform, transition}
use server_fs_mcp.Bridge.Store.Consistent.Runs.{perform-IsConsistent}
use server_fs_mcp.Bridge.Store.Tasks.{transition_task, moved, get_task, stale_request}
use server_fs_mcp.Tests.Bridge.{unset}
use server_fs_mcp.Bridge.Submission.Repeated.{swept, answer}
use server_fs_mcp.Bridge.Submission.Again.{submit_again}
use server_fs_mcp.Bridge.Submission.Outcome.{admit_task_fails, IsRefused}
use server_fs_mcp.Tests.Bridge.Policy.{two, host, main_dir}
use server_fs_mcp.Bridge.Policy.{workspace_write}
use server_fs_mcp.Bridge.Store.Tasks.{new_row, create_task}
use server_fs_mcp.Bridge.Recovery.Retention.{gc_retained}
use server_fs_mcp.Bridge.Store.Consistent.Tasks.{create_task-IsConsistent}
use server_fs_mcp.Tests.Bridge.Recovery.{quiet}

abbrev pub service : SubmissionHost
service = record {
  recovery = quiet;
  paths = host;
  as_posix = λ parts. "";
  strip = λ s. s;
  utf8_size = λ s. 1;
  encode_payload = λ p. "{}";
  probe = λ runtime. some (record { model_override = true });
  preflight = none;
  build_manifest = λ s policy path info deadline. ("{}", "0");
  spool_deletes = λ id. true;
  max_prompt_bytes = 100;
  max_active_tasks = 4;
  lock = λ lease. granted;
  guard_written = true;
  schedules = true;
  db_meanwhile = λ db. db;
  guards_meanwhile = λ dir. dir;
  others_meanwhile = λ st. st;
}

abbrev idle : ServiceState
idle = record {
  world = record { db = empty; guards = [] };
  leases = [];
  locked = [];
  background = [];
  closed = false;
}

abbrev pub request : Submission
request = record {
  runtime = "codex";
  workdir = "main";
  path = "";
  profile = "workspace-write";
  prompt = "p";
  model = none;
  continue_from_task_id = none;
  correlation_id = none;
  idempotency_key = some "k";
}

abbrev pub first_time : Moment
first_time = record { cutoff = "t0"; now = "t1"; deadline_at = "t9"; task_id = "a" }

abbrev second_time : Moment
second_time = record { cutoff = "t2"; now = "t3"; deadline_at = "t9"; task_id = "b" }

abbrev accepted : Submitted
accepted = record {
  task_id = "a";
  status = queued;
  correlation_id = none;
  idempotency_key = some "k";
  preflight = none;
  routing_advice = none;
}

abbrev running : ServiceState
running = (submit_task service two request first_time (λ st. st) idle).1

submitted : (submit_task service two request first_time (λ st. st) idle).0 ≡ ok accepted
unfolding submit_task prepare select_all count
submitted = refl

abbrev pub ready : Prepared
ready = record {
  request = record {
    requested_profile = workspace_write;
    normalized_path = "";
    fingerprint = "0000000000000000000000000000000000000000000000000000000000000000";
  };
  requested_model = none;
  policy = main_dir;
  cwd = "/srv/main";
  continue_native_session_id = none;
  runtime_info = record { model_override = true };
  preflight_result = none;
  routing_advice = none;
}

abbrev row : TaskRow
row = new_row (new_task service request ready first_time) "t1"

first_found : select_one (of_id "a") running.world.db.tasks ≡ some row
unfolding submit_task prepare select_all count select_one new_task exists
first_found = refl

running-IsConsistent : IsConsistent running.world.db
unfolding submit_task prepare select_all count create_task exists new_task
running-IsConsistent =
    create_task-IsConsistent (new_task service request ready first_time) (some 4) "t1" empty
      empty-IsConsistent

-- the task starts
abbrev later : ServiceState
later = record running {
  world = record running.world {
    db = perform (transition "a" starting unset "t2") running.world.db;
  };
}

abbrev later_row : TaskRow
later_row = record row {
  columns = record row.columns { status = starting; started_at = some "t2"; updated_at = "t2" };
}

later-IsConsistent : IsConsistent later.world.db
later-IsConsistent =
    perform-IsConsistent (transition "a" starting unset "t2") running.world.db tt
      running-IsConsistent

later_found : select_one (of_id "a") later.world.db.tasks ≡ some later_row
unfolding submit_task prepare select_all count select_one new_task exists perform transition_task
    moved validate_transition can_transition is_terminal get_task stale_request update
later_found = refl

swept_later : (gc_retained quiet.host service.spool_deletes "t2" later.world).0 ≡ ok 0
unfolding submit_task prepare select_all count gc_retained exists is_terminal perform
    transition_task moved validate_transition can_transition get_task stale_request update new_task
swept_later = refl

later_open : later.closed ≡ false
unfolding submit_task prepare select_all count exists
later_open = refl

submit_again_example :
    (submit_task service two request second_time (λ st. idle) later
      ≡ (ok (answer later_row), swept service two second_time later))
    × (later_row.task_id ≡ "a")
unfolding is_terminal
submit_again_example =
    submit_again service two request first_time second_time (λ st. st) (λ st. idle) idle running
      later accepted row later_row "k" 0 refl refl (ap (λ r. (r, running)) submitted)
      running-IsConsistent first_found refl later-IsConsistent later_open later_found refl refl refl
      swept_later

-- the event loop refuses the coroutine
abbrev unscheduled : SubmissionHost
unscheduled = record service { schedules = false }

abbrev left : ServiceState
left = (admit_task unscheduled request first_time ready idle).1

refused : (admit_task unscheduled request first_time ready idle).0 ≡ err Errors.not_a_bridge_error
unfolding admit_task select_all count exists update is_terminal
refused = refl

left_guards : left.world.guards ≡ []
unfolding admit_task select_all count exists update delete is_terminal
left_guards = refl

no_task : existing_task request.idempotency_key idle ≡ none
unfolding existing_task select_one
no_task = refl

no_lease :
    any (of_task_id "a") (met unscheduled workspace_write main_dir first_time idle).leases ≡ false
unfolding way_for
no_lease = refl

admit_task_fails_example :
    IsRefused unscheduled first_time (met unscheduled workspace_write main_dir first_time idle) left
admit_task_fails_example =
    admit_task_fails unscheduled request first_time ready idle left Errors.not_a_bridge_error refl
      no_lease no_task (ap (λ r. (r, left)) refused)
