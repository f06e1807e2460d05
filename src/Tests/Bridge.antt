-- ===== src/Tests/Bridge.antt =====
-- Tasks, questions and restarts in the Bridge's store.
mod Policy
mod Guards
mod Recovery
mod Submission
mod Answers
use server_fs_mcp.Bridge.Errors
use server_fs_mcp.Prelude.{
  [], ◌∷◌, List, All, none, subst, ◌≡◌, some, false, true, ◌≤◌, refl, arith,
}
use server_fs_mcp.Sql.{select_one, count, exists, update}
use server_fs_mcp.Bridge.Store.Tasks.{
  NewTask, Overrides, count_nonterminal_tasks, new_row, create_task, transition_task, insert_task,
  moved, get_task, stale_request,
}
use server_fs_mcp.Bridge.Store.Requests.{NewRequest, request_row, resolve_request, get_request}
use server_fs_mcp.Bridge.Store.Calls.{
  Call, run, create, IsProper, perform, transition, append, ask, answer, interrupt_all,
}
use server_fs_mcp.Bridge.Status.{
  is_terminal, waiting_for_question, cancelled, queued, TaskStatus, starting, validate_transition,
  can_transition, running, interrupted, succeeded,
}
use server_fs_mcp.Bridge.Store.Consistent.{IsConsistent, empty-IsConsistent}
use server_fs_mcp.Bridge.Store.Tables.{
  TaskRow, Db, of_id, empty, PendingRequest, resolved, request_from_row,
}
use server_fs_mcp.Bridge.Store.Moves.Runs.{removes, run_keeps_finished, run_moves, MovesAlong}
use server_fs_mcp.Bridge.Store.Restart.{interrupt_nonterminal_tasks}
use server_fs_mcp.Bridge.Store.Consistent.Runs.{run-IsConsistent}
use server_fs_mcp.Bridge.Store.Interrupted.{interrupt_nonterminal_tasks-active}
use server_fs_mcp.Bridge.Status.Lifecycle.{terminal_iff_final}
use server_fs_mcp.Bridge.Store.Limits.{create_task-limit, append_event-limit}
use server_fs_mcp.Bridge.Store.Events.{append_event}
use server_fs_mcp.Bridge.Store.Answered.{resolve_request_once}

abbrev review : NewTask
review = record {
  task_id = "a";
  runtime = "fake";
  workdir_alias = "main";
  workdir_slot = 1;
  relative_cwd = ".";
  profile = "review";
  continue_from_task_id = none;
  requested_model = none;
  deadline_at = none;
  correlation_id = none;
  idempotency_key = some "k";
  request_fingerprint = none;
  manifest_json = none;
  manifest_sha256 = none;
}

abbrev pub unset : Overrides
unset = record {
  pending_request_id = none;
  native_session_id = none;
  native_turn_id = none;
  final_response = none;
  result_storage = none;
  result_size_bytes = none;
  result_sha256 = none;
  error_code = none;
  error_message = none;
}

abbrev question : NewRequest
question = record {
  task_id = "a";
  request_id = "q";
  kind = "question";
  payload = "{}";
  waiting_status = waiting_for_question;
  expires_at = none;
}

-- a task that is asked, answered and finished, with a call that fails in between
abbrev life : List Call
life =
    create review (some 1) "t0"
    ∷ create review (some 1) "t0"
    ∷ transition "a" starting unset "t1"
    ∷ transition "a" running unset "t2"
    ∷ append "a" "note" "{}" (some 2) "t3"
    ∷ ask question "t4"
    ∷ answer "q" "{}" "t5"
    ∷ transition "a" succeeded unset "t6"
    ∷ transition "a" running unset "t7"
    ∷ interrupt_all "t8"
    ∷ []

life-IsProper : All IsProper life
unfolding is_terminal
life-IsProper = (tt, (tt, (tt, (tt, (tt, (refl, (tt, (tt, (tt, (tt, tt))))))))))

run-IsConsistent_example : IsConsistent (run life empty)
run-IsConsistent_example = run-IsConsistent life empty life-IsProper empty-IsConsistent

abbrev queued_row : TaskRow
queued_row = new_row review "t0"

abbrev one_task : Db
one_task = record { tasks = queued_row ∷ []; events = []; requests = []; last_event_id = 0 }

created : run (create review (some 1) "t0" ∷ []) empty ≡ one_task
unfolding run perform create_task insert_task get_task count_nonterminal_tasks count exists
    select_one
created = refl

one_task-IsConsistent : IsConsistent one_task
one_task-IsConsistent =
    subst IsConsistent created
      (run-IsConsistent (create review (some 1) "t0" ∷ []) empty (tt, tt) empty-IsConsistent)

queued_found : select_one (of_id "a") one_task.tasks ≡ some queued_row
unfolding select_one
queued_found = refl

life_keeps : All (λ call. removes "a" call ≡ false) life
life_keeps = (refl, (refl, (refl, (refl, (refl, (refl, (refl, (refl, (refl, (refl, tt))))))))))

run_moves_example : MovesAlong "a" queued life one_task
run_moves_example =
    run_moves "a" life one_task queued_row life-IsProper life_keeps one_task-IsConsistent
      queued_found

abbrev cancelled_row : TaskRow
cancelled_row = record queued_row {
  columns = record queued_row.columns {
    status = cancelled;
    updated_at = "t1";
    completed_at = some "t1";
  };
}

abbrev finished : Db
finished = record { tasks = cancelled_row ∷ []; events = []; requests = []; last_event_id = 0 }

ended : run (transition "a" cancelled unset "t1" ∷ []) one_task ≡ finished
unfolding run perform transition_task moved validate_transition can_transition is_terminal get_task
    select_one update stale_request
ended = refl

finished-IsConsistent : IsConsistent finished
finished-IsConsistent = subst IsConsistent ended (
    run-IsConsistent (transition "a" cancelled unset "t1" ∷ []) one_task (tt, tt)
      one_task-IsConsistent)

finished_found : select_one (of_id "a") finished.tasks ≡ some cancelled_row
unfolding select_one
finished_found = refl

run_keeps_finished_example :
    (row : TaskRow) × (select_one (of_id "a") (run life finished).tasks ≡ some row)
    × (row.status ≡ cancelled)
unfolding is_terminal
run_keeps_finished_example =
    run_keeps_finished "a" life finished cancelled_row life-IsProper life_keeps
      finished-IsConsistent finished_found refl

create_task-limit_example :
    count_nonterminal_tasks (create_task review (some 1) "t0" one_task).1 ≤ 1
unfolding count_nonterminal_tasks count is_terminal
create_task-limit_example = create_task-limit review 1 "t0" one_task (omega arith)

interrupt_nonterminal_tasks-active_example :
    ((interrupt_nonterminal_tasks "t8" one_task).0 ≡ count_nonterminal_tasks one_task)
    × (count_nonterminal_tasks (interrupt_nonterminal_tasks "t8" one_task).1 ≡ 0)
interrupt_nonterminal_tasks-active_example = interrupt_nonterminal_tasks-active "t8" one_task

append_event-limit_example :
    All (λ t. t.event_count ≤ 2) (append_event "a" "note" "{}" (some 2) "t3" one_task).1.tasks
append_event-limit_example =
    append_event-limit "a" "note" "{}" 2 "t3" one_task one_task-IsConsistent (omega arith, tt)

abbrev asking : Db
asking = record {
  tasks =
      record queued_row {
        columns = record queued_row.columns {
          status = waiting_for_question;
          pending_request_id = some "q";
        };
      }
      ∷ [];
  events = [];
  requests = request_row question "t4" ∷ [];
  last_event_id = 0;
}

abbrev reply : PendingRequest
reply = record (request_row question "t4") {
  status = resolved;
  resolved_at = some "t5";
  resolution = some "yes";
}

replied : (resolve_request "q" "yes" "t5" asking).0 ≡ Errors.ok reply
unfolding resolve_request validate_transition can_transition get_request request_from_row select_one
    update count
replied = refl
