-- ===== src/Tests/Bridge/Answers.antt =====
-- A task that waits for a question or an approval, and its answers.
use server_fs_mcp.Prelude.{[], ◌∷◌, none, some, true, false, ◌≡◌, ◌↔◌, refl, String, List}
use server_fs_mcp.Bridge.Errors.{ok}
use server_fs_mcp.Sql.{select_all, delete, select_one, count, exists, update}
use server_fs_mcp.Bridge.Store.Tables.{empty, TaskRow, PendingRequest, pending}
use server_fs_mcp.Bridge.Status.{
  cancelled, is_terminal, waiting_for_question, waiting_for_approval, TaskStatus,
}
use server_fs_mcp.Bridge.Submission.Submit.{new_task}
use server_fs_mcp.Bridge.Store.Tasks.{new_row}
use server_fs_mcp.Bridge.Answers.{InteractionPayload, Question, Answer, validate_answers}
use server_fs_mcp.Bridge.Answers.Complete.{AreComplete, validate_answers_iff}
use server_fs_mcp.Bridge.Answers.Respond.{answer_question}
use server_fs_mcp.Bridge.Answers.Cancel.{respond_approval}
use server_fs_mcp.Bridge.Answers.Desk.{AnswerHost, Desk, Responded}
use server_fs_mcp.Bridge.Answers.Once.{AreLast, answer_question-AreLast}
use server_fs_mcp.Bridge.Answers.Stopped.{IsCancelled, cancel_task-IsCancelled}
use server_fs_mcp.Bridge.Answers.Cancel.{cancel_task_of}
use server_fs_mcp.Bridge.Answers.Offered.{IsGranted, respond_approval-IsGranted}
use server_fs_mcp.Tests.Bridge.Submission.{service, request, first_time, ready}

abbrev which : Question
which = record {
  question_id = "q";
  options = "x" ∷ "y" ∷ [];
  multi_select = false;
  allow_free_text = true;
}

abbrev payload : InteractionPayload
payload = record {
  response_options = some ("allow" ∷ []);
  available_decisions = [];
  requested_permissions = [];
  questions = some (which ∷ []);
}

abbrev desk_host : AnswerHost
desk_host = record {
  submission = service;
  read_payload = λ text. payload;
  encode_resolution = λ r. some "r";
  max_interaction_bytes = 100;
}

abbrev answers : List Answer
answers = record { question_id = "q"; selected_option_ids = "y" ∷ []; text = none } ∷ []

abbrev waiting : TaskStatus → TaskRow
waiting status =
    let row = new_row (new_task service request ready first_time) "t1" in
    record row { columns = record row.columns { status = status; pending_request_id = some "r1" } }

abbrev request_of : String → PendingRequest
request_of kind = record {
  request_id = "r1";
  task_id = "a";
  kind = kind;
  status = pending;
  payload = "{}";
  created_at = "t1";
  expires_at = none;
  resolved_at = none;
  resolution = none;
}

abbrev desk : TaskStatus → String → Desk
desk status kind = record {
  service = record {
    world = record {
      db = record empty { tasks = waiting status ∷ []; requests = request_of kind ∷ [] };
      guards = [];
    };
    leases = [];
    locked = [];
    background = "a" ∷ [];
    closed = false;
  };
  waiters = record { request_id = "r1"; done = false } ∷ [];
  delivered = [];
  user_cancelled = [];
  asked = [];
  stopping = [];
}

abbrev response : Responded
response = record { task_id = "a"; request_id = "r1"; correlation_id = none }

abbrev after : Desk
after =
    (answer_question desk_host (λ d. d) "a" "r1" answers "t2"
      (desk waiting_for_question "question")).1

abbrev after_approval : Desk
after_approval =
    (respond_approval desk_host (λ d. d) "a" "r1" none (some "allow") none "t2" "t0"
      (desk waiting_for_approval "approval")).1

answers_accepted : validate_answers payload answers ≡ ok answers
unfolding validate_answers
answers_accepted = refl

validate_answers_iff_example :
    (validate_answers payload answers ≡ ok answers) ↔ AreComplete (which ∷ []) answers
validate_answers_iff_example = validate_answers_iff payload (which ∷ []) answers refl

answer_done :
    answer_question desk_host (λ d. d) "a" "r1" answers "t2" (desk waiting_for_question "question")
    ≡ (ok response, after)
unfolding answer_question count update select_one exists new_task
answer_done = refl

answer_question-AreLast_example :
    AreLast desk_host "r1" answers (desk waiting_for_question "question") after
answer_question-AreLast_example =
    answer_question-AreLast desk_host (λ d. d) "a" "r1" answers "t2"
      (desk waiting_for_question "question") after response answer_done

approval_accepted :
    respond_approval desk_host
      (λ d. d)
      "a"
      "r1"
      none
      (some "allow")
      none
      "t2"
      "t0"
      (desk waiting_for_approval "approval")
    ≡ (ok response, after_approval)
unfolding respond_approval count update select_one exists new_task
approval_accepted = refl

respond_approval-IsGranted_example :
    IsGranted desk_host "r1" none
      (some "allow")
      none
      (desk waiting_for_approval "approval")
      after_approval
respond_approval-IsGranted_example =
    respond_approval-IsGranted desk_host (λ d. d) "a" "r1" none (some "allow") none "t2" "t0"
      (desk waiting_for_approval "approval") after_approval response approval_accepted

abbrev after_cancel : Desk
after_cancel =
    (cancel_task_of desk_host (λ d. d) "a" "t2" "t0" (desk waiting_for_question "question")).1

cancel_done :
    cancel_task_of desk_host (λ d. d) "a" "t2" "t0" (desk waiting_for_question "question")
    ≡ (ok (record { task_id = "a"; status = cancelled; correlation_id = none }), after_cancel)
unfolding cancel_task_of count update select_one exists select_all delete new_task is_terminal
cancel_done = refl

cancel_task-IsCancelled_example :
    IsCancelled desk_host (λ d. d) "a" "t0" (desk waiting_for_question "question") after_cancel
cancel_task-IsCancelled_example =
    cancel_task-IsCancelled desk_host (λ d. d) "a" "t2" "t0" (desk waiting_for_question "question")
      after_cancel (record { task_id = "a"; status = cancelled; correlation_id = none }) (λ x e. e)
      cancel_done
