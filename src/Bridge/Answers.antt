-- ===== src/Bridge/Answers.antt =====
-- service.py: the checks of what a client answers to a question or an approval. The payload of a
-- request is read from its JSON text: of its questions, options and permissions those that are
-- objects with a text for an id. Answers are of their declared types.
pub mod Exact
pub mod Complete
pub mod Desk
pub mod Respond
pub mod Cancel
pub mod Settled
pub mod Opened
pub mod Once
pub mod Offered
pub mod Cancelled
pub mod Stopping
pub mod Stopped
use server_fs_mcp.Bridge.Errors
use server_fs_mcp.Bridge.Errors.{Result, ok, err, bind}
use server_fs_mcp.Prelude.{
  String, Bool, Option, List, none, some, [], ◌∷◌, ◌==◌, ◌||◌, ◌&&◌, not, if◌then◌else◌, any, all,
  ltb, length, true, false, is_some,
}

pub record Question : Type 0 where
  pub question_id : String
  pub options : List String
  pub multi_select : Bool
  pub allow_free_text : Bool

pub record Answer : Type 0 where
  pub question_id : String
  pub selected_option_ids : List String
  pub text : Option String

-- `response_options` and `questions` are none where they are not lists
pub record InteractionPayload : Type 0 where
  pub response_options : Option (List String)
  pub available_decisions : List String
  pub requested_permissions : List String
  pub questions : Option (List Question)

pub data ApprovalDecision : Type 0 where
  approve_once approve_session deny cancel_task : ApprovalDecision

-- what a request is resolved with
pub data Resolution : Type 0 where
  chosen_option : String → Resolution
  cancelled_by_client : Resolution
  decided : ApprovalDecision → List String → Resolution
  answered : List Answer → Resolution

-- `x in xs`
abbrev pub has : String → List String → Bool
has x xs = any (λ y. y == x) xs

-- len(xs) != len(set(xs))
abbrev pub repeats : List String → Bool
repeats [] = false
repeats (x ∷ xs) = has x xs || repeats xs

-- by_id[id]: the last question of the id
abbrev or_this : Option Question → Question → String → Option Question
or_this (some later) q id = some later
or_this none q id = if q.question_id == id then some q else none

abbrev pub question_of : List Question → String → Option Question
question_of [] id = none
question_of (q ∷ qs) id = or_this (question_of qs id) q id

abbrev pub is_empty_text : Option String → Bool
is_empty_text none = true
is_empty_text (some t) = t == ""

abbrev pub is_none_selected : List String → Bool
is_none_selected [] = true
is_none_selected (o ∷ os) = false

unfoldable pub check_answer : Question → Answer → Result (Unit {0})
check_answer question answer =
    if repeats answer.selected_option_ids
    then err Errors.invalid_question_answer
    else if any (λ o. not (has o question.options)) answer.selected_option_ids
    then err Errors.invalid_question_answer
    else if not question.multi_select && ltb 1 (length answer.selected_option_ids)
    then err Errors.invalid_question_answer
    else if is_some answer.text && not question.allow_free_text
    then err Errors.invalid_question_answer
    else if is_none_selected answer.selected_option_ids && is_empty_text answer.text
    then err Errors.invalid_question_answer
    else ok tt

abbrev pub known_question : Option Question → String → List String → Result Question
known_question none id seen = err Errors.invalid_question_answer
known_question (some q) id seen = if has id seen then err Errors.invalid_question_answer else ok q

-- the loop over the answers, with the ids that it has seen
unfoldable pub validate_from : List Question → List String → List Answer → Result (List String)
unfolding check_answer
validate_from questions seen [] = ok seen
validate_from questions seen (a ∷ answers) =
    let rest = validate_from questions (a.question_id ∷ seen) answers in
    bind (known_question (question_of questions a.question_id) a.question_id seen)
      λ question. bind (check_answer question a) λ _. rest

-- the ids that were seen are of questions, so `set(by_id) != seen` is that one is left
unfoldable pub validate_answers : InteractionPayload → List Answer → Result (List Answer)
unfolding validate_from
validate_answers payload answers = elim payload.questions [
  | none ↦ err Errors.invalid_question_answer
  | some questions ↦ bind (validate_from questions [] answers) λ seen.
      if all (λ (q : Question). has q.question_id seen) questions
      then ok answers
      else err Errors.invalid_question_answer
]

abbrev pub decision_of : String → Option ApprovalDecision
decision_of text =
    if text == "approve_once"
    then some approve_once
    else if text == "approve_session"
    then some approve_session
    else if text == "deny"
    then some deny
    else if text == "cancel_task"
    then some cancel_task
    else none

abbrev pub decision_value : ApprovalDecision → String
decision_value approve_once = "approve_once"
decision_value approve_session = "approve_session"
decision_value deny = "deny"
decision_value cancel_task = "cancel_task"

abbrev pub or_no_permissions : Option (List String) → List String
or_no_permissions none = []
or_no_permissions (some ids) = ids

-- an approval with options of its own
abbrev pub choose_option :
    List String → Option String → Option String → Option (List String) → Result Resolution
choose_option options decision option_id (some granted) = err Errors.invalid_approval_decision
choose_option options none none none = err Errors.invalid_approval_decision
choose_option options (some d) (some o) none = err Errors.invalid_approval_decision
choose_option options none (some option_id) none =
    if has option_id options
    then ok (chosen_option option_id)
    else err Errors.permission_outside_policy
choose_option options (some decision) none none =
    if decision == "cancel_task"
    then ok cancelled_by_client
    else err Errors.invalid_approval_decision

abbrev pub is_nonempty : List String → Bool
is_nonempty [] = false
is_nonempty (x ∷ xs) = true

abbrev pub decide : InteractionPayload → List String → ApprovalDecision → Result Resolution
decide payload granted decision =
    if is_nonempty payload.available_decisions
      && not (has (decision_value decision) payload.available_decisions)
    then err Errors.invalid_approval_decision
    else if any (λ p. not (has p payload.requested_permissions)) granted
    then err Errors.permission_outside_policy
    else ok (decided decision granted)

abbrev pub decide_text :
    InteractionPayload → List String → Option ApprovalDecision → Result Resolution
decide_text payload granted none = err Errors.invalid_approval_decision
decide_text payload granted (some decision) = decide payload granted decision

abbrev pub decide_native :
    InteractionPayload → Option String → Option String → Option (List String) → Result Resolution
decide_native payload decision (some o) granted = err Errors.invalid_approval_decision
decide_native payload none none granted = err Errors.invalid_approval_decision
decide_native payload (some decision) none granted =
    decide_text payload (or_no_permissions granted) (decision_of decision)

-- the resolution of an approval, in `respond_approval`
unfoldable pub check_approval :
    InteractionPayload → Option String → Option String → Option (List String) → Result Resolution
check_approval payload decision option_id granted = elim payload.response_options [
  | some options ↦ choose_option options decision option_id granted
  | none ↦ decide_native payload decision option_id granted
]
