-- ===== src/Bridge/Answers/Once.antt =====
-- An answer that is accepted, and the ones after it (service.py).
use server_fs_mcp.Bridge.Errors
use server_fs_mcp.Bridge.Errors.{
  Result, ok, err, bind, >>=-eq-ok, Result-cases, bind-eq-ok, ok-injective, raise, Action, pure,
}
use server_fs_mcp.Prelude.{
  String, false, Option, List, some, ◌≡◌, ◌==◌, refl, sym, ◌∙◌, ap, Bool-cases, Option-cases, inl,
  inr, subst, all, if◌then◌else◌, length, [],
}
use server_fs_mcp.Sql.{select_one}
use server_fs_mcp.Bridge.Store.Tables.{PendingRequest, pending, Timestamp, of_request}
use server_fs_mcp.Bridge.Answers.{
  Answer, InteractionPayload, Question, answered, validate_answers, validate_from, has,
}
use server_fs_mcp.Bridge.Answers.Complete.{AreComplete, validate_answers_iff}
use server_fs_mcp.Bridge.Recovery.{question_answered}
use server_fs_mcp.Bridge.Answers.Respond.{answer_question, open_request, settle}
use server_fs_mcp.Bridge.Answers.Cancel.{respond_approval}
use server_fs_mcp.Bridge.Answers.Desk.{Desk, AnswerHost, Responded, lift}
use server_fs_mcp.Bridge.Answers.Settled.{
  IsResolved, settle-IsResolved, resolved_refused, requests_of,
}
use server_fs_mcp.Bridge.Answers.Opened.{open_request-IsOpened}

validate_answers-ok :
    (payload : InteractionPayload) (answers normalized : List Answer)
    → validate_answers payload answers ≡ ok normalized
    → (questions : List Question) × (payload.questions ≡ some questions)
      × (answers ≡ normalized)
      × AreComplete questions answers
unfolding validate_answers
validate_answers-ok payload answers normalized h = elim (Option-cases payload.questions) [
  | inl e ↦ cc (rw (e, validate_answers) at h)
  | inr (questions, e) ↦
      let (seen, v, h1) =
        bind-eq-ok (validate_from questions [] answers) _ normalized
          (rw (e, validate_answers) at h) in
      elim (Bool-cases (all (λ (q : Question). has q.question_id seen) questions)) [
        | inr missing ↦ cc (rw missing at h1)
        | inl there ↦
            let same = ok-injective answers normalized (rw there at h1) in
            (
              questions,
              e,
              same,
              (validate_answers_iff payload questions answers e).0 (h ∙ ap ok (sym same)),
            )
      ]
]

-- the answers to a question were accepted, and no others are in the state that they leave
pub record AreLast (host : AnswerHost) (request_id : String) (answers : List Answer)
    (before after : Desk) : Type 0 where
  pub row : PendingRequest
  pub asked : select_one (of_request request_id) (requests_of before) ≡ some row
  pub open_until_now : row.status ≡ pending
  pub questions : List Question
  pub listed : (host.read_payload row.payload).questions ≡ some questions
  pub complete : AreComplete questions answers
  pub text : String
  pub encoded : host.encode_resolution (answered answers) ≡ some text
  pub kept : IsResolved request_id text after
  pub no_more_answers :
      (meanwhile : Desk → Desk) (id : String) (others : List Answer) (now : Timestamp)
      → id == "" ≡ false
      → answer_question host meanwhile id request_id others now after
        ≡ (err Errors.request_already_resolved, after)
  pub no_approval :
      (meanwhile : Desk → Desk) (id : String) (decision option_id : Option String)
      (granted : Option (List String)) (now cutoff : Timestamp)
      → id == "" ≡ false
      → respond_approval host meanwhile id request_id decision option_id granted now cutoff after
        ≡ (err Errors.request_already_resolved, after)

module _ (host : AnswerHost) (meanwhile : Desk → Desk) where
  -- Answers that `answer_question` accepts are one allowed answer to each question of a request that was
  -- pending, and they are kept with it as the text that they are encoded to. In the state that this
  -- leaves, the request takes no more: any answers or approval of it, for a task that is named, are
  -- refused there as already resolved and change nothing.
  pub answer_question-AreLast :
      (id request_id : String) (answers : List Answer) (now : Timestamp) (d after : Desk)
      (response : Responded)
      → answer_question host meanwhile id request_id answers now d ≡ (ok response, after)
      → AreLast host request_id answers d after
  unfolding answer_question respond_approval
  answer_question-AreLast id request_id answers now d after response h =
      let (opened, d1, e1, h1) =
        >>=-eq-ok (open_request host meanwhile id request_id now) _ d after response h in
      let o = open_request-IsOpened host meanwhile id request_id now d d1 opened e1 in
      let (u, d2, e2, h2) =
        >>=-eq-ok
          (if opened.0.kind == "question" then pure tt else raise Errors.invalid_question_answer) _
          d1 after response h1 in
      let (normalized, d3, e3, h3) =
        >>=-eq-ok (lift (validate_answers (host.read_payload opened.0.payload) answers)) _ d2 after
          response h2 in
      let (v, d4, e4, h4) =
        >>=-eq-ok
          (settle host meanwhile id request_id (answered normalized)
            (question_answered (length normalized)) now)
          _ d3 after response h3 in
      let same : d4 ≡ after = ap (λ (m : Result Responded × Desk). m.1) h4 in
      let (text, encoded, is_resolved) =
        settle-IsResolved host meanwhile id request_id (answered normalized)
          (question_answered (length normalized)) now d3 d4 v e4 in
      let settled = subst (IsResolved request_id text) same is_resolved in
      let (questions, listed, kept, complete) =
        validate_answers-ok (host.read_payload opened.0.payload) answers normalized
          (ap (λ (m : Result (List Answer) × Desk). m.0) e3) in
      record {
        row = o.row;
        asked = o.found;
        open_until_now = ap PendingRequest.status (sym o.read) ∙ o.waiting;
        questions = questions;
        listed =
            ap (λ (r : PendingRequest). (host.read_payload r.payload).questions) (sym o.read)
            ∙ listed;
        complete = complete;
        text = text;
        encoded = ap (λ given. host.encode_resolution (answered given)) kept ∙ encoded;
        kept = settled;
        no_more_answers = λ meanwhile' id' others now' named.
            rw
              (
                resolved_refused host meanwhile' id' request_id text now' after named o.named
                    settled,
                answer_question,
              )
              refl;
        no_approval = λ meanwhile' id' decision option_id granted now' cutoff named.
            rw
              (
                resolved_refused host meanwhile' id' request_id text now' after named o.named
                    settled,
                respond_approval,
              )
              refl;
      }
