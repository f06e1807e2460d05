-- ===== src/Bridge/Submission/Again.antt =====
-- A submission that is sent again.
use mathlib.Core.Option.{some-injective}
use server_fs_mcp.Prelude.{
  Option, String, ℕ, none, some, ◌≡◌, refl, inl, inr, Bool-cases, Option-cases, ◌∙◌, ap, sym, false,
  true, arith, subst, eq_iff,
}
use server_fs_mcp.Bridge.Errors.{Result, ok, Result-cases, ok-injective}
use server_fs_mcp.Sql.{select_one}
use server_fs_mcp.Sql.Rows.{select_one-holds}
use server_fs_mcp.Bridge.Status.{is_terminal}
use server_fs_mcp.Bridge.Store.Tables.{TaskRow, TaskRecord, of_id, holds, task_from_row}
use server_fs_mcp.Bridge.Store.Tasks.{of_key, get_task_by_idempotency_key}
use server_fs_mcp.Bridge.Store.Consistent.{IsConsistent, id_key}
use server_fs_mcp.Bridge.Recovery.Retention.{gc_retained}
use server_fs_mcp.Bridge.Policy.{PolicyRegistry}
use server_fs_mcp.Bridge.Submission.{
  SubmissionHost, ServiceState, Submission, Submitted, Moment, Request, check_arguments,
  check_request,
}
use server_fs_mcp.Bridge.Submission.Prepare.{
  Prepared, existing_task, idempotent_submission_result, differs, prepare, prepare_open,
}
use server_fs_mcp.Bridge.Submission.Submit.{submit_task, admit_task, new_task}
use server_fs_mcp.Bridge.Submission.Admitted.{added_row}
use server_fs_mcp.Bridge.Submission.Repeated.{
  swept, Stands, answer, found_by_key, prepare_open-answers,
}
use server_fs_mcp.Bridge.Submission.Taken.{met}
use server_fs_mcp.Bridge.Submission.Checked.{prepare-IsChecked}
use server_fs_mcp.Bridge.Submission.Outcome.{IsSubmitted, admit_holds}

holds-some : (o : Option String) (k : String) → holds o k ≡ true → o ≡ some k
holds-some none k h = cc
holds-some (some u) k h = ap some ((eq_iff u k).0 h)

differs-some : (o : Option String) (k : String) → differs o k ≡ false → o ≡ some k
differs-some none k h = cc
differs-some (some u) k h = ap some ((eq_iff u k).0 (ground arith))

pub result-parts :
    (task : TaskRecord) (fingerprint : String) (r : Submitted)
    → idempotent_submission_result task fingerprint ≡ ok r
    → (task.request_fingerprint ≡ some fingerprint) × (r.task_id ≡ task.task_id)
unfolding idempotent_submission_result
result-parts task fingerprint r h =
    elim (Bool-cases (differs task.request_fingerprint fingerprint)) [
      | inl d ↦ cc (rw d at h)
      | inr d ↦ (
        differs-some task.request_fingerprint fingerprint d,
        ap (λ (a : Submitted). a.task_id) (sym (ok-injective _ r (rw d at h))),
      )
    ]

-- what a repeated submission that is answered says of the task that it names
answered-Stands :
    (key fingerprint : String) (st : ServiceState) (task : TaskRecord) (r : Submitted)
    (row : TaskRow)
    → IsConsistent st.world.db
    → existing_task (some key) st ≡ some task
    → idempotent_submission_result task fingerprint ≡ ok r
    → select_one (of_id r.task_id) st.world.db.tasks ≡ some row
    → is_terminal row.status ≡ false
    → Stands key fingerprint row st.world.db
unfolding existing_task get_task_by_idempotency_key idempotent_submission_result task_from_row
answered-Stands key fingerprint st task r row c existing result found active =
    elim (Option-cases (select_one (of_key key) st.world.db.tasks)) [
      | inl e ↦ cc (rw (e, get_task_by_idempotency_key) at existing)
      | inr (first, e) ↦
          let same : task_from_row first ≡ task =
            some-injective (task_from_row first) task
              (rw (e, get_task_by_idempotency_key) at existing) in
          let (printed, id) = result-parts task fingerprint r result in
          let named : r.task_id ≡ first.task_id =
            id ∙ ap (λ (k : TaskRecord). k.task_id) (sym same) in
          let by_id : select_one (of_id first.task_id) st.world.db.tasks ≡ some first =
            found_by_key id_key (of_key key) first.task_id st.world.db.tasks first c.ids e refl in
          let one : row ≡ first =
            some-injective row first
              (sym found ∙ ap (λ k. select_one (of_id k) st.world.db.tasks) named ∙ by_id) in
          rw one (record {
            found = by_id;
            active = ap (λ (k : TaskRow). is_terminal k.status) (sym one) ∙ active;
            keyed =
                holds-some first.idempotency_key key
                  (select_one-holds (of_key key) st.world.db.tasks first e);
            printed = ap (λ (k : TaskRecord). k.request_fingerprint) same ∙ printed;
          })
    ]

module _ (host : SubmissionHost) (policies : PolicyRegistry) where
  open host.recovery use {unlinks}

  -- a task that a submission has just stored stands for the same submission
  submitted-Stands :
      (s : Submission) (p : Prepared) (moment : Moment) (before after : ServiceState)
      (row : TaskRow) (key : String)
      → s.idempotency_key ≡ some key
      → IsSubmitted host s p moment before after
      → select_one (of_id moment.task_id) after.world.db.tasks ≡ some row
      → is_terminal row.status ≡ false
      → Stands key p.request.fingerprint row after.world.db
  unfolding new_task
  submitted-Stands s p moment before after row key k d found active =
      let (kept, there, columns, _) = d.task in
      let one : row ≡ kept = some-injective row kept (sym found ∙ there) in
      let same : row.columns ≡ (added_row host s p moment).columns =
        ap (λ (r : TaskRow). r.columns) one ∙ columns in
      record {
        found =
            ap (λ i. select_one (of_id i) after.world.db.tasks)
              (ap (λ (r : TaskRecord). r.task_id) same)
            ∙ found;
        active = active;
        keyed = ap (λ (r : TaskRecord). r.idempotency_key) same ∙ k;
        printed = ap (λ (r : TaskRecord). r.request_fingerprint) same;
      }

  existing-at :
      (key : Option String) (k : String) (a b : ServiceState) (task : TaskRecord)
      → key ≡ some k
      → a ≡ b
      → existing_task key a ≡ some task
      → existing_task (some k) b ≡ some task
  existing-at key k a b task e same h =
      subst (λ w. existing_task (some k) w ≡ some task) same
        (subst (λ o. existing_task o a ≡ some task) e h)

  answered-at :
      (s : Submission) (fingerprint key : String) (task : TaskRecord) (st after : ServiceState)
      (given r : Submitted) (row : TaskRow)
      → s.idempotency_key ≡ some key
      → existing_task s.idempotency_key st ≡ some task
      → idempotent_submission_result task fingerprint ≡ ok given
      → ◌≡◌ {A = Result Submitted × ServiceState} (ok given, st) (ok r, after)
      → IsConsistent after.world.db
      → select_one (of_id r.task_id) after.world.db.tasks ≡ some row
      → is_terminal row.status ≡ false
      → Stands key fingerprint row after.world.db
  answered-at s fingerprint key task st after given r row k existing result done c found active =
      answered-Stands key fingerprint after task r row c
        (existing-at s.idempotency_key key st after task k (ap (λ q. q.1) done) existing)
        (result ∙ ap (λ q. q.0) done) found active

  admit_task-Stands :
      (s : Submission) (moment : Moment) (p : Prepared) (st after : ServiceState) (r : Submitted)
      (row : TaskRow) (key : String)
      → unlinks ≡ true
      → s.idempotency_key ≡ some key
      → admit_task host s moment p st ≡ (ok r, after)
      → IsConsistent after.world.db
      → select_one (of_id r.task_id) after.world.db.tasks ≡ some row
      → is_terminal row.status ≡ false
      → Stands key p.request.fingerprint row after.world.db
  unfolding admit_task
  admit_task-Stands s moment p st after r row key can k h c found active =
      elim (Option-cases (existing_task s.idempotency_key st)) [
        | inl new ↦
            let (id, d) = admit_holds host s moment p st after r can new h in
            submitted-Stands s p moment (met host p.request.requested_profile p.policy moment st)
              after row key k d
              (ap (λ i. select_one (of_id i) after.world.db.tasks) (sym id) ∙ found) active
        | inr (task, e) ↦
            elim (Result-cases (idempotent_submission_result task p.request.fingerprint)) [
              | inr (code, f) ↦ cc (rw (e, f) at h)
              | inl (given, f) ↦
                  answered-at s p.request.fingerprint key task st after given r row k e f
                    (rw (e, f) at h) c found active
            ]
      ]

  -- a successful submission leaves its task to stand, if it has not ended
  submit_task-Stands :
      (s : Submission) (moment : Moment) (meanwhile : ServiceState → ServiceState)
      (st after : ServiceState) (r : Submitted) (row : TaskRow) (key : String)
      → unlinks ≡ true
      → s.idempotency_key ≡ some key
      → submit_task host policies s moment meanwhile st ≡ (ok r, after)
      → IsConsistent after.world.db
      → select_one (of_id r.task_id) after.world.db.tasks ≡ some row
      → is_terminal row.status ≡ false
      → (model : Option String) × (request : Request) × (check_arguments host s ≡ ok model)
        × (check_request host s model ≡ ok request)
        × Stands key request.fingerprint row after.world.db
  unfolding submit_task
  submit_task-Stands s moment meanwhile st after r row key can k h c found active =
      let first = prepare host policies s moment st in
      elim (Result-cases first.0) [
        | inr (code, e) ↦ cc (rw e at h)
        | inl (step, e) ↦
            let passed =
              prepare-IsChecked host policies s moment st first.1 step (ap (λ q. (q, first.1)) e) in
            (
              passed.model,
              passed.request,
              passed.arguments,
              passed.checked,
              elim passed.goes_on [
                | inl (task, given, is, existing, result) ↦
                    answered-at s passed.request.fingerprint key task
                      (swept host policies moment st) after given r row k existing result
                      (ap (λ w. (ok given, w)) (sym passed.state) ∙ (rw (e, is) at h)) c found
                      active
                | inr (p, is, same, _) ↦
                    subst (λ (q : Request). Stands key q.fingerprint row after.world.db) same
                      (admit_task-Stands s moment p (meanwhile first.1) after r row key can k
                        (rw (e, is) at h) c found active)
              ],
            )
      ]

  opened :
      (s : Submission) (moment : Moment) (st : ServiceState)
      → st.closed ≡ false
      → prepare host policies s moment st ≡ prepare_open host policies s moment st
  unfolding prepare
  opened s moment st alive = simp alive

  -- Where guards can be unlinked and the deletion of old tasks does not raise, a submission with an
  -- idempotency key that succeeded is answered with the same task when it is sent again at any later
  -- time, in whatever state the service is then, as long as it is open, its tables are consistent, as
  -- they were after the first time, and the task still stands there with the key and the fingerprint
  -- that it was stored with and has not ended, as it had not when the submission was answered; apart
  -- from old tasks that are deleted, the second submission changes nothing.
  pub submit_again :
      (s : Submission) (moment moment' : Moment)
      (meanwhile meanwhile' : ServiceState → ServiceState) (st after later : ServiceState)
      (r : Submitted) (row now : TaskRow) (key : String) (deleted : ℕ)
      → unlinks ≡ true
      → s.idempotency_key ≡ some key
      → submit_task host policies s moment meanwhile st ≡ (ok r, after)
      → IsConsistent after.world.db
      → select_one (of_id r.task_id) after.world.db.tasks ≡ some row
      → is_terminal row.status ≡ false
      → IsConsistent later.world.db
      → later.closed ≡ false
      → select_one (of_id r.task_id) later.world.db.tasks ≡ some now
      → is_terminal now.status ≡ false
      → now.idempotency_key ≡ row.idempotency_key
      → now.request_fingerprint ≡ row.request_fingerprint
      → (gc_retained host.recovery.host host.spool_deletes moment'.cutoff later.world).0
        ≡ ok deleted
      → (submit_task host policies s moment' meanwhile' later
          ≡ (ok (answer now), swept host policies moment' later))
        × (now.task_id ≡ r.task_id)
  unfolding submit_task
  submit_again s moment moment' meanwhile meanwhile' st after later r row now key deleted can k h c
        found active c' alive found' active' keyed printed gc =
      let (model, request, arguments, checked, stands) =
        submit_task-Stands s moment meanwhile st after r row key can k h c found active in
      let id : now.task_id ≡ r.task_id =
        (eq_iff now.task_id r.task_id).0
          (select_one-holds (of_id r.task_id) later.world.db.tasks now found') in
      let still : Stands key request.fingerprint now later.world.db = record {
        found = ap (λ i. select_one (of_id i) later.world.db.tasks) id ∙ found';
        active = active';
        keyed = keyed ∙ stands.keyed;
        printed = printed ∙ stands.printed;
      } in
      let again =
        prepare_open-answers host policies s moment' later now key model request deleted c' k
          arguments checked gc still in
      let ready = opened s moment' later alive ∙ again in (rw ready refl, id)
