-- ===== src/Bridge/Submission/Checked.antt =====
-- What a submission has passed when it is answered or takes its lock.
use server_fs_mcp.Prelude.{
  Option, String, none, some, ◌≡◌, refl, inl, inr, Bool-cases, Option-cases, ◌∙◌, ap, sym, false,
  ◌⊎◌,
}
use server_fs_mcp.Bridge.Errors.{ok, Result-cases, ok-injective, ◌>>=◌, pure}
use server_fs_mcp.Bridge.Store.Tables.{TaskRecord}
use server_fs_mcp.Bridge.Recovery.Retention.{gc_retained}
use server_fs_mcp.Bridge.Recovery.Cleared.{get_task-cases}
use server_fs_mcp.Bridge.Policy.{PolicyRegistry, authorize, AgentProfile}
use server_fs_mcp.Bridge.Submission.{
  SubmissionHost, ServiceState, Submission, Submitted, Moment, Request, check_arguments,
  check_request,
}
use server_fs_mcp.Bridge.Submission.Prepare.{
  Prepared, Step, answered, prepared, existing_task, idempotent_submission_result, prepare,
  prepare_open, prepare_new, continued_session, check_runtime, lift,
}
use server_fs_mcp.Bridge.Submission.Repeated.{swept}

continued_session-reads :
    (s : Submission) (profile : AgentProfile) (id : Option String) (st : ServiceState)
    → (continued_session s profile id st).1 ≡ st
unfolding continued_session
continued_session-reads s profile none st = refl
continued_session-reads s profile (some id) st = elim (get_task-cases id st.world.db) [
  | inl e ↦ rw e refl
  | inr (task, e) ↦ rw e refl
]

module _ (host : SubmissionHost) (policies : PolicyRegistry) where
  -- a submission that is ready for the lock, with its policy and its directory authorized
  abbrev pub IsPrepared : Submission → Option String → Request → Step → Type 0
  IsPrepared s model request step =
      (p : Prepared) × (step ≡ prepared p)
      × (p.request ≡ request)
      × (authorize host.paths s.workdir s.runtime s.profile request.normalized_path policies
          ≡ ok (p.policy, p.cwd))

  prepare_new-IsPrepared :
      (s : Submission) (model : Option String) (request : Request) (st mid : ServiceState)
      (step : Step)
      → prepare_new host policies s model request st ≡ (ok step, mid)
      → (mid ≡ st) × IsPrepared s model request step
  unfolding prepare_new
  prepare_new-IsPrepared s model request st mid step h =
      elim (Result-cases
        (authorize host.paths s.workdir s.runtime s.profile request.normalized_path policies)) [
          | inr (c, e) ↦ cc (rw e at h)
          | inl ((policy, cwd), e) ↦
              let session =
                continued_session s request.requested_profile s.continue_from_task_id st in
              elim (Result-cases session.0) [
                | inr (c, f) ↦ cc (rw (e, f) at h)
                | inl (native, f) ↦
                    elim (Result-cases (check_runtime host policies s.runtime model)) [
                      | inr (c, g) ↦ cc (rw (e, f, g) at h)
                      | inl (info, g) ↦
                          let done = rw (e, f, g) at h in
                          (
                            sym (ap (λ r. r.1) done)
                                ∙ continued_session-reads s request.requested_profile
                                    s.continue_from_task_id st,
                            (_, sym (ok-injective _ step (ap (λ r. r.0) done)), refl, e),
                          )
                    ]
              ]
        ]

  -- the checks that a submission has passed, and how it goes on
  pub record IsChecked (s : Submission) (moment : Moment) (st mid : ServiceState) (step : Step)
      : Type 0 where
    pub model : Option String
    pub request : Request
    pub open_service : st.closed ≡ false
    pub arguments : check_arguments host s ≡ ok model
    pub checked : check_request host s model ≡ ok request
    pub state : mid ≡ swept host policies moment st
    pub goes_on :
        ((task : TaskRecord) × (result : Submitted) × (step ≡ answered result)
          × (existing_task s.idempotency_key (swept host policies moment st) ≡ some task)
          × (idempotent_submission_result task request.fingerprint ≡ ok result))
        ⊎ IsPrepared s model request step

  existing-answers :
      (s : Submission) (request : Request) (model : Option String) (mid after : ServiceState)
      (step : Step)
      → (do
        existing ← λ st. (ok (existing_task s.idempotency_key st), st)
        elim existing [
          | some task ↦ do
            result ← lift (idempotent_submission_result task request.fingerprint)
            pure (answered result)
          | none ↦ prepare_new host policies s model request
        ])
          mid
        ≡ (ok step, after)
      → (after ≡ mid)
        × (((task : TaskRecord) × (result : Submitted) × (step ≡ answered result)
              × (existing_task s.idempotency_key mid ≡ some task)
              × (idempotent_submission_result task request.fingerprint ≡ ok result))
            ⊎ IsPrepared s model request step)
  existing-answers s request model mid after step h =
      elim (Option-cases (existing_task s.idempotency_key mid)) [
        | inl e ↦
            let (same, ready) = prepare_new-IsPrepared s model request mid after step (rw e at h) in
            (same, inr ready)
        | inr (task, e) ↦
            elim (Result-cases (idempotent_submission_result task request.fingerprint)) [
              | inr (c, f) ↦ cc (rw (e, f) at h)
              | inl (result, f) ↦
                  let done = rw (e, f) at h in
                  (
                    sym (ap (λ r. r.1) done),
                    inl (task, result, sym (ok-injective _ step (ap (λ r. r.0) done)), e, f),
                  )
            ]
      ]

  pub prepare-IsChecked :
      (s : Submission) (moment : Moment) (st mid : ServiceState) (step : Step)
      → prepare host policies s moment st ≡ (ok step, mid)
      → IsChecked s moment st mid step
  unfolding prepare prepare_open
  prepare-IsChecked s moment st mid step h = elim (Bool-cases st.closed) [
    | inl shut ↦ cc (simp shut at h)
    | inr alive ↦
        let go : prepare_open host policies s moment st ≡ (ok step, mid) = simp alive at h in
        elim (Result-cases (check_arguments host s)) [
          | inr (c, e) ↦ cc (rw e at go)
          | inl (model, e) ↦
              elim (Result-cases
                (gc_retained host.recovery.host host.spool_deletes moment.cutoff st.world).0) [
                  | inr (c, f) ↦ cc (rw (e, f) at go)
                  | inl (n, f) ↦ elim (Result-cases (check_request host s model)) [
                    | inr (c, g) ↦ cc (rw (e, f, g) at go)
                    | inl (request, g) ↦
                        let (same, next) =
                          existing-answers s request model (swept host policies moment st) mid step
                            (rw (e, f, g) at go) in
                        record {
                          model = model;
                          request = request;
                          open_service = alive;
                          arguments = e;
                          checked = g;
                          state = same;
                          goes_on = next;
                        }
                  ]
                ]
        ]
  ]
