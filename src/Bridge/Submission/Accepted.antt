-- ===== src/Bridge/Submission/Accepted.antt =====
-- What a submission that succeeds was allowed to do, and what it leaves.
use server_fs_mcp.Prelude.{some, ◌≡◌}
use server_fs_mcp.Bridge.Store.Tables.{TaskRecord}
use server_fs_mcp.Bridge.Policy.{PolicyRegistry, profile_of}
use server_fs_mcp.Bridge.Submission.Taken.{met}
use server_fs_mcp.Bridge.Policy.Guards.{IsAuthorized}
use server_fs_mcp.Bridge.Submission.{SubmissionHost, ServiceState, Submission, Submitted, Moment}
use server_fs_mcp.Bridge.Submission.Prepare.{Prepared, existing_task}
use server_fs_mcp.Bridge.Submission.Outcome.{IsSubmitted}

module _ (host : SubmissionHost) (policies : PolicyRegistry) where
  open host.recovery use {unlinks}

  -- the answer names a stored task that has the idempotency key
  abbrev pub IsRepeated : Submission → ServiceState → Submitted → Type 0
  IsRepeated s st r =
      (task : TaskRecord) × (existing_task s.idempotency_key st ≡ some task)
      × (r.task_id ≡ task.task_id)

  -- the answer names a task that the submission has started, in a workdir where the profile that it
  -- names is authorized; `before` is the service as it was found when the lock was taken
  abbrev pub IsNew : Submission → Moment → ServiceState → ServiceState → Submitted → Type 0
  IsNew s moment before after r =
      (p : Prepared) × IsAuthorized host.paths s.workdir s.runtime s.profile policies
        (p.policy, p.cwd)
      × (profile_of s.profile ≡ some p.request.requested_profile)
      × (r.task_id ≡ moment.task_id)
      × IsSubmitted host s p moment (met host p.request.requested_profile p.policy moment before)
          after
