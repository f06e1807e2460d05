-- ===== src/Bridge/Submission/Submit.antt =====
-- `submit_task` under its lock: the lease, the task, its guard, and the way back where one fails.
-- Other tasks run meanwhile only where the lease asks an adapter (Lease).
use server_fs_mcp.Bridge.Errors
use server_fs_mcp.Prelude.{
  Option, String, Bool, ℕ, none, some, ◌==◌, if◌then◌else◌, [], ◌∷◌, ◌++◌, is_some,
}
use server_fs_mcp.Bridge.Errors.{
  Result, ok, err, Action, pure, raise, ◌>>=◌, ◌>>◌, bind, is_bridge_error, Code,
}
use server_fs_mcp.Bridge.Status.{interrupted}
use server_fs_mcp.Bridge.Store.Tables.{TaskRecord}
use server_fs_mcp.Bridge.Store.Tasks.{create_task, NewTask}
use server_fs_mcp.Bridge.Guards.Manager.{create, remove, NewGuard}
use server_fs_mcp.Bridge.Recovery.{
  in_db, in_guards, transition_terminal, try_append_event, Report, task_preflight,
  task_routing_advice,
}
use server_fs_mcp.Bridge.Policy.{AgentProfile, PolicyRegistry, review, workspace_write}
use server_fs_mcp.Bridge.Submission.{Submission, Submitted, Moment, SubmissionHost, ServiceState}
use server_fs_mcp.Bridge.Submission.Prepare.{
  Prepared, answered, prepared, in_world, lift, existing_task, idempotent_submission_result,
  prepare,
}
use server_fs_mcp.Sql.{delete}
use server_fs_mcp.Bridge.Submission.Lease.{lease_for}

abbrev pub of_task_id : String → String × String → Bool
of_task_id id (task, lease) = task == id

abbrev pub profile_text : AgentProfile → String
profile_text review = "review"
profile_text workspace_write = "workspace-write"

-- `policy.slot`, or NO_LEGACY_SLOT
abbrev pub slot_or_none : Option ℕ → ℕ
slot_or_none none = 0
slot_or_none (some n) = n

module _ (host : SubmissionHost) where
  open host use {recovery, guard_written, schedules, build_manifest, max_active_tasks}
  open host.recovery use {unlinks}

  -- `lease.release()`
  abbrev pub release : Option String → ServiceState → ServiceState
  release none st = st
  release (some lease) st = record st { locked = delete (λ l. l == lease) st.locked }

  unfoldable pub new_task : Submission → Prepared → Moment → NewTask
  new_task s p moment =
      let manifest =
        build_manifest s p.policy p.request.normalized_path (some p.runtime_info)
          moment.deadline_at in
      record {
        task_id = moment.task_id;
        runtime = s.runtime;
        workdir_alias = s.workdir;
        workdir_slot = slot_or_none p.policy.slot;
        relative_cwd = p.request.normalized_path;
        profile = profile_text p.request.requested_profile;
        continue_from_task_id = s.continue_from_task_id;
        requested_model = p.requested_model;
        deadline_at = some moment.deadline_at;
        correlation_id = s.correlation_id;
        idempotency_key = s.idempotency_key;
        request_fingerprint = some p.request.fingerprint;
        manifest_json = some manifest.0;
        manifest_sha256 = some manifest.1;
      }

  abbrev pub new_guard : Submission → Moment → String → NewGuard
  new_guard s moment lease = record {
    lease_id = lease;
    task_id = moment.task_id;
    runtime = s.runtime;
    workdir_alias = s.workdir;
    correlation_id = s.correlation_id;
    now = moment.now;
  }

  -- the guard of a writer, and its entry in `_leases`
  unfoldable pub guard_task : Submission → Moment → Option String → Action ServiceState (Unit {0})
  unfolding create
  guard_task s moment none = pure tt
  guard_task s moment (some lease) = do
    in_world (in_guards (create recovery.host guard_written (new_guard s moment lease)))
    λ st. (
      ok tt,
      record st {
        leases = delete (of_task_id moment.task_id) st.leases ++ (moment.task_id, lease) ∷ [];
      },
    )

  abbrev pub record_event :
      {A : Type 0} → String → (A → Report) → Option A → Moment → ServiceState → ServiceState
  record_event id report none moment st = st
  record_event id report (some a) moment st = record st {
    world = record st.world { db = try_append_event recovery id (report a) moment.now st.world.db };
  }

  unfoldable pub record_advice : Prepared → Moment → ServiceState → ServiceState
  unfolding try_append_event
  record_advice p moment st =
      record_event moment.task_id task_routing_advice p.routing_advice moment
        (record_event moment.task_id task_preflight p.preflight_result moment st)

  -- asyncio.create_task
  unfoldable pub schedule : Moment → Action ServiceState (Unit {0})
  schedule moment st =
      if schedules
      then (ok tt, record st { background = st.background ++ moment.task_id ∷ [] })
      else (err Errors.not_a_bridge_error, st)

  abbrev pub remove_guard : Bool → Option String → Moment → Action ServiceState (Unit {0})
  remove_guard created none moment = pure tt
  remove_guard created (some lease) moment =
      if created
      then in_world (in_guards (remove recovery.host unlinks lease moment.task_id))
      else pure tt

  -- the handler of exceptions once the task is created; it raises again
  unfoldable pub roll_back : Bool → Option String → Code → Moment → Action ServiceState (Unit {0})
  unfolding remove transition_terminal
  roll_back created lease code moment = do
    λ st. (ok tt, record st { leases = delete (of_task_id moment.task_id) st.leases })
    remove_guard created lease moment
    λ st. (ok tt, release lease st)
    moved ← in_world (
        in_db (
          transition_terminal moment.task_id interrupted "BRIDGE_SCHEDULING_FAILED"
            "bridge could not schedule the task" moment.now))
    raise code

  abbrev pub or_roll_back :
      Result (Unit {0}) × ServiceState
      → Bool
      → Option String
      → Moment
      → Result (Unit {0}) × ServiceState
  or_roll_back (ok u, st) created lease moment = (ok u, st)
  or_roll_back (err c, st) created lease moment = roll_back created lease c moment st

  abbrev pub after_guard :
      Result (Unit {0}) × ServiceState
      → Prepared
      → Option String
      → Moment
      → Result (Unit {0}) × ServiceState
  after_guard (err c, st) p lease moment = roll_back Bool.false lease c moment st
  after_guard (ok u, st) p lease moment =
      or_roll_back (schedule moment (record_advice p moment st)) (is_some lease) lease moment

  -- the steps after the task is created
  unfoldable pub start_task :
      Submission → Prepared → Option String → Moment → Action ServiceState (Unit {0})
  unfolding guard_task record_advice roll_back schedule
  start_task s p lease moment st = after_guard (guard_task s moment lease st) p lease moment

  abbrev pub after_create :
      Result TaskRecord × ServiceState
      → Submission
      → Prepared
      → Option String
      → Moment
      → Result Submitted × ServiceState
  after_create (err c, st) s p lease moment =
      (err c, release lease (record st { leases = delete (of_task_id moment.task_id) st.leases }))
  after_create (ok task, st) s p lease moment =
      (do
        start_task s p lease moment
        pure (record {
          task_id = task.task_id;
          status = task.status;
          correlation_id = s.correlation_id;
          idempotency_key = s.idempotency_key;
          preflight = p.preflight_result;
          routing_advice = p.routing_advice;
        }))
        st

  -- the task with its lease
  unfoldable pub enter_task :
      Submission → Prepared → Option String → Moment → Action ServiceState Submitted
  unfolding create_task new_task start_task
  enter_task s p lease moment st =
      after_create
        (in_world (in_db (create_task (new_task s p moment) (some max_active_tasks) moment.now)) st)
        s p lease moment

  -- `async with self._submit_lock`
  unfoldable pub admit_task : Submission → Moment → Prepared → Action ServiceState Submitted
  unfolding existing_task idempotent_submission_result lease_for enter_task
  admit_task s moment p = do
    existing ← λ st. (ok (existing_task s.idempotency_key st), st)
    elim existing [
      | some task ↦ lift (idempotent_submission_result task p.request.fingerprint)
      | none ↦ do
        lease ← lease_for host p.request.requested_profile p.policy moment
        enter_task s p lease moment
    ]

  -- `meanwhile` is what other tasks do to the service until the lock is taken
  unfoldable pub submit_task :
      PolicyRegistry
      → Submission
      → Moment
      → (ServiceState → ServiceState)
      → Action ServiceState Submitted
  unfolding prepare admit_task
  submit_task policies s moment meanwhile = do
    step ← prepare host policies s moment
    elim step [
      | answered result ↦ pure result
      | prepared p ↦ λ st. admit_task s moment p (meanwhile st)
    ]
