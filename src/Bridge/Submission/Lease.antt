-- ===== src/Bridge/Submission/Lease.antt =====
-- The lease that `submit_task` takes for a writer (service.py, leases.py).
use server_fs_mcp.Bridge.Errors
use server_fs_mcp.Prelude.{
  Option, String, Bool, List, none, some, ◌==◌, not, if◌then◌else◌, any, [], ◌∷◌,
}
use server_fs_mcp.Bridge.Errors.{
  Result, ok, err, Action, pure, raise, ◌>>=◌, ◌>>◌, bind, is_bridge_error, Code,
}
use server_fs_mcp.Bridge.Store.Tables.{Db}
use server_fs_mcp.Bridge.Store.Tasks.{get_task}
use server_fs_mcp.Bridge.Lease.{lease_id}
use server_fs_mcp.Bridge.Lease.Artifacts.{validate_lease_id}
use server_fs_mcp.Bridge.Guards.Files.{or_identity_error}
use server_fs_mcp.Bridge.Recovery.{reconcile_guard, task_lease_id}
use server_fs_mcp.Bridge.Policy.{WorkdirAgentPolicy, AgentProfile, writes}
use server_fs_mcp.Bridge.Submission.{
  Moment, SubmissionHost, ServiceState, granted, held_elsewhere, unavailable,
}
use server_fs_mcp.Bridge.Submission.Prepare.{lift}

-- whether a task of `_leases` has the lease
unfoldable pub locally_leased : String → List (String × String) → Db → Result Bool
unfolding get_task task_lease_id
locally_leased lease [] db = ok Bool.false
locally_leased lease ((id, held) ∷ ls) db =
    let rest = locally_leased lease ls db in
    elim (get_task id db).0 [
      | err c ↦ if is_bridge_error c then rest else err c
      | ok task ↦ elim (task_lease_id task) [
        | none ↦ err Errors.not_a_bridge_error
        | some other ↦ if other == lease then ok Bool.true else rest
      ]
    ]

module _ (host : SubmissionHost) where
  open host use {recovery, lock, db_meanwhile, guards_meanwhile, others_meanwhile}

  -- `_acquire_flock`
  unfoldable pub take_lock : String → Action ServiceState (Unit {0})
  take_lock lease st =
      if any (λ l. l == lease) st.locked then (err Errors.workdir_busy, st) else elim (lock lease) [
        | granted ↦ (ok tt, record st { locked = lease ∷ st.locked })
        | held_elsewhere ↦ (err Errors.workdir_busy, st)
        | unavailable ↦ (err Errors.lock_path_unsafe, st)
      ]

  abbrev pub dropped : {A : Type 0} → Result A → Result (Unit {0})
  dropped (ok a) = ok tt
  dropped (err c) = err c

  -- where no task of this process has the lease, its guard is reconciled first
  unfoldable pub make_way : String → Moment → Action ServiceState (Unit {0})
  unfolding locally_leased reconcile_guard
  make_way lease moment = do
    local ← λ st. (locally_leased lease st.leases st.world.db, st)
    if local then pure tt else λ st.
        let r =
          reconcile_guard recovery db_meanwhile guards_meanwhile lease Bool.false moment.now
            st.world in
        (dropped r.0, record (others_meanwhile st) { world = r.1 })

  -- `LeaseManager.acquire_exclusive`
  unfoldable pub acquire_exclusive : String → Action ServiceState (Unit {0})
  unfolding validate_lease_id take_lock
  acquire_exclusive lease = do lift (or_identity_error (validate_lease_id lease)); take_lock lease

  -- the lease that a writer asks for, once its guard is reconciled
  unfoldable pub way_for :
      AgentProfile → WorkdirAgentPolicy → Moment → Action ServiceState (Option String)
  unfolding lease_id make_way
  way_for profile policy moment = if not (writes profile) then pure none else do
    lease ← lift (or_identity_error (lease_id policy.slot policy.alias))
    make_way lease moment
    pure (some lease)

  abbrev pub acquire_wanted : Option String → Action ServiceState (Option String)
  unfolding acquire_exclusive
  acquire_wanted none = pure none
  acquire_wanted (some lease) = do acquire_exclusive lease; pure (some lease)

  -- the lease that a writer takes
  unfoldable pub lease_for :
      AgentProfile → WorkdirAgentPolicy → Moment → Action ServiceState (Option String)
  unfolding way_for acquire_exclusive
  lease_for profile policy moment = do wanted ← way_for profile policy moment; acquire_wanted wanted
