-- ===== src/Tests/Bridge/Recovery.antt =====
-- A finished task whose guard still stands.
use server_fs_mcp.Prelude.{all_chars}
use server_fs_mcp.Bridge.Errors
use server_fs_mcp.Sql.{count, update, select_all, delete}
use server_fs_mcp.Prelude.{[], ◌∷◌, some, false, true, ◌≡◌, refl}
use server_fs_mcp.Tests.Bridge.{
  finished, finished-IsConsistent, finished_found, cancelled_row, one_task, one_task-IsConsistent,
  queued_row, queued_found,
}
use server_fs_mcp.Sql.{select_one}
use server_fs_mcp.Bridge.Status.{is_terminal}
use server_fs_mcp.Bridge.Lease.Artifacts.{Host, is_digit, int_from}
use server_fs_mcp.Bridge.Recovery.{
  RecoveryHost, World, reconcile_guard, task_lease_id, not_recoverable, asked,
}
use server_fs_mcp.Bridge.Guards.Files.{ActiveGuard, read, value, holding, null}
use server_fs_mcp.Bridge.Store.Tables.{task_from_row, of_id}
use server_fs_mcp.Bridge.Recovery.Retention.{gc_retained}
use server_fs_mcp.Bridge.Recovery.Retained.{IsGuarded}
use server_fs_mcp.Bridge.Recovery.Kept.{gc_retained-keeps_guarded}
use server_fs_mcp.Bridge.Recovery.Cleared.{IsReconciled, reconcile_guard-IsInactive}
use server_fs_mcp.Bridge.Recovery.Startup.{reconcile_startup}
use server_fs_mcp.Bridge.Recovery.Ended.{HasEnded}
use server_fs_mcp.Bridge.Recovery.StartupEnds.{reconcile_startup_ended}

abbrev pub digest : Host
digest = record {
  sha256_hex = λ s. "0000000000000000000000000000000000000000000000000000000000000000";
  isdigit = all_chars is_digit;
  int_of = λ s. some (int_from 0 s);
}

-- an adapter that reports every task's agent as not active
abbrev pub quiet : RecoveryHost
quiet = record {
  host = digest;
  adapters = λ runtime.
      some (λ task. some (record { status = not_recoverable; provider_active = some false }));
  encode = λ id report. some "{}";
  max_events_per_task = 9;
  is_expired = λ deadline. false;
  unlinks = true;
}

abbrev kept_guard : ActiveGuard
kept_guard = record {
  lease_id = "slot:01";
  payload = record {
    schema_version = value 1;
    lease_id = value "slot:01";
    slot = value 1;
    task_id = value "a";
    runtime = value "fake";
    workdir_alias = value "main";
    correlation_id = null;
    native_session_id = null;
    native_turn_id = null;
    created_at = value "t0";
    updated_at = value "t0";
  };
}

abbrev standing : World
standing = record {
  db = finished;
  guards = record { name = "01"; file = holding kept_guard.payload } ∷ [];
}

guard_found : read digest "slot:01" standing.guards ≡ Errors.ok (some kept_guard)
unfolding read
guard_found = refl

cleared :
    (reconcile_guard quiet (λ db. db) (λ dir. dir) "slot:01" false "t9" standing).1.guards ≡ []
unfolding reconcile_guard is_terminal count update
cleared = refl

reconcile_guard-IsInactive_example :
    IsReconciled quiet
      (λ dir. dir)
      "slot:01"
      false
      standing
      (reconcile_guard quiet (λ db. db) (λ dir. dir) "slot:01" false "t9" standing)
reconcile_guard-IsInactive_example =
    reconcile_guard-IsInactive quiet (λ db. db) (λ dir. dir) "slot:01" false "t9" standing

left_guards : IsGuarded digest standing.guards (task_from_row cancelled_row)
unfolding task_from_row task_lease_id
left_guards = ("slot:01", kept_guard, refl, guard_found, refl)

gc_retained-keeps_guarded_example :
    select_one (of_id "a") (gc_retained digest (λ s. true) "t9" standing).1.db.tasks
    ≡ some cancelled_row
gc_retained-keeps_guarded_example =
    gc_retained-keeps_guarded digest (λ s. true) "t9" "a" cancelled_row standing
      finished-IsConsistent finished_found left_guards

abbrev waiting : World
waiting = record { db = one_task; guards = [] }

-- without a guard, an old task goes
deleted : (gc_retained digest (λ s. true) "t9" (record standing { guards = [] })).1.db.tasks ≡ []
unfolding gc_retained is_terminal select_all task_from_row delete
deleted = refl

restarted : (reconcile_startup quiet false "t9" waiting).0 ≡ Errors.ok 1
unfolding reconcile_startup is_terminal count update select_all
restarted = refl

reconcile_startup_ended_example : HasEnded "a" (reconcile_startup quiet false "t9" waiting).1.db
unfolding is_terminal asked
reconcile_startup_ended_example =
    reconcile_startup_ended quiet false "t9" "a" queued_row waiting 1 one_task-IsConsistent
      queued_found refl refl restarted
