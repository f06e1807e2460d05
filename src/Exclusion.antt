-- ===== src/Exclusion.antt =====
-- One workdir's writer lease, as the Bridge (leases.py, service.py) and ServerFS
-- (src/serverfs_mcp/agent_leases.py) take it, on POSIX.
pub mod Steps
pub mod Invariant
pub mod Safety
pub mod Progress
use server_fs_mcp.Bridge.Errors
use server_fs_mcp.Bridge.Errors.{Action}
use server_fs_mcp.Prelude.{Bool, Option, some, none, if◌then◌else◌, not, ◌||◌}

-- the lock file as `os.open` and `os.fstat` find it
pub data LockFile : Type 0 where
  missing irregular regular : LockFile

-- AgentLeaseError, WorkdirBusyError and WorkdirRecoveryRequiredError
pub data LeaseError : Type 0 where
  agent_lease_error busy recovery_required : LeaseError

-- `_flock_hold`, which fails or holds the lock; `locked` tells whether another holds it
unfoldable pub flock_hold : LockFile → Bool → Option LeaseError
flock_hold missing locked = some agent_lease_error
flock_hold irregular locked = some agent_lease_error
flock_hold regular locked = if locked then some busy else none

-- what `os.lstat` gives for a guard
pub data GuardStat : Type 0 where
  no_file stat_fails : GuardStat
  found : (is_regular : Bool) → GuardStat

unfoldable pub refuse_unrecovered_workdir : GuardStat → Option LeaseError
refuse_unrecovered_workdir no_file = none
refuse_unrecovered_workdir stat_fails = some agent_lease_error
refuse_unrecovered_workdir (found is_regular) =
    if not is_regular then some agent_lease_error else some recovery_required

abbrev or_else {ℓ} : {A : Type ℓ} → Option A → Option A → Option A
or_else none b = b
or_else (some a) b = some a

-- `mutation_agent_lease` up to its `yield`: none where the mutation goes on
unfoldable pub mutation_agent_lease :
    Bool → Bool → Bool → LockFile → Bool → GuardStat → Option LeaseError
unfolding flock_hold refuse_unrecovered_workdir
mutation_agent_lease enabled lease_is_valid dir_is_absolute file locked guard =
    if not enabled
    then none
    else if not lease_is_valid || not dir_is_absolute
    then some agent_lease_error
    else or_else (flock_hold file locked) (refuse_unrecovered_workdir guard)

-- `LeaseManager._acquire_flock`
unfoldable pub acquire_flock : LockFile → Bool → Errors.Result (Unit {0})
acquire_flock missing locked = Errors.err Errors.lock_path_unsafe
acquire_flock irregular locked = Errors.err Errors.lock_path_unsafe
acquire_flock regular locked = if locked then Errors.err Errors.workdir_busy else Errors.ok tt
