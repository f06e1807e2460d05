-- ===== src/Exclusion/Steps.antt =====
-- The Bridge, agents and any number of ServerFS mutations on one workdir, interleaved in any order.
-- Only workspace-write tasks take the lease; the agents of review tasks come and go without it.
use server_fs_mcp.Prelude.{
  ℕ, String, Option, ◌≡◌, none, if◌then◌else◌, nat_eq, some, is_some, true, ◌≢◌, Bool, false, List,
  [],
}
use server_fs_mcp.Exclusion.{
  LockFile, GuardStat, no_file, acquire_flock, flock_hold, found, refuse_unrecovered_workdir,
}
use server_fs_mcp.Bridge.Errors

pub data Party : Type 0 where
  the_bridge : Party
  mutation : ℕ → Party

-- how far the Bridge is with a workspace-write task
pub data Phase : Type 0 where
  idle : Phase
  leased guarded running : String → Phase

-- how far a mutation is: outside `mutation_agent_lease`, with the lock, or past the test for a guard
pub data Stage : Type 0 where
  outside checking mutating : Stage

abbrev pub is_idle : Phase → Bool
is_idle idle = true
is_idle _ = false

abbrev pub is_outside : Stage → Bool
is_outside outside = true
is_outside _ = false

-- `lock` is who holds the file lock, `guard` the task of the guard file, `agent` the workspace-write task
-- whose agent runs, `readers` the review tasks whose agents run; `reports` says whether the adapter tells
-- that an agent is not active, where some answer only that they do not know
pub record System : Type 0 where
  pub file : LockFile
  pub reports : Bool
  pub lock : Option Party
  pub guard : Option String
  pub agent : Option String
  pub readers : List String
  pub phase : Phase
  pub stage : ℕ → Stage

abbrev pub set_stage : (ℕ → Stage) → ℕ → Stage → ℕ → Stage
set_stage f i s j = if nat_eq j i then s else f j

abbrev pub guard_stat : Option String → GuardStat
guard_stat none = no_file
guard_stat (some t) = found true

-- `submit_task` from the lease on, `_run_task` as far as it starts and leaves the provider,
-- `_release_lease` with and without `clear_guard`, `close`, which clears the guards of the tasks that run
-- as the end of a run does (`finish`), `_reconcile_guard` where the adapter answers that the agent is
-- not active, and the end of the process, in which the lock goes and the guard stays.
pub data BridgeStep (s : System) : System → Type 0 where
  acquire :
      (t : String)
      → s.phase ≡ idle
      → acquire_flock s.file (is_some s.lock) ≡ Errors.ok tt
      → BridgeStep s (record s { lock = some the_bridge; phase = leased t })
  create_guard :
      (t : String)
      → s.phase ≡ leased t
      → s.guard ≡ none
      → BridgeStep s (record s { guard = some t; phase = guarded t })
  give_up :
      (t : String) → s.phase ≡ leased t → BridgeStep s (record s { lock = none; phase = idle })
  roll_back :
      (t : String)
      → s.phase ≡ guarded t
      → BridgeStep s (record s { lock = none; guard = none; phase = idle })
  launch :
      (t : String)
      → s.phase ≡ guarded t
      → BridgeStep s (record s { agent = some t; phase = running t })
  finish :
      (t : String)
      → s.phase ≡ running t
      → BridgeStep s (record s { lock = none; guard = none; phase = idle })
  leave : (t : String) → s.phase ≡ running t → BridgeStep s (record s { lock = none; phase = idle })
  recover :
      (t : String)
      → s.phase ≡ idle
      → s.guard ≡ some t
      → s.reports ≡ true
      → BridgeStep s (record s { guard = none })
  stop : is_idle s.phase ≡ false → BridgeStep s (record s { lock = none; phase = idle })

-- `mutation_agent_lease` around the `i`-th mutation; `drop` is its error and also the end of its process
pub data MutationStep (i : ℕ) (s : System) : System → Type 0 where
  take_lock :
      s.stage i ≡ outside
      → flock_hold s.file (is_some s.lock) ≡ none
      → MutationStep i s
          (record s { lock = some (mutation i); stage = set_stage s.stage i checking })
  pass_tests :
      s.stage i ≡ checking
      → refuse_unrecovered_workdir (guard_stat s.guard) ≡ none
      → MutationStep i s (record s { stage = set_stage s.stage i mutating })
  drop :
      is_outside (s.stage i) ≡ false
      → MutationStep i s (record s { lock = none; stage = set_stage s.stage i outside })

pub data Step (s : System) : System → Type 0 where
  bridge : {t : System} → BridgeStep s t → Step s t
  serverfs : (i : ℕ) {t : System} → MutationStep i s t → Step s t
  agent_ends : Step s (record s { agent = none })
  review_agents : (readers : List String) → Step s (record s { readers = readers })

-- What the adapters promise at a step: when a run is over or the service closes, and when an adapter
-- answers that an agent is not active, that agent has stopped.
abbrev pub IsPromised : {s t : System} → BridgeStep s t → Type 0
IsPromised (acquire t a b) = Unit
IsPromised (create_guard t a b) = Unit
IsPromised (give_up t a) = Unit
IsPromised (roll_back t a) = Unit
IsPromised (launch t a) = Unit
IsPromised {s} (finish t a) = s.agent ≡ none
IsPromised (leave t a) = Unit
IsPromised {s} (recover t a b c) = s.agent ≢ some t
IsPromised (stop a) = Unit

abbrev pub IsKept : {s t : System} → Step s t → Type 0
IsKept (bridge b) = IsPromised b
IsKept (serverfs i m) = Unit
IsKept agent_ends = Unit
IsKept (review_agents readers) = Unit

abbrev pub start_state : LockFile → Bool → System
start_state file reports = record {
  file = file;
  reports = reports;
  lock = none;
  guard = none;
  agent = none;
  readers = [];
  phase = idle;
  stage = λ i. outside;
}

-- the states that steps lead to, at which the adapters keep their promise
pub data Reach (file : LockFile) (reports : Bool) : System → Type 0 where
  start : Reach file reports (start_state file reports)
  later :
      {s t : System} → Reach file reports s → (step : Step s t) → IsKept step → Reach file reports t
