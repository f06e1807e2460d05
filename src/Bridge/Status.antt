-- ===== src/Bridge/Status.antt =====
-- `TaskStatus` and `TERMINAL_STATUSES` of models.py, and the transition rules of state.py.
pub mod Lifecycle
use server_fs_mcp.Prelude.{Bool, true, false, List, [], ◌∷◌, any, if◌then◌else◌}
use server_fs_mcp.Bridge.Errors.{Code, invalid_transition, Result, ok, err}

pub data TaskStatus : Type 0 where
  queued starting running waiting_for_approval waiting_for_question : TaskStatus
  succeeded failed cancelled interrupted : TaskStatus

-- `is` on the members of the enumeration
abbrev pub same_status : TaskStatus → TaskStatus → Bool
same_status queued queued = true
same_status starting starting = true
same_status running running = true
same_status waiting_for_approval waiting_for_approval = true
same_status waiting_for_question waiting_for_question = true
same_status succeeded succeeded = true
same_status failed failed = true
same_status cancelled cancelled = true
same_status interrupted interrupted = true
same_status _ _ = false

abbrev pub terminal_statuses : List TaskStatus
terminal_statuses = succeeded ∷ failed ∷ cancelled ∷ interrupted ∷ []

-- status in TERMINAL_STATUSES
unfoldable pub is_terminal : TaskStatus → Bool
is_terminal s = any (same_status s) terminal_statuses

unfoldable pub allowed : TaskStatus → List TaskStatus
allowed queued = starting ∷ cancelled ∷ interrupted ∷ []
allowed starting = running ∷ failed ∷ cancelled ∷ interrupted ∷ []
allowed running =
    waiting_for_approval ∷ waiting_for_question ∷ succeeded ∷ failed ∷ cancelled ∷ interrupted ∷ []
allowed waiting_for_approval = running ∷ cancelled ∷ interrupted ∷ []
allowed waiting_for_question = running ∷ cancelled ∷ interrupted ∷ []
allowed succeeded = []
allowed failed = []
allowed cancelled = []
allowed interrupted = []

unfoldable pub can_transition : TaskStatus → TaskStatus → Bool
unfolding allowed
can_transition current target = any (same_status target) (allowed current)

unfoldable pub validate_transition : TaskStatus → TaskStatus → Result (Unit {0})
unfolding can_transition
validate_transition current target =
    if can_transition current target then ok tt else err invalid_transition
