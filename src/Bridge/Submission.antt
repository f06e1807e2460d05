-- ===== src/Bridge/Submission.antt =====
-- service.py: what `submit_task` reads and writes, and the checks of its arguments. The arguments are
-- of their declared types; diagnostics and metrics are left out.
pub mod Prepare
pub mod Lease
pub mod Submit
pub mod Repeated
pub mod Told
pub mod Taken
pub mod Entered
pub mod Started
pub mod Admitted
pub mod Outcome
pub mod Checked
pub mod Again
pub mod Accepted
use server_fs_mcp.Prelude.{any_code}
use server_fs_mcp.Bridge.Errors
use server_fs_mcp.Prelude.{
  Option, String, Bool, ℕ, List, none, some, ◌==◌, not, if◌then◌else◌, ltb, nat_eq, ◌||◌, any, [],
  ◌∷◌,
}
use server_fs_mcp.Bridge.Errors.{Result, ok, err, bind}
use server_fs_mcp.Bridge.Advice.{PreflightResult, RoutingAdvice}
use server_fs_mcp.Bridge.Recovery.{World, RecoveryHost}
use server_fs_mcp.Bridge.Policy.{HostPaths, WorkdirAgentPolicy, AgentProfile, profile_of, or_here}
use server_fs_mcp.Bridge.Status.{TaskStatus}
use server_fs_mcp.Bridge.Store.Tables.{Timestamp, Db}
use server_fs_mcp.Bridge.Guards.Files.{Dir}
use server_fs_mcp.Sql.{select_all}

-- the arguments of `submit_task`
pub record Submission : Type 0 where
  pub runtime : String
  pub workdir : String
  pub path : String
  pub profile : String
  pub prompt : String
  pub model : Option String
  pub continue_from_task_id : Option String
  pub correlation_id : Option String
  pub idempotency_key : Option String

-- what `submit_task` returns
pub record Submitted : Type 0 where
  pub task_id : String
  pub status : TaskStatus
  pub correlation_id : Option String
  pub idempotency_key : Option String
  pub preflight : Option PreflightResult
  pub routing_advice : Option RoutingAdvice

-- the object that `_submission_fingerprint` encodes
pub record FingerprintPayload : Type 0 where
  pub runtime : String
  pub workdir : String
  pub path : String
  pub profile : AgentProfile
  pub prompt_sha256 : String
  pub requested_model : Option String
  pub continue_from_task_id : Option String
  pub correlation_id : Option String

pub record RuntimeInfo : Type 0 where
  pub model_override : Bool

-- what the lock of another process makes of `flock`
pub data LockAnswer : Type 0 where
  granted held_elsewhere unavailable : LockAnswer

-- the clock of a submission, and the id that it makes
pub record Moment : Type 0 where
  pub cutoff : Timestamp
  pub now : Timestamp
  pub deadline_at : Timestamp
  pub task_id : String

-- `_leases` by task id, the leases that this process has locked, and the ids of `_background`
pub record ServiceState : Type 0 where
  pub world : World
  pub leases : List (String × String)
  pub locked : List String
  pub background : List String
  pub closed : Bool

-- What submission asks of the rest: pathlib, encodings and texts; the answers of the adapter and of
-- the preflight, none where they raise; the manifest; the locks of other processes; and whether the
-- system lets a guard be written and a coroutine be scheduled. While the lock of the service is held,
-- other tasks run only while an adapter is asked for the task of a guard; the last three fields are
-- what they then do to the store, to the guards, and to the rest of the service.
pub record SubmissionHost : Type 0 where
  pub recovery : RecoveryHost
  pub paths : HostPaths
  pub as_posix : List String → String
  pub strip : String → String
  pub utf8_size : String → ℕ
  pub encode_payload : FingerprintPayload → String
  pub probe : String → Option RuntimeInfo
  pub preflight : Option (Submission → Option PreflightResult)
  pub build_manifest :
      Submission → WorkdirAgentPolicy → String → Option RuntimeInfo → Timestamp → String × String
  pub spool_deletes : String → Bool
  pub max_prompt_bytes : ℕ
  pub max_active_tasks : ℕ
  pub lock : String → LockAnswer
  pub guard_written : Bool
  pub schedules : Bool
  pub db_meanwhile : Db → Db
  pub guards_meanwhile : Dir → Dir
  pub others_meanwhile : ServiceState → ServiceState

-- a submission that has passed the checks of its texts
pub record Request : Type 0 where
  pub requested_profile : AgentProfile
  pub normalized_path : String
  pub fingerprint : String

abbrev is_control : ℕ → Bool
is_control n = ltb n 32 || nat_eq n 127

module _ (host : SubmissionHost) where
  open host use {strip, utf8_size, paths, as_posix, encode_payload}
  open host.recovery.host use {sha256_hex}

  unfoldable pub validate_requested_model : Option String → Result (Option String)
  unfolding any_code
  validate_requested_model none = ok none
  validate_requested_model (some value) =
      if value == ""
      then err Errors.invalid_request
      else if not (value == strip value)
      then err Errors.invalid_request
      else if ltb 512 (utf8_size value)
      then err Errors.invalid_request
      else if any_code is_control value
      then err Errors.invalid_request
      else ok (some value)

  unfoldable pub validate_correlation_id : Option String → Result (Unit {0})
  unfolding any_code
  validate_correlation_id none = ok tt
  validate_correlation_id (some value) =
      if ltb 256 (utf8_size value)
      then err Errors.invalid_request
      else if any_code is_control value
      then err Errors.invalid_request
      else ok tt

  unfoldable pub validate_idempotency_key : Option String → Result (Unit {0})
  unfolding any_code
  validate_idempotency_key none = ok tt
  validate_idempotency_key (some value) =
      if value == ""
      then err Errors.invalid_request
      else if ltb 256 (utf8_size value)
      then err Errors.invalid_request
      else if any_code is_control value
      then err Errors.invalid_request
      else ok tt

  abbrev posix_or_empty : List String → String
  posix_or_empty [] = ""
  posix_or_empty (p ∷ ps) = as_posix (p ∷ ps)

  unfoldable pub normalize_submission_path : String → Result String
  unfolding any_code
  normalize_submission_path path =
      if any_code (nat_eq 0) path
      then err Errors.invalid_workdir_path
      else if paths.is_absolute (or_here path)
      then err Errors.invalid_workdir_path
      else if any (λ part. part == "..") (paths.parts (or_here path))
      then err Errors.invalid_workdir_path
      else ok (
          posix_or_empty (select_all (λ p. not (p == "" || p == ".")) (paths.parts (or_here path))))

  unfoldable pub submission_fingerprint :
      Submission → String → AgentProfile → Option String → String
  submission_fingerprint s path profile model = sha256_hex (
      encode_payload (record {
        runtime = s.runtime;
        workdir = s.workdir;
        path = path;
        profile = profile;
        prompt_sha256 = sha256_hex s.prompt;
        requested_model = model;
        continue_from_task_id = s.continue_from_task_id;
        correlation_id = s.correlation_id;
      }))

  -- the checks of `submit_task` before old tasks are deleted
  unfoldable pub check_arguments : Submission → Result (Option String)
  unfolding validate_requested_model validate_correlation_id validate_idempotency_key
  check_arguments s =
      if s.runtime == ""
      then err Errors.invalid_request
      else if s.workdir == ""
      then err Errors.invalid_request
      else bind (validate_requested_model s.model) λ model.
        bind (validate_correlation_id s.correlation_id)
          λ _. bind (validate_idempotency_key s.idempotency_key) λ _. ok model

  abbrev pub checked_profile : String → Result AgentProfile
  checked_profile text = elim (profile_of text) [
    | none ↦ err Errors.profile_not_allowed
    | some p ↦ ok p
  ]

  unfoldable pub check_request : Submission → Option String → Result Request
  unfolding profile_of normalize_submission_path submission_fingerprint
  check_request s model =
      if ltb host.max_prompt_bytes (utf8_size s.prompt)
      then err Errors.prompt_too_large
      else bind (checked_profile s.profile) λ profile.
        bind (normalize_submission_path s.path) λ path. ok (record {
          requested_profile = profile;
          normalized_path = path;
          fingerprint = submission_fingerprint s path profile model;
        })
