-- ===== src/Bridge/Guards/Files.antt =====
-- recovery.py: `ActiveGuardManager`, over the entries of its directory. The temporary file that
-- `_publish` renames is left out: no name of a guard starts with a dot. A number in a payload is
-- an integer from 0, any other JSON number counts as a value of a wrong type.
use server_fs_mcp.Bridge.Errors
use server_fs_mcp.Bridge.Errors.{Result, ok, err, bind, Action, pure, raise, ◌>>=◌, ◌>>◌}
use server_fs_mcp.Prelude.{
  String, Option, ℕ, List, Bool, some, ◌==◌, true, false, nat_eq, if◌then◌else◌, ◌∷◌, none, not,
  ◌||◌,
}
use server_fs_mcp.Bridge.Errors.{Result}
use server_fs_mcp.Bridge.Lease.{slot_lease_id}
use server_fs_mcp.Bridge.Lease.Artifacts.{Host, validate_lease_id, guard_artifact_name, slot_of}
use server_fs_mcp.Sql.{select_one, delete}

-- the value under a key of a payload: none or null, of a wrong type, or as it should be
pub data Field {ℓ} (A : Type ℓ) : Type ℓ where
  null malformed : Field A
  value : A → Field A

pub record Payload : Type 0 where
  pub schema_version : Field ℕ
  pub lease_id : Field String
  pub slot : Field ℕ
  pub task_id : Field String
  pub runtime : Field String
  pub workdir_alias : Field String
  pub correlation_id : Field String
  pub native_session_id : Field String
  pub native_turn_id : Field String
  pub created_at : Field String
  pub updated_at : Field String

-- what an entry of the directory is, as far as `_read_at` sees it
pub data File : Type 0 where
  not_regular unreadable no_object : File
  holding : Payload → File

pub record Entry : Type 0 where
  pub name : String
  pub file : File

abbrev pub Dir : Type 0
Dir = List Entry

pub record ActiveGuard : Type 0 where
  pub lease_id : String
  pub payload : Payload

abbrev pub is_named : String → Entry → Bool
is_named name e = e.name == name

abbrev is_value : Field String → Bool
is_value (value s) = true
is_value _ = false

abbrev pub field_of {ℓ} : {A : Type ℓ} → Option A → Field A
field_of none = null
field_of (some a) = value a

abbrev pub is_recorded : Field String → String → Bool
is_recorded (value s) id = s == id
is_recorded _ id = false

-- recorded_slot is not None and recorded_slot != slot_of(lease_id)
abbrev pub slot_differs : Field ℕ → Option ℕ → Bool
slot_differs null s = false
slot_differs malformed s = true
slot_differs (value n) none = true
slot_differs (value n) (some m) = not (nat_eq n m)

abbrev is_version_1 : Field ℕ → Bool
is_version_1 (value n) = nat_eq n 1
is_version_1 _ = false

-- an exception that is no `BridgeError`, as it leaves a method
abbrev pub or_identity_error {ℓ} : {A : Type ℓ} → Option A → Result A
or_identity_error none = err Errors.not_a_bridge_error
or_identity_error (some a) = ok a

-- `LeaseIdentityError` turned into the error of an invalid guard
abbrev or_invalid {ℓ} : {A : Type ℓ} → Option A → Result A
or_invalid none = err Errors.workdir_recovery_required
or_invalid (some a) = ok a

-- the lease that a payload names
unfoldable pub recorded_lease : Field String → Field ℕ → Result String
unfolding slot_lease_id validate_lease_id slot_of
recorded_lease malformed slot = err Errors.workdir_recovery_required
recorded_lease null (value n) = or_invalid (slot_lease_id n)
recorded_lease null slot = err Errors.workdir_recovery_required
recorded_lease (value text) slot = bind (or_invalid (validate_lease_id text)) λ lease_id.
    bind (or_invalid (slot_of lease_id))
      λ s. if slot_differs slot s then err Errors.workdir_recovery_required else ok lease_id

module _ (host : Host) where
  unfoldable pub identity_of : String → Payload → Result String
  unfolding recorded_lease guard_artifact_name
  identity_of name data_ =
      if not (is_version_1 data_.schema_version)
      then err Errors.workdir_recovery_required
      else if not (is_value data_.task_id) || not (is_value data_.runtime)
      then err Errors.workdir_recovery_required
      else bind (recorded_lease data_.lease_id data_.slot) λ lease_id.
        bind (or_identity_error (guard_artifact_name host lease_id)) λ expected.
          if not (expected == name) then err Errors.workdir_recovery_required else ok lease_id

  abbrev is_other : Option String → String → Bool
  is_other none lease_id = false
  is_other (some expected) lease_id = not (lease_id == expected)

  unfoldable pub read_file : String → Option String → File → Result (Option ActiveGuard)
  unfolding identity_of
  read_file name expected not_regular = err Errors.workdir_recovery_required
  read_file name expected unreadable = err Errors.workdir_recovery_required
  read_file name expected no_object = err Errors.workdir_recovery_required
  read_file name expected (holding data_) = bind (identity_of name data_) λ lease_id.
      if is_other expected lease_id
      then err Errors.workdir_recovery_required
      else ok (some (record { lease_id = lease_id; payload = data_ }))

  unfoldable pub read_at : String → Option String → Dir → Result (Option ActiveGuard)
  unfolding read_file select_one
  read_at name expected dir = elim (select_one (is_named name) dir) [
    | none ↦ ok none
    | some e ↦ read_file name expected e.file
  ]

  unfoldable pub read : String → Dir → Result (Option ActiveGuard)
  unfolding read_at guard_artifact_name
  read lease_id dir = bind (or_identity_error (validate_lease_id lease_id)) λ id.
      bind (or_identity_error (guard_artifact_name host id)) λ name. read_at name (some id) dir

-- os.replace(tmp, path), if the system has done all up to it
unfoldable pub publish : Bool → String → Payload → Dir → Result (Unit {0}) × Dir
unfolding delete
publish false name payload dir = (err Errors.workdir_recovery_required, dir)
publish true name payload dir =
    (ok tt, record { name = name; file = holding payload } ∷ delete (is_named name) dir)
