-- ===== src/Bridge/Guards/Manager.antt =====
-- recovery.py: the methods of `ActiveGuardManager` that write, and `list`. `written` tells whether
-- the system lets a file be written or unlinked.
use server_fs_mcp.Bridge.Errors
use text.Mathlib.Text.{is_le}
use Prim.Native.String.{compare}
use server_fs_mcp.Bridge.Errors.{Result, ok, err, bind, Action, pure, raise, ◌>>=◌, ◌>>◌}
use server_fs_mcp.Prelude.{String, Option, List, ℕ, Bool, ◌∷◌, if◌then◌else◌, some, [], none, not}
use server_fs_mcp.Bridge.Guards.Files.{
  Entry, Dir, Field, Payload, read, value, publish, read_at, ActiveGuard, field_of,
  or_identity_error, null, is_named, is_recorded,
}
use server_fs_mcp.Bridge.Lease.Artifacts.{
  Host, is_guard_artifact_name, guard_artifact_name, slot_of,
}
use server_fs_mcp.Sql.{exists, delete}

-- the arguments of `create`, and `utc_now()`
pub record NewGuard : Type 0 where
  pub lease_id : String
  pub task_id : String
  pub runtime : String
  pub workdir_alias : String
  pub correlation_id : Option String
  pub now : String

abbrev pub new_payload : NewGuard → Option ℕ → Payload
new_payload new slot = record {
  schema_version = value 1;
  lease_id = value new.lease_id;
  slot = field_of slot;
  task_id = value new.task_id;
  runtime = value new.runtime;
  workdir_alias = value new.workdir_alias;
  correlation_id = field_of new.correlation_id;
  native_session_id = null;
  native_turn_id = null;
  created_at = value new.now;
  updated_at = value new.now;
}

abbrev before : Entry → Entry → Bool
before a b = is_le (compare a.name b.name)

unfoldable pub insert_entry : Entry → List Entry → List Entry
insert_entry e [] = e ∷ []
insert_entry e (x ∷ xs) =
    let rest = insert_entry e xs in if before e x then e ∷ x ∷ xs else x ∷ rest

-- sorted(entries, key=lambda entry: entry.name)
unfoldable pub sorted : List Entry → List Entry
unfolding insert_entry
sorted [] = []
sorted (e ∷ es) = insert_entry e (sorted es)

module _ (host : Host) where
  abbrev lift : {A : Type 0} → Result A → Action Dir A
  lift r dir = (r, dir)

  unfoldable pub create : Bool → NewGuard → Action Dir (Unit {0})
  unfolding exists publish guard_artifact_name slot_of
  create written new = do
    name ← lift (or_identity_error (guard_artifact_name host new.lease_id))
    λ dir.
        if exists (is_named name) dir
        then raise Errors.workdir_recovery_required dir
        else (do
          slot ← lift (or_identity_error (slot_of new.lease_id))
          publish written name (new_payload new slot))
            dir

  abbrev set_field : Option String → Field String → Field String
  set_field none old = old
  set_field (some new) old = value new

  abbrev renewed : Option String → Option String → String → Payload → Payload
  renewed session turn now p = record p {
    native_session_id = set_field session p.native_session_id;
    native_turn_id = set_field turn p.native_turn_id;
    updated_at = value now;
  }

  unfoldable pub update_native_ids :
      Bool → String → String → Option String → Option String → String → Action Dir (Unit {0})
  unfolding read publish guard_artifact_name
  update_native_ids written lease_id task_id session turn now = do
    guard ← λ dir. (read host lease_id dir, dir)
    elim guard [
      | none ↦ raise Errors.workdir_recovery_required
      | some g ↦
          if not (is_recorded g.payload.task_id task_id)
          then raise Errors.workdir_recovery_required
          else do
            name ← lift (or_identity_error (guard_artifact_name host lease_id))
            publish written name (renewed session turn now g.payload)
    ]

  unfoldable pub remove : Bool → String → String → Action Dir (Unit {0})
  unfolding read delete guard_artifact_name
  remove written lease_id task_id = do
    guard ← λ dir. (read host lease_id dir, dir)
    elim guard [
      | none ↦ pure tt
      | some g ↦
          if not (is_recorded g.payload.task_id task_id)
          then raise Errors.workdir_recovery_required
          else do
            name ← lift (or_identity_error (guard_artifact_name host lease_id))
            λ dir.
                if written
                then (ok tt, delete (is_named name) dir)
                else (err Errors.workdir_recovery_required, dir)
    ]

  -- the loop of `list` over the sorted entries; `_read_at` finds each of them
  unfoldable pub list_from : List Entry → Dir → Result (List ActiveGuard)
  unfolding is_guard_artifact_name read_at
  list_from [] dir = ok []
  list_from (e ∷ es) dir =
      let rest = list_from es dir in
      bind (or_identity_error (is_guard_artifact_name host e.name)) λ taken.
        if not taken
        then rest
        else bind (read_at host e.name none dir)
            λ guard. bind rest λ guards. elim guard [ none ↦ ok guards | some g ↦ ok (g ∷ guards) ]

  unfoldable pub list : Dir → Result (List ActiveGuard)
  unfolding list_from sorted
  list dir = list_from (sorted dir) dir
