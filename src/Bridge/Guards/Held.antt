-- ===== src/Bridge/Guards/Held.antt =====
-- A guard keeps other tasks out until its own task clears it.
use server_fs_mcp.Bridge.Errors
use server_fs_mcp.Bridge.Errors.{Result, ok, err, Result-cases}
use server_fs_mcp.Bridge.Lease.Artifacts.{Host, guard_artifact_name, validate_lease_id}
use server_fs_mcp.Bridge.Guards.Files.{
  read_at, read, Dir, ActiveGuard, is_named, is_recorded, File, read_file, holding, identity_of,
  not_regular, unreadable, no_object,
}
use server_fs_mcp.Prelude.{
  String, Option, ◌≡◌, false, some, none, Option-cases, true, inl, inr, Bool-cases, arith, subst,
  ap, is_some, Bool, refl, ◌∙◌, ◌==◌, sym, eq_iff,
}
use server_fs_mcp.Sql.{exists, select_one}
use server_fs_mcp.Bridge.Guards.Manager.{remove, update_native_ids, create, NewGuard}
use server_fs_mcp.Sql.Rows.{is_some-select_one}
use server_fs_mcp.Bridge.Lease.Names.{validate_lease_id-some}

module _ (host : Host) where
  read_at_free :
      (name : String) (expected : Option String) (dir : Dir)
      → exists (is_named name) dir ≡ false
      → read_at host name expected dir ≡ ok none
  unfolding read_at
  read_at_free name expected dir free = elim (Option-cases (select_one (is_named name) dir)) [
    | inl e ↦ rw (e, read_at) refl
    | inr (x, e) ↦ absurd (ground (arith, is_some-select_one (is_named name) dir, ap is_some e))
  ]

  abbrev lease_of : String → Result (Option ActiveGuard) → String
  lease_of other (ok (some g)) = g.lease_id
  lease_of other _ = other

  -- a file that is read for a lease is read for it also in a scan
  read_file_asked :
      (name lease_id : String) (file : File) (g : ActiveGuard)
      → read_file host name (some lease_id) file ≡ ok (some g)
      → (read_file host name none file ≡ ok (some g)) × (g.lease_id ≡ lease_id)
  unfolding read_file
  read_file_asked name lease_id not_regular g h = cc h
  read_file_asked name lease_id unreadable g h = cc h
  read_file_asked name lease_id no_object g h = cc h
  read_file_asked name lease_id (holding data_) g h =
      elim (Result-cases (identity_of host name data_)) [
        | inr (c, e) ↦ cc (rw e at h)
        | inl (found, e) ↦ elim (Bool-cases (found == lease_id)) [
          | inr other ↦ cc (rw (e, other) at h)
          | inl same ↦
              let k : ok (some (record { lease_id = found; payload = data_ })) ≡ ok (some g) =
                rw (e, same) at h in
              (rw e k, sym (ap (lease_of lease_id) k) ∙ (eq_iff found lease_id).0 same)
        ]
      ]

  read_at_asked :
      (name lease_id : String) (dir : Dir) (g : ActiveGuard)
      → read_at host name (some lease_id) dir ≡ ok (some g)
      → (read_at host name none dir ≡ ok (some g)) × (g.lease_id ≡ lease_id)
  unfolding read_at
  read_at_asked name lease_id dir g h = elim (Option-cases (select_one (is_named name) dir)) [
    | inl e ↦ cc (rw (e, read_at) at h)
    | inr (x, e) ↦ rw (e, read_at) (read_file_asked name lease_id x.file g (rw (e, read_at) at h))
  ]

  -- what a guard that is read is kept under
  pub read-name :
      (lease_id : String) (dir : Dir) (g : ActiveGuard)
      → read host lease_id dir ≡ ok (some g)
      → (name : String) × (guard_artifact_name host lease_id ≡ some name)
        × (exists (is_named name) dir ≡ true)
        × (read_at host name none dir ≡ ok (some g))
        × (g.lease_id ≡ lease_id)
  unfolding read
  read-name lease_id dir g h = elim (Option-cases (validate_lease_id lease_id)) [
    | inl e ↦ cc (rw e at h)
    | inr (v, e) ↦ elim (Option-cases (guard_artifact_name host v)) [
      | inl e2 ↦ cc (rw (e, e2) at h)
      | inr (name, e2) ↦ elim (Bool-cases (exists (is_named name) dir)) [
        | inl here ↦
            let asked = read_at_asked name v dir g (rw (e, e2) at h) in
            (
              name,
              subst (λ w. guard_artifact_name host w ≡ some name)
                  (validate_lease_id-some lease_id v e).0 e2,
              here,
              asked.0,
              asked.1 ∙ (validate_lease_id-some lease_id v e).0,
            )
        | inr free ↦ cc (rw (e, e2) at h, read_at_free name (some v) dir free)
      ]
    ]
  ]

  -- While a guard stands, no other task can clear it, write to it or put another in its place: each
  -- try raises and leaves the directory as it is.
  pub held_by_task :
      (written : Bool) (lease_id task_id : String) (dir : Dir) (g : ActiveGuard)
      → read host lease_id dir ≡ ok (some g)
      → is_recorded g.payload.task_id task_id ≡ false
      → (remove host written lease_id task_id dir ≡ (err Errors.workdir_recovery_required, dir))
        × ((session turn : Option String) (now : String)
            → update_native_ids host written lease_id task_id session turn now dir
              ≡ (err Errors.workdir_recovery_required, dir))
        × ((new : NewGuard)
            → new.lease_id ≡ lease_id
            → create host written new dir ≡ (err Errors.workdir_recovery_required, dir))
  unfolding remove update_native_ids create
  held_by_task written lease_id task_id dir g held other =
      let (name, named, taken, _, _) = read-name lease_id dir g held in
      (
        rw (held, other) refl,
        λ session turn now. rw (held, other) refl,
        λ new same. rw (same, named, taken) refl,
      )
