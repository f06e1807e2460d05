-- ===== src/Bridge/Guards/Kept.antt =====
-- What a guard that is created or cleared leaves in the directory.
use server_fs_mcp.Bridge.Errors
use server_fs_mcp.Bridge.Errors.{ok, err}
use mathlib.Core.Option
use server_fs_mcp.Bridge.Lease.Artifacts.{
  Host, guard_artifact_name, slot_of, validate_lease_id, int_from, match_slot,
}
use server_fs_mcp.Bridge.Guards.Manager.{create, NewGuard, new_payload, remove}
use server_fs_mcp.Bridge.Guards.Files.{
  publish, Dir, is_named, holding, Entry, read, read_at, identity_of, recorded_lease, slot_differs,
  field_of, Payload,
}
use server_fs_mcp.Prelude.{
  Bool, ◌≡◌, ◌⊎◌, String, Option, ℕ, some, false, ◌∷◌, Option-cases, inl, inr, Bool-cases, arith,
  subst, [], refl, eq_refl, none, true, ap, sym,
}
use server_fs_mcp.Bridge.Errors.{Code}
use server_fs_mcp.Sql.{exists, delete, select_one}
use server_fs_mcp.Bridge.Lease.Names.{validate_lease_id-some}

slot_differs_of_same : (slot : Option ℕ) → slot_differs (field_of slot) slot ≡ false
slot_differs_of_same none = refl
slot_differs_of_same (some n) = ground (arith)

-- a lease id with a slot is returned by its check
slot_of-valid :
    (lease_id : String) (slot : Option ℕ)
    → slot_of lease_id ≡ some slot
    → validate_lease_id lease_id ≡ some lease_id
unfolding slot_of
slot_of-valid lease_id slot h = elim (Option-cases (validate_lease_id lease_id)) [
  | inl e ↦ ground (
    arith,
    subst
        (λ o.
          elim o [ none ↦ none | some v ↦ some (Option.map (int_from 0) (match_slot lease_id)) ]
          ≡ some slot)
        e h,
  )
  | inr (v, e) ↦
      subst (λ w. validate_lease_id lease_id ≡ some w) (validate_lease_id-some lease_id v e).0 e
]

delete_of_none : (p : Entry → Bool) (dir : Dir) → exists p dir ≡ false → delete p dir ≡ dir
unfolding exists delete
delete_of_none p [] h = refl
delete_of_none p (x ∷ xs) h = ground (arith, delete_of_none p xs)

select_one_here :
    (name : String) (payload : Payload) (dir : Dir)
    → select_one (is_named name) (record { name = name; file = holding payload } ∷ dir)
      ≡ some (record { name = name; file = holding payload })
unfolding select_one
select_one_here name payload dir = rw (eq_refl name) refl

module _ (host : Host) where
  create-cases :
      (written : Bool) (new : NewGuard) (dir : Dir)
      → ((c : Code) × (create host written new dir ≡ (err c, dir)))
        ⊎ ((name : String) × (slot : Option ℕ) × (guard_artifact_name host new.lease_id ≡ some name)
            × (slot_of new.lease_id ≡ some slot)
            × (exists (is_named name) dir ≡ false)
            × (create host written new dir ≡ (
              ok tt,
              record { name = name; file = holding (new_payload new slot) }
                  ∷ delete (is_named name) dir,
            )))
  unfolding create publish
  create-cases written new dir = elim (Option-cases (guard_artifact_name host new.lease_id)) [
    | inl e ↦ inl (Errors.not_a_bridge_error, simp e)
    | inr (name, e) ↦ elim (Bool-cases (exists (is_named name) dir)) [
      | inl held ↦ inl (Errors.workdir_recovery_required, simp (e, held))
      | inr free ↦ elim (Option-cases (slot_of new.lease_id)) [
        | inl e2 ↦ inl (Errors.not_a_bridge_error, simp (e, free, e2))
        | inr (slot, e2) ↦ elim (Bool-cases written) [
          | inl w ↦ inr (name, slot, e, e2, free, simp (e, free, e2, w))
          | inr w ↦ inl (Errors.workdir_recovery_required, simp (e, free, e2, w))
        ]
      ]
    ]
  ]

  identity_of_new :
      (new : NewGuard) (slot : Option ℕ) (name : String)
      → guard_artifact_name host new.lease_id ≡ some name
      → slot_of new.lease_id ≡ some slot
      → identity_of host name (new_payload new slot) ≡ ok new.lease_id
  unfolding identity_of recorded_lease
  identity_of_new new slot name named slotted =
      let valid = slot_of-valid new.lease_id slot slotted in
      rw (valid, slotted, slot_differs_of_same slot, named, eq_refl name) refl

  read_at_of_new :
      (new : NewGuard) (slot : Option ℕ) (name : String) (dir : Dir)
      → guard_artifact_name host new.lease_id ≡ some name
      → slot_of new.lease_id ≡ some slot
      → read_at host name
          (some new.lease_id)
          (record { name = name; file = holding (new_payload new slot) } ∷ dir)
        ≡ ok (some (record { lease_id = new.lease_id; payload = new_payload new slot }))
  unfolding read_at
  read_at_of_new new slot name dir named slotted =
      rw (select_one_here name (new_payload new slot) dir, read_at)
        (rw (identity_of_new new slot name named slotted) (rw (eq_refl new.lease_id) refl))

  read_of_new :
      (new : NewGuard) (slot : Option ℕ) (name : String) (dir : Dir)
      → guard_artifact_name host new.lease_id ≡ some name
      → slot_of new.lease_id ≡ some slot
      → read host new.lease_id (record { name = name; file = holding (new_payload new slot) } ∷ dir)
        ≡ ok (some (record { lease_id = new.lease_id; payload = new_payload new slot }))
  unfolding read
  read_of_new new slot name dir named slotted =
      rw (slot_of-valid new.lease_id slot slotted, named)
        (read_at_of_new new slot name dir named slotted)

  remove_of_new :
      (new : NewGuard) (slot : Option ℕ) (name : String) (dir : Dir)
      → guard_artifact_name host new.lease_id ≡ some name
      → slot_of new.lease_id ≡ some slot
      → exists (is_named name) dir ≡ false
      → remove host true new.lease_id new.task_id
          (record { name = name; file = holding (new_payload new slot) } ∷ dir)
        ≡ (ok tt, dir)
  unfolding remove delete
  remove_of_new new slot name dir named slotted free =
      rw (read_of_new new slot name dir named slotted, eq_refl new.task_id, named, eq_refl name)
        (ap (λ d. (ok tt, d)) (delete_of_none (is_named name) dir free))

  abbrev Created : NewGuard → Dir → Errors.Result (Unit {0}) × Dir → Type 0
  Created new dir (err c, after) = after ≡ dir
  Created new dir (ok u, after) =
      ((slot : Option ℕ) × (read host new.lease_id after
          ≡ ok (some (record { lease_id = new.lease_id; payload = new_payload new slot }))))
      × (remove host true new.lease_id new.task_id after ≡ (ok tt, dir))

  create-Created :
      (written : Bool) (new : NewGuard) (dir : Dir) → Created new dir (create host written new dir)
  create-Created written new dir = elim (create-cases written new dir) [
    | inl (c, e) ↦ rw e refl
    | inr (name, slot, named, slotted, free, e) ↦
        let after : Dir =
          record { name = name; file = holding (new_payload new slot) }
          ∷ delete (is_named name) dir in
        rw e (
          (slot, read_of_new new slot name (delete (is_named name) dir) named slotted),
          subst
              (λ d.
                remove host true new.lease_id new.task_id
                  (record { name = name; file = holding (new_payload new slot) } ∷ d)
                ≡ (ok tt, dir))
              (sym (delete_of_none (is_named name) dir free))
              (remove_of_new new slot name dir named slotted free),
        )
  ]

  -- Clearing a guard as the task that has created it gives back the directory of before.
  pub create_then_remove :
      (written : Bool) (new : NewGuard) (dir after : Dir)
      → create host written new dir ≡ (ok tt, after)
      → remove host true new.lease_id new.task_id after ≡ (ok tt, dir)
  create_then_remove written new dir after h =
      (subst (Created new dir) h (create-Created written new dir)).1

  -- A guard that is created is read back under its lease, with the task and all that it was made of.
  pub create_then_read :
      (written : Bool) (new : NewGuard) (dir after : Dir)
      → create host written new dir ≡ (ok tt, after)
      → (slot : Option ℕ) × (read host new.lease_id after
          ≡ ok (some (record { lease_id = new.lease_id; payload = new_payload new slot })))
  create_then_read written new dir after h =
      (subst (Created new dir) h (create-Created written new dir)).0

  -- A guard that is not created leaves the directory as it was.
  pub create_fails :
      (written : Bool) (new : NewGuard) (dir after : Dir) (c : Code)
      → create host written new dir ≡ (err c, after)
      → after ≡ dir
  create_fails written new dir after c h =
      subst (Created new dir) h (create-Created written new dir)
