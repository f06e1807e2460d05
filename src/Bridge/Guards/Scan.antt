-- ===== src/Bridge/Guards/Scan.antt =====
-- The scan for guards at a start misses none.
use server_fs_mcp.Prelude.{all_chars, text_length}
use mathlib.Core.List.{Mem, mem-cons_self, mem-cons_of_mem}
use server_fs_mcp.Bridge.Errors.{Result, ok, err, bind, Result-cases}
use server_fs_mcp.Bridge.Guards.Manager.{insert_entry, sorted, list_from, list}
use server_fs_mcp.Bridge.Lease.Artifacts.{Host, is_guard_artifact_name, is_hex, is_digit, int_from}
use server_fs_mcp.Sql.{exists}
use server_fs_mcp.Bridge.Guards.Files.{Entry, Dir, ActiveGuard, read_at, is_named, read}
use server_fs_mcp.Prelude.{
  Bool, List, ◌≡◌, ◌||◌, ◌∷◌, arith, some, [], false, refl, ◌⊎◌, true, none, Option-cases, inl, inr,
  String, Bool-cases, ◌==◌, eq_iff, ◌∙◌,
}
use server_fs_mcp.Bridge.Lease.Distinct.{guard_artifact_name-listed}
use server_fs_mcp.Bridge.Guards.Held.{read-name}

exists-insert_entry :
    (p : Entry → Bool) (e : Entry) (es : List Entry)
    → exists p (insert_entry e es) ≡ (p e || exists p es)
unfolding insert_entry exists
exists-insert_entry p e [] = refl
exists-insert_entry p e (x ∷ xs) = ground (arith, exists-insert_entry p e xs)

exists-sorted : (p : Entry → Bool) (es : List Entry) → exists p (sorted es) ≡ exists p es
unfolding sorted exists
exists-sorted p [] = refl
exists-sorted p (e ∷ es) = ground (arith, exists-insert_entry p e (sorted es), exists-sorted p es)

bind_ok :
    (r : Result (List ActiveGuard)) (gs : List ActiveGuard)
    → bind r (λ guards. ok guards) ≡ ok gs
    → r ≡ ok gs
bind_ok (ok a) gs h = h
bind_ok (err c) gs h = h

module _ (host : Host) where
  -- one step of the loop, by what it finds
  list_from-step :
      (e : Entry) (es : List Entry) (dir : Dir) (gs : List ActiveGuard)
      → list_from host (e ∷ es) dir ≡ ok gs
      → ((is_guard_artifact_name host e.name ≡ some false) × (list_from host es dir ≡ ok gs))
        ⊎ ((is_guard_artifact_name host e.name ≡ some true)
            × (read_at host e.name none dir ≡ ok none)
            × (list_from host es dir ≡ ok gs))
        ⊎ ((g : ActiveGuard) × (rest : List ActiveGuard) × (is_guard_artifact_name host e.name
              ≡ some true)
            × (read_at host e.name none dir ≡ ok (some g))
            × (list_from host es dir ≡ ok rest)
            × (gs ≡ g ∷ rest))
  unfolding list_from
  list_from-step e es dir gs h = elim (Option-cases (is_guard_artifact_name host e.name)) [
    | inl e1 ↦ cc (rw e1 at h)
    | inr (false, e1) ↦ inl (e1, rw e1 at h)
    | inr (true, e1) ↦ elim (Result-cases (read_at host e.name none dir)) [
      | inr (c, e2) ↦ cc (rw (e1, e2) at h)
      | inl (none, e2) ↦ inr (inl (e1, e2, bind_ok (list_from host es dir) gs (rw (e1, e2) at h)))
      | inl (some g, e2) ↦ elim (Result-cases (list_from host es dir)) [
        | inr (c, e3) ↦ cc (rw (e1, e2, e3) at h)
        | inl (rest, e3) ↦ inr (inr (g, rest, e1, e2, e3, cc (rw (e1, e2, e3) at h)))
      ]
    ]
  ]

  list_from-Mem :
      (es : List Entry) (dir : Dir) (gs : List ActiveGuard)
      → list_from host es dir ≡ ok gs
      → (name : String) (g : ActiveGuard) → exists (is_named name) es ≡ true
      → is_guard_artifact_name host name ≡ some true
      → read_at host name none dir ≡ ok (some g)
      → Mem g gs
  unfolding exists
  list_from-Mem [] dir gs h name g here taken found = cc here
  list_from-Mem (e ∷ es) dir gs h name g here taken found = elim (Bool-cases (e.name == name)) [
    | inl at_ ↦
        let same : e.name ≡ name = (eq_iff e.name name).0 at_ in
        elim (list_from-step e es dir gs h) [
          | inl (skipped, _) ↦ cc (rw same at skipped)
          | inr (inl (_, missing, _)) ↦ cc (rw same at missing)
          | inr (inr (g2, rest, _, read_, _, e6)) ↦
              let one : g ≡ g2 = cc (rw same at read_) in rw (e6, one) mem-cons_self
        ]
    | inr past ↦
        let later : exists (is_named name) es ≡ true = ground (arith) in
        elim (list_from-step e es dir gs h) [
          | inl (_, k) ↦ list_from-Mem es dir gs k name g later taken found
          | inr (inl (_, _, k)) ↦ list_from-Mem es dir gs k name g later taken found
          | inr (inr (g2, rest, _, _, k, e6)) ↦
              rw e6 (mem-cons_of_mem g2 (list_from-Mem es dir rest k name g later taken found))
        ]
  ]

  -- Where digests and digits are as Python has them, a start that scans the guards without an error
  -- finds every guard that is read under its lease.
  pub list_finds_guard :
      ((s : String) → text_length (host.sha256_hex s) ≡ 64)
      → ((s : String) → all_chars is_hex (host.sha256_hex s) ≡ true)
      → ((s : String)
          → text_length s ≡ 2
          → all_chars is_digit s ≡ true
          → (host.isdigit s ≡ true) × (host.int_of s ≡ some (int_from 0 s)))
      → (lease_id : String) (dir : Dir) (g : ActiveGuard) (gs : List ActiveGuard)
      → read host lease_id dir ≡ ok (some g)
      → list host dir ≡ ok gs
      → Mem g gs
  unfolding list
  list_finds_guard size hex digits lease_id dir g gs h scan =
      let (name, named, here, found, _) = read-name host lease_id dir g h in
      list_from-Mem (sorted dir) dir gs scan name g (exists-sorted (is_named name) dir ∙ here)
        (guard_artifact_name-listed host size hex digits lease_id name named) found
