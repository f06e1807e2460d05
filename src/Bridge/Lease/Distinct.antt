-- ===== src/Bridge/Lease/Distinct.antt =====
-- Guard files of distinct leases, and the scan of the guard directory.
use server_fs_mcp.Prelude.{all_chars, all_chars-take, text_length, text_length-take, text_take}
use server_fs_mcp.Bridge.Lease.Artifacts.{
  Host, artifact_hash_length, guard_artifact_name, is_guard_artifact_name, is_hex, is_digit,
  int_from,
}
use server_fs_mcp.Prelude.{String, ◌≡◌, true, arith, some, inl, refl, ◌∙◌, sym, inr, ap, subst}
use server_fs_mcp.Bridge.Lease.Names.{artifact_stem-cases}

module _ (host : Host) (hex_length : (s : String) → text_length (host.sha256_hex s) ≡ 64) where
  hashed_length :
      (lease_id : String)
      → text_length (text_take artifact_hash_length (host.sha256_hex lease_id)) ≡ 40
  hashed_length lease_id =
      text_length-take 40 (host.sha256_hex lease_id) (omega (arith, hex_length lease_id))

  -- Two lease ids whose hashes, where they are taken, do not collide share a guard file only where
  -- they are one id.
  pub guard_artifact_name-injective :
      (a b name : String)
      → (text_take artifact_hash_length (host.sha256_hex a)
            ≡ text_take artifact_hash_length (host.sha256_hex b)
          → a ≡ b)
      → guard_artifact_name host a ≡ some name
      → guard_artifact_name host b ≡ some name
      → a ≡ b
  unfolding guard_artifact_name
  guard_artifact_name-injective a b name apart ha hb = elim (artifact_stem-cases host a name ha) [
    | inl (x, short) ↦ elim (artifact_stem-cases host b name hb) [
      | inl (y, _) ↦ x ∙ sym y
      | inr y ↦ absurd (omega (arith, short.0, ap text_length y, hashed_length b))
    ]
    | inr x ↦ elim (artifact_stem-cases host b name hb) [
      | inl (y, short) ↦ absurd (omega (arith, short.0, ap text_length x, hashed_length a))
      | inr y ↦ apart (sym x ∙ y)
    ]
  ]

  -- Where Python reads ASCII digits as digits and a digest is of hexadecimal digits, the scan for
  -- guards takes every name under which a guard is kept.
  pub guard_artifact_name-listed :
      ((s : String) → all_chars is_hex (host.sha256_hex s) ≡ true)
      → ((s : String)
          → text_length s ≡ 2
          → all_chars is_digit s ≡ true
          → (host.isdigit s ≡ true) × (host.int_of s ≡ some (int_from 0 s)))
      → (lease_id name : String) → guard_artifact_name host lease_id ≡ some name
      → is_guard_artifact_name host name ≡ some true
  unfolding guard_artifact_name is_guard_artifact_name
  guard_artifact_name-listed hex digits lease_id name h =
      elim (artifact_stem-cases host lease_id name h) [
        | inl (x, (size, ascii, range)) ↦
            let (digit_text, value) = digits name size ascii in
            rw (size, digit_text, value, range) refl
        | inr x ↦
            let size : text_length name ≡ 40 = ap text_length x ∙ hashed_length lease_id in
            let all_hex : all_chars is_hex name ≡ true =
              subst (λ t. all_chars is_hex t ≡ true) (sym x)
                (all_chars-take is_hex artifact_hash_length (host.sha256_hex lease_id)
                  (hex lease_id)) in
            rw (size, all_hex) refl
      ]
