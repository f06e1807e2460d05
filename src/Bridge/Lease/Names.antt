-- ===== src/Bridge/Lease/Names.antt =====
-- The shapes of lease artifact names, by the kind of the lease.
use server_fs_mcp.Prelude.{
  all_chars, any_code, any_code-append, text_drop, text_drop-append, text_length, text_take,
}
use server_fs_mcp.Prelude.{
  String, ◌≡◌, Option, Bool, false, ◌⊎◌, some, subst, none, true, sym, arith, Bool-cases, inr, ◌&&◌,
  ◌==◌, inl, ◌||◌, if◌then◌else◌, Option-cases, ap, refl, eq_iff, ◌∙◌,
}
use Prim.Native.String
use Prim.Native.Char.{Char, code}
use text.Mathlib.Text.{starts_with}
use mathlib.Core.Option.{some-injective}
use text.Mathlib.TextEquality.{starts_with_iff}
use server_fs_mcp.Bridge.Lease.{is_unsafe}
use server_fs_mcp.Bridge.Lease.Artifacts.{
  match_group, match_slot, Host, artifact_stem, validate_lease_id, is_digit, artifact_hash_length,
  is_slot, int_from,
}

-- a text of two digits between 1 and 16
abbrev pub IsSlotStem : String → Type 0
IsSlotStem stem =
    (text_length stem ≡ 2) × (all_chars is_digit stem ≡ true) × (is_slot (int_from 0 stem) ≡ true)

two-all :
    (c d : Char) (b : Bool)
    → (is_digit c && is_digit d && b) ≡ true
    → all_chars is_digit (String.◌∷◌ c (String.◌∷◌ d "")) ≡ true
unfolding all_chars
two-all c d b h = ground arith

match_group-all :
    (s group : String)
    → any_code is_unsafe s ≡ false
    → match_group s ≡ some group
    → (s ≡ group) × (text_length group ≡ 2) × (all_chars is_digit group ≡ true)
unfolding match_group any_code text_length all_chars
match_group-all String.[] group safe h = ground arith
match_group-all (String.◌∷◌ c String.[]) group safe h = ground arith
match_group-all (String.◌∷◌ c (String.◌∷◌ d s)) group safe h =
    elim (Bool-cases (is_digit c && is_digit d && (s == "" || s == "\n"))) [
      | inr other ↦ ground (arith, other, h)
      | inl digits ↦ elim (Bool-cases (s == "")) [
        | inr more ↦
            let e : s ≡ "\n" = (eq_iff s "\n").0 (ground arith) in
            let out : (is_unsafe (code c) || (is_unsafe (code d) || true)) ≡ false =
              subst (λ v. any_code is_unsafe (String.◌∷◌ c (String.◌∷◌ d v)) ≡ false) e safe in
            ground (arith, out)
        | inl end ↦
            let g : String.◌∷◌ c (String.◌∷◌ d "") ≡ group =
              some-injective (String.◌∷◌ c (String.◌∷◌ d "")) group (
                subst
                  (λ v. (if v then some (String.◌∷◌ c (String.◌∷◌ d "")) else none) ≡ some group)
                  digits h) in
            (
              ap (λ v. String.◌∷◌ c (String.◌∷◌ d v)) ((eq_iff s "").0 end) ∙ g,
              rw (sym g) refl,
              rw (sym g) (two-all c d (s == "" || s == "\n") digits),
            )
      ]
    ]

match_slot-all :
    (s group : String)
    → any_code is_unsafe s ≡ false
    → match_slot s ≡ some group
    → (s ≡ String.◌++◌ "slot:" group) × (text_length group ≡ 2) × (all_chars is_digit group ≡ true)
unfolding match_slot text_length
match_slot-all s group safe h = elim (Bool-cases (starts_with s "slot:")) [
  | inr other ↦
      ground
        (arith, subst (λ v. (if v then match_group (text_drop 5 s) else none) ≡ some group) other h)
  | inl starts ↦
      let (u, e) = (starts_with_iff s "slot:").0 starts in
      let m : match_group (text_drop 5 s) ≡ some group =
        subst (λ v. (if v then match_group (text_drop 5 s) else none) ≡ some group) starts h in
      let m2 : match_group u ≡ some group =
        subst (λ v. match_group v ≡ some group) (text_drop-append "slot:" u) (rw e m) in
      let (all_of, size, digits) =
        match_group-all u group (any_code-append is_unsafe "slot:" u (rw e safe)) m2 in
      (sym e ∙ ap (String.◌++◌ "slot:") all_of, size, digits)
]

-- what `validate_lease_id` has checked of a text that it returns
pub validate_lease_id-some :
    (lease_id v : String)
    → validate_lease_id lease_id ≡ some v
    → (v ≡ lease_id)
      × (any_code is_unsafe lease_id ≡ false)
      × ((group : String) → match_slot lease_id ≡ some group → is_slot (int_from 0 group) ≡ true)
unfolding validate_lease_id
validate_lease_id-some lease_id v h = elim (Option-cases (match_slot lease_id)) [
  | inl none_ ↦ ground arith
  | inr found ↦ ground arith
]

module _ (host : Host) where
  abbrev pub IsStemOf : String → String → Type 0
  IsStemOf lease_id stem =
      ((lease_id ≡ String.◌++◌ "slot:" stem) × IsSlotStem stem)
      ⊎ (stem ≡ text_take artifact_hash_length (host.sha256_hex lease_id))

  abbrev stem_of : String → Option String → Option String
  stem_of lease_id none = some (text_take artifact_hash_length (host.sha256_hex lease_id))
  stem_of lease_id (some group) = some group

  pub artifact_stem-cases :
      (lease_id stem : String) → artifact_stem host lease_id ≡ some stem → IsStemOf lease_id stem
  unfolding artifact_stem
  artifact_stem-cases lease_id stem h = elim (Option-cases (validate_lease_id lease_id)) [
    | inl e ↦ ground (
      arith,
      subst (λ o. elim o [ none ↦ none | some w ↦ stem_of lease_id (match_slot w) ] ≡ some stem) e
          h,
    )
    | inr (v, e) ↦
        let (same, safe, range) = validate_lease_id-some lease_id v e in
        let k : stem_of lease_id (match_slot lease_id) ≡ some stem =
          subst (λ o. stem_of lease_id (match_slot o) ≡ some stem) same
            (subst
              (λ o. elim o [ none ↦ none | some w ↦ stem_of lease_id (match_slot w) ] ≡ some stem) e
              h) in
        elim (Option-cases (match_slot lease_id)) [
          | inl hashed ↦
              inr (sym (some-injective _ _ (subst (λ o. stem_of lease_id o ≡ some stem) hashed k)))
          | inr (group, found) ↦
              let g : group ≡ stem =
                some-injective _ _ (subst (λ o. stem_of lease_id o ≡ some stem) found k) in
              let (text, size, digits) = match_slot-all lease_id group safe found in
              inl (
                subst (λ t. (lease_id ≡ String.◌++◌ "slot:" t) × IsSlotStem t) g
                  (text, (size, digits, range group found)))
        ]
  ]
