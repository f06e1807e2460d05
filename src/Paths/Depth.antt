-- ===== src/Paths/Depth.antt =====
-- The loop of `_split_relative_path` against a walk that counts how far below the root it stands.
use text.Mathlib.Text.{starts_with}
use server_fs_mcp.Prelude.{
  [], ◌∷◌, ℕ, List, String, Option, none, if◌then◌else◌, some, ◌≡◌, length, suc, ◌==◌, false, ◌||◌,
  zero, refl, ap, Bool-cases, subst, inl, inr, arith, length-append,
}
use server_fs_mcp.Paths.Parts.{
  Checked, pop, take_segments, split_relative_path, Host, ok, take_segment, contains, err, split,
}

-- how many parts a result has
abbrev pub depth_of : Checked (List String) → Option ℕ
depth_of (ok parts) = some (length parts)
depth_of (err e) = none

-- a step to the parent; the root has none
abbrev pub up : ℕ → Option ℕ
up zero = none
up (suc n) = some n

abbrev pub descend_by : ℕ → String → Option ℕ
descend_by n seg =
    if seg == "" || seg == "." then some n else if seg == ".." then up n else some (suc n)

-- a walk along segments from a depth
unfoldable pub descend : ℕ → List String → Option ℕ
descend n [] = some n
descend n (seg ∷ segs) = elim (descend_by n seg) [ none ↦ none | some m ↦ descend m segs ]

pushed-depth :
    (p : String) (m : Checked (List String)) {n : ℕ}
    → depth_of m ≡ some n
    → depth_of (elim m [ err e ↦ err e | ok left ↦ ok (p ∷ left) ]) ≡ some (suc n)
pushed-depth p (ok left) h = ap (λ o. elim o [ none ↦ none | some n ↦ some (suc n) ]) h
pushed-depth p (err e) h = cc h

pop_lem : (parts : List String) → depth_of (pop parts) ≡ up (length parts)
unfolding pop
pop_lem [] = refl
pop_lem (p ∷ []) = refl
pop_lem (p ∷ q ∷ ps) = pushed-depth p (pop (q ∷ ps)) (pop_lem (q ∷ ps))

take_segment-depth :
    (parts : List String) (seg : String)
    → depth_of (take_segment parts seg) ≡ descend_by (length parts) seg
unfolding take_segment
take_segment-depth parts seg = elim (Bool-cases (seg == "" || seg == ".")) [
  | inl here ↦ rw here refl
  | inr other ↦ elim (Bool-cases (seg == "..")) [
    | inl parent ↦ rw (other, parent) (pop_lem parts)
    | inr name ↦ rw (other, name) (ap some (ground (arith, length-append parts (seg ∷ []))))
  ]
]

then-depth :
    (segs : List String)
    → ((parts : List String) → depth_of (take_segments parts segs) ≡ descend (length parts) segs)
    → (m : Checked (List String))
    → depth_of (elim m [ err e ↦ err e | ok left ↦ take_segments left segs ])
      ≡ elim (depth_of m) [ none ↦ none | some n ↦ descend n segs ]
then-depth segs h (ok left) = h left
then-depth segs h (err e) = refl

take_segments-depth :
    (parts segs : List String) → depth_of (take_segments parts segs) ≡ descend (length parts) segs
unfolding take_segments take_segment descend
take_segments-depth parts [] = refl
take_segments-depth parts (seg ∷ segs) =
    subst
      (λ o.
        depth_of
          (elim (take_segment parts seg) [ err e ↦ err e | ok left ↦ take_segments left segs ])
        ≡ elim o [ none ↦ none | some n ↦ descend n segs ])
      (take_segment-depth parts seg)
      (then-depth segs (λ left. take_segments-depth left segs) (take_segment parts seg))

-- A path without a NUL that neither is absolute nor starts with "/" or "~" is accepted just when a
-- walk along its segments never leaves the root, and has as many parts as the walk ends deep.
pub split_relative_path-depth :
    (host : Host) (path : String)
    → contains 0 path ≡ false
    → host.is_absolute path ≡ false
    → starts_with path "/" ≡ false
    → starts_with path "~" ≡ false
    → depth_of (split_relative_path host path) ≡ descend 0 (split path)
unfolding split_relative_path
split_relative_path-depth host path nul absolute slash tilde =
    rw (nul, absolute, slash, tilde) (take_segments-depth [] (split path))
