-- ===== src/Paths/Safe.antt =====
-- What the parts of an accepted path are.
use text.Mathlib.Text.{starts_with}
use Prim.Native.Char.{Char, code}
use server_fs_mcp.Prelude.{
  String, ◌==◌, ◌≡◌, false, List, All, Bool-cases, nat_eq, ◌∷◌, inl, subst, ◌||◌, inr, [],
  All-append, arith, refl,
}
use server_fs_mcp.Paths.Parts.{
  contains, split, Checked, pop, take_segments, split_relative_path, Host, ok, err, take_segment,
  first_onto,
}

-- a name of one entry of a directory: not "", "." or "..", without a slash or a NUL
pub record IsName (s : String) : Type 0 where
  pub filled : (s == "") ≡ false
  pub not_here : (s == ".") ≡ false
  pub not_parent : (s == "..") ≡ false
  pub no_slash : contains b'/' s ≡ false
  pub no_nul : contains 0 s ≡ false

-- a segment of a path
abbrev pub IsSegment : String → Type 0
IsSegment s = (contains b'/' s ≡ false) × (contains 0 s ≡ false)

first_onto-IsSegment :
    (c : Char) (parts : List String)
    → nat_eq (code c) b'/' ≡ false
    → nat_eq (code c) 0 ≡ false
    → All IsSegment parts
    → All IsSegment (first_onto c parts)
unfolding contains
first_onto-IsSegment c [] slash nul h = ((rw slash refl, rw nul refl), tt)
first_onto-IsSegment c (s ∷ ss) slash nul ((no_slash, no_nul), h) =
    ((rw (slash, no_slash) refl, rw (nul, no_nul) refl), h)

split-IsSegment : (s : String) → contains 0 s ≡ false → All IsSegment (split s)
unfolding split contains
split-IsSegment String.[] h = ((refl, refl), tt)
split-IsSegment (String.◌∷◌ c s) h = elim (Bool-cases (nat_eq (code c) b'/')) [
  | inl slash ↦ rw slash ((refl, refl), split-IsSegment s (ground (arith, h)))
  | inr other ↦ rw other (
      first_onto-IsSegment c (split s) other (ground (arith, h))
        (split-IsSegment s (ground (arith, h))))
]

-- a result that, if it is one, consists of names
abbrev AllNames : Checked (List String) → Type 0
AllNames (ok parts) = All IsName parts
AllNames (err e) = Unit

pushed-AllNames :
    (p : String) (m : Checked (List String))
    → IsName p
    → AllNames m
    → AllNames (elim m [ err e ↦ err e | ok left ↦ ok (p ∷ left) ])
pushed-AllNames p (ok left) h k = (h, k)
pushed-AllNames p (err e) h k = tt

pop-AllNames : (parts : List String) → All IsName parts → AllNames (pop parts)
unfolding pop
pop-AllNames [] h = tt
pop-AllNames (p ∷ []) h = tt
pop-AllNames (p ∷ q ∷ ps) (h, k) = pushed-AllNames p (pop (q ∷ ps)) h (pop-AllNames (q ∷ ps) k)

take_segment-AllNames :
    (parts : List String) (seg : String)
    → All IsName parts
    → IsSegment seg
    → AllNames (take_segment parts seg)
unfolding take_segment
take_segment-AllNames parts seg h (no_slash, no_nul) = elim (Bool-cases (seg == "" || seg == ".")) [
  | inl here ↦ rw here h
  | inr other ↦ elim (Bool-cases (seg == "..")) [
    | inl parent ↦ rw (other, parent) (pop-AllNames parts h)
    | inr name ↦
        rw (other, name)
          (All-append IsName parts (seg ∷ []) h (
            record {
              filled = ground (arith, other);
              not_here = ground (arith, other);
              not_parent = name;
              no_slash = no_slash;
              no_nul = no_nul;
            },
            tt,
          ))
  ]
]

then-AllNames :
    (segs : List String)
    → ((parts : List String) → All IsName parts → AllNames (take_segments parts segs))
    → (m : Checked (List String)) → AllNames m
    → AllNames (elim m [ err e ↦ err e | ok left ↦ take_segments left segs ])
then-AllNames segs h (ok left) k = h left k
then-AllNames segs h (err e) k = tt

take_segments-AllNames :
    (parts segs : List String)
    → All IsName parts
    → All IsSegment segs
    → AllNames (take_segments parts segs)
unfolding take_segments take_segment
take_segments-AllNames parts [] h k = h
take_segments-AllNames parts (seg ∷ segs) h (k, ks) =
    then-AllNames segs (λ left g. take_segments-AllNames left segs g ks) (take_segment parts seg)
      (take_segment-AllNames parts seg h k)

split_relative_path-AllNames :
    (host : Host) (path : String) → AllNames (split_relative_path host path)
unfolding split_relative_path
split_relative_path-AllNames host path = elim (Bool-cases (contains 0 path)) [
  | inl nul ↦ rw nul tt
  | inr no_nul ↦ elim (Bool-cases (host.is_absolute path || starts_with path "/")) [
    | inl absolute ↦ rw (no_nul, absolute) tt
    | inr relative ↦ elim (Bool-cases (starts_with path "~")) [
      | inl home ↦ rw (no_nul, relative, home) tt
      | inr plain ↦
          rw (no_nul, relative, plain)
            (take_segments-AllNames [] (split path) tt (split-IsSegment path no_nul))
    ]
  ]
]

-- Every part of a path that is accepted is the name of one entry: not "", "." or "..", and without a
-- slash or a NUL.
pub split_relative_path-IsName :
    (host : Host) (path : String) {parts : List String}
    → split_relative_path host path ≡ ok parts
    → All IsName parts
split_relative_path-IsName host path e = subst AllNames e (split_relative_path-AllNames host path)
