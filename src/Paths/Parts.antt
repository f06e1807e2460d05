-- ===== src/Paths/Parts.antt =====
-- `_split_relative_path` of paths.py, and the joined text of a resolved path.
use server_fs_mcp.Prelude.{[], ◌∷◌}
use Prim.Native.Char.{Char, code}
use Prim.Native.String
use Prim.Native.String.{[], ◌∷◌}
use text.Mathlib.Text.{starts_with}
use server_fs_mcp.Prelude.{String, ℕ, List, Bool, if◌then◌else◌, false, nat_eq, ◌||◌, ◌==◌, ◌++◌}

-- the errors of the path rules, by class
pub data PathError : Type 0 where
  nul_path absolute_path path_outside_workdir : PathError
  hidden_path_not_allowed denied_path reserved_path : PathError

pub data Checked {ℓ} (A : Type ℓ) : Type ℓ where
  ok : A → Checked A
  err : PathError → Checked A

-- what the code takes from Python: pathlib's `is_absolute`, `str.casefold` and `fnmatch.fnmatchcase`
pub record Host : Type 0 where
  pub is_absolute : String → Bool
  pub casefold : String → String
  pub fnmatchcase : String → String → Bool

-- whether a code point stands in a text
unfoldable pub contains : ℕ → String → Bool
contains n [] = false
contains n (c ∷ s) = nat_eq (code c) n || contains n s

abbrev pub first_onto : Char → List String → List String
first_onto c [] = (c ∷ []) ∷ []
first_onto c (s ∷ ss) = (c ∷ s) ∷ ss

-- relative_path.split("/")
unfoldable pub split : String → List String
split [] = "" ∷ []
split (c ∷ s) = let rest = split s in if nat_eq (code c) b'/' then "" ∷ rest else first_onto c rest

-- parts.pop()
unfoldable pub pop : List String → Checked (List String)
pop [] = err path_outside_workdir
pop (p ∷ []) = ok []
pop (p ∷ q ∷ ps) = elim (pop (q ∷ ps)) [ err e ↦ err e | ok left ↦ ok (p ∷ left) ]

-- a segment of the loop
unfoldable pub take_segment : List String → String → Checked (List String)
unfolding pop
take_segment parts seg =
    if seg == "" || seg == "."
    then ok parts
    else if seg == ".."
    then pop parts
    else ok (parts ++ seg ∷ [])

unfoldable pub take_segments : List String → List String → Checked (List String)
unfolding take_segment
take_segments parts [] = ok parts
take_segments parts (seg ∷ segs) = elim (take_segment parts seg) [
  | err e ↦ err e
  | ok left ↦ take_segments left segs
]

module _ (host : Host) where
  unfoldable pub split_relative_path : String → Checked (List String)
  unfolding split take_segments contains
  split_relative_path path =
      if contains 0 path
      then err nul_path
      else if host.is_absolute path || starts_with path "/"
      then err absolute_path
      else if starts_with path "~"
      then err absolute_path
      else take_segments [] (split path)

-- "/".join(parts), after a first part
unfoldable pub join_from : String → List String → String
join_from p [] = p
join_from p (q ∷ ps) = String.◌++◌ p (String.◌++◌ "/" (join_from q ps))

-- `ResolvedPath.rel_path`
unfoldable pub join : List String → String
unfolding join_from
join [] = ""
join (p ∷ ps) = join_from p ps
