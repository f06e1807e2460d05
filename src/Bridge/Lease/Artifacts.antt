-- ===== src/Bridge/Lease/Artifacts.antt =====
-- lease_identity.py of the Bridge: which texts are lease ids, and the names of their files. `none`
-- is LeaseIdentityError; in `is_guard_artifact_name` it is the ValueError of `int`.
use server_fs_mcp.Prelude.{all_chars, any_code, text_drop, text_length, text_take}
use mathlib.Core.Option
use Prim.Native.String
use Prim.Native.Char.{Char, code}
use text.Mathlib.Text.{starts_with}
use server_fs_mcp.Prelude.{
  String, ℕ, Bool, leb, Option, ◌*◌, ◌||◌, none, ◌+◌, ◌&&◌, if◌then◌else◌, some, nat_eq, ◌==◌, ◌-◌,
  ltb, not, false,
}
use server_fs_mcp.Bridge.Lease.{two_digits, max_workdir_slots, is_unsafe}

abbrev pub max_lease_id_length : ℕ
max_lease_id_length = 256

abbrev pub artifact_hash_length : ℕ
artifact_hash_length = 40

-- [0-9]
abbrev pub is_digit : Char → Bool
is_digit c = leb b'0' (code c) && leb (code c) b'9'

-- ([0-9]{2})$, where `$` is also met before a last newline
unfoldable pub match_group : String → Option String
match_group String.[] = none
match_group (String.◌∷◌ c String.[]) = none
match_group (String.◌∷◌ c (String.◌∷◌ d s)) =
    if is_digit c && is_digit d && (s == "" || s == "\n")
    then some (String.◌∷◌ c (String.◌∷◌ d String.[]))
    else none

-- _SLOT_LEASE_RE.match(lease_id), by its group
unfoldable pub match_slot : String → Option String
unfolding match_group text_drop
match_slot lease_id =
    if starts_with lease_id "slot:" then match_group (text_drop 5 lease_id) else none

-- `int` of a text of decimal digits
unfoldable pub int_from : ℕ → String → ℕ
int_from n String.[] = n
int_from n (String.◌∷◌ c s) = int_from (10 * n + (code c - b'0')) s

abbrev pub is_slot : ℕ → Bool
is_slot n = leb 1 n && leb n max_workdir_slots

unfoldable pub validate_lease_id : String → Option String
unfolding text_length any_code match_slot int_from
validate_lease_id lease_id =
    if lease_id == ""
    then none
    else if ltb max_lease_id_length (text_length lease_id)
    then none
    else if any_code is_unsafe lease_id
    then none
    else if not (starts_with lease_id "slot:" || starts_with lease_id "alias:")
    then none
    else if starts_with lease_id "slot:"
    then elim (match_slot lease_id) [
      | none ↦ none
      | some group ↦ if not (is_slot (int_from 0 group)) then none else some lease_id
    ]
    else if nat_eq (text_length lease_id) 6
    then none
    else some lease_id

unfoldable pub slot_of : String → Option (Option ℕ)
unfolding validate_lease_id match_slot int_from
slot_of lease_id = elim (validate_lease_id lease_id) [
  | none ↦ none
  | some v ↦ some (Option.map (int_from 0) (match_slot lease_id))
]

unfoldable pub describe : String → Option String
unfolding slot_of two_digits text_drop
describe lease_id = elim (slot_of lease_id) [
  | none ↦ none
  | some (some slot) ↦ some (String.◌++◌ "workdir slot " (two_digits slot))
  | some none ↦ some (
      String.◌++◌ "workdir "
        (if starts_with lease_id "alias:" then text_drop 6 lease_id else lease_id))
]

-- character in "0123456789abcdef"
abbrev pub is_hex : Char → Bool
is_hex c = is_digit c || leb b'a' (code c) && leb (code c) b'f'

-- hashlib.sha256(s.encode("utf-8")).hexdigest(), `str.isdigit`, and `int` of a text
pub record Host : Type 0 where
  pub sha256_hex : String → String
  pub isdigit : String → Bool
  pub int_of : String → Option ℕ

module _ (host : Host) where
  open host use {sha256_hex, isdigit, int_of}

  unfoldable pub artifact_stem : String → Option String
  unfolding validate_lease_id match_slot text_take
  artifact_stem lease_id = elim (validate_lease_id lease_id) [
    | none ↦ none
    | some v ↦ elim (match_slot v) [
      | some group ↦ some group
      | none ↦ some (text_take artifact_hash_length (sha256_hex lease_id))
    ]
  ]

  unfoldable pub lock_artifact_name : String → Option String
  unfolding artifact_stem
  lock_artifact_name lease_id =
      Option.map (λ stem. String.◌++◌ stem ".lock") (artifact_stem lease_id)

  unfoldable pub guard_artifact_name : String → Option String
  unfolding artifact_stem
  guard_artifact_name lease_id = artifact_stem lease_id

  unfoldable pub is_guard_artifact_name : String → Option Bool
  unfolding text_length all_chars
  is_guard_artifact_name name =
      if nat_eq (text_length name) 2
      then (if isdigit name then Option.map is_slot (int_of name) else some false)
      else if not (nat_eq (text_length name) artifact_hash_length)
      then some false
      else some (all_chars is_hex name)
