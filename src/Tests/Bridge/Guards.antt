-- ===== src/Tests/Bridge/Guards.antt =====
-- A guard of a slot in an empty directory.
use server_fs_mcp.Prelude.{all_chars, text_length}
use mathlib.Core.List.{Mem}
use server_fs_mcp.Bridge.Errors
use server_fs_mcp.Prelude.{[], ◌∷◌, String, ◌≡◌, none, some, true, refl}
use server_fs_mcp.Bridge.Lease.Artifacts.{Host, guard_artifact_name, is_digit, is_hex, int_from}
use server_fs_mcp.Bridge.Guards.Manager.{NewGuard, create, list, new_payload}
use server_fs_mcp.Bridge.Guards.Files.{ActiveGuard, Dir, read, holding}
use server_fs_mcp.Bridge.Lease.Distinct.{guard_artifact_name-injective}
use server_fs_mcp.Bridge.Guards.Scan.{list_finds_guard}

-- a digest of 64 zeros for every text, and ASCII digits
abbrev zeros : Host
zeros = record {
  sha256_hex = λ s. "0000000000000000000000000000000000000000000000000000000000000000";
  isdigit = all_chars is_digit;
  int_of = λ s. some (int_from 0 s);
}

abbrev first_guard : NewGuard
first_guard = record {
  lease_id = "slot:03";
  task_id = "a";
  runtime = "fake";
  workdir_alias = "main";
  correlation_id = none;
  now = "t0";
}

abbrev guard_a : ActiveGuard
guard_a = record { lease_id = "slot:03"; payload = new_payload first_guard (some 3) }

abbrev one_guard : Dir
one_guard = record { name = "03"; file = holding guard_a.payload } ∷ []

slot_name : guard_artifact_name zeros "slot:03" ≡ some "03"
unfolding guard_artifact_name
slot_name = refl

alias_name :
    guard_artifact_name zeros "alias:main" ≡ some "0000000000000000000000000000000000000000"
unfolding guard_artifact_name
alias_name = refl

made : create zeros true first_guard [] ≡ (Errors.ok tt, one_guard)
unfolding create
made = refl

read_a : read zeros "slot:03" one_guard ≡ Errors.ok (some guard_a)
unfolding read
read_a = refl

listed : list zeros one_guard ≡ Errors.ok (guard_a ∷ [])
unfolding list
listed = refl

hex_length : (s : String) → text_length (zeros.sha256_hex s) ≡ 64
unfolding text_length
hex_length s = refl

all_hex : (s : String) → all_chars is_hex (zeros.sha256_hex s) ≡ true
unfolding all_chars
all_hex s = refl

ascii :
    (s : String)
    → text_length s ≡ 2
    → all_chars is_digit s ≡ true
    → (zeros.isdigit s ≡ true) × (zeros.int_of s ≡ some (int_from 0 s))
ascii s size digits = (digits, refl)

list_finds_guard_example : Mem guard_a (guard_a ∷ [])
list_finds_guard_example =
    list_finds_guard zeros hex_length all_hex ascii "slot:03" one_guard guard_a (guard_a ∷ [])
      read_a listed

guard_artifact_name-injective_example : ◌≡◌ {A = String} "slot:03" "slot:03"
guard_artifact_name-injective_example =
    guard_artifact_name-injective zeros hex_length "slot:03" "slot:03" "03" (λ same. refl) slot_name
      slot_name
