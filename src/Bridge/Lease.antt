-- ===== src/Bridge/Lease.antt =====
-- lease_identity.py of the Bridge: the keys of writer leases. `none` is LeaseIdentityError.
use server_fs_mcp.Prelude.{any_code}
pub mod Artifacts
pub mod Names
pub mod Distinct
use server_fs_mcp.Prelude.{
  [], ◌∷◌, ◌-◌, ◌*◌, ◌/◌, ℕ, String, Option, Bool, if◌then◌else◌, some, false, leb, ◌==◌, none,
  ◌||◌, ◌&&◌, nat_eq, List, suc, zero,
}
use Prim.Native.String
use Prim.Native.Char.{code}

abbrev pub max_workdir_slots : ℕ
max_workdir_slots = 16

-- _UNSAFE_LEASE_CHARS
abbrev pub is_unsafe : ℕ → Bool
is_unsafe n = leb n 31 || nat_eq n 127 || nat_eq n b'/' || nat_eq n b'\\'

abbrev nth : ℕ → List String → String
nth n [] = ""
nth zero (x ∷ xs) = x
nth (suc n) (x ∷ xs) = nth n xs

abbrev pub digit : ℕ → String
digit n = nth n ("0" ∷ "1" ∷ "2" ∷ "3" ∷ "4" ∷ "5" ∷ "6" ∷ "7" ∷ "8" ∷ "9" ∷ [])

-- f"{slot:02d}", for numbers below 100
unfoldable pub two_digits : ℕ → String
two_digits slot = String.◌++◌ (digit (slot / 10)) (digit (slot - 10 * (slot / 10)))

unfoldable pub slot_lease_id : ℕ → Option String
unfolding two_digits
slot_lease_id slot =
    if leb 1 slot && leb slot max_workdir_slots
    then some (String.◌++◌ "slot:" (two_digits slot))
    else none

unfoldable pub alias_lease_id : String → Option String
unfolding any_code
alias_lease_id alias =
    if alias == ""
    then none
    else if any_code (nat_eq b':') alias
    then none
    else if any_code is_unsafe alias
    then none
    else some (String.◌++◌ "alias:" alias)

-- `WorkdirAgentPolicy.lease_id`
unfoldable pub lease_id : Option ℕ → String → Option String
unfolding slot_lease_id alias_lease_id
lease_id none alias = alias_lease_id alias
lease_id (some slot) alias = slot_lease_id slot
