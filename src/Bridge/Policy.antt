-- ===== src/Bridge/Policy.antt =====
-- policy.py: the policies of workdirs, their registry, and who may run an agent where.
-- The checks of types and formats that the configuration runs are left out.
use server_fs_mcp.Prelude.{any_code}
pub mod Guards
pub mod Registry
use server_fs_mcp.Bridge.Errors
use server_fs_mcp.Prelude.{
  [], ◌∷◌, String, Option, List, ℕ, Bool, if◌then◌else◌, ◌==◌, some, map, leb, false, true, none,
  ◌&&◌, not, nat_eq, ◌++◌, ◌||◌, any,
}
use Prim.Native.Char.{Char, code}
use server_fs_mcp.Bridge.Lease.{lease_id}
use server_fs_mcp.Bridge.Errors.{Result}
use server_fs_mcp.Sql.{exists, select_one, select_all}

pub data AgentMode : Type 0 where
  disabled review_mode workspace_write_mode : AgentMode

pub data AgentProfile : Type 0 where
  review workspace_write : AgentProfile

-- AgentProfile(profile)
unfoldable pub profile_of : String → Option AgentProfile
profile_of text =
    if text == "review"
    then some review
    else if text == "workspace-write"
    then some workspace_write
    else none

pub record WorkdirAgentPolicy : Type 0 where
  pub slot : Option ℕ
  pub alias : String
  pub host_path : String
  pub mode : AgentMode
  pub runtimes : List String
  pub read_only : Bool

-- what the code takes from pathlib: a virtual path is absolute or has parts, a host path resolves
-- where it exists, is joined with parts, lies in another one, or is a directory
pub record HostPaths : Type 0 where
  pub is_absolute : String → Bool
  pub parts : String → List String
  pub resolve : String → Option String
  pub joined : String → List String → String
  pub is_relative_to : String → String → Bool
  pub is_dir : String → Bool

pub data RegistryError : Type 0 where
  duplicate_alias duplicate_lease invalid_lease : RegistryError

pub data Built {ℓ} (A : Type ℓ) : Type ℓ where
  ok : A → Built A
  err : RegistryError → Built A

-- the dictionaries of a registry, in the order of insertion
pub record PolicyRegistry : Type 0 where
  pub by_alias : List (String × WorkdirAgentPolicy)
  pub by_lease : List (String × WorkdirAgentPolicy)

abbrev pub keyed : String → String × WorkdirAgentPolicy → Bool
keyed k (l, p) = l == k

abbrev pub add_leased : Option String → WorkdirAgentPolicy → PolicyRegistry → Built PolicyRegistry
add_leased none p r = err invalid_lease
add_leased (some lease) p r =
    if exists (keyed lease) r.by_lease
    then err duplicate_lease
    else ok (record {
      by_alias = r.by_alias ++ (p.alias, p) ∷ [];
      by_lease = r.by_lease ++ (lease, p) ∷ [];
    })

-- a policy of the loop of `__init__`
unfoldable pub add_policy : WorkdirAgentPolicy → PolicyRegistry → Built PolicyRegistry
unfolding lease_id
add_policy p r =
    if exists (keyed p.alias) r.by_alias
    then err duplicate_alias
    else add_leased (lease_id p.slot p.alias) p r

unfoldable pub add_policies : List WorkdirAgentPolicy → PolicyRegistry → Built PolicyRegistry
unfolding add_policy
add_policies [] r = ok r
add_policies (p ∷ ps) r = elim (add_policy p r) [ err e ↦ err e | ok s ↦ add_policies ps s ]

unfoldable pub registry : List WorkdirAgentPolicy → Built PolicyRegistry
unfolding add_policies
registry ps = add_policies ps (record { by_alias = []; by_lease = [] })

unfoldable pub get : String → PolicyRegistry → Result WorkdirAgentPolicy
get alias r = elim (select_one (keyed alias) r.by_alias) [
  | none ↦ Errors.err Errors.workdir_not_found
  | some (_, p) ↦ Errors.ok p
]

unfoldable pub lease_ids : PolicyRegistry → List String
lease_ids r = map (λ (e : String × WorkdirAgentPolicy). e.0) r.by_lease

abbrev pub is_letter : ℕ → Bool
is_letter n = leb 65 n && leb n 90 || leb 97 n && leb n 122

-- _DRIVE_PREFIX_RE
unfoldable pub has_drive_prefix : String → Bool
has_drive_prefix String.[] = false
has_drive_prefix (String.◌∷◌ c String.[]) = false
has_drive_prefix (String.◌∷◌ c (String.◌∷◌ d s)) = is_letter (code c) && nat_eq (code d) b':'

-- relative_cwd or "."
abbrev pub or_here : String → String
or_here s = if s == "" then "." else s

abbrev pub writes : AgentProfile → Bool
writes review = false
writes workspace_write = true

abbrev pub may_write : AgentMode → Bool
may_write workspace_write_mode = true
may_write _ = false

abbrev pub is_disabled : AgentMode → Bool
is_disabled disabled = true
is_disabled _ = false

module _ (host : HostPaths) where
  abbrev pub confine : String → Option String → Result String
  confine root none = Errors.err Errors.workdir_path_not_found
  confine root (some candidate) =
      if not (host.is_relative_to root candidate)
      then Errors.err Errors.invalid_workdir_path
      else if not (host.is_dir candidate)
      then Errors.err Errors.invalid_workdir_path
      else Errors.ok candidate

  abbrev pub enter : List String → Option String → Result String
  enter parts none = Errors.err Errors.workdir_path_not_found
  enter parts (some root) =
      confine root
        (host.resolve (host.joined root (select_all (λ p. not (p == "" || p == ".")) parts)))

  unfoldable pub resolve_relative_cwd : String → String → Result String
  unfolding any_code has_drive_prefix
  resolve_relative_cwd root cwd =
      if any_code (nat_eq 0) cwd
      then Errors.err Errors.invalid_workdir_path
      else if any_code (nat_eq b'\\') cwd
      then Errors.err Errors.invalid_workdir_path
      else if has_drive_prefix cwd
      then Errors.err Errors.invalid_workdir_path
      else if host.is_absolute (or_here cwd)
      then Errors.err Errors.invalid_workdir_path
      else if any (λ p. p == "..") (host.parts (or_here cwd))
      then Errors.err Errors.invalid_workdir_path
      else enter (host.parts (or_here cwd)) (host.resolve root)

  abbrev pub admit :
      WorkdirAgentPolicy → String → AgentProfile → String → Result (WorkdirAgentPolicy × String)
  admit p runtime requested cwd =
      if is_disabled p.mode
      then Errors.err Errors.agent_disabled
      else if not (any (λ r. runtime == r) p.runtimes)
      then Errors.err Errors.runtime_not_allowed
      else if writes requested && not (may_write p.mode)
      then Errors.err Errors.profile_not_allowed
      else if writes requested && p.read_only
      then Errors.err Errors.profile_not_allowed
      else elim (resolve_relative_cwd p.host_path cwd) [
        | Errors.err e ↦ Errors.err e
        | Errors.ok path ↦ Errors.ok (p, path)
      ]

  abbrev pub admit_profile :
      WorkdirAgentPolicy
      → String
      → Option AgentProfile
      → String
      → Result (WorkdirAgentPolicy × String)
  admit_profile p runtime none cwd = Errors.err Errors.profile_not_allowed
  admit_profile p runtime (some requested) cwd = admit p runtime requested cwd

  unfoldable pub authorize :
      String → String → String → String → PolicyRegistry → Result (WorkdirAgentPolicy × String)
  unfolding resolve_relative_cwd get profile_of
  authorize workdir runtime profile cwd r = elim (get workdir r) [
    | Errors.err e ↦ Errors.err e
    | Errors.ok p ↦ admit_profile p runtime (profile_of profile) cwd
  ]
