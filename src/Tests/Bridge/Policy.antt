-- ===== src/Tests/Bridge/Policy.antt =====
-- Two workdirs, by a slot and by an alias, and who may run an agent in them.
use server_fs_mcp.Prelude.{any_code}
use server_fs_mcp.Prelude.{[], ◌∷◌, some, none, true, false, ◌≡◌, refl}
use text.Mathlib.Text.{starts_with}
use server_fs_mcp.Bridge.Errors
use server_fs_mcp.Bridge.Policy.{
  WorkdirAgentPolicy, PolicyRegistry, registry, HostPaths, authorize, add_policies, get,
  workspace_write_mode, review_mode, add_policy, profile_of, resolve_relative_cwd, has_drive_prefix,
  ok, err, duplicate_lease,
}
use server_fs_mcp.Bridge.Policy.Registry.{IsRegistry, registry-IsRegistry}
use server_fs_mcp.Bridge.Policy.Guards.{IsAuthorized, authorize-IsAuthorized}
use server_fs_mcp.Sql.{select_one, exists, select_all}
use server_fs_mcp.Bridge.Lease.{lease_id, slot_lease_id, alias_lease_id, two_digits}

abbrev pub main_dir : WorkdirAgentPolicy
main_dir = record {
  slot = some 3;
  alias = "main";
  host_path = "/srv/main";
  mode = workspace_write_mode;
  runtimes = "codex" ∷ [];
  read_only = false;
}

abbrev pub docs_dir : WorkdirAgentPolicy
docs_dir = record {
  slot = none;
  alias = "docs";
  host_path = "/srv/docs";
  mode = review_mode;
  runtimes = "codex" ∷ "claude" ∷ [];
  read_only = true;
}

abbrev pub two : PolicyRegistry
two = record {
  by_alias = ("main", main_dir) ∷ ("docs", docs_dir) ∷ [];
  by_lease = ("slot:03", main_dir) ∷ ("alias:docs", docs_dir) ∷ [];
}

two_built : registry (main_dir ∷ docs_dir ∷ []) ≡ ok two
unfolding registry add_policies add_policy lease_id slot_lease_id alias_lease_id two_digits any_code
    exists
two_built = refl

same_slot : registry (main_dir ∷ record docs_dir { slot = some 3 } ∷ []) ≡ err duplicate_lease
unfolding registry add_policies add_policy lease_id slot_lease_id two_digits exists
same_slot = refl

registry-IsRegistry_example : IsRegistry two
registry-IsRegistry_example = registry-IsRegistry (main_dir ∷ docs_dir ∷ []) two_built

-- a host on which every path exists, is inside every other, and is a directory
abbrev pub host : HostPaths
host = record {
  is_absolute = λ s. starts_with s "/";
  parts = λ s. s ∷ [];
  resolve = λ s. some s;
  joined = λ root ps. root;
  is_relative_to = λ root s. true;
  is_dir = λ s. true;
}

main_allowed :
    authorize host "main" "codex" "workspace-write" "" two ≡ Errors.ok (main_dir, "/srv/main")
unfolding authorize get select_one profile_of resolve_relative_cwd any_code has_drive_prefix
    select_all
main_allowed = refl

docs_write_refused :
    authorize host "docs" "claude" "workspace-write" "" two ≡ Errors.err Errors.profile_not_allowed
unfolding authorize get select_one profile_of
docs_write_refused = refl

authorize-IsAuthorized_example :
    IsAuthorized host "main" "codex" "workspace-write" two (main_dir, "/srv/main")
authorize-IsAuthorized_example =
    authorize-IsAuthorized host "main" "codex" "workspace-write" "" two main_allowed
