-- ===== src/Tests/Paths.antt =====
-- Paths through the rules of paths.py, on a host whose absolute paths are none and whose globs match
-- literally.
use text.Mathlib.Text.{starts_with}
use server_fs_mcp.Prelude.{[], ◌∷◌, All, true, String, ◌≡◌, false, ◌==◌, some, refl}
use server_fs_mcp.Paths.Parts.{
  Host, split_relative_path, join, contains, ok, err, path_outside_workdir, absolute_path, split,
}
use server_fs_mcp.Paths.Policy.{
  DenyPolicy, ResolvedPath, resolve_workdir_path, is_denied, is_reserved_path, denied_by,
  is_hidden_component, matches_glob,
}
use server_fs_mcp.Paths.Safe.{IsName}
use server_fs_mcp.Paths.Depth.{depth_of, descend, split_relative_path-depth}
use server_fs_mcp.Paths.Again.{IsAdmitted, resolved_parts, resolve_again}
use server_fs_mcp.Paths.Reserved.{reserved-is_denied}

abbrev host : Host
host = record {
  is_absolute = λ s. starts_with s "/";
  casefold = λ s. s;
  fnmatchcase = λ s g. s == g;
}

abbrev policy : DenyPolicy
policy = record {
  extra_globs = "private/**" ∷ [];
  default_deny_enabled = true;
  case_insensitive = true;
}

abbrev notes : ResolvedPath host String
notes = record {
  workdir = "main";
  rel_parts = "docs" ∷ "notes.md" ∷ [];
  allow_hidden = false;
  deny_policy = policy;
}

notes_split : split_relative_path host "src/../docs//./notes.md" ≡ ok ("docs" ∷ "notes.md" ∷ [])
unfolding split_relative_path
notes_split = refl

notes_resolved :
    resolve_workdir_path host "main" "src/../docs//./notes.md" false (some policy) ≡ ok notes
unfolding resolve_workdir_path is_denied denied_by is_reserved_path is_hidden_component matches_glob
notes_resolved = refl

joined : join ("docs" ∷ "notes.md" ∷ []) ≡ "docs/notes.md"
unfolding join
joined = refl

escaping : split_relative_path host "docs/../../etc" ≡ err path_outside_workdir
unfolding split_relative_path
escaping = refl

private_denied : is_denied host policy ("a" ∷ "private" ∷ "b" ∷ []) ≡ true
unfolding is_denied denied_by is_reserved_path matches_glob
private_denied = refl

-- a path that starts with "~" is refused, and a longer spelling of it is not
home_refused : split_relative_path host "~x" ≡ err absolute_path
unfolding split_relative_path
home_refused = refl

home_spelled : split_relative_path host "./~x" ≡ ok ("~x" ∷ [])
unfolding split_relative_path
home_spelled = refl

split_relative_path-depth_example :
    depth_of (split_relative_path host "src/../docs") ≡ descend 0 (split "src/../docs")
unfolding contains
split_relative_path-depth_example = split_relative_path-depth host "src/../docs" refl refl refl refl

resolved_parts_example :
    All IsName notes.rel_parts
    × IsAdmitted host "main" false policy (split_relative_path host "src/../docs//./notes.md") notes
resolved_parts_example =
    resolved_parts host "main" "src/../docs//./notes.md" false policy notes_resolved

resolve_again_example :
    resolve_workdir_path host "main" (join notes.rel_parts) false (some policy) ≡ ok notes
unfolding join
resolve_again_example =
    resolve_again host "main" "src/../docs//./notes.md" false policy notes_resolved refl refl

reserved-is_denied_example : is_denied host policy ("docs" ∷ ".serverfs-disabled" ∷ []) ≡ true
unfolding is_reserved_path
reserved-is_denied_example =
    reserved-is_denied host policy ("docs" ∷ ".serverfs-disabled" ∷ []) (λ c h. h) refl
