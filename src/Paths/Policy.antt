-- ===== src/Paths/Policy.antt =====
-- The rules on names of paths.py, and `resolve_workdir_path`.
use server_fs_mcp.Prelude.{[], ◌∷◌}
use Prim.Native.String.{[], ◌∷◌}
use text.Mathlib.Text.{starts_with}
use server_fs_mcp.Prelude.{
  String, List, Bool, Option, if◌then◌else◌, ◌&&◌, ◌||◌, any, none, false, not, some, map, true,
  ◌==◌,
}
use server_fs_mcp.Paths.Parts.{
  Host, split_relative_path, Checked, err, ok, reserved_path, hidden_path_not_allowed, denied_path,
}

-- DEFAULT_DENY_BASENAMES, DEFAULT_DENY_GLOBS and DEFAULT_DENY_DIR_NAMES
abbrev pub default_deny_basenames : List String
default_deny_basenames = ".env" ∷ "id_rsa" ∷ "id_dsa" ∷ "id_ecdsa" ∷ "id_ed25519" ∷ []

abbrev pub default_deny_globs : List String
default_deny_globs = ".env" ∷ ".env.*" ∷ "*.env" ∷ "*.pem" ∷ "*.key" ∷ []

abbrev pub default_deny_dir_names : List String
default_deny_dir_names = ".ssh" ∷ ".aws" ∷ ".gnupg" ∷ ".kube" ∷ []

abbrev pub reserved_temp_prefix : String
reserved_temp_prefix = ".serverfs-tmp-"

abbrev pub disabled_sentinel : String
disabled_sentinel = ".serverfs-disabled"

unfoldable pub is_hidden_component : String → Bool
is_hidden_component c = starts_with c "." && not (c == "." || c == "..")

unfoldable pub is_reserved_component : String → Bool
is_reserved_component c = starts_with c reserved_temp_prefix || c == disabled_sentinel

unfoldable pub is_reserved_path : List String → Bool
unfolding is_reserved_component
is_reserved_path parts = any is_reserved_component parts

pub record DenyPolicy : Type 0 where
  pub extra_globs : List String
  pub default_deny_enabled : Bool
  pub case_insensitive : Bool

abbrev pub one_of : List String → String → Bool
one_of names c = any (λ n. c == n) names

-- glob[:-3] where glob.endswith("/**")
unfoldable pub subtree_head : String → Option String
subtree_head [] = none
subtree_head (c ∷ s) =
    let rest = subtree_head s in
    if (c ∷ s) == "/**" then some "" else elim rest [ none ↦ none | some head ↦ some (c ∷ head) ]

-- the last of the parts
unfoldable pub base_of : String → List String → String
base_of p [] = p
base_of p (q ∷ ps) = base_of q ps

module _ (host : Host) where
  open host use {casefold, fnmatchcase}

  abbrev pub folded : DenyPolicy → String → String
  folded policy c = if policy.case_insensitive then casefold c else c

  unfoldable pub matches_glob : List String → String → String → Bool
  unfolding subtree_head
  matches_glob components base glob = elim (subtree_head glob) [
    | none ↦ fnmatchcase base glob
    | some head ↦ not (head == "") && any (λ c. fnmatchcase c head) components
  ]

  -- the rules after the folding of case
  unfoldable pub denied_by : DenyPolicy → String → List String → Bool
  unfolding is_reserved_path base_of matches_glob
  denied_by policy p ps =
      let components : List String = p ∷ ps in
      let base : String = base_of p ps in
      is_reserved_path components
      || policy.default_deny_enabled
        && (any (one_of default_deny_dir_names) components
            || one_of default_deny_basenames base
            || any (fnmatchcase base) default_deny_globs)
      || any (λ g. matches_glob components base (folded policy g)) policy.extra_globs

  unfoldable pub is_denied : DenyPolicy → List String → Bool
  unfolding denied_by
  is_denied policy [] = false
  is_denied policy (p ∷ ps) = denied_by policy (folded policy p) (map (folded policy) ps)

  pub record ResolvedPath (W : Type 0) : Type 0 where
    pub workdir : W
    pub rel_parts : List String
    pub allow_hidden : Bool
    pub deny_policy : DenyPolicy

  abbrev pub admit :
      {W : Type 0} → W → Bool → DenyPolicy → Checked (List String) → Checked (ResolvedPath W)
  admit workdir allow_hidden policy (err e) = err e
  admit workdir allow_hidden policy (ok parts) =
      if is_reserved_path parts
      then err reserved_path
      else if not allow_hidden && any is_hidden_component parts
      then err hidden_path_not_allowed
      else if is_denied policy parts
      then err denied_path
      else ok (record {
        workdir = workdir;
        rel_parts = parts;
        allow_hidden = allow_hidden;
        deny_policy = policy;
      })

  unfoldable pub resolve_workdir_path :
      {W : Type 0} → W → String → Bool → Option DenyPolicy → Checked (ResolvedPath W)
  unfolding split_relative_path
  resolve_workdir_path workdir path allow_hidden policy =
      admit workdir allow_hidden
        (elim policy [
          | none ↦ record {
            extra_globs = [];
            default_deny_enabled = true;
            case_insensitive = false;
          }
          | some p ↦ p
        ])
        (split_relative_path host path)
