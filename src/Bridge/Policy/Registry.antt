-- ===== src/Bridge/Policy/Registry.antt =====
-- What holds of a registry that was built.
use server_fs_mcp.Prelude.{
  [], ◌∷◌, String, Option, List, some, ◌≡◌, map, Bool-cases, All, false, inl, subst, ◌++◌, ap, sym,
  inr, refl, arith, All-append, ◌∙◌, none,
}
use server_fs_mcp.Bridge.Policy.{
  PolicyRegistry, Built, add_policy, add_policies, registry, WorkdirAgentPolicy, ok, err, keyed,
  add_leased,
}
use server_fs_mcp.Sql.{exists}
use server_fs_mcp.Sql.Keys.{AreDistinct, taken, AreDistinct-append}
use server_fs_mcp.Bridge.Lease.{lease_id}

abbrev pub key_of : String × WorkdirAgentPolicy → Option String
key_of (k, p) = some k

abbrev pub policy_of : String × WorkdirAgentPolicy → WorkdirAgentPolicy
policy_of (k, p) = p

-- an entry is keyed by the alias of its policy
abbrev pub IsByAlias : String × WorkdirAgentPolicy → Type 0
IsByAlias (k, p) = k ≡ p.alias

-- an entry is keyed by the lease id of its policy
abbrev pub IsByLease : String × WorkdirAgentPolicy → Type 0
IsByLease (k, p) = lease_id p.slot p.alias ≡ some k

pub record IsRegistry (r : PolicyRegistry) : Type 0 where
  pub aliases : AreDistinct (map key_of r.by_alias)
  pub leases : AreDistinct (map key_of r.by_lease)
  pub by_alias : All IsByAlias r.by_alias
  pub by_lease : All IsByLease r.by_lease
  pub same : map policy_of r.by_alias ≡ map policy_of r.by_lease

abbrev Registers : Built PolicyRegistry → Type 0
Registers (ok r) = IsRegistry r
Registers (err e) = Unit

taken_keys :
    (k : String) (es : List (String × WorkdirAgentPolicy))
    → exists (keyed k) es ≡ false
    → taken (some k) (map key_of es) ≡ false
unfolding exists
taken_keys k [] h = refl
taken_keys k ((j, p) ∷ es) h = ground (arith, taken_keys k es)

map_snoc {ℓ} :
    {A : Type ℓ} (f : String × WorkdirAgentPolicy → A) (es : List (String × WorkdirAgentPolicy))
    (e : String × WorkdirAgentPolicy)
    → map f (es ++ e ∷ []) ≡ map f es ++ f e ∷ []
map_snoc f [] e = refl
map_snoc f (d ∷ es) e = ap (λ l. f d ∷ l) (map_snoc f es e)

distinct_snoc :
    (k : String) (p : WorkdirAgentPolicy) (es : List (String × WorkdirAgentPolicy))
    → AreDistinct (map key_of es)
    → exists (keyed k) es ≡ false
    → AreDistinct (map key_of (es ++ (k, p) ∷ []))
distinct_snoc k p es d h =
    subst AreDistinct (sym (map_snoc key_of es (k, p)))
      (AreDistinct-append (some k) (map key_of es) d (taken_keys k es h))

add_leased-Registers :
    (lease : Option String) (p : WorkdirAgentPolicy) (r : PolicyRegistry)
    → lease_id p.slot p.alias ≡ lease
    → exists (keyed p.alias) r.by_alias ≡ false
    → IsRegistry r
    → Registers (add_leased lease p r)
add_leased-Registers none p r e fresh c = tt
add_leased-Registers (some lease) p r e fresh c =
    elim (Bool-cases (exists (keyed lease) r.by_lease)) [
      | inl clash ↦ rw clash tt
      | inr new ↦ rw new (record {
        aliases = distinct_snoc p.alias p r.by_alias c.aliases fresh;
        leases = distinct_snoc lease p r.by_lease c.leases new;
        by_alias = All-append IsByAlias r.by_alias ((p.alias, p) ∷ []) c.by_alias (refl, tt);
        by_lease = All-append IsByLease r.by_lease ((lease, p) ∷ []) c.by_lease (e, tt);
        same =
            map_snoc policy_of r.by_alias (p.alias, p)
            ∙ ap (λ l. l ++ p ∷ []) c.same
            ∙ sym (map_snoc policy_of r.by_lease (lease, p));
      })
    ]

add_policy-Registers :
    (p : WorkdirAgentPolicy) (r : PolicyRegistry) → IsRegistry r → Registers (add_policy p r)
unfolding add_policy
add_policy-Registers p r c = elim (Bool-cases (exists (keyed p.alias) r.by_alias)) [
  | inl clash ↦ rw clash tt
  | inr fresh ↦ rw fresh (add_leased-Registers (lease_id p.slot p.alias) p r refl fresh c)
]

then-Registers :
    (ps : List WorkdirAgentPolicy)
    → ((r : PolicyRegistry) → IsRegistry r → Registers (add_policies ps r))
    → (m : Built PolicyRegistry) → Registers m
    → Registers (elim m [ err e ↦ err e | ok s ↦ add_policies ps s ])
then-Registers ps h (ok s) c = h s c
then-Registers ps h (err e) c = tt

add_policies-Registers :
    (ps : List WorkdirAgentPolicy) (r : PolicyRegistry)
    → IsRegistry r
    → Registers (add_policies ps r)
unfolding add_policies
add_policies-Registers [] r c = c
add_policies-Registers (p ∷ ps) r c =
    then-Registers ps (λ s d. add_policies-Registers ps s d) (add_policy p r)
      (add_policy-Registers p r c)

-- In a registry that was built no two workdirs share an alias or a lease id; its two dictionaries
-- hold the same policies in the same order, keyed by their alias and by their lease id.
pub registry-IsRegistry :
    (ps : List WorkdirAgentPolicy) {r : PolicyRegistry} → registry ps ≡ ok r → IsRegistry r
unfolding registry
registry-IsRegistry ps e = subst Registers e (
    add_policies-Registers ps (record { by_alias = []; by_lease = [] })
      (record { aliases = tt; leases = tt; by_alias = tt; by_lease = tt; same = refl }))
