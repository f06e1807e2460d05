-- ===== src/Bridge/Policy/Guards.antt =====
-- What an authorized agent run may do.
use server_fs_mcp.Prelude.{any_code}
use server_fs_mcp.Bridge.Errors
use server_fs_mcp.Prelude.{
  ◌≡◌, String, Option, List, ◌⊎◌, true, some, Bool-cases, inl, inr, subst, none, refl, false,
  nat_eq, any, Option-cases, ◌∙◌, ◌==◌, ap, ◌&&◌, not, arith,
}
use server_fs_mcp.Bridge.Errors.{Result}
use server_fs_mcp.Bridge.Policy.{
  HostPaths, WorkdirAgentPolicy, resolve_relative_cwd, authorize, AgentProfile, confine, enter,
  PolicyRegistry, is_disabled, admit, get, profile_of, has_drive_prefix, writes, or_here, may_write,
}

-- a run with a policy, in a directory, that a profile allows
pub record IsAllowed (host : HostPaths) (p : WorkdirAgentPolicy) (runtime : String)
    (requested : AgentProfile) (path : String) : Type 0 where
  pub enabled : is_disabled p.mode ≡ false
  pub runtime_listed : any (λ r. runtime == r) p.runtimes ≡ true
  pub may_write_if : (writes requested ≡ true) → (may_write p.mode ≡ true) × (p.read_only ≡ false)
  pub inside :
      (root : String) × (host.resolve p.host_path ≡ some root)
      × (host.is_relative_to root path ≡ true)
  pub directory : host.is_dir path ≡ true

Result-cases {ℓ} :
    {A : Type ℓ} (m : Result A)
    → ((a : A) × (m ≡ Errors.ok a)) ⊎ ((e : Errors.Code) × (m ≡ Errors.err e))
Result-cases (Errors.ok a) = inl (a, refl)
Result-cases (Errors.err e) = inr (e, refl)

module _ (host : HostPaths) where
  abbrev Confined : String → Result String → Type 0
  Confined root (Errors.ok path) =
      (host.is_relative_to root path ≡ true) × (host.is_dir path ≡ true)
  Confined root (Errors.err e) = Unit

  confine-Confined :
      (root : String) (found : Option String) → Confined root (confine host root found)
  confine-Confined root none = tt
  confine-Confined root (some path) = elim (Bool-cases (host.is_relative_to root path)) [
    | inr outside ↦ rw outside tt
    | inl inside ↦ elim (Bool-cases (host.is_dir path)) [
      | inr other ↦ rw (inside, other) tt
      | inl directory ↦ rw (inside, directory) (inside, directory)
    ]
  ]

  abbrev Entered : Option String → Result String → Type 0
  Entered found (Errors.ok path) =
      (root : String) × (found ≡ some root)
      × (host.is_relative_to root path ≡ true)
      × (host.is_dir path ≡ true)
  Entered found (Errors.err e) = Unit

  Confined-Entered : (root : String) (m : Result String) → Confined root m → Entered (some root) m
  Confined-Entered root (Errors.ok path) h = (root, refl, h.0, h.1)
  Confined-Entered root (Errors.err e) h = tt

  enter-Entered :
      (parts : List String) (found : Option String) → Entered found (enter host parts found)
  enter-Entered parts none = tt
  enter-Entered parts (some root) = Confined-Entered root _ (confine-Confined root _)

  resolve-Entered :
      (root cwd : String) → Entered (host.resolve root) (resolve_relative_cwd host root cwd)
  unfolding resolve_relative_cwd
  resolve-Entered root cwd = elim (Bool-cases (any_code (nat_eq 0) cwd)) [
    | inl nul ↦ rw nul tt
    | inr a ↦ elim (Bool-cases (any_code (nat_eq b'\\') cwd)) [
      | inl back ↦ rw (a, back) tt
      | inr b ↦ elim (Bool-cases (has_drive_prefix cwd)) [
        | inl drive ↦ rw (a, b, drive) tt
        | inr c ↦ elim (Bool-cases (host.is_absolute (or_here cwd))) [
          | inl absolute ↦ rw (a, b, c, absolute) tt
          | inr d ↦ elim (Bool-cases (any (λ p. p == "..") (host.parts (or_here cwd)))) [
            | inl parent ↦ rw (a, b, c, d, parent) tt
            | inr e ↦
                rw (a, b, c, d, e) (enter-Entered (host.parts (or_here cwd)) (host.resolve root))
          ]
        ]
      ]
    ]
  ]

  abbrev Allows :
      WorkdirAgentPolicy → String → AgentProfile → Result (WorkdirAgentPolicy × String) → Type 0
  Allows p runtime requested (Errors.ok (q, path)) =
      (p ≡ q) × IsAllowed host p runtime requested path
  Allows p runtime requested (Errors.err e) = Unit

  placed-Allows :
      (p : WorkdirAgentPolicy) (runtime : String) (requested : AgentProfile) (m : Result String)
      → is_disabled p.mode ≡ false
      → any (λ r. runtime == r) p.runtimes ≡ true
      → ((writes requested ≡ true) → (may_write p.mode ≡ true) × (p.read_only ≡ false))
      → Entered (host.resolve p.host_path) m
      → Allows p runtime requested
          (elim m [ Errors.err e ↦ Errors.err e | Errors.ok path ↦ Errors.ok (p, path) ])
  placed-Allows p runtime requested (Errors.err e) on listed writable h = tt
  placed-Allows p runtime requested (Errors.ok path) on listed writable
        (root, found, inside, directory) =
      (
        refl,
        record {
          enabled = on;
          runtime_listed = listed;
          may_write_if = writable;
          inside = (root, found, inside);
          directory = directory;
        },
      )

  admit-Allows :
      (p : WorkdirAgentPolicy) (runtime : String) (requested : AgentProfile) (cwd : String)
      → Allows p runtime requested (admit host p runtime requested cwd)
  admit-Allows p runtime requested cwd = elim (Bool-cases (is_disabled p.mode)) [
    | inl off ↦ rw off tt
    | inr on ↦ elim (Bool-cases (any (λ r. runtime == r) p.runtimes)) [
      | inr unlisted ↦ rw (on, unlisted) tt
      | inl listed ↦ elim (Bool-cases (writes requested && not (may_write p.mode))) [
        | inl beyond ↦ rw (on, listed, beyond) tt
        | inr within ↦ elim (Bool-cases (writes requested && p.read_only)) [
          | inl fixed ↦ rw (on, listed, within, fixed) tt
          | inr free ↦
              rw (on, listed, within, free)
                (placed-Allows p runtime requested _ on listed
                  (λ w. (ground (arith, within, w), ground (arith, free, w)))
                  (resolve-Entered p.host_path cwd))
        ]
      ]
    ]
  ]

  -- what an authorization says of the request that it answers
  abbrev pub IsAuthorized :
      String → String → String → PolicyRegistry → WorkdirAgentPolicy × String → Type 0
  IsAuthorized workdir runtime profile r (p, path) =
      (get workdir r ≡ Errors.ok p)
      × ((requested : AgentProfile) × (profile_of profile ≡ some requested)
          × IsAllowed host p runtime requested path)

  abbrev Authorizes :
      String → String → String → PolicyRegistry → Result (WorkdirAgentPolicy × String) → Type 0
  Authorizes workdir runtime profile r (Errors.ok run) = IsAuthorized workdir runtime profile r run
  Authorizes workdir runtime profile r (Errors.err e) = Unit

  allowed-Authorizes :
      (workdir runtime profile : String) (r : PolicyRegistry) (p : WorkdirAgentPolicy)
      (requested : AgentProfile) (m : Result (WorkdirAgentPolicy × String))
      → get workdir r ≡ Errors.ok p
      → profile_of profile ≡ some requested
      → Allows p runtime requested m
      → Authorizes workdir runtime profile r m
  allowed-Authorizes workdir runtime profile r p requested (Errors.err e) found known h = tt
  allowed-Authorizes workdir runtime profile r p requested (Errors.ok (q, path)) found known
        (same, h) =
      (
        found ∙ ap Errors.ok same,
        (requested, known, subst (λ x. IsAllowed host x runtime requested path) same h),
      )

  authorize-Authorizes :
      (workdir runtime profile cwd : String) (r : PolicyRegistry)
      → Authorizes workdir runtime profile r (authorize host workdir runtime profile cwd r)
  unfolding authorize
  authorize-Authorizes workdir runtime profile cwd r = elim (Result-cases (get workdir r)) [
    | inr (e, f) ↦ rw (f, authorize) tt
    | inl (p, found) ↦ elim (Option-cases (profile_of profile)) [
      | inl unknown ↦ rw (found, unknown, authorize) tt
      | inr (requested, known) ↦
          rw (found, known, authorize)
            (allowed-Authorizes workdir runtime profile r p requested _ found known
              (admit-Allows p runtime requested cwd))
    ]
  ]

  -- An authorized run has the policy of the workdir that it names, with agents enabled and the
  -- runtime listed; it may write only where the policy allows it and the workdir is not read-only;
  -- and its directory is a directory inside the resolved root of that workdir.
  pub authorize-IsAuthorized :
      (workdir runtime profile cwd : String) (r : PolicyRegistry)
      {run : WorkdirAgentPolicy × String}
      → authorize host workdir runtime profile cwd r ≡ Errors.ok run
      → IsAuthorized workdir runtime profile r run
  authorize-IsAuthorized workdir runtime profile cwd r e =
      subst (Authorizes workdir runtime profile r) e
        (authorize-Authorizes workdir runtime profile cwd r)
