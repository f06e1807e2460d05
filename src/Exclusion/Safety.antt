-- ===== src/Exclusion/Safety.antt =====
-- What the lease and the guard promise: mutations and the agents of writers exclude each other.
use server_fs_mcp.Exclusion.{LockFile}
use server_fs_mcp.Exclusion.Steps.{
  System, Reach, is_outside, mutating, idle, Phase, Stage, is_idle, leased, outside, guarded,
  checking, running,
}
use server_fs_mcp.Prelude.{
  Bool, ℕ, ◌≡◌, false, none, Option-cases, inl, inr, Bool-cases, true, refl,
}
use server_fs_mcp.Exclusion.Invariant.{Reach-IsExclusive}

pub idle_only : (p : Phase) → is_idle p ≡ true → p ≡ idle
idle_only idle h = refl
idle_only (leased t) h = cc h
idle_only (guarded t) h = cc h
idle_only (running t) h = cc h

pub outside_only : (x : Stage) → is_outside x ≡ true → x ≡ outside
outside_only outside h = refl
outside_only checking h = cc h
outside_only mutating h = cc h

-- While a mutation that holds the lease is past its tests, no agent of a workspace-write task runs in the
-- workdir, no guard stands, and the Bridge holds no lease on it, in every state that is reached while
-- the adapters keep their promise: an agent has stopped when its run is over, when the service closes,
-- and when its adapter answers that it is not active.
pub mutation_excludes_agent :
    {file : LockFile} {reports : Bool} {s : System}
    → Reach file reports s
    → (i : ℕ) → s.stage i ≡ mutating
    → (s.agent ≡ none) × (s.guard ≡ none) × (s.phase ≡ idle)
mutation_excludes_agent {s} r i at_ =
    let v = Reach-IsExclusive r in
    (
      elim (Option-cases s.agent) [ inl e ↦ e | inr (t, e) ↦ cc (v.marked t e, v.clear i at_) ],
      v.clear i at_,
      idle_only s.phase (elim (Bool-cases (is_idle s.phase)) [
        | inl e ↦ e
        | inr busy ↦ cc (v.held busy, v.owned i (rw at_ refl))
      ]),
    )

-- Two mutations that hold the lease of one workdir are one.
pub mutations_exclude_each_other :
    {file : LockFile} {reports : Bool} {s : System}
    → Reach file reports s
    → (i j : ℕ) → is_outside (s.stage i) ≡ false
    → is_outside (s.stage j) ≡ false
    → i ≡ j
mutations_exclude_each_other r i j at_i at_j =
    let v = Reach-IsExclusive r in cc (v.owned i at_i, v.owned j at_j)
