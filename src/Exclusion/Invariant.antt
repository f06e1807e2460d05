-- ===== src/Exclusion/Invariant.antt =====
-- A mutation that has passed its tests runs while no agent of the workdir runs.
use server_fs_mcp.Bridge.Errors
use server_fs_mcp.Exclusion.{regular}
use server_fs_mcp.Exclusion.Steps.{
  review_agents, IsPromised, IsKept, agent_ends, drop, pass_tests, take_lock, checking, outside,
}
use server_fs_mcp.Exclusion.Steps.{
  System, is_idle, start_state, BridgeStep, acquire, create_guard, give_up, the_bridge, roll_back,
  launch, is_outside, finish, mutation, leave, mutating, recover, stop, guarded, running, idle,
  Party, guard_stat, Stage, MutationStep, Step, Reach, set_stage, bridge, later, serverfs, start,
}
use server_fs_mcp.Exclusion.{
  LockFile, acquire_flock, flock_hold, refuse_unrecovered_workdir, missing, irregular,
}
use server_fs_mcp.Prelude.{
  Bool, ◌≡◌, false, some, ℕ, none, String, refl, Option, true, ap, Bool-cases, Option-cases,
  is_some, inl, inr, ◌⊎◌, ◌≢◌, nat_eq, arith, sym, ◌∙◌,
}

-- who holds the lock, and what a guard stands for
pub record IsExclusive (s : System) : Type 0 where
  pub held : is_idle s.phase ≡ false → s.lock ≡ some the_bridge
  pub owned : (i : ℕ) → is_outside (s.stage i) ≡ false → s.lock ≡ some (mutation i)
  pub clear : (i : ℕ) → s.stage i ≡ mutating → s.guard ≡ none
  pub marked : (t : String) → s.agent ≡ some t → s.guard ≡ some t
  pub published : (t : String) → s.phase ≡ guarded t → s.guard ≡ some t
  pub quiet : (t : String) → s.phase ≡ guarded t → s.agent ≡ none
  pub running_marked : (t : String) → s.phase ≡ running t → s.guard ≡ some t
  pub by_bridge : s.lock ≡ some the_bridge → is_idle s.phase ≡ false
  pub by_mutation : (i : ℕ) → s.lock ≡ some (mutation i) → is_outside (s.stage i) ≡ false

start_state-IsExclusive :
    (file : LockFile) (reports : Bool) → IsExclusive (start_state file reports)
start_state-IsExclusive file reports = record {
  held = λ h. cc;
  owned = λ i h. cc;
  clear = λ i h. cc;
  marked = λ t h. cc;
  published = λ t h. cc;
  quiet = λ t h. cc;
  running_marked = λ t h. cc;
  by_bridge = λ h. cc;
  by_mutation = λ i h. cc;
}

free_lock :
    (file : LockFile) (lock : Option Party)
    → acquire_flock file (is_some lock) ≡ Errors.ok tt
    → lock ≡ none
unfolding acquire_flock
free_lock missing lock h = cc
free_lock irregular lock h = cc
free_lock regular none h = refl
free_lock regular (some p) h = cc

free_hold :
    (file : LockFile) (lock : Option Party) → flock_hold file (is_some lock) ≡ none → lock ≡ none
unfolding flock_hold
free_hold missing lock h = cc
free_hold irregular lock h = cc
free_hold regular none h = refl
free_hold regular (some p) h = cc

no_guard :
    (guard : Option String) → refuse_unrecovered_workdir (guard_stat guard) ≡ none → guard ≡ none
unfolding refuse_unrecovered_workdir
no_guard none h = refl
no_guard (some t) h = cc

module _ {s : System} (v : IsExclusive s) where
  busy_alone : is_idle s.phase ≡ false → (i : ℕ) → is_outside (s.stage i) ≡ true
  busy_alone busy i = elim (Bool-cases (is_outside (s.stage i))) [
    | inl out ↦ out
    | inr inside ↦ cc (v.held busy, v.owned i inside)
  ]

  release-IsExclusive :
      is_idle s.phase ≡ false → IsExclusive (record s { lock = none; phase = idle })
  release-IsExclusive busy = record {
    held = λ h. cc;
    owned = λ i h. cc (h, busy_alone busy i);
    clear = v.clear;
    marked = v.marked;
    published = λ u h. cc;
    quiet = λ u h. cc;
    running_marked = λ u h. cc;
    by_bridge = λ h. cc;
    by_mutation = λ i h. cc;
  }

  clear-IsExclusive :
      is_idle s.phase ≡ false
      → s.agent ≡ none
      → IsExclusive (record s { lock = none; guard = none; phase = idle })
  clear-IsExclusive busy over = record {
    held = λ h. cc;
    owned = λ i h. cc (h, busy_alone busy i);
    clear = λ i h. refl;
    marked = λ t h. cc (h, over);
    published = λ u h. cc;
    quiet = λ u h. cc;
    running_marked = λ u h. cc;
    by_bridge = λ h. cc;
    by_mutation = λ i h. cc;
  }

BridgeStep-IsExclusive :
    {s t : System} → IsExclusive s → (b : BridgeStep s t) → IsPromised b → IsExclusive t
BridgeStep-IsExclusive {s} v (acquire t idle_ free) kept = record {
  held = λ h. refl;
  owned = λ i h. cc (v.owned i h, free_lock s.file s.lock free);
  clear = v.clear;
  marked = v.marked;
  published = λ u h. cc;
  quiet = λ u h. cc;
  running_marked = λ u h. cc;
  by_bridge = λ h. refl;
  by_mutation = λ i h. cc;
}
BridgeStep-IsExclusive {s} v (create_guard t at_ free) kept = record {
  held = λ h. v.held (rw at_ refl);
  owned = v.owned;
  clear = λ i h. cc (busy_alone v (rw at_ refl) i, ap is_outside h);
  marked = λ u h. cc (v.marked u h, free);
  published = λ u h. cc;
  quiet = λ u h. elim (Option-cases s.agent) [ inl e ↦ e | inr (w, e) ↦ cc (v.marked w e, free) ];
  running_marked = λ u h. cc;
  by_bridge = λ h. refl;
  by_mutation = v.by_mutation;
}
BridgeStep-IsExclusive v (give_up t at_) kept = release-IsExclusive v (rw at_ refl)
BridgeStep-IsExclusive v (roll_back t at_) kept = clear-IsExclusive v (rw at_ refl) (v.quiet t at_)
BridgeStep-IsExclusive v (launch t at_) kept = record {
  held = λ h. v.held (rw at_ refl);
  owned = v.owned;
  clear = v.clear;
  marked = λ u h. cc (h, v.published t at_);
  published = λ u h. cc;
  quiet = λ u h. cc;
  running_marked = λ u h. cc (h, v.published t at_);
  by_bridge = λ h. refl;
  by_mutation = v.by_mutation;
}
BridgeStep-IsExclusive v (finish t at_) over = clear-IsExclusive v (rw at_ refl) over
BridgeStep-IsExclusive v (leave t at_) kept = release-IsExclusive v (rw at_ refl)
BridgeStep-IsExclusive {s} v (recover t at_ stands told) over = record {
  held = v.held;
  owned = v.owned;
  clear = λ i h. refl;
  marked = λ u h. absurd (over (cc (h, v.marked u h, stands)));
  published = λ u h. cc (h, at_);
  quiet = v.quiet;
  running_marked = λ u h. cc (h, at_);
  by_bridge = v.by_bridge;
  by_mutation = v.by_mutation;
}
BridgeStep-IsExclusive v (stop at_) kept = release-IsExclusive v at_

set_stage-cases :
    (f : ℕ → Stage) (i : ℕ) (x : Stage) (j : ℕ)
    → ((j ≡ i) × (set_stage f i x j ≡ x)) ⊎ ((j ≢ i) × (set_stage f i x j ≡ f j))
set_stage-cases f i x j = elim (Bool-cases (nat_eq j i)) [
  | inl e ↦ inl (ground (arith), rw e refl)
  | inr e ↦ inr (λ same. ground (arith, e, same), rw e refl)
]

MutationStep-IsExclusive :
    {i : ℕ} {s t : System} → IsExclusive s → MutationStep i s t → IsExclusive t
MutationStep-IsExclusive {i} {s} v (take_lock out free) =
    let unlocked = free_hold s.file s.lock free in
    record {
      held = λ h. cc (v.held h, unlocked);
      owned = λ j h. elim (set_stage-cases s.stage i checking j) [
        | inl (e, _) ↦ ap (λ k. some (mutation k)) (sym e)
        | inr (_, e) ↦ cc (v.owned j (rw e at h), unlocked)
      ];
      clear = λ j h. elim (set_stage-cases s.stage i checking j) [
        | inl (_, e) ↦ cc (h, e)
        | inr (_, e) ↦ v.clear j (sym e ∙ h)
      ];
      marked = v.marked;
      published = v.published;
      quiet = v.quiet;
      running_marked = v.running_marked;
      by_bridge = λ h. cc;
      by_mutation = λ j h. elim (set_stage-cases s.stage i checking j) [
        | inl (_, e) ↦ rw e refl
        | inr (apart, _) ↦ absurd (apart (cc))
      ];
    }
MutationStep-IsExclusive {i} {s} v (pass_tests at_ free) = record {
  held = v.held;
  owned = λ j h. elim (set_stage-cases s.stage i mutating j) [
    | inl (e, _) ↦ v.owned j (rw (e, at_) refl)
    | inr (_, e) ↦ v.owned j (rw e at h)
  ];
  clear = λ j h. no_guard s.guard free;
  marked = v.marked;
  published = v.published;
  quiet = v.quiet;
  running_marked = v.running_marked;
  by_bridge = v.by_bridge;
  by_mutation = λ j h. elim (set_stage-cases s.stage i mutating j) [
    | inl (_, e) ↦ rw e refl
    | inr (_, e) ↦ rw e (v.by_mutation j h)
  ];
}
MutationStep-IsExclusive {i} {s} v (drop inside) = record {
  held = λ h. cc (busy_alone v h i, inside);
  owned = λ j h. elim (set_stage-cases s.stage i outside j) [
    | inl (_, e) ↦ cc (rw e at h)
    | inr (apart, e) ↦ absurd (apart cc (v.owned j (rw e at h), v.owned i inside))
  ];
  clear = λ j h. elim (set_stage-cases s.stage i outside j) [
    | inl (_, e) ↦ cc (h, e)
    | inr (_, e) ↦ v.clear j (sym e ∙ h)
  ];
  marked = v.marked;
  published = v.published;
  quiet = v.quiet;
  running_marked = v.running_marked;
  by_bridge = λ h. cc;
  by_mutation = λ j h. cc;
}

Step-IsExclusive : {s t : System} → IsExclusive s → (step : Step s t) → IsKept step → IsExclusive t
Step-IsExclusive v (bridge b) kept = BridgeStep-IsExclusive v b kept
Step-IsExclusive v (serverfs i m) kept = MutationStep-IsExclusive v m
Step-IsExclusive v (review_agents readers) kept = record {
  held = v.held;
  owned = v.owned;
  clear = v.clear;
  marked = v.marked;
  published = v.published;
  quiet = v.quiet;
  running_marked = v.running_marked;
  by_bridge = v.by_bridge;
  by_mutation = v.by_mutation;
}
Step-IsExclusive v agent_ends kept = record {
  held = v.held;
  owned = v.owned;
  clear = v.clear;
  marked = λ t h. cc;
  published = v.published;
  quiet = λ t h. refl;
  running_marked = v.running_marked;
  by_bridge = v.by_bridge;
  by_mutation = v.by_mutation;
}

pub Reach-IsExclusive :
    {file : LockFile} {reports : Bool} {s : System} → Reach file reports s → IsExclusive s
Reach-IsExclusive {file} {reports} start = start_state-IsExclusive file reports
Reach-IsExclusive (later r step kept) = Step-IsExclusive (Reach-IsExclusive r) step kept
