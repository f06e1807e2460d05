-- ===== src/Exclusion/Progress.antt =====
-- Where adapters tell that an agent is not active, no reachable state keeps mutations out for good.
use server_fs_mcp.Exclusion.{regular, LockFile, flock_hold, refuse_unrecovered_workdir}
use server_fs_mcp.Exclusion.Steps.{
  review_agents, IsKept, the_bridge, take_lock, pass_tests, drop, agent_ends, start, later, bridge,
  serverfs, stop, recover, System, Step, Reach, BridgeStep, acquire, mutating, create_guard,
  give_up, roll_back, launch, idle, finish, mutation, leave, set_stage, outside, MutationStep,
  is_outside, is_idle, checking, Stage,
}
use server_fs_mcp.Exclusion.Invariant.{IsExclusive, Reach-IsExclusive}
use server_fs_mcp.Prelude.{
  Bool, ap, ◌≡◌, ℕ, ◌∙◌, none, refl, Option-cases, inl, inr, Bool-cases, true, some, arith,
}
use server_fs_mcp.Exclusion.Safety.{idle_only, outside_only}

-- a run of steps
pub data Run (s : System) : System → Type 0 where
  rest : Run s s
  go : {t u : System} → Run s t → (step : Step t u) → IsKept step → Run s u

append : {s t u : System} → Run s t → Run t u → Run s u
append r rest = r
append r (go q step kept) = go (append r q) step kept

Reach-Run :
    {file : LockFile} {reports : Bool} {s t : System}
    → Reach file reports s
    → Run s t
    → Reach file reports t
Reach-Run r rest = r
Reach-Run r (go q step kept) = later (Reach-Run r q) step kept

-- what does not change
abbrev constants : System → LockFile × Bool
constants s = (s.file, s.reports)

BridgeStep-file : {s t : System} → BridgeStep s t → constants t ≡ constants s
BridgeStep-file (acquire t a b) = refl
BridgeStep-file (create_guard t a b) = refl
BridgeStep-file (give_up t a) = refl
BridgeStep-file (roll_back t a) = refl
BridgeStep-file (launch t a) = refl
BridgeStep-file (finish t a) = refl
BridgeStep-file (leave t a) = refl
BridgeStep-file (recover t a b c) = refl
BridgeStep-file (stop a) = refl

MutationStep-file : {i : ℕ} {s t : System} → MutationStep i s t → constants t ≡ constants s
MutationStep-file (take_lock a b) = refl
MutationStep-file (pass_tests a b) = refl
MutationStep-file (drop a) = refl

Step-file : {s t : System} → Step s t → constants t ≡ constants s
Step-file (bridge b) = BridgeStep-file b
Step-file (serverfs i m) = MutationStep-file m
Step-file agent_ends = refl
Step-file (review_agents readers) = refl

Reach-file :
    {file : LockFile} {reports : Bool} {s : System}
    → Reach file reports s
    → constants s ≡ (file, reports)
Reach-file start = refl
Reach-file (later r step kept) = Step-file step ∙ Reach-file r

-- the lock is let go
unlock :
    {s : System}
    → IsExclusive s
    → s.agent ≡ none
    → (t : System) × Run s t × (t.lock ≡ none) × (t.agent ≡ none)
unlock {s} v quiet = elim (Option-cases s.lock) [
  | inl e ↦ (s, rest, e, quiet)
  | inr (the_bridge, e) ↦ (
    record s { lock = none; phase = idle },
    go rest (bridge (stop (v.by_bridge e))) tt,
    refl,
    quiet,
  )
  | inr (mutation j, e) ↦ (
    record s { lock = none; stage = set_stage s.stage j outside },
    go rest (serverfs j (drop (v.by_mutation j e))) tt,
    refl,
    quiet,
  )
]

-- a guard that stands is cleared
unguard :
    {s : System}
    → IsExclusive s
    → s.reports ≡ true
    → s.lock ≡ none
    → s.agent ≡ none
    → (t : System) × Run s t × (t.lock ≡ none) × (t.guard ≡ none)
unguard {s} v told free quiet = elim (Option-cases s.guard) [
  | inl e ↦ (s, rest, free, e)
  | inr (t, e) ↦
      let idle_ : s.phase ≡ idle =
        idle_only s.phase
          (elim (Bool-cases (is_idle s.phase)) [ inl k ↦ k | inr busy ↦ cc (v.held busy, free) ]) in
      (
        record s { guard = none },
        go rest (bridge (recover t idle_ e told)) (λ h. cc (h, quiet)),
        free,
        refl,
      )
]

-- a mutation takes the lock and passes its tests
enter_free :
    {s : System} (i : ℕ)
    → IsExclusive s
    → s.file ≡ regular
    → s.lock ≡ none
    → s.guard ≡ none
    → (t : System) × Run s t × (t.stage i ≡ mutating)
unfolding flock_hold refuse_unrecovered_workdir
enter_free {s} i v is_file free clear =
    let out : is_outside (s.stage i) ≡ true = elim (Bool-cases (is_outside (s.stage i))) [
      | inl k ↦ k
      | inr inside ↦ cc (v.owned i inside, free)
    ] in
    let set : (f : ℕ → Stage) (x : Stage) → set_stage f i x i ≡ x = λ f x. ground (arith) in
    let locked : System = record s {
      lock = some (mutation i);
      stage = set_stage s.stage i checking;
    } in
    (
      record locked { stage = set_stage locked.stage i mutating },
      go
          (go rest (serverfs i (take_lock (outside_only (s.stage i) out) (rw (is_file, free) refl)))
            tt)
          (serverfs i (pass_tests (set s.stage checking) (rw clear refl))) tt,
      set locked.stage mutating,
    )

-- Where the adapter tells that an agent is not active, steps lead on from every state that the parties
-- can reach over a lock file, with adapters that keep their promise, to a state in which a given mutation
-- has passed its tests.
pub mutation_can_enter :
    {s : System} → Reach regular true s → (i : ℕ) → (t : System) × Run s t × (t.stage i ≡ mutating)
mutation_can_enter {s} r i =
    let ended : Reach regular true (record s { agent = none }) = later r agent_ends tt in
    let (a, to_a, free, quiet) = unlock (Reach-IsExclusive ended) refl in
    let at_a : Reach regular true a = Reach-Run ended to_a in
    let told : a.reports ≡ true = ap (λ (c : LockFile × Bool). c.1) (Reach-file at_a) in
    let (b, to_b, free_b, clear) = unguard (Reach-IsExclusive at_a) told free quiet in
    let at_b : Reach regular true b = Reach-Run at_a to_b in
    let is_file : b.file ≡ regular = ap (λ (c : LockFile × Bool). c.0) (Reach-file at_b) in
    let (c, to_c, in_c) = enter_free i (Reach-IsExclusive at_b) is_file free_b clear in
    (c, append (append (append (go rest agent_ends tt) to_a) to_b) to_c, in_c)
