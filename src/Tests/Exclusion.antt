-- ===== src/Tests/Exclusion.antt =====
-- A task whose agent outlives the Bridge, the recovery of its guard, and then a mutation.
use server_fs_mcp.Exclusion.{regular, acquire_flock, flock_hold, refuse_unrecovered_workdir}
use server_fs_mcp.Exclusion.Steps.{
  the_bridge, mutation, idle, leased, guarded, running, checking, mutating, acquire, create_guard,
  launch, stop, recover, take_lock, pass_tests, bridge, serverfs, agent_ends, start, later, System,
  start_state, set_stage, Reach,
}
use server_fs_mcp.Prelude.{◌≡◌, some, none, refl, true}
use server_fs_mcp.Exclusion.Progress.{Run, mutation_can_enter}
use server_fs_mcp.Exclusion.Safety.{mutation_excludes_agent}

abbrev with_lease : System
with_lease = record (start_state regular true) { lock = some the_bridge; phase = leased "a" }

abbrev with_guard : System
with_guard = record with_lease { guard = some "a"; phase = guarded "a" }

abbrev with_agent : System
with_agent = record with_guard { agent = some "a"; phase = running "a" }

abbrev stopped : System
stopped = record with_agent { lock = none; phase = idle }

abbrev over : System
over = record stopped { agent = none }

abbrev recovered : System
recovered = record over { guard = none }

abbrev locked_by : System
locked_by = record recovered {
  lock = some (mutation 0);
  stage = set_stage recovered.stage 0 checking;
}

abbrev inside : System
inside = record locked_by { stage = set_stage locked_by.stage 0 mutating }

stopped-Reach : Reach regular true stopped
unfolding acquire_flock
stopped-Reach =
    later
      (later
        (later (later start (bridge (acquire "a" refl refl)) tt)
          (bridge (create_guard "a" refl refl)) tt)
        (bridge (launch "a" refl)) tt)
      (bridge (stop refl)) tt

inside-Reach : Reach regular true inside
unfolding flock_hold refuse_unrecovered_workdir
inside-Reach =
    later
      (later
        (later (later stopped-Reach agent_ends tt) (bridge (recover "a" refl refl refl))
          (λ h. cc h))
        (serverfs 0 (take_lock refl refl)) tt)
      (serverfs 0 (pass_tests refl refl)) tt

mutation_excludes_agent_example :
    (inside.agent ≡ none) × (inside.guard ≡ none) × (inside.phase ≡ idle)
mutation_excludes_agent_example = mutation_excludes_agent inside-Reach 0 refl

mutation_can_enter_example : (t : System) × Run stopped t × (t.stage 3 ≡ mutating)
mutation_can_enter_example = mutation_can_enter stopped-Reach 3
