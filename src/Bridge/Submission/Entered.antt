-- ===== src/Bridge/Submission/Entered.antt =====
-- What the steps of a submission after its lease leave, when they end well and when they fail.
use server_fs_mcp.Prelude.{
  Option, String, Bool, ℕ, none, some, ◌≡◌, refl, inl, inr, ap, [], ◌∷◌, ◌++◌, true, ◌⊎◌,
}
use server_fs_mcp.Bridge.Errors.{ok, err, Result-cases, Code}
use server_fs_mcp.Sql.{select_one, delete}
use server_fs_mcp.Bridge.Store.Tables.{TaskRow, of_id}
use server_fs_mcp.Bridge.Guards.Files.{Dir, read, ActiveGuard}
use server_fs_mcp.Bridge.Guards.Manager.{create, remove, new_payload}
use server_fs_mcp.Bridge.Guards.Kept.{create_then_read, create_then_remove, create_fails}
use server_fs_mcp.Bridge.Status.{interrupted}
use server_fs_mcp.Bridge.Recovery.{transition_terminal}
use server_fs_mcp.Bridge.Recovery.Ended.{HasEnded}
use server_fs_mcp.Bridge.Recovery.Interrupts.{transition_terminal-HasEnded}
use server_fs_mcp.Bridge.Submission.{SubmissionHost, ServiceState, Submission, Moment}
use server_fs_mcp.Bridge.Submission.Submit.{
  guard_task, new_guard, of_task_id, roll_back, remove_guard, release,
}

module _ (host : SubmissionHost) where
  open host use {recovery, guard_written}
  open host.recovery use {unlinks}

  -- the guard of a lease, as a submission makes it
  abbrev pub made_guard : Submission → Moment → String → Option ℕ → ActiveGuard
  made_guard s moment lease slot = record {
    lease_id = lease;
    payload = new_payload (new_guard host s moment lease) slot;
  }

  abbrev pub with_guards : Dir → ServiceState → ServiceState
  with_guards dir st = record st { world = record st.world { guards = dir } }

  abbrev pub leased : Moment → String → ServiceState → ServiceState
  leased moment lease st = record st {
    leases = delete (of_task_id moment.task_id) st.leases ++ (moment.task_id, lease) ∷ [];
  }

  -- a guard is refused and nothing changes, or made and entered
  pub guard_task-cases :
      (s : Submission) (moment : Moment) (lease : String) (st : ServiceState)
      → ((c : Code) × (guard_task host s moment (some lease) st
            ≡ (err c, with_guards st.world.guards st)))
        ⊎ ((dir : Dir) × (slot : Option ℕ) × (guard_task host s moment (some lease) st
              ≡ (ok tt, leased moment lease (with_guards dir st)))
            × (read recovery.host lease dir ≡ ok (some (made_guard s moment lease slot)))
            × (remove recovery.host true lease moment.task_id dir ≡ (ok tt, st.world.guards)))
  unfolding guard_task
  guard_task-cases s moment lease st =
      let new = new_guard host s moment lease in
      let made = create recovery.host guard_written new st.world.guards in
      elim (Result-cases made.0) [
        | inr (c, e) ↦
            let same : made.1 ≡ st.world.guards =
              create_fails recovery.host guard_written new st.world.guards made.1 c
                (ap (λ r. (r, made.1)) e) in
            inl (c, rw (e, same) refl)
        | inl (tt, e) ↦
            let h : made ≡ (ok tt, made.1) = ap (λ r. (r, made.1)) e in
            let (slot, found) =
              create_then_read recovery.host guard_written new st.world.guards made.1 h in
            let back =
              create_then_remove recovery.host guard_written new st.world.guards made.1 h in
            inr (made.1, slot, rw e refl, found, back)
      ]

  abbrev pub popped : Moment → ServiceState → ServiceState
  popped moment st = record st { leases = delete (of_task_id moment.task_id) st.leases }

  -- the service after a way back
  pub record IsBack (lease : Option String) (moment : Moment) (dir : Dir) (st after : ServiceState)
      : Type 0 where
    pub leases : after.leases ≡ delete (of_task_id moment.task_id) st.leases
    pub locked : after.locked ≡ (release host lease st).locked
    pub background : after.background ≡ st.background
    pub guards : after.world.guards ≡ dir
    pub ended : HasEnded moment.task_id after.world.db

  ended-IsBack :
      (lease : Option String) (moment : Moment) (dir : Dir) (st : ServiceState) (row : TaskRow)
      → select_one (of_id moment.task_id) st.world.db.tasks ≡ some row
      → let mid = release host lease (with_guards dir (popped moment st)) in
        IsBack lease moment dir st (record mid {
          world = record mid.world {
            db =
                (transition_terminal moment.task_id interrupted "BRIDGE_SCHEDULING_FAILED"
                  "bridge could not schedule the task" moment.now mid.world.db).1;
          };
        })
  ended-IsBack none moment dir st row found = record {
    leases = refl;
    locked = refl;
    background = refl;
    guards = refl;
    ended =
        transition_terminal-HasEnded moment.task_id "BRIDGE_SCHEDULING_FAILED"
          "bridge could not schedule the task" moment.now st.world.db row found;
  }
  ended-IsBack (some l) moment dir st row found = record {
    leases = refl;
    locked = refl;
    background = refl;
    guards = refl;
    ended =
        transition_terminal-HasEnded moment.task_id "BRIDGE_SCHEDULING_FAILED"
          "bridge could not schedule the task" moment.now st.world.db row found;
  }

  pub roll_back-IsBack :
      (created : Bool) (lease : Option String) (code : Code) (moment : Moment) (dir : Dir)
      (st : ServiceState) (row : TaskRow)
      → select_one (of_id moment.task_id) st.world.db.tasks ≡ some row
      → remove_guard host created lease moment (popped moment st)
        ≡ (ok tt, with_guards dir (popped moment st))
      → let r = roll_back host created lease code moment st in
        ((c : Code) × (r.0 ≡ err c)) × IsBack lease moment dir st r.1
  unfolding roll_back
  roll_back-IsBack created lease code moment dir st row found removed =
      let back = ended-IsBack lease moment dir st row found in
      let mid = release host lease (with_guards dir (popped moment st)) in
      elim (Result-cases
        (transition_terminal moment.task_id interrupted "BRIDGE_SCHEDULING_FAILED"
          "bridge could not schedule the task" moment.now mid.world.db).0) [
            | inl (b, e) ↦ rw (removed, e) ((code, refl), back)
            | inr (c, e) ↦ rw (removed, e) ((c, refl), back)
          ]
