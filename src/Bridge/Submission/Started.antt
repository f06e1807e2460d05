-- ===== src/Bridge/Submission/Started.antt =====
-- How a submission that has created its task ends: with the task started, or as before.
use server_fs_mcp.Prelude.{
  Option, String, Bool, ℕ, List, none, some, ◌==◌, ◌≡◌, refl, inl, inr, Bool-cases, ◌∙◌, ap, ap₂,
  sym, [], ◌∷◌, ◌++◌, false, true, ◌⊎◌, arith, is_some, subst, eq_refl,
}
use server_fs_mcp.Bridge.Errors
use server_fs_mcp.Bridge.Errors.{ok, err, Result, Result-cases, Code}
use server_fs_mcp.Sql.{select_one, delete}
use server_fs_mcp.Bridge.Store.Tables.{TaskRow, of_id}
use server_fs_mcp.Bridge.Guards.Files.{Dir, read}
use server_fs_mcp.Bridge.Guards.Manager.{remove}
use server_fs_mcp.Bridge.Submission.{SubmissionHost, ServiceState, Submission, Moment}
use server_fs_mcp.Bridge.Submission.Prepare.{Prepared}
use server_fs_mcp.Bridge.Submission.Submit.{
  guard_task, of_task_id, remove_guard, release, start_task, record_advice, schedule, or_roll_back,
  after_guard,
}
use server_fs_mcp.Bridge.Submission.Told.{IsTold, record_advice-IsTold}
use server_fs_mcp.Bridge.Submission.Entered.{
  made_guard, with_guards, leased, popped, IsBack, guard_task-cases, roll_back-IsBack,
}

delete_last :
    {A : Type 0} (p : A → Bool) (xs : List A) (y : A)
    → p y ≡ true
    → delete p (delete p xs ++ y ∷ []) ≡ delete p xs
unfolding delete
delete_last p [] y h = rw h refl
delete_last p (x ∷ xs) y h = ground (arith, delete_last p xs y h)

module _ (host : SubmissionHost) where
  open host use {recovery, schedules}
  open host.recovery use {unlinks}

  -- the guard that stands and the entry of `_leases`, for a task that has a lease
  abbrev pub HoldsLease : Submission → Moment → Option String → ServiceState → ServiceState → Type 0
  HoldsLease s moment none before after =
      (after.leases ≡ before.leases) × (after.world.guards ≡ before.world.guards)
  HoldsLease s moment (some lease) before after =
      (after.leases
        ≡ delete (of_task_id moment.task_id) before.leases ++ (moment.task_id, lease) ∷ [])
      × ((slot : Option ℕ) × (read recovery.host lease after.world.guards
            ≡ ok (some (made_guard host s moment lease slot))))

  pub record IsStarted (s : Submission) (lease : Option String) (moment : Moment) (row : TaskRow)
      (before after : ServiceState) : Type 0 where
    pub locked : after.locked ≡ before.locked
    pub background : after.background ≡ before.background ++ moment.task_id ∷ []
    pub task :
        (kept : TaskRow) × (select_one (of_id moment.task_id) after.world.db.tasks ≡ some kept)
        × (kept.columns ≡ row.columns)
    pub holds : HoldsLease s moment lease before after

  holds_any :
      (s : Submission) (moment : Moment) (lease : Option String) (before after : ServiceState)
      (ids : List String)
      → HoldsLease s moment lease before after
      → HoldsLease s moment lease before (record after { background = ids })
  holds_any s moment none before after ids h = h
  holds_any s moment (some l) before after ids h = h

  release-locked :
      (lease : Option String) (a b : ServiceState)
      → b.locked ≡ a.locked
      → (release host lease b).locked ≡ (release host lease a).locked
  release-locked none a b e = e
  release-locked (some l) a b e = ap (delete (λ m. m == l)) e

  IsBack-IsTold :
      (lease : Option String) (moment : Moment) (dir : Dir) (st told after : ServiceState)
      → IsTold moment.task_id st told
      → IsBack host lease moment dir told after
      → IsBack host lease moment dir st after
  IsBack-IsTold lease moment dir st told after t b = record {
    leases = b.leases ∙ ap (delete (of_task_id moment.task_id)) (t.leases);
    locked = b.locked ∙ release-locked lease st told t.locked;
    background = b.background ∙ t.background;
    guards = b.guards;
    ended = b.ended;
  }

  -- the ways in which `start_task` ends
  abbrev pub Ends :
      Submission
      → Option String
      → Moment
      → TaskRow
      → ServiceState
      → Result (Unit {0}) × ServiceState
      → Type 0
  Ends s lease moment row st r =
      ((r.0 ≡ ok tt) × IsStarted s lease moment row st r.1)
      ⊎ (((c : Code) × (r.0 ≡ err c)) × IsBack host lease moment st.world.guards st r.1)

  schedule-cases :
      (moment : Moment) (st : ServiceState)
      → (schedule host moment st
          ≡ (ok tt, record st { background = st.background ++ moment.task_id ∷ [] }))
        ⊎ (schedule host moment st ≡ (err Errors.not_a_bridge_error, st))
  unfolding schedule
  schedule-cases moment st = elim (Bool-cases schedules) [
    | inl e ↦ inl (simp e)
    | inr e ↦ inr (simp e)
  ]

  -- the end of `start_task` once its guard stands, or none is wanted
  scheduled-Ends :
      (s : Submission) (p : Prepared) (lease : Option String) (moment : Moment) (row : TaskRow)
      (st entered : ServiceState)
      → select_one (of_id moment.task_id) entered.world.db.tasks ≡ some row
      → entered.locked ≡ st.locked
      → entered.background ≡ st.background
      → delete (of_task_id moment.task_id) entered.leases
        ≡ delete (of_task_id moment.task_id) st.leases
      → ((told : ServiceState)
          → IsTold moment.task_id entered told
          → HoldsLease s moment lease st told
            × (remove_guard host (is_some lease) lease moment (popped host moment told)
                ≡ (ok tt, with_guards host st.world.guards (popped host moment told))))
      → Ends s lease moment row st (
          or_roll_back host
            (schedule host moment (record_advice host p moment entered))
            (is_some lease)
            lease
            moment)
  scheduled-Ends s p lease moment row st entered found locked background leases held =
      let told = record_advice host p moment entered in
      let t = record_advice-IsTold host moment.task_id p moment entered in
      let (holds, removed) = held told t in
      let (kept, there, same) = t.columns row found in
      elim (schedule-cases moment told) [
        | inl k ↦
            subst
              (λ r. Ends s lease moment row st (or_roll_back host r (is_some lease) lease moment))
              (sym k)
              (inl (
                refl,
                record {
                  locked = t.locked ∙ locked;
                  background = ap (λ b. b ++ moment.task_id ∷ []) (t.background ∙ background);
                  task = (kept, there, same);
                  holds =
                      holds_any s moment lease st told (told.background ++ moment.task_id ∷ [])
                        holds;
                },
              ))
        | inr k ↦
            let (raised, back) =
              roll_back-IsBack host (is_some lease) lease Errors.not_a_bridge_error moment
                st.world.guards told kept there removed in
            subst
              (λ r. Ends s lease moment row st (or_roll_back host r (is_some lease) lease moment))
              (sym k)
              (inr (
                raised,
                record {
                  leases =
                      back.leases ∙ ap (delete (of_task_id moment.task_id)) (t.leases) ∙ leases;
                  locked = back.locked ∙ release-locked lease st told (t.locked ∙ locked);
                  background = back.background ∙ t.background ∙ background;
                  guards = back.guards;
                  ended = back.ended;
                },
              ))
      ]

  unremoved :
      (moment : Moment) (dir : Dir) (st : ServiceState)
      → st.world.guards ≡ dir
      → remove_guard host false none moment (popped host moment st)
        ≡ (ok tt, with_guards host dir (popped host moment st))
  unremoved moment dir st e = ap (λ d. (ok tt, with_guards host d (popped host moment st))) e

  removed_again :
      (moment : Moment) (lease : String) (dir back : Dir) (st : ServiceState)
      → st.world.guards ≡ dir
      → unlinks ≡ true
      → remove recovery.host true lease moment.task_id dir ≡ (ok tt, back)
      → remove_guard host true (some lease) moment (popped host moment st)
        ≡ (ok tt, with_guards host back (popped host moment st))
  removed_again moment lease dir back st e can h =
      let r : remove recovery.host unlinks lease moment.task_id st.world.guards ≡ (ok tt, back) =
        ap₂ (λ u d. remove recovery.host u lease moment.task_id d) can e ∙ h in
      ap (λ (r : Result (Unit {0}) × Dir). (r.0, with_guards host r.1 (popped host moment st))) r

  -- where guards can be unlinked, a created task is started or ended
  pub start_task-Ends :
      (s : Submission) (p : Prepared) (lease : Option String) (moment : Moment) (row : TaskRow)
      (st : ServiceState)
      → unlinks ≡ true
      → select_one (of_id moment.task_id) st.world.db.tasks ≡ some row
      → Ends s lease moment row st (start_task host s p lease moment st)
  unfolding start_task guard_task
  start_task-Ends s p none moment row st can found =
      scheduled-Ends s p none moment row st st found refl refl refl
        λ told t. ((t.leases, t.guards), unremoved moment st.world.guards told t.guards)
  start_task-Ends s p (some lease) moment row st can found =
      elim (guard_task-cases host s moment lease st) [
        | inl (c, k) ↦
            subst
              (λ r. Ends s (some lease) moment row st (after_guard host r p (some lease) moment))
              (sym k)
              (inr (
                roll_back-IsBack host false (some lease) c moment st.world.guards st row found
                  refl))
        | inr (dir, slot, k, made, removable) ↦
            subst
              (λ r. Ends s (some lease) moment row st (after_guard host r p (some lease) moment))
              (sym k)
              (scheduled-Ends s p (some lease) moment row st
                (leased host moment lease (with_guards host dir st)) found refl refl
                (delete_last (of_task_id moment.task_id) st.leases (moment.task_id, lease)
                  (eq_refl moment.task_id))
                λ told t. (
                  (
                    t.leases,
                    (
                      slot,
                      subst
                          (λ d.
                            read recovery.host lease d
                            ≡ ok (some (made_guard host s moment lease slot)))
                          (sym t.guards) made,
                    ),
                  ),
                  removed_again moment lease dir st.world.guards told t.guards can removable,
                ))
      ]
