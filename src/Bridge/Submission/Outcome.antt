-- ===== src/Bridge/Submission/Outcome.antt =====
-- What a submission leaves: a task that runs under its lease and guard, or the service as it was.
use server_fs_mcp.Prelude.{
  Option, String, Bool, ℕ, List, none, some, ◌==◌, ◌≡◌, refl, inl, inr, ◌∙◌, ap, sym, [], ◌∷◌, ◌++◌,
  false, true, ◌⊎◌, arith, any, subst, eq_refl,
}
use server_fs_mcp.Bridge.Errors.{ok, err, Code, ok-injective}
use server_fs_mcp.Sql.{select_one, delete}
use server_fs_mcp.Bridge.Lease.{lease_id}
use server_fs_mcp.Bridge.Policy.{writes, AgentProfile, profile_of, review, workspace_write}
use server_fs_mcp.Bridge.Status.{TaskStatus}
use server_fs_mcp.Bridge.Guards.Files.{read}
use server_fs_mcp.Bridge.Store.Tables.{TaskRow, TaskRecord, of_id}
use server_fs_mcp.Bridge.Recovery.Ended.{HasEnded}
use server_fs_mcp.Bridge.Submission.{
  SubmissionHost, ServiceState, Submission, Submitted, Moment, granted,
}
use server_fs_mcp.Bridge.Submission.Prepare.{Prepared, existing_task}
use server_fs_mcp.Bridge.Submission.Submit.{
  of_task_id, release, enter_task, admit_task, new_task, profile_text,
}
use server_fs_mcp.Bridge.Submission.Lease.{lease_for}
use server_fs_mcp.Bridge.Submission.Taken.{lease_for-IsTaken, met}
use server_fs_mcp.Bridge.Submission.Entered.{made_guard}
use server_fs_mcp.Bridge.Submission.Started.{IsStarted}
use server_fs_mcp.Bridge.Submission.Admitted.{
  IsUndone, enter_task-Enters, delete_of_none, added_row,
}

profile_text_lem : (profile : AgentProfile) → profile_of (profile_text profile) ≡ some profile
unfolding profile_of
profile_text_lem review = refl
profile_text_lem workspace_write = refl

module _ (host : SubmissionHost) where
  open host use {recovery, lock}
  open host.recovery use {unlinks}

  -- the service after a submission that fails, which asked for its lease in the state `before`: no lock,
  -- lease, coroutine or guard is left, and the task, if it was created, has ended
  pub record IsRefused (moment : Moment) (before after : ServiceState) : Type 0 where
    pub leases : after.leases ≡ before.leases
    pub locked : after.locked ≡ before.locked
    pub background : after.background ≡ before.background
    pub guards : after.world.guards ≡ before.world.guards
    pub tasks : HasEnded moment.task_id after.world.db ⊎ (after.world.db ≡ before.world.db)

  IsRefused-refl : (moment : Moment) (st : ServiceState) → IsRefused moment st st
  IsRefused-refl moment st = record {
    leases = refl;
    locked = refl;
    background = refl;
    guards = refl;
    tasks = inr refl;
  }

  -- a submission that is undone once it had its lease, if it wants one
  undone-IsRefused :
      (lease : Option String) (moment : Moment) (before after : ServiceState) (locked : List String)
      → any (of_task_id moment.task_id) before.leases ≡ false
      → (release host lease (record before { locked = locked })).locked ≡ before.locked
      → IsUndone host lease moment (record before { locked = locked }) after
      → IsRefused moment before after
  undone-IsRefused lease moment before after locked fresh freed u = record {
    leases = u.leases ∙ delete_of_none (of_task_id moment.task_id) before.leases fresh;
    locked = u.locked ∙ freed;
    background = u.background;
    guards = u.guards;
    tasks = u.tasks;
  }

  failed-IsUndone :
      (s : Submission) (p : Prepared) (lease : Option String) (moment : Moment)
      (mid after : ServiceState) (c : Code)
      → unlinks ≡ true
      → enter_task host s p lease moment mid ≡ (err c, after)
      → IsUndone host lease moment mid after
  failed-IsUndone s p lease moment mid after c can h =
      elim (enter_task-Enters host s p lease moment mid can) [
        | inl (answer, e, _, _) ↦ cc (e, h)
        | inr (c', e, undone) ↦ subst (λ r. IsUndone host lease moment mid r.1) h undone
      ]

  -- the row of a task says what its submission asked for
  pub record IsAsked (s : Submission) (p : Prepared) (row : TaskRow) : Type 0 where
    pub queued : row.status ≡ TaskStatus.queued
    pub runtime : row.runtime ≡ s.runtime
    pub workdir : row.workdir_alias ≡ s.workdir
    pub profile : profile_of row.profile ≡ some p.request.requested_profile
    pub cwd : row.relative_cwd ≡ p.request.normalized_path
    pub key : row.idempotency_key ≡ s.idempotency_key

  -- what a submission of a new task leaves, which asked for its lease in the state `before`: the task is
  -- stored as it was asked for, and scheduled; a writer holds the lease of its workdir and its guard
  pub record IsSubmitted (s : Submission) (p : Prepared) (moment : Moment)
      (before after : ServiceState) : Type 0 where
    pub background : after.background ≡ before.background ++ moment.task_id ∷ []
    pub task :
        (row : TaskRow) × (select_one (of_id moment.task_id) after.world.db.tasks ≡ some row)
        × (row.columns ≡ (added_row host s p moment).columns)
        × IsAsked s p row
    pub reader :
        writes p.request.requested_profile ≡ false
        → (after.locked ≡ before.locked)
          × (after.leases ≡ before.leases)
          × (after.world.guards ≡ before.world.guards)
    pub writer :
        writes p.request.requested_profile ≡ true
        → (lease : String) × (lease_id p.policy.slot p.policy.alias ≡ some lease)
          × (any (λ l. l == lease) before.locked ≡ false)
          × (lock lease ≡ granted)
          × (after.locked ≡ lease ∷ before.locked)
          × (any (of_task_id moment.task_id) after.leases ≡ true)
          × ((slot : Option ℕ) × (read recovery.host lease after.world.guards
                ≡ ok (some (made_guard host s moment lease slot))))

  entered-IsStarted :
      (s : Submission) (p : Prepared) (lease : Option String) (moment : Moment)
      (mid after : ServiceState) (r : Submitted)
      → unlinks ≡ true
      → enter_task host s p lease moment mid ≡ (ok r, after)
      → (r.task_id ≡ moment.task_id)
        × IsStarted host s lease moment (added_row host s p moment) mid after
  entered-IsStarted s p lease moment mid after r can h =
      elim (enter_task-Enters host s p lease moment mid can) [
        | inl (answer, e, id, started) ↦
            let same : answer ≡ r = ok-injective answer r (sym e ∙ ap (λ q. q.0) h) in
            (
              ap (λ (a : Submitted). a.task_id) (sym same) ∙ id,
              subst (λ q. IsStarted host s lease moment (added_row host s p moment) mid q.1) h
                  started,
            )
        | inr (c, e, undone) ↦ cc (e, h)
      ]

  any_last :
      (p : String × String → Bool) (xs : List (String × String)) (y : String × String)
      → p y ≡ true
      → any p (xs ++ y ∷ []) ≡ true
  any_last p [] y h = rw h refl
  any_last p (x ∷ xs) y h = ground (arith, any_last p xs y h)

  added_row-IsAsked :
      (s : Submission) (p : Prepared) (moment : Moment) (row : TaskRow)
      → row.columns ≡ (added_row host s p moment).columns
      → IsAsked s p row
  unfolding new_task profile_of
  added_row-IsAsked s p moment row same = record {
    queued = ap (λ (c : TaskRecord). c.status) same;
    runtime = ap (λ (c : TaskRecord). c.runtime) same;
    workdir = ap (λ (c : TaskRecord). c.workdir_alias) same;
    profile =
        ap (λ (c : TaskRecord). profile_of c.profile) same
        ∙ profile_text_lem p.request.requested_profile;
    cwd = ap (λ (c : TaskRecord). c.relative_cwd) same;
    key = ap (λ (c : TaskRecord). c.idempotency_key) same;
  }

  -- Where guards can be unlinked, a submission that has no task yet and succeeds under the lock has
  -- stored its task as queued and scheduled it; a writer's lease, which nobody held, is then locked and
  -- entered, and its guard names the task; a reader's submission leaves leases, locks and guards alone.
  pub admit_holds :
      (s : Submission) (moment : Moment) (p : Prepared) (st after : ServiceState) (r : Submitted)
      → unlinks ≡ true
      → existing_task s.idempotency_key st ≡ none
      → admit_task host s moment p st ≡ (ok r, after)
      → (r.task_id ≡ moment.task_id)
        × IsSubmitted s p moment (met host p.request.requested_profile p.policy moment st) after
  unfolding admit_task
  admit_holds s moment p st after r can new h =
      let t = lease_for-IsTaken host p.request.requested_profile p.policy moment st in
      let mid = (lease_for host p.request.requested_profile p.policy moment st).1 in
      elim t.outcome [
        | inl (c, e, _) ↦ cc (rw (new, e) at h)
        | inr (inl (e, unchanged, reads)) ↦
            let (id, d) = entered-IsStarted s p none moment mid after r can (rw (new, e) at h) in
            let (row, found, same) = d.task in
            (
              id,
              record {
                background =
                    d.background
                    ∙ ap (λ (u : ServiceState). u.background ++ moment.task_id ∷ []) unchanged;
                task = (row, found, same, added_row-IsAsked s p moment row same);
                reader = λ _. (
                  d.locked ∙ ap (λ (u : ServiceState). u.locked) unchanged,
                  d.holds.0 ∙ ap (λ (u : ServiceState). u.leases) unchanged,
                  d.holds.1 ∙ ap (λ (u : ServiceState). u.world.guards) unchanged,
                );
                writer = λ w. absurd (cc (w, reads));
              },
            )
        | inr (inr (lease, e, w, is, free, given, left)) ↦
            let (id, d) =
              entered-IsStarted s p (some lease) moment mid after r can (rw (new, e) at h) in
            let (row, found, same) = d.task in
            (
              id,
              record {
                background =
                    d.background
                    ∙ ap (λ (u : ServiceState). u.background ++ moment.task_id ∷ []) left;
                task = (row, found, same, added_row-IsAsked s p moment row same);
                reader = λ reads. absurd (cc (w, reads));
                writer = λ _. (
                  lease,
                  is,
                  free,
                  given,
                  d.locked ∙ ap (λ (u : ServiceState). u.locked) left,
                  ap (any (of_task_id moment.task_id)) d.holds.0
                      ∙ any_last (of_task_id moment.task_id) _ (moment.task_id, lease)
                          (eq_refl moment.task_id),
                  d.holds.1,
                );
              },
            )
      ]

  release_taken :
      (lease : String) (before : ServiceState)
      → any (λ l. l == lease) before.locked ≡ false
      → (release host (some lease) (record before { locked = lease ∷ before.locked })).locked
        ≡ before.locked
  unfolding delete
  release_taken lease before free =
      rw (eq_refl lease) (delete_of_none (λ l. l == lease) before.locked free)

  -- Where guards can be unlinked and the id of the task is new, a submission that fails under the lock
  -- keeps nothing of what it took since it asked for its lease: the leases, the locks, the coroutines
  -- and the guards are as they were then, and the task, if it was created, has ended.
  pub admit_task_fails :
      (s : Submission) (moment : Moment) (p : Prepared) (st after : ServiceState) (c : Code)
      → let before = met host p.request.requested_profile p.policy moment st in
        unlinks ≡ true
        → any (of_task_id moment.task_id) before.leases ≡ false
        → existing_task s.idempotency_key st ≡ none
        → admit_task host s moment p st ≡ (err c, after)
        → IsRefused moment before after
  unfolding admit_task
  admit_task_fails s moment p st after c can fresh new h =
      let t = lease_for-IsTaken host p.request.requested_profile p.policy moment st in
      let before = met host p.request.requested_profile p.policy moment st in
      let mid = (lease_for host p.request.requested_profile p.policy moment st).1 in
      elim t.outcome [
        | inl (c', e, left) ↦
            let same : mid ≡ after = ap (λ r. r.1) (rw (new, e) at h) in
            subst (IsRefused moment before) (sym left ∙ same) (IsRefused-refl moment before)
        | inr (inl (e, left, reads)) ↦
            let undone = failed-IsUndone s p none moment mid after c can (rw (new, e) at h) in
            undone-IsRefused none moment before after before.locked fresh refl
              (subst (λ u. IsUndone host none moment u after) left undone)
        | inr (inr (lease, e, _, _, free, _, left)) ↦
            let undone =
              failed-IsUndone s p (some lease) moment mid after c can (rw (new, e) at h) in
            undone-IsRefused (some lease) moment before after (lease ∷ before.locked) fresh
              (release_taken lease before free)
              (subst (λ u. IsUndone host (some lease) moment u after) left undone)
      ]
