-- ===== src/Bridge/Answers/Stopping.antt =====
-- The steps of a cancellation (service.py).
use server_fs_mcp.Bridge.Errors
use server_fs_mcp.Bridge.Errors.{Result, Action, pure, ok, err, >>=-eq-ok, ok-injective}
use server_fs_mcp.Prelude.{
  String, Bool, true, false, Option, List, none, some, ◌≡◌, ◌⊎◌, refl, sym, ◌∙◌, ap, ap₂,
  Bool-cases, Option-cases, inl, inr, subst, if◌then◌else◌, ◌++◌, ◌∷◌, [], arith, eq_refl,
}
use server_fs_mcp.Sql.{select_one}
use server_fs_mcp.Bridge.Store.Tables.{Db, TaskRow, TaskRecord, of_id, task_from_row}
use server_fs_mcp.Bridge.Recovery.Ended.{HasEnded}
use server_fs_mcp.Bridge.Submission.{ServiceState}
use server_fs_mcp.Bridge.Submission.Submit.{of_task_id}
use server_fs_mcp.Bridge.Answers.{has}
use server_fs_mcp.Bridge.Answers.Respond.{ask_provider}
use server_fs_mcp.Bridge.Answers.Cancel.{release_lease, stop_or_release}
use server_fs_mcp.Bridge.Answers.Desk.{
  Desk, AnswerHost, Delivery, in_service, in_store, deliver, of_waiter, cancel_waiter, cancellation,
}
use server_fs_mcp.Bridge.Recovery.Interrupts.{found_task}
use server_fs_mcp.Bridge.Answers.Cancelled.{release_lease-none}
use server_fs_mcp.Bridge.Store.Tasks.{get_task}

abbrev pub db_of : Desk → Db
db_of d = d.service.world.db

-- the coroutine of the task is asked to stop, or it has none and no lease
abbrev pub IsStopped : String → Desk → Type 0
IsStopped id d =
    ((has id d.service.background ≡ true) × (has id d.stopping ≡ true))
    ⊎ ((has id d.service.background ≡ false) × (select_one (of_task_id id) d.service.leases ≡ none))

deliver-db : (id : String) (x : Delivery) (d : Desk) → db_of (deliver id x d) ≡ db_of d
unfolding deliver
deliver-db id x d = elim (Option-cases (select_one (of_waiter id) d.waiters)) [
  | inl e ↦ rw (e, deliver) refl
  | inr (w, e) ↦ rw (e, deliver) refl
]

pub cancel_waiter-db : (o : Option String) (d : Desk) → db_of (cancel_waiter o d) ≡ db_of d
unfolding cancel_waiter
cancel_waiter-db none d = refl
cancel_waiter-db (some id) d = deliver-db id cancellation d

no_task :
    (id : String) (db : Db)
    → select_one (of_id id) db.tasks ≡ none
    → get_task id db ≡ (err Errors.task_not_found, db)
unfolding get_task
no_task id db e = rw e refl

-- an action on the tables that changes nothing
stored :
    {A : Type 0} (m : Action Db A) (d : Desk) (r : Result A)
    → m (db_of d) ≡ (r, db_of d)
    → in_store m d ≡ (r, d)
stored m d r h =
    ap
      (λ (x : Result _ × Db). (
        x.0,
        record d { service = record d.service { world = record d.service.world { db = x.1 } } },
      ))
      h

pub get_task-found :
    (id : String) (d after : Desk) (task : TaskRecord)
    → in_store (get_task id) d ≡ (ok task, after)
    → (row : TaskRow) × (select_one (of_id id) (db_of d).tasks ≡ some row)
      × (task ≡ task_from_row row)
      × (d ≡ after)
get_task-found id d after task h = elim (Option-cases (select_one (of_id id) (db_of d).tasks)) [
  | inl e ↦
      let k = stored (get_task id) d (err Errors.task_not_found) (no_task id (db_of d) e) in
      cc (ap (λ (m : Result TaskRecord × Desk). m.0) (sym k ∙ h))
  | inr (row, e) ↦
      let k = stored (get_task id) d (ok (task_from_row row)) (found_task id (db_of d) row e) in
      let same = sym h ∙ k in
      (
        row,
        e,
        ok-injective task (task_from_row row) (ap (λ (m : Result TaskRecord × Desk). m.0) same),
        sym (ap (λ (m : Result TaskRecord × Desk). m.1) same),
      )
]

has-last : (id : String) (ids : List String) → has id (ids ++ id ∷ []) ≡ true
has-last id [] = rw (eq_refl id) refl
has-last id (x ∷ xs) = ground (arith, has-last id xs)

module _ (host : AnswerHost) (meanwhile : Desk → Desk) where
  given_back :
      (id : String) (d after : Desk) (u : Unit {0})
      → in_service (release_lease host meanwhile id) d ≡ (ok u, after)
      → (select_one (of_task_id id) after.service.leases ≡ none)
        × (db_of after ≡ db_of d)
        × (after.service.background ≡ d.service.background)
  given_back id d after u h = release_lease-none host meanwhile id d.service after.service u (
      ap₂ (λ (a : Result (Unit {0})) (b : ServiceState). (a, b))
        (ap (λ (m : Result (Unit {0}) × Desk). m.0) h)
        (ap (λ (m : Result (Unit {0}) × Desk). m.1.service) h))

  -- the coroutine is asked to stop, or the lease is given back
  pub stop_or_release-IsStopped :
      (id : String) (was_queued : Bool) (d after : Desk) (u : Unit {0})
      → stop_or_release host meanwhile id was_queued d ≡ (ok u, after)
      → IsStopped id after × (db_of after ≡ db_of d)
  unfolding stop_or_release
  stop_or_release-IsStopped id was_queued d after u h =
      elim (Bool-cases (has id d.service.background)) [
        | inr e ↦
            let (none_left, same, still) = given_back id d after u (rw (e, stop_or_release) at h) in
            (inr (ap (has id) still ∙ e, none_left), same)
        | inl e ↦
            let stopping : Desk = record d { stopping = d.stopping ++ id ∷ [] } in
            elim (Bool-cases was_queued) [
              | inr f ↦
                  let same : stopping ≡ after =
                    ap (λ (m : Result (Unit {0}) × Desk). m.1) (rw (e, f, stop_or_release) at h) in
                  subst (λ (x : Desk). IsStopped id x × (db_of x ≡ db_of d)) same
                    (inl (e, has-last id d.stopping), refl)
              | inl f ↦
                  let k : in_service (release_lease host meanwhile id) stopping ≡ (ok u, after) =
                    rw (e, f, stop_or_release) at h in
                  let (none_left, same, still) = given_back id stopping after u k in
                  let asked : d.stopping ++ id ∷ [] ≡ after.stopping =
                    ap (λ (m : Result (Unit {0}) × Desk). m.1.stopping) k in
                  (
                    inl (ap (has id) still ∙ e, ap (has id) (sym asked) ∙ has-last id d.stopping),
                    same,
                  )
            ]
      ]

  pub ask_provider-HasEnded :
      (id : String) (asks : Bool) (task : TaskRecord) (d after : Desk) (u : Unit {0})
      → ((x : Desk) → HasEnded id (db_of x) → HasEnded id (db_of (meanwhile x)))
      → (if asks then ask_provider host meanwhile id task else pure tt) d ≡ (ok u, after)
      → HasEnded id (db_of d)
      → HasEnded id (db_of after)
  unfolding ask_provider
  ask_provider-HasEnded id false task d after u keeps h ended =
      subst (λ x. HasEnded id (db_of x)) (ap (λ (m : Result (Unit {0}) × Desk). m.1) h) ended
  ask_provider-HasEnded id true task d after u keeps h ended =
      elim (Option-cases (host.submission.recovery.adapters task.runtime)) [
        | inl e ↦
            subst (λ x. HasEnded id (db_of x))
              (ap (λ (m : Result (Unit {0}) × Desk). m.1) (rw (e, ask_provider) at h)) ended
        | inr (adapter, e) ↦
            subst (λ x. HasEnded id (db_of x))
              (ap (λ (m : Result (Unit {0}) × Desk). m.1) (rw (e, ask_provider) at h))
              (keeps (record d { asked = d.asked ++ id ∷ [] }) ended)
      ]
